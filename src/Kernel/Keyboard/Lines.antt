-- ===== src/Kernel/Keyboard/Lines.antt =====
-- A whole line: its keys and Enter run the command that its first word names, with its words.
use minicore_os.Base.{
  ℕ, ◌+◌, ◌-◌, ◌≡◌, ◌≢◌, ◌<◌, refl, true, false, some, List, [], ◌∷◌, ◌++◌, ◌==◌, arith, ap, ◌∙◌,
  length, set, Outcome,
}
use minicore_os.Base.Int.{ℤ}
use minicore_os.Terminal.{terminal_putchar}
use minicore_os.Fs.Text.{text}
use minicore_os.Shell.{
  Shell, shell_buffer_size, ShellCommand, commands, command_from, shell_max_args,
  shell_parse_command,
}
use minicore_os.Shell.Edit.{IsLine, all_printable, blank_bytes, set-append, length-replicate}
use minicore_os.Shell.Find.{Search, found, missing, shell_find_command_lem}
use minicore_os.Shell.Words.{words}
use minicore_os.Shell.Rounds.{args, take}
use minicore_os.Shell.Parse.{shell_parse_command_lem}
use minicore_os.Kernel.{Kernel, Machine, Flow, ◌▸◌, show}
use minicore_os.Kernel.Commands.{run_command}
use minicore_os.Kernel.Keyboard.{
  prompt, unknown_command, dispatch_entry, dispatch, execute_args, shell_execute_command,
  clear_line, enter, key_enter, key_down, handle_key, shell_process_input,
}
use minicore_os.Kernel.Keyboard.Keys.{
  handle_keys, spell, Free, SameRest, SameRest-trans, handle_keys_last, handle_keys-spell,
}

-- What the words of a line do in the kernel `k`: the command runs whose name is the first of them, with
-- all of them as arguments.
pub data Executes (hw : Machine) (name : List ℕ) (more : List (List ℕ)) (k : Kernel)
    : Outcome Flow → Type 0 where
  runs :
      (i : ℕ) (c : ShellCommand)
      → command_from commands i ≡ some c
      → text name ≡ text c.name
      → Executes hw name more k (run_command hw c.handler (name ∷ more) k)
  unknown :
      ((i : ℕ) (c : ShellCommand) → command_from commands i ≡ some c → text name ≢ text c.name)
      → Executes hw name more k (show (unknown_command name) k)

dispatch-Executes :
    (hw : Machine) (name : List ℕ) (more : List (List ℕ)) (k : Kernel) {r : ℤ}
    → Search name commands 0 r
    → Executes hw name more k (dispatch hw r name (name ∷ more) k)
unfolding dispatch dispatch_entry
dispatch-Executes hw name more k (found i c e same) =
    let at_entry : command_from commands (0 + i) ≡ some c =
      ap (command_from commands) {x = 0 + i} {y = i} (omega arith) ∙ e in
    rw at_entry (runs i c e same)
dispatch-Executes hw name more k (missing none_has) = unknown none_has

execute_args-Executes :
    (hw : Machine) (name : List ℕ) (more : List (List ℕ)) (k : Kernel)
    → Executes hw name more k (execute_args hw (name ∷ more) k)
unfolding execute_args
execute_args-Executes hw name more k =
    dispatch-Executes hw name more k (shell_find_command_lem name)

text-printable : (l zs : List ℕ) → all_printable l ≡ true → text (l ++ 0 ∷ zs) ≡ l
text-printable [] zs h = refl
text-printable (c ∷ l) zs h = ground (arith, text-printable l zs)

-- The 0 that `shell_process_input` writes behind the line.
ended-text :
    (l zs : List ℕ) → all_printable l ≡ true → 0 < length zs → text (set (l ++ zs) (length l) 0) ≡ l
ended-text l [] h some_room = absurd (omega arith)
ended-text l (z ∷ zs) h some_room = ap text (set-append l z zs 0) ∙ text-printable l zs h

line-text : {s : Shell} {l : List ℕ} → IsLine s l → text (set s.input_buffer s.buffer_pos 0) ≡ l
line-text {s} {l} v =
    ap (λ b. text (set b s.buffer_pos 0)) v.buffer
    ∙ ap (λ n. text (set (l ++ blank_bytes (shell_buffer_size - length l)) n 0)) v.at_end
    ∙ ended-text l (blank_bytes (shell_buffer_size - length l)) v.chars
        (omega (arith, length-replicate (shell_buffer_size - length l), v.short))

line-not-nil :
    (l name : List ℕ) (more : List (List ℕ))
    → take 15 (words l) ≡ name ∷ more
    → (length l == 0) ≡ false
line-not-nil [] name more e = cc e
line-not-nil (c ∷ l) name more e = ground arith

-- Enter on the line `l`.
pub enter-Executes :
    (hw : Machine) (k : Kernel) {l name : List ℕ} {more : List (List ℕ)}
    → IsLine k.shell l
    → take 15 (words l) ≡ name ∷ more
    → (k' : Kernel) × (o : Outcome Flow) × SameRest k k'
      × Executes hw name more k' o
      × (enter hw k ≡ (o ▸ λ k. show prompt (clear_line k)))
unfolding enter shell_execute_command
enter-Executes hw k {l} {name} {more} v e =
    let b = set k.shell.input_buffer k.shell.buffer_pos 0 in
    let parsed = shell_parse_command b shell_max_args in
    let k' : Kernel = record k {
      terminal = terminal_putchar b'\n' k.terminal;
      shell = record k.shell { input_buffer = parsed.1 };
    } in
    let found_args : args parsed.1 parsed.0 ≡ name ∷ more =
      shell_parse_command_lem b shell_max_args ∙ ap (λ t. take 15 (words t)) (line-text v) ∙ e in
    let some_line : (k.shell.buffer_pos == 0) ≡ false =
      ap (λ n. n == 0) v.at_end ∙ line-not-nil l name more e in
    (
      k',
      execute_args hw (name ∷ more) k',
      refl,
      execute_args-Executes hw name more k',
      rw some_line
          (ap (λ argv. execute_args hw argv k' ▸ λ k. show prompt (clear_line k)) found_args),
    )

handle_key-enter : (hw : Machine) (k : Kernel) → handle_key hw key_enter k ≡ enter hw k
unfolding handle_key key_down shell_process_input
handle_key-enter hw k = refl

-- At an empty line with no modifier key held: the scan codes of a line of at most 255 printable
-- characters, with the words `name ∷ more` (of which 15 count), and then Enter, run the command of the
-- table that has this name with the words as its arguments, or report that there is none, in a kernel
-- that differs from the first in the screen and the shell only; then the prompt is printed and the
-- line is empty again, unless the command does not end.
pub handle_keys-line :
    (hw : Machine) (k : Kernel) (l name : List ℕ) (more : List (List ℕ))
    → IsLine k.shell []
    → Free k
    → all_printable l ≡ true
    → length l < 256
    → take 15 (words l) ≡ name ∷ more
    → (k' : Kernel) × (o : Outcome Flow) × SameRest k k'
      × Executes hw name more k' o
      × (handle_keys hw (spell l ++ key_enter ∷ []) k ≡ (o ▸ λ k. show prompt (clear_line k)))
handle_keys-line hw k l name more v free ps room e =
    let (k1, typed, t) = handle_keys-spell hw l (key_enter ∷ []) k v free ps room in
    let (k2, o, same, ex, entered) = enter-Executes hw k1 t.line e in
    (
      k2,
      o,
      SameRest-trans k k1 k2 t.rest same,
      ex,
      typed ∙ handle_keys_last hw key_enter k1 ∙ handle_key-enter hw k1 ∙ entered,
    )
