-- ===== src/Kernel/Keyboard/Keeps.antt =====
-- Every key leaves a kernel that is ready for the next one.
use minicore_os.Base.{
  ℕ, ◌≡◌, refl, Bool-cases, List, [], ◌∷◌, arith, inl, inr, ap, ◌∙◌, sym, subst, length, length-set,
  set, Outcome, done, ◌==◌,
}
use Prim.Native.Nat.{bit_and}
use minicore_os.Base.Int.{ℤ, pos}
use minicore_os.Terminal.{Terminal}
use minicore_os.Terminal.Cursor.{OnScreen, putchar-OnScreen}
use minicore_os.Shell.{
  Shell, commands, shell_buffer_size, shell_max_args, shell_parse_command, shell_find_command,
  shell_clear_buffer, keyboard_read_scancode, scancode_to_ascii,
}
use minicore_os.Shell.Edit.{
  IsLine, IsLine-length, shell_clear_buffer-IsLine, type_char-IsLine, type_char-Shown,
  shell_backspace-IsLine, shell_backspace-nil, shell_backspace-Shown, printable,
}
use minicore_os.Shell.Find.{Search, found, missing, shell_find_command_lem}
use minicore_os.Shell.Rounds.{args}
use minicore_os.Shell.Typing.{last_char}
use minicore_os.Shell.Sizes.{shell_parse_command-length}
use minicore_os.Kernel.{Kernel, Machine, Flow, next, halted, ◌▸◌, with_terminal, show}
use minicore_os.Kernel.Commands.Keeps.{run_command-Keeps}
use minicore_os.Kernel.Invariant.{
  IsKernel, Keeps, Keeps-next, Valid-terminal, show-Valid, show-Keeps,
}
use minicore_os.Kernel.Keyboard.{
  prompt, unknown_command, dispatch_entry, dispatch, execute_args, shell_execute_command,
  clear_line, enter, shell_process_input, is_shift, key_enter, key_lctrl, key_backspace,
  release_flag, press_flag, key_up, back, type_key, key_down, handle_key, keyboard_handler,
}

-- The shell waits for the next key of a line.
abbrev pub IsReady : Kernel → Type 0
IsReady k = IsKernel k × ((l : List ℕ) × IsLine k.shell l)

-- A step ends, without a fault, ready for the next key or halted in a valid kernel.
abbrev pub ReadyFlow : Flow → Type 0
ReadyFlow (next k) = IsReady k
ReadyFlow (halted k) = IsKernel k

abbrev pub Readies : Outcome Flow → Type 0
Readies o = (f : Flow) × (o ≡ done f) × ReadyFlow f

-- A valid kernel with another shell, whose buffer has its size.
Valid-shell :
    {k : Kernel} {s : Shell}
    → IsKernel k
    → length s.input_buffer ≡ shell_buffer_size
    → IsKernel (record k { shell = s })
Valid-shell (bs, v) size = (
  bs,
  record {
    heap = v.heap;
    queue = v.queue;
    sched = v.sched;
    idle = v.idle;
    fs = v.fs;
    screen = v.screen;
    buffer = size;
  },
)

dispatch-Keeps :
    (hw : Machine) (name : List ℕ) (argv : List (List ℕ)) {k : Kernel}
    → IsKernel k
    → Keeps (dispatch hw (shell_find_command name) name argv k)
unfolding dispatch dispatch_entry
dispatch-Keeps hw name argv {k} v = by_search (shell_find_command_lem name)
  where
    by_search : {r : ℤ} → Search name commands 0 r → Keeps (dispatch hw r name argv k)
    by_search (found i c e _) =
        subst (λ j. Keeps (dispatch hw (pos j) name argv k)) {x = i} (omega arith)
          (subst (λ o. Keeps (dispatch_entry hw o argv k)) (sym e)
            (run_command-Keeps hw c.handler argv v))
    by_search (missing _) = show-Keeps (unknown_command name) v

execute_args-Keeps :
    (hw : Machine) (argv : List (List ℕ)) {k : Kernel} → IsKernel k → Keeps (execute_args hw argv k)
unfolding execute_args
execute_args-Keeps hw [] v = Keeps-next v
execute_args-Keeps hw (name ∷ more) v = dispatch-Keeps hw name (name ∷ more) v

shell_execute_command-Keeps :
    (hw : Machine) {k : Kernel} → IsKernel k → Keeps (shell_execute_command hw k)
unfolding shell_execute_command
shell_execute_command-Keeps hw {k} (bs, v) = elim (Bool-cases (k.shell.buffer_pos == 0)) [
  | inl e ↦ rw e (Keeps-next (bs, v))
  | inr e ↦
      let p = shell_parse_command k.shell.input_buffer shell_max_args in
      rw e (
        execute_args-Keeps hw (args p.1 p.0) (
          Valid-shell {s = record k.shell { input_buffer = p.1 }} (bs, v)
            (shell_parse_command-length k.shell.input_buffer shell_max_args ∙ v.buffer)))
]

-- A command line that has run is followed by an empty one.
fresh_line : {o : Outcome Flow} → Keeps o → Readies (o ▸ λ k. show prompt (clear_line k))
unfolding clear_line
fresh_line (halted k, e, v) = (halted k, ap (λ o. o ▸ λ k. show prompt (clear_line k)) e, v)
fresh_line (next k, e, (bs, v)) =
    let l : IsLine (shell_clear_buffer k.shell) [] = shell_clear_buffer-IsLine k.shell v.buffer in
    let (bs', w) = Valid-shell {s = shell_clear_buffer k.shell} (bs, v) (IsLine-length l) in
    let (t, e', w') = show-Valid prompt w in
    (
      next (with_terminal (clear_line k) t),
      ap (λ o. o ▸ λ k. show prompt (clear_line k)) e ∙ e',
      ((bs', w'), ([], l)),
    )

enter-Readies : (hw : Machine) {k : Kernel} → IsReady k → Readies (enter hw k)
unfolding enter
enter-Readies hw {k} ((bs, v), _) = fresh_line (
    shell_execute_command-Keeps hw (
      Valid-shell
        {s = record k.shell { input_buffer = set k.shell.input_buffer k.shell.buffer_pos 0 }}
        (bs, Valid-terminal v (putchar-OnScreen b'\n' v.screen))
        (length-set k.shell.input_buffer k.shell.buffer_pos 0 ∙ v.buffer)))

pub Readies-next : {k : Kernel} → IsReady k → Readies (done (next k))
Readies-next {k} v = (next k, refl, v)

-- The shell and the screen after an editing function.
edited :
    {k : Kernel} {s : Shell} {t : Terminal} {l : List ℕ}
    → IsKernel k
    → IsLine s l
    → OnScreen t
    → IsReady (record k { shell = s; terminal = t })
edited {l = l} (bs, v) line on =
    (Valid-shell (bs, Valid-terminal v on) (IsLine-length line), (l, line))

shell_process_input-Readies :
    (hw : Machine) (c : ℕ) {k : Kernel} → IsReady k → Readies (shell_process_input hw c k)
unfolding shell_process_input
shell_process_input-Readies hw c {k} r = elim (Bool-cases (c == b'\n')) [
  | inl e ↦ rw e (enter-Readies hw r)
  | inr e ↦ elim (Bool-cases (printable c)) [
    | inl p ↦
        let ((bs, v), (l, line)) = r in
        rw (e, p)
          (Readies-next (
            edited (bs, v) (type_char-IsLine k.terminal line c p)
              (type_char-Shown c k.shell v.screen).cursor))
    | inr p ↦ rw (e, p) (Readies-next r)
  ]
]

back-IsReady : {k : Kernel} → IsReady k → IsReady (back k)
unfolding back
back-IsReady {k} ((bs, v), (l, line)) =
    let on = (shell_backspace-Shown k.shell v.screen).cursor in
    elim (last_char l) [
      | inl e ↦
          edited {l = l} (bs, v)
            (subst (λ (p : Shell × Terminal). IsLine p.0 l)
              (sym (shell_backspace-nil k.terminal line e)) line)
            on
      | inr (l', c, e) ↦ edited {l = l'} (bs, v) (shell_backspace-IsLine k.terminal line l' c e) on
    ]

-- The modifiers that are held are not part of what is ready.
flags-IsReady :
    (flags : ℕ) {k : Kernel}
    → IsReady k
    → IsReady (record k { shell = record k.shell { keyboard_state = flags } })
flags-IsReady flags {k} (v, (l, line)) = (
  Valid-shell v (IsLine-length line),
  (
    l,
    record { buffer = line.buffer; at_end = line.at_end; short = line.short; chars = line.chars },
  ),
)

key_up-IsReady :
    (scancode : ℕ) {k : Kernel} → IsReady k → IsReady (record k { shell = key_up scancode k.shell })
unfolding key_up release_flag
key_up-IsReady scancode r = elim (Bool-cases (is_shift scancode)) [
  | inl e ↦ rw e (flags-IsReady _ r)
  | inr e ↦ elim (Bool-cases (scancode == key_lctrl)) [
    | inl e' ↦ rw (e, e') (flags-IsReady _ r)
    | inr e' ↦ rw (e, e') r
  ]
]

type_key-Readies :
    (hw : Machine) (scancode : ℕ) {k : Kernel} → IsReady k → Readies (type_key hw scancode k)
unfolding type_key
type_key-Readies hw scancode {k} r =
    let ascii = scancode_to_ascii scancode (bit_and k.shell.keyboard_state 1) in
    elim (Bool-cases (ascii == 0)) [
      | inl e ↦ rw e (Readies-next r)
      | inr e ↦ rw e (shell_process_input-Readies hw ascii r)
    ]

key_down-Readies :
    (hw : Machine) (scancode : ℕ) {k : Kernel} → IsReady k → Readies (key_down hw scancode k)
unfolding key_down press_flag
key_down-Readies hw scancode r = elim (Bool-cases (is_shift scancode)) [
  | inl e ↦ rw e (Readies-next (flags-IsReady _ r))
  | inr e ↦ elim (Bool-cases (scancode == key_lctrl)) [
    | inl e' ↦ rw (e, e') (Readies-next (flags-IsReady _ r))
    | inr e' ↦ elim (Bool-cases (scancode == key_enter)) [
      | inl f ↦ rw (e, e', f) (shell_process_input-Readies hw b'\n' r)
      | inr f ↦ elim (Bool-cases (scancode == key_backspace)) [
        | inl f' ↦ rw (e, e', f, f') (Readies-next (back-IsReady r))
        | inr f' ↦ rw (e, e', f, f') (type_key-Readies hw scancode r)
      ]
    ]
  ]
]

handle_key-Readies :
    (hw : Machine) (scancode : ℕ) {k : Kernel} → IsReady k → Readies (handle_key hw scancode k)
unfolding handle_key
handle_key-Readies hw scancode r = elim (Bool-cases (scancode == 0)) [
  | inl e ↦ rw e (Readies-next r)
  | inr e ↦ elim (Bool-cases (bit_and scancode 0x80 == 0)) [
    | inl e' ↦ rw (e, e') (key_down-Readies hw scancode r)
    | inr e' ↦ rw (e, e') (Readies-next (key_up-IsReady (bit_and scancode 0x7F) r))
  ]
]

-- From a kernel whose shell waits for a key, `keyboard_handler` ends, without a fault, whatever the two
-- ports of the keyboard read: the shell waits for the next key again, or the processor has halted, and
-- the kernel is valid. So no line, of any length and content, makes a command read out of range.
pub keyboard_handler-Readies :
    (hw : Machine) (status scancode : ℕ) {k : Kernel}
    → IsReady k
    → Readies (keyboard_handler hw status scancode k)
unfolding keyboard_handler
keyboard_handler-Readies hw status scancode r =
    handle_key-Readies hw (keyboard_read_scancode status scancode) r
