-- ===== src/Kernel/Typed.antt =====
-- A file that is asked for at the keyboard, from its keys to its bytes on the screen.
use minicore_os.Base.{
  ℕ, zero, suc, true, ◌≡◌, ◌<◌, refl, some, List, [], ◌∷◌, ◌++◌, ap, ◌∙◌, sym, subst, length,
  c_string, get_or, arith, ◌+◌, ◌*◌, Outcome,
}
use minicore_os.Fs.Text.{text}
use minicore_os.Fs.View.{IsFs, content_of}
use minicore_os.Fs.Demo.{demo_files}
use minicore_os.Fs.Stored.{listed}
use minicore_os.Shell.{Command, cmd_cat, ShellCommand, commands, command_from}
use minicore_os.Shell.Edit.{IsLine, all_printable}
use minicore_os.Shell.Words.{words}
use minicore_os.Shell.Rounds.{take}
use minicore_os.Kernel.{Kernel, Machine, Flow, next, ◌▸◌, show}
use minicore_os.Kernel.Boot.Ready.{IsLoaded}
use minicore_os.Kernel.Commands.{run_command}
use minicore_os.Kernel.Commands.Cat.{cat_output, run_command-cat}
use minicore_os.Kernel.Events.{Reachable}
use minicore_os.Kernel.Files.{reachable-listed}
use minicore_os.Kernel.Keyboard.{prompt, clear_line, key_enter}
use minicore_os.Kernel.Keyboard.Keys.{handle_keys, spell, Free, SameRest}
use minicore_os.Kernel.Keyboard.Lines.{Executes, runs, unknown, handle_keys-line}

-- The entries of a table with the name `name` have the handler `h`.
abbrev Names : List ℕ → Command → List ShellCommand → Type 0
Names name h [] = Unit {0}
Names name h (c ∷ cs) = (text name ≡ text c.name → c.handler ≡ h) × Names name h cs

Names-command_from :
    (name : List ℕ) (h : Command) (cs : List ShellCommand) (i : ℕ) (c : ShellCommand)
    → Names name h cs
    → command_from cs i ≡ some c
    → text name ≡ text c.name
    → c.handler ≡ h
Names-command_from name h [] i c all e same = cc e
Names-command_from name h (d ∷ cs) zero c (first, rest) e same =
    let d_is_c : d ≡ c = cc e in
    sym (ap (λ (w : ShellCommand). w.handler) d_is_c)
    ∙ first (same ∙ ap (λ (w : ShellCommand). text w.name) (sym d_is_c))
Names-command_from name h (d ∷ cs) (suc i) c (first, rest) e same =
    Names-command_from name h cs i c rest e same

abbrev cat : List ℕ
cat = c_string "cat"

-- what tells `cat` from the other names
abbrev initials : List ℕ → ℕ
initials name = get_or name 0 0 + 256 * get_or name 1 0

only_cat : Names cat cmd_cat commands
only_cat = (
  (λ e. absurd (omega (arith, ap initials e))),
  (
    (λ e. absurd (omega (arith, ap initials e))),
    (
      (λ e. absurd (omega (arith, ap initials e))),
      (
        (λ e. absurd (omega (arith, ap initials e))),
        (
          (λ e. absurd (omega (arith, ap initials e))),
          (
            (λ e. absurd (omega (arith, ap initials e))),
            (
              (λ e. absurd (omega (arith, ap initials e))),
              (
                (λ e. absurd (omega (arith, ap initials e))),
                (
                  (λ e. absurd (omega (arith, ap initials e))),
                  (
                    (λ e. absurd (omega (arith, ap initials e))),
                    (
                      (λ e. absurd (omega (arith, ap initials e))),
                      ((λ e. absurd (omega (arith, ap initials e))), ((λ e. refl), tt)),
                    ),
                  ),
                ),
              ),
            ),
          ),
        ),
      ),
    ),
  ),
)

Executes-cat :
    {hw : Machine} {more : List (List ℕ)} {k : Kernel} {o : Outcome Flow}
    → Executes hw cat more k o
    → o ≡ run_command hw cmd_cat (cat ∷ more) k
Executes-cat {hw} {more} {k} (runs i c e same) =
    ap (λ h. run_command hw h (cat ∷ more) k)
      (Names-command_from cat cmd_cat commands i c only_cat e same)
Executes-cat (unknown none_has) = absurd (none_has 12 _ refl refl)

-- In a kernel that can be reached, at an empty line with no modifier key held: the scan codes of a line
-- of at most 255 printable characters whose words are `cat`, `name` and any others, and then Enter, print
-- the bytes that the demo files have under the name, or report that there is no such file, and then the
-- prompt; nothing but the screen and the shell has changed when the printing starts.
pub typed_cat :
    (hw : Machine) (loaded k : Kernel) (l name : List ℕ) (more : List (List ℕ))
    → IsLoaded loaded
    → Reachable hw loaded (next k)
    → IsLine k.shell []
    → Free k
    → all_printable l ≡ true
    → length l < 256
    → take 15 (words l) ≡ c_string "cat" ∷ name ∷ more
    → (k' : Kernel) × SameRest k k'
      × (handle_keys hw (spell l ++ key_enter ∷ []) k
          ≡ (cat_output name (listed demo_files name) k' ▸ λ k. show prompt (clear_line k)))
typed_cat hw loaded k l name more start before v free ps room e =
    let (k', o, same, ex, done_) = handle_keys-line hw k l cat (name ∷ more) v free ps room e in
    let (valid, all) = reachable-listed hw loaded k start before in
    let fs : k'.fs ≡ k.fs = ap (λ (x : Kernel). x.fs) same in
    let printed : o ≡ cat_output name (listed demo_files name) k' =
      Executes-cat ex
      ∙ run_command-cat hw cat name more k' (subst IsFs (sym fs) valid)
      ∙ ap (λ c. cat_output name c k') (ap (λ s. content_of s name) fs ∙ all name) in
    (k', same, done_ ∙ ap (λ (o : Outcome Flow). o ▸ λ k. show prompt (clear_line k)) printed)
