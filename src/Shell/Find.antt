-- ===== src/Shell/Find.antt =====
-- The command table: `shell_find_command` finds the command with the name that was typed.
use minicore_os.Base.{
  ℕ, zero, suc, ◌+◌, ◌≡◌, ◌≢◌, refl, true, false, some, List, [], ◌∷◌, arith, Bool-cases, inl, inr,
  ap, ◌∙◌, sym, subst,
}
use minicore_os.Base.Int.{ℤ, pos, negsuc}
use minicore_os.Shell.{
  ShellCommand, commands, command_from, is_zero, shell_strcmp, find_loop, shell_find_command,
}
use minicore_os.Fs.{fs_strcmp}
use minicore_os.Fs.Text.{text, fs_strcmp_zero}

-- The comparison of the shell is that of the file system.
shell_strcmp-fs_strcmp : (a b : List ℕ) → shell_strcmp a b ≡ fs_strcmp a b
unfolding shell_strcmp fs_strcmp
shell_strcmp-fs_strcmp [] [] = refl
shell_strcmp-fs_strcmp [] (c ∷ cs) = refl
shell_strcmp-fs_strcmp (b ∷ bs) [] = refl
shell_strcmp-fs_strcmp (b ∷ bs) (c ∷ cs) = rw (shell_strcmp-fs_strcmp bs cs) refl

-- The result `r` of the search of `cs` for a name: `i` is the index of the first entry.
pub data Search (name : List ℕ) (cs : List ShellCommand) (i : ℕ) : ℤ → Type 0 where
  found :
      (k : ℕ) (c : ShellCommand)
      → command_from cs k ≡ some c
      → text name ≡ text c.name
      → Search name cs i (pos (i + k))
  missing :
      ((k : ℕ) (c : ShellCommand) → command_from cs k ≡ some c → text name ≢ text c.name)
      → Search name cs i (negsuc 0)

find_loop-Search :
    (cs : List ShellCommand) (i : ℕ) (name : List ℕ) → Search name cs i (find_loop cs i name)
unfolding find_loop
find_loop-Search [] i name = missing (λ k c e. cc)
find_loop-Search (c ∷ cs) i name =
    let (f, g) = fs_strcmp_zero name c.name in
    let same : is_zero (shell_strcmp name c.name) ≡ is_zero (fs_strcmp name c.name) =
      ap is_zero (shell_strcmp-fs_strcmp name c.name) in
    elim (Bool-cases (is_zero (shell_strcmp name c.name))) [
      | inl e ↦ rw e (
          subst (λ k. Search name (c ∷ cs) i (pos k)) (omega arith)
            (found zero c refl (f (sym same ∙ e))))
      | inr e ↦ rw e (later (find_loop-Search cs (i + 1) name) (λ h. clash (sym e ∙ same ∙ g h)))
    ]
  where
    others :
        ((k : ℕ) (d : ShellCommand) → command_from cs k ≡ some d → text name ≢ text d.name)
        → text name ≢ text c.name
        → (k : ℕ) (d : ShellCommand) → command_from (c ∷ cs) k ≡ some d
        → text name ≢ text d.name
    others h ne zero d e h' =
        let same : c ≡ d = cc e in ne (h' ∙ ap (λ (w : ShellCommand). text w.name) (sym same))
    others h ne (suc k) d e h' = h k d e h'

    later : {r : ℤ} → Search name cs (i + 1) r → text name ≢ text c.name → Search name (c ∷ cs) i r
    later (found k d e h) ne =
        subst (λ j. Search name (c ∷ cs) i (pos j)) (omega arith) (found (suc k) d e h)
    later (missing h) ne = missing (others h ne)

    clash : false ≡ true → ⊥
    clash e = cc

-- `shell_find_command` returns the index of an entry of the command table whose name has the text
-- of the name that is looked for, or -1 when the table has none.
pub shell_find_command_lem : (name : List ℕ) → Search name commands 0 (shell_find_command name)
unfolding shell_find_command
shell_find_command_lem name = find_loop-Search commands 0 name
