-- ===== src/Kernel/Commands/Cat.antt =====
-- `cmd_cat` prints what the file system holds under a name.
use minicore_os.Base.{ℕ, ◌≡◌, none, some, Option, inl, inr, List, ◌∷◌, ap, ◌∙◌, sym, Outcome}
use minicore_os.Fs.View.{IsFs, view, content_of, fs_read-cases}
use minicore_os.Shell.{cmd_cat}
use minicore_os.Kernel.{Kernel, Machine, Flow, show}
use minicore_os.Kernel.Commands.{not_found, contents_of, cat_found, run_cat, run_command}

-- What `cat` prints, by what is held under the name.
abbrev pub cat_output : List ℕ → Option (List ℕ) → Kernel → Outcome Flow
cat_output name none k = show (not_found name) k
cat_output name (some bytes) k = show (contents_of name bytes) k

pub run_command-cat :
    (hw : Machine) (command name : List ℕ) (more : List (List ℕ)) (k : Kernel)
    → IsFs k.fs
    → run_command hw cmd_cat (command ∷ name ∷ more) k ≡ cat_output name (content_of k.fs name) k
unfolding run_command run_cat cat_found
run_command-cat hw command name more k v = elim (fs_read-cases v name) [
  | inl e ↦
      ap (λ r. cat_found name r k) e ∙ sym (ap (λ r. cat_output name (view k.fs.file_data r) k) e)
  | inr (at, size, e) ↦
      ap (λ r. cat_found name r k) e ∙ sym (ap (λ r. cat_output name (view k.fs.file_data r) k) e)
]
