-- ===== src/Fs/Init.antt =====
-- The file system of fs.c is valid from `fs_init` on, whatever is added, and an addition that is
-- refused changes nothing.
use minicore_os.Base.{
  ℕ, zero, suc, ◌≡◌, ◌⊎◌, ◌<◌, ◌≤◌, refl, true, false, ◌||◌, none, some, List, [], ◌∷◌, leb, ◌==◌,
  length, length-set, arith, Bool-cases, Option-cases, inl, inr, ap, ◌∙◌, sym, subst,
}
use minicore_os.Base.Int.{ℤ, pos, negsuc}
use minicore_os.Fs.{
  File, FileType, text_file, Fs, max_files, max_filename, max_filesize, fs_strlen, is_some,
  fs_find_file, fs_file_exists, fs_add_file, clear_files, clear, add_text_files,
}
use minicore_os.Fs.Text.{text, fs_strlen_lem}
use minicore_os.Fs.Find.{write_file_self, write_file_ne}
use minicore_os.Fs.View.{IsFs}
use minicore_os.Fs.Contract.{Added, fs_add_file_contract}
use minicore_os.Fs.Demo.{demo_files, fs_create_demo_files, fs_init}

-- How `fs_add_file` can end on the file system `s`: it returns 0 and has added the file, or it
-- returns the code of the first check that fails and has changed nothing.
pub data Ended (s : Fs) (name content : List ℕ) : ℤ → Fs → Type 0 where
  success : {s' : Fs} → Added s name content s' → Ended s name content (pos 0) s'
  full : s.file_count ≡ max_files → Ended s name content (negsuc 0) s
  too_long :
      s.file_count < max_files
      → (max_filename ≤ length (text name)) ⊎ (max_filesize ≤ length (text content))
      → Ended s name content (negsuc 1) s
  exists :
      s.file_count < max_files
      → length (text name) < max_filename
      → length (text content) < max_filesize
      → fs_file_exists s name ≡ true
      → Ended s name content (negsuc 2) s

exists_some :
    (s : Fs) (name : List ℕ) (i : ℕ) → fs_find_file s name ≡ some i → fs_file_exists s name ≡ true
unfolding fs_file_exists
exists_some s name i e = ap is_some e

-- On a valid file system `fs_add_file` stays inside its arrays, and either adds the file and
-- returns 0, or returns -1 when there are 16 files, else -2 when the name or the content is too long,
-- else -3 when the name is there, and changes nothing.
pub fs_add_file_total :
    (s : Fs) (name content : List ℕ) (type : FileType)
    → IsFs s
    → (r : ℤ) × (s' : Fs) × (fs_add_file s name content type ≡ some (r, s'))
      × Ended s name content r s'
unfolding fs_add_file
fs_add_file_total s name content type v = elim (Bool-cases (leb max_files s.file_count)) [
  | inl f ↦ (negsuc 0, s, ground (arith, f, v.ready), full (ground (arith, v.few)))
  | inr f ↦
      elim (Bool-cases
        (leb max_filename (fs_strlen name) || leb max_filesize (fs_strlen content))) [
          | inl l ↦ (
            negsuc 1,
            s,
            ground (arith, f, l, v.ready),
            too_long (ground arith) (ground (arith, fs_strlen_lem name, fs_strlen_lem content)),
          )
          | inr l ↦
              let short : length (text name) < max_filename = ground (arith, fs_strlen_lem name) in
              let fits : length (text content) < max_filesize =
                ground (arith, fs_strlen_lem content) in
              elim (Option-cases (fs_find_file s name)) [
                | inl e ↦
                    let (s', e', a) =
                      fs_add_file_contract s name content type v (ground arith) short fits e in
                    (pos 0, s', e', success a)
                | inr (i, e) ↦
                    let there : fs_file_exists s name ≡ true = exists_some s name i e in
                    (
                      negsuc 2,
                      s,
                      ground (arith, f, l, there, v.ready),
                      exists (ground arith) short fits there,
                    )
              ]
        ]
]

Ended-IsFs :
    {s s' : Fs} {name content : List ℕ} {r : ℤ} → IsFs s → Ended s name content r s' → IsFs s'
Ended-IsFs v (success a) = a.valid
Ended-IsFs v (full e) = v
Ended-IsFs v (too_long e h) = v
Ended-IsFs v (exists e h h' there) = v

add_text_files-IsFs :
    (fs : List (List ℕ × List ℕ)) (s : Fs)
    → IsFs s
    → (s' : Fs) × (add_text_files fs s ≡ some s') × IsFs s'
unfolding add_text_files
add_text_files-IsFs [] s v = (s, refl, v)
add_text_files-IsFs ((name, content) ∷ fs) s v =
    let (r, s', e, ended) = fs_add_file_total s name content text_file v in
    let (s'', e', v') = add_text_files-IsFs fs s' (Ended-IsFs v ended) in
    (s'', ap (λ o. elim o [ none ↦ none | some q ↦ add_text_files fs q.1 ]) e ∙ e', v')

clear_files-arrays :
    (n : ℕ) (t : ℕ → File) (i : ℕ) → length (clear_files n t i).name ≡ length (t i).name
unfolding clear_files
clear_files-arrays zero t i = refl
clear_files-arrays (suc n) t i = elim (Bool-cases (i == n)) [
  | inl e ↦
      let same : i ≡ n = ground arith in
      subst (λ j. length (clear_files (suc n) t j).name ≡ length (t j).name) (sym same)
        (ap (λ (f : File). length f.name) (write_file_self (clear_files n t) n _)
          ∙ length-set (clear_files n t n).name 0 0
          ∙ clear_files-arrays n t n)
  | inr e ↦
      ap (λ (f : File). length f.name) (write_file_ne (clear_files n t) n _ i (ground arith))
      ∙ clear_files-arrays n t i
]

pub clear-IsFs :
    (s : Fs) → ((i : ℕ) → i < max_files → length (s.files i).name ≡ max_filename) → IsFs (clear s)
unfolding clear
clear-IsFs s h = record {
  ready = refl;
  few = omega arith;
  arrays = λ i lt. clear_files-arrays max_files s.files i ∙ h i lt;
  placed = λ i lt. absurd (omega arith);
  small = λ i lt. absurd (omega arith);
  unique = λ i j lt lt'. absurd (omega arith);
}

-- `fs_init` of a file system that is not initialized, whatever its memory holds in arrays of the
-- declared sizes, adds the demo files inside its arrays and leaves a valid file system; a second
-- `fs_init` changes nothing.
pub fs_init-IsFs :
    (s : Fs)
    → s.initialized ≡ false
    → ((i : ℕ) → i < max_files → length (s.files i).name ≡ max_filename)
    → (s' : Fs) × (fs_init s ≡ some s') × IsFs s' × (fs_init s' ≡ some s')
unfolding fs_init fs_create_demo_files
fs_init-IsFs s off h =
    let (s', e, v) = add_text_files-IsFs demo_files (clear s) (clear-IsFs s h) in
    (s', ground (arith, off, e), v, ground (arith, v.ready))
