-- ===== src/Fs/View.antt =====
-- What a valid file system of fs.c is, and the content that it holds under a name.
use minicore_os.Base.{
  ◌⊎◌, Option-cases, inl, inr, ℕ, ◌*◌, ◌≡◌, ◌<◌, ◌≤◌, refl, true, false, Option, none, some, List,
  length, arith, ap, ◌∙◌,
}
use minicore_os.Base.Int.{ℤ, pos, negsuc}
use minicore_os.Fs.{
  Fs, max_files, max_filename, max_filesize, find_from, fs_find_file, read_found, fs_read,
}
use minicore_os.Fs.Text.{same_text}
use minicore_os.Fs.Find.{find_from-some, read_bytes}

-- The table is within its bounds, each file has its own part of the data area, and no two files have
-- the same name.
pub record IsFs (s : Fs) : Type 0 where
  pub ready : s.initialized ≡ true
  pub few : s.file_count ≤ max_files
  pub arrays : (i : ℕ) → i < max_files → length (s.files i).name ≡ max_filename
  pub placed : (i : ℕ) → i < s.file_count → (s.files i).data_at ≡ some (i * max_filesize)
  pub small : (i : ℕ) → i < s.file_count → (s.files i).size < max_filesize
  pub unique :
      (i j : ℕ) → i < j → j < s.file_count → same_text (s.files i).name (s.files j).name ≡ false

-- The bytes that a reader sees behind the results of `fs_read`.
abbrev pub view : (ℕ → ℕ) → ℤ × (Option ℕ × ℕ) → Option (List ℕ)
view m (pos _, (some at, size)) = some (read_bytes size m at)
view m (pos _, (none, size)) = none
view m (negsuc _, _) = none

-- The content that the file system holds under a name.
abbrev pub content_of : Fs → List ℕ → Option (List ℕ)
content_of s name = view s.file_data (fs_read s name none 0)

unfoldable pub content_at : Fs → Option ℕ → Option (List ℕ)
content_at s none = none
content_at s (some i) = some (read_bytes (s.files i).size s.file_data (i * max_filesize))

pub find_ready :
    (s : Fs) (a : List ℕ)
    → s.initialized ≡ true
    → fs_find_file s a ≡ find_from s.file_count 0 s.files a
unfolding fs_find_file
find_ready s a e = rw e refl

pub content_of-find :
    {s : Fs} (v : IsFs s) (a : List ℕ)
    → content_of s a ≡ content_at s (find_from s.file_count 0 s.files a)
unfolding fs_read read_found content_at
content_of-find {s} v a =
    ap (λ p. view s.file_data (read_found s p none 0)) (find_ready s a v.ready)
    ∙ found (find_from s.file_count 0 s.files a) refl
  where
    found :
        (p : Option ℕ)
        → find_from s.file_count 0 s.files a ≡ p
        → view s.file_data (read_found s p none 0) ≡ content_at s p
    found none e = refl
    found (some i) e =
        let (_, lt, _) = find_from-some s.file_count 0 s.files a i e in
        ap (λ q. view s.file_data (pos 0, (q, (s.files i).size))) (v.placed i (ground arith))

-- What `fs_read` returns of a valid file system: the code of a file that is not there, or the
-- address of the data.
pub fs_read-cases :
    {s : Fs} (v : IsFs s) (a : List ℕ)
    → (fs_read s a none 0 ≡ (negsuc 0, (none, 0)))
      ⊎ (at : ℕ) × (size : ℕ) × (fs_read s a none 0 ≡ (pos 0, (some at, size)))
unfolding fs_read read_found
fs_read-cases {s} v a = elim (Option-cases (find_from s.file_count 0 s.files a)) [
  | inl e ↦ inl (ap (λ p. read_found s p none 0) (find_ready s a v.ready ∙ e))
  | inr (i, e) ↦
      let (_, lt, _) = find_from-some s.file_count 0 s.files a i e in
      inr (
        i * max_filesize,
        (s.files i).size,
        ap (λ p. read_found s p none 0) (find_ready s a v.ready ∙ e)
            ∙ ap (λ q. (pos 0, (q, (s.files i).size))) (v.placed i (ground arith)),
      )
]
