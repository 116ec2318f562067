-- ===== src/Fs/Contract.antt =====
-- What the file system of fs.c promises: it is a map from names to contents to which `fs_add_file`
-- adds and which `fs_read` reads.
use minicore_os.Base.{
  ℕ, suc, ◌+◌, ◌*◌, ◌≡◌, ◌<◌, refl, Bool, true, false, Option, none, some, List, leb, ◌==◌,
  if◌then◌else◌, length, arith, Bool-cases, inl, inr, ap, ◌∙◌, sym, subst, wrap32,
}
use minicore_os.Base.Int.{pos}
use minicore_os.Fs.{
  File, FileType, Fs, max_files, max_filename, max_filesize, write_file, find_from, copy_content,
  fs_strlen, fs_strcpy, fs_find_file, is_some, fs_file_exists, fs_add_file, store_file,
}
use minicore_os.Fs.Text.{text, same_text, fs_strlen_lem, fs_strcmp_zero, fs_strcpy_fits}
use minicore_os.Fs.View.{IsFs, content_of, content_at, find_ready, content_of-find}
use minicore_os.Fs.Find.{
  write_file_self, write_file_ne, same_text_cong, find_from-cong, or_else, find_from-suc,
  find_from-some, find_from-none, read_bytes, read_bytes-frame, copy_content-outside,
  read_bytes-copy_content,
}

bool_clash : {b : Bool} → b ≡ true → b ≡ false → ⊥
bool_clash e e' = cc

module _ (s : Fs) (v : IsFs s) (name content : List ℕ) (type : FileType)
    (room : s.file_count < max_files) (short : length (text name) < max_filename)
    (fits : length (text content) < max_filesize) (fresh : fs_find_file s name ≡ none)
    (stored : List ℕ) (et : text stored ≡ text name) (el : length stored ≡ max_filename) where
  abbrev at : ℕ
  at = s.file_count * max_filesize

  abbrev entry : File → File
  entry f = record f {
    name = stored;
    size = fs_strlen content;
    type = type;
    permissions = 0;
    data_at = some at;
  }

  abbrev added : Fs
  added = record s {
    files = write_file s.files s.file_count entry;
    file_data = copy_content (fs_strlen content) s.file_data at content;
    file_count = wrap32 (s.file_count + 1);
  }

  counted : wrap32 (s.file_count + 1) ≡ suc s.file_count
  counted = omega (arith, room)

  new : added.files s.file_count ≡ entry (s.files s.file_count)
  new = write_file_self s.files s.file_count entry

  old : (i : ℕ) → i < s.file_count → added.files i ≡ s.files i
  old i lt = write_file_ne s.files s.file_count entry i (omega arith)

  unused : find_from s.file_count 0 s.files name ≡ none
  unused = sym (find_ready s name v.ready) ∙ fresh

  size_fits : fs_strlen content < max_filesize
  size_fits = subst (λ n. n < max_filesize) (sym (fs_strlen_lem content)) fits

  added-IsFs : IsFs added
  added-IsFs = record {
    ready = v.ready;
    few = omega (arith, counted);
    arrays = λ i lt. elim (Bool-cases (i == s.file_count)) [
      | inl e ↦
          ap (λ j. length (added.files j).name) (ground arith)
          ∙ ap (λ (f : File). length f.name) new
          ∙ el
      | inr e ↦
          ap (λ (f : File). length f.name)
            (write_file_ne s.files s.file_count entry i (ground arith))
          ∙ v.arrays i lt
    ];
    placed = λ i lt. elim (Bool-cases (i == s.file_count)) [
      | inl e ↦
          let same : i ≡ s.file_count = ground arith in
          subst (λ j. (added.files j).data_at ≡ some (j * max_filesize)) (sym same)
            (ap (λ (f : File). f.data_at) new)
      | inr e ↦
          let below : i < s.file_count = ground (arith, counted) in
          ap (λ (f : File). f.data_at) (old i below) ∙ v.placed i below
    ];
    small = λ i lt. elim (Bool-cases (i == s.file_count)) [
      | inl e ↦
          let same : i ≡ s.file_count = ground arith in
          subst (λ n. n < max_filesize)
            (sym (ap (λ j. (added.files j).size) same ∙ ap (λ (f : File). f.size) new)) size_fits
      | inr e ↦
          let below : i < s.file_count = ground (arith, counted) in
          subst (λ n. n < max_filesize) (sym (ap (λ (f : File). f.size) (old i below)))
            (v.small i below)
    ];
    unique = λ i j lt lt'. elim (Bool-cases (j == s.file_count)) [
      | inl e ↦
          let same : j ≡ s.file_count = ground arith in
          let below : i < s.file_count = ground arith in
          ap (λ (f : File). same_text f.name (added.files j).name) (old i below)
          ∙ ap (λ k. same_text (s.files i).name (added.files k).name) same
          ∙ ap (λ (f : File). same_text (s.files i).name f.name) new
          ∙ same_text_cong (s.files i).name (s.files i).name stored name refl et
          ∙ find_from-none s.file_count 0 s.files name unused i (omega arith) (omega arith)
      | inr e ↦
          let below : j < s.file_count = ground (arith, counted) in
          ap (λ (f : File). same_text f.name (added.files j).name) (old i (omega arith))
          ∙ ap (λ (f : File). same_text (s.files i).name f.name) (old j below)
          ∙ v.unique i j lt below
    ];
  }

  find-added :
      (a : List ℕ)
      → find_from added.file_count 0 added.files a
        ≡ or_else
            (find_from s.file_count 0 s.files a)
            (if same_text name a then some s.file_count else none)
  find-added a =
      ap (λ n. find_from n 0 added.files a) counted
      ∙ find_from-suc s.file_count 0 added.files a
      ∙ ap
          (λ k.
            or_else (find_from s.file_count 0 added.files a)
              (if same_text (added.files k).name a then some k else none))
          (omega arith)
      ∙ ap
          (λ r.
            or_else r
              (if same_text (added.files s.file_count).name a then some s.file_count else none))
          (find_from-cong s.file_count 0 added.files s.files a a
            (λ j le lt. ap (λ (f : File). same_text f.name a) (old j (omega arith))))
      ∙ ap
          (λ b.
            or_else (find_from s.file_count 0 s.files a) (if b then some s.file_count else none))
          (ap (λ (f : File). same_text f.name a) new ∙ same_text_cong stored name a a et refl)

  content_new : content_at added (some s.file_count) ≡ some (text content)
  unfolding content_at
  content_new =
      ap (λ (f : File). some (read_bytes f.size added.file_data at)) new
      ∙ ap some (read_bytes-copy_content s.file_data at content)

  content_old : (i : ℕ) → i < s.file_count → content_at added (some i) ≡ content_at s (some i)
  unfolding content_at
  content_old i lt =
      ap (λ (f : File). some (read_bytes f.size added.file_data (i * max_filesize))) (old i lt)
      ∙ ap some (
          read_bytes-frame (s.files i).size added.file_data s.file_data (i * max_filesize)
            (λ a le below.
              copy_content-outside (fs_strlen content) s.file_data at content a
                (inl (omega (arith, v.small i lt)))))

  content_of-added :
      (a : List ℕ)
      → content_of added a ≡ (if same_text name a then some (text content) else content_of s a)
  unfolding content_at
  content_of-added a =
      content_of-find added-IsFs a
      ∙ ap (content_at added) (find-added a)
      ∙ cases (find_from s.file_count 0 s.files a) refl (same_text name a) refl
    where
      cases :
          (p : Option ℕ)
          → find_from s.file_count 0 s.files a ≡ p
          → (b : Bool) → same_text name a ≡ b
          → content_at added (or_else p (if b then some s.file_count else none))
            ≡ (if b then some (text content) else content_of s a)
      cases none ep true eb = content_new
      cases none ep false eb = sym (content_of-find v a ∙ ap (content_at s) ep)
      cases (some i) ep true eb =
          let (_, lt, h) = find_from-some s.file_count 0 s.files a i ep in
          let (f, _) = fs_strcmp_zero (s.files i).name a in
          let (g, _) = fs_strcmp_zero name a in
          let (_, back) = fs_strcmp_zero (s.files i).name name in
          absurd (
            bool_clash (back (f h ∙ sym (g eb)))
              (find_from-none s.file_count 0 s.files name unused i (omega arith) lt))
      cases (some i) ep false eb =
          let (_, lt, _) = find_from-some s.file_count 0 s.files a i ep in
          content_old i (ground arith) ∙ sym (content_of-find v a ∙ ap (content_at s) ep)

pub fs_file_exists-none :
    (s : Fs) (name : List ℕ) → fs_find_file s name ≡ none → fs_file_exists s name ≡ false
unfolding fs_file_exists
fs_file_exists-none s name e = ap is_some e

-- Behind its checks `fs_add_file` stores the file.
fs_add_file_passes :
    (s : Fs) (name content : List ℕ) (type : FileType)
    → s.initialized ≡ true
    → leb max_files s.file_count ≡ false
    → leb max_filename (fs_strlen name) ≡ false
    → leb max_filesize (fs_strlen content) ≡ false
    → fs_file_exists s name ≡ false
    → fs_add_file s name content type
      ≡ store_file s name content type (fs_strcpy (s.files s.file_count).name name)
unfolding fs_add_file
fs_add_file_passes s name content type r f l l' e = ground (arith, r, f, l, l', e)

-- What `fs_add_file` leaves when it has added a file: a valid file system that holds `content` under
-- `name` and is as before under every other name.
pub record Added (s : Fs) (name content : List ℕ) (s' : Fs) : Type 0 where
  pub valid : IsFs s'
  pub counted : s'.file_count ≡ suc s.file_count
  pub contents :
      (a : List ℕ)
      → content_of s' a ≡ (if same_text name a then some (text content) else content_of s a)

-- On a valid file system with fewer than 16 files `fs_add_file` of a name of at most 31 bytes that
-- no file has, and a content of at most 4095 bytes, stays inside its arrays, returns 0 and leaves a
-- valid file system with one more file, in which `fs_read` finds exactly the content's bytes under
-- the name, and under every other name what it found before.
pub fs_add_file_contract :
    (s : Fs) (name content : List ℕ) (type : FileType)
    → IsFs s
    → s.file_count < max_files
    → length (text name) < max_filename
    → length (text content) < max_filesize
    → fs_find_file s name ≡ none
    → (s' : Fs) × (fs_add_file s name content type ≡ some (pos 0, s')) × Added s name content s'
unfolding store_file
fs_add_file_contract s name content type v room short fits fresh =
    let (r, er, et, el) =
      fs_strcpy_fits (s.files s.file_count).name name
        (subst (λ n. length (text name) < n) (sym (v.arrays s.file_count room)) short) in
    let len : leb max_filename (fs_strlen name) ≡ false = ground (arith, fs_strlen_lem name) in
    let len' : leb max_filesize (fs_strlen content) ≡ false =
      ground (arith, fs_strlen_lem content) in
    let free : leb max_files s.file_count ≡ false = ground arith in
    let el' = el ∙ v.arrays s.file_count room in
    (
      added s v name content type room short fits fresh r et el',
      fs_add_file_passes s name content type v.ready free len len'
            (fs_file_exists-none s name fresh)
          ∙ ap (store_file s name content type) er,
      record {
        valid = added-IsFs s v name content type room short fits fresh r et el';
        counted = counted s v name content type room short fits fresh r et el';
        contents = content_of-added s v name content type room short fits fresh r et el';
      },
    )
