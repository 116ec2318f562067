-- ===== src/Fs.antt =====
-- The read-only file system of fs.c: a table of 16 files, each with its 4096 bytes of a shared data
-- area. A C string is the list of its bytes: its text ends at the first 0, or at the end of the list.
pub mod Text
pub mod Find
pub mod View
pub mod Contract
pub mod Demo
pub mod Init
pub mod Stored
pub mod Report
mod Tests
use minicore_os.Base.{
  ℕ, zero, suc, ◌+◌, ◌*◌, Bool, true, false, not, ◌||◌, Option, none, some, List, [], ◌∷◌, leb, ltb,
  ◌==◌, if◌then◌else◌, wrap32, set, length, replicate,
}
use minicore_os.Base.Int.{ℤ, pos, negsuc, sub_ℕ}

-- FS_MAX_FILES, FS_MAX_FILENAME, FS_MAX_FILESIZE and FS_MAGIC
abbrev pub max_files : ℕ
max_files = 16

abbrev pub max_filename : ℕ
max_filename = 32

abbrev pub max_filesize : ℕ
max_filesize = 4096

abbrev pub fs_magic : ℕ
fs_magic = 0x4D494E49

-- `fs_file_type_t`
pub data FileType : Type 0 where
  text_file binary_file : FileType

-- `fs_file_t`. `data` is an index of the data area, NULL is `none`.
pub record File : Type 0 where
  pub name : List ℕ
  pub size : ℕ
  pub type : FileType
  pub data_at : Option ℕ
  pub permissions : ℕ

-- `fs_t` and `fs_initialized`
pub record Fs : Type 0 where
  pub magic : ℕ
  pub file_count : ℕ
  pub files : ℕ → File
  pub file_data : ℕ → ℕ
  pub initialized : Bool

pub fs_strlen : List ℕ → ℕ
fs_strlen [] = 0
fs_strlen (b ∷ bs) = let rest = fs_strlen bs in if b == 0 then 0 else suc rest

-- `*s` of a string
abbrev pub head_byte : List ℕ → ℕ
head_byte [] = 0
head_byte (b ∷ bs) = b

unfoldable pub fs_strcmp : List ℕ → List ℕ → ℤ
fs_strcmp [] t = sub_ℕ 0 (head_byte t)
fs_strcmp (b ∷ bs) [] = sub_ℕ b 0
fs_strcmp (b ∷ bs) (c ∷ cs) =
    let rest = fs_strcmp bs cs in
    if not (b == 0) then (if b == c then rest else sub_ℕ b c) else sub_ℕ b c

-- `fs_strcpy(dest, src)` into an array; `none` is a write behind its end.
unfoldable pub fs_strcpy : List ℕ → List ℕ → Option (List ℕ)
fs_strcpy [] src = none
fs_strcpy (d ∷ ds) [] = some (0 ∷ ds)
fs_strcpy (d ∷ ds) (c ∷ cs) =
    let rest = fs_strcpy ds cs in
    if c == 0 then some (0 ∷ ds) else elim rest [ none ↦ none | some r ↦ some (c ∷ r) ]

abbrev pub is_zero : ℤ → Bool
is_zero (pos n) = n == 0
is_zero (negsuc n) = false

-- `files[i]` changed
pub write_file : (ℕ → File) → ℕ → (File → File) → ℕ → File
write_file t i f j = if j == i then f (t i) else t j

-- The loop of `fs_find_file` over the `n` entries from `i` on.
pub find_from : ℕ → ℕ → (ℕ → File) → List ℕ → Option ℕ
find_from zero i files filename = none
find_from (suc n) i files filename =
    let rest = find_from n (i + 1) files filename in
    if is_zero (fs_strcmp (files i).name filename) then some i else rest

pub fs_find_file : Fs → List ℕ → Option ℕ
fs_find_file s filename =
    if not s.initialized then none else find_from s.file_count 0 s.files filename

-- a pointer that is not NULL
abbrev pub is_some : Option ℕ → Bool
is_some none = false
is_some (some i) = true

pub fs_file_exists : Fs → List ℕ → Bool
fs_file_exists s filename = is_some (fs_find_file s filename)

-- `for (i = 0; i < n; i++) data[i] = content[i]` with `data` at the index `at` of the data area
pub copy_content : ℕ → (ℕ → ℕ) → ℕ → List ℕ → ℕ → ℕ
copy_content zero m at content = m
copy_content (suc n) m at [] = λ a. if a == at then 0 else m a
copy_content (suc n) m at (c ∷ cs) = copy_content n (λ a. if a == at then c else m a) (at + 1) cs

-- `fs_add_file` behind its checks. `none` is a write behind the name's array.
pub store_file : Fs → List ℕ → List ℕ → FileType → Option (List ℕ) → Option (ℤ × Fs)
store_file s name content type none = none
store_file s name content type (some stored) =
    let i = s.file_count in
    some (
      pos 0,
      record s {
        files = write_file s.files i (λ f. record f {
          name = stored;
          size = fs_strlen content;
          type = type;
          permissions = 0;
          data_at = some (i * max_filesize);
        });
        file_data = copy_content (fs_strlen content) s.file_data (i * max_filesize) content;
        file_count = wrap32 (s.file_count + 1);
      },
    )

-- The result of `fs_add_file` and the file system it leaves; `none` is a write out of bounds.
pub fs_add_file : Fs → List ℕ → List ℕ → FileType → Option (ℤ × Fs)
fs_add_file s name content type =
    if not s.initialized || leb max_files s.file_count
    then some (negsuc 0, s)
    else (if leb max_filename (fs_strlen name) || leb max_filesize (fs_strlen content)
        then some (negsuc 1, s)
        else (if fs_file_exists s name
            then some (negsuc 2, s)
            else store_file s name content type (fs_strcpy (s.files s.file_count).name name)))

-- `fs_read` behind its search: its result, and the values of `*data` and `*size`
pub read_found : Fs → Option ℕ → Option ℕ → ℕ → ℤ × (Option ℕ × ℕ)
read_found s none at size = (negsuc 0, (at, size))
read_found s (some i) at size = (pos 0, ((s.files i).data_at, (s.files i).size))

-- `fs_read` with the values that `*data` and `*size` have before: its result and those behind it.
pub fs_read : Fs → List ℕ → Option ℕ → ℕ → ℤ × (Option ℕ × ℕ)
fs_read s filename at size = read_found s (fs_find_file s filename) at size

clear_files : ℕ → (ℕ → File) → ℕ → File
clear_files zero t = t
clear_files (suc n) t = write_file (clear_files n t) n (λ f. record f {
  name = set f.name 0 0;
  size = 0;
  type = text_file;
  data_at = none;
  permissions = 0;
})

clear_data : ℕ → (ℕ → ℕ) → ℕ → ℕ
clear_data n m a = if ltb a n then 0 else m a

-- `fs_init` in front of the demo files
pub clear : Fs → Fs
clear s = record s {
  magic = fs_magic;
  file_count = 0;
  files = clear_files max_files s.files;
  file_data = clear_data (max_files * max_filesize) s.file_data;
  initialized = true;
}

-- The calls of `fs_add_file` with these names and contents, whose results are not read.
pub add_text_files : List (List ℕ × List ℕ) → Fs → Option Fs
add_text_files [] s = some s
add_text_files ((name, content) ∷ fs) s = elim (fs_add_file s name content text_file) [
  | none ↦ none
  | some r ↦ add_text_files fs r.1
]
