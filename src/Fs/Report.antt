-- ===== src/Fs/Report.antt =====
-- What fs.c prints: the list of the files, and the entry of one file.
use minicore_os.Base.{
  ℕ, zero, suc, ◌+◌, ◌-◌, ◌*◌, ◌/◌, ◌<◌, ◌^◌, ◌≡◌, refl, not, Option, none, some, List, [], ◌∷◌,
  ◌++◌, ltb, ◌==◌, if◌then◌else◌, Outcome, done, out_of_fuel, ◌>>=◌, ap, arith, wrap32, Bool-cases,
  inl, inr,
}
use minicore_os.Base.Int.{ℤ, pos, negsuc}
use minicore_os.Fs.{Fs, File, FileType, text_file, binary_file, max_files, fs_strlen}
use Prim.Native.String.{String}
use minicore_os.Terminal.{Terminal}
use minicore_os.Terminal.Cursor.{OnScreen}
use minicore_os.Terminal.Output.{
  Output, putchar, writestring, write_dec, say, color, white, light_cyan, light_red, print, Ends,
  Ends-done, Ends-bind, print-Ends,
}

-- `for (j = from; j < until; j++) terminal_putchar(' ')` over `n` rounds, `until - from`
abbrev spaces : ℕ → List Output
spaces zero = []
spaces (suc n) = putchar b' ' ∷ spaces n

-- The loop that counts the digits of a file's size: no 32-bit number has more than 10.
count_digits : ℕ → ℕ → ℕ → Outcome ℕ
count_digits zero temp_size size_digits = if ltb temp_size 10 then done size_digits else out_of_fuel
count_digits (suc n) temp_size size_digits =
    let rest = count_digits n (temp_size / 10) (size_digits + 1) in
    if ltb temp_size 10 then done size_digits else rest

abbrev type_name : FileType → String
type_name text_file = "TEXT"
type_name binary_file = "BINARY"

abbrev type_line : FileType → String
type_line text_file = "TEXT\n"
type_line binary_file = "BINARY\n"

-- The calls of one round of the loop of `fs_list`, with the digits counted.
abbrev file_line : File → ℕ → List Output
file_line file size_digits =
    writestring file.name ∷ spaces (24 - fs_strlen file.name)
    ++ putchar b' ' ∷ write_dec file.size ∷ spaces (6 - size_digits)
    ++ putchar b' ' ∷ say (type_name file.type) ∷ putchar b'\n' ∷ []

list_file : File → Outcome (List Output)
list_file file = do
  size_digits ← count_digits 10 (wrap32 file.size) 1
  done (file_line file size_digits)

-- `for (i = 0; i < n; i++)` of the loop of `fs_list`
list_files : ℕ → (ℕ → File) → Terminal → Outcome Terminal
list_files zero files t = done t
list_files (suc n) files t = do t' ← list_files n files t; os ← list_file (files n); print os t'

-- `fs_list` of an initialized file system with files
list_all : Fs → Terminal → Outcome (ℤ × Terminal)
list_all s t = do
  t1 ←
      print
        (say "Name                     Size   Type\n"
          ∷ say "------------------------ ------ --------\n"
          ∷ [])
        t
  t2 ← list_files s.file_count s.files t1
  t3 ←
      print
        (say "\nTotal files: "
          ∷ write_dec s.file_count
          ∷ say " / "
          ∷ write_dec max_files
          ∷ putchar b'\n'
          ∷ [])
        t2
  done (pos 0, t3)

-- `fs_list` behind its first line
list_body : Fs → Terminal → Outcome (ℤ × Terminal)
list_body s t =
    if s.file_count == 0
    then (print (say "No files found.\n" ∷ []) t >>= λ t'. done (pos 0, t'))
    else list_all s t

not_initialized : Terminal → Outcome (ℤ × Terminal)
not_initialized t = do
  t' ← print (color light_red ∷ say "File system not initialized!\n" ∷ color white ∷ []) t
  done (negsuc 0, t')

list_initialized : Fs → Terminal → Outcome (ℤ × Terminal)
list_initialized s t = do
  t' ← print (color light_cyan ∷ say "=== File System Contents ===\n" ∷ color white ∷ []) t
  list_body s t'

pub fs_list : Fs → Terminal → Outcome (ℤ × Terminal)
fs_list s t = if not s.initialized then not_initialized t else list_initialized s t

-- `fs_print_file_info`; `none` is NULL.
pub fs_print_file_info : Option File → Terminal → Outcome Terminal
fs_print_file_info none = print (say "File is NULL\n" ∷ [])
fs_print_file_info (some file) = print (
    color light_cyan
    ∷ say "=== File Information ===\n"
    ∷ color white
    ∷ say "Name: "
    ∷ writestring file.name
    ∷ putchar b'\n'
    ∷ say "Size: "
    ∷ write_dec file.size
    ∷ say " bytes\n"
    ∷ say "Type: "
    ∷ say (type_line file.type)
    ∷ say "Permissions: READ-ONLY\n"
    ∷ [])

count_digits_lem : (n v d : ℕ) → v < 10 * 10 ^ n → (k : ℕ) × (count_digits n v d ≡ done k)
unfolding count_digits
count_digits_lem zero v d lt = (d, ground arith)
count_digits_lem (suc n) v d lt = elim (Bool-cases (ltb v 10)) [
  | inl e ↦ (d, rw e refl)
  | inr e ↦ let (k, e') = count_digits_lem n (v / 10) (d + 1) (omega arith) in (k, rw e e')
]

abbrev screen_of : ℤ × Terminal → Terminal
screen_of (r, t) = t

list_file-done : (file : File) → (os : List Output) × (list_file file ≡ done os)
unfolding list_file
list_file-done file =
    let (k, e) = count_digits_lem 10 (wrap32 file.size) 1 (omega arith) in
    (_, ap (λ o. o >>= λ size_digits. done (file_line file size_digits)) e)

list_files-Ends :
    (n : ℕ) (files : ℕ → File) (t : Terminal)
    → OnScreen t
    → Ends (λ t'. t') t (list_files n files t)
unfolding list_files
list_files-Ends zero files t on = Ends-done (λ t'. t') t on
list_files-Ends (suc n) files t on =
    Ends-bind _ (list_files-Ends n files t on)
      λ t1 e1 on1. let (os, e) = list_file-done (files n) in rw e (print-Ends os t1 on1)

-- From a cursor on the screen `fs_list` ends, for every file system and whatever the names and
-- sizes in its table: each loop that pads a column ends too.
pub fs_list-Ends : (s : Fs) (t : Terminal) → OnScreen t → Ends screen_of t (fs_list s t)
unfolding fs_list list_initialized not_initialized list_body list_all
fs_list-Ends s t on = elim (Bool-cases s.initialized) [
  | inr off ↦
      rw off (Ends-bind _ (print-Ends _ t on) λ t1 _ on1. Ends-done screen_of (negsuc 0, t1) on1)
  | inl ready ↦ rw ready (Ends-bind _ (print-Ends _ t on) λ t1 _ on1. body t1 on1)
]
  where
    body : (t1 : Terminal) → OnScreen t1 → Ends screen_of t1 (list_body s t1)
    body t1 on1 = elim (Bool-cases (s.file_count == 0)) [
      | inl none_there ↦
          rw none_there
            (Ends-bind _ (print-Ends _ t1 on1) λ t2 _ on2. Ends-done screen_of (pos 0, t2) on2)
      | inr some_there ↦ rw some_there (
          Ends-bind _ (print-Ends _ t1 on1) λ t2 _ on2.
            Ends-bind _ (list_files-Ends s.file_count s.files t2 on2) λ t3 _ on3.
              Ends-bind _ (print-Ends _ t3 on3) λ t4 _ on4. Ends-done screen_of (pos 0, t4) on4)
    ]
