-- ===== src/Fs/Tests.antt =====
-- The theorems of the file system at small file systems.
use minicore_os.Base.{ℕ, ◌≡◌, refl, true, false, none, some, List, replicate, arith, c_string}
use minicore_os.Base.Int.{ℤ, pos}
use minicore_os.Fs.{Fs, text_file, find_from, fs_find_file, fs_add_file}
use minicore_os.Fs.View.{IsFs}
use minicore_os.Fs.Contract.{Added, fs_add_file_contract}
use minicore_os.Fs.Init.{Ended, fs_add_file_total}

abbrev old_name : List ℕ
old_name = replicate 32 7

abbrev dirty : Fs
dirty = record {
  magic = 0;
  file_count = 3;
  files =
      λ i. record { name = old_name; size = 5; type = text_file; data_at = none; permissions = 0 };
  file_data = λ a. 9;
  initialized = false;
}

abbrev empty : Fs
empty = record {
  magic = 0x4D494E49;
  file_count = 0;
  files =
      λ i. record { name = old_name; size = 5; type = text_file; data_at = none; permissions = 0 };
  file_data = λ a. 0;
  initialized = true;
}

empty-IsFs : IsFs empty
empty-IsFs = record {
  ready = refl;
  few = omega arith;
  arrays = λ i lt. refl;
  placed = λ i lt. absurd (omega arith);
  small = λ i lt. absurd (omega arith);
  unique = λ i j lt lt'. absurd (omega arith);
}

abbrev file_name : List ℕ
file_name = c_string "a.txt"

abbrev content : List ℕ
content = c_string "text"

empty_lookup : fs_find_file empty file_name ≡ none
unfolding fs_find_file find_from
empty_lookup = refl

fs_add_file_contract_example :
    (s' : Fs) × (fs_add_file empty file_name content text_file ≡ some (pos 0, s'))
    × Added empty file_name content s'
fs_add_file_contract_example =
    fs_add_file_contract empty file_name content text_file empty-IsFs (omega arith) (omega arith)
      (omega arith) empty_lookup

fs_add_file_total_example :
    (r : ℤ) × (s' : Fs) × (fs_add_file empty file_name content text_file ≡ some (r, s'))
    × Ended empty file_name content r s'
fs_add_file_total_example = fs_add_file_total empty file_name content text_file empty-IsFs
