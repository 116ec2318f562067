-- ===== src/Mm/Paging.antt =====
-- The page tables of mm.c: a directory, and the tables that it can point to.
pub mod Translation
use minicore_os.Base.{ℕ, zero, suc, ◌*◌, ◌/◌, ◌%◌, ◌^◌, ◌==◌, if◌then◌else◌, wrap32}

-- `page_entry_t`; every field has the width of its declaration.
pub record PageEntry : Type 0 where
  pub present : ℕ
  pub writable : ℕ
  pub user : ℕ
  pub reserved1 : ℕ
  pub accessed : ℕ
  pub dirty : ℕ
  pub reserved2 : ℕ
  pub available : ℕ
  pub frame : ℕ

-- `kernel_page_directory.tables` and the `pages` of each of `kernel_page_tables`
pub record Paging : Type 0 where
  pub directory : ℕ → PageEntry
  pub tables : ℕ → ℕ → PageEntry

abbrev pub page_size : ℕ
page_size = 4096

-- an entry of zero bytes
abbrev pub zero_entry : PageEntry
zero_entry = record {
  present = 0;
  writable = 0;
  user = 0;
  reserved1 = 0;
  accessed = 0;
  dirty = 0;
  reserved2 = 0;
  available = 0;
  frame = 0;
}

-- a write to some fields of an entry of an array
pub write_fields : ℕ → (PageEntry → PageEntry) → (ℕ → PageEntry) → ℕ → PageEntry
write_fields i f t j = if j == i then f (t i) else t j

-- `memset(&kernel_page_directory, 0, ...)`, the first `n` entries
pub clear_directory : ℕ → (ℕ → PageEntry) → ℕ → PageEntry
clear_directory zero t = t
clear_directory (suc n) t = write_fields n (λ _. zero_entry) (clear_directory n t)

-- the four fields that `paging_init` writes; the last has 20 bits
abbrev pub install : ℕ → PageEntry → PageEntry
install address e = record e {
  present = 1;
  writable = 1;
  user = 0;
  frame = address / 4096 % 2 ^ 20;
}

-- the loop over the entries of the first table, the first `n` of them
pub map_pages : ℕ → (ℕ → PageEntry) → ℕ → PageEntry
map_pages zero t = t
map_pages (suc i) t = write_fields i (install (wrap32 (i * page_size))) (map_pages i t)

-- `table_at` is the address of `kernel_page_tables`, which the linker chooses.
pub paging_init : (table_at : ℕ) → Paging → Paging
paging_init table_at p = record {
  directory = write_fields 0 (install table_at) (clear_directory 1024 p.directory);
  tables = λ t. if t == 0 then map_pages 1024 (p.tables 0) else p.tables t;
}
