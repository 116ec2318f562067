-- ===== src/Mm/Paging/Translation.antt =====
-- What the processor reads from the tables of `paging_init`.
use minicore_os.Base.{
  ℕ, ◌+◌, ◌-◌, ◌*◌, ◌/◌, ◌%◌, ◌≡◌, ◌<◌, ltb, ◌==◌, if◌then◌else◌, Option, none, some,
}
use minicore_os.Mm.Paging.{PageEntry, Paging, page_size, paging_init}

-- The entry that the processor reads at a physical address: one of the 256 tables at `table_at`, one
-- behind the other, or what lies elsewhere in the memory, `other`. `table_at` and the address are
-- multiples of 4, the size of an entry.
entry_at : (other : ℕ → PageEntry) → (table_at : ℕ) → Paging → ℕ → PageEntry
entry_at other table_at p a =
    if ltb a table_at
    then other a
    else if ltb a (table_at + 256 * page_size)
    then p.tables ((a - table_at) / page_size) ((a - table_at) % page_size / 4)
    else other a

-- the physical address by an entry of a table; an entry that is not present gives none
abbrev pub by_entry : PageEntry → ℕ → Option ℕ
by_entry e address =
    if e.present == 0 then none else some (e.frame * page_size + address % page_size)

-- The physical address for a virtual one, as the processor's manual has it: the entry of the directory
-- for the upper 10 bits has the number of a page, and the entry for the next 10 bits in that page has
-- the number of the frame.
pub translate : (other : ℕ → PageEntry) → (table_at : ℕ) → Paging → ℕ → Option ℕ
translate other table_at p address =
    let d = p.directory (address / 4194304) in
    let e = entry_at other table_at p (d.frame * page_size + 4 * (address / page_size % 1024)) in
    if d.present == 0 then none else by_entry e address

-- How many entries of a page lie in front of the tables, in the page that the tables begin in.
abbrev pub skew : ℕ → ℕ
skew table_at = table_at % page_size / 4

module _ (other : ℕ → PageEntry) (table_at : ℕ) (whole : table_at % 4 ≡ 0)
    (small : table_at < 4294967296) (p : Paging) where
  abbrev made : Paging
  made = paging_init table_at p
