-- ===== src/Mm.antt =====
-- The kernel heap of mm.c: a doubly linked list of blocks in address order, first fit, split and
-- merge. The memory of the heap is seen through two typed views: `header` is the `mem_block_t` that
-- stands at an address, and `bytes` are the bytes of the payloads.
pub mod Layout
pub mod Memory
pub mod Split
pub mod Find
pub mod Merge
pub mod Heap
pub mod Kmalloc
pub mod Kfree
pub mod Live
mod Tests
pub mod Contract
pub mod Moved
pub mod Invariant
pub mod Shape
pub mod Ops
pub mod Report
pub mod Paging
use minicore_os.Base.{
  ℕ, zero, suc, ◌+◌, ◌*◌, ◌/◌, Bool, true, false, ◌&&◌, ◌||◌, not, ltb, leb, ◌==◌, if◌then◌else◌,
  wrap32, sub32, Outcome, done, out_of_fuel, ◌>>=◌,
}

-- KERNEL_HEAP_START, KERNEL_HEAP_SIZE and KERNEL_HEAP_END
abbrev pub kernel_heap_start : ℕ
kernel_heap_start = 0x00200000

abbrev pub kernel_heap_size : ℕ
kernel_heap_size = 0x00100000

abbrev pub kernel_heap_end : ℕ
kernel_heap_end = 0x00300000

-- sizeof(mem_block_t): four words of four bytes
abbrev pub header_size : ℕ
header_size = 16

-- `mem_block_t`. A pointer is an address, NULL is 0, and `is_free` is the truth of the `int`.
pub record MemBlock : Type 0 where
  pub size : ℕ
  pub is_free : Bool
  pub next : ℕ
  pub prev : ℕ

abbrev pub block : ℕ → Bool → ℕ → ℕ → MemBlock
block n f q p = record { size = n; is_free = f; next = q; prev = p }

-- `mem_stats_t`
pub record MemStats : Type 0 where
  pub total_memory : ℕ
  pub used_memory : ℕ
  pub free_memory : ℕ
  pub num_allocations : ℕ
  pub num_frees : ℕ
  pub largest_free_block : ℕ

abbrev pub Headers : Type 0
Headers = ℕ → MemBlock

-- The file's static variables, and the memory that they point into.
pub record Mm : Type 0 where
  pub header : Headers
  pub bytes : ℕ → ℕ
  pub heap_head : ℕ
  pub heap_start : ℕ
  pub heap_size : ℕ
  pub stats : MemStats

-- A write through the pointer `p`.
unfoldable pub modify : Headers → ℕ → (MemBlock → MemBlock) → Headers
modify h p g a = if a == p then g (h p) else h a

abbrev pub write : Headers → ℕ → MemBlock → Headers
write h p b = modify h p (λ _. b)

-- `p->size = v` and the like
abbrev pub set_size : Headers → ℕ → ℕ → Headers
set_size h p v = modify h p (λ b. record b { size = v })

abbrev pub set_is_free : Headers → ℕ → Bool → Headers
set_is_free h p v = modify h p (λ b. record b { is_free = v })

abbrev pub set_next : Headers → ℕ → ℕ → Headers
set_next h p v = modify h p (λ b. record b { next = v })

abbrev pub set_prev : Headers → ℕ → ℕ → Headers
set_prev h p v = modify h p (λ b. record b { prev = v })

-- `if (p) p->prev = v`
unfoldable pub relink : Headers → ℕ → ℕ → Headers
relink h p v = if p == 0 then h else set_prev h p v

-- The heap has room for 2 ^ 16 headers, so a walk over its blocks ends within these rounds.
abbrev pub walk_fuel : ℕ
walk_fuel = 65537

pub find_loop : ℕ → Headers → ℕ → ℕ → Outcome ℕ
find_loop zero h size current = out_of_fuel
find_loop (suc k) h size current =
    let rest = find_loop k h size (h current).next in
    if current == 0
    then done 0
    else if (h current).is_free && leb size (h current).size
    then done current
    else rest

pub find_free_block : ℕ → Mm → Outcome ℕ
find_free_block size m = find_loop walk_fuel m.header size m.heap_head

-- the body of the `if` of `split_block`
pub insert_block : Headers → ℕ → ℕ → ℕ → Headers
insert_block h b size new_block =
    let h1 =
      write h new_block (block (sub32 (sub32 (h b).size size) header_size) true (h b).next b) in
    let h2 = relink h1 (h1 b).next new_block in set_size (set_next h2 b new_block) b size

pub split_block : Headers → ℕ → ℕ → Headers
split_block h b size =
    if ltb (wrap32 (size + header_size + 32)) (h b).size
    then insert_block h b size (wrap32 (b + header_size + size))
    else h

-- the bodies of the two loops of `merge_free_blocks`
pub swallow_next : Headers → ℕ → ℕ → Headers
swallow_next h b next =
    let h1 = set_size h b (wrap32 ((h b).size + (h next).size + header_size)) in
    let h2 = set_next h1 b (h1 next).next in relink h2 (h2 next).next b

pub swallow_by_prev : Headers → ℕ → ℕ → Headers
swallow_by_prev h b prev =
    let h1 = set_size h prev (wrap32 ((h prev).size + (h b).size + header_size)) in
    let h2 = set_next h1 prev (h1 b).next in relink h2 (h2 b).next prev

pub merge_next_loop : ℕ → Headers → ℕ → Outcome Headers
merge_next_loop zero h b = out_of_fuel
merge_next_loop (suc k) h b =
    let next = (h b).next in
    let rest = merge_next_loop k (swallow_next h b next) b in
    if not (next == 0) && (h next).is_free then rest else done h

pub merge_prev_loop : ℕ → Headers → ℕ → Outcome Headers
merge_prev_loop zero h b = out_of_fuel
merge_prev_loop (suc k) h b =
    let prev = (h b).prev in
    let rest = merge_prev_loop k (swallow_by_prev h b prev) prev in
    if not (prev == 0) && (h prev).is_free then rest else done h

pub merge_free_blocks : Headers → ℕ → Outcome Headers
merge_free_blocks h b = do h' ← merge_next_loop walk_fuel h b; merge_prev_loop walk_fuel h' b

-- `(size + 7) & ~7`
abbrev pub align8 : ℕ → ℕ
align8 size = wrap32 (size + 7) / 8 * 8

pub count_alloc : MemStats → ℕ → MemStats
count_alloc s n = record s {
  used_memory = wrap32 (s.used_memory + n);
  free_memory = sub32 s.free_memory n;
  num_allocations = wrap32 (s.num_allocations + 1);
}

pub count_free : MemStats → ℕ → MemStats
count_free s n = record s {
  used_memory = sub32 s.used_memory n;
  free_memory = wrap32 (s.free_memory + n);
  num_frees = wrap32 (s.num_frees + 1);
}

-- the part of `kmalloc` behind the search: `b` is the block found
pub take_block : ℕ → ℕ → Mm → ℕ × Mm
take_block size b m =
    let h = set_is_free (split_block m.header b size) b false in
    (wrap32 (b + header_size), record m { header = h; stats = count_alloc m.stats (h b).size })

pub kmalloc : ℕ → Mm → Outcome (ℕ × Mm)
kmalloc size m = if size == 0 then done (0, m) else do
  b ← find_free_block (align8 size) m
  if b == 0 then done (0, m) else done (take_block (align8 size) b m)

pub kfree : ℕ → Mm → Outcome Mm
kfree ptr m =
    let b = sub32 ptr header_size in
    if ptr == 0 || (m.header b).is_free then done m else do
      h ← merge_free_blocks (set_is_free m.header b true) b
      done (record m { header = h; stats = count_free m.stats (m.header b).size })
