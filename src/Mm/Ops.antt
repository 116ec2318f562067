-- ===== src/Mm/Ops.antt =====
-- The rest of mm.c over the core of `Mm`: initialisation, the byte functions, `kcalloc`, `krealloc`,
-- `kmalloc_aligned`, the statistics and the checks.
pub mod Bytes
pub mod Checks
pub mod Kcalloc
pub mod Krealloc
pub mod Grow
pub mod Aligned
use Prim.Native.Nat.{bit_and}
use minicore_os.Base.{
  ℕ, zero, suc, ◌+◌, ◌-◌, ◌*◌, ◌/◌, ◌%◌, Bool, true, false, ◌&&◌, ◌||◌, not, ltb, leb, ◌==◌,
  if◌then◌else◌, wrap32, wrap8, sub32, Outcome, done, fault, out_of_fuel, ◌>>=◌,
}
use minicore_os.Base.Int.{ℤ, pos, sub_ℕ}
use minicore_os.Mm.{
  Mm, MemStats, Headers, block, write, header_size, kernel_heap_start, kernel_heap_size, walk_fuel,
  kmalloc, kfree, split_block,
}

abbrev pub Bytes : Type 0
Bytes = ℕ → ℕ

unfoldable pub store : Bytes → ℕ → ℕ → Bytes
store b p v a = if a == p then v else b a

-- `while (count--) *d++ = (unsigned char)value`
pub memset : Bytes → ℕ → ℕ → ℕ → Bytes
memset b dest value zero = b
memset b dest value (suc count) =
    memset (store b dest (wrap8 value)) (wrap32 (dest + 1)) value count

-- `while (count--) *d++ = *s++`
pub memcpy : Bytes → ℕ → ℕ → ℕ → Bytes
memcpy b dest src zero = b
memcpy b dest src (suc count) =
    memcpy (store b dest (b src)) (wrap32 (dest + 1)) (wrap32 (src + 1)) count

-- The difference of the first two bytes that differ, or 0.
pub memcmp : Bytes → ℕ → ℕ → ℕ → ℤ
memcmp b p1 p2 zero = pos 0
memcmp b p1 p2 (suc count) =
    let rest = memcmp b (wrap32 (p1 + 1)) (wrap32 (p2 + 1)) count in
    if b p1 == b p2 then rest else sub_ℕ (b p1) (b p2)

-- `mm_init`; the memory map that it is passed is not read.
pub mm_init : Mm → Mm
mm_init m =
    let size = kernel_heap_size - header_size in
    record {
      header = write m.header kernel_heap_start (block size true 0 0);
      bytes = m.bytes;
      heap_head = kernel_heap_start;
      heap_start = kernel_heap_start;
      heap_size = kernel_heap_size;
      stats = record {
        total_memory = kernel_heap_size;
        used_memory = 0;
        free_memory = size;
        num_allocations = 0;
        num_frees = 0;
        largest_free_block = size;
      };
    }

-- The overflow check divides by `count`: at 0 that is a processor exception.
pub kcalloc : ℕ → ℕ → Mm → Outcome (ℕ × Mm)
kcalloc count size m =
    let total_size = wrap32 (count * size) in
    if count == 0 then fault else if not (total_size / count == size) then done (0, m) else do
      (ptr, m') ← kmalloc total_size m
      done (ptr, (if ptr == 0 then m' else record m' { bytes = memset m'.bytes ptr 0 total_size }))

-- the part of `krealloc` behind the two early returns
krealloc_block : ℕ → ℕ → Mm → Outcome (ℕ × Mm)
krealloc_block ptr new_size m =
    let b = sub32 ptr header_size in
    if leb new_size (m.header b).size
    then done (ptr, record m { header = split_block m.header b new_size })
    else do
      (new_ptr, m') ← kmalloc new_size m
      (if new_ptr == 0 then done (0, m') else do
        let old = (m'.header b).size
        let bytes' = memcpy m'.bytes new_ptr ptr (if ltb old new_size then old else new_size)
        m'' ← kfree ptr (record m' { bytes = bytes' })
        done (new_ptr, m''))

pub krealloc : ℕ → ℕ → Mm → Outcome (ℕ × Mm)
krealloc ptr new_size m =
    if ptr == 0
    then kmalloc new_size m
    else if new_size == 0
    then (do m' ← kfree ptr m; done (0, m'))
    else krealloc_block ptr new_size m

-- `*(void**)p = v`, least byte first
pub store_word : Bytes → ℕ → ℕ → Bytes
store_word b p v =
    store
      (store (store (store b p (v % 256)) (p + 1) (v / 0x100 % 256)) (p + 2) (v / 0x10000 % 256))
      (p + 3) (v / 0x1000000 % 256)

-- `(raw_ptr + sizeof(void*) + alignment - 1) & ~(alignment - 1)`; the alignment is a power of two,
-- so the mask rounds down to a multiple of it.
abbrev pub align_up : ℕ → ℕ → ℕ
align_up raw alignment = wrap32 (raw + 4 + alignment - 1) / alignment * alignment

pub kmalloc_aligned : ℕ → ℕ → Mm → Outcome (ℕ × Mm)
kmalloc_aligned size alignment m =
    if alignment == 0 || not (bit_and alignment (alignment - 1) == 0) then done (0, m) else do
      (raw, m') ← kmalloc (wrap32 (wrap32 (size + alignment) + 4)) m
      let aligned = align_up raw alignment
      done (
          if raw == 0
          then (0, m')
          else (aligned, record m' { bytes = store_word m'.bytes (sub32 aligned 4) raw }))

largest_loop : ℕ → Headers → ℕ → ℕ → Outcome ℕ
largest_loop zero h current best = out_of_fuel
largest_loop (suc k) h current best =
    let b = h current in
    let rest = largest_loop k h b.next (if b.is_free && ltb best b.size then b.size else best) in
    if current == 0 then done best else rest

pub mm_get_stats : Mm → Outcome (MemStats × Mm)
mm_get_stats m = do
  best ← largest_loop walk_fuel m.header m.heap_head 0
  let s = record m.stats { largest_free_block = best }
  done (s, record m { stats = s })

pub mm_validate_pointer : ℕ → Mm → Bool
mm_validate_pointer ptr m =
    not (ptr == 0) && not (ltb ptr m.heap_start || leb (wrap32 (m.heap_start + m.heap_size)) ptr)

integrity_loop : ℕ → Mm → ℕ → ℕ → Outcome Bool
integrity_loop zero m current total_size = out_of_fuel
integrity_loop (suc k) m current total_size =
    let b = m.header current in
    let rest = integrity_loop k m b.next (wrap32 (total_size + wrap32 (b.size + header_size))) in
    if current == 0
    then done (leb total_size m.heap_size)
    else if ltb current m.heap_start || leb (wrap32 (m.heap_start + m.heap_size)) current
    then done false
    else if not (b.next == 0) && not ((m.header b.next).prev == current)
    then done false
    else rest

pub mm_check_heap_integrity : Mm → Outcome Bool
mm_check_heap_integrity m = integrity_loop walk_fuel m m.heap_head 0
