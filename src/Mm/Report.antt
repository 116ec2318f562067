-- ===== src/Mm/Report.antt =====
-- What mm.c prints: the statistics, the memory map and the first blocks of the heap.
use minicore_os.Base.{
  ℕ, zero, suc, ◌+◌, ◌≡◌, refl, List, [], ◌∷◌, ◌==◌, if◌then◌else◌, Outcome, done, ◌>>=◌,
}
use minicore_os.Mm.{Mm, MemStats, kernel_heap_start, kernel_heap_end, kernel_heap_size}
use minicore_os.Mm.Layout.{Layout}
use minicore_os.Mm.Heap.{IsHeap}
use minicore_os.Mm.Ops.{mm_get_stats}
use minicore_os.Mm.Ops.Checks.{largest, mm_get_stats_lem}
use minicore_os.Terminal.{Terminal}
use minicore_os.Terminal.Cursor.{OnScreen}
use minicore_os.Terminal.Output.{Output, write_dec, write_hex, say, print, Shown, Ends, print-Ends}

-- the calls of `mm_print_stats`
abbrev stats_report : MemStats → List Output
stats_report s =
    say "=== Memory Statistics ===\n"
    ∷ say "Total Memory: "
    ∷ write_dec s.total_memory
    ∷ say " bytes\n"
    ∷ say "Used Memory: "
    ∷ write_dec s.used_memory
    ∷ say " bytes\n"
    ∷ say "Free Memory: "
    ∷ write_dec s.free_memory
    ∷ say " bytes\n"
    ∷ say "Allocations: "
    ∷ write_dec s.num_allocations
    ∷ say "\n"
    ∷ say "Frees: "
    ∷ write_dec s.num_frees
    ∷ say "\n"
    ∷ say "Largest Free Block: "
    ∷ write_dec s.largest_free_block
    ∷ say " bytes\n"
    ∷ []

pub mm_print_stats : Mm → Terminal → Outcome (Mm × Terminal)
mm_print_stats m t = do
  (stats, m') ← mm_get_stats m
  t' ← print (stats_report stats) t
  done (m', t')

pub mm_print_memory_map : Terminal → Outcome Terminal
mm_print_memory_map = print (
    say "=== Memory Map ===\n"
    ∷ say "Kernel Heap Start: 0x"
    ∷ write_hex kernel_heap_start
    ∷ say "\n"
    ∷ say "Kernel Heap End: 0x"
    ∷ write_hex kernel_heap_end
    ∷ say "\n"
    ∷ say "Heap Size: "
    ∷ write_hex kernel_heap_size
    ∷ say " bytes\n"
    ∷ [])

-- The loop of `mm_debug_heap` while `n` more blocks may be printed, from the block `current`, with the
-- calls behind it.
debug_blocks : ℕ → Mm → ℕ → ℕ → List Output
debug_blocks zero m current block_count =
    if current == 0 then [] else say "... (more blocks)\n" ∷ []
debug_blocks (suc n) m current block_count =
    let rest = debug_blocks n m (m.header current).next (block_count + 1) in
    if current == 0
    then []
    else say "Block "
      ∷ write_dec block_count
      ∷ say ": Addr=0x"
      ∷ write_hex current
      ∷ say ", Size="
      ∷ write_dec (m.header current).size
      ∷ say ", "
      ∷ (if (m.header current).is_free then say "FREE" else say "USED")
      ∷ say "\n"
      ∷ rest

pub mm_debug_heap : Mm → Terminal → Outcome Terminal
mm_debug_heap m = print (say "=== Heap Debug ===\n" ∷ debug_blocks 20 m m.heap_head 0)

-- On a valid heap and with the cursor on the screen `mm_print_stats` ends, and changes nothing of
-- the heap but the size of the largest free block in the statistics.
pub mm_print_stats_lem :
    {m : Mm} {bs : Layout} (t : Terminal)
    → IsHeap m bs
    → OnScreen t
    → let s = record m.stats { largest_free_block = largest bs } in
      (t' : Terminal) × (mm_print_stats m t ≡ done (record m { stats = s }, t'))
      × IsHeap (record m { stats = s }) bs
      × Shown t t'
unfolding mm_print_stats
mm_print_stats_lem {m} {bs} t v on =
    let (e, v') = mm_get_stats_lem v in
    let (t', e', shown) =
      print-Ends (stats_report (record m.stats { largest_free_block = largest bs })) t on in
    (t', rw (e, e') refl, v', shown)

-- The memory map and the first blocks of any heap are printed in full.
pub mm_print_memory_map_lem :
    (t : Terminal) → OnScreen t → Ends (λ t'. t') t (mm_print_memory_map t)
unfolding mm_print_memory_map
mm_print_memory_map_lem t on = print-Ends _ t on

pub mm_debug_heap_lem : (m : Mm) (t : Terminal) → OnScreen t → Ends (λ t'. t') t (mm_debug_heap m t)
unfolding mm_debug_heap
mm_debug_heap_lem m t on = print-Ends _ t on
