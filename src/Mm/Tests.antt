-- ===== src/Mm/Tests.antt =====
-- Runs of the heap on small inputs, and the theorems at heaps that meet their hypotheses.
use minicore_os.Base.{
  ℕ, ◌-◌, ◌%◌, ◌≡◌, ◌⊎◌, sub32, refl, true, false, [], ◌∷◌, arith, ◌==◌, if◌then◌else◌, done,
}
use minicore_os.Mm.{
  Mm, MemStats, block, header_size, kernel_heap_start, kernel_heap_size, kmalloc, kfree,
  find_free_block, find_loop, take_block, split_block, insert_block, relink, modify, count_alloc,
}
use minicore_os.Mm.Layout.{Layout}
use minicore_os.Mm.Heap.{IsHeap}
use minicore_os.Mm.Find.{NoneFits, first_fit}
use minicore_os.Mm.Contract.{allocations, Granted, Released, kmalloc_contract, kfree_contract}
use minicore_os.Mm.Invariant.{IsTidy, kmalloc-IsTidy, kfree-kmalloc, kfree-IsTidy, kmalloc_wraps}
use minicore_os.Mm.Live.{Adds}
use minicore_os.Mm.Paging.{Paging, zero_entry}
use minicore_os.Mm.Ops.Aligned.{Placed, kmalloc_aligned_contract}
use minicore_os.Mm.Ops.{store_word, kmalloc_aligned, kcalloc, krealloc}
use minicore_os.Mm.Ops.Grow.{Moved, krealloc_grow}
use minicore_os.Mm.Ops.Krealloc.{Shrunk, krealloc_shrink}
use minicore_os.Mm.Ops.Kcalloc.{Zeroed, kcalloc_contract}

abbrev no_stats : MemStats
no_stats = record {
  total_memory = 0;
  used_memory = 0;
  free_memory = 0;
  num_allocations = 0;
  num_frees = 0;
  largest_free_block = 0;
}

abbrev blank : Mm
blank = record {
  header = λ _. block 0 false 0 0;
  bytes = λ _. 7;
  heap_head = 0;
  heap_start = 0;
  heap_size = 0;
  stats = no_stats;
}

abbrev fresh_layout : Layout
fresh_layout = (kernel_heap_size - header_size, true) ∷ []

-- A heap with one block of 104 bytes in use, and the rest free.
abbrev used_layout : Layout
used_layout = (104, false) ∷ ((1048440, true) ∷ [])

abbrev used : Mm
used = record {
  header = λ a.
      if a == kernel_heap_start
      then block 104 false 0x200078 0
      else block 1048440 true 0 kernel_heap_start;
  bytes = λ _. 7;
  heap_head = kernel_heap_start;
  heap_start = kernel_heap_start;
  heap_size = kernel_heap_size;
  stats = record no_stats { used_memory = 104; free_memory = 1048456 };
}

used-IsHeap : IsHeap used used_layout
used-IsHeap = record { head = refl; start = refl; size = refl; chain = (refl, (refl, refl)) }

used-IsTidy : IsTidy used used_layout
used-IsTidy = record {
  heap = used-IsHeap;
  coalesced = tt;
  aligned = (omega arith, (omega arith, tt));
}

used-live : Adds (0x200010, 104) [] (allocations used_layout)
used-live = record { before = []; behind = []; from = refl; to = refl }

kmalloc_contract_example :
    ((kmalloc 100 used ≡ done (0, used)) × NoneFits 104 used_layout)
    ⊎ ((ptr : ℕ) × (m' : Mm) × (kmalloc 100 used ≡ done (ptr, m'))
        × Granted used used_layout 100 ptr m')
kmalloc_contract_example = kmalloc_contract used-IsHeap 100 (omega arith) (omega arith)

kfree_contract_example : (m' : Mm) × (kfree 0x200010 used ≡ done m') × Released used [] 104 m'
kfree_contract_example = kfree_contract used-IsHeap 0x200010 104 [] used-live

kfree-IsTidy_example : (m' : Mm) × (bs' : Layout) × (kfree 0x200010 used ≡ done m') × IsTidy m' bs'
kfree-IsTidy_example = kfree-IsTidy used-IsTidy 0x200010 104 [] used-live

-- what `kmalloc 100` leaves of the heap above
abbrev taken : Mm
unfolding kmalloc find_free_block find_loop take_block split_block insert_block relink modify
    count_alloc
taken = elim (kmalloc 100 used) [ done (p, m) ↦ m | _ ↦ used ]

taken_lem : kmalloc 100 used ≡ done (0x200088, taken)
unfolding kmalloc find_free_block find_loop take_block split_block insert_block relink modify
    count_alloc
taken_lem = refl

kmalloc-IsTidy_example : (bs' : Layout) × IsTidy taken bs' × (0x200088 % 8 ≡ 0)
kmalloc-IsTidy_example =
    kmalloc-IsTidy used-IsTidy 100 0x200088 taken (omega arith) taken_lem (omega arith)

kfree-kmalloc_example :
    (m'' : Mm) × (kfree 0x200088 taken ≡ done m'')
    × IsTidy m'' used_layout
    × (m''.stats.used_memory ≡ 104)
    × (m''.stats.free_memory ≡ 1048456)
kfree-kmalloc_example =
    kfree-kmalloc used-IsTidy 100 0x200088 taken (omega arith) taken_lem (omega arith) (omega arith)
      (omega arith)

kmalloc_wraps_example :
    (ptr : ℕ) × (m' : Mm) × (bs' : Layout) × (kmalloc 0xffffffff used ≡ done (ptr, m'))
    × IsHeap m' bs'
    × Adds (ptr, 0) (allocations used_layout) (allocations bs')
unfolding first_fit
kmalloc_wraps_example =
    kmalloc_wraps used-IsHeap 0xffffffff ((104, false) ∷ []) 1048440 [] (omega arith) (omega arith)
      refl (omega arith)

krealloc_shrink_example :
    (m' : Mm) × (krealloc 0x200010 40 used ≡ done (0x200010, m')) × Shrunk used [] 0x200010 40 m'
krealloc_shrink_example =
    krealloc_shrink used-IsHeap 0x200010 104 [] 40 used-live (omega arith) (omega arith)

kcalloc_contract_example :
    ((kcalloc 50 4 used ≡ done (0, used)) × NoneFits 200 used_layout)
    ⊎ ((ptr : ℕ) × (m' : Mm) × (m'' : Mm) × (kcalloc 50 4 used ≡ done (ptr, m''))
        × Granted used used_layout 200 ptr m'
        × (m'' ≡ record m' { bytes = m''.bytes })
        × Zeroed used ptr 200 m'')
kcalloc_contract_example = kcalloc_contract used-IsHeap 50 4 (omega arith) (omega arith)

kmalloc_aligned_contract_example :
    ((kmalloc_aligned 64 16 used ≡ done (0, used)) × NoneFits 88 used_layout)
    ⊎ ((raw : ℕ) × (m' : Mm) × (aligned : ℕ) × (kmalloc_aligned 64 16 used
          ≡ done (aligned, record m' { bytes = store_word m'.bytes (sub32 aligned 4) raw }))
        × Granted used used_layout 84 raw m'
        × Placed raw 64 16 aligned)
kmalloc_aligned_contract_example =
    kmalloc_aligned_contract used-IsHeap 64 16 (omega arith) refl (omega arith)

abbrev no_pages : Paging
no_pages = record { directory = λ i. zero_entry; tables = λ t i. zero_entry }

krealloc_grow_example :
    ((krealloc 0x200010 200 used ≡ done (0, used)) × NoneFits 200 used_layout)
    ⊎ ((p : ℕ) × (m' : Mm) × (krealloc 0x200010 200 used ≡ done (p, m'))
        × Moved used [] 0x200010 104 200 p m')
krealloc_grow_example =
    krealloc_grow used-IsHeap 0x200010 104 [] 200 used-live (omega arith) (omega arith)
