-- ===== src/Mm/Ops/Grow.antt =====
-- `krealloc` of a live allocation to a larger size: the contents move to a new one.
use minicore_os.Base.{
  ℕ, ◌+◌, ◌≤◌, ◌<◌, ◌^◌, ◌≡◌, ◌⊎◌, refl, true, false, List, [], arith, ap, sym, ◌∙◌, subst, ◌==◌,
  leb, ltb, done, sub32, inl, inr,
}
use minicore_os.Mm.{
  Mm, header_size, align8, kmalloc, kfree, kernel_heap_start, kernel_heap_end, count_alloc,
  count_free,
}
use minicore_os.Mm.Layout.{Layout, total, Focus-stop}
use minicore_os.Mm.Heap.{IsHeap, IsHeap-Focus}
use minicore_os.Mm.Find.{NoneFits}
use minicore_os.Mm.Live.{Allocation, Adds, Apart, live-find}
use minicore_os.Mm.Contract.{
  allocations, Granted, kmalloc_contract, kfree_contract, allocations-Apart,
}
use minicore_os.Mm.Moved.{Adds-swap, Apart-within, Apart-pair}
use minicore_os.Mm.Ops.{krealloc, krealloc_block, memcpy}
use minicore_os.Mm.Ops.Bytes.{memcpy_inside, memcpy_outside}

-- The header in front of a live allocation has its size, and the allocation lies in the heap.
header-size :
    {m : Mm} {bs : Layout} (v : IsHeap m bs) (ptr n : ℕ) (xs : List Allocation)
    → Adds (ptr, n) xs (allocations bs)
    → ((m.header (sub32 ptr header_size)).size ≡ n)
      × (kernel_heap_start + 16 ≤ ptr)
      × (ptr + n ≤ kernel_heap_end)
header-size {m} {bs} v ptr n xs a =
    let (l, r, eq, at, front, behind) =
      live-find kernel_heap_start kernel_heap_start [] bs [] ptr n a.before a.behind (omega arith)
        refl a.to in
    let o = IsHeap-Focus v l n false r eq in
    let eb : sub32 ptr header_size ≡ kernel_heap_start + total l = omega (arith, Focus-stop o) in
    let (low, high) =
      Apart-within kernel_heap_start kernel_heap_end a.before ptr n a.behind
        (subst (λ ys. Apart kernel_heap_start kernel_heap_end ys) a.to (allocations-Apart v)) in
    (rw (eb, o.here) refl, low, high)

-- `m'` is the heap of `m` in which the allocation of `n` bytes at `ptr`, beside the others `xs`,
-- has become one of at least `new_size` bytes at `new_ptr`, with the same contents.
pub record Moved (m : Mm) (xs : List Allocation) (ptr n new_size new_ptr : ℕ) (m' : Mm)
    : Type 0 where
  pub layout : Layout
  pub heap : IsHeap m' layout
  pub given : ℕ
  pub enough : new_size ≤ given
  pub adds : Adds (new_ptr, given) xs (allocations layout)
  pub copied : (i : ℕ) → i < n → m'.bytes (new_ptr + i) ≡ m.bytes (ptr + i)
  pub others : (a : ℕ) → (a < new_ptr) ⊎ (new_ptr + n ≤ a) → m'.bytes a ≡ m.bytes a
  pub counted : m'.stats ≡ count_free (count_alloc m.stats given) n

module _ {m : Mm} {bs : Layout} (v : IsHeap m bs) (ptr n : ℕ) (xs : List Allocation) (new_size : ℕ)
    (a : Adds (ptr, n) xs (allocations bs)) (larger : n < new_size)
    (small : new_size + 7 < 2 ^ 32) where
  -- The new allocation is there: the copy, and the free of the old one.
  module _ (new_ptr : ℕ) (m' : Mm) (e : kmalloc new_size m ≡ done (new_ptr, m'))
      (g : Granted m bs new_size new_ptr m') where
    abbrev copied_bytes : ℕ → ℕ
    copied_bytes = memcpy m'.bytes new_ptr ptr n

    abbrev filled : Mm
    filled = record m' { bytes = copied_bytes }

    filled-IsHeap : IsHeap filled g.layout
    filled-IsHeap = record {
      head = g.heap.head;
      start = g.heap.start;
      size = g.heap.size;
      chain = g.heap.chain;
    }

    krealloc_moves :
        (m'' : Mm) → kfree ptr filled ≡ done m'' → krealloc ptr new_size m ≡ done (new_ptr, m'')
    unfolding krealloc krealloc_block
    krealloc_moves m'' freed =
        let (ys, old, _) = Adds-swap g.adds a in
        let (size, low, _) = header-size v ptr n xs a in
        let (size', _, _) = header-size g.heap ptr n ys old in
        let np : (ptr == 0) ≡ false = ground arith in
        let ns : (new_size == 0) ≡ false = ground arith in
        let too_small : leb new_size n ≡ false = ground arith in
        let above = g.above in
        let nn : (new_ptr == 0) ≡ false = ground arith in
        let shorter : ltb n new_size ≡ true = ground arith in
        rw (np, ns, size, too_small, e, nn, size', shorter, freed) refl

    moved :
        (m'' : Mm) × (krealloc ptr new_size m ≡ done (new_ptr, m''))
        × Moved m xs ptr n new_size new_ptr m''
    moved =
        let (ys, old, new) = Adds-swap g.adds a in
        let (m'', freed, r) = kfree_contract filled-IsHeap ptr n ys old in
        let (_, low, high) = header-size v ptr n xs a in
        let above = g.above in
        let inside = g.inside in
        let enough = g.enough in
        let apart =
          Apart-pair kernel_heap_start kernel_heap_end old.before ptr n old.behind new.before
            new_ptr g.given new.behind
            (subst (λ ys. Apart kernel_heap_start kernel_heap_end ys) old.to
              (allocations-Apart g.heap))
            (sym old.from ∙ new.to) in
        let free_of : (new_ptr + n ≤ ptr) ⊎ (ptr + n ≤ new_ptr) = ground arith in
        (
          m'',
          krealloc_moves m'' freed,
          record {
            layout = r.layout;
            heap = r.heap;
            given = g.given;
            enough = g.enough;
            adds = subst (Adds (new_ptr, g.given) xs) (sym r.left) new;
            copied = λ i lt.
                ap (λ (f : ℕ → ℕ). f (new_ptr + i)) r.same
                ∙ memcpy_inside m'.bytes new_ptr ptr n i (omega arith) (omega arith) free_of lt
                ∙ ap (λ (f : ℕ → ℕ). f (ptr + i)) g.same;
            others = λ i out.
                ap (λ (f : ℕ → ℕ). f i) r.same
                ∙ memcpy_outside m'.bytes new_ptr ptr n i (omega arith) (omega arith) out
                ∙ ap (λ (f : ℕ → ℕ). f i) g.same;
            counted = r.counted ∙ ap (λ s. count_free s n) g.counted;
          },
        )

  -- On a valid heap `krealloc` of a live allocation of `n` bytes to a larger size, below 2 ^ 32 - 7,
  -- ends. Either it returns NULL and changes nothing, and every free block is smaller than the
  -- size rounded up to 8; or it returns the address of an allocation of at least the new size whose
  -- first `n` bytes are those of the old one. The old one is then free and all others stay, no other
  -- byte has changed, the heap is valid and the statistics count both blocks.
  pub krealloc_grow :
      ((krealloc ptr new_size m ≡ done (0, m)) × NoneFits (align8 new_size) bs)
      ⊎ ((new_ptr : ℕ) × (m' : Mm) × (krealloc ptr new_size m ≡ done (new_ptr, m'))
          × Moved m xs ptr n new_size new_ptr m')
  unfolding krealloc krealloc_block
  krealloc_grow = elim (kmalloc_contract v new_size (omega arith) small) [
    | inl (e, none_fits) ↦
        let (size, low, _) = header-size v ptr n xs a in
        let np : (ptr == 0) ≡ false = ground arith in
        let ns : (new_size == 0) ≡ false = ground arith in
        let too_small : leb new_size n ≡ false = ground arith in
        inl (rw (np, ns, size, too_small, e) refl, none_fits)
    | inr (new_ptr, m', e, g) ↦
        let (m'', done_so, r) = moved new_ptr m' e g in inr (new_ptr, m'', done_so, r)
  ]
