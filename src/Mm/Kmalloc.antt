-- ===== src/Mm/Kmalloc.antt =====
-- `kmalloc` on a heap of the chain.
use minicore_os.Base.{
  ℕ, ◌+◌, ◌≤◌, ◌<◌, ◌≡◌, refl, Bool, true, false, [], ◌∷◌, none, some, arith, ap, subst, sym, ◌∙◌,
  Outcome, done, ◌==◌,
}
use minicore_os.Mm.{
  MemBlock, Mm, set_is_free, kernel_heap_start, kernel_heap_end, header_size, walk_fuel, align8,
  kmalloc, find_free_block, find_loop, take_block, count_alloc, split_block,
}
use minicore_os.Mm.Layout.{
  Layout, onto, total, Focus, Focus-Lays, Focus-address, Focus-stop, set_is_free-Focus,
}
use minicore_os.Mm.Find.{first_fit, find_loop-none, find_loop-some}
use minicore_os.Mm.Split.{kept, rest, split_block-Focus}
use minicore_os.Mm.Heap.{IsHeap, IsHeap-length, IsHeap-link}

module _ {m : Mm} {bs : Layout} (v : IsHeap m bs) (size : ℕ) where
  find_free_block-none : first_fit size [] bs ≡ none → find_free_block size m ≡ done 0
  unfolding find_free_block
  find_free_block-none miss =
      subst (λ q. find_loop walk_fuel m.header size q ≡ done 0) (sym (IsHeap-link v))
        (find_loop-none m.header kernel_heap_start kernel_heap_end size (omega arith) walk_fuel []
          bs kernel_heap_start 0 (IsHeap-length v) (refl, refl) v.chain miss)

  find_free_block-some :
      (l : Layout) (n : ℕ) (r : Layout)
      → first_fit size [] bs ≡ some (l, n, r)
      → (q : ℕ) × (find_free_block size m ≡ done q)
        × Focus m.header kernel_heap_start kernel_heap_end l n true r q
        × (size ≤ n)
  unfolding find_free_block
  find_free_block-some l n r found =
      let (q, e, o, fits) =
        find_loop-some m.header kernel_heap_start kernel_heap_end size (omega arith) walk_fuel [] bs
          kernel_heap_start 0 l n r (IsHeap-length v) (refl, refl) v.chain found in
      (
        q,
        subst (λ p. find_loop walk_fuel m.header size p ≡ done q) (sym (IsHeap-link v)) e,
        o,
        fits,
      )

module _ {m : Mm} {bs : Layout} (v : IsHeap m bs) {l : Layout} {n : ℕ} {f : Bool} {r : Layout}
    {q : ℕ} (o : Focus m.header kernel_heap_start kernel_heap_end l n f r q) (size : ℕ)
    (fits : size ≤ n) where
  taken :
      Focus
        (set_is_free (split_block m.header q size) q false)
        kernel_heap_start
        kernel_heap_end
        l
        (kept size n)
        false
        (rest size n r)
        q
  taken = set_is_free-Focus (split_block-Focus o (omega arith) size fits) false

  pub take_block_lem :
      ((take_block size q m).0 ≡ q + header_size)
      × IsHeap (take_block size q m).1 (onto l ((kept size n, false) ∷ rest size n r))
      × ((take_block size q m).1.stats ≡ count_alloc m.stats (kept size n))
      × ((take_block size q m).1.bytes ≡ m.bytes)
  unfolding take_block
  take_block_lem = (
    omega (arith, Focus-stop o),
    record { head = v.head; start = v.start; size = v.size; chain = Focus-Lays taken },
    ap (λ (b : MemBlock). count_alloc m.stats b.size) taken.here,
    refl,
  )

module _ {m : Mm} {bs : Layout} (v : IsHeap m bs) (size : ℕ) (ask : 0 < size) where
  asks : (size == 0) ≡ false
  asks = ground arith

  pub kmalloc-none : first_fit (align8 size) [] bs ≡ none → kmalloc size m ≡ done (0, m)
  unfolding kmalloc
  kmalloc-none miss = rw (asks, find_free_block-none v (align8 size) miss)

  module _ (l : Layout) (n : ℕ) (r : Layout)
      (found : first_fit (align8 size) [] bs ≡ some (l, n, r)) where
    pub kmalloc-some :
        (m' : Mm) × (kmalloc size m ≡ done (kernel_heap_start + total l + header_size, m'))
        × IsHeap m' (onto l ((kept (align8 size) n, false) ∷ rest (align8 size) n r))
        × (m'.stats ≡ count_alloc m.stats (kept (align8 size) n))
        × (m'.bytes ≡ m.bytes)
    unfolding kmalloc
    kmalloc-some =
        let (q, e, o, fits) = find_free_block-some v (align8 size) l n r found in
        let (address, heap, counted, same) = take_block_lem v o (align8 size) fits in
        let ne : (q == 0) ≡ false = ground (arith, Focus-address o) in
        let m' = (take_block (align8 size) q m).1 in
        let at : (take_block (align8 size) q m).0 ≡ kernel_heap_start + total l + header_size =
          address ∙ ap (λ (a : ℕ). a + header_size) (Focus-address o) in
        (
          m',
          rw (asks, e, ne) (ap {B = Outcome (ℕ × Mm)} (λ (a : ℕ). done (a, m')) at),
          heap,
          counted,
          same,
        )
