-- ===== src/Mm/Contract.antt =====
-- What `kmalloc` and `kfree` promise, in terms of the allocations that are live.
use minicore_os.Base.{
  ℕ, ◌+◌, ◌≤◌, ◌<◌, ◌^◌, ◌≡◌, ◌⊎◌, refl, false, List, [], ◌∷◌, ◌++◌, some, arith, subst, sym, ◌∙◌,
  Option-cases, inl, inr, done,
}
use minicore_os.Mm.{
  Mm, header_size, align8, kmalloc, kfree, kernel_heap_start, kernel_heap_end, count_alloc,
  count_free,
}
use minicore_os.Mm.Layout.{Layout, onto, total}
use minicore_os.Mm.Heap.{IsHeap, IsHeap-total, total-onto}
use minicore_os.Mm.Find.{first_fit, NoneFits, first_fit-none, first_fit-some}
use minicore_os.Mm.Split.{kept-ge, kept, rest}
use minicore_os.Mm.Kmalloc.{kmalloc-none, kmalloc-some}
use minicore_os.Mm.Kfree.{join, kfree-used}
use minicore_os.Mm.Live.{Allocation, live, Adds, Adds-take, Apart, live-Apart, live-find, live-join}
use mathlib.Core.Path.{ap₂}

-- The payloads of the heap's used blocks.
abbrev pub allocations : Layout → List Allocation
allocations bs = live kernel_heap_start bs

-- `m'` is the heap of `m` with one more allocation, of at least `size` bytes.
pub record Granted (m : Mm) (bs : Layout) (size ptr : ℕ) (m' : Mm) : Type 0 where
  pub layout : Layout
  pub heap : IsHeap m' layout
  pub given : ℕ
  pub enough : size ≤ given
  pub above : kernel_heap_start + header_size ≤ ptr
  pub inside : ptr + given ≤ kernel_heap_end
  pub adds : Adds (ptr, given) (allocations bs) (allocations layout)
  pub counted : m'.stats ≡ count_alloc m.stats given
  pub same : m'.bytes ≡ m.bytes

-- `m'` is the heap of `m` after the free of `given` bytes, with the allocations `xs` left.
pub record Released (m : Mm) (xs : List Allocation) (given : ℕ) (m' : Mm) : Type 0 where
  pub layout : Layout
  pub heap : IsHeap m' layout
  pub left : allocations layout ≡ xs
  pub counted : m'.stats ≡ count_free m.stats given
  pub same : m'.bytes ≡ m.bytes

module _ {m : Mm} {bs : Layout} (v : IsHeap m bs) where
  kmalloc-Granted :
      (size : ℕ)
      → 0 < size
      → size + 7 < 2 ^ 32
      → (l : Layout) (n : ℕ) (r : Layout) → first_fit (align8 size) [] bs ≡ some (l, n, r)
      → (ptr : ℕ) × (m' : Mm) × (kmalloc size m ≡ done (ptr, m')) × Granted m bs size ptr m'
  kmalloc-Granted size ask small l n r found =
      let (m', e, heap, counted, same) = kmalloc-some v size ask l n r found in
      let (eq, fits) = first_fit-some (align8 size) [] bs l n r found in
      (
        kernel_heap_start + total l + header_size,
        m',
        e,
        record {
          layout = onto l ((kept (align8 size) n, false) ∷ rest (align8 size) n r);
          heap = heap;
          given = kept (align8 size) n;
          enough = omega (arith, kept-ge (align8 size) n fits);
          above = omega arith;
          inside = omega (
            arith,
            IsHeap-total heap,
            total-onto l ((kept (align8 size) n, false) ∷ rest (align8 size) n r),
          );
          adds =
              subst
                (λ bs.
                  Adds (kernel_heap_start + total l + header_size, kept (align8 size) n)
                    (allocations bs)
                    (allocations (onto l ((kept (align8 size) n, false) ∷ rest (align8 size) n r))))
                (sym eq) (Adds-take kernel_heap_start l n r (align8 size) fits);
          counted = counted;
          same = same;
        },
      )

  -- On a valid heap `kmalloc` of a size from 1 to 2 ^ 32 - 8 ends. Either it returns NULL and
  -- changes nothing, and every free block is smaller than the size rounded up to 8; or it
  -- returns the address of a new allocation of at least that many bytes, the heap stays valid, every
  -- other allocation stays where it is, no payload byte changes, and the statistics count the block.
  pub kmalloc_contract :
      (size : ℕ)
      → 0 < size
      → size + 7 < 2 ^ 32
      → ((kmalloc size m ≡ done (0, m)) × NoneFits (align8 size) bs)
        ⊎ ((ptr : ℕ) × (m' : Mm) × (kmalloc size m ≡ done (ptr, m')) × Granted m bs size ptr m')
  kmalloc_contract size ask small = elim (Option-cases (first_fit (align8 size) [] bs)) [
    | inl miss ↦ inl (kmalloc-none v size ask miss, first_fit-none (align8 size) [] bs miss)
    | inr ((l, n, r), found) ↦ inr (kmalloc-Granted size ask small l n r found)
  ]

  -- On a valid heap `kfree` of the address of a live allocation ends, and leaves exactly the other
  -- allocations, where they are, in a valid heap; no payload byte changes, and the statistics count
  -- the block.
  pub kfree_contract :
      (ptr n : ℕ) (xs : List Allocation)
      → Adds (ptr, n) xs (allocations bs)
      → (m' : Mm) × (kfree ptr m ≡ done m') × Released m xs n m'
  kfree_contract ptr n xs a =
      let (l, r, eq, at, front, behind) =
        live-find kernel_heap_start kernel_heap_start [] bs [] ptr n a.before a.behind (omega arith)
          refl a.to in
      let (m', e, heap, counted, same) = kfree-used v l n r eq in
      (
        m',
        subst (λ p. kfree p m ≡ done m') (sym at) e,
        record {
          layout = join l n r;
          heap = heap;
          left = live-join kernel_heap_start l n r ∙ ap₂ ◌++◌ front behind ∙ sym a.from;
          counted = counted;
          same = same;
        },
      )

  -- The allocations of a valid heap lie apart: in address order, each behind the end of the one
  -- before it with room for a header between, all inside the heap.
  pub allocations-Apart : Apart kernel_heap_start kernel_heap_end (allocations bs)
  allocations-Apart =
      live-Apart kernel_heap_start bs kernel_heap_end (omega (arith, IsHeap-total v))

-- `kfree` of NULL does nothing.
pub kfree_null : (m : Mm) → kfree 0 m ≡ done m
unfolding kfree
kfree_null m = refl
