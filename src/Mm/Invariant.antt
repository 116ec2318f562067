-- ===== src/Mm/Invariant.antt =====
-- The invariant that holds from `mm_init` on under `kmalloc` and `kfree`, and what follows from it.
use minicore_os.Base.{
  ℕ, ◌+◌, ◌%◌, ◌≤◌, ◌<◌, ◌^◌, ◌≡◌, ◌≢◌, refl, true, false, List, [], ◌∷◌, some, arith, ap, subst,
  sym, ◌∙◌, Option-cases, inl, inr, Outcome, done,
}
use minicore_os.Mm.{
  Mm, MemStats, header_size, align8, kmalloc, kfree, kernel_heap_start, count_alloc, count_free,
}
use minicore_os.Mm.Layout.{Layout, onto, total}
use minicore_os.Mm.Heap.{IsHeap, IsHeap-total, total-onto}
use minicore_os.Mm.Find.{first_fit, first_fit-some}
use minicore_os.Mm.Split.{kept, rest}
use minicore_os.Mm.Merge.{lead}
use minicore_os.Mm.Kmalloc.{kmalloc-none, kmalloc-some}
use minicore_os.Mm.Kfree.{join, kfree-used}
use minicore_os.Mm.Live.{Allocation, Adds, Adds-take, live-find}
use minicore_os.Mm.Contract.{allocations}
use minicore_os.Mm.Shape.{
  Coalesced, Coalesced-take, Coalesced-join, join-take, Aligned, Aligned-take, Aligned-join,
  Aligned-onto, Aligned-total,
}

pub record IsTidy (m : Mm) (bs : Layout) : Type 0 where
  pub heap : IsHeap m bs
  pub coalesced : Coalesced bs
  pub aligned : Aligned bs

-- What a call of `kmalloc` that returned a block has done.
record Took (m : Mm) (bs : Layout) (size ptr : ℕ) (m' : Mm) : Type 0 where
  l : Layout
  n : ℕ
  r : Layout
  was : bs ≡ onto l ((n, true) ∷ r)
  fits : align8 size ≤ n
  address : ptr ≡ kernel_heap_start + total l + header_size
  heap : IsHeap m' (onto l ((kept (align8 size) n, false) ∷ rest (align8 size) n r))
  counted : m'.stats ≡ count_alloc m.stats (kept (align8 size) n)

done-injective :
    {a b : ℕ} {m m' : Mm}
    → ◌≡◌ {A = Outcome (ℕ × Mm)} (done (a, m)) (done (b, m'))
    → (a ≡ b) × (m ≡ m')
done-injective e = (cc, cc)

kmalloc-Took :
    {m : Mm} {bs : Layout} (v : IsHeap m bs) (size ptr : ℕ) (m' : Mm)
    → 0 < size
    → kmalloc size m ≡ done (ptr, m')
    → ptr ≢ 0
    → Took m bs size ptr m'
kmalloc-Took {m} {bs} v size ptr m' ask e nz = elim (Option-cases (first_fit (align8 size) [] bs)) [
  | inl miss ↦ absurd (nz (sym (done-injective (sym (kmalloc-none v size ask miss) ∙ e)).0))
  | inr ((l, n, r), found) ↦
      let (m1, e1, heap, counted, same) = kmalloc-some v size ask l n r found in
      let (was, fits) = first_fit-some (align8 size) [] bs l n r found in
      let (ea, em) = done-injective (sym e1 ∙ e) in
      record {
        l = l;
        n = n;
        r = r;
        was = was;
        fits = fits;
        address = sym ea;
        heap =
            subst (λ m. IsHeap m (onto l ((kept (align8 size) n, false) ∷ rest (align8 size) n r)))
              em heap;
        counted = ap (λ (m : Mm). m.stats) (sym em) ∙ counted;
      }
]

-- Counting a block in and out again leaves the byte counts as they were.
module _ {s' s'' : MemStats} (s : MemStats) (k : ℕ) (word : k < 2 ^ 32) where
  back_used :
      s.used_memory < 2 ^ 32
      → s'' ≡ count_free s' k
      → s' ≡ count_alloc s k
      → s''.used_memory ≡ s.used_memory
  unfolding count_alloc count_free
  back_used small e e' = rw (e, e') (omega arith)

  back_free :
      s.free_memory < 2 ^ 32
      → s'' ≡ count_free s' k
      → s' ≡ count_alloc s k
      → s''.free_memory ≡ s.free_memory
  unfolding count_alloc count_free
  back_free small e e' = rw (e, e') (omega arith)

module _ {m : Mm} {bs : Layout} (v : IsTidy m bs) (size ptr : ℕ) (m' : Mm) (ask : 0 < size)
    (e : kmalloc size m ≡ done (ptr, m')) (nz : ptr ≢ 0) where
  took : Took m bs size ptr m'
  took = kmalloc-Took v.heap size ptr m' ask e nz

  -- On a valid heap without free neighbours and with sizes that are multiples of 8, where `kmalloc`
  -- of a size above 0 returns a block, the heap stays so, and the address is a multiple of 8.
  pub kmalloc-IsTidy : (bs' : Layout) × IsTidy m' bs' × (ptr % 8 ≡ 0)
  kmalloc-IsTidy =
      let t = took in
      let aligned = subst Aligned t.was v.aligned in
      let (al, _) = Aligned-onto t.l ((t.n, true) ∷ t.r) aligned in
      (
        onto t.l ((kept (align8 size) t.n, false) ∷ rest (align8 size) t.n t.r),
        record {
          heap = t.heap;
          coalesced = Coalesced-take t.l t.n t.r (align8 size) (subst Coalesced t.was v.coalesced);
          aligned = Aligned-take t.l t.n t.r (align8 size) (omega arith) aligned;
        },
        omega (arith, Aligned-total t.l al, t.address),
      )

  -- On a valid heap without free neighbours, with sizes that are multiples of 8 and with counters
  -- below 2 ^ 32, what `kmalloc` gave out `kfree` takes back: the blocks of the heap are again what
  -- they were, and so are the bytes counted as used and as free.
  pub kfree-kmalloc :
      m.stats.used_memory < 2 ^ 32
      → m.stats.free_memory < 2 ^ 32
      → (m'' : Mm) × (kfree ptr m' ≡ done m'')
        × IsTidy m'' bs
        × (m''.stats.used_memory ≡ m.stats.used_memory)
        × (m''.stats.free_memory ≡ m.stats.free_memory)
  kfree-kmalloc small_used small_free =
      let t = took in
      let k = kept (align8 size) t.n in
      let (m'', e', heap, counted, same) =
        kfree-used t.heap t.l k (rest (align8 size) t.n t.r) refl in
      let word : k < 2 ^ 32 =
        omega
          (arith, IsHeap-total t.heap, total-onto t.l ((k, false) ∷ rest (align8 size) t.n t.r)) in
      let back =
        join-take t.l t.n t.r (align8 size) t.fits (subst Coalesced t.was v.coalesced)
        ∙ sym t.was in
      (
        m'',
        subst (λ p. kfree p m' ≡ done m'') (sym t.address) e',
        record {
          heap = subst (λ bs. IsHeap m'' bs) back heap;
          coalesced = v.coalesced;
          aligned = v.aligned;
        },
        back_used m.stats k word small_used counted t.counted,
        back_free m.stats k word small_free counted t.counted,
      )

-- `kfree` of a live allocation keeps a heap valid, without free neighbours and with sizes that are
-- multiples of 8.
pub kfree-IsTidy :
    {m : Mm} {bs : Layout} (v : IsTidy m bs) (ptr n : ℕ) (xs : List Allocation)
    → Adds (ptr, n) xs (allocations bs)
    → (m' : Mm) × (bs' : Layout) × (kfree ptr m ≡ done m') × IsTidy m' bs'
kfree-IsTidy {m} {bs} v ptr n xs a =
    let (l, r, eq, at, _, _) =
      live-find kernel_heap_start kernel_heap_start [] bs [] ptr n a.before a.behind (omega arith)
        refl a.to in
    let (m', e, heap, _, _) = kfree-used v.heap l n r eq in
    (
      m',
      join l n r,
      subst (λ p. kfree p m ≡ done m') (sym at) e,
      record {
        heap = heap;
        coalesced = Coalesced-join l (lead l + (n + lead r)) n r (subst Coalesced eq v.coalesced);
        aligned = Aligned-join l n r (subst Aligned eq v.aligned);
      },
    )

-- The rounding up to 8 wraps: for a size from 2 ^ 32 - 7 on it gives 0, and on a valid heap `kmalloc`
-- then returns a block of no bytes, if the first free block has more than 48.
pub kmalloc_wraps :
    {m : Mm} {bs : Layout} (v : IsHeap m bs) (size : ℕ) (l : Layout) (n : ℕ) (r : Layout)
    → 2 ^ 32 ≤ size + 7
    → size < 2 ^ 32
    → first_fit 0 [] bs ≡ some (l, n, r)
    → 48 < n
    → (ptr : ℕ) × (m' : Mm) × (bs' : Layout) × (kmalloc size m ≡ done (ptr, m'))
      × IsHeap m' bs'
      × Adds (ptr, 0) (allocations bs) (allocations bs')
kmalloc_wraps {m} {bs} v size l n r big small found room =
    let z : align8 size ≡ 0 = omega arith in
    let k : kept (align8 size) n ≡ 0 = ground arith in
    let (m', e, heap, _, _) = kmalloc-some v size (omega arith) l n r (rw z found) in
    let (was, fits) = first_fit-some 0 [] bs l n r found in
    let bs' = onto l ((kept (align8 size) n, false) ∷ rest (align8 size) n r) in
    (
      kernel_heap_start + total l + header_size,
      m',
      bs',
      e,
      heap,
      subst
          (λ given.
            Adds (kernel_heap_start + total l + header_size, given) (allocations bs)
              (allocations bs'))
          k
          (subst
            (λ bs.
              Adds (kernel_heap_start + total l + header_size, kept (align8 size) n)
                (allocations bs) (allocations bs'))
            (sym was) (Adds-take kernel_heap_start l n r (align8 size) (omega arith))),
    )
