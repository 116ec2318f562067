-- ===== src/Mm/Heap.antt =====
-- The invariant of the heap: from its first to its last address it is one chain of blocks.
use minicore_os.Base.{
  ℕ, ◌+◌, ◌*◌, ◌≤◌, ◌<◌, ◌≡◌, refl, Bool, [], ◌∷◌, arith, length, subst, sym, ◌∙◌,
}
use minicore_os.Mm.{
  Mm, Headers, kernel_heap_start, kernel_heap_size, kernel_heap_end, header_size, walk_fuel,
}
use minicore_os.Mm.Layout.{
  Layout, link, onto, total, Lays, Lays-end, Before, Focus, focus, Focus-address,
}

pub record IsHeap (m : Mm) (bs : Layout) : Type 0 where
  pub head : m.heap_head ≡ kernel_heap_start
  pub start : m.heap_start ≡ kernel_heap_start
  pub size : m.heap_size ≡ kernel_heap_size
  pub chain : Lays m.header 0 kernel_heap_start bs kernel_heap_end

pub length-le-total : (bs : Layout) → header_size * length bs ≤ total bs
length-le-total [] = omega arith
length-le-total ((n, f) ∷ bs) = omega (arith, length-le-total bs)

pub length-onto : (l bs : Layout) → length (onto l bs) ≡ length l + length bs
length-onto [] bs = omega arith
length-onto (b ∷ l) bs = omega (arith, length-onto l (b ∷ bs))

pub total-onto : (l bs : Layout) → total (onto l bs) ≡ total l + total bs
total-onto [] bs = omega arith
total-onto ((n, f) ∷ l) bs = omega (arith, total-onto l ((n, f) ∷ bs))

link_nonempty : (bs : Layout) (q : ℕ) → 0 < total bs → link bs q ≡ q
link_nonempty [] q pos = absurd (omega arith)
link_nonempty (b ∷ bs) q pos = refl

-- A chain can be opened at any of its blocks.
pub Lays-open :
    (h : Headers) (start stop : ℕ) (l bs : Layout)
    → Lays h 0 start (onto l bs) stop
    → (q : ℕ) × (prev : ℕ) × Before h start l q prev (link bs q) × Lays h prev q bs stop
Lays-open h start stop [] bs t = (start, 0, (refl, refl), t)
Lays-open h start stop ((n, f) ∷ l) bs t =
    let (q, prev, b, (e, t')) = Lays-open h start stop l ((n, f) ∷ bs) t in
    (q + 16 + n, q, (prev, refl, e, b), t')

module _ {m : Mm} {bs : Layout} (v : IsHeap m bs) where
  pub IsHeap-total : total bs ≡ kernel_heap_size
  IsHeap-total = omega (arith, Lays-end m.header 0 kernel_heap_start bs kernel_heap_end v.chain)

  -- There are fewer blocks than rounds of fuel.
  pub IsHeap-length : length bs < walk_fuel
  IsHeap-length = omega (arith, length-le-total bs, IsHeap-total)

  pub IsHeap-link : m.heap_head ≡ link bs kernel_heap_start
  IsHeap-link = v.head ∙ sym (link_nonempty bs kernel_heap_start (omega (arith, IsHeap-total)))

  pub IsHeap-Focus :
      (l : Layout) (n : ℕ) (f : Bool) (r : Layout)
      → bs ≡ onto l ((n, f) ∷ r)
      → Focus m.header kernel_heap_start kernel_heap_end l n f r (kernel_heap_start + total l)
  IsHeap-Focus l n f r e =
      let (q, prev, b, t) =
        Lays-open m.header kernel_heap_start kernel_heap_end l ((n, f) ∷ r)
          (subst (λ bs. Lays m.header 0 kernel_heap_start bs kernel_heap_end) e v.chain) in
      let o = focus m.header kernel_heap_start kernel_heap_end l n f r q prev b t in
      subst (λ q. Focus m.header kernel_heap_start kernel_heap_end l n f r q) (Focus-address o) o
