-- ===== src/Mm/Ops/Checks.antt =====
-- `mm_init`, `mm_get_stats`, `mm_validate_pointer` and `mm_check_heap_integrity` on a valid heap.
use Prim.Native.Nat.{max}
use minicore_os.Base.{
  ℕ, zero, suc, ◌+◌, ◌-◌, ◌≤◌, ◌<◌, ◌≡◌, arith, wrap32, refl, subst, sym, ◌∙◌, ltb, leb, le→leb,
  if◌then◌else◌, ◌==◌, false, true, ◌||◌, [], ◌∷◌, length, done, ap,
}
use minicore_os.Mm.{
  Mm, Headers, kernel_heap_start, kernel_heap_end, kernel_heap_size, walk_fuel, header_size,
}
use minicore_os.Mm.Memory.{modify_self}
use minicore_os.Mm.Layout.{Layout, total, link, Lays, Lays-end}
use minicore_os.Mm.Heap.{IsHeap, IsHeap-length, IsHeap-link, IsHeap-total}
use minicore_os.Mm.Ops.{
  mm_init, largest_loop, mm_get_stats, integrity_loop, mm_check_heap_integrity,
}

-- `mm_init` sets up a valid heap of one free block.
pub mm_init-IsHeap : (m : Mm) → IsHeap (mm_init m) ((kernel_heap_size - header_size, true) ∷ [])
unfolding mm_init
mm_init-IsHeap m = record {
  head = refl;
  start = refl;
  size = refl;
  chain = (modify_self m.header kernel_heap_start _, refl);
}

-- The size of the largest free block, 0 if there is none.
abbrev pub largest : Layout → ℕ
largest [] = 0
largest ((n, true) ∷ bs) = max n (largest bs)
largest ((n, false) ∷ bs) = largest bs

largest_loop-max :
    (h : Headers) (k prev q : ℕ) (bs : Layout) (stop best : ℕ)
    → 0 < q
    → length bs < k
    → Lays h prev q bs stop
    → largest_loop k h (link bs q) best ≡ done (max best (largest bs))
unfolding largest_loop
largest_loop-max h zero prev q bs stop best pos lt t = absurd (omega arith)
largest_loop-max h (suc k) prev q [] stop best pos lt t = ap done (omega arith)
largest_loop-max h (suc k) prev q ((n, true) ∷ bs) stop best pos lt (e, t) =
    let ne : (q == 0) ≡ false = ground arith in
    rw (ne, e)
      (largest_loop-max h k q (q + 16 + n) bs stop (if ltb best n then n else best) (omega arith)
          (omega arith) t
        ∙ ap done (ground arith))
largest_loop-max h (suc k) prev q ((n, false) ∷ bs) stop best pos lt (e, t) =
    let ne : (q == 0) ≡ false = ground arith in
    rw (ne, e) (largest_loop-max h k q (q + 16 + n) bs stop best (omega arith) (omega arith) t)

module _ {m : Mm} {bs : Layout} (v : IsHeap m bs) where
  -- `mm_get_stats` ends, returns the counters with the size of the largest free block, and stores
  -- that size; the heap is as before.
  pub mm_get_stats_lem :
      let s = record m.stats { largest_free_block = largest bs } in
      (mm_get_stats m ≡ done (s, record m { stats = s })) × IsHeap (record m { stats = s }) bs
  unfolding mm_get_stats
  mm_get_stats_lem =
      (rw (found) refl, record { head = v.head; start = v.start; size = v.size; chain = v.chain })
    where
      found : largest_loop walk_fuel m.header m.heap_head 0 ≡ done (largest bs)
      found =
          subst (λ q. largest_loop walk_fuel m.header q 0 ≡ done (largest bs)) (sym (IsHeap-link v))
            (largest_loop-max m.header walk_fuel 0 kernel_heap_start bs kernel_heap_end 0
                (omega arith) (IsHeap-length v) v.chain
              ∙ ap done (omega arith))

  in_range :
      (q : ℕ)
      → kernel_heap_start ≤ q
      → q < kernel_heap_end
      → (ltb q m.heap_start || leb (wrap32 (m.heap_start + m.heap_size)) q) ≡ false
  in_range q lo hi = rw (v.start, v.size) (ground arith)

  integrity_loop-true :
      (k prev q : ℕ) (bs : Layout) (acc : ℕ)
      → kernel_heap_start ≤ q
      → acc + total bs ≤ kernel_heap_size
      → length bs < k
      → Lays m.header prev q bs kernel_heap_end
      → integrity_loop k m (link bs q) acc ≡ done true
  unfolding integrity_loop
  integrity_loop-true zero prev q bs acc low fits lt t = absurd (omega arith)
  integrity_loop-true (suc k) prev q [] acc low fits lt t =
      rw v.size (ap done (le→leb acc kernel_heap_size (omega arith)))
  integrity_loop-true (suc k) prev q ((n, f) ∷ []) acc low fits lt (e, t) =
      let ne : (q == 0) ≡ false = ground arith in
      let sum : wrap32 (acc + wrap32 (n + header_size)) ≡ acc + 16 + n = omega arith in
      rw (ne, in_range q low (omega arith), e, sum)
        (integrity_loop-true k q (q + 16 + n) [] (acc + 16 + n) (omega arith) (omega arith)
          (omega arith) t)
  integrity_loop-true (suc k) prev q ((n, f) ∷ ((n', f') ∷ bs)) acc low fits lt (e, (e', t)) =
      let ne : (q == 0) ≡ false = ground arith in
      let self : (q == q) ≡ true = ground arith in
      let ne' : (q + 16 + n == 0) ≡ false = ground arith in
      let hi = Lays-end m.header (q + 16 + n) (q + 16 + n + 16 + n') bs kernel_heap_end t in
      let sum : wrap32 (acc + wrap32 (n + header_size)) ≡ acc + 16 + n = omega arith in
      rw (ne, in_range q low (omega arith), e, ne', e', self, sum)
        (integrity_loop-true k q (q + 16 + n) ((n', f') ∷ bs) (acc + 16 + n) (omega arith)
          (omega arith) (omega arith) (e', t))

  -- On a valid heap `mm_check_heap_integrity` ends and reports no corruption.
  pub mm_check_heap_integrity-true : mm_check_heap_integrity m ≡ done true
  unfolding mm_check_heap_integrity
  mm_check_heap_integrity-true =
      subst (λ q. integrity_loop walk_fuel m q 0 ≡ done true) (sym (IsHeap-link v))
        (integrity_loop-true walk_fuel 0 kernel_heap_start bs 0 (omega arith)
          (omega (arith, IsHeap-total v)) (IsHeap-length v) v.chain)
