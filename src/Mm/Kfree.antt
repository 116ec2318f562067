-- ===== src/Mm/Kfree.antt =====
-- `kfree` on a heap of the chain.
use minicore_os.Base.{
  ℕ, ◌+◌, ◌<◌, ◌≡◌, refl, true, false, ◌∷◌, arith, length, ap, done, ◌==◌, sub32,
}
use minicore_os.Mm.{
  Mm, Headers, kernel_heap_start, kernel_heap_end, header_size, walk_fuel, kfree, merge_free_blocks,
  count_free,
}
use minicore_os.Mm.Layout.{Layout, onto, total, Focus, Lays, Focus-stop, set_is_free-Focus}
use minicore_os.Mm.Merge.{lead, strip, merge_next_loop-Focus, merge_prev_loop-Lays}
use minicore_os.Mm.Heap.{IsHeap, IsHeap-length, IsHeap-Focus, length-onto}

-- The layout when the block of `n` bytes between `l` and `r` has been freed.
abbrev pub join : Layout → ℕ → Layout → Layout
join l n r = onto (strip l) ((lead l + (n + lead r), true) ∷ strip r)

merge_free_blocks-Lays :
    (h : Headers) (l : Layout) (n : ℕ) (r : Layout) (q : ℕ)
    → length l < walk_fuel
    → length r < walk_fuel
    → Focus h kernel_heap_start kernel_heap_end l n true r q
    → (h' : Headers) × (merge_free_blocks h q ≡ done h')
      × Lays h' 0 kernel_heap_start (join l n r) kernel_heap_end
unfolding merge_free_blocks
merge_free_blocks-Lays h l n r q ll lr o =
    let (h1, e1, o1) =
      merge_next_loop-Focus kernel_heap_start kernel_heap_end l true q (omega arith) walk_fuel h n r
        lr o in
    let (h2, e2, t) =
      merge_prev_loop-Lays kernel_heap_start kernel_heap_end (strip r) (omega arith) (omega arith)
        walk_fuel h1 l (n + lead r) q ll o1 in
    (h2, rw e1 e2, t)

module _ {m : Mm} {bs : Layout} (v : IsHeap m bs) (l : Layout) (n : ℕ) (r : Layout) where
  abbrev at : ℕ
  at = kernel_heap_start + total l

  header_of : at + 16 + n + total r ≡ kernel_heap_end → sub32 (at + header_size) header_size ≡ at
  header_of e = omega arith

  module _ (used : bs ≡ onto l ((n, false) ∷ r)) where
    pub kfree-used :
        (m' : Mm) × (kfree (at + header_size) m ≡ done m')
        × IsHeap m' (join l n r)
        × (m'.stats ≡ count_free m.stats n)
        × (m'.bytes ≡ m.bytes)
    unfolding kfree
    kfree-used =
        let o = IsHeap-Focus v l n false r used in
        let lens : length l + length ((n, false) ∷ r) < walk_fuel =
          omega (arith, IsHeap-length v, ap length used, length-onto l ((n, false) ∷ r)) in
        let (h', e, t) =
          merge_free_blocks-Lays _ l n r at (omega arith) (omega arith)
            (set_is_free-Focus o true) in
        let ne : (at + header_size == 0) ≡ false = ground arith in
        let eq : sub32 (at + header_size) header_size ≡ at = omega (arith, Focus-stop o) in
        (
          record m { header = h'; stats = count_free m.stats n },
          rw (ne, eq, o.here, e) refl,
          record { head = v.head; start = v.start; size = v.size; chain = t },
          refl,
          refl,
        )
