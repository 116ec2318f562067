-- ===== src/Mm/Ops/Krealloc.antt =====
-- `krealloc` of a live allocation to a smaller size, and its two early returns.
use minicore_os.Base.{
  ℕ, ◌+◌, ◌≤◌, ◌<◌, ◌≡◌, refl, false, List, [], ◌∷◌, ◌++◌, arith, ap, sym, ◌∙◌, ◌==◌, le→leb, done,
  sub32, ◌>>=◌,
}
use mathlib.Core.Path.{ap₂}
use minicore_os.Mm.{Mm, header_size, kmalloc, kfree, split_block, kernel_heap_start}
use minicore_os.Mm.Layout.{Layout, onto, total, Focus-stop, Focus-Lays}
use minicore_os.Mm.Heap.{IsHeap, IsHeap-Focus}
use minicore_os.Mm.Split.{kept, rest, split_block-Focus}
use minicore_os.Mm.Live.{Allocation, Adds, live-take, live-find}
use minicore_os.Mm.Contract.{allocations}
use minicore_os.Mm.Ops.{krealloc, krealloc_block}

-- `krealloc` of NULL is `kmalloc`, and `krealloc` to the size 0 is `kfree` and returns NULL.
pub krealloc_early :
    (ptr size : ℕ) (m : Mm)
    → (krealloc 0 size m ≡ kmalloc size m)
      × (0 < ptr → krealloc ptr 0 m ≡ (kfree ptr m >>= λ m'. done (0, m')))
unfolding krealloc
krealloc_early ptr size m = (refl, λ pos. let ne : (ptr == 0) ≡ false = ground arith in rw ne)

-- `m'` is the heap of `m` in which the allocation at `ptr`, beside the others `xs`, has `given`
-- bytes.
pub record Shrunk (m : Mm) (xs : List Allocation) (ptr given : ℕ) (m' : Mm) : Type 0 where
  pub layout : Layout
  pub heap : IsHeap m' layout
  pub adds : Adds (ptr, given) xs (allocations layout)
  pub counted : m'.stats ≡ m.stats
  pub same : m'.bytes ≡ m.bytes

-- `krealloc` of a live allocation of `n` bytes to at most as many returns the same address. The heap
-- stays valid, all other allocations stay, no payload byte changes, and the block is cut down to the
-- new size where that leaves more than 48 bytes; the statistics are left as they were, also then.
pub krealloc_shrink :
    {m : Mm} {bs : Layout} (v : IsHeap m bs) (ptr n : ℕ) (xs : List Allocation) (new_size : ℕ)
    → Adds (ptr, n) xs (allocations bs)
    → 0 < new_size
    → new_size ≤ n
    → (m' : Mm) × (krealloc ptr new_size m ≡ done (ptr, m')) × Shrunk m xs ptr (kept new_size n) m'
unfolding krealloc krealloc_block
krealloc_shrink {m} {bs} v ptr n xs new_size a pos fits =
    let (l, r, eq, at, front, behind) =
      live-find kernel_heap_start kernel_heap_start [] bs [] ptr n a.before a.behind (omega arith)
        refl a.to in
    let b = kernel_heap_start + total l in
    let o = IsHeap-Focus v l n false r eq in
    let o' = split_block-Focus o (omega arith) new_size fits in
    let eb : sub32 ptr header_size ≡ b = omega (arith, Focus-stop o) in
    let np : (ptr == 0) ≡ false = ground arith in
    let ns : (new_size == 0) ≡ false = ground arith in
    (
      record m { header = split_block m.header b new_size },
      rw (np, ns, eb, o.here, le→leb new_size n fits),
      record {
        layout = onto l ((kept new_size n, false) ∷ rest new_size n r);
        heap = record { head = v.head; start = v.start; size = v.size; chain = Focus-Lays o' };
        adds = record {
          before = a.before;
          behind = a.behind;
          from = a.from;
          to =
              live-take kernel_heap_start l n r new_size fits
              ∙ ap₂ (λ (ys zs : List Allocation). ys ++ ((b + 16, kept new_size n) ∷ zs)) front
                  behind
              ∙ ap (λ (p : ℕ). a.before ++ ((p, kept new_size n) ∷ a.behind)) (sym at);
        };
        counted = refl;
        same = refl;
      },
    )
