-- ===== src/Kernel/Holding.antt =====
-- Code that allocates and frees in a valid kernel: each pointer that it holds is NULL or a live
-- allocation.
use minicore_os.Base.{ℕ, ◌+◌, ◌*◌, ◌<◌, List, [], ◌∷◌, inl, inr, ap, ◌∙◌, sym, subst, Outcome}
use minicore_os.Terminal.{Terminal}
use minicore_os.Terminal.Output.{Output}
use minicore_os.Mm.{Mm}
use minicore_os.Mm.Layout.{Layout}
use minicore_os.Mm.Heap.{IsHeap}
use minicore_os.Mm.Live.{Allocation, Adds}
use minicore_os.Mm.Moved.{Adds-swap}
use minicore_os.Mm.Contract.{allocations, kmalloc_contract, kfree_contract, kfree_null}
use minicore_os.Mm.Ops.Kcalloc.{kcalloc_contract}
use minicore_os.Kernel.{Kernel, Flow, ◌▸◌, with_terminal, show, alloc, alloc_zeroed, free}
use minicore_os.Kernel.Invariant.{Valid, Valid-mm, Keeps, show-Valid}

-- The pointers `ps` can be freed, each once: they are NULL or different ones of the allocations `ys`.
pub data Held : List ℕ → List Allocation → Type 0 where
  nothing : {ys : List Allocation} → Held [] ys
  null : {ps : List ℕ} {ys : List Allocation} → Held ps ys → Held (0 ∷ ps) ys
  taken :
      {ps : List ℕ} {p n : ℕ} {xs ys : List Allocation}
      → Adds (p, n) xs ys
      → Held ps xs
      → Held (p ∷ ps) ys

-- The order in which they are freed is free.
pub Held-swap :
    {p q : ℕ} {ps : List ℕ} {ys : List Allocation} → Held (p ∷ q ∷ ps) ys → Held (q ∷ p ∷ ps) ys
Held-swap (null (null h)) = null (null h)
Held-swap (null (taken a h)) = taken a (null h)
Held-swap (taken a (null h)) = null (taken a h)
Held-swap (taken a (taken b h)) = let (zs, c, d) = Adds-swap a b in taken c (taken d h)

pub Held-rotate :
    {p q r : ℕ} {ps : List ℕ} {ys : List Allocation}
    → Held (p ∷ q ∷ r ∷ ps) ys
    → Held (r ∷ p ∷ q ∷ ps) ys
Held-rotate (null h) = Held-swap (null (Held-swap h))
Held-rotate (taken a h) = Held-swap (taken a (Held-swap h))

-- Where the code goes on after an allocation.
abbrev Allocates : Kernel → List ℕ → (ℕ → Kernel → Outcome Flow) → Type 0
Allocates k ps f =
    (p : ℕ) (m : Mm) (bs : Layout)
    → Valid (record k { mm = m }) bs
    → Held (p ∷ ps) (allocations bs)
    → Keeps (f p (record k { mm = m }))

module _ {k : Kernel} {bs : Layout} {ps : List ℕ} (v : Valid k bs)
    (h : Held ps (allocations bs)) where
  pub alloc-Keeps :
      (size : ℕ) (f : ℕ → Kernel → Outcome Flow)
      → 0 < size
      → size + 7 < 4294967296
      → Allocates k ps f
      → Keeps (alloc size k f)
  unfolding alloc
  alloc-Keeps size f ask small rest = elim (kmalloc_contract v.heap size ask small) [
    | inl (e, _) ↦ rw e (rest 0 k.mm bs (Valid-mm v v.heap) (null h))
    | inr (p, m, e, g) ↦ rw e (rest p m g.layout (Valid-mm v g.heap) (taken g.adds h))
  ]

  pub alloc_zeroed-Keeps :
      (count size : ℕ) (f : ℕ → Kernel → Outcome Flow)
      → 0 < count * size
      → count * size + 7 < 4294967296
      → Allocates k ps f
      → Keeps (alloc_zeroed count size k f)
  unfolding alloc_zeroed
  alloc_zeroed-Keeps count size f ask small rest =
      elim (kcalloc_contract v.heap count size ask small) [
        | inl (e, _) ↦ rw e (rest 0 k.mm bs (Valid-mm v v.heap) (null h))
        | inr (p, m', m, e, g, same, _) ↦
            let heap : IsHeap (record m' { bytes = m.bytes }) g.layout = record {
              head = g.heap.head;
              start = g.heap.start;
              size = g.heap.size;
              chain = g.heap.chain;
            } in
            rw e (
              rest p m g.layout (Valid-mm v (subst (λ m. IsHeap m g.layout) (sym same) heap))
                (taken g.adds h))
      ]

-- What is held after a pointer is freed.
pub free-Keeps :
    {k : Kernel} {bs : Layout} {p : ℕ} {ps : List ℕ} (f : Kernel → Outcome Flow)
    → Valid k bs
    → Held (p ∷ ps) (allocations bs)
    → ((m : Mm) (bs' : Layout)
        → Valid (record k { mm = m }) bs'
        → Held ps (allocations bs')
        → Keeps (f (record k { mm = m })))
    → Keeps (free p k ▸ f)
unfolding free
free-Keeps {k} {bs} f v (null h) rest = rw (kfree_null k.mm) (rest k.mm bs (Valid-mm v v.heap) h)
free-Keeps {k} {bs} {p} {ps} f v (taken {n = n} {xs = xs} a h) rest =
    let (m, e, r) = kfree_contract v.heap p n xs a in
    rw e (rest m r.layout (Valid-mm v r.heap) (subst (Held ps) (sym r.left) h))

-- What is held does not change when something is shown.
pub show_then-Keeps :
    (os : List Output) {k : Kernel} {bs : Layout} (f : Kernel → Outcome Flow)
    → Valid k bs
    → ((t : Terminal) → Valid (with_terminal k t) bs → Keeps (f (with_terminal k t)))
    → Keeps (show os k ▸ f)
show_then-Keeps os f v rest =
    let (t, e, w) = show-Valid os v in
    let (g, e', kept) = rest t w in (g, ap (λ r. r ▸ f) e ∙ e', kept)
