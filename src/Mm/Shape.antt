-- ===== src/Mm/Shape.antt =====
-- Two further invariants of the layouts that `kmalloc` and `kfree` build: no two neighbours are both
-- free, and every size is a multiple of 8.
use minicore_os.Base.{
  ℕ, ◌+◌, ◌-◌, ◌%◌, ◌≤◌, ◌≡◌, refl, Bool, true, false, [], ◌∷◌, arith, ap, ltb→lt, Bool-cases, inl,
  inr,
}
use minicore_os.Mm.Layout.{Layout, onto, total}
use minicore_os.Mm.Split.{cut, kept, rest}
use minicore_os.Mm.Merge.{lead, strip}
use minicore_os.Mm.Kfree.{join}

abbrev pub Coalesced : Layout → Type 0
Coalesced [] = Unit {0}
Coalesced ((n, false) ∷ bs) = Coalesced bs
Coalesced ((n, true) ∷ []) = Unit {0}
Coalesced ((n, true) ∷ ((k, true) ∷ bs)) = ⊥
Coalesced ((n, true) ∷ ((k, false) ∷ bs)) = Coalesced bs

Coalesced-tail : (n : ℕ) (f : Bool) (bs : Layout) → Coalesced ((n, f) ∷ bs) → Coalesced bs
Coalesced-tail n false bs c = c
Coalesced-tail n true [] c = c
Coalesced-tail n true ((k, true) ∷ bs) c = absurd c
Coalesced-tail n true ((k, false) ∷ bs) c = c

Coalesced-onto : (l bs : Layout) → Coalesced (onto l bs) → Coalesced bs
Coalesced-onto [] bs c = c
Coalesced-onto ((n, f) ∷ l) bs c = Coalesced-tail n f bs (Coalesced-onto l ((n, f) ∷ bs) c)

Coalesced-cons :
    (n : ℕ) (f : Bool) (k k' : ℕ) (g g' : Bool) (bs bs' : Layout)
    → (g' ≡ true → g ≡ true)
    → Coalesced ((n, f) ∷ ((k, g) ∷ bs))
    → Coalesced ((k', g') ∷ bs')
    → Coalesced ((n, f) ∷ ((k', g') ∷ bs'))
Coalesced-cons n false k k' g g' bs bs' keep c c' = c'
Coalesced-cons n true k k' true g' bs bs' keep c c' = absurd c
Coalesced-cons n true k k' false true bs bs' keep c c' = cc (keep refl)
Coalesced-cons n true k k' false false bs bs' keep c c' = c'

-- Behind `l` a block may be replaced by one that is free only if that was.
Coalesced-replace :
    (l : Layout) (k k' : ℕ) (g g' : Bool) (bs bs' : Layout)
    → (g' ≡ true → g ≡ true)
    → Coalesced (onto l ((k, g) ∷ bs))
    → Coalesced ((k', g') ∷ bs')
    → Coalesced (onto l ((k', g') ∷ bs'))
Coalesced-replace [] k k' g g' bs bs' keep c c' = c'
Coalesced-replace ((n, f) ∷ l) k k' g g' bs bs' keep c c' =
    Coalesced-replace l n n f f ((k, g) ∷ bs) ((k', g') ∷ bs') (λ e. e) c
      (Coalesced-cons n f k k' g g' bs bs' keep (Coalesced-onto l ((n, f) ∷ ((k, g) ∷ bs)) c) c')

Coalesced-strip : (n : ℕ) (bs : Layout) → Coalesced bs → Coalesced ((n, true) ∷ strip bs)
Coalesced-strip n [] c = tt
Coalesced-strip n ((k, true) ∷ bs) c = Coalesced-strip n bs (Coalesced-tail k true bs c)
Coalesced-strip n ((k, false) ∷ bs) c = c

-- The neighbours of a free block are used.
record Alone (l r : Layout) : Type 0 where
  lead_left : lead l ≡ 0
  strip_left : strip l ≡ l
  lead_right : lead r ≡ 0
  strip_right : strip r ≡ r

Alone-of : (l : Layout) (n : ℕ) (r : Layout) → Coalesced (onto l ((n, true) ∷ r)) → Alone l r
Alone-of l n r c =
    let (ll, sl) = left l c in
    let (lr, sr) = right r (Coalesced-onto l ((n, true) ∷ r) c) in
    record { lead_left = ll; strip_left = sl; lead_right = lr; strip_right = sr }
  where
    left : (l : Layout) → Coalesced (onto l ((n, true) ∷ r)) → (lead l ≡ 0) × (strip l ≡ l)
    left [] c = (refl, refl)
    left ((k, true) ∷ l) c = absurd (Coalesced-onto l ((k, true) ∷ ((n, true) ∷ r)) c)
    left ((k, false) ∷ l) c = (refl, refl)

    right : (r : Layout) → Coalesced ((n, true) ∷ r) → (lead r ≡ 0) × (strip r ≡ r)
    right [] c = (refl, refl)
    right ((k, true) ∷ r) c = absurd c
    right ((k, false) ∷ r) c = (refl, refl)

Coalesced-resize : (n k : ℕ) (bs : Layout) → Coalesced ((n, true) ∷ bs) → Coalesced ((k, true) ∷ bs)
Coalesced-resize n k [] c = tt
Coalesced-resize n k ((j, true) ∷ bs) c = absurd c
Coalesced-resize n k ((j, false) ∷ bs) c = c

module _ (l : Layout) (n : ℕ) (r : Layout) (size : ℕ) where
  pub Coalesced-take :
      Coalesced (onto l ((n, true) ∷ r)) → Coalesced (onto l ((kept size n, false) ∷ rest size n r))
  Coalesced-take c =
      Coalesced-replace l n (kept size n) true false r (rest size n r) (λ e. refl) c
        (let c' = Coalesced-onto l ((n, true) ∷ r) c in
          elim (Bool-cases (cut size n)) [
            | inl big ↦ rw big (Coalesced-resize n (n - size - 16) r c')
            | inr fit ↦ rw fit (Coalesced-tail n true r c')
          ])

  -- Taking a block out of a coalesced layout and joining it again gives the layout back.
  pub join-take :
      size ≤ n
      → Coalesced (onto l ((n, true) ∷ r))
      → join l (kept size n) (rest size n r) ≡ onto l ((n, true) ∷ r)
  join-take fits c =
      let a = Alone-of l n r c in
      rw (a.lead_left, a.strip_left)
        (elim (Bool-cases (cut size n)) [
          | inl big ↦
              let lt = ltb→lt (size + 48) n big in
              rw (big, a.lead_right, a.strip_right)
                (ap (λ (k : ℕ). onto l ((k, true) ∷ r)) (omega arith))
          | inr fit ↦
              rw (fit, a.lead_right, a.strip_right)
                (ap (λ (k : ℕ). onto l ((k, true) ∷ r)) (omega arith))
        ])

pub Coalesced-join :
    (l : Layout) (k n : ℕ) (r : Layout)
    → Coalesced (onto l ((n, false) ∷ r))
    → Coalesced (onto (strip l) ((k, true) ∷ strip r))
Coalesced-join [] k n r c = Coalesced-strip k r c
Coalesced-join ((j, true) ∷ l) k n r c = Coalesced-join l k n r (
    Coalesced-replace l j n true false ((n, false) ∷ r) r (λ e. refl) c
      (Coalesced-onto l ((j, true) ∷ ((n, false) ∷ r)) c))
Coalesced-join ((j, false) ∷ l) k n r c =
    Coalesced-replace l j j false false ((n, false) ∷ r) ((k, true) ∷ strip r) (λ e. e) c
      (Coalesced-strip k r (Coalesced-onto l ((j, false) ∷ ((n, false) ∷ r)) c))

-- Every size is a multiple of 8.
abbrev pub Aligned : Layout → Type 0
Aligned [] = Unit {0}
Aligned ((n, f) ∷ bs) = (n % 8 ≡ 0) × Aligned bs

pub Aligned-onto : (l bs : Layout) → Aligned (onto l bs) → Aligned l × Aligned bs
Aligned-onto [] bs a = (tt, a)
Aligned-onto ((n, f) ∷ l) bs a = let (al, (e, ab)) = Aligned-onto l ((n, f) ∷ bs) a in ((e, al), ab)

pub onto-Aligned : (l bs : Layout) → Aligned l → Aligned bs → Aligned (onto l bs)
onto-Aligned [] bs al ab = ab
onto-Aligned ((n, f) ∷ l) bs (e, al) ab = onto-Aligned l ((n, f) ∷ bs) al (e, ab)

pub Aligned-total : (bs : Layout) → Aligned bs → total bs % 8 ≡ 0
Aligned-total [] a = omega arith
Aligned-total ((n, f) ∷ bs) (e, a) = omega (arith, Aligned-total bs a)

Aligned-strip : (bs : Layout) → Aligned bs → (lead bs % 8 ≡ 0) × Aligned (strip bs)
Aligned-strip [] a = (omega arith, tt)
Aligned-strip ((n, true) ∷ bs) (e, a) = let (el, ar) = Aligned-strip bs a in (omega arith, ar)
Aligned-strip ((n, false) ∷ bs) a = (omega arith, a)

pub Aligned-take :
    (l : Layout) (n : ℕ) (r : Layout) (size : ℕ)
    → size % 8 ≡ 0
    → Aligned (onto l ((n, true) ∷ r))
    → Aligned (onto l ((kept size n, false) ∷ rest size n r))
Aligned-take l n r size e8 a =
    let (al, (en, ar)) = Aligned-onto l ((n, true) ∷ r) a in
    onto-Aligned l ((kept size n, false) ∷ rest size n r) al (elim (Bool-cases (cut size n)) [
      | inl big ↦ let lt = ltb→lt (size + 48) n big in rw big (e8, (omega arith, ar))
      | inr fit ↦ rw fit (en, ar)
    ])

pub Aligned-join :
    (l : Layout) (n : ℕ) (r : Layout) → Aligned (onto l ((n, false) ∷ r)) → Aligned (join l n r)
Aligned-join l n r a =
    let (al, (en, ar)) = Aligned-onto l ((n, false) ∷ r) a in
    let (el, sl) = Aligned-strip l al in
    let (er, sr) = Aligned-strip r ar in
    onto-Aligned (strip l) ((lead l + (n + lead r), true) ∷ strip r) sl (omega arith, sr)
