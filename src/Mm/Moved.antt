-- ===== src/Mm/Moved.antt =====
-- Two allocations of one heap: they lie apart, and either can be freed first.
use minicore_os.Base.{
  ℕ, ◌+◌, ◌≤◌, ◌≡◌, ◌⊎◌, refl, List, [], ◌∷◌, ◌++◌, append_assoc, arith, inl, inr, ap, ◌∙◌, sym,
  subst,
}
use minicore_os.Mm.Live.{Allocation, Adds, Apart}

-- Where a list falls into `u` and `v`, an element of it stands in `v` or in `u`.
data Splits (u v : List Allocation) (x : Allocation) (before behind : List Allocation)
    : Type 0 where
  in_right :
      (w : List Allocation) → before ≡ u ++ w → v ≡ w ++ (x ∷ behind) → Splits u v x before behind
  in_left :
      (w : List Allocation) → u ≡ before ++ (x ∷ w) → behind ≡ w ++ v → Splits u v x before behind

splits :
    (u v : List Allocation) (x : Allocation) (before behind : List Allocation)
    → u ++ v ≡ before ++ (x ∷ behind)
    → Splits u v x before behind
splits [] v x before behind e = in_right before refl e
splits (y ∷ u) v x [] behind e = in_left u (cc e) (cc e)
splits (y ∷ u) v x (z ∷ before) behind e = later (splits u v x before behind (cc e)) (cc e)
  where
    later : Splits u v x before behind → y ≡ z → Splits (y ∷ u) v x (z ∷ before) behind
    later (in_right w p q) h = in_right w (cc (p, h)) q
    later (in_left w p q) h = in_left w (cc (p, h)) q

-- An allocation `a` from before `b` was added can be taken out, and the others stay with `b`.
pub Adds-swap :
    {a b : Allocation} {xs l l' : List Allocation}
    → Adds b l l'
    → Adds a xs l
    → (ys : List Allocation) × Adds a ys l' × Adds b xs ys
Adds-swap {a} {b} {xs} {l} {l'} d c =
    case (splits d.before d.behind a c.before c.behind (sym d.from ∙ c.to))
  where
    case :
        Splits d.before d.behind a c.before c.behind
        → (ys : List Allocation) × Adds a ys l' × Adds b xs ys
    case (in_right w p q) = (
      (d.before ++ (b ∷ w)) ++ c.behind,
      record {
        before = d.before ++ (b ∷ w);
        behind = c.behind;
        from = refl;
        to =
            d.to
            ∙ ap (λ k. d.before ++ (b ∷ k)) q
            ∙ sym (append_assoc d.before (b ∷ w) (a ∷ c.behind));
      },
      record {
        before = d.before;
        behind = w ++ c.behind;
        from = c.from ∙ ap (λ k. k ++ c.behind) p ∙ append_assoc d.before w c.behind;
        to = append_assoc d.before (b ∷ w) c.behind;
      },
    )
    case (in_left w p q) = (
      c.before ++ (w ++ (b ∷ d.behind)),
      record {
        before = c.before;
        behind = w ++ (b ∷ d.behind);
        from = refl;
        to = d.to ∙ ap (λ k. k ++ (b ∷ d.behind)) p ∙ append_assoc c.before (a ∷ w) (b ∷ d.behind);
      },
      record {
        before = c.before ++ w;
        behind = d.behind;
        from = c.from ∙ ap (λ k. c.before ++ k) q ∙ sym (append_assoc c.before w d.behind);
        to = sym (append_assoc c.before w (b ∷ d.behind));
      },
    )

Apart-le : (p stop : ℕ) (xs : List Allocation) → Apart p stop xs → p ≤ stop
Apart-le p stop [] h = h
Apart-le p stop ((a, n) ∷ xs) (h, t) = omega (arith, Apart-le (a + n) stop xs t)

-- Each allocation lies in the range.
pub Apart-within :
    (p stop : ℕ) (u : List Allocation) (a n : ℕ) (v : List Allocation)
    → Apart p stop (u ++ ((a, n) ∷ v))
    → (p + 16 ≤ a) × (a + n ≤ stop)
Apart-within p stop [] a n v (h, t) = (h, Apart-le (a + n) stop v t)
Apart-within p stop ((c, k) ∷ u) a n v (h, t) =
    let (low, high) = Apart-within (c + k) stop u a n v t in (omega arith, high)

-- Of two allocations one ends before the other begins.
pub Apart-pair :
    (p stop : ℕ) (u : List Allocation) (a n : ℕ) (v w : List Allocation) (b k : ℕ)
    (z : List Allocation)
    → Apart p stop (u ++ ((a, n) ∷ v))
    → u ++ v ≡ w ++ ((b, k) ∷ z)
    → (a + n ≤ b) ⊎ (b + k ≤ a)
Apart-pair p stop [] a n v w b k z (h, t) e =
    let (low, _) = Apart-within (a + n) stop w b k z (subst (Apart (a + n) stop) e t) in
    inl (omega arith)
Apart-pair p stop ((c, i) ∷ u) a n v [] b k z (h, t) e =
    let (low, _) = Apart-within (c + i) stop u a n v t in
    let same : ◌≡◌ {A = Allocation} (c, i) (b, k) = cc e in
    let ec : c ≡ b = ap (λ (q : Allocation). q.0) same in
    let ei : i ≡ k = ap (λ (q : Allocation). q.1) same in inr (omega arith)
Apart-pair p stop ((c, i) ∷ u) a n v (x ∷ w) b k z (h, t) e =
    Apart-pair (c + i) stop u a n v w b k z t (cc e)
