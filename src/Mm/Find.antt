-- ===== src/Mm/Find.antt =====
-- `find_free_block` is first fit.
use minicore_os.Base.{
  ℕ, zero, suc, ◌+◌, ◌≤◌, ◌<◌, ◌≡◌, refl, true, false, [], ◌∷◌, Option, none, some, arith, leb,
  length, ◌==◌, ◌&&◌, if◌then◌else◌, Bool-cases, inl, inr, done,
}
use minicore_os.Mm.{Headers, find_loop}
use minicore_os.Mm.Layout.{onto, Layout, link, Lays, Before, Focus, focus, Before-start}

-- The first free block of at least `size` bytes in `bs`, between what lies before and behind it;
-- `l` lies before `bs`.
unfoldable pub first_fit : ℕ → Layout → Layout → Option (Layout × ℕ × Layout)
first_fit size l [] = none
first_fit size l ((n, f) ∷ bs) =
    if f && leb size n then some (l, n, bs) else first_fit size ((n, f) ∷ l) bs

-- Every free block is smaller than `size`.
abbrev pub NoneFits : ℕ → Layout → Type 0
NoneFits size [] = Unit {0}
NoneFits size ((n, true) ∷ bs) = (n < size) × NoneFits size bs
NoneFits size ((n, false) ∷ bs) = NoneFits size bs

pub first_fit-none : (size : ℕ) (l bs : Layout) → first_fit size l bs ≡ none → NoneFits size bs
unfolding first_fit
first_fit-none size l [] miss = tt
first_fit-none size l ((n, true) ∷ bs) miss = elim (Bool-cases (leb size n)) [
  | inl fits ↦ absurd (ground arith)
  | inr small ↦ (ground arith, first_fit-none size ((n, true) ∷ l) bs (ground arith))
]
first_fit-none size l ((n, false) ∷ bs) miss = first_fit-none size ((n, false) ∷ l) bs miss

pub first_fit-some :
    (size : ℕ) (l bs : Layout) (l' : Layout) (n' : ℕ) (r' : Layout)
    → first_fit size l bs ≡ some (l', n', r')
    → (onto l bs ≡ onto l' ((n', true) ∷ r')) × (size ≤ n')
unfolding first_fit
first_fit-some size l [] l' n' r' found = cc
first_fit-some size l ((n, true) ∷ bs) l' n' r' found = elim (Bool-cases (leb size n)) [
  | inl fits ↦
      let el : l ≡ l' = ground arith in
      let en : n ≡ n' = ground arith in
      let er : bs ≡ r' = ground arith in (rw (el, en, er), ground arith)
  | inr small ↦ first_fit-some size ((n, true) ∷ l) bs l' n' r' (ground arith)
]
first_fit-some size l ((n, false) ∷ bs) l' n' r' found =
    first_fit-some size ((n, false) ∷ l) bs l' n' r' found

module _ (h : Headers) (start stop size : ℕ) (pos : 0 < start) where
  pub find_loop-none :
      (k : ℕ) (l bs : Layout) (q prev : ℕ)
      → length bs < k
      → Before h start l q prev (link bs q)
      → Lays h prev q bs stop
      → first_fit size l bs ≡ none
      → find_loop k h size (link bs q) ≡ done 0
  unfolding find_loop first_fit
  find_loop-none zero l bs q prev lt b t miss = absurd (omega arith)
  find_loop-none (suc k) l [] q prev lt b t miss = refl
  find_loop-none (suc k) l ((n, f) ∷ bs) q prev lt b (e, t) miss =
      let le = Before-start h start l q prev q b in
      let ne : (q == 0) ≡ false = ground arith in
      elim (Bool-cases (f && leb size n)) [
        | inl hit ↦ absurd (ground arith)
        | inr no_hit ↦
            rw (ne, e, no_hit)
              (find_loop-none k ((n, f) ∷ l) bs (q + 16 + n) q (omega arith) (prev, refl, e, b) t
                (ground arith))
      ]

  pub find_loop-some :
      (k : ℕ) (l bs : Layout) (q prev : ℕ) (l' : Layout) (n' : ℕ) (r' : Layout)
      → length bs < k
      → Before h start l q prev (link bs q)
      → Lays h prev q bs stop
      → first_fit size l bs ≡ some (l', n', r')
      → (q' : ℕ) × (find_loop k h size (link bs q) ≡ done q')
        × Focus h start stop l' n' true r' q'
        × (size ≤ n')
  unfolding find_loop first_fit
  find_loop-some zero l bs q prev l' n' r' lt b t found = absurd (omega arith)
  find_loop-some (suc k) l [] q prev l' n' r' lt b t found = cc
  find_loop-some (suc k) l ((n, f) ∷ bs) q prev l' n' r' lt b (e, t) found =
      let le = Before-start h start l q prev q b in
      let ne : (q == 0) ≡ false = ground arith in
      elim (Bool-cases (f && leb size n)) [
        | inl hit ↦
            let free : f ≡ true = ground arith in
            let fits : size ≤ n = ground arith in
            let el : l ≡ l' = ground arith in
            let en : n ≡ n' = ground arith in
            let er : bs ≡ r' = ground arith in
            let o = focus h start stop l n f bs q prev b (e, t) in
            (q, rw (ne, e, hit), rw (← el, ← en, ← er, ← free) o, rw (← en) fits)
        | inr no_hit ↦
            rw (ne, e, no_hit)
              (find_loop-some k ((n, f) ∷ l) bs (q + 16 + n) q l' n' r' (omega arith)
                (prev, refl, e, b) t (ground arith))
      ]
