-- ===== src/Mm/Live.antt =====
-- The allocations that a layout holds, and how taking and joining blocks changes them.
use minicore_os.Base.{
  ℕ, ◌+◌, ◌≤◌, ◌≡◌, refl, Bool, true, false, List, [], ◌∷◌, ◌++◌, arith, ap, sym, ◌∙◌, ltb→lt,
  Bool-cases, inl, inr,
}
use mathlib.Core.List.{append_assoc, append-nil}
use mathlib.Core.Path.{ap₂}
use minicore_os.Mm.{header_size}
use minicore_os.Mm.Layout.{Layout, onto, total}
use minicore_os.Mm.Split.{cut, kept, rest}
use minicore_os.Mm.Merge.{lead, strip}
use minicore_os.Mm.Kfree.{join}

-- Address and size of a payload.
abbrev pub Allocation : Type 0
Allocation = ℕ × ℕ

-- The payloads of the used blocks, in address order; `p` is where the blocks begin.
abbrev pub live : ℕ → Layout → List Allocation
live p [] = []
live p ((n, true) ∷ bs) = live (p + 16 + n) bs
live p ((n, false) ∷ bs) = (p + 16, n) ∷ live (p + 16 + n) bs

-- `ys` is `xs` with `c` put in at one place.
pub record Adds (c : Allocation) (xs ys : List Allocation) : Type 0 where
  pub before : List Allocation
  pub behind : List Allocation
  pub from : xs ≡ before ++ behind
  pub to : ys ≡ before ++ (c ∷ behind)

-- The allocations lie one behind the other between `p` and `stop`, a header's room before each.
abbrev pub Apart : ℕ → ℕ → List Allocation → Type 0
Apart p stop [] = p ≤ stop
Apart p stop ((a, n) ∷ xs) = (p + 16 ≤ a) × Apart (a + n) stop xs

Apart-weaken : (p q stop : ℕ) (xs : List Allocation) → q ≤ p → Apart p stop xs → Apart q stop xs
Apart-weaken p q stop [] le h = omega arith
Apart-weaken p q stop ((a, n) ∷ xs) le (h, t) = (omega arith, t)

pub live-Apart : (p : ℕ) (bs : Layout) (stop : ℕ) → p + total bs ≤ stop → Apart p stop (live p bs)
live-Apart p [] stop le = omega arith
live-Apart p ((n, true) ∷ bs) stop le =
    Apart-weaken (p + 16 + n) p stop (live (p + 16 + n) bs) (omega arith)
      (live-Apart (p + 16 + n) bs stop (omega arith))
live-Apart p ((n, false) ∷ bs) stop le =
    (omega arith, live-Apart (p + 16 + n) bs stop (omega arith))

live-cons :
    (p n : ℕ) (f : Bool) (bs : Layout)
    → live p ((n, f) ∷ bs) ≡ live p ((n, f) ∷ []) ++ live (p + 16 + n) bs
live-cons p n true bs = refl
live-cons p n false bs = refl

pub live-onto :
    (p : ℕ) (l bs : Layout) → live p (onto l bs) ≡ live p (onto l []) ++ live (p + total l) bs
live-onto p [] bs = ap (λ q. live q bs) (omega arith)
live-onto p ((n, f) ∷ l) bs =
    live-onto p l ((n, f) ∷ bs)
    ∙ ap (λ xs. live p (onto l []) ++ xs) (live-cons (p + total l) n f bs)
    ∙ sym (
        append_assoc (live p (onto l [])) (live (p + total l) ((n, f) ∷ []))
          (live (p + total l + 16 + n) bs))
    ∙ ap₂ ◌++◌ (sym (live-onto p l ((n, f) ∷ []))) (ap (λ q. live q bs) (omega arith))

live-lead : (p : ℕ) (bs : Layout) → live p bs ≡ live (p + lead bs) (strip bs)
live-lead p [] = refl
live-lead p ((n, true) ∷ bs) = live-lead (p + 16 + n) bs ∙ ap (λ q. live q (strip bs)) (omega arith)
live-lead p ((n, false) ∷ bs) = ap (λ q. live q ((n, false) ∷ bs)) (omega arith)

-- Free blocks in front of `bs` do not show.
live-strip_left : (p : ℕ) (l : Layout) → live p (onto l []) ≡ live p (onto (strip l) [])
live-strip_left p [] = refl
live-strip_left p ((n, true) ∷ l) =
    live-onto p l ((n, true) ∷ []) ∙ append-nil _ ∙ live-strip_left p l
live-strip_left p ((n, false) ∷ l) = refl

pub total-strip : (bs : Layout) → total bs ≡ lead bs + total (strip bs)
total-strip [] = omega arith
total-strip ((n, true) ∷ bs) = omega (arith, total-strip bs)
total-strip ((n, false) ∷ bs) = omega arith

module _ (p : ℕ) (l : Layout) (n : ℕ) (r : Layout) where
  abbrev q : ℕ
  q = p + total l

  live-rest :
      (size : ℕ) → size ≤ n → live (q + 16 + kept size n) (rest size n r) ≡ live (q + 16 + n) r
  live-rest size le = elim (Bool-cases (cut size n)) [
    | inl big ↦ let lt = ltb→lt (size + 48) n big in rw big (ap (λ e. live e r) (omega arith))
    | inr fit ↦ rw fit
  ]

  pub live-take :
      (size : ℕ)
      → size ≤ n
      → live p (onto l ((kept size n, false) ∷ rest size n r))
        ≡ live p (onto l []) ++ ((q + 16, kept size n) ∷ live (q + 16 + n) r)
  live-take size le =
      live-onto p l ((kept size n, false) ∷ rest size n r)
      ∙ ap (λ xs. live p (onto l []) ++ ((q + 16, kept size n) ∷ xs)) (live-rest size le)

  -- Taking a free block adds one allocation, behind the block's header.
  pub Adds-take :
      (size : ℕ)
      → size ≤ n
      → Adds
          (q + 16, kept size n)
          (live p (onto l ((n, true) ∷ r)))
          (live p (onto l ((kept size n, false) ∷ rest size n r)))
  Adds-take size le = record {
    before = live p (onto l []);
    behind = live (q + 16 + n) r;
    from = live-onto p l ((n, true) ∷ r);
    to = live-take size le;
  }

  pub live-join : live p (join l n r) ≡ live p (onto l []) ++ live (q + 16 + n) r
  live-join =
      live-onto p (strip l) ((lead l + (n + lead r), true) ∷ strip r)
      ∙ ap₂ ◌++◌ (sym (live-strip_left p l)) (
          ap (λ e. live e (strip r)) (omega (arith, total-strip l))
          ∙ sym (live-lead (q + 16 + n) r))

  -- Joining a used block with the free blocks around it takes away its allocation and no other.
  pub Adds-join : Adds (q + 16, n) (live p (join l n r)) (live p (onto l ((n, false) ∷ r)))
  Adds-join = record {
    before = live p (onto l []);
    behind = live (q + 16 + n) r;
    from = live-join;
    to = live-onto p l ((n, false) ∷ r);
  }

-- A live allocation is the payload of a used block. `l` lies before `bs`, with the allocations
-- `front`.
pub live-find :
    (s p : ℕ) (l bs : Layout) (front : List Allocation) (ptr n : ℕ)
    (before behind : List Allocation)
    → p ≡ s + total l
    → live s (onto l []) ≡ front
    → live p bs ≡ before ++ ((ptr, n) ∷ behind)
    → (l' : Layout) × (r : Layout) × (onto l bs ≡ onto l' ((n, false) ∷ r))
      × (ptr ≡ s + total l' + header_size)
      × (live s (onto l' []) ≡ front ++ before)
      × (live (s + total l' + 16 + n) r ≡ behind)
live-find s p l [] front ptr n [] behind at ef e = cc
live-find s p l [] front ptr n (b ∷ before) behind at ef e = cc
live-find s p l ((k, true) ∷ bs) front ptr n before behind at ef e =
    live-find s (p + 16 + k) ((k, true) ∷ l) bs front ptr n before behind (omega arith)
      (live-onto s l ((k, true) ∷ []) ∙ append-nil _ ∙ ef) e
live-find s p l ((k, false) ∷ bs) front ptr n [] behind at ef e =
    let ek : k ≡ n = ground arith in
    let ep : p + 16 ≡ ptr = ground arith in
    let eb : live (p + 16 + k) bs ≡ behind = cc in
    (l, bs, rw ek, omega arith, ef ∙ sym (append-nil front), ap (λ q. live q bs) (omega arith) ∙ eb)
live-find s p l ((k, false) ∷ bs) front ptr n ((b, c) ∷ before) behind at ef e =
    let ek : k ≡ c = ground arith in
    let ep : p + 16 ≡ b = ground arith in
    let et : live (p + 16 + k) bs ≡ before ++ ((ptr, n) ∷ behind) = cc in
    let here : ◌≡◌ {A = Allocation} (s + total l + 16, k) (b, c) = ground (arith, ek, ep) in
    let (l', r, eq, at', ef', eb) =
      live-find s (p + 16 + k) ((k, false) ∷ l) bs (front ++ ((b, c) ∷ [])) ptr n before behind
        (omega arith)
        (live-onto s l ((k, false) ∷ [])
          ∙ ap₂ (λ (xs : List Allocation) (a : Allocation). xs ++ (a ∷ [])) ef here)
        et in
    (l', r, eq, at', ef' ∙ append_assoc front ((b, c) ∷ []) before, eb)
