-- ===== src/Mm/Layout.antt =====
-- The heap as a list of blocks in address order, and what it means that the linked headers in
-- memory spell such a list.
use minicore_os.Base.{
  ℕ, ◌+◌, ◌≤◌, ◌<◌, ◌≡◌, refl, Bool, List, [], ◌∷◌, arith, ap, refl, subst, sym, ◌∙◌,
}
use mathlib.Core.Path.{subst₂}
use minicore_os.Mm.Memory.{modify_self, modify_ne, relink_pos}
use minicore_os.Mm.{MemBlock, header_size, block, Headers, set_is_free, set_prev, relink}

-- size and `is_free` of each block
abbrev pub Layout : Type 0
Layout = List (ℕ × Bool)

-- the bytes that the blocks take up, headers included
abbrev pub total : Layout → ℕ
total [] = 0
total ((n, f) ∷ bs) = header_size + n + total bs

-- `l` holds the blocks before `bs`, nearest first
abbrev pub onto : Layout → Layout → Layout
onto [] bs = bs
onto (b ∷ l) bs = onto l (b ∷ bs)

-- the `next` pointer of a block that ends at `q`, with `bs` behind it
abbrev pub link : Layout → ℕ → ℕ
link [] q = 0
link (_ ∷ _) q = q

-- From `p` to `stop` memory holds the blocks `bs`, each against the one before it, with correct
-- sizes, flags and links. `prev` is the block before `p`.
abbrev pub Lays : Headers → ℕ → ℕ → Layout → ℕ → Type 0
Lays h prev p [] stop = p ≡ stop
Lays h prev p ((n, f) ∷ bs) stop =
    (h p ≡ block n f (link bs (p + 16 + n)) prev) × Lays h p (p + 16 + n) bs stop

-- The same of the blocks before `q`, nearest first; `prev` is the nearest, and its `next` is `nxt`.
abbrev pub Before : Headers → ℕ → Layout → ℕ → ℕ → ℕ → Type 0
Before h start [] q prev nxt = (q ≡ start) × (prev ≡ 0)
Before h start ((n, f) ∷ l) q prev nxt =
    (p : ℕ) × (q ≡ prev + 16 + n) × (h prev ≡ block n f nxt p) × Before h start l prev p prev

-- A block at `q`, with what lies on its two sides.
pub record Focus (h : Headers) (start stop : ℕ) (l : Layout) (n : ℕ) (f : Bool) (r : Layout) (q : ℕ)
    : Type 0 where
  pub prev : ℕ
  pub left : Before h start l q prev q
  pub here : h q ≡ block n f (link r (q + 16 + n)) prev
  pub right : Lays h q (q + 16 + n) r stop

-- A chain ends where its blocks end.
pub Lays-end :
    (h : Headers) (prev p : ℕ) (bs : Layout) (stop : ℕ)
    → Lays h prev p bs stop
    → stop ≡ p + total bs
Lays-end h prev p [] stop e = omega arith
Lays-end h prev p ((n, f) ∷ bs) stop (e, t) = omega (arith, Lays-end h p (p + 16 + n) bs stop t)

pub Before-start :
    (h : Headers) (start : ℕ) (l : Layout) (q prev nxt : ℕ)
    → Before h start l q prev nxt
    → q ≡ start + total l
Before-start h start [] q prev nxt (e, _) = omega arith
Before-start h start ((n, f) ∷ l) q prev nxt (p, e, here, b) =
    omega (arith, Before-start h start l prev p prev b)

-- Closing the focus gives the whole chain back.
pub Lays-onto :
    (h : Headers) (start : ℕ) (l bs : Layout) (q prev stop : ℕ)
    → Before h start l q prev (link bs q)
    → Lays h prev q bs stop
    → Lays h 0 start (onto l bs) stop
Lays-onto h start [] bs q prev stop (e, z) t = subst₂ (λ a b. Lays h a b bs stop) z e t
Lays-onto h start ((n, f) ∷ l) bs q prev stop (p, e, here, b) t =
    Lays-onto h start l ((n, f) ∷ bs) prev p stop b (rw (← e) (here, t))

-- Writes outside a chain leave it alone.
pub Lays-frame :
    (h g : Headers) (prev p : ℕ) (bs : Layout) (stop : ℕ)
    → ((a : ℕ) → p ≤ a → a < stop → g a ≡ h a)
    → Lays h prev p bs stop
    → Lays g prev p bs stop
Lays-frame h g prev p [] stop same e = e
Lays-frame h g prev p ((n, f) ∷ bs) stop same (e, t) = (
  same p (omega arith) (omega (arith, Lays-end h p (p + 16 + n) bs stop t)) ∙ e,
  Lays-frame h g p (p + 16 + n) bs stop (λ a lo hi. same a (omega arith) hi) t,
)

pub Before-frame :
    (h g : Headers) (start : ℕ) (l : Layout) (q prev nxt : ℕ)
    → ((a : ℕ) → a < q → g a ≡ h a)
    → Before h start l q prev nxt
    → Before g start l q prev nxt
Before-frame h g start [] q prev nxt same e = e
Before-frame h g start ((n, f) ∷ l) q prev nxt same (p, e, here, b) = (
  p,
  e,
  same prev (omega arith) ∙ here,
  Before-frame h g start l prev p prev (λ a lt. same a (omega arith)) b,
)

module _ {h : Headers} {start stop : ℕ} {l : Layout} {n : ℕ} {f : Bool} {r : Layout} {q : ℕ}
    (o : Focus h start stop l n f r q) where
  pub Focus-Lays : Lays h 0 start (onto l ((n, f) ∷ r)) stop
  Focus-Lays = Lays-onto h start l ((n, f) ∷ r) q o.prev stop o.left (o.here, o.right)

  pub Focus-address : q ≡ start + total l
  Focus-address = Before-start h start l q o.prev q o.left

  pub Focus-stop : stop ≡ q + 16 + n + total r
  Focus-stop = Lays-end h q (q + 16 + n) r stop o.right

  -- A new flag in the header in the focus.
  pub set_is_free-Focus : (v : Bool) → Focus (set_is_free h q v) start stop l n v r q
  set_is_free-Focus v = record {
    prev = o.prev;
    left = Before-frame h _ start l q o.prev q (λ a lt. modify_ne h q _ a (omega arith)) o.left;
    here = modify_self h q _ ∙ ap (λ (b : MemBlock). record b { is_free = v }) o.here;
    right =
        Lays-frame h _ q (q + 16 + n) r stop (λ a lo hi. modify_ne h q _ a (omega arith)) o.right;
  }

  -- A write at the focus and behind it that spells other blocks there.
  pub Focus-replace :
      (g : Headers) (n' : ℕ) (f' : Bool) (r' : Layout)
      → ((a : ℕ) → a < q → g a ≡ h a)
      → g q ≡ block n' f' (link r' (q + 16 + n')) o.prev
      → Lays g q (q + 16 + n') r' stop
      → Focus g start stop l n' f' r' q
  Focus-replace g n' f' r' same here right = record {
    prev = o.prev;
    left = Before-frame h g start l q o.prev q same o.left;
    here = here;
    right = right;
  }

-- Opening the focus at the first block of a chain.
pub focus :
    (h : Headers) (start stop : ℕ) (l : Layout) (n : ℕ) (f : Bool) (r : Layout) (q prev : ℕ)
    → Before h start l q prev q
    → Lays h prev q ((n, f) ∷ r) stop
    → Focus h start stop l n f r q
focus h start stop l n f r q prev b (e, t) = record { prev = prev; left = b; here = e; right = t }

-- `relink` at the head of a chain changes the back pointer of that block and nothing else.
pub relink-Lays :
    (h : Headers) (v prev p : ℕ) (bs : Layout) (stop : ℕ)
    → 0 < p
    → Lays h prev p bs stop
    → Lays (relink h (link bs p) v) v p bs stop
relink-Lays h v prev p [] stop pos e = e
relink-Lays h v prev p ((n, f) ∷ bs) stop pos (e, t) =
    subst (λ g. Lays g v p ((n, f) ∷ bs) stop) (sym (relink_pos h p v pos))
      (
        modify_self h p _ ∙ ap (λ (b : MemBlock). record b { prev = v }) e,
        Lays-frame h (set_prev h p v) p (p + 16 + n) bs stop
            (λ a lo hi. modify_ne h p _ a (omega arith)) t,
      )

pub relink_ne :
    (h : Headers) (v p : ℕ) (bs : Layout) (a : ℕ) → a < p → relink h (link bs p) v a ≡ h a
unfolding relink
relink_ne h v p [] a lt = refl
relink_ne h v p (b ∷ bs) a lt =
    rw (relink_pos h p v (omega arith)) (modify_ne h p _ a (omega arith))
