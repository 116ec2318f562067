-- ===== src/Isr/Masks.antt =====
-- The masks of the interrupt controllers: `irq_enable` and `irq_disable` of isr.c change one line.
use minicore_os.Base.{
  ℕ, zero, suc, ◌/◌, ◌%◌, ◌^◌, ◌≡◌, ◌≢◌, ◌⊎◌, ◌<◌, refl, Bool, true, false, ◌&&◌, ◌∷◌, ◌==◌, ==_iff,
  if◌then◌else◌, arith, Bool-cases, inl, inr, ap, ◌∙◌, sym,
}
use minicore_os.Isr.{Ports, mask_port, mask_line, clear_bit, set_bit, irq_enable, irq_disable}

-- the bit `k` of a value
abbrev pub bit : ℕ → ℕ → Bool
bit k v = v / 2 ^ k % 2 == 1

-- The interrupt line `irq` is masked.
abbrev pub masked : (inb : Ports → ℕ → ℕ) → Ports → ℕ → Bool
masked inb ports irq = bit (mask_line irq) (inb ports (mask_port irq))

-- What the documentation of the controllers says of a controller that is initialized: its mask port
-- reads the byte written last, and a write to one mask does not change the other.
pub record MaskPorts (inb : Ports → ℕ → ℕ) (ports : Ports) : Type 0 where
  pub byte : (p : ℕ) → inb ports p < 256
  pub reads : (p v : ℕ) → (p ≡ 0x21) ⊎ (p ≡ 0xA1) → inb ((p, v) ∷ ports) p ≡ v
  pub apart :
      (p q v : ℕ)
      → (p ≡ 0x21) ⊎ (p ≡ 0xA1)
      → (q ≡ 0x21) ⊎ (q ≡ 0xA1)
      → p ≢ q
      → inb ((p, v) ∷ ports) q ≡ inb ports q

-- The test `f` passes at all lines `i` and `k` of a controller and all values that a mask port can
-- have.
every : (f : ℕ → Bool) → ℕ → Bool
every f zero = true
every f (suc bound) = every f bound && f bound

every-at : (f : ℕ → Bool) (bound : ℕ) → every f bound ≡ true → (v : ℕ) → v < bound → f v ≡ true
unfolding every
every-at f zero ok v below = absurd (omega arith)
every-at f (suc bound) ok v below =
    let (before, here) = both (every f bound) (f bound) ok in
    elim (Bool-cases (v == bound)) [
      | inl last ↦ ap f ((==_iff v bound).0 last) ∙ here
      | inr other ↦ every-at f bound before v (ground arith)
    ]
  where
    both : (a b : Bool) → (a && b) ≡ true → (a ≡ true) × (b ≡ true)
    both true b e = (refl, e)
    both false b e = cc e

at_all_masks : (ℕ → ℕ → ℕ → Bool) → Bool
at_all_masks f = every (λ i. every (λ k. every (f i k) 256) 8) 8

at_all_masks-at :
    (f : ℕ → ℕ → ℕ → Bool)
    → at_all_masks f ≡ true
    → (i k v : ℕ) → i < 8
    → k < 8
    → v < 256
    → f i k v ≡ true
unfolding at_all_masks
at_all_masks-at f ok i k v hi hk hv =
    every-at (f i k) 256
      (every-at (λ k. every (f i k) 256) 8
        (every-at (λ i. every (λ k. every (f i k) 256) 8) 8 ok i hi) k hk)
      v hv

same : Bool → Bool → Bool
same true b = b
same false true = false
same false false = true

same_sound : (a b : Bool) → same a b ≡ true → a ≡ b
unfolding same
same_sound true b h = sym h
same_sound false true h = cc
same_sound false false h = refl

cleared : ℕ → ℕ → ℕ → Bool
cleared i k v = same (bit k (clear_bit v i)) (if k == i then false else bit k v)

clear_table : at_all_masks cleared ≡ true
unfolding at_all_masks every same cleared clear_bit
clear_table = refl

bit-clear_bit :
    (v i k : ℕ)
    → v < 256
    → i < 8
    → k < 8
    → bit k (clear_bit v i) ≡ (if k == i then false else bit k v)
unfolding cleared
bit-clear_bit v i k hv hi hk =
    same_sound (bit k (clear_bit v i)) (if k == i then false else bit k v)
      (at_all_masks-at cleared clear_table i k v hi hk hv)

set_to : ℕ → ℕ → ℕ → Bool
set_to i k v = same (bit k (set_bit v i)) (if k == i then true else bit k v)

set_table : at_all_masks set_to ≡ true
unfolding at_all_masks every same set_to set_bit
set_table = refl

bit-set_bit :
    (v i k : ℕ) → v < 256 → i < 8 → k < 8 → bit k (set_bit v i) ≡ (if k == i then true else bit k v)
unfolding set_to
bit-set_bit v i k hv hi hk =
    same_sound (bit k (set_bit v i)) (if k == i then true else bit k v)
      (at_all_masks-at set_to set_table i k v hi hk hv)

mask_port-cases : (irq : ℕ) → (mask_port irq ≡ 0x21) ⊎ (mask_port irq ≡ 0xA1)
mask_port-cases irq = ground arith

mask_line_lt : (irq : ℕ) → irq < 16 → mask_line irq < 8
mask_line_lt irq lt = ground arith

module _ (inb : Ports → ℕ → ℕ) (ports : Ports) (h : MaskPorts inb ports) where
  -- A write of `v` to the mask of `irq`, which differs from the mask before in that line, changes
  -- that line.
  masked_write :
      (irq k v : ℕ) (b : Bool)
      → irq < 16
      → k < 16
      → ((j : ℕ)
          → j < 8
          → bit j v ≡ (if j == mask_line irq then b else bit j (inb ports (mask_port irq))))
      → masked inb ((mask_port irq, v) ∷ ports) k ≡ (if k == irq then b else masked inb ports k)
  masked_write irq k v b hi hk w = elim (Bool-cases (mask_port k == mask_port irq)) [
    | inl e ↦
        let same_port : mask_port k ≡ mask_port irq = (==_iff (mask_port k) (mask_port irq)).0 e in
        let lines : (mask_line k == mask_line irq) ≡ (k == irq) = ground (arith, e) in
        ap (λ p. bit (mask_line k) (inb ((mask_port irq, v) ∷ ports) p)) same_port
        ∙ ap (bit (mask_line k)) (h.reads (mask_port irq) v (mask_port-cases irq))
        ∙ w (mask_line k) (mask_line_lt k hk)
        ∙ ap (λ c. if c then b else bit (mask_line k) (inb ports (mask_port irq))) lines
        ∙ ap (λ p. if k == irq then b else bit (mask_line k) (inb ports p)) (sym same_port)
    | inr e ↦
        let differ : (k == irq) ≡ false = ground (arith, e) in
        ap (bit (mask_line k)) (
          h.apart (mask_port irq) (mask_port k) v (mask_port-cases irq) (mask_port-cases k)
            (ground (arith, e)))
        ∙ ap (λ c. if c then b else masked inb ports k) (sym differ)
  ]

  -- On initialized interrupt controllers `irq_enable` unmasks its one line of the 16, and
  -- `irq_disable` masks it; the masks of the other lines of both controllers stay as they are.
  pub irq_enable_disable :
      (irq k : ℕ)
      → irq < 16
      → k < 16
      → (masked inb (irq_enable inb irq ports) k ≡ (if k == irq then false else masked inb ports k))
        × (masked inb (irq_disable inb irq ports) k
            ≡ (if k == irq then true else masked inb ports k))
  unfolding irq_enable irq_disable
  irq_enable_disable irq k hi hk =
      let v = inb ports (mask_port irq) in
      let small = h.byte (mask_port irq) in
      (
        masked_write irq k (clear_bit v (mask_line irq)) false hi hk
            (λ j hj. bit-clear_bit v (mask_line irq) j small (mask_line_lt irq hi) hj),
        masked_write irq k (set_bit v (mask_line irq)) true hi hk
            (λ j hj. bit-set_bit v (mask_line irq) j small (mask_line_lt irq hi) hj),
      )
