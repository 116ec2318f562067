-- ===== src/Mm/Ops/Kcalloc.antt =====
-- `kcalloc`: a zeroed allocation, the overflow check, and the division by zero.
use minicore_os.Base.{
  ℕ, ◌+◌, ◌*◌, ◌/◌, ◌≤◌, ◌<◌, ◌^◌, ◌≡◌, ◌⊎◌, arith, wrap32, inl, inr, refl, ◌∙◌, Bool-cases, ◌==◌,
  false, true, done, fault, ap, ==_iff,
}
use minicore_os.Base.Arith.{pos_of_mul_pos, mul-div-le, mul-div_cancel}
use minicore_os.Mm.{Mm, align8}
use minicore_os.Mm.Layout.{Layout}
use minicore_os.Mm.Heap.{IsHeap}
use minicore_os.Mm.Find.{NoneFits}
use minicore_os.Mm.Contract.{Granted, kmalloc_contract}
use minicore_os.Mm.Ops.{memset, kcalloc}
use minicore_os.Mm.Ops.Bytes.{memset_inside, memset_outside}

-- With a count of 0 the overflow check of `kcalloc` divides by zero, whatever the size and the heap.
pub kcalloc_zero_count : (size : ℕ) (m : Mm) → kcalloc 0 size m ≡ fault
unfolding kcalloc
kcalloc_zero_count size m = refl

differs : (t c s : ℕ) → 0 < c → t < c * s → (t / c == s) ≡ false
differs t c s pos lt = elim (Bool-cases (t / c == s)) [
  | inl e ↦
      absurd (omega (arith, mul-div-le t c pos, ap (λ (x : ℕ). c * x) ((==_iff (t / c) s).0 e)))
  | inr ne ↦ ne
]

-- A product that does not fit 32 bits is refused: `kcalloc` returns NULL and changes nothing.
pub kcalloc_overflow :
    (count size : ℕ) (m : Mm)
    → size < 2 ^ 32
    → 2 ^ 32 ≤ count * size
    → kcalloc count size m ≡ done (0, m)
unfolding kcalloc
kcalloc_overflow count size m small big =
    let pos = pos_of_mul_pos count size (omega arith) in
    let nz : (count == 0) ≡ false = ground arith in
    rw (nz, differs (wrap32 (count * size)) count size pos (omega arith))

-- On `m'` the bytes from `ptr` are 0 for `n` bytes, and all others are those of `m`.
pub record Zeroed (m : Mm) (ptr n : ℕ) (m' : Mm) : Type 0 where
  pub zeros : (a : ℕ) → ptr ≤ a → a < ptr + n → m'.bytes a ≡ 0
  pub others : (a : ℕ) → (a < ptr) ⊎ (ptr + n ≤ a) → m'.bytes a ≡ m.bytes a

module _ {m : Mm} {bs : Layout} (v : IsHeap m bs) (count size : ℕ) (ask : 0 < count * size)
    (small : count * size + 7 < 2 ^ 32) where
  pos : 0 < count
  pos = pos_of_mul_pos count size ask

  counted : (count == 0) ≡ false
  counted = let p = pos in ground arith

  exact : wrap32 (count * size) ≡ count * size
  exact = omega arith

  fits : (count * size / count == size) ≡ true
  fits = (==_iff _ size).1 (mul-div_cancel count size pos)

  -- On a valid heap, where the product of count and size is from 1 to 2 ^ 32 - 8, `kcalloc`
  -- allocates as `kmalloc` does, and zeroes the bytes asked for and no others.
  pub kcalloc_contract :
      ((kcalloc count size m ≡ done (0, m)) × NoneFits (align8 (count * size)) bs)
      ⊎ ((ptr : ℕ) × (m' : Mm) × (m'' : Mm) × (kcalloc count size m ≡ done (ptr, m''))
          × Granted m bs (count * size) ptr m'
          × (m'' ≡ record m' { bytes = m''.bytes })
          × Zeroed m ptr (count * size) m'')
  unfolding kcalloc
  kcalloc_contract = elim (kmalloc_contract v (count * size) ask small) [
    | inl (e, none_fits) ↦ inl (rw (counted, exact, fits, e), none_fits)
    | inr (ptr, m', e, g) ↦
        let low = g.above in
        let end = g.inside in
        let enough = g.enough in
        let nz : (ptr == 0) ≡ false = ground arith in
        let b = memset m'.bytes ptr 0 (count * size) in
        inr (
          ptr,
          m',
          record m' { bytes = b },
          rw (counted, exact, fits, e, nz),
          g,
          refl,
          record {
            zeros = λ a lo hi. memset_inside m'.bytes ptr 0 (count * size) a (omega arith) lo hi;
            others = λ a out.
                memset_outside m'.bytes ptr 0 (count * size) a (omega arith) out
                ∙ ap (λ (f : ℕ → ℕ). f a) g.same;
          },
        )
  ]
