-- ===== src/Mm/Ops/Aligned.antt =====
-- `kmalloc_aligned`: where in its block the aligned address lies.
use minicore_os.Base.{
  ℕ, ◌+◌, ◌-◌, ◌*◌, ◌/◌, ◌%◌, ◌≤◌, ◌<◌, ◌^◌, ◌≡◌, ◌⊎◌, arith, wrap32, sub32, inl, inr, refl, ◌==◌,
  false, done, subst, sym, not, ◌||◌,
}
use Prim.Native.Nat.{bit_and}
use minicore_os.Mm.{Mm, align8}
use minicore_os.Mm.Layout.{Layout}
use minicore_os.Mm.Heap.{IsHeap}
use minicore_os.Mm.Find.{NoneFits}
use minicore_os.Mm.Contract.{Granted, kmalloc_contract}
use minicore_os.Mm.Ops.{kmalloc_aligned, align_up, store_word}

module _ (t a : ℕ) (pos : 0 < a) where
  round_down : t / a * a ≤ t
  round_down = omega arith

  round_down_near : t < t / a * a + a
  round_down_near = omega arith

  round_down_multiple : t / a * a % a ≡ 0
  round_down_multiple = grind arith

-- In a block at `raw`, the address `aligned` is a multiple of `alignment`, behind the 4 bytes that
-- keep `raw`, and has `size` bytes in front of the end of the `size + alignment + 4` bytes asked
-- for.
pub record Placed (raw size alignment aligned : ℕ) : Type 0 where
  pub multiple : aligned % alignment ≡ 0
  pub behind : raw + 4 ≤ aligned
  pub room : aligned + size ≤ raw + (size + alignment + 4)

module _ {m : Mm} {bs : Layout} (v : IsHeap m bs) (size alignment : ℕ) (pos : 0 < alignment)
    (pow2 : bit_and alignment (alignment - 1) ≡ 0) (small : size + alignment + 11 < 2 ^ 32) where
  abbrev total : ℕ
  total = size + alignment + 4

  exact : wrap32 (wrap32 (size + alignment) + 4) ≡ total
  exact = omega arith

  checks : (alignment == 0 || not (bit_and alignment (alignment - 1) == 0)) ≡ false
  checks = ground (arith, pow2)

  align_up-Placed :
      (raw given : ℕ)
      → total ≤ given
      → raw + given ≤ 0x300000
      → Placed raw size alignment (align_up raw alignment)
  align_up-Placed raw given enough inside =
      let t = raw + 4 + alignment - 1 in
      let whole : wrap32 t ≡ t = omega arith in
      subst (λ x. Placed raw size alignment (x / alignment * alignment)) (sym whole)
        (record {
          multiple = round_down_multiple t alignment pos;
          behind = omega (arith, round_down_near t alignment pos);
          room = omega (arith, round_down t alignment pos);
        })

  -- On a valid heap `kmalloc_aligned` with a power of two as alignment ends, where the size and the
  -- alignment are so far below 2 ^ 32 that the sizes it computes do not wrap: their sum is below
  -- 2 ^ 32 - 11. Either it returns NULL
  -- and changes nothing, and no free block is large enough; or it allocates a block as `kmalloc`
  -- does and returns an address in it that is a multiple of the alignment, with the size asked for
  -- inside the block, and writes the block's address in front of it.
  pub kmalloc_aligned_contract :
      ((kmalloc_aligned size alignment m ≡ done (0, m)) × NoneFits (align8 total) bs)
      ⊎ ((raw : ℕ) × (m' : Mm) × (aligned : ℕ) × (kmalloc_aligned size alignment m
            ≡ done (aligned, record m' { bytes = store_word m'.bytes (sub32 aligned 4) raw }))
          × Granted m bs total raw m'
          × Placed raw size alignment aligned)
  unfolding kmalloc_aligned
  kmalloc_aligned_contract = elim (kmalloc_contract v total (omega arith) (omega arith)) [
    | inl (e, none_fits) ↦ inl (rw (checks, exact, e) refl, none_fits)
    | inr (raw, m', e, g) ↦
        let low = g.above in
        let nz : (raw == 0) ≡ false = ground arith in
        inr (
          raw,
          m',
          align_up raw alignment,
          rw (checks, exact, e, nz) refl,
          g,
          align_up-Placed raw g.given g.enough g.inside,
        )
  ]

module _ {m : Mm} {bs : Layout} (v : IsHeap m bs) (size alignment : ℕ) (pos : 0 < alignment)
    (pow2 : bit_and alignment (alignment - 1) ≡ 0) (word : size < 2 ^ 32)
    (half : alignment ≤ 2 ^ 31) (wraps : 2 ^ 32 < size + alignment + 4) where
  -- what is left of the size that the code asks for
  abbrev asked : ℕ
  asked = size + alignment + 4 - 2 ^ 32
