-- ===== src/Mm/Ops/Bytes.antt =====
-- `memset` and `memcpy` write the range that they are given and nothing else.
use minicore_os.Base.{
  ℕ, zero, suc, ◌+◌, ◌-◌, ◌≤◌, ◌<◌, ◌^◌, ◌≡◌, ◌≢◌, ◌⊎◌, arith, wrap32, wrap8, inl, refl, subst, sym,
  ◌∙◌,
}
use native.Mathlib.Decide.{ℕ_discrete}
use minicore_os.Mm.Ops.{Bytes, store, memset, memcpy}

store_self : (b : Bytes) (p v : ℕ) → store b p v p ≡ v
unfolding store
store_self b p v = ground arith

pub store_ne : (b : Bytes) (p v a : ℕ) → a ≢ p → store b p v a ≡ b a
unfolding store
store_ne b p v a ne = ground arith

pub memset_outside :
    (b : Bytes) (dest v n a : ℕ)
    → dest + n < 2 ^ 32
    → (a < dest) ⊎ (dest + n ≤ a)
    → memset b dest v n a ≡ b a
unfolding memset
memset_outside b dest v zero a fits out = refl
memset_outside b dest v (suc n) a fits out =
    let w : wrap32 (dest + 1) ≡ dest + 1 = omega arith in
    subst (λ d. memset (store b dest (wrap8 v)) d v n a ≡ b a) (sym w)
      (memset_outside (store b dest (wrap8 v)) (dest + 1) v n a (omega arith) (ground arith)
        ∙ store_ne b dest (wrap8 v) a (omega arith))

pub memset_inside :
    (b : Bytes) (dest v n a : ℕ)
    → dest + n < 2 ^ 32
    → dest ≤ a
    → a < dest + n
    → memset b dest v n a ≡ wrap8 v
unfolding memset
memset_inside b dest v zero a fits lo hi = absurd (omega arith)
memset_inside b dest v (suc n) a fits lo hi =
    let w : wrap32 (dest + 1) ≡ dest + 1 = omega arith in
    let b' = store b dest (wrap8 v) in
    subst (λ d. memset b' d v n a ≡ wrap8 v) (sym w)
      (elim (ℕ_discrete a dest) [
        | yes e ↦ rw e (
            memset_outside b' (dest + 1) v n dest (omega arith) (inl (omega arith))
            ∙ store_self b dest (wrap8 v))
        | no ne ↦ memset_inside b' (dest + 1) v n a (omega arith) (omega arith) (omega arith)
      ])

pub memcpy_outside :
    (b : Bytes) (dest src n a : ℕ)
    → dest + n < 2 ^ 32
    → src + n < 2 ^ 32
    → (a < dest) ⊎ (dest + n ≤ a)
    → memcpy b dest src n a ≡ b a
unfolding memcpy
memcpy_outside b dest src zero a fits fits' out = refl
memcpy_outside b dest src (suc n) a fits fits' out =
    let w : wrap32 (dest + 1) ≡ dest + 1 = omega arith in
    let w' : wrap32 (src + 1) ≡ src + 1 = omega arith in
    rw (w, w')
      (memcpy_outside (store b dest (b src)) (dest + 1) (src + 1) n a (omega arith) (omega arith)
          (ground arith)
        ∙ store_ne b dest (b src) a (omega arith))

-- Between ranges that do not overlap `memcpy` copies byte by byte.
pub memcpy_inside :
    (b : Bytes) (dest src n i : ℕ)
    → dest + n < 2 ^ 32
    → src + n < 2 ^ 32
    → (dest + n ≤ src) ⊎ (src + n ≤ dest)
    → i < n
    → memcpy b dest src n (dest + i) ≡ b (src + i)
unfolding memcpy
memcpy_inside b dest src zero i fits fits' apart lt = absurd (omega arith)
memcpy_inside b dest src (suc n) i fits fits' apart lt =
    let w : wrap32 (dest + 1) ≡ dest + 1 = omega arith in
    let w' : wrap32 (src + 1) ≡ src + 1 = omega arith in
    let b' = store b dest (b src) in
    rw (w, w')
      (elim (ℕ_discrete i 0) [
        | yes e ↦
            let ed : dest + i ≡ dest = omega arith in
            let es : src + i ≡ src = omega arith in
            rw (ed, es)
              (memcpy_outside b' (dest + 1) (src + 1) n dest (omega arith) (omega arith)
                  (inl (omega arith))
                ∙ store_self b dest (b src))
        | no ne ↦
            let ed : dest + i ≡ dest + 1 + (i - 1) = omega arith in
            let es : src + i ≡ src + 1 + (i - 1) = omega arith in
            rw (ed, es)
              (memcpy_inside b' (dest + 1) (src + 1) n (i - 1) (omega arith) (omega arith)
                  (ground arith) (omega arith)
                ∙ store_ne b dest (b src) (src + 1 + (i - 1)) (ground arith))
      ])
