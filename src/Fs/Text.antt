-- ===== src/Fs/Text.antt =====
-- The string functions of fs.c: what they compute of the texts of their arguments.
use minicore_os.Base.{
  ℕ, suc, ◌≡◌, ◌<◌, ◌↔◌, refl, Bool, true, false, some, List, [], ◌∷◌, ◌==◌, if◌then◌else◌, length,
  arith, Bool-cases, inl, inr, ap, ◌∙◌,
}
use minicore_os.Base.Int.{sub_ℕ}
use minicore_os.Fs.{fs_strlen, fs_strcmp, fs_strcpy, is_zero}

-- The bytes of a string before the 0 that ends it.
abbrev pub text : List ℕ → List ℕ
text [] = []
text (b ∷ bs) = let rest = text bs in if b == 0 then [] else b ∷ rest

abbrev pub same_text : List ℕ → List ℕ → Bool
same_text a b = is_zero (fs_strcmp a b)

is_zero-sub_ℕ : (a b : ℕ) → is_zero (sub_ℕ a b) ≡ (a == b)
is_zero-sub_ℕ a b = ground arith

-- `fs_strlen` is the length of the text.
pub fs_strlen_lem : (s : List ℕ) → fs_strlen s ≡ length (text s)
unfolding fs_strlen
fs_strlen_lem [] = refl
fs_strlen_lem (b ∷ bs) = elim (Bool-cases (b == 0)) [
  | inl e ↦ rw e refl
  | inr e ↦ rw e (ap suc (fs_strlen_lem bs))
]

cons_tail : {x y : ℕ} {xs ys : List ℕ} → x ∷ xs ≡ y ∷ ys → xs ≡ ys
cons_tail e = cc e

-- `fs_strcmp` returns 0 exactly on strings with the same text.
pub fs_strcmp_zero : (a b : List ℕ) → same_text a b ≡ true ↔ text a ≡ text b
unfolding fs_strcmp
fs_strcmp_zero [] [] = (λ e. refl, λ e. refl)
fs_strcmp_zero [] (c ∷ cs) = elim (Bool-cases (c == 0)) [
  | inl e ↦ rw e (λ h. refl, λ h. ground arith)
  | inr e ↦ rw e (λ h. absurd (ground arith), λ h. cc)
]
fs_strcmp_zero (b ∷ bs) [] = elim (Bool-cases (b == 0)) [
  | inl e ↦ rw e (λ h. refl, λ h. ground arith)
  | inr e ↦ rw e (λ h. absurd (ground arith), λ h. cc)
]
fs_strcmp_zero (b ∷ bs) (c ∷ cs) = elim (Bool-cases (b == 0)) [
  | inl e ↦ elim (Bool-cases (c == 0)) [
    | inl e' ↦ rw (e, e') (λ h. refl, λ h. is_zero-sub_ℕ b c ∙ ground arith)
    | inr e' ↦ rw (e, e') (λ h. absurd (ground (arith, is_zero-sub_ℕ b c)), λ h. cc)
  ]
  | inr e ↦ elim (Bool-cases (b == c)) [
    | inl e' ↦
        let (f, g) = fs_strcmp_zero bs cs in
        let same : b ≡ c = ground arith in
        let e'' : (c == 0) ≡ false = ground arith in
        rw (e, e', e'') (λ h. cc (same, f h), λ h. g (cons_tail h))
    | inr e' ↦ elim (Bool-cases (c == 0)) [
      | inl z ↦ rw (e, e', z) (λ h. absurd (ground (arith, is_zero-sub_ℕ b c)), λ h. cc)
      | inr z ↦
          rw (e, e', z)
            (λ h. absurd (ground (arith, is_zero-sub_ℕ b c)), λ h. absurd (ground arith))
    ]
  ]
]

-- `fs_strcpy` into an array that is longer than the text stays inside it, and leaves a string with
-- that text; the array keeps its length.
pub fs_strcpy_fits :
    (d s : List ℕ)
    → length (text s) < length d
    → (r : List ℕ) × (fs_strcpy d s ≡ some r) × (text r ≡ text s) × (length r ≡ length d)
unfolding fs_strcpy
fs_strcpy_fits [] s h = absurd (omega arith)
fs_strcpy_fits (x ∷ d) [] h = (0 ∷ d, refl, refl, refl)
fs_strcpy_fits (x ∷ d) (c ∷ s) h = elim (Bool-cases (c == 0)) [
  | inl e ↦ rw e (0 ∷ d, refl, refl, refl)
  | inr e ↦
      let (r, er, et, el) = fs_strcpy_fits d s (ground arith) in
      rw e (c ∷ r, ground (arith, er), ground (arith, et), ap suc el)
]
