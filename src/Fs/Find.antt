-- ===== src/Fs/Find.antt =====
-- The search of fs.c by name, and the copy of a file's content into the data area.
use minicore_os.Base.{
  ℕ, zero, suc, ◌+◌, ◌≡◌, ◌≢◌, ◌⊎◌, ◌<◌, ◌≤◌, refl, Bool, true, false, Option, none, some, List, [],
  ◌∷◌, ◌==◌, if◌then◌else◌, arith, Bool-cases, inl, inr, ap, ◌∙◌, sym, subst,
}
use mathlib.Core.Path.{subst₂}
use minicore_os.Fs.{File, write_file, find_from, copy_content, fs_strlen}
use minicore_os.Fs.Text.{text, same_text, fs_strcmp_zero}

pub write_file_self : (t : ℕ → File) (i : ℕ) (f : File → File) → write_file t i f i ≡ f (t i)
unfolding write_file
write_file_self t i f = ground arith

pub write_file_ne :
    (t : ℕ → File) (i : ℕ) (f : File → File) (j : ℕ) → j ≢ i → write_file t i f j ≡ t j
unfolding write_file
write_file_ne t i f j ne = ground arith

Bool-iff : (a b : Bool) → (a ≡ true → b ≡ true) → (b ≡ true → a ≡ true) → a ≡ b
Bool-iff true b f g = sym (f refl)
Bool-iff false true f g = g refl
Bool-iff false false f g = refl

-- The comparison sees the texts only.
pub same_text_cong :
    (a a' b b' : List ℕ) → text a ≡ text a' → text b ≡ text b' → same_text a b ≡ same_text a' b'
same_text_cong a a' b b' ea eb =
    let (f, f') = fs_strcmp_zero a b in
    let (g, g') = fs_strcmp_zero a' b' in
    Bool-iff (same_text a b) (same_text a' b') (λ h. g' (sym ea ∙ f h ∙ eb))
      (λ h. f' (ea ∙ g h ∙ sym eb))

pub find_from-cong :
    (n i : ℕ) (t t' : ℕ → File) (a a' : List ℕ)
    → ((j : ℕ) → i ≤ j → j < i + n → same_text (t j).name a ≡ same_text (t' j).name a')
    → find_from n i t a ≡ find_from n i t' a'
unfolding find_from
find_from-cong zero i t t' a a' h = refl
find_from-cong (suc n) i t t' a a' h =
    let tail = find_from-cong n (i + 1) t t' a a' (λ j le lt. h j (omega arith) (omega arith)) in
    subst₂ (λ b r. find_from (suc n) i t a ≡ (if b then some i else r))
      (h i (omega arith) (omega arith)) tail refl

abbrev pub or_else : Option ℕ → Option ℕ → Option ℕ
or_else none b = b
or_else (some a) b = some a

-- The search of one more entry looks at it last.
pub find_from-suc :
    (n i : ℕ) (t : ℕ → File) (a : List ℕ)
    → find_from (suc n) i t a
      ≡ or_else (find_from n i t a) (if same_text (t (i + n)).name a then some (i + n) else none)
unfolding find_from
find_from-suc zero i t a = rw (zero_at i) refl
  where
    zero_at : (j : ℕ) → j + 0 ≡ j
    zero_at j = omega arith
find_from-suc (suc n) i t a = elim (Bool-cases (same_text (t i).name a)) [
  | inl e ↦ rw e refl
  | inr e ↦ rw e (
      find_from-suc n (i + 1) t a
      ∙ ap
          (λ k. or_else (find_from n (i + 1) t a) (if same_text (t k).name a then some k else none))
          (omega arith))
]

pub find_from-some :
    (n i : ℕ) (t : ℕ → File) (a : List ℕ) (j : ℕ)
    → find_from n i t a ≡ some j
    → (i ≤ j) × (j < i + n) × (same_text (t j).name a ≡ true)
unfolding find_from
find_from-some zero i t a j e = cc
find_from-some (suc n) i t a j e = elim (Bool-cases (same_text (t i).name a)) [
  | inl b ↦
      let same : i ≡ j = ground arith in
      (ground arith, ground arith, subst (λ k. same_text (t k).name a ≡ true) same b)
  | inr b ↦
      let (le, lt, h) = find_from-some n (i + 1) t a j (ground arith) in
      (omega arith, omega arith, h)
]

pub find_from-none :
    (n i : ℕ) (t : ℕ → File) (a : List ℕ)
    → find_from n i t a ≡ none
    → (j : ℕ) → i ≤ j
    → j < i + n
    → same_text (t j).name a ≡ false
unfolding find_from
find_from-none zero i t a e j le lt = absurd (omega arith)
find_from-none (suc n) i t a e j le lt = elim (Bool-cases (same_text (t i).name a)) [
  | inl b ↦ cc
  | inr b ↦ elim (Bool-cases (i == j)) [
    | inl q ↦ subst (λ k. same_text (t k).name a ≡ false) (ground arith) b
    | inr q ↦ find_from-none n (i + 1) t a (ground arith) j (ground arith) (omega arith)
  ]
]

-- The `n` bytes at `at`.
abbrev pub read_bytes : ℕ → (ℕ → ℕ) → ℕ → List ℕ
read_bytes zero m at = []
read_bytes (suc n) m at = m at ∷ read_bytes n m (at + 1)

pub read_bytes-frame :
    (n : ℕ) (m m' : ℕ → ℕ) (at : ℕ)
    → ((a : ℕ) → at ≤ a → a < at + n → m a ≡ m' a)
    → read_bytes n m at ≡ read_bytes n m' at
read_bytes-frame zero m m' at h = refl
read_bytes-frame (suc n) m m' at h = cc (
  h at (omega arith) (omega arith),
  read_bytes-frame n m m' (at + 1) (λ a le lt. h a (omega arith) (omega arith)),
)

pub copy_content-outside :
    (n : ℕ) (m : ℕ → ℕ) (at : ℕ) (content : List ℕ) (a : ℕ)
    → (a < at) ⊎ (at + n ≤ a)
    → copy_content n m at content a ≡ m a
unfolding copy_content
copy_content-outside zero m at content a h = refl
copy_content-outside (suc n) m at [] a h = ground arith
copy_content-outside (suc n) m at (c ∷ cs) a h =
    copy_content-outside n (λ b. if b == at then c else m b) (at + 1) cs a (ground arith)
    ∙ ground arith

-- The copied bytes are the text of the content.
pub read_bytes-copy_content :
    (m : ℕ → ℕ) (at : ℕ) (content : List ℕ)
    → read_bytes (fs_strlen content) (copy_content (fs_strlen content) m at content) at
      ≡ text content
unfolding copy_content fs_strlen
read_bytes-copy_content m at [] = refl
read_bytes-copy_content m at (c ∷ cs) = elim (Bool-cases (c == 0)) [
  | inl e ↦ rw e refl
  | inr e ↦
      let m' : ℕ → ℕ = λ b. if b == at then c else m b in
      let first : copy_content (fs_strlen cs) m' (at + 1) cs at ≡ c =
        copy_content-outside (fs_strlen cs) m' (at + 1) cs at (inl (omega arith)) ∙ ground arith in
      rw e (cc (first, read_bytes-copy_content m' (at + 1) cs))
]
