-- ===== src/Shell/Words.antt =====
-- The words of a command line: the runs of characters between blanks.
use minicore_os.Base.{
  ℕ, ◌≡◌, refl, Bool, true, false, ◌||◌, ◌&&◌, get_or, append-nil, List, [], ◌∷◌, ◌++◌, ◌==◌,
  if◌then◌else◌, arith, Bool-cases, inl, inr, ap, ◌∙◌, sym, length,
}
use minicore_os.Shell.{is_blank, skip_blanks, skip_word}
use minicore_os.Fs.Text.{text}

-- the first word grows by a character
abbrev pub grow : ℕ → List (List ℕ) → List (List ℕ)
grow c [] = (c ∷ []) ∷ []
grow c (w ∷ ws) = (c ∷ w) ∷ ws

-- The pieces of a text between its blanks.
abbrev pub split : List ℕ → List (List ℕ)
split [] = [] ∷ []
split (c ∷ cs) = let rest = split cs in if is_blank c then [] ∷ rest else grow c rest

-- the pieces that are not empty
abbrev pub filled : List (List ℕ) → List (List ℕ)
filled [] = []
filled ([] ∷ ws) = filled ws
filled ((c ∷ w) ∷ ws) = (c ∷ w) ∷ filled ws

-- The words of a text.
abbrev pub words : List ℕ → List (List ℕ)
words s = filled (split s)

abbrev pub plain : ℕ → Bool
plain c = c == 0 || is_blank c

-- What follows a word: the end of the string, its 0, or a blank.
abbrev pub Shape : List ℕ → Type 0
Shape [] = Unit {0}
Shape (c ∷ r) = plain c ≡ true

abbrev pub is_word : List ℕ → Bool
is_word [] = true
is_word (c ∷ cs) = let rest = is_word cs in if plain c then false else rest

-- `skip_word` finds the word in front of a string.
pub skip_word_lem :
    (s : List ℕ)
    → (w : List ℕ) × (r : List ℕ) × (s ≡ w ++ r)
      × (length w ≡ skip_word s)
      × (is_word w ≡ true)
      × Shape r
unfolding skip_word
skip_word_lem [] = ([], [], refl, refl, refl, tt)
skip_word_lem (c ∷ cs) = elim (Bool-cases (c == 0)) [
  | inl z ↦ let e : c ≡ 0 = ground arith in rw e ([], 0 ∷ cs, refl, refl, refl, refl)
  | inr nz ↦ elim (Bool-cases (is_blank c)) [
    | inl b ↦ ([], c ∷ cs, refl, ground (arith, nz, b), refl, ground (arith, b))
    | inr nb ↦
        let (w, r, e, l, h, sh) = skip_word_lem cs in
        (c ∷ w, r, ap (λ k. c ∷ k) e, ground (arith, nz, nb, l), ground (arith, nz, nb, h), sh)
  ]
]

pub is_word-head :
    (c : ℕ) (w : List ℕ) → is_word (c ∷ w) ≡ true → (plain c ≡ false) × (is_word w ≡ true)
is_word-head c w h = elim (Bool-cases (plain c)) [
  | inl b ↦ absurd (clash (sym h ∙ ap (λ (b : Bool). if b then false else is_word w) b))
  | inr nb ↦ (nb, sym (ap (λ (b : Bool). if b then false else is_word w) nb) ∙ h)
]
  where
    clash : true ≡ false → ⊥
    clash e = cc

split-word :
    (w s x : List ℕ) (xs : List (List ℕ))
    → is_word w ≡ true
    → split s ≡ x ∷ xs
    → split (w ++ s) ≡ (w ++ x) ∷ xs
split-word [] s x xs h e = e
split-word (c ∷ w) s x xs h e =
    let (np, hw) = is_word-head c w h in
    let nb : is_blank c ≡ false = ground (arith, np) in
    rw nb (ap (grow c) (split-word w s x xs hw e))

filled-word :
    (c : ℕ) (w : List ℕ) (ws : List (List ℕ)) → filled (((c ∷ w) ++ []) ∷ ws) ≡ (c ∷ w) ∷ filled ws
filled-word c w ws = ap (λ v. (c ∷ v) ∷ filled ws) (append-nil w)

-- A word alone is the only word.
pub words-word : (c : ℕ) (w : List ℕ) → is_word (c ∷ w) ≡ true → words (c ∷ w) ≡ (c ∷ w) ∷ []
words-word c w h =
    ap words (sym (append-nil (c ∷ w)))
    ∙ ap filled (split-word (c ∷ w) [] [] [] h refl)
    ∙ filled-word c w []

-- Behind a word and a blank the words go on.
pub words-word_blank :
    (c : ℕ) (w : List ℕ) (b : ℕ) (s : List ℕ)
    → is_word (c ∷ w) ≡ true
    → is_blank b ≡ true
    → words ((c ∷ w) ++ (b ∷ s)) ≡ (c ∷ w) ∷ words s
words-word_blank c w b s h hb =
    ap filled (
      split-word (c ∷ w) (b ∷ s) [] (split s) h
        (ap (λ (k : Bool). if k then [] ∷ split s else grow b (split s)) hb))
    ∙ filled-word c w (split s)

-- Blanks in front do not count.
pub words-blank : (b : ℕ) (s : List ℕ) → is_blank b ≡ true → words (b ∷ s) ≡ words s
words-blank b s hb = ap (λ (k : Bool). filled (if k then [] ∷ split s else grow b (split s))) hb

-- The text of a string with a word in front.
pub text-word : (w r : List ℕ) → is_word w ≡ true → text (w ++ r) ≡ w ++ text r
text-word [] r h = refl
text-word (c ∷ w) r h =
    let (np, hw) = is_word-head c w h in
    let nz : (c == 0) ≡ false = ground (arith, np) in rw nz (ap (λ k. c ∷ k) (text-word w r hw))

abbrev pub all_blank : List ℕ → Bool
all_blank [] = true
all_blank (c ∷ cs) = is_blank c && all_blank cs

-- `skip_blanks` finds the blanks in front of a string, and what follows does not begin with one.
pub skip_blanks_lem :
    (s : List ℕ)
    → (b : List ℕ) × (r : List ℕ) × (s ≡ b ++ r)
      × (length b ≡ skip_blanks s)
      × (all_blank b ≡ true)
      × (is_blank (get_or r 0 0) ≡ false)
unfolding skip_blanks
skip_blanks_lem [] = ([], [], refl, refl, refl, refl)
skip_blanks_lem (c ∷ cs) = elim (Bool-cases (is_blank c)) [
  | inl b ↦
      let (bs, r, e, l, h, nb) = skip_blanks_lem cs in
      (c ∷ bs, r, ap (λ k. c ∷ k) e, ground (arith, b, l), ground (arith, b, h), nb)
  | inr nb ↦ ([], c ∷ cs, refl, ground (arith, nb), refl, nb)
]

-- The words of the text of a string with blanks in front.
pub words-blanks : (b r : List ℕ) → all_blank b ≡ true → words (text (b ++ r)) ≡ words (text r)
words-blanks [] r h = refl
words-blanks (c ∷ b) r h =
    let hc : is_blank c ≡ true = ground (arith, h) in
    let hb : all_blank b ≡ true = ground (arith, h) in
    let nz : (c == 0) ≡ false = ground (arith, hc) in
    ap words (ap (λ (k : Bool). if k then [] else c ∷ text (b ++ r)) nz)
    ∙ words-blank c (text (b ++ r)) hc
    ∙ words-blanks b r hb
