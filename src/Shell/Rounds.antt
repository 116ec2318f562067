-- ===== src/Shell/Rounds.antt =====
-- One round of the loop of `shell_parse_command`: the argument that it finds and what it leaves.
use minicore_os.Base.{
  ℕ, zero, suc, ◌+◌, ◌≡◌, refl, true, false, List, [], ◌∷◌, ◌++◌, append-nil, append_assoc, ◌==◌,
  arith, ap, ◌∙◌, sym, subst, length, length-append, get_or,
}
use minicore_os.Shell.{is_blank, skip_blanks, skip_word, drop, next_token, parse_loop}
use minicore_os.Shell.Edit.{set-append}
use minicore_os.Shell.Words.{words, is_word, is_word-head, words-word, text-word}
use minicore_os.Fs.Text.{text}

-- the first `n` of a list
abbrev pub take {ℓ} : {A : Type ℓ} → ℕ → List A → List A
take zero xs = []
take (suc n) [] = []
take (suc n) (x ∷ xs) = x ∷ take n xs

pub take-nil {ℓ} : {A : Type ℓ} (n : ℕ) → take {A = A} n [] ≡ []
take-nil zero = refl
take-nil (suc n) = refl

-- The string at an index of the input, as a command reads it.
abbrev pub arg : List ℕ → ℕ → List ℕ
arg input p = text (drop p input)

abbrev pub args : List ℕ → List ℕ → List (List ℕ)
args input [] = []
args input (p ∷ ps) = arg input p ∷ args input ps

pub drop-append : (xs ys : List ℕ) → drop (length xs) (xs ++ ys) ≡ ys
drop-append [] ys = refl
drop-append (x ∷ xs) ys = drop-append xs ys

pub get_or-append : (xs ys : List ℕ) → get_or (xs ++ ys) (length xs) 0 ≡ get_or ys 0 0
get_or-append [] ys = refl
get_or-append (x ∷ xs) ys = get_or-append xs ys

-- The loop stops where the input ends.
pub parse_loop_end :
    (n : ℕ) (input : List ℕ) (token : ℕ)
    → (get_or input token 0 == 0) ≡ true
    → parse_loop n input token ≡ ([], input)
unfolding parse_loop
parse_loop_end zero input token e = refl
parse_loop_end (suc n) input token e = rw e refl

-- What the loop has to do from the index `length pre` on.
abbrev pub Parses : ℕ → List ℕ → List ℕ → List ℕ × List ℕ → Type 0
Parses n pre s (argv, left) =
    (s' : List ℕ) × (left ≡ pre ++ s') × (args left argv ≡ take n (words (text s)))

pub text-empty : (s : List ℕ) → (get_or s 0 0 == 0) ≡ true → text s ≡ []
text-empty [] e = refl
text-empty (c ∷ s) e = rw e refl

pub next_token_end :
    (input : List ℕ) (end : ℕ)
    → (get_or input end 0 == 0) ≡ true
    → next_token input end ≡ (input, end)
unfolding next_token
next_token_end input end z = rw z refl

drop-suc : (p : List ℕ) (b : ℕ) (r : List ℕ) → drop (length p + 1) (p ++ (b ∷ r)) ≡ r
drop-suc p b r =
    ap (λ k. drop k (p ++ (b ∷ r))) (sym (length-append p (b ∷ [])))
    ∙ ap (drop (length (p ++ (b ∷ [])))) (sym (append_assoc p (b ∷ []) r))
    ∙ drop-append (p ++ (b ∷ [])) r

-- At a blank the word is ended by a 0, and the blanks are skipped.
pub next_token_blank :
    (p : List ℕ) (b : ℕ) (bs r : List ℕ)
    → is_blank b ≡ true
    → length bs ≡ skip_blanks (bs ++ r)
    → next_token (p ++ (b ∷ (bs ++ r))) (length p) ≡ ((p ++ (0 ∷ bs)) ++ r, length (p ++ (0 ∷ bs)))
unfolding next_token
next_token_blank p b bs r hb l =
    let nz : (b == 0) ≡ false = ground (arith, hb) in
    rw
      (
        get_or-append p (b ∷ (bs ++ r)),
        nz,
        set-append p b (bs ++ r) 0,
        drop-suc p 0 (bs ++ r),
        sym l,
      )
      (cc (sym (append_assoc p (0 ∷ bs) r), len))
  where
    len : length p + 1 + length bs ≡ length (p ++ (0 ∷ bs))
    len = omega (arith, length-append p (0 ∷ bs))

-- The first round of the loop on a word `c ∷ w` with `r` behind it.
module _ (n : ℕ) (pre : List ℕ) (c : ℕ) (w : List ℕ) (h : is_word (c ∷ w) ≡ true) where
  abbrev behind : ℕ
  behind = length pre + length (c ∷ w)

  get_or-behind : (r : List ℕ) → get_or (pre ++ ((c ∷ w) ++ r)) behind 0 ≡ get_or r 0 0
  get_or-behind r =
      ap (λ k. get_or k behind 0) (sym (append_assoc pre (c ∷ w) r))
      ∙ ap (λ k. get_or ((pre ++ (c ∷ w)) ++ r) k 0) (sym (length-append pre (c ∷ w)))
      ∙ get_or-append (pre ++ (c ∷ w)) r

  pub round :
      (r : List ℕ)
      → length (c ∷ w) ≡ skip_word ((c ∷ w) ++ r)
      → (input' : List ℕ) (token' : ℕ)
      → next_token (pre ++ ((c ∷ w) ++ r)) behind ≡ (input', token')
      → parse_loop (suc n) (pre ++ ((c ∷ w) ++ r)) (length pre)
        ≡ (length pre ∷ (parse_loop n input' token').0, (parse_loop n input' token').1)
  unfolding parse_loop
  round r l input' token' e =
      let (np, _) = is_word-head c w h in
      let nz : (c == 0) ≡ false = ground (arith, np) in
      rw (get_or-append pre ((c ∷ w) ++ r), nz, drop-append pre ((c ∷ w) ++ r), sym l, e) refl

  -- The argument that the round has found, in an input that keeps it and ends it.
  pub arg-round :
      (left s' : List ℕ)
      → left ≡ pre ++ ((c ∷ w) ++ s')
      → text s' ≡ []
      → arg left (length pre) ≡ c ∷ w
  arg-round left s' e empty =
      ap (λ k. arg k (length pre)) e
      ∙ ap text (drop-append pre ((c ∷ w) ++ s'))
      ∙ text-word (c ∷ w) s' h
      ∙ ap (λ k. (c ∷ w) ++ k) empty
      ∙ append-nil (c ∷ w)

  -- The word ends the input.
  pub last_word :
      (r : List ℕ)
      → length (c ∷ w) ≡ skip_word ((c ∷ w) ++ r)
      → (get_or r 0 0 == 0) ≡ true
      → Parses (suc n) pre ((c ∷ w) ++ r) (parse_loop (suc n) (pre ++ ((c ∷ w) ++ r)) (length pre))
  last_word r l z =
      let input : List ℕ = pre ++ ((c ∷ w) ++ r) in
      let at_end : get_or input behind 0 ≡ get_or r 0 0 = get_or-behind r in
      let stops : (get_or input behind 0 == 0) ≡ true = ap (λ k. k == 0) at_end ∙ z in
      let e = round r l input behind (next_token_end input behind stops) in
      let e' = parse_loop_end n input behind stops in
      subst (Parses (suc n) pre ((c ∷ w) ++ r))
        (sym (e ∙ ap (λ (p : List ℕ × List ℕ). (length pre ∷ p.0, p.1)) e'))
        (
          (c ∷ w) ++ r,
          refl,
          ap (λ a. a ∷ []) (arg-round input r refl (text-empty r z)) ∙ sym (only r z),
        )
    where
      only :
          (r : List ℕ)
          → (get_or r 0 0 == 0) ≡ true
          → take (suc n) (words (text ((c ∷ w) ++ r))) ≡ (c ∷ w) ∷ []
      only r z =
          ap (λ t. take (suc n) (words t))
            (text-word (c ∷ w) r h ∙ ap (λ k. (c ∷ w) ++ k) (text-empty r z) ∙ append-nil (c ∷ w))
          ∙ ap (take (suc n)) (words-word c w h)
          ∙ ap (λ k. (c ∷ w) ∷ k) (take-nil n)
