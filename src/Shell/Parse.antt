-- ===== src/Shell/Parse.antt =====
-- `shell_parse_command`: its arguments are the words of the line.
use minicore_os.Base.{
  ℕ, zero, suc, ◌+◌, ◌-◌, ◌≡◌, refl, Bool, true, false, List, [], ◌∷◌, ◌++◌, append_assoc, ◌==◌,
  if◌then◌else◌, arith, Bool-cases, inl, inr, ap, ◌∙◌, sym, subst, length, length-append, get_or,
}
use minicore_os.Shell.{
  is_blank, skip_blanks, skip_word, next_token, parse_loop, shell_parse_command,
}
use minicore_os.Shell.Words.{
  words, all_blank, is_word, Shape, skip_word_lem, skip_blanks_lem, words-word_blank, words-blanks,
  text-word,
}
use minicore_os.Fs.Text.{text}
use minicore_os.Shell.Rounds.{
  take, args, get_or-append, parse_loop_end, Parses, text-empty, next_token_blank, round, arg-round,
  last_word,
}

Shape-zero : (x : ℕ) (r : List ℕ) → Shape (x ∷ r) → is_blank x ≡ false → (x == 0) ≡ true
Shape-zero x r sh nb = ground (arith, sh, nb)

skip_word-cons :
    (c : ℕ) (s : List ℕ)
    → (c == 0) ≡ false
    → is_blank c ≡ false
    → (n : ℕ) → n ≡ skip_word s
    → suc n ≡ skip_word (c ∷ s)
unfolding skip_word
skip_word-cons c s nz nb n e = rw (nz, nb) (ap suc e)

-- At the end of the input there are no words.
at_end :
    (n : ℕ) (pre s : List ℕ)
    → (get_or s 0 0 == 0) ≡ true
    → Parses (suc n) pre s (parse_loop (suc n) (pre ++ s) (length pre))
at_end n pre s z =
    subst (Parses (suc n) pre s)
      (sym (
        parse_loop_end (suc n) (pre ++ s) (length pre)
          (ap (λ k. k == 0) (get_or-append pre s) ∙ z)))
      (s, refl, ap (λ t. take (suc n) (words t)) (sym (text-empty s z)))

-- The words of a word, a blank and what follows.
words_after :
    (c : ℕ) (w : List ℕ) (b : ℕ) (bs r : List ℕ)
    → is_word (c ∷ w) ≡ true
    → is_blank b ≡ true
    → all_blank bs ≡ true
    → words (text ((c ∷ w) ++ (b ∷ (bs ++ r)))) ≡ (c ∷ w) ∷ words (text r)
words_after c w b bs r h hb hbs =
    let nz : (b == 0) ≡ false = ground (arith, hb) in
    ap words (
      text-word (c ∷ w) (b ∷ (bs ++ r)) h
      ∙ ap (λ (k : Bool). (c ∷ w) ++ (if k then [] else b ∷ text (bs ++ r))) nz)
    ∙ words-word_blank c w b (text (bs ++ r)) h hb
    ∙ ap (λ ws. (c ∷ w) ∷ ws) (words-blanks bs r hbs)

-- The loop does its work from the first character of a word on, or from the end.
abbrev Works : ℕ → Type 0
Works n =
    (pre s : List ℕ)
    → is_blank (get_or s 0 0) ≡ false
    → Parses n pre s (parse_loop n (pre ++ s) (length pre))

module _ (n : ℕ) (later : Works n) (pre : List ℕ) (c : ℕ) (w : List ℕ)
    (h : is_word (c ∷ w) ≡ true) where
  -- A word with a blank behind it.
  word_blank :
      (b : ℕ) (bs r : List ℕ)
      → is_blank b ≡ true
      → all_blank bs ≡ true
      → length bs ≡ skip_blanks (bs ++ r)
      → is_blank (get_or r 0 0) ≡ false
      → length (c ∷ w) ≡ skip_word ((c ∷ w) ++ (b ∷ (bs ++ r)))
      → Parses
          (suc n)
          pre
          ((c ∷ w) ++ (b ∷ (bs ++ r)))
          (parse_loop (suc n) (pre ++ ((c ∷ w) ++ (b ∷ (bs ++ r)))) (length pre))
  word_blank b bs r hb hbs lb nb l =
      let p : List ℕ = pre ++ (c ∷ w) in
      let pre' : List ℕ = p ++ (0 ∷ bs) in
      let tail : List ℕ = b ∷ (bs ++ r) in
      let next : next_token (pre ++ ((c ∷ w) ++ tail)) (length pre + length (c ∷ w))
          ≡ (pre' ++ r, length pre') =
        ap (λ k. next_token k (length pre + length (c ∷ w))) (sym (append_assoc pre (c ∷ w) tail))
        ∙ ap (next_token (p ++ tail)) (sym (length-append pre (c ∷ w)))
        ∙ next_token_blank p b bs r hb lb in
      let e = round n pre c w h tail l (pre' ++ r) (length pre') next in
      let (s', kept, found) = later pre' r nb in
      let left = (parse_loop n (pre' ++ r) (length pre')).1 in
      let whole : left ≡ pre ++ ((c ∷ w) ++ (0 ∷ (bs ++ s'))) =
        kept ∙ append_assoc p (0 ∷ bs) s' ∙ append_assoc pre (c ∷ w) (0 ∷ (bs ++ s')) in
      subst (Parses (suc n) pre ((c ∷ w) ++ tail)) (sym e) (
        (c ∷ w) ++ (0 ∷ (bs ++ s')),
        whole,
        cons₂ (arg-round n pre c w h left (0 ∷ (bs ++ s')) whole refl) found
            ∙ ap (take (suc n)) (sym (words_after c w b bs r h hb hbs)),
      )
    where
      cons₂ : {x y : List ℕ} {xs ys : List (List ℕ)} → x ≡ y → xs ≡ ys → x ∷ xs ≡ y ∷ ys
      cons₂ e e' = cc (e, e')

  first_word :
      (r : List ℕ)
      → Shape r
      → length (c ∷ w) ≡ skip_word ((c ∷ w) ++ r)
      → Parses (suc n) pre ((c ∷ w) ++ r) (parse_loop (suc n) (pre ++ ((c ∷ w) ++ r)) (length pre))
  first_word [] sh l = last_word n pre c w h [] l refl
  first_word (x ∷ r) sh l = elim (Bool-cases (is_blank x)) [
    | inl hb ↦
        let (bs, r', e, lb, hbs, nb) = skip_blanks_lem r in
        subst
          (λ k.
            Parses (suc n) pre ((c ∷ w) ++ (x ∷ k))
              (parse_loop (suc n) (pre ++ ((c ∷ w) ++ (x ∷ k))) (length pre)))
          (sym e)
          (word_blank x bs r' hb hbs (lb ∙ ap skip_blanks e) nb
            (l ∙ ap (λ k. skip_word ((c ∷ w) ++ (x ∷ k))) e))
    | inr nb ↦ last_word n pre c w h (x ∷ r) l (Shape-zero x r sh nb)
  ]

parse_loop_lem : (n : ℕ) → Works n
unfolding parse_loop
parse_loop_lem zero pre s nb = (s, refl, refl)
parse_loop_lem (suc n) pre [] nb = at_end n pre [] refl
parse_loop_lem (suc n) pre (c ∷ s) nb = elim (Bool-cases (c == 0)) [
  | inl z ↦ at_end n pre (c ∷ s) z
  | inr nz ↦
      let (w, r, e, l, hw, sh) = skip_word_lem s in
      let h : is_word (c ∷ w) ≡ true = ground (arith, nz, nb, hw) in
      subst (λ k. Parses (suc n) pre (c ∷ k) (parse_loop (suc n) (pre ++ (c ∷ k)) (length pre)))
        (sym e)
        (first_word n (parse_loop_lem n) pre c w h r sh
          (skip_word-cons c (w ++ r) nz nb (length w) (l ∙ ap skip_word e)))
]

-- The arguments that `shell_parse_command` finds are the words of the line, the first `max_args - 1` of
-- them, each ended by a 0 where it stands in the input.
pub shell_parse_command_lem :
    (input : List ℕ) (max_args : ℕ)
    → let (argv, left) = shell_parse_command input max_args in
      args left argv ≡ take (max_args - 1) (words (text input))
unfolding shell_parse_command
shell_parse_command_lem input max_args =
    let (b, r, e, l, hb, nb) = skip_blanks_lem input in
    let (_, _, found) = parse_loop_lem (max_args - 1) b r nb in
    let start : parse_loop (max_args - 1) input (skip_blanks input)
        ≡ parse_loop (max_args - 1) (b ++ r) (length b) =
      ap (λ k. parse_loop (max_args - 1) k (skip_blanks input)) e
      ∙ ap (parse_loop (max_args - 1) (b ++ r)) (sym l) in
    ap (λ (p : List ℕ × List ℕ). args p.1 p.0) start
    ∙ found
    ∙ ap (take (max_args - 1)) (sym (ap (λ k. words (text k)) e ∙ words-blanks b r hb))
