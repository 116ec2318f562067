-- ===== src/Shell/Edit.antt =====
-- The line editor of shell.c: the input buffer holds the line that was typed, and nothing behind it.
use minicore_os.Base.{
  ℕ, zero, suc, ◌+◌, ◌-◌, ◌*◌, ◌≡◌, ◌<◌, ◌≤◌, refl, Bool, true, false, ◌&&◌, List, [], ◌∷◌, ◌++◌,
  append_assoc, append-nil, ltb, leb, if◌then◌else◌, arith, Bool-cases, inl, inr, ap, ◌∙◌, sym, set,
  length, length-append, replicate, sub32,
}
use minicore_os.Terminal.Output.{Shown}
use minicore_os.Terminal.{Terminal, terminal_putchar, vga_width, vga_entry}
use minicore_os.Terminal.Cursor.{OnScreen, putchar_inside, putchar-OnScreen, putchar-beyond}
use minicore_os.Shell.{
  Shell, shell_buffer_size, clear_loop, shell_clear_buffer, step_back, erase, shell_backspace,
  type_char, drop,
}

-- the characters that the editor takes
abbrev pub printable : ℕ → Bool
printable c = leb 32 c && leb c 126

abbrev pub all_printable : List ℕ → Bool
all_printable [] = true
all_printable (c ∷ cs) = printable c && all_printable cs

-- `n` zero bytes
abbrev pub blank_bytes : ℕ → List ℕ
blank_bytes n = replicate n 0

-- The editor holds the line `l`: the buffer is the line with zeros behind it.
pub record IsLine (s : Shell) (l : List ℕ) : Type 0 where
  pub buffer : s.input_buffer ≡ l ++ blank_bytes (shell_buffer_size - length l)
  pub at_end : s.buffer_pos ≡ length l
  pub short : length l < shell_buffer_size
  pub chars : all_printable l ≡ true

pub set-append :
    (xs : List ℕ) (y : ℕ) (ys : List ℕ) (v : ℕ)
    → set (xs ++ (y ∷ ys)) (length xs) v ≡ xs ++ (v ∷ ys)
set-append [] y ys v = refl
set-append (x ∷ xs) y ys v = ap (λ zs. x ∷ zs) (set-append xs y ys v)

replicate_pred : (n : ℕ) → 0 < n → blank_bytes n ≡ 0 ∷ blank_bytes (n - 1)
replicate_pred zero h = absurd (omega arith)
replicate_pred (suc n) h = ap (λ k. 0 ∷ blank_bytes k) (omega arith)

replicate_snoc : (n : ℕ) (xs : List ℕ) → blank_bytes n ++ (0 ∷ xs) ≡ blank_bytes (suc n) ++ xs
replicate_snoc zero xs = refl
replicate_snoc (suc n) xs = ap (λ ys. 0 ∷ ys) (replicate_snoc n xs)

pub length-replicate : (n : ℕ) → length (blank_bytes n) ≡ n
length-replicate zero = refl
length-replicate (suc n) = ap suc (length-replicate n)

all_printable-snoc :
    (l : List ℕ) (c : ℕ)
    → all_printable l ≡ true
    → printable c ≡ true
    → all_printable (l ++ (c ∷ [])) ≡ true
all_printable-snoc [] c h p = ground arith
all_printable-snoc (x ∷ l) c h p = ground (arith, all_printable-snoc l c)

all_printable-front :
    (l : List ℕ) (c : ℕ) → all_printable (l ++ (c ∷ [])) ≡ true → all_printable l ≡ true
all_printable-front [] c h = refl
all_printable-front (x ∷ l) c h = ground (arith, all_printable-front l c)

drop_cons : (n : ℕ) (b : List ℕ) → n < length b → (y : ℕ) × (drop n b ≡ y ∷ drop (suc n) b)
drop_cons n [] lt = absurd (omega arith)
drop_cons zero (x ∷ b) lt = (x, refl)
drop_cons (suc n) (x ∷ b) lt = drop_cons n b (omega arith)

drop_all : (n : ℕ) (b : List ℕ) → length b ≡ n → drop n b ≡ []
drop_all zero [] e = refl
drop_all zero (x ∷ b) e = absurd (omega arith)
drop_all (suc n) [] e = refl
drop_all (suc n) (x ∷ b) e = drop_all n b (omega arith)

length-snoc : (l : List ℕ) (c : ℕ) → length (l ++ (c ∷ [])) ≡ suc (length l)
length-snoc l c = omega (arith, length-append l (c ∷ []))

module _ {s : Shell} {l : List ℕ} (t : Terminal) (v : IsLine s l) where
  zeros : s.input_buffer ≡ l ++ (0 ∷ blank_bytes (shell_buffer_size - length l - 1))
  zeros =
      v.buffer
      ∙ ap (λ ys. l ++ ys) (replicate_pred (shell_buffer_size - length l) (omega (arith, v.short)))

  set_end :
      (c : ℕ)
      → set s.input_buffer s.buffer_pos c
        ≡ l ++ (c ∷ blank_bytes (shell_buffer_size - length l - 1))
  set_end c =
      rw (zeros, v.at_end) (set-append l 0 (blank_bytes (shell_buffer_size - length l - 1)) c)

  -- A printable character that is typed joins the end of the line, and is dropped when the line has
  -- 255.
  pub type_char-IsLine :
      (c : ℕ)
      → printable c ≡ true
      → IsLine (type_char c s t).0 (if ltb (length l) 255 then l ++ (c ∷ []) else l)
  unfolding type_char
  type_char-IsLine c p = elim (Bool-cases (ltb (length l) 255)) [
    | inl e ↦
        let small : ltb s.buffer_pos 255 ≡ true = ap (λ n. ltb n 255) v.at_end ∙ e in
        rw (small, e)
          (record {
            buffer =
                set_end c
                ∙ sym (append_assoc l (c ∷ []) (blank_bytes (shell_buffer_size - length l - 1)))
                ∙ ap (λ n. (l ++ (c ∷ [])) ++ blank_bytes n) (omega (arith, length-snoc l c));
            at_end = omega (arith, v.at_end, length-snoc l c);
            short = ground (arith, length-snoc l c);
            chars = all_printable-snoc l c v.chars p;
          })
    | inr e ↦
        let full : ltb s.buffer_pos 255 ≡ false = ap (λ n. ltb n 255) v.at_end ∙ e in rw (full, e) v
  ]

  -- Backspace takes the last character of the line, and does nothing to an empty line.
  pub shell_backspace-IsLine :
      (l' : List ℕ) (c : ℕ) → l ≡ l' ++ (c ∷ []) → IsLine (shell_backspace s t).0 l'
  unfolding shell_backspace
  shell_backspace-IsLine l' c e =
      let len : length l ≡ suc (length l') = ap length e ∙ length-snoc l' c in
      let there : ltb 0 s.buffer_pos ≡ true = ground (arith, v.at_end, len) in
      let pos : s.buffer_pos - 1 ≡ length l' = omega (arith, v.at_end, len) in
      let whole : s.input_buffer ≡ l' ++ (c ∷ blank_bytes (shell_buffer_size - length l)) =
        v.buffer
        ∙ ap (λ k. k ++ blank_bytes (shell_buffer_size - length l)) e
        ∙ append_assoc l' (c ∷ []) (blank_bytes (shell_buffer_size - length l)) in
      rw there (record {
        buffer =
            ap (λ b. set b (s.buffer_pos - 1) 0) whole
            ∙ ap (λ n. set (l' ++ (c ∷ blank_bytes (shell_buffer_size - length l))) n 0) pos
            ∙ set-append l' c (blank_bytes (shell_buffer_size - length l)) 0
            ∙ ap (λ n. l' ++ blank_bytes n) {x = suc (shell_buffer_size - length l)}
                (omega (arith, len, v.short));
        at_end = pos;
        short = omega (arith, len, v.short);
        chars = all_printable-front l' c (ap all_printable (sym e) ∙ v.chars);
      })

  pub shell_backspace-nil : l ≡ [] → shell_backspace s t ≡ (s, t)
  unfolding shell_backspace
  shell_backspace-nil e =
      let none_there : ltb 0 s.buffer_pos ≡ false = ground (arith, v.at_end, ap length e) in
      rw none_there refl

clear_loop_lem : (n : ℕ) (b : List ℕ) → n ≤ length b → clear_loop n b ≡ blank_bytes n ++ drop n b
unfolding clear_loop
clear_loop_lem zero b le = refl
clear_loop_lem (suc n) b le =
    let (y, e) = drop_cons n b (omega arith) in
    ap (λ xs. set xs n 0) (clear_loop_lem n b (omega arith) ∙ ap (λ ys. blank_bytes n ++ ys) e)
    ∙ ap (λ k. set (blank_bytes n ++ (y ∷ drop (suc n) b)) k 0) (sym (length-replicate n))
    ∙ set-append (blank_bytes n) y (drop (suc n) b) 0
    ∙ replicate_snoc n (drop (suc n) b)

-- Whatever the buffer of 256 bytes held, `shell_clear_buffer` leaves an empty line.
pub shell_clear_buffer-IsLine :
    (s : Shell) → length s.input_buffer ≡ shell_buffer_size → IsLine (shell_clear_buffer s) []
unfolding shell_clear_buffer
shell_clear_buffer-IsLine s h = record {
  buffer =
      clear_loop_lem 256 s.input_buffer (omega (arith, h))
      ∙ ap (λ ys. blank_bytes 256 ++ ys) (drop_all 256 s.input_buffer h)
      ∙ append-nil (blank_bytes 256);
  at_end = refl;
  short = omega arith;
  chars = refl;
}

pub IsLine-length :
    {s : Shell} {l : List ℕ} → IsLine s l → length s.input_buffer ≡ shell_buffer_size
IsLine-length {s} {l} v =
    ap length v.buffer
    ∙ length-append l (blank_bytes (shell_buffer_size - length l))
    ∙ omega (arith, length-replicate (shell_buffer_size - length l), v.short)

-- From a column behind the first, the cursor goes back by one in its row, and the cell it comes to
-- is blank.
pub erase_lem :
    {t : Terminal}
    → OnScreen t
    → 0 < t.column
    → ((erase t).row ≡ t.row)
      × ((erase t).column ≡ t.column - 1)
      × ((erase t).cells (t.row * vga_width + (t.column - 1)) ≡ vga_entry b' ' t.color)
unfolding erase
erase_lem {t} on behind =
    let there : ltb 0 t.column ≡ true = ground arith in
    let back : sub32 t.column 1 ≡ t.column - 1 = omega (arith, on.column) in
    let (r, c, w) = putchar_inside (step_back t) b' ' refl (omega (arith, on.column, back)) in
    rw there (
      r,
      omega (arith, on.column, back, c),
      ap (λ k. (terminal_putchar b' ' (step_back t)).cells (t.row * vga_width + k)) (sym back) ∙ w,
    )

erase-Shown : {t : Terminal} → OnScreen t → Shown t (erase t)
unfolding erase
erase-Shown {t} on = elim (Bool-cases (ltb 0 t.column)) [
  | inl e ↦
      let (r, c, _) = erase_lem on (ground arith) in
      let far : 0 < t.column = ground arith in
      let back : OnScreen (step_back t) = record {
        row = on.row;
        column = omega (arith, on.column, far);
      } in
      record {
        cursor = record { row = omega (arith, r, on.row); column = omega (arith, c, on.column) };
        beyond = λ i le. rw e (putchar-beyond b' ' i back le);
      }
  | inr e ↦ rw e (record { cursor = on; beyond = λ i le. refl })
]

-- Both editing functions leave the cursor on the screen.
pub shell_backspace-Shown :
    (s : Shell) {t : Terminal} → OnScreen t → Shown t (shell_backspace s t).1
unfolding shell_backspace
shell_backspace-Shown s {t} on = elim (Bool-cases (ltb 0 s.buffer_pos)) [
  | inl e ↦ rw e (erase-Shown on)
  | inr e ↦ rw e (record { cursor = on; beyond = λ i le. refl })
]

pub type_char-Shown : (c : ℕ) (s : Shell) {t : Terminal} → OnScreen t → Shown t (type_char c s t).1
unfolding type_char
type_char-Shown c s {t} on = elim (Bool-cases (ltb s.buffer_pos 255)) [
  | inl e ↦ elim (Bool-cases s.echo_enabled) [
    | inl e' ↦
        rw (e, e')
          (record { cursor = putchar-OnScreen c on; beyond = λ i le. putchar-beyond c i on le })
    | inr e' ↦ rw (e, e') (record { cursor = on; beyond = λ i le. refl })
  ]
  | inr e ↦ rw e (record { cursor = on; beyond = λ i le. refl })
]

pub keyboard_state-type_char :
    (c : ℕ) (s : Shell) (t : Terminal) → (type_char c s t).0.keyboard_state ≡ s.keyboard_state
unfolding type_char
keyboard_state-type_char c s t = ground arith
