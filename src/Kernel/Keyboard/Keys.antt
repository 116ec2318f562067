-- ===== src/Kernel/Keyboard/Keys.antt =====
-- Every printable character has a key: the scan codes that spell a line, and the line that they leave.
use Prim.Native.Nat.{bit_and, bit_or}
use minicore_os.Base.{
  ℕ, zero, suc, ◌+◌, ◌-◌, ◌^◌, wrap8, ◌≡◌, ◌<◌, refl, Bool, true, false, not, ◌&&◌, List, [], ◌∷◌,
  ◌++◌, ltb, lt→ltb, ◌==◌, ==_iff, if◌then◌else◌, arith, Bool-cases, inl, inr, ap, ◌∙◌, sym, subst,
  length, length-append, append_assoc, append-nil, Outcome, done, fault, out_of_fuel,
}
use minicore_os.Shell.{Shell, scancode_ascii, scancode_ascii_shift, scancode_to_ascii, type_char}
use minicore_os.Shell.Edit.{
  IsLine, type_char-IsLine, keyboard_state-type_char, printable, all_printable,
}
use minicore_os.Kernel.{Kernel, Machine, Flow, next, halted, ◌▸◌}
use minicore_os.Kernel.Keyboard.{
  is_shift, key_enter, key_lctrl, key_backspace, release_flag, press_flag, key_up, type_key,
  key_down, handle_key, shell_process_input,
}

-- the first place of a character in a table, or the table's length
position : ℕ → List ℕ → ℕ
position c [] = 0
position c (x ∷ xs) = let rest = position c xs in if x == c then 0 else suc rest

plain_key : ℕ → ℕ
plain_key c = position c scancode_ascii

shift_key : ℕ → ℕ
shift_key c = position c scancode_ascii_shift

is_plain : ℕ → Bool
is_plain c = ltb (plain_key c) (length scancode_ascii)

-- The scan codes of a character: its key, or its key while the left shift key is held.
pub keys : ℕ → List ℕ
keys c = if is_plain c then plain_key c ∷ [] else 0x2A ∷ shift_key c ∷ 0xAA ∷ []

pub spell : List ℕ → List ℕ
spell [] = []
spell (c ∷ cs) = keys c ++ spell cs

-- A sequence of scan codes, each handled when the one before it has been.
pub handle_keys : Machine → List ℕ → Kernel → Outcome Flow
handle_keys hw [] k = done (next k)
handle_keys hw (scancode ∷ more) k = handle_key hw scancode k ▸ handle_keys hw more

▸-next : (o : Outcome Flow) → (o ▸ λ k. done (next k)) ≡ o
▸-next (done (next k)) = refl
▸-next (done (halted k)) = refl
▸-next fault = refl
▸-next out_of_fuel = refl

pub handle_keys_last :
    (hw : Machine) (scancode : ℕ) (k : Kernel)
    → handle_keys hw (scancode ∷ []) k ≡ handle_key hw scancode k
unfolding handle_keys
handle_keys_last hw scancode k = ▸-next (handle_key hw scancode k)

-- The key `i` gives the character `c`, and is none of the keys with a meaning of their own.
types : (i shift c : ℕ) → Bool
types i shift c =
    scancode_to_ascii i shift == c
    && not (i == 0)
    && bit_and i 0x80 == 0
    && not (is_shift i)
    && not (i == key_lctrl)
    && not (i == key_enter)
    && not (i == key_backspace)

has_key : ℕ → Bool
has_key c = if is_plain c then types (plain_key c) 0 c else types (shift_key c) 1 c

-- every character under the bound `b` either cannot be typed or has a key
keys_up_to : ℕ → Bool
keys_up_to zero = true
keys_up_to (suc b) =
    let rest = keys_up_to b in if printable b then (if has_key b then rest else false) else rest

keys_up_to-has_key :
    (b : ℕ) {c : ℕ} → keys_up_to b ≡ true → printable c ≡ true → c < b → has_key c ≡ true
unfolding keys_up_to
keys_up_to-has_key zero ok p under = absurd (omega arith)
keys_up_to-has_key (suc b) {c} ok p under = elim (Bool-cases (c == b)) [
  | inl same ↦
      subst (λ d. has_key d ≡ true) (sym ((==_iff c b).0 same))
        (key_of_last b (subst (λ d. printable d ≡ true) ((==_iff c b).0 same) p) ok)
  | inr other ↦ keys_up_to-has_key b (keys_below b ok) p (ground arith)
]
  where
    key_of_last : (b : ℕ) → printable b ≡ true → keys_up_to (suc b) ≡ true → has_key b ≡ true
    key_of_last b p ok = ground arith

    keys_below : (b : ℕ) → keys_up_to (suc b) ≡ true → keys_up_to b ≡ true
    keys_below b ok = ground arith

keyboard_is_complete : keys_up_to 127 ≡ true
unfolding keys_up_to has_key is_plain plain_key shift_key position types scancode_to_ascii
keyboard_is_complete = refl

printable-has_key : (c : ℕ) → printable c ≡ true → has_key c ≡ true
printable-has_key c p = keys_up_to-has_key 127 keyboard_is_complete p (ground arith)

-- What typing a character does.
abbrev pub with_char : ℕ → Kernel → Kernel
with_char c k = let (s, t) = type_char c k.shell k.terminal in record k { shell = s; terminal = t }

handle_key-types :
    (hw : Machine) (i shift c : ℕ) (k : Kernel)
    → types i shift c ≡ true
    → printable c ≡ true
    → bit_and k.shell.keyboard_state 1 ≡ shift
    → handle_key hw i k ≡ done (next (with_char c k))
unfolding types handle_key key_down type_key shell_process_input
handle_key-types hw i shift c k t p held =
    let ascii : scancode_to_ascii i shift ≡ c = ground arith in
    let some_key : (i == 0) ≡ false = ground arith in
    let pressed : (bit_and i 0x80 == 0) ≡ true = ground arith in
    let no_shift : is_shift i ≡ false = ground arith in
    let no_ctrl : (i == key_lctrl) ≡ false = ground arith in
    let no_enter : (i == key_enter) ≡ false = ground arith in
    let no_backspace : (i == key_backspace) ≡ false = ground arith in
    let some_char : (c == 0) ≡ false = ground arith in
    let no_newline : (c == b'\n') ≡ false = ground arith in
    rw
      (
        some_key, pressed, no_shift, no_ctrl, no_enter, no_backspace, held, ascii, some_char,
        no_newline, p,
      )
      refl

-- No modifier key is held.
abbrev pub Free : Kernel → Type 0
Free k = k.shell.keyboard_state ≡ 0

-- the left shift key, pressed and released
shift_down :
    (hw : Machine) (k : Kernel)
    → Free k
    → handle_key hw 0x2A k
      ≡ done (next (record k { shell = record k.shell { keyboard_state = 1 } }))
unfolding handle_key key_down press_flag
shift_down hw k e =
    ap
      (λ n.
        done (next (record k { shell = record k.shell { keyboard_state = wrap8 (bit_or n 1) } })))
      e

shift_up :
    (hw : Machine) (k : Kernel)
    → k.shell.keyboard_state ≡ 1
    → handle_key hw 0xAA k
      ≡ done (next (record k { shell = record k.shell { keyboard_state = 0 } }))
unfolding handle_key key_up release_flag
shift_up hw k e =
    ap
      (λ n. done (
        next (record k {
          shell = record k.shell { keyboard_state = wrap8 (bit_and n (2 ^ 32 - 1 - 1)) };
        })))
      e

-- Only the screen and the shell differ.
abbrev pub SameRest : Kernel → Kernel → Type 0
SameRest k k' = k' ≡ record k { terminal = k'.terminal; shell = k'.shell }

pub SameRest-trans : (k k' k'' : Kernel) → SameRest k k' → SameRest k' k'' → SameRest k k''
SameRest-trans k k' k'' e e' =
    e' ∙ ap (λ (x : Kernel). record x { terminal = k''.terminal; shell = k''.shell }) e

-- The line has been typed, and no modifier key is held.
pub record Typed (k k' : Kernel) (l : List ℕ) : Type 0 where
  pub line : IsLine k'.shell l
  pub free : Free k'
  pub rest : SameRest k k'

-- The modifier keys are no part of the line.
held-IsLine :
    {s : Shell} {l : List ℕ} (n : ℕ) → IsLine s l → IsLine (record s { keyboard_state = n }) l
held-IsLine n v = record { buffer = v.buffer; at_end = v.at_end; short = v.short; chars = v.chars }

with_char-IsLine :
    (c : ℕ) (k : Kernel) {l : List ℕ}
    → IsLine k.shell l
    → printable c ≡ true
    → length l < 255
    → IsLine (with_char c k).shell (l ++ c ∷ [])
with_char-IsLine c k {l} v p room =
    subst (IsLine (with_char c k).shell) (rw (lt→ltb (length l) 255 room) refl)
      (type_char-IsLine k.terminal v c p)

plain_types : (c : ℕ) → printable c ≡ true → is_plain c ≡ true → types (plain_key c) 0 c ≡ true
unfolding has_key
plain_types c p e = ground (arith, printable-has_key c p)

shift_types : (c : ℕ) → printable c ≡ true → is_plain c ≡ false → types (shift_key c) 1 c ≡ true
unfolding has_key
shift_types c p e = ground (arith, printable-has_key c p)

-- The keys of a character add it to the line.
handle_keys-keys :
    (hw : Machine) (c : ℕ) (more : List ℕ) (k : Kernel) {l : List ℕ}
    → IsLine k.shell l
    → Free k
    → printable c ≡ true
    → length l < 255
    → (k' : Kernel) × (handle_keys hw (keys c ++ more) k ≡ handle_keys hw more k')
      × Typed k k' (l ++ c ∷ [])
unfolding handle_keys keys
handle_keys-keys hw c more k {l} v free p room = elim (Bool-cases (is_plain c)) [
  | inl e ↦
      let step =
        handle_key-types hw (plain_key c) 0 c k (plain_types c p e) p
          (ap (λ n. bit_and n 1) free) in
      (
        with_char c k,
        rw e (ap (λ (o : Outcome Flow). o ▸ handle_keys hw more) step),
        record {
          line = with_char-IsLine c k v p room;
          free = keyboard_state-type_char c k.shell k.terminal ∙ free;
          rest = refl;
        },
      )
  | inr e ↦
      let k1 : Kernel = record k { shell = record k.shell { keyboard_state = 1 } } in
      let k2 = with_char c k1 in
      let k3 : Kernel = record k2 { shell = record k2.shell { keyboard_state = 0 } } in
      let held = keyboard_state-type_char c k1.shell k1.terminal in
      let step = handle_key-types hw (shift_key c) 1 c k1 (shift_types c p e) p refl in
      (
        k3,
        rw e (
            ap (λ (o : Outcome Flow). o ▸ handle_keys hw (shift_key c ∷ 0xAA ∷ more))
              (shift_down hw k free)
            ∙ ap (λ (o : Outcome Flow). o ▸ handle_keys hw (0xAA ∷ more)) step
            ∙ ap (λ (o : Outcome Flow). o ▸ handle_keys hw more) (shift_up hw k2 held)),
        record {
          line = held-IsLine 0 (with_char-IsLine c k1 (held-IsLine 1 v) p room);
          free = refl;
          rest = refl;
        },
      )
]

spell_from :
    (hw : Machine) (cs more : List ℕ) (k : Kernel) {l : List ℕ}
    → IsLine k.shell l
    → Free k
    → all_printable cs ≡ true
    → length l + length cs < 256
    → (k' : Kernel) × (handle_keys hw (spell cs ++ more) k ≡ handle_keys hw more k')
      × Typed k k' (l ++ cs)
unfolding spell
spell_from hw [] more k {l} v free ps room = (
  k,
  refl,
  record { line = subst (IsLine k.shell) (sym (append-nil l)) v; free = free; rest = refl },
)
spell_from hw (c ∷ cs) more k {l} v free ps room =
    let p : printable c ≡ true = ground arith in
    let ps' : all_printable cs ≡ true = ground arith in
    let (k1, e1, t1) = handle_keys-keys hw c (spell cs ++ more) k v free p (omega arith) in
    let (k2, e2, t2) =
      spell_from hw cs more k1 t1.line t1.free ps' (omega (arith, length-append {0} l (c ∷ []))) in
    (
      k2,
      ap (λ ss. handle_keys hw ss k) (append_assoc (keys c) (spell cs) more) ∙ e1 ∙ e2,
      record {
        line = subst (IsLine k2.shell) (append_assoc l (c ∷ []) cs) t2.line;
        free = t2.free;
        rest = SameRest-trans k k1 k2 t1.rest t2.rest;
      },
    )

-- From an empty line on and with no modifier key held, the scan codes of a line of at most 255 printable
-- characters leave exactly that line in the editor, and change nothing but the screen and the shell.
pub handle_keys-spell :
    (hw : Machine) (l more : List ℕ) (k : Kernel)
    → IsLine k.shell []
    → Free k
    → all_printable l ≡ true
    → length l < 256
    → (k' : Kernel) × (handle_keys hw (spell l ++ more) k ≡ handle_keys hw more k') × Typed k k' l
handle_keys-spell hw l more k v free ps room = spell_from hw l more k v free ps (omega arith)
