-- ===== src/Terminal/Number.antt =====
-- The numbers that `terminal_write_dec` and `terminal_write_hex` of kernel.c print.
use minicore_os.Base.{
  ℕ, zero, suc, ◌+◌, ◌-◌, ◌*◌, ◌/◌, ◌%◌, ◌^◌, ◌≡◌, ◌<◌, ◌≤◌, refl, false, List, [], ◌∷◌, ltb, ◌==◌,
  if◌then◌else◌, length, arith, Bool-cases, inl, inr, ap, ◌∙◌, sym, subst, done, ◌⊎◌,
}
use minicore_os.Terminal.{
  Terminal, terminal_write, terminal_writestring, string_bytes, hex_digit, hex_loop,
  terminal_write_hex, dec_loop, terminal_write_dec,
}

-- The number that decimal digits spell behind a number `a`.
abbrev pub read_dec : ℕ → List ℕ → ℕ
read_dec a [] = a
read_dec a (d ∷ ds) = read_dec (a * 10 + (d - 48)) ds

abbrev pub hex_value : ℕ → ℕ
hex_value d = if ltb d 58 then d - 48 else d - 55

-- The number that hexadecimal digits spell behind a number `a`.
abbrev pub read_hex : ℕ → List ℕ → ℕ
read_hex a [] = a
read_hex a (d ∷ ds) = read_hex (a * 16 + hex_value d) ds

-- the bytes of the digits 0 to 9
abbrev pub IsDigits : List ℕ → Type 0
IsDigits [] = Unit
IsDigits (d ∷ ds) = (48 ≤ d) × (d ≤ 57) × IsDigits ds

-- a first digit that is not 0
abbrev pub Leads : List ℕ → Type 0
Leads [] = ⊥
Leads (d ∷ ds) = 48 < d

-- A decimal number: digits, the first of which is 0 only where it is the whole number.
abbrev pub IsDecimal : List ℕ → Type 0
IsDecimal ds = IsDigits ds × (Leads ds ⊎ (ds ≡ 48 ∷ []))

-- b to the power n
abbrev power : ℕ → ℕ → ℕ
power b zero = 1
power b (suc n) = b * power b n

Leads-on :
    {rest : ℕ} (d : ℕ) (ds ds' : List ℕ)
    → Leads ds' ⊎ ((rest ≡ 0) × (ds' ≡ (48 + d) ∷ ds))
    → (rest ≡ 0 → 0 < d)
    → Leads ds'
Leads-on d ds ds' (inl l) pos = l
Leads-on d ds ds' (inr (z, e)) pos = let lt = pos z in subst Leads (sym e) (omega arith)

dec_loop_lem :
    (n value : ℕ) (ds : List ℕ)
    → value < power 10 n
    → IsDigits ds
    → (ds' : List ℕ) × (dec_loop n value ds ≡ done ds')
      × (read_dec 0 ds' ≡ read_dec value ds)
      × (length ds' ≤ n + length ds)
      × IsDigits ds'
      × (Leads ds' ⊎ ((value ≡ 0) × (ds' ≡ ds)))
unfolding dec_loop
dec_loop_lem zero value ds lt digits =
    let z : value ≡ 0 = omega arith in
    (ds, ground arith, ap (λ v. read_dec v ds) (sym z), omega arith, digits, inr (z, refl))
dec_loop_lem (suc n) value ds lt digits = elim (Bool-cases (value == 0)) [
  | inl e ↦
      let z : value ≡ 0 = ground arith in
      (ds, rw e refl, ap (λ v. read_dec v ds) (sym z), omega arith, digits, inr (z, refl))
  | inr e ↦
      let (ds', e', r, l, digits', first) =
        dec_loop_lem n (value / 10) ((48 + value % 10) ∷ ds) (omega arith)
          (omega arith, omega arith, digits) in
      (
        ds',
        rw e e',
        r ∙ ap (λ v. read_dec v ds) (omega arith),
        omega arith,
        digits',
        inl (Leads-on (value % 10) ds ds' first (ground arith)),
      )
]

-- `terminal_write_dec` of a 32-bit value ends, and prints the decimal number of the value: bytes of
-- digits that spell it, with no 0 in front. They are no more than 10, which its buffer of 11 bytes
-- holds.
pub terminal_write_dec_lem :
    (value : ℕ) (t : Terminal)
    → value < 2 ^ 32
    → (ds : List ℕ) × (terminal_write_dec value t ≡ done (terminal_write ds t))
      × (read_dec 0 ds ≡ value)
      × IsDecimal ds
      × (length ds ≤ 10)
unfolding terminal_write_dec terminal_write
terminal_write_dec_lem value t lt = elim (Bool-cases (value == 0)) [
  | inl e ↦
      (48 ∷ [], rw e refl, ground arith, ((omega arith, omega arith, tt), inr refl), omega arith)
  | inr e ↦
      let (ds, e', r, l, digits, first) = dec_loop_lem 10 value [] (omega arith) tt in
      let leads : Leads ds = elim first [ inl l ↦ l | inr (z, _) ↦ absurd (ground arith) ] in
      (ds, rw (e, e') refl, r, (digits, inl leads), l)
]

hex_digit_lem : (d : ℕ) → d < 16 → (hex_value (hex_digit d) ≡ d) × ((hex_digit d == 0) ≡ false)
unfolding hex_digit
hex_digit_lem d lt = ground arith

hex_loop_lem :
    (n value : ℕ) (ds : List ℕ)
    → value < power 16 n
    → (read_hex 0 (hex_loop n value ds) ≡ read_hex value ds)
      × (length (hex_loop n value ds) ≡ n + length ds)
unfolding hex_loop
hex_loop_lem zero value ds lt = (ap (λ v. read_hex v ds) (omega arith), omega arith)
hex_loop_lem (suc n) value ds lt =
    let (r, l) = hex_loop_lem n (value / 16) (hex_digit (value % 16) ∷ ds) (omega arith) in
    let (h, _) = hex_digit_lem (value % 16) (omega arith) in
    (r ∙ ap (λ v. read_hex v ds) (omega (arith, h)), omega arith)

string_bytes-hex_loop :
    (n value : ℕ) (ds : List ℕ)
    → string_bytes ds ≡ ds
    → string_bytes (hex_loop n value ds) ≡ hex_loop n value ds
unfolding hex_loop string_bytes
string_bytes-hex_loop zero value ds e = e
string_bytes-hex_loop (suc n) value ds e =
    let (_, nz) = hex_digit_lem (value % 16) (omega arith) in
    string_bytes-hex_loop n (value / 16) (hex_digit (value % 16) ∷ ds)
      (rw nz (ap (λ r. hex_digit (value % 16) ∷ r) e))

-- `terminal_write_hex` of a 32-bit value prints exactly 8 hexadecimal digits, which spell the value.
pub terminal_write_hex_lem :
    (value : ℕ) (t : Terminal)
    → value < 2 ^ 32
    → (ds : List ℕ) × (terminal_write_hex value t ≡ terminal_write ds t)
      × (read_hex 0 ds ≡ value)
      × (length ds ≡ 8)
unfolding terminal_write_hex terminal_writestring string_bytes
terminal_write_hex_lem value t lt =
    let (r, l) = hex_loop_lem 8 value [] (omega arith) in
    (
      hex_loop 8 value [],
      ap (λ s. terminal_write s t) (string_bytes-hex_loop 8 value [] refl),
      r,
      l,
    )
