-- ===== src/Terminal/Cells.antt =====
-- The cells of the screen: the loops that blank and copy rows, and `terminal_scroll_up`.
use minicore_os.Base.{
  ℕ, zero, suc, ◌+◌, ◌-◌, ◌*◌, ◌≡◌, ◌≢◌, ◌⊎◌, ◌<◌, ◌≤◌, refl, ltb, ◌==◌, if◌then◌else◌, arith,
  Bool-cases, inl, inr, ap, ◌∙◌, sym, subst,
}
use minicore_os.Terminal.{
  Terminal, vga_width, vga_height, vga_entry, put, blank_row, blank_rows, copy_row, copy_rows,
  terminal_scroll_up,
}

pub put_self : (c : ℕ → ℕ) (i v : ℕ) → put c i v i ≡ v
unfolding put
put_self c i v = ground arith

pub put_ne : (c : ℕ → ℕ) (i v j : ℕ) → j ≢ i → put c i v j ≡ c j
unfolding put
put_ne c i v j ne = ground arith

blank_row-cell :
    (n y color : ℕ) (c : ℕ → ℕ) (x : ℕ)
    → x < n
    → blank_row n y color c (y * vga_width + x) ≡ vga_entry 32 color
unfolding blank_row
blank_row-cell zero y color c x lt = absurd (omega arith)
blank_row-cell (suc n) y color c x lt = elim (Bool-cases (x == n)) [
  | inl e ↦
      ap
        (λ k.
          put (blank_row n y color c) (y * vga_width + n) (vga_entry 32 color) (y * vga_width + k))
        (ground arith)
      ∙ put_self (blank_row n y color c) (y * vga_width + n) (vga_entry 32 color)
  | inr e ↦
      put_ne (blank_row n y color c) (y * vga_width + n) (vga_entry 32 color) (y * vga_width + x)
        (ground arith)
      ∙ blank_row-cell n y color c x (ground arith)
]

blank_row-outside :
    (n y color : ℕ) (c : ℕ → ℕ) (i : ℕ)
    → (i < y * vga_width) ⊎ (y * vga_width + n ≤ i)
    → blank_row n y color c i ≡ c i
unfolding blank_row
blank_row-outside zero y color c i h = refl
blank_row-outside (suc n) y color c i h =
    put_ne (blank_row n y color c) (y * vga_width + n) (vga_entry 32 color) i (omega arith)
    ∙ blank_row-outside n y color c i (ground arith)

pub blank_rows-cell :
    (n color : ℕ) (c : ℕ → ℕ) (i : ℕ)
    → i < n * vga_width
    → blank_rows n color c i ≡ vga_entry 32 color
unfolding blank_rows
blank_rows-cell zero color c i lt = absurd (omega arith)
blank_rows-cell (suc n) color c i lt = elim (Bool-cases (ltb i (n * vga_width))) [
  | inl e ↦
      blank_row-outside vga_width n color (blank_rows n color c) i (inl (ground arith))
      ∙ blank_rows-cell n color c i (ground arith)
  | inr e ↦
      let at : n * vga_width + (i - n * vga_width) ≡ i = ground arith in
      ap (blank_row vga_width n color (blank_rows n color c)) (sym at)
      ∙ blank_row-cell vga_width n color (blank_rows n color c) (i - n * vga_width) (ground arith)
]

copy_row-outside :
    (n y : ℕ) (c : ℕ → ℕ) (i : ℕ)
    → (i < y * vga_width) ⊎ (y * vga_width + n ≤ i)
    → copy_row n y c i ≡ c i
unfolding copy_row
copy_row-outside zero y c i h = refl
copy_row-outside (suc n) y c i h =
    put_ne (copy_row n y c) (y * vga_width + n) (copy_row n y c ((y + 1) * vga_width + n)) i
      (omega arith)
    ∙ copy_row-outside n y c i (ground arith)

copy_row-cell :
    (n y : ℕ) (c : ℕ → ℕ) (x : ℕ)
    → x < n
    → n ≤ vga_width
    → copy_row n y c (y * vga_width + x) ≡ c ((y + 1) * vga_width + x)
unfolding copy_row
copy_row-cell zero y c x lt le = absurd (omega arith)
copy_row-cell (suc n) y c x lt le = elim (Bool-cases (x == n)) [
  | inl e ↦
      let same : x ≡ n = ground arith in
      subst (λ k. copy_row (suc n) y c (y * vga_width + k) ≡ c ((y + 1) * vga_width + k)) (sym same)
        (put_self (copy_row n y c) (y * vga_width + n) (copy_row n y c ((y + 1) * vga_width + n))
          ∙ copy_row-outside n y c ((y + 1) * vga_width + n) (inr (omega arith)))
  | inr e ↦
      put_ne (copy_row n y c) (y * vga_width + n) (copy_row n y c ((y + 1) * vga_width + n))
        (y * vga_width + x) (ground arith)
      ∙ copy_row-cell n y c x (ground arith) (omega arith)
]

-- After `n` rows the cells of these rows are those of the rows below, and the others are as before.
copy_rows-cell :
    (n : ℕ) (c : ℕ → ℕ) (i : ℕ)
    → copy_rows n c i ≡ (if ltb i (n * vga_width) then c (i + vga_width) else c i)
unfolding copy_rows
copy_rows-cell zero c i = ground arith
copy_rows-cell (suc n) c i = elim (Bool-cases (ltb i (n * vga_width))) [
  | inl e ↦
      copy_row-outside vga_width n (copy_rows n c) i (inl (ground arith))
      ∙ copy_rows-cell n c i
      ∙ ground arith
  | inr e ↦ elim (Bool-cases (ltb i (suc n * vga_width))) [
    | inl f ↦
        let x = i - n * vga_width in
        let at : n * vga_width + x ≡ i = ground arith in
        let below : (n + 1) * vga_width + x ≡ i + vga_width = omega (arith, at) in
        ap (copy_row vga_width n (copy_rows n c)) (sym at)
        ∙ copy_row-cell vga_width n (copy_rows n c) x (ground arith) (omega arith)
        ∙ ap (copy_rows n c) below
        ∙ copy_rows-cell n c (i + vga_width)
        ∙ ground arith
    | inr f ↦
        copy_row-outside vga_width n (copy_rows n c) i (inr (ground arith))
        ∙ copy_rows-cell n c i
        ∙ ground arith
  ]
]

-- The cell in column `x` of row `y`.
abbrev pub cell : Terminal → ℕ → ℕ → ℕ
cell t x y = t.cells (y * vga_width + x)

-- `t'` is the screen `t` with its rows moved up by one.
pub record Scrolled (t t' : Terminal) : Type 0 where
  pub moved : (x y : ℕ) → x < vga_width → y + 1 < vga_height → cell t' x y ≡ cell t x (y + 1)
  pub last : (x : ℕ) → x < vga_width → cell t' x 24 ≡ vga_entry 32 t.color
  pub beyond : (i : ℕ) → vga_height * vga_width ≤ i → t'.cells i ≡ t.cells i
  pub cursor : (t'.row ≡ t.row) × (t'.column ≡ t.column) × (t'.color ≡ t.color)

-- `terminal_scroll_up` moves each row of the screen up by one, drops the first and blanks the last
-- in the current color; it writes no cell behind the screen, and leaves the cursor and the color.
pub terminal_scroll_up_lem : (t : Terminal) → Scrolled t (terminal_scroll_up t)
unfolding terminal_scroll_up
terminal_scroll_up_lem t = record {
  moved = λ x y lx ly.
      blank_row-outside vga_width (vga_height - 1) t.color (copy_rows (vga_height - 1) t.cells)
        (y * vga_width + x) (inl (omega arith))
      ∙ copy_rows-cell 24 t.cells (y * vga_width + x)
      ∙ pick (y * vga_width + x) (omega arith)
      ∙ ap t.cells (omega arith);
  last = λ x lx. blank_row-cell vga_width 24 t.color (copy_rows (vga_height - 1) t.cells) x lx;
  beyond = λ i le.
      blank_row-outside vga_width (vga_height - 1) t.color (copy_rows (vga_height - 1) t.cells) i
        (inr (omega arith))
      ∙ copy_rows-cell 24 t.cells i
      ∙ ground arith;
  cursor = (refl, refl, refl);
}
  where
    pick :
        (i : ℕ)
        → i < 24 * 80
        → (if ltb i (24 * vga_width) then t.cells (i + vga_width) else t.cells i) ≡ t.cells (i + 80)
    pick i lt = ground arith
