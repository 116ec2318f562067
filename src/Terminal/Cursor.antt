-- ===== src/Terminal/Cursor.antt =====
-- The cursor and the cells of the terminal of kernel.c: what `terminal_putchar` and scrolling write.
use minicore_os.Base.{
  false, ℕ, ◌+◌, ◌*◌, ◌≡◌, ◌<◌, ◌≤◌, refl, List, [], ◌∷◌, ◌==◌, arith, Bool-cases, inl, inr, ◌∙◌,
}
use minicore_os.Terminal.{
  Terminal, vga_width, vga_height, vga_entry, terminal_scroll_up, new_line, advance,
  terminal_putentryat, terminal_putchar, terminal_write, terminal_writestring, terminal_initialize,
  terminal_clear, string_bytes, vga_entry_color,
}
use minicore_os.Terminal.Cells.{put_self, put_ne, blank_rows-cell, terminal_scroll_up_lem}

-- The cursor is on the screen.
pub record OnScreen (t : Terminal) : Type 0 where
  pub row : t.row < vga_height
  pub column : t.column < vga_width

new_line-OnScreen : (t : Terminal) → t.row < vga_height → OnScreen (new_line t)
unfolding new_line terminal_scroll_up
new_line-OnScreen t lt = elim (Bool-cases (t.row + 1 == vga_height)) [
  | inl e ↦ rw e (record { row = omega arith; column = omega arith })
  | inr e ↦ rw e (record { row = ground arith; column = omega arith })
]

new_line-beyond :
    (t : Terminal) (i : ℕ) → vga_height * vga_width ≤ i → (new_line t).cells i ≡ t.cells i
unfolding new_line
new_line-beyond t i le = elim (Bool-cases (t.row + 1 == vga_height)) [
  | inl e ↦
      let s = terminal_scroll_up_lem (record t { column = 0; row = t.row + 1 }) in
      rw e (s.beyond i le)
  | inr e ↦ rw e refl
]

pub putchar-OnScreen : {t : Terminal} (ch : ℕ) → OnScreen t → OnScreen (terminal_putchar ch t)
unfolding terminal_putchar advance terminal_putentryat
putchar-OnScreen {t} ch v = elim (Bool-cases (ch == 10)) [
  | inl e ↦ rw e (new_line-OnScreen t v.row)
  | inr e ↦ elim (Bool-cases (t.column + 1 == vga_width)) [
    | inl f ↦ rw (e, f) (new_line-OnScreen (terminal_putentryat ch t.color t.column t.row t) v.row)
    | inr f ↦ rw (e, f) (record { row = v.row; column = ground (arith, v.column) })
  ]
]

pub putchar-beyond :
    {t : Terminal} (ch i : ℕ)
    → OnScreen t
    → vga_height * vga_width ≤ i
    → (terminal_putchar ch t).cells i ≡ t.cells i
unfolding terminal_putchar advance terminal_putentryat
putchar-beyond {t} ch i v le =
    let w =
      put_ne t.cells (t.row * vga_width + t.column) (vga_entry ch t.color) i
        (omega (arith, v.row, v.column)) in
    elim (Bool-cases (ch == 10)) [
      | inl e ↦ rw e (new_line-beyond t i le)
      | inr e ↦ elim (Bool-cases (t.column + 1 == vga_width)) [
        | inl f ↦
            rw (e, f) (new_line-beyond (terminal_putentryat ch t.color t.column t.row t) i le ∙ w)
        | inr f ↦ rw (e, f) w
      ]
    ]

pub terminal_write-OnScreen :
    (cs : List ℕ) (t : Terminal)
    → OnScreen t
    → OnScreen (terminal_write cs t)
      × ((i : ℕ) → vga_height * vga_width ≤ i → (terminal_write cs t).cells i ≡ t.cells i)
unfolding terminal_write
terminal_write-OnScreen [] t v = (v, λ i le. refl)
terminal_write-OnScreen (ch ∷ cs) t v =
    let (w, same) = terminal_write-OnScreen cs (terminal_putchar ch t) (putchar-OnScreen ch v) in
    (w, λ i le. same i le ∙ putchar-beyond ch i v le)

-- Whatever text is written from a cursor on the screen, `terminal_writestring` leaves the cursor on
-- the screen and writes no cell behind it.
pub terminal_writestring-OnScreen :
    {t : Terminal} (s : List ℕ)
    → OnScreen t
    → OnScreen (terminal_writestring s t)
      × ((i : ℕ) → vga_height * vga_width ≤ i → (terminal_writestring s t).cells i ≡ t.cells i)
unfolding terminal_writestring
terminal_writestring-OnScreen {t} s v = terminal_write-OnScreen (string_bytes s) t v

-- `terminal_initialize` and `terminal_clear` put the cursor on the first cell and leave a screen of
-- spaces in the current color, light grey on black after `terminal_initialize`.
pub terminal_clear_lem :
    (t : Terminal) (i : ℕ)
    → i < vga_height * vga_width
    → ((terminal_clear t).cells i ≡ vga_entry 32 t.color)
      × ((terminal_initialize t).cells i ≡ vga_entry 32 (terminal_initialize t).color)
      × OnScreen (terminal_clear t)
      × OnScreen (terminal_initialize t)
unfolding terminal_clear terminal_initialize
terminal_clear_lem t i lt = (
  blank_rows-cell vga_height t.color t.cells i lt,
  blank_rows-cell vga_height (vga_entry_color 7 0) t.cells i lt,
  record { row = omega arith; column = omega arith },
  record { row = omega arith; column = omega arith },
)

-- A character before the last column goes to the cursor's cell, and the cursor moves on by one.
pub putchar_inside :
    (t : Terminal) (ch : ℕ)
    → (ch == 10) ≡ false
    → t.column + 1 < vga_width
    → ((terminal_putchar ch t).row ≡ t.row)
      × ((terminal_putchar ch t).column ≡ t.column + 1)
      × ((terminal_putchar ch t).cells (t.row * vga_width + t.column) ≡ vga_entry ch t.color)
unfolding terminal_putchar advance terminal_putentryat
putchar_inside t ch e lt =
    let inside : (t.column + 1 == vga_width) ≡ false = ground arith in
    rw (e, inside)
      (refl, refl, put_self t.cells (t.row * vga_width + t.column) (vga_entry ch t.color))
