-- ===== src/Terminal.antt =====
-- The text-mode terminal of kernel.c: 25 rows of 80 cells in the screen memory at 0xB8000, and the
-- cursor. A character is the byte that the terminal writes.
pub mod Cursor
pub mod Cells
pub mod Number
pub mod Output
mod Tests
use Prim.Native.Nat.{bit_or}
use minicore_os.Base.{
  ℕ, zero, suc, ◌+◌, ◌-◌, ◌*◌, ◌/◌, ◌%◌, ◌^◌, Bool, true, false, List, [], ◌∷◌, ◌++◌, ltb, leb,
  ◌&&◌, ◌==◌, if◌then◌else◌, wrap8, wrap32, Outcome, done, out_of_fuel, ◌>>=◌,
}

-- VGA_WIDTH and VGA_HEIGHT
abbrev pub vga_width : ℕ
vga_width = 80

abbrev pub vga_height : ℕ
vga_height = 25

-- The variables `terminal_row`, `terminal_column`, `terminal_color` and the cells that
-- `terminal_buffer` points to.
pub record Terminal : Type 0 where
  pub row : ℕ
  pub column : ℕ
  pub color : ℕ
  pub cells : ℕ → ℕ

pub vga_entry_color : ℕ → ℕ → ℕ
vga_entry_color fg bg = wrap8 (bit_or fg (bg * 2 ^ 4))

pub vga_entry : ℕ → ℕ → ℕ
vga_entry uc color = bit_or uc (color * 2 ^ 8)

-- a write of one cell
unfoldable pub put : (ℕ → ℕ) → ℕ → ℕ → ℕ → ℕ
put c i v j = if j == i then v else c j

-- `for (x = 0; x < n; x++) buffer[y * 80 + x] = ' '`
pub blank_row : ℕ → ℕ → ℕ → (ℕ → ℕ) → ℕ → ℕ
blank_row zero y color c = c
blank_row (suc x) y color c = put (blank_row x y color c) (y * vga_width + x) (vga_entry 32 color)

-- `for (y = 0; y < n; y++)` over the loop above
pub blank_rows : ℕ → ℕ → (ℕ → ℕ) → ℕ → ℕ
blank_rows zero color c = c
blank_rows (suc y) color c = blank_row vga_width y color (blank_rows y color c)

pub terminal_initialize : Terminal → Terminal
terminal_initialize t =
    let color = vga_entry_color 7 0 in
    record { row = 0; column = 0; color = color; cells = blank_rows vga_height color t.cells }

pub terminal_setcolor : ℕ → Terminal → Terminal
terminal_setcolor color t = record t { color = color }

pub terminal_putentryat : ℕ → ℕ → ℕ → ℕ → Terminal → Terminal
terminal_putentryat ch color x y t = record t {
  cells = put t.cells (y * vga_width + x) (vga_entry ch color);
}

-- `for (x = 0; x < n; x++)` of the copy of row `y + 1` to row `y`
pub copy_row : ℕ → ℕ → (ℕ → ℕ) → ℕ → ℕ
copy_row zero y c = c
copy_row (suc x) y c =
    let c' = copy_row x y c in put c' (y * vga_width + x) (c' ((y + 1) * vga_width + x))

-- `for (y = 0; y < n; y++)` over the loop above
pub copy_rows : ℕ → (ℕ → ℕ) → ℕ → ℕ
copy_rows zero c = c
copy_rows (suc y) c = copy_row vga_width y (copy_rows y c)

pub terminal_scroll_up : Terminal → Terminal
terminal_scroll_up t = record t {
  cells = blank_row vga_width (vga_height - 1) t.color (copy_rows (vga_height - 1) t.cells);
}

-- `terminal_column = 0; if (++terminal_row == VGA_HEIGHT) { ... }`
pub new_line : Terminal → Terminal
new_line t =
    if t.row + 1 == vga_height
    then record (terminal_scroll_up (record t { column = 0; row = t.row + 1 })) {
      row = vga_height - 1;
    }
    else record t { column = 0; row = t.row + 1 }

-- `if (++terminal_column == VGA_WIDTH) { ... }`
pub advance : Terminal → Terminal
advance t = if t.column + 1 == vga_width then new_line t else record t { column = t.column + 1 }

pub terminal_putchar : ℕ → Terminal → Terminal
terminal_putchar ch t =
    if ch == 10 then new_line t else advance (terminal_putentryat ch t.color t.column t.row t)

-- `terminal_write` of the bytes
pub terminal_write : List ℕ → Terminal → Terminal
terminal_write [] t = t
terminal_write (ch ∷ cs) t = terminal_write cs (terminal_putchar ch t)

-- The bytes of a string before the 0 that ends it, which `strlen` counts.
pub string_bytes : List ℕ → List ℕ
string_bytes [] = []
string_bytes (b ∷ bs) = let rest = string_bytes bs in if b == 0 then [] else b ∷ rest

pub terminal_writestring : List ℕ → Terminal → Terminal
terminal_writestring s t = terminal_write (string_bytes s) t

pub terminal_clear : Terminal → Terminal
terminal_clear t = record t { row = 0; column = 0; cells = blank_rows vga_height t.color t.cells }

-- `hex_digits[d]`
pub hex_digit : ℕ → ℕ
hex_digit d = if ltb d 10 then 48 + d else 55 + d

-- `buffer` behind `n` rounds of the loop of `terminal_write_hex`, in front of the digits `ds`
pub hex_loop : ℕ → ℕ → List ℕ → List ℕ
hex_loop zero value ds = ds
hex_loop (suc n) value ds = hex_loop n (value / 16) (hex_digit (value % 16) ∷ ds)

pub terminal_write_hex : ℕ → Terminal → Terminal
terminal_write_hex value t = terminal_writestring (hex_loop 8 value []) t

-- The loop of `terminal_write_dec`, on fuel: the digits, the last first in `buffer`, as they are
-- printed
pub dec_loop : ℕ → ℕ → List ℕ → Outcome (List ℕ)
dec_loop zero value ds = if value == 0 then done ds else out_of_fuel
dec_loop (suc n) value ds =
    let rest = dec_loop n (value / 10) ((48 + value % 10) ∷ ds) in
    if value == 0 then done ds else rest

-- `buffer` has room for 10 digits.
pub terminal_write_dec : ℕ → Terminal → Outcome Terminal
terminal_write_dec value t =
    if value == 0
    then done (terminal_putchar 48 t)
    else do ds ← dec_loop 10 value []; done (terminal_write ds t)
