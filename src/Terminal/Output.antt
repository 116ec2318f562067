-- ===== src/Terminal/Output.antt =====
-- A sequence of calls of the terminal of kernel.c, as the reports and the commands make them, and
-- that it ends with the cursor on the screen.
use minicore_os.Base.{
  ℕ, ◌*◌, ◌≡◌, ◌≤◌, refl, List, [], ◌∷◌, arith, ap, ◌∙◌, wrap32, c_string, Outcome, done, ◌>>=◌,
}
use Prim.Native.String.{String}
use minicore_os.Terminal.{
  Terminal, vga_width, vga_height, vga_entry_color, terminal_putchar, terminal_setcolor,
  terminal_writestring, terminal_write, terminal_write_dec, terminal_write_hex,
}
use minicore_os.Terminal.Cursor.{
  OnScreen, putchar-OnScreen, putchar-beyond, terminal_write-OnScreen,
  terminal_writestring-OnScreen,
}
use Prim.Native.String.{String}
use minicore_os.Terminal.Number.{terminal_write_dec_lem, terminal_write_hex_lem}

-- One call, named after the function. The argument of the last two is converted to `uint32_t`.
pub data Output : Type 0 where
  putchar : ℕ → Output
  writestring : List ℕ → Output
  setcolor : ℕ → Output
  write_dec : ℕ → Output
  write_hex : ℕ → Output

-- `terminal_writestring` of a literal
abbrev pub say : String → Output
say s = writestring (c_string s)

-- `terminal_setcolor(vga_entry_color(fg, VGA_COLOR_BLACK))`
abbrev pub color : ℕ → Output
color fg = setcolor (vga_entry_color fg 0)

-- VGA_COLOR_WHITE, VGA_COLOR_LIGHT_GREEN, VGA_COLOR_LIGHT_CYAN, VGA_COLOR_LIGHT_RED,
-- VGA_COLOR_LIGHT_MAGENTA and VGA_COLOR_LIGHT_BROWN
abbrev pub white : ℕ
white = 15

abbrev pub light_green : ℕ
light_green = 10

abbrev pub light_cyan : ℕ
light_cyan = 11

abbrev pub light_red : ℕ
light_red = 12

abbrev pub light_magenta : ℕ
light_magenta = 13

abbrev pub light_brown : ℕ
light_brown = 14

pub output : Output → Terminal → Outcome Terminal
output (putchar ch) t = done (terminal_putchar ch t)
output (writestring s) t = done (terminal_writestring s t)
output (setcolor c) t = done (terminal_setcolor c t)
output (write_dec n) t = terminal_write_dec (wrap32 n) t
output (write_hex n) t = done (terminal_write_hex (wrap32 n) t)

pub print : List Output → Terminal → Outcome Terminal
print [] t = done t
print (o ∷ os) t = output o t >>= print os

-- `t'` is a screen after writing on `t`: the cursor is on the screen, and nothing behind it is written.
pub record Shown (t t' : Terminal) : Type 0 where
  pub cursor : OnScreen t'
  pub beyond : (i : ℕ) → vga_height * vga_width ≤ i → t'.cells i ≡ t.cells i

pub Shown-trans : {t t' t'' : Terminal} → Shown t t' → Shown t' t'' → Shown t t''
Shown-trans a b = record { cursor = b.cursor; beyond = λ i le. b.beyond i le ∙ a.beyond i le }

Shown-write : (ds : List ℕ) {t : Terminal} → OnScreen t → Shown t (terminal_write ds t)
Shown-write ds {t} v =
    let (w, same) = terminal_write-OnScreen ds t v in record { cursor = w; beyond = same }

-- `o` ends, with a result whose screen is one after writing on `t`.
abbrev pub Ends {ℓ} : {A : Type ℓ} → (A → Terminal) → Terminal → Outcome A → Type ℓ
Ends {A} screen t o = (a : A) × (o ≡ done a) × Shown t (screen a)

pub Ends-done {ℓ} :
    {A : Type ℓ} (screen : A → Terminal) (a : A)
    → OnScreen (screen a)
    → Ends screen (screen a) (done a)
Ends-done screen a v = (a, refl, record { cursor = v; beyond = λ i le. refl })

-- One run after another.
pub Ends-bind {ℓ κ} :
    {A : Type ℓ} {B : Type κ} {screen : A → Terminal} {screen' : B → Terminal} {t : Terminal}
    {o : Outcome A} (f : A → Outcome B)
    → Ends screen t o
    → ((a : A) → o ≡ done a → OnScreen (screen a) → Ends screen' (screen a) (f a))
    → Ends screen' t (o >>= f)
Ends-bind f (a, e, s) next =
    let (b, e', s') = next a e s.cursor in (b, ap (λ r. r >>= f) e ∙ e', Shown-trans s s')

output-Ends : (o : Output) (t : Terminal) → OnScreen t → Ends (λ t'. t') t (output o t)
unfolding output terminal_setcolor
output-Ends (putchar ch) t v = (
  terminal_putchar ch t,
  refl,
  record { cursor = putchar-OnScreen ch v; beyond = λ i le. putchar-beyond ch i v le },
)
output-Ends (writestring s) t v =
    let (w, same) = terminal_writestring-OnScreen s v in
    (terminal_writestring s t, refl, record { cursor = w; beyond = same })
output-Ends (setcolor c) t v = (
  terminal_setcolor c t,
  refl,
  record { cursor = record { row = v.row; column = v.column }; beyond = λ i le. refl },
)
output-Ends (write_dec n) t v =
    let (ds, e, _, _, _) = terminal_write_dec_lem (wrap32 n) t (omega arith) in
    (terminal_write ds t, e, Shown-write ds v)
output-Ends (write_hex n) t v =
    let (ds, e, _, _) = terminal_write_hex_lem (wrap32 n) t (omega arith) in
    (terminal_write ds t, ap done e, Shown-write ds v)

-- Whatever calls are made from a cursor on the screen, they end, leave the cursor on the screen and
-- write nothing behind it.
pub print-Ends : (os : List Output) (t : Terminal) → OnScreen t → Ends (λ t'. t') t (print os t)
unfolding print
print-Ends [] t v = Ends-done (λ t'. t') t v
print-Ends (o ∷ os) t v = Ends-bind (print os) (output-Ends o t v) (λ t' e on. print-Ends os t' on)
