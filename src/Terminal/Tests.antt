-- ===== src/Terminal/Tests.antt =====
-- The theorems of the terminal at a screen.
use minicore_os.Base.{ℕ, ◌*◌, ◌≡◌, ◌≤◌, List, length, done, arith, c_string}
use minicore_os.Terminal.{
  Terminal, vga_width, vga_height, terminal_write, terminal_writestring, terminal_write_dec,
}
use minicore_os.Terminal.Cursor.{OnScreen, terminal_writestring-OnScreen}
use minicore_os.Terminal.Number.{read_dec, IsDecimal, terminal_write_dec_lem}

-- The cursor stands on the last cell.
abbrev screen : Terminal
screen = record { row = 24; column = 79; color = 7; cells = λ i. i }

screen-OnScreen : OnScreen screen
screen-OnScreen = record { row = omega arith; column = omega arith }

terminal_writestring-OnScreen_example :
    OnScreen (terminal_writestring (c_string "ready") screen)
    × ((i : ℕ)
        → vga_height * vga_width ≤ i
        → (terminal_writestring (c_string "ready") screen).cells i ≡ screen.cells i)
terminal_writestring-OnScreen_example =
    terminal_writestring-OnScreen (c_string "ready") screen-OnScreen

terminal_write_dec_lem_example :
    (ds : List ℕ) × (terminal_write_dec 1048 screen ≡ done (terminal_write ds screen))
    × (read_dec 0 ds ≡ 1048)
    × IsDecimal ds
    × (length ds ≤ 10)
terminal_write_dec_lem_example = terminal_write_dec_lem 1048 screen (omega arith)
