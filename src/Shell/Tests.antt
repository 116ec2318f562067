-- ===== src/Shell/Tests.antt =====
-- The theorems of the shell at small lines.
use minicore_os.Base.{ℕ, ◌≡◌, refl, true, List, [], ◌∷◌, replicate, c_string}
use minicore_os.Terminal.{Terminal}
use minicore_os.Shell.{Shell, shell_clear_buffer, shell_parse_command}
use minicore_os.Shell.Edit.{IsLine}
use minicore_os.Shell.Parse.{shell_parse_command_lem}
use minicore_os.Shell.Rounds.{args}
use minicore_os.Shell.Typing.{EditKey, typed, erased, edits, edits_refine}

abbrev screen : Terminal
screen = record { row = 3; column = 10; color = 15; cells = λ i. 0 }

abbrev old_shell : Shell
old_shell = record {
  input_buffer = replicate 256 7;
  buffer_pos = 9;
  cursor_x = 0;
  cursor_y = 0;
  echo_enabled = true;
  keyboard_state = 0;
}

abbrev keys : List EditKey
keys = typed b'l' refl ∷ typed b'x' refl ∷ erased ∷ typed b's' refl ∷ []

edits_refine_example :
    IsLine (edits keys (shell_clear_buffer old_shell, screen)).0 (b'l' ∷ b's' ∷ [])
edits_refine_example = edits_refine keys old_shell screen refl

abbrev typed_line : List ℕ
typed_line = c_string "  cat  a.txt "

shell_parse_command_lem_example :
    args (shell_parse_command typed_line 16).1 (shell_parse_command typed_line 16).0
    ≡ c_string "cat" ∷ c_string "a.txt" ∷ []
shell_parse_command_lem_example = shell_parse_command_lem typed_line 16
