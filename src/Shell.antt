-- ===== src/Shell.antt =====
-- The state of the shell of shell.c, its keyboard tables, its command table and the functions that
-- work on them alone. What a key or a command does to the rest of the kernel is in `Kernel`.
pub mod Words
pub mod Rounds
pub mod Parse
pub mod Find
pub mod Edit
pub mod Sizes
pub mod Typing
pub mod Strings
mod Tests
use Prim.Native.Nat.{bit_and}
use Prim.Native.String.{String}
use minicore_os.Base.{
  ℕ, zero, suc, ◌+◌, ◌-◌, ◌^◌, Bool, false, not, ◌&&◌, ◌||◌, Option, none, some, List, [], ◌∷◌, ltb,
  leb, ◌==◌, if◌then◌else◌, sub32, get_or, set, length, c_string,
}
use minicore_os.Base.Int.{ℤ, pos, negsuc, sub_ℕ}
use minicore_os.Terminal.{Terminal, terminal_putchar}

-- SHELL_BUFFER_SIZE and SHELL_MAX_ARGS
abbrev pub shell_buffer_size : ℕ
shell_buffer_size = 256

abbrev pub shell_max_args : ℕ
shell_max_args = 16

-- `shell_state_t` with the variable `keyboard_state`
pub record Shell : Type 0 where
  pub input_buffer : List ℕ
  pub buffer_pos : ℕ
  pub cursor_x : ℕ
  pub cursor_y : ℕ
  pub echo_enabled : Bool
  pub keyboard_state : ℕ

abbrev pub scancode_ascii : List ℕ
scancode_ascii =
    0 ∷ 0 ∷ b'1' ∷ b'2' ∷ b'3' ∷ b'4' ∷ b'5' ∷ b'6' ∷ b'7' ∷ b'8' ∷ b'9' ∷ b'0' ∷ b'-' ∷ b'=' ∷ 0
    ∷ 0 ∷ b'q' ∷ b'w' ∷ b'e' ∷ b'r' ∷ b't' ∷ b'y' ∷ b'u' ∷ b'i' ∷ b'o' ∷ b'p' ∷ b'[' ∷ b']' ∷ 0 ∷ 0
    ∷ b'a' ∷ b's' ∷ b'd' ∷ b'f' ∷ b'g' ∷ b'h' ∷ b'j' ∷ b'k' ∷ b'l' ∷ b';' ∷ b'\'' ∷ b'`' ∷ 0 ∷ b'\\'
    ∷ b'z' ∷ b'x' ∷ b'c' ∷ b'v' ∷ b'b' ∷ b'n' ∷ b'm' ∷ b',' ∷ b'.' ∷ b'/' ∷ 0 ∷ b'*' ∷ 0 ∷ b' ' ∷ []

abbrev pub scancode_ascii_shift : List ℕ
scancode_ascii_shift =
    0 ∷ 0 ∷ b'!' ∷ b'@' ∷ b'#' ∷ b'$' ∷ b'%' ∷ b'^' ∷ b'&' ∷ b'*' ∷ b'(' ∷ b')' ∷ b'_' ∷ b'+' ∷ 0
    ∷ 0 ∷ b'Q' ∷ b'W' ∷ b'E' ∷ b'R' ∷ b'T' ∷ b'Y' ∷ b'U' ∷ b'I' ∷ b'O' ∷ b'P' ∷ b'{' ∷ b'}' ∷ 0 ∷ 0
    ∷ b'A' ∷ b'S' ∷ b'D' ∷ b'F' ∷ b'G' ∷ b'H' ∷ b'J' ∷ b'K' ∷ b'L' ∷ b':' ∷ b'"' ∷ b'~' ∷ 0 ∷ b'|'
    ∷ b'Z' ∷ b'X' ∷ b'C' ∷ b'V' ∷ b'B' ∷ b'N' ∷ b'M' ∷ b'<' ∷ b'>' ∷ b'?' ∷ 0 ∷ b'*' ∷ 0 ∷ b' ' ∷ []

-- `shift` is not 0 while a shift key is held.
unfoldable pub scancode_to_ascii : ℕ → ℕ → ℕ
scancode_to_ascii scancode shift =
    if leb (length scancode_ascii) scancode
    then 0
    else if not (shift == 0) && ltb scancode (length scancode_ascii_shift)
    then get_or scancode_ascii_shift scancode 0
    else get_or scancode_ascii scancode 0

-- `keyboard_read_scancode`; `status` and `data` are what `inb` reads from the two ports.
pub keyboard_read_scancode : (status scancode : ℕ) → ℕ
keyboard_read_scancode status scancode = if not (bit_and status 0x01 == 0) then scancode else 0

-- `for (i = 0; i < n; i++) input_buffer[i] = '\0'`
pub clear_loop : ℕ → List ℕ → List ℕ
clear_loop zero b = b
clear_loop (suc i) b = set (clear_loop i b) i 0

pub shell_clear_buffer : Shell → Shell
shell_clear_buffer s = record s {
  input_buffer = clear_loop shell_buffer_size s.input_buffer;
  buffer_pos = 0;
}

unfoldable pub keyboard_init : Shell → Shell
keyboard_init s = record s { keyboard_state = 0 }

-- `terminal_column--; terminal_putchar(' '); terminal_column--`
abbrev pub step_back : Terminal → Terminal
step_back t = record t { column = sub32 t.column 1 }

-- What `shell_backspace` does to the screen: nothing in the first column.
pub erase : Terminal → Terminal
erase t = if ltb 0 t.column then step_back (terminal_putchar b' ' (step_back t)) else t

pub shell_backspace : Shell → Terminal → Shell × Terminal
shell_backspace s t =
    if ltb 0 s.buffer_pos
    then (
      record s {
        buffer_pos = s.buffer_pos - 1;
        input_buffer = set s.input_buffer (s.buffer_pos - 1) 0;
      },
      erase t,
    )
    else (s, t)

-- `shell_process_input` of a printable character
pub type_char : ℕ → Shell → Terminal → Shell × Terminal
type_char c s t =
    if ltb s.buffer_pos (shell_buffer_size - 1)
    then (
      record s { input_buffer = set s.input_buffer s.buffer_pos c; buffer_pos = s.buffer_pos + 1 },
      (if s.echo_enabled then terminal_putchar c t else t),
    )
    else (s, t)

abbrev pub is_blank : ℕ → Bool
is_blank c = c == b' ' || c == b'\t'

-- `while (*token == ' ' || *token == '\t') token++`: how far it goes
pub skip_blanks : List ℕ → ℕ
skip_blanks [] = 0
skip_blanks (c ∷ cs) = let rest = skip_blanks cs in if is_blank c then suc rest else 0

-- `while (*token && *token != ' ' && *token != '\t') token++`: how far it goes
pub skip_word : List ℕ → ℕ
skip_word [] = 0
skip_word (c ∷ cs) = let rest = skip_word cs in if c == 0 || is_blank c then 0 else suc rest

abbrev pub drop : ℕ → List ℕ → List ℕ
drop zero xs = xs
drop (suc n) [] = []
drop (suc n) (x ∷ xs) = drop n xs

-- `token` behind a word that ends at `end`, with the input
pub next_token : List ℕ → ℕ → List ℕ × ℕ
next_token input end =
    if get_or input end 0 == 0
    then (input, end)
    else let input' = set input end 0 in (input', end + 1 + skip_blanks (drop (end + 1) input'))

-- The loop of `shell_parse_command` while `n` more arguments fit: the arguments, which are indices of
-- the input, and the input it leaves.
pub parse_loop : ℕ → List ℕ → ℕ → List ℕ × List ℕ
parse_loop zero input token = ([], input)
parse_loop (suc n) input token =
    let (input', token') = next_token input (token + skip_word (drop token input)) in
    let (argv, left) = parse_loop n input' token' in
    if get_or input token 0 == 0 then ([], input) else (token ∷ argv, left)

-- `argv` without the NULL that ends it, whose length `shell_parse_command` returns, and the input
pub shell_parse_command : List ℕ → ℕ → List ℕ × List ℕ
shell_parse_command input max_args = parse_loop (max_args - 1) input (skip_blanks input)

pub shell_strcmp : List ℕ → List ℕ → ℤ
shell_strcmp [] t = sub_ℕ 0 (get_or t 0 0)
shell_strcmp (b ∷ bs) [] = sub_ℕ b 0
shell_strcmp (b ∷ bs) (c ∷ cs) =
    let rest = shell_strcmp bs cs in
    if not (b == 0) then (if b == c then rest else sub_ℕ b c) else sub_ℕ b c

-- the functions of the command table
pub data Command : Type 0 where
  cmd_help cmd_echo cmd_mem cmd_halt cmd_clear cmd_memtest cmd_version : Command
  cmd_uptime cmd_tasks cmd_starttasks cmd_enableints cmd_ls cmd_cat : Command

-- `shell_command_t`
pub record ShellCommand : Type 0 where
  pub name : List ℕ
  pub description : List ℕ
  pub handler : Command

abbrev pub entry : String → String → Command → ShellCommand
entry n d h = record { name = c_string n; description = c_string d; handler = h }

-- `commands`, without its end marker
abbrev pub commands : List ShellCommand
commands =
    entry "help" "Show available commands" cmd_help
    ∷ entry "echo" "Echo text to screen" cmd_echo
    ∷ entry "mem" "Show memory information" cmd_mem
    ∷ entry "halt" "Halt the system" cmd_halt
    ∷ entry "clear" "Clear the screen" cmd_clear
    ∷ entry "memtest" "Run memory allocation test" cmd_memtest
    ∷ entry "version" "Show system version" cmd_version
    ∷ entry "uptime" "Show system uptime (placeholder)" cmd_uptime
    ∷ entry "tasks" "Show running tasks" cmd_tasks
    ∷ entry "starttasks" "Start demo multitasking tasks" cmd_starttasks
    ∷ entry "enableints" "Enable interrupts" cmd_enableints
    ∷ entry "ls" "List files in file system" cmd_ls
    ∷ entry "cat" "Display file contents" cmd_cat
    ∷ []

-- an entry of a table
abbrev pub command_from : List ShellCommand → ℕ → Option ShellCommand
command_from [] i = none
command_from (c ∷ cs) zero = some c
command_from (c ∷ cs) (suc i) = command_from cs i

abbrev pub is_zero : ℤ → Bool
is_zero (pos n) = n == 0
is_zero (negsuc n) = false

-- The loop of `shell_find_command` over the table from the entry `i` on.
pub find_loop : List ShellCommand → ℕ → List ℕ → ℤ
find_loop [] i name = negsuc 0
find_loop (c ∷ cs) i name =
    let rest = find_loop cs (i + 1) name in
    if is_zero (shell_strcmp name c.name) then pos i else rest

pub shell_find_command : List ℕ → ℤ
shell_find_command name = find_loop commands 0 name
