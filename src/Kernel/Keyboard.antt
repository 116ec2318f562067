-- ===== src/Kernel/Keyboard.antt =====
-- The keyboard of shell.c: what a key does to the line that is typed, and how a line becomes a command.
pub mod Keeps
pub mod Unchanged
pub mod Keys
pub mod Lines
use Prim.Native.Nat.{bit_and, bit_or}
use minicore_os.Base.{
  ℕ, ◌-◌, ◌^◌, Bool, not, ◌&&◌, ◌||◌, Option, none, some, List, [], ◌∷◌, leb, ◌==◌, if◌then◌else◌,
  wrap8, set, Outcome, done, fault,
}
use minicore_os.Base.Int.{ℤ, pos, negsuc}
use minicore_os.Terminal.{terminal_putchar}
use minicore_os.Terminal.Output.{Output, writestring, say, color, white, light_green, light_red}
use minicore_os.Shell.{
  Shell, ShellCommand, commands, command_from, shell_max_args, shell_parse_command,
  shell_find_command, shell_clear_buffer, shell_backspace, type_char, scancode_to_ascii,
  keyboard_read_scancode,
}
use minicore_os.Shell.Rounds.{args}
use minicore_os.Kernel.{Kernel, Machine, Flow, next, ◌▸◌, show}
use minicore_os.Kernel.Commands.{run_command}

-- SHELL_PROMPT and `shell_print_prompt`
abbrev pub prompt : List Output
prompt = color light_green ∷ say "minicore> " ∷ color white ∷ []

abbrev pub unknown_command : List ℕ → List Output
unknown_command name =
    color light_red
    ∷ say "Unknown command: "
    ∷ writestring name
    ∷ say "\nType 'help' for available commands.\n"
    ∷ color white
    ∷ []

-- `commands[cmd_index].handler(argc, argv)`; an index behind the table is a fault.
pub dispatch_entry : Machine → Option ShellCommand → List (List ℕ) → Kernel → Outcome Flow
dispatch_entry hw none argv k = fault
dispatch_entry hw (some c) argv k = run_command hw c.handler argv k

pub dispatch : Machine → ℤ → List ℕ → List (List ℕ) → Kernel → Outcome Flow
dispatch hw (pos i) name argv k = dispatch_entry hw (command_from commands i) argv k
dispatch hw (negsuc _) name argv k = show (unknown_command name) k

-- `shell_execute_command` with the arguments that were parsed
pub execute_args : Machine → List (List ℕ) → Kernel → Outcome Flow
execute_args hw [] k = done (next k)
execute_args hw (name ∷ more) k = dispatch hw (shell_find_command name) name (name ∷ more) k

pub shell_execute_command : Machine → Kernel → Outcome Flow
shell_execute_command hw k =
    let (argv, input) = shell_parse_command k.shell.input_buffer shell_max_args in
    if k.shell.buffer_pos == 0
    then done (next k)
    else execute_args hw (args input argv)
        (record k { shell = record k.shell { input_buffer = input } })

pub clear_line : Kernel → Kernel
clear_line k = record k { shell = shell_clear_buffer k.shell }

-- `shell_process_input('\n')`
pub enter : Machine → Kernel → Outcome Flow
enter hw k =
    let s = k.shell in
    shell_execute_command hw (record k {
      terminal = terminal_putchar b'\n' k.terminal;
      shell = record s { input_buffer = set s.input_buffer s.buffer_pos 0 };
    })
    ▸ λ k. show prompt (clear_line k)

pub shell_process_input : Machine → ℕ → Kernel → Outcome Flow
shell_process_input hw c k =
    let (s, t) = type_char c k.shell k.terminal in
    if c == b'\n'
    then enter hw k
    else if leb 32 c && leb c 126
    then done (next (record k { shell = s; terminal = t }))
    else done (next k)

-- KEY_ENTER, KEY_LCTRL, KEY_LSHIFT, KEY_RSHIFT and KEY_BACKSPACE
abbrev pub is_shift : ℕ → Bool
is_shift scancode = scancode == 0x2A || scancode == 0x36

abbrev pub key_enter : ℕ
key_enter = 0x1C

abbrev pub key_lctrl : ℕ
key_lctrl = 0x1D

abbrev pub key_backspace : ℕ
key_backspace = 0x0E

-- `keyboard_state &= ~flag` and `keyboard_state |= flag`, with SHIFT_PRESSED 1 and CTRL_PRESSED 2
pub release_flag : ℕ → Shell → Shell
release_flag flag s = record s {
  keyboard_state = wrap8 (bit_and s.keyboard_state (2 ^ 32 - 1 - flag));
}

pub press_flag : ℕ → Shell → Shell
press_flag flag s = record s { keyboard_state = wrap8 (bit_or s.keyboard_state flag) }

-- A key is released: its scan code without the release flag.
pub key_up : ℕ → Shell → Shell
key_up scancode s =
    if is_shift scancode
    then release_flag 1 s
    else if scancode == key_lctrl
    then release_flag 2 s
    else s

pub back : Kernel → Kernel
back k = let (s, t) = shell_backspace k.shell k.terminal in record k { shell = s; terminal = t }

-- a key that is no modifier, Enter or Backspace
pub type_key : Machine → ℕ → Kernel → Outcome Flow
type_key hw scancode k =
    let ascii = scancode_to_ascii scancode (bit_and k.shell.keyboard_state 1) in
    if ascii == 0 then done (next k) else shell_process_input hw ascii k

-- A key is pressed.
pub key_down : Machine → ℕ → Kernel → Outcome Flow
key_down hw scancode k =
    if is_shift scancode
    then done (next (record k { shell = press_flag 1 k.shell }))
    else if scancode == key_lctrl
    then done (next (record k { shell = press_flag 2 k.shell }))
    else if scancode == key_enter
    then shell_process_input hw b'\n' k
    else if scancode == key_backspace
    then done (next (back k))
    else type_key hw scancode k

-- `keyboard_handler` with the scan code that it has read
pub handle_key : Machine → ℕ → Kernel → Outcome Flow
handle_key hw scancode k =
    if scancode == 0
    then done (next k)
    else if not (bit_and scancode 0x80 == 0)
    then done (next (record k { shell = key_up (bit_and scancode 0x7F) k.shell }))
    else key_down hw scancode k

-- `status` and `scancode` are what the two ports of the keyboard read.
pub keyboard_handler : Machine → (status scancode : ℕ) → Kernel → Outcome Flow
keyboard_handler hw status scancode k = handle_key hw (keyboard_read_scancode status scancode) k
