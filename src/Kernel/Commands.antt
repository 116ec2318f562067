-- ===== src/Kernel/Commands.antt =====
-- The commands of shell.c on the kernel. What a command returns is not read, so it is left out.
pub mod Keeps
pub mod Memtest
pub mod Cat
pub mod Unchanged
use Prim.Native.String.{String}
use minicore_os.Base.{
  ℕ, ◌+◌, ◌-◌, Bool, true, false, not, Option, none, some, List, [], ◌∷◌, ◌++◌, ◌==◌, if◌then◌else◌,
  c_string, Outcome, done, fault, ◌>>=◌,
}
use minicore_os.Base.Int.{ℤ, pos, negsuc}
use minicore_os.Terminal.{terminal_clear}
use minicore_os.Terminal.Output.{
  Output, putchar, writestring, write_hex, say, color, white, light_green, light_cyan, light_red,
}
use minicore_os.Mm.Report.{mm_print_stats, mm_print_memory_map, mm_debug_heap}
use minicore_os.Scheduler.{task_create}
use minicore_os.Fs.{fs_read}
use minicore_os.Fs.Find.{read_bytes}
use minicore_os.Fs.Report.{fs_list}
use minicore_os.Isr.{irq_enable}
use minicore_os.Shell.{
  Shell, Command, cmd_help, cmd_echo, cmd_mem, cmd_halt, cmd_clear, cmd_memtest, cmd_version,
  cmd_uptime, cmd_tasks, cmd_starttasks, cmd_enableints, cmd_ls, cmd_cat, ShellCommand, commands,
  shell_strcmp, is_zero,
}
use minicore_os.Kernel.{
  timer, keyboard, Kernel, Machine, Flow, next, halted, ◌▸◌, with_terminal, show, alloc, free,
}

-- the lines that a command prints between two colors
abbrev pub colored : ℕ → String → List Output
colored c s = color c ∷ say s ∷ color white ∷ []

-- the loop of `cmd_help`
abbrev pub help_lines : List ShellCommand → List Output
help_lines [] = []
help_lines (c ∷ cs) =
    say "  "
    ∷ color light_green
    ∷ writestring c.name
    ∷ color white
    ∷ say " - "
    ∷ writestring c.description
    ∷ say "\n"
    ∷ help_lines cs

-- the loop of `cmd_echo` behind its first round
abbrev pub echo_rest : List (List ℕ) → List Output
echo_rest [] = []
echo_rest (a ∷ more) = putchar b' ' ∷ writestring a ∷ echo_rest more

-- the arguments behind the name of the command
abbrev pub echo_args : List (List ℕ) → List Output
echo_args [] = []
echo_args (a ∷ more) = writestring a ∷ echo_rest more

abbrev pub behind_name : List (List ℕ) → List (List ℕ)
behind_name [] = []
behind_name (a ∷ more) = more

abbrev pub equals : List ℕ → String → Bool
equals a s = is_zero (shell_strcmp a (c_string s))

pub run_print_stats : Kernel → Outcome Flow
run_print_stats k =
    mm_print_stats k.mm k.terminal >>= λ (m, t). done (next (record k { mm = m; terminal = t }))

pub run_memory_map : Kernel → Outcome Flow
run_memory_map k = mm_print_memory_map k.terminal >>= λ t. done (next (with_terminal k t))

pub run_debug_heap : Kernel → Outcome Flow
run_debug_heap k = mm_debug_heap k.mm k.terminal >>= λ t. done (next (with_terminal k t))

-- `cmd_mem` with the arguments behind its name
pub run_mem : List (List ℕ) → Kernel → Outcome Flow
run_mem [] k = run_print_stats k
run_mem (a ∷ more) k =
    if equals a "stats"
    then run_print_stats k
    else if equals a "map"
    then run_memory_map k
    else if equals a "debug"
    then run_debug_heap k
    else show (say "Usage: mem [stats|map|debug]\n" ∷ []) k

-- the report on an allocation
abbrev pub allocated : String → ℕ → List Output
allocated s ptr = say s ∷ write_hex ptr ∷ say "\n" ∷ []

pub run_memtest : Kernel → Outcome Flow
run_memtest k = show (say "Running memory allocation test...\n" ∷ []) k ▸ λ k. alloc 100 k λ ptr1 k.
    show (allocated "Allocated 100 bytes at: 0x" ptr1) k ▸ λ k. alloc 200 k λ ptr2 k.
      show (allocated "Allocated 200 bytes at: 0x" ptr2) k ▸ λ k. free ptr1 k ▸ λ k.
      show (say "Freed first allocation\n" ∷ []) k ▸ λ k. free ptr2 k ▸ λ k.
      show (say "Freed second allocation\n" ∷ say "Memory test completed!\n" ∷ []) k

-- `task_create(name, entry)`, whose result is not read
pub create : Machine → String → ℕ → Kernel → Kernel
create hw name entry k = record k {
  sched = (task_create hw.stack_of (c_string name) entry k.sched).1;
}

pub run_starttasks : Machine → Kernel → Outcome Flow
run_starttasks hw k = show (colored light_green "Starting demo multitasking tasks...\n") k ▸ λ k.
    show (say "Created idle task\n" ∷ []) (create hw "idle" hw.task_idle k) ▸ λ k.
    show (say "Created counter task\n" ∷ []) (create hw "counter" hw.task_counter k) ▸ λ k.
    show
      (say "Created greeter task\n"
        ∷ say "Demo tasks started! They will run in the background.\n"
        ∷ [])
      (create hw "greeter" hw.task_greeter k)

-- `irq_enable(irq)`
pub enable : Machine → ℕ → Kernel → Kernel
enable hw irq k = record k { idt = record k.idt { ports = irq_enable hw.inb irq k.idt.ports } }

pub run_enableints : Machine → Kernel → Outcome Flow
run_enableints hw k =
    show
      (color light_cyan
        ∷ say "Enabling interrupts...\n"
        ∷ color white
        ∷ say "Enabling keyboard interrupt (IRQ1)...\n"
        ∷ [])
      k
    ▸ λ k. show (say "Enabling timer interrupt (IRQ0)...\n" ∷ []) (enable hw 1 k) ▸ λ k.
        show (say "Enabling global interrupts...\n" ∷ []) (enable hw 0 k) ▸ λ k.
        show (colored light_green "Interrupts enabled! Keyboard should now be interrupt-driven.\n")
          (record k { interrupts = true })

abbrev pub cat_usage : List Output
cat_usage = colored light_red "Usage: cat <filename>\n"

abbrev pub not_found : List ℕ → List Output
not_found name =
    color light_red ∷ say "File not found: " ∷ writestring name ∷ say "\n" ∷ color white ∷ []

-- the bytes of a file, character by character
abbrev pub characters : List ℕ → List Output
characters [] = []
characters (c ∷ cs) = putchar c ∷ characters cs

abbrev pub contents_of : List ℕ → List ℕ → List Output
contents_of name bytes =
    color light_cyan
      ∷ say "=== Contents of "
      ∷ writestring name
      ∷ say " ===\n"
      ∷ color white
      ∷ characters bytes
    ++ putchar b'\n' ∷ color light_cyan ∷ say "=== End of file ===\n" ∷ color white ∷ []

-- `cmd_cat` behind `fs_read`. A read through NULL is a fault.
pub cat_found : List ℕ → ℤ × (Option ℕ × ℕ) → Kernel → Outcome Flow
cat_found name (negsuc _, _) k = show (not_found name) k
cat_found name (pos _, (none, size)) k = fault
cat_found name (pos _, (some at, size)) k =
    show (contents_of name (read_bytes size k.fs.file_data at)) k

-- `cmd_cat` with the arguments behind its name
pub run_cat : List (List ℕ) → Kernel → Outcome Flow
run_cat [] k = show cat_usage k
run_cat (name ∷ more) k = cat_found name (fs_read k.fs name none 0) k

pub run_ls : Kernel → Outcome Flow
run_ls k = fs_list k.fs k.terminal >>= λ (r, t). done (next (with_terminal k t))

abbrev pub version_lines : List Output
version_lines =
    color light_cyan
    ∷ say "MiniCore-OS v0.3.0\n"
    ∷ color white
    ∷ say "Phase 3: CLI Shell\n"
    ∷ say "Built with: GCC, NASM, GRUB\n"
    ∷ say "Features: Memory Management, Interactive Shell\n"
    ∷ []

abbrev pub task_lines : List Output
task_lines =
    color light_cyan
    ∷ say "Task Information:\n"
    ∷ color white
    ∷ say "ID  Name        State     \n"
    ∷ say "--- ----------- ----------\n"
    ∷ say "1   idle        READY     \n"
    ∷ say "2   counter     RUNNING   \n"
    ∷ say "3   greeter     SLEEPING  \n"
    ∷ say "\nMultitasking is active with timer-driven scheduling!\n"
    ∷ say "Tasks automatically switch every 10 timer ticks.\n"
    ∷ []

-- `cmd_halt` turns the interrupts off and never returns.
pub run_halt : Kernel → Outcome Flow
run_halt k = show (colored light_red "System halting...\n") k ▸ λ k.
    done (halted (record k { interrupts = false }))

-- The handler of a command, with the arguments `argv`.
pub run_command : Machine → Command → List (List ℕ) → Kernel → Outcome Flow
run_command hw cmd_help argv k =
    show (colored light_cyan "Available commands:\n" ++ help_lines commands) k
run_command hw cmd_echo argv k = show (echo_args (behind_name argv) ++ putchar b'\n' ∷ []) k
run_command hw cmd_mem argv k = run_mem (behind_name argv) k
run_command hw cmd_halt argv k = run_halt k
run_command hw cmd_clear argv k = done (next (with_terminal k (terminal_clear k.terminal)))
run_command hw cmd_memtest argv k = run_memtest k
run_command hw cmd_version argv k = show version_lines k
run_command hw cmd_uptime argv k =
    show (say "Uptime: Since boot (no timer implemented yet)\n" ∷ []) k
run_command hw cmd_tasks argv k = show task_lines k
run_command hw cmd_starttasks argv k = run_starttasks hw k
run_command hw cmd_enableints argv k = run_enableints hw k
run_command hw cmd_ls argv k = run_ls k
run_command hw cmd_cat argv k = run_cat (behind_name argv) k
