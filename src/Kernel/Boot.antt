-- ===== src/Kernel/Boot.antt =====
-- `kernel_main` of kernel.c up to the loop of `shell_run`, with `shell_init` and the start of
-- `shell_run`.
pub mod Ready
pub mod Unchanged
use minicore_os.Base.{true, Option, none, some, List, [], ◌∷◌, Outcome, done, fault}
use minicore_os.Terminal.{Terminal, terminal_initialize}
use minicore_os.Terminal.Output.{
  Output, say, color, white, light_green, light_cyan, light_magenta, light_brown,
}
use minicore_os.Mm.Ops.{mm_init}
use minicore_os.Mm.Paging.{paging_init}
use minicore_os.Scheduler.{scheduler_init}
use minicore_os.Fs.{Fs}
use minicore_os.Fs.Demo.{fs_init}
use minicore_os.Idt.{idt_init}
use minicore_os.Isr.{isr_init, register_interrupt_handler}
use minicore_os.Shell.{Shell, shell_clear_buffer, keyboard_init}
use minicore_os.Kernel.{timer, keyboard, Kernel, Machine, Flow, next, ◌▸◌, with_terminal, show}
use minicore_os.Kernel.Keyboard.{prompt}

abbrev pub welcome : List Output
welcome =
    color light_cyan
    ∷ say "Welcome to MiniCore-OS!\n"
    ∷ color light_green
    ∷ say "Kernel successfully loaded and running in protected mode.\n"
    ∷ color light_brown
    ∷ say "Initializing memory management...\n"
    ∷ []

abbrev pub memory_ready : List Output
memory_ready =
    say "Memory management initialized!\n"
    ∷ color light_cyan
    ∷ say "Initializing interrupt system...\n"
    ∷ []

abbrev pub interrupts_ready : List Output
interrupts_ready =
    say "IDT and ISR initialized!\n" ∷ color light_magenta ∷ say "Initializing scheduler...\n" ∷ []

-- The first two lines are of `scheduler_init`.
abbrev pub scheduler_ready : List Output
scheduler_ready =
    say "Scheduler initialized\n"
    ∷ say "Demo tasks disabled for stability\n"
    ∷ color light_brown
    ∷ say "Initializing file system...\n"
    ∷ []

abbrev pub system_ready : List Output
system_ready =
    color light_brown
    ∷ say "Phase 5: File System Complete!\n"
    ∷ color white
    ∷ say "\nSystem Information:\n"
    ∷ say "- Architecture: x86 (32-bit) | Mode: Protected Mode\n"
    ∷ say "- Memory: 1MB Heap | Display: VGA 80x25 | File System: Active\n"
    ∷ say "- Interrupts: Ready (use 'enableints' to activate)\n"
    ∷ say "\n"
    ∷ color light_cyan
    ∷ say "=== System Ready ===\n"
    ∷ color white
    ∷ say "Memory: Active | File System: 5 files loaded | Interrupts: Ready\n"
    ∷ color light_magenta
    ∷ say "Starting CLI Shell...\n"
    ∷ color white
    ∷ []

abbrev pub shell_ready : List Output
shell_ready =
    color light_cyan
    ∷ say "\n=== MiniCore-OS Shell Active ===\n"
    ∷ color white
    ∷ say "Type 'help' for commands | 'ls' for files | 'clear' to clear screen\n\n"
    ∷ []

abbrev pub shell_running : List Output
shell_running =
    color light_brown
    ∷ say "Multitasking demo running in background...\n"
    ∷ color white
    ∷ say "Interactive shell ready! Try typing 'help' or 'ls'\n"
    ∷ prompt

-- `mm_init` with its call of `paging_init`
pub init_memory : Machine → Kernel → Kernel
init_memory hw k = record k { mm = mm_init k.mm; paging = paging_init hw.page_tables k.paging }

-- `idt_init` and `isr_init`
pub init_interrupts : Machine → Kernel → Kernel
init_interrupts hw k = record k {
  idt = idt_init hw.idt_table hw.vector k.idt;
  handlers = isr_init k.handlers;
}

-- The handlers of IRQ0 and IRQ1.
pub register_handlers : Kernel → Kernel
register_handlers k = record k {
  handlers =
      register_interrupt_handler 33 keyboard (register_interrupt_handler 32 timer k.handlers);
}

-- The variables that `shell_init` sets; `cursor_y` is the row of the terminal.
pub reset_shell : Terminal → Shell → Shell
reset_shell t s = keyboard_init (
    shell_clear_buffer
      (record s { buffer_pos = 0; cursor_x = 0; cursor_y = t.row; echo_enabled = true }))

pub shell_init : Kernel → Outcome Flow
shell_init k = show shell_ready (record k { shell = reset_shell k.terminal k.shell })

-- A file system that could not be set up is a fault: a write out of the range of its arrays.
pub with_fs : Option Fs → Kernel → Outcome Flow
with_fs none k = fault
with_fs (some fs) k = done (next (record k { fs = fs }))

-- Until the shell polls the keyboard.
pub kernel_main : Machine → Kernel → Outcome Flow
kernel_main hw k = show welcome (with_terminal k (terminal_initialize k.terminal)) ▸ λ k.
    show memory_ready (init_memory hw k) ▸ λ k. show interrupts_ready (init_interrupts hw k) ▸ λ k.
    show scheduler_ready (record k { sched = scheduler_init k.sched }) ▸ λ k.
    with_fs (fs_init k.fs) k ▸ λ k. show (say "Setting up interrupts...\n" ∷ []) k ▸ λ k.
    show system_ready (register_handlers k) ▸ λ k. shell_init k ▸ λ k. show shell_running k
