-- ===== src/Kernel.antt =====
-- The kernel as a whole: its state, the commands of shell.c, the keys, the interrupts of isr.c and
-- `kernel_main` of kernel.c, which call the other parts.
pub mod Commands
pub mod Keyboard
pub mod Interrupt
pub mod Boot
pub mod Invariant
pub mod Unchanged
pub mod Holding
pub mod Console
pub mod Events
pub mod Files
pub mod Typed
mod Tests
use minicore_os.Base.{ℕ, Bool, List, Outcome, done, fault, out_of_fuel, ◌>>=◌}
use minicore_os.Terminal.{Terminal}
use minicore_os.Terminal.Output.{Output, print}
use minicore_os.Mm.{Mm, kmalloc, kfree}
use minicore_os.Mm.Ops.{kcalloc}
use minicore_os.Mm.Paging.{Paging}
use minicore_os.Scheduler.{Scheduler}
use minicore_os.Fs.{Fs}
use minicore_os.Idt.{Idt}
use minicore_os.Isr.{Handlers, Ports}
use minicore_os.Shell.{Shell}

-- The functions that `kernel_main` registers as interrupt handlers.
pub data Handler : Type 0 where
  timer keyboard : Handler

-- The variables of all files. `interrupts` is the interrupt flag of the processor.
pub record Kernel : Type 0 where
  pub terminal : Terminal
  pub mm : Mm
  pub paging : Paging
  pub sched : Scheduler
  pub fs : Fs
  pub idt : Idt
  pub handlers : Handlers Handler
  pub shell : Shell
  pub interrupts : Bool

-- What the linker and the hardware decide: the addresses of the task stacks, of the demo tasks, of
-- the page tables, of the descriptor table and of the interrupt entries, and what a port reads
-- after a log of writes.
pub record Machine : Type 0 where
  pub stack_of : ℕ → ℕ
  pub task_idle : ℕ
  pub task_counter : ℕ
  pub task_greeter : ℕ
  pub page_tables : ℕ
  pub idt_table : ℕ
  pub vector : ℕ → ℕ
  pub inb : Ports → ℕ → ℕ

-- Where the code is after a step: behind it, or in a loop of `hlt` that it never leaves.
pub data Flow : Type 0 where
  next : Kernel → Flow
  halted : Kernel → Flow

-- the code behind a step
infixl 5 ◌▸◌
abbrev pub ◌▸◌ : Outcome Flow → (Kernel → Outcome Flow) → Outcome Flow
done (next k) ▸ f = f k
done (halted k) ▸ f = done (halted k)
fault ▸ f = fault
out_of_fuel ▸ f = out_of_fuel

abbrev pub with_terminal : Kernel → Terminal → Kernel
with_terminal k t = record k { terminal = t }

-- a sequence of calls of the terminal
pub show : List Output → Kernel → Outcome Flow
show os k = print os k.terminal >>= λ t. done (next (with_terminal k t))

-- `kmalloc(size)` and `kcalloc(count, size)`, each with the code behind it
pub alloc : ℕ → Kernel → (ℕ → Kernel → Outcome Flow) → Outcome Flow
alloc size k f = kmalloc size k.mm >>= λ (p, m). f p (record k { mm = m })

pub alloc_zeroed : ℕ → ℕ → Kernel → (ℕ → Kernel → Outcome Flow) → Outcome Flow
alloc_zeroed count size k f = kcalloc count size k.mm >>= λ (p, m). f p (record k { mm = m })

-- `kfree(ptr)`
pub free : ℕ → Kernel → Outcome Flow
free ptr k = kfree ptr k.mm >>= λ m. done (next (record k { mm = m }))
