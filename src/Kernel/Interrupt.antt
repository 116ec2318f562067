-- ===== src/Kernel/Interrupt.antt =====
-- The interrupts of isr.c: exceptions, and the requests of devices with the handlers registered for
-- them. `int_no` is the number that the C code reads as `r->int_no`. The table of handlers has 256
-- entries: behind it a read is a fault.
pub mod Keeps
pub mod Unchanged
use minicore_os.Base.{ℕ, Option, none, some, ltb, if◌then◌else◌, wrap8, sub32, Outcome, done, fault}
use minicore_os.Scheduler.{scheduler_tick}
use minicore_os.Isr.{irq_ack, exception_report}
use minicore_os.Kernel.{Handler, timer, keyboard, Kernel, Machine, Flow, next, halted, ◌▸◌, show}
use minicore_os.Kernel.Keyboard.{keyboard_handler}

-- A call of a registered function. The timer's is `scheduler_tick`, the keyboard's is
-- `keyboard_interrupt_handler`, which reads `status` and `scancode` from the ports.
pub call : Machine → (status scancode : ℕ) → Handler → Kernel → Outcome Flow
call hw status scancode timer k = done (next (record k { sched = scheduler_tick k.sched }))
call hw status scancode keyboard k = keyboard_handler hw status scancode k

pub acknowledge : ℕ → Kernel → Kernel
acknowledge irq k = record k { idt = record k.idt { ports = irq_ack irq k.idt.ports } }

-- the handler of an interrupt, if there is one
pub call_handler : Machine → (status scancode : ℕ) → Option Handler → Kernel → Outcome Flow
call_handler hw status scancode none k = done (next k)
call_handler hw status scancode (some h) k = call hw status scancode h k

pub irq_handler : Machine → (status scancode : ℕ) → ℕ → Kernel → Outcome Flow
irq_handler hw status scancode int_no k =
    let k' = acknowledge (wrap8 (sub32 int_no 32)) k in
    if ltb int_no 256 then call_handler hw status scancode (k'.handlers int_no) k' else fault

-- An exception without a handler is reported, and the processor halts.
pub unhandled : ℕ → Kernel → Outcome Flow
unhandled int_no k = show (exception_report int_no) k ▸ λ k. done (halted k)

pub handle_exception : Machine → (status scancode : ℕ) → ℕ → Option Handler → Kernel → Outcome Flow
handle_exception hw status scancode int_no none k = unhandled int_no k
handle_exception hw status scancode int_no (some h) k = call hw status scancode h k

pub isr_handler : Machine → (status scancode : ℕ) → ℕ → Kernel → Outcome Flow
isr_handler hw status scancode int_no k =
    if ltb int_no 256
    then handle_exception hw status scancode int_no (k.handlers int_no) k
    else fault
