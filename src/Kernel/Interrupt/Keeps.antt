-- ===== src/Kernel/Interrupt/Keeps.antt =====
-- Every interrupt and every exception whose number has an entry in the table leaves a kernel that is
-- ready for the next key, or halts; every other is a fault.
use minicore_os.Base.{
  ℕ, ◌<◌, ◌≤◌, ◌≡◌, lt→ltb, ltb, Option, none, some, ap, refl, false, done, fault, arith,
}
use minicore_os.Isr.{exception_report}
use minicore_os.Scheduler.Tick.{scheduler_tick-idle}
use minicore_os.Scheduler.{scheduler_tick}
use minicore_os.Kernel.{Handler, timer, keyboard, Kernel, Machine, halted, ◌▸◌}
use minicore_os.Kernel.Invariant.{show-Valid}
use minicore_os.Kernel.Interrupt.{
  call, acknowledge, call_handler, irq_handler, unhandled, handle_exception, isr_handler,
}
use minicore_os.Kernel.Keyboard.Keeps.{IsReady, Readies, Readies-next, keyboard_handler-Readies}

tick-IsReady : {k : Kernel} → IsReady k → IsReady (record k { sched = scheduler_tick k.sched })
tick-IsReady ((bs, v), line) =
    let ((ys, w), idle) = scheduler_tick-idle v.sched v.idle in
    (
      (
        bs,
        record {
          heap = v.heap;
          queue = ys;
          sched = w;
          idle = idle;
          fs = v.fs;
          screen = v.screen;
          buffer = v.buffer;
        },
      ),
      line,
    )

acknowledge-IsReady : (irq : ℕ) {k : Kernel} → IsReady k → IsReady (acknowledge irq k)
unfolding acknowledge
acknowledge-IsReady irq ((bs, v), line) = (
  (
    bs,
    record {
      heap = v.heap;
      queue = v.queue;
      sched = v.sched;
      idle = v.idle;
      fs = v.fs;
      screen = v.screen;
      buffer = v.buffer;
    },
  ),
  line,
)

module _ (hw : Machine) (status scancode : ℕ) where
  call-Readies : (h : Handler) {k : Kernel} → IsReady k → Readies (call hw status scancode h k)
  unfolding call
  call-Readies timer r = Readies-next (tick-IsReady r)
  call-Readies keyboard r = keyboard_handler-Readies hw status scancode r

  call_handler-Readies :
      (o : Option Handler) {k : Kernel} → IsReady k → Readies (call_handler hw status scancode o k)
  unfolding call_handler
  call_handler-Readies none r = Readies-next r
  call_handler-Readies (some h) r = call-Readies h r

  -- With an entry in the table an interrupt of a device is acknowledged and handled, whichever handler
  -- stands there, and the
  -- shell waits for the next key again.
  pub irq_handler-Readies :
      (int_no : ℕ) {k : Kernel}
      → int_no < 256
      → IsReady k
      → Readies (irq_handler hw status scancode int_no k)
  unfolding irq_handler
  irq_handler-Readies int_no h r =
      rw (lt→ltb int_no 256 h) (call_handler-Readies _ (acknowledge-IsReady _ r))

  handle_exception-Readies :
      (int_no : ℕ) (o : Option Handler) {k : Kernel}
      → IsReady k
      → Readies (handle_exception hw status scancode int_no o k)
  unfolding handle_exception unhandled
  handle_exception-Readies int_no none ((bs, v), _) =
      let (t, e, w) = show-Valid (exception_report int_no) v in
      (halted _, ap (λ r. r ▸ λ k. done (halted k)) e, (bs, w))
  handle_exception-Readies int_no (some h) r = call-Readies h r

  -- A number with no entry in the table is a fault.
  pub irq_handler-beyond :
      (int_no : ℕ) (k : Kernel) → 256 ≤ int_no → irq_handler hw status scancode int_no k ≡ fault
  unfolding irq_handler
  irq_handler-beyond int_no k h =
      let beyond : ltb int_no 256 ≡ false = ground arith in rw beyond refl

  pub isr_handler-beyond :
      (int_no : ℕ) (k : Kernel) → 256 ≤ int_no → isr_handler hw status scancode int_no k ≡ fault
  unfolding isr_handler
  isr_handler-beyond int_no k h =
      let beyond : ltb int_no 256 ≡ false = ground arith in rw beyond refl

  -- With an entry in the table an exception is handled, or it is reported and the processor halts.
  pub isr_handler-Readies :
      (int_no : ℕ) {k : Kernel}
      → int_no < 256
      → IsReady k
      → Readies (isr_handler hw status scancode int_no k)
  unfolding isr_handler
  isr_handler-Readies int_no h r = rw (lt→ltb int_no 256 h) (handle_exception-Readies int_no _ r)
