-- ===== src/Kernel/Events.antt =====
-- The kernel after its start: the loop of the shell polls the keyboard, devices interrupt it once the
-- interrupts are on, and the processor may raise exceptions. One event runs to its end before the next.
use minicore_os.Base.{
  ℕ, ◌≡◌, ◌<◌, ◌≤◌, ◌⊎◌, inl, inr, true, false, none, ap, ◌∙◌, sym, subst, Outcome, done, fault,
  ltb, Bool-cases, arith,
}
use minicore_os.Scheduler.{is_running}
use minicore_os.Scheduler.States.{state_of}
use minicore_os.Scheduler.Invariant.{points_to}
use minicore_os.Kernel.{Kernel, Machine, Flow, next}
use minicore_os.Kernel.Boot.{kernel_main}
use minicore_os.Kernel.Boot.Ready.{IsLoaded, kernel_main-IsReady}
use minicore_os.Kernel.Interrupt.{irq_handler, isr_handler}
use minicore_os.Kernel.Interrupt.Keeps.{
  irq_handler-Readies, isr_handler-Readies, irq_handler-beyond, isr_handler-beyond,
}
use minicore_os.Kernel.Keyboard.{keyboard_handler}
use minicore_os.Kernel.Keyboard.Keeps.{IsReady, ReadyFlow, Readies, keyboard_handler-Readies}

-- What can happen, with what the two ports of the keyboard read.
pub data Event : Type 0 where
  poll : (status scancode : ℕ) → Event
  request : (int_no status scancode : ℕ) → Event
  exception : (int_no status scancode : ℕ) → Event

unfoldable pub handle : Machine → Event → Kernel → Outcome Flow
handle hw (poll status scancode) k = keyboard_handler hw status scancode k
handle hw (request int_no status scancode) k = irq_handler hw status scancode int_no k
handle hw (exception int_no status scancode) k = isr_handler hw status scancode int_no k

-- Devices wait while the interrupts are off. The entry points of interrupt.asm pass no pointer to the
-- frame, so the number that the C code reads is not the vector: it may be any number.
pub data Possible (k : Kernel) : Event → Type 0 where
  polls : (status scancode : ℕ) → Possible k (poll status scancode)
  requests :
      (int_no status scancode : ℕ)
      → k.interrupts ≡ true
      → Possible k (request int_no status scancode)
  excepts : (int_no status scancode : ℕ) → Possible k (exception int_no status scancode)

-- The number that an event looks up in the table of handlers; a poll looks up none.
abbrev pub looked_up : Event → ℕ
looked_up (poll status scancode) = 0
looked_up (request int_no status scancode) = int_no
looked_up (exception int_no status scancode) = int_no

-- The kernels that the start from `loaded` and any sequence of events lead to.
pub data Reachable (hw : Machine) (loaded : Kernel) : Flow → Type 0 where
  started : (f : Flow) → kernel_main hw loaded ≡ done f → Reachable hw loaded f
  after :
      (k : Kernel) (e : Event) (f : Flow)
      → Reachable hw loaded (next k)
      → Possible k e
      → handle hw e k ≡ done f
      → Reachable hw loaded f

handle-Readies :
    (hw : Machine) {k : Kernel} (e : Event)
    → looked_up e < 256
    → IsReady k
    → Readies (handle hw e k)
unfolding handle
handle-Readies hw (poll status scancode) h r = keyboard_handler-Readies hw status scancode r
handle-Readies hw (request int_no status scancode) h r =
    irq_handler-Readies hw status scancode int_no h r
handle-Readies hw (exception int_no status scancode) h r =
    isr_handler-Readies hw status scancode int_no h r

-- An event that looks behind the table is a fault.
handle-beyond : (hw : Machine) (k : Kernel) (e : Event) → 256 ≤ looked_up e → handle hw e k ≡ fault
unfolding handle
handle-beyond hw k (poll status scancode) h = absurd (omega arith)
handle-beyond hw k (request int_no status scancode) h =
    irq_handler-beyond hw status scancode int_no k h
handle-beyond hw k (exception int_no status scancode) h =
    isr_handler-beyond hw status scancode int_no k h

handle-inside :
    (hw : Machine) (k : Kernel) (e : Event) {f : Flow} → handle hw e k ≡ done f → looked_up e < 256
handle-inside hw k e {f} e' = elim (Bool-cases (ltb (looked_up e) 256)) [
  | inl inside ↦ ground arith
  | inr beyond ↦ cc (sym (handle-beyond hw k e (ground arith)) ∙ e')
]

done-injective : {f g : Flow} → done f ≡ done g → f ≡ g
done-injective e = cc e

Readies-done : {o : Outcome Flow} {f : Flow} → Readies o → o ≡ done f → ReadyFlow f
Readies-done (g, e, r) e' = subst ReadyFlow (done-injective (sym e ∙ e')) r

-- In every kernel that can be reached from the variables as the loader leaves them, the heap, the
-- scheduler, the file system and the line that is typed are valid, and the cursor is on the screen.
pub reachable-ReadyFlow :
    (hw : Machine) (loaded : Kernel) {f : Flow}
    → IsLoaded loaded
    → Reachable hw loaded f
    → ReadyFlow f
reachable-ReadyFlow hw loaded start (started f e) =
    let (k, e', (r, _, _, _, _, _)) = kernel_main-IsReady hw loaded start in
    subst ReadyFlow (done-injective (sym e' ∙ e)) r
reachable-ReadyFlow hw loaded start (after k e f before can e') =
    Readies-done
      (handle-Readies hw e (handle-inside hw k e e') (reachable-ReadyFlow hw loaded start before))
      e'

-- In a kernel that can be reached, every possible event whose number has an entry in the table of 256
-- handlers is handled to its end without a fault, a poll of the keyboard always: the loop of the shell
-- goes on, or the processor has halted. An interrupt or exception with a larger number is a fault:
-- the code reads behind the table.
pub reachable-handle :
    (hw : Machine) (loaded k : Kernel) (e : Event)
    → IsLoaded loaded
    → Reachable hw loaded (next k)
    → Possible k e
    → ((looked_up e < 256) × ((f : Flow) × (handle hw e k ≡ done f) × Reachable hw loaded f))
      ⊎ ((256 ≤ looked_up e) × (handle hw e k ≡ fault))
reachable-handle hw loaded k e start before can = elim (Bool-cases (ltb (looked_up e) 256)) [
  | inl inside ↦
      let lt : looked_up e < 256 = ground arith in
      let (f, e', _) = handle-Readies hw e lt (reachable-ReadyFlow hw loaded start before) in
      inl (lt, (f, e', after k e f before can e'))
  | inr beyond ↦ let ge : 256 ≤ looked_up e = ground arith in inr (ge, handle-beyond hw k e ge)
]

-- In a kernel that can be reached, whatever tasks `starttasks` has created and however often the timer
-- has ticked, no task runs.
pub reachable-idle :
    (hw : Machine) (loaded k : Kernel) (i : ℕ)
    → IsLoaded loaded
    → Reachable hw loaded (next k)
    → (k.sched.current ≡ none) × (is_running (state_of k.sched i) ≡ false)
reachable-idle hw loaded k i start before =
    let ((_, v), _) = reachable-ReadyFlow hw loaded start before in
    (v.idle, sym (v.sched.active i) ∙ ap (λ c. points_to c i) v.idle)
