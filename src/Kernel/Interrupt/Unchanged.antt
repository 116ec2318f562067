-- ===== src/Kernel/Interrupt/Unchanged.antt =====
-- No interrupt writes to the file system.
use minicore_os.Base.{ℕ, Bool-cases, inl, inr, ltb, Option, none, some}
use minicore_os.Fs.{Fs}
use minicore_os.Kernel.{Handler, timer, keyboard, Kernel, Machine}
use minicore_os.Kernel.Unchanged.{Leaves, going, stopped, faulty, show_then-Leaves}
use minicore_os.Kernel.Keyboard.Unchanged.{keyboard_handler-Leaves}
use minicore_os.Kernel.Interrupt.{
  call, acknowledge, call_handler, irq_handler, unhandled, handle_exception, isr_handler,
}

module _ (P : Fs → Type 0) (hw : Machine) (status scancode : ℕ) where
  call-Leaves : (h : Handler) (k : Kernel) → P k.fs → Leaves P (call hw status scancode h k)
  unfolding call
  call-Leaves timer k p = going p
  call-Leaves keyboard k p = keyboard_handler-Leaves P hw status scancode k p

  call_handler-Leaves :
      (o : Option Handler) (k : Kernel) → P k.fs → Leaves P (call_handler hw status scancode o k)
  unfolding call_handler
  call_handler-Leaves none k p = going p
  call_handler-Leaves (some h) k p = call-Leaves h k p

  pub irq_handler-Leaves :
      (int_no : ℕ) (k : Kernel) → P k.fs → Leaves P (irq_handler hw status scancode int_no k)
  unfolding irq_handler acknowledge
  irq_handler-Leaves int_no k p = elim (Bool-cases (ltb int_no 256)) [
    | inl e ↦ rw e (call_handler-Leaves _ _ p)
    | inr e ↦ rw e faulty
  ]

  handle_exception-Leaves :
      (int_no : ℕ) (o : Option Handler) (k : Kernel)
      → P k.fs
      → Leaves P (handle_exception hw status scancode int_no o k)
  unfolding handle_exception unhandled
  handle_exception-Leaves int_no none k p = show_then-Leaves P _ k _ p λ k p. stopped p
  handle_exception-Leaves int_no (some h) k p = call-Leaves h k p

  pub isr_handler-Leaves :
      (int_no : ℕ) (k : Kernel) → P k.fs → Leaves P (isr_handler hw status scancode int_no k)
  unfolding isr_handler
  isr_handler-Leaves int_no k p = elim (Bool-cases (ltb int_no 256)) [
    | inl e ↦ rw e (handle_exception-Leaves int_no _ k p)
    | inr e ↦ rw e faulty
  ]
