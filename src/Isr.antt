-- ===== src/Isr.antt =====
-- The parts of isr.c that keep state: the table of interrupt handlers, and the commands to the two
-- interrupt controllers. The commands are a log of port writes, the last one first, and what a port
-- reads after a log of writes is the parameter `inb`: the hardware decides it.
pub mod Masks
mod Tests
use Prim.Native.Nat.{bit_and, bit_or}
use minicore_os.Base.{
  ℕ, zero, suc, ◌-◌, ◌^◌, Option, none, some, List, [], ◌∷◌, ltb, leb, ◌==◌, if◌then◌else◌, wrap8,
  get_or, c_string,
}
use minicore_os.Terminal.Output.{Output, writestring, say, color, light_red}

-- `interrupt_handlers`: `H` names the functions that can be registered, a null pointer is `none`.
abbrev pub Handlers : Type 0 → Type 0
Handlers H = ℕ → Option H

module _ {H : Type 0} where
  -- `for (i = 0; i < n; i++) interrupt_handlers[i] = 0`
  pub clear_handlers : ℕ → Handlers H → Handlers H
  clear_handlers zero t = t
  clear_handlers (suc n) t = λ j. if j == n then none else clear_handlers n t j

  pub isr_init : Handlers H → Handlers H
  isr_init t = clear_handlers 256 t

  unfoldable pub register_interrupt_handler : ℕ → H → Handlers H → Handlers H
  register_interrupt_handler n handler t j = if j == n then some handler else t j

abbrev pub Ports : Type 0
Ports = List (ℕ × ℕ)

unfoldable pub irq_ack : ℕ → Ports → Ports
irq_ack irq ports =
    let acked = if leb 8 irq then (0xA0, 0x20) ∷ ports else ports in (0x20, 0x20) ∷ acked

-- the port of the controller of an interrupt line, and its line there
abbrev pub mask_port : ℕ → ℕ
mask_port irq = if ltb irq 8 then 0x21 else 0xA1

abbrev pub mask_line : ℕ → ℕ
mask_line irq = if ltb irq 8 then irq else irq - 8

-- `value & ~(1 << irq)` and `value | (1 << irq)`, as a `uint8_t`
pub clear_bit : ℕ → ℕ → ℕ
clear_bit value irq = wrap8 (bit_and value (2 ^ 32 - 1 - 2 ^ irq))

pub set_bit : ℕ → ℕ → ℕ
set_bit value irq = wrap8 (bit_or value (2 ^ irq))

unfoldable pub irq_enable : (inb : Ports → ℕ → ℕ) → ℕ → Ports → Ports
irq_enable inb irq ports =
    let port = mask_port irq in (port, clear_bit (inb ports port) (mask_line irq)) ∷ ports

pub irq_disable : (inb : Ports → ℕ → ℕ) → ℕ → Ports → Ports
irq_disable inb irq ports =
    let port = mask_port irq in (port, set_bit (inb ports port) (mask_line irq)) ∷ ports

-- `exception_messages`
abbrev pub exception_messages : List (List ℕ)
exception_messages =
    c_string "Division By Zero"
    ∷ c_string "Debug"
    ∷ c_string "Non Maskable Interrupt"
    ∷ c_string "Breakpoint"
    ∷ c_string "Into Detected Overflow"
    ∷ c_string "Out of Bounds"
    ∷ c_string "Invalid Opcode"
    ∷ c_string "No Coprocessor"
    ∷ c_string "Double Fault"
    ∷ c_string "Coprocessor Segment Overrun"
    ∷ c_string "Bad TSS"
    ∷ c_string "Segment Not Present"
    ∷ c_string "Stack Fault"
    ∷ c_string "General Protection Fault"
    ∷ c_string "Page Fault"
    ∷ c_string "Unknown Interrupt"
    ∷ c_string "Coprocessor Fault"
    ∷ c_string "Alignment Check"
    ∷ c_string "Machine Check"
    ∷ c_string "Reserved"
    ∷ c_string "Reserved"
    ∷ c_string "Reserved"
    ∷ c_string "Reserved"
    ∷ c_string "Reserved"
    ∷ c_string "Reserved"
    ∷ c_string "Reserved"
    ∷ c_string "Reserved"
    ∷ c_string "Reserved"
    ∷ c_string "Reserved"
    ∷ c_string "Reserved"
    ∷ c_string "Reserved"
    ∷ c_string "Reserved"
    ∷ []

-- what `isr_handler` prints of an exception that has no handler
pub exception_report : ℕ → List Output
exception_report int_no =
    color light_red
    ∷ say "Exception: "
    ∷ (if ltb int_no 32
        then writestring (get_or exception_messages int_no [])
        else say "Unknown Exception")
    ∷ say "\nSystem Halted.\n"
    ∷ []
