-- ===== src/Cpu/Switch.antt =====
-- task_switch.asm: `task_switch` saves the registers and the flags on the stack, leaves the stack
-- pointer where its first argument points to, and goes on with the stack of its second argument.
pub mod Parts
pub mod Context
mod Tests
use minicore_os.Base.{ℕ, ◌+◌, List, [], ◌∷◌, wrap32}
use minicore_os.Cpu.{
  Cpu, load32, store32, StackInstr, pusha, popa, pushf, popf, push_ebp, pop_ebp, mov_ebp_esp, ret,
  step,
}

-- The instructions of the middle reach the memory by an address, or set `esp`. `mov_eax_ebp n` is
-- `mov eax, [ebp + n]`.
pub data Instr : Type 0 where
  on_stack : StackInstr → Instr
  mov_eax_ebp mov_edx_ebp : ℕ → Instr
  mov_at_eax_esp mov_esp_edx : Instr

pub execute : (flags : ℕ → ℕ → ℕ) → Instr → Cpu → Cpu
execute flags (on_stack i) c = step flags i c
execute flags (mov_eax_ebp n) c = record c {
  regs = record c.regs { eax = load32 c.memory (wrap32 (c.regs.ebp + n)) };
}
execute flags (mov_edx_ebp n) c = record c {
  regs = record c.regs { edx = load32 c.memory (wrap32 (c.regs.ebp + n)) };
}
execute flags mov_at_eax_esp c = record c { memory = store32 c.memory c.regs.eax c.esp }
execute flags mov_esp_edx c = record c { esp = c.regs.edx }

pub execute_all : (flags : ℕ → ℕ → ℕ) → List Instr → Cpu → Cpu
execute_all flags [] c = c
execute_all flags (i ∷ code) c = execute_all flags code (execute flags i c)

pub task_switch : List Instr
task_switch =
    on_stack push_ebp
    ∷ on_stack mov_ebp_esp
    ∷ on_stack pushf
    ∷ on_stack pusha
    ∷ mov_eax_ebp 8
    ∷ mov_edx_ebp 12
    ∷ mov_at_eax_esp
    ∷ mov_esp_edx
    ∷ on_stack popa
    ∷ on_stack popf
    ∷ on_stack pop_ebp
    ∷ on_stack ret
    ∷ []
