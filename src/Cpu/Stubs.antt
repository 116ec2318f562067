-- ===== src/Cpu/Stubs.antt =====
-- interrupt.asm: the entry points `isr0` to `isr31` and `irq0` to `irq15`, `isr_common_stub` and
-- `irq_common_stub`, which are alike but for the function that they call; with `struct registers` of
-- isr.h, which that function expects.
pub mod Vectors
pub mod Pushed
pub mod Frame
mod Tests
use minicore_os.Base.{
  ℕ, ◌+◌, Bool, ◌||◌, List, [], ◌∷◌, ◌++◌, ◌==◌, leb, ◌&&◌, if◌then◌else◌, get_or,
}
use minicore_os.Cpu.{
  Cpu, StackInstr, interrupt, cli, sti, pusha, popa, push_byte, push_eax, pop_ebx, mov_ax_ds,
  mov_bx_segments, mov_ax_segments, add_esp, call, iret, load32, words, run,
}

-- The exceptions for which the processor pushes an error code, by its manual.
pub has_error_code : ℕ → Bool
has_error_code n = n == 8 || (leb 10 n && leb n 14) || n == 17 || n == 21 || n == 29 || n == 30

-- The entry points that leave out `push byte 0`.
pub omits_zero : ℕ → Bool
omits_zero n = n == 8 || (leb 10 n && leb n 14)

-- the word in the place of the error code
abbrev pub dummy_error : Bool → List StackInstr
dummy_error omits = if omits then [] else push_byte 0 ∷ []

-- the common stub up to its call
abbrev pub save_state : List StackInstr
save_state = pusha ∷ mov_ax_ds ∷ push_eax ∷ mov_ax_segments 0x10 ∷ []

-- the entry point of a vector, up to the call
abbrev pub entry_point : (omits : Bool) → ℕ → List StackInstr
entry_point omits n = cli ∷ (dummy_error omits ++ push_byte n ∷ save_state)

-- the common stub behind its call
abbrev pub restore_state : List StackInstr
restore_state = pop_ebx ∷ mov_bx_segments ∷ popa ∷ add_esp 2 ∷ sti ∷ iret ∷ []

-- the error code of the processor, where it pushes one
abbrev pub error_words : Bool → ℕ → List ℕ
error_words has code = if has then code ∷ [] else []

-- The processor at the first instruction of the C function, after an interrupt with the vector `n`.
-- The selector 0x08 is that of the gates of `idt_init`.
pub at_handler : (flags : ℕ → ℕ → ℕ) → (back n code : ℕ) → Cpu → Cpu
at_handler flags back n code c =
    run flags
      (interrupt 0x08 (error_words (has_error_code n) code)
        ∷ (entry_point (omits_zero n) n ++ call back ∷ []))
      c

-- A whole interrupt. `handler` is the C function, `isr_handler` or `irq_handler`, as it is compiled.
pub serve : (flags : ℕ → ℕ → ℕ) → (handler : Cpu → Cpu) → (back n code : ℕ) → Cpu → Cpu
serve flags handler back n code c =
    run flags restore_state (handler (at_handler flags back n code c))

-- `struct registers`
pub record Registers : Type 0 where
  pub ds : ℕ
  pub edi : ℕ
  pub esi : ℕ
  pub ebp : ℕ
  pub esp : ℕ
  pub ebx : ℕ
  pub edx : ℕ
  pub ecx : ℕ
  pub eax : ℕ
  pub int_no : ℕ
  pub err_code : ℕ
  pub eip : ℕ
  pub cs : ℕ
  pub eflags : ℕ
  pub useresp : ℕ
  pub ss : ℕ

-- The argument of a C function at its first instruction: the word above the return address.
pub argument : Cpu → ℕ
argument c = load32 c.memory (c.esp + 4)

-- the fields that C reads through a pointer `r`
pub read_registers : (ℕ → ℕ) → (r : ℕ) → Registers
read_registers m r =
    let ws = words m r 16 in
    record {
      ds = get_or ws 0 0;
      edi = get_or ws 1 0;
      esi = get_or ws 2 0;
      ebp = get_or ws 3 0;
      esp = get_or ws 4 0;
      ebx = get_or ws 5 0;
      edx = get_or ws 6 0;
      ecx = get_or ws 7 0;
      eax = get_or ws 8 0;
      int_no = get_or ws 9 0;
      err_code = get_or ws 10 0;
      eip = get_or ws 11 0;
      cs = get_or ws 12 0;
      eflags = get_or ws 13 0;
      useresp = get_or ws 14 0;
      ss = get_or ws 15 0;
    }
