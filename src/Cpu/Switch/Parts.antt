-- ===== src/Cpu/Switch/Parts.antt =====
-- `task_switch` in three parts: what saves the context, the change of the stack, and what resumes.
use minicore_os.Base.{ℕ, ◌+◌, ◌-◌, ◌^◌, ◌≡◌, ◌≤◌, ◌<◌, List, [], ◌∷◌, ◌++◌, wrap32, refl, arith}
use minicore_os.Cpu.{
  Regs, Cpu, load32, store32, StackInstr, pusha, popa, pushf, popf, push_ebp, pop_ebp, mov_ebp_esp,
  ret, push_all, takes, pushes, update, step, run,
}
use minicore_os.Cpu.Stack.{run_words, Room}
use minicore_os.Cpu.Switch.{execute, execute_all, task_switch}

abbrev pub save : List StackInstr
save = push_ebp ∷ mov_ebp_esp ∷ pushf ∷ pusha ∷ []

abbrev pub resume : List StackInstr
resume = popa ∷ popf ∷ pop_ebp ∷ ret ∷ []

-- What `task_switch` leaves on the stack of a task with the registers `r`, from its stack pointer up,
-- with the address `back` to return to. Nothing reads `x` and `y`.
abbrev pub context : (x y : ℕ) → Regs → (back : ℕ) → List ℕ
context x y r back =
    r.edi ∷ r.esi ∷ x ∷ y ∷ r.ebx ∷ r.edx ∷ r.ecx ∷ r.eax ∷ r.eflags ∷ r.ebp ∷ back ∷ []

-- The registers `r` with those that a context of `s` brings back.
abbrev pub resumed : (s : Regs) → (back : ℕ) → Regs → Regs
resumed s back r = record r {
  eax = s.eax;
  ebx = s.ebx;
  ecx = s.ecx;
  edx = s.edx;
  esi = s.esi;
  edi = s.edi;
  ebp = s.ebp;
  eflags = s.eflags;
  eip = back;
}

-- The general registers and the flags hold 32 bits.
pub record Fits (r : Regs) : Type 0 where
  pub eax_lt : r.eax < 2 ^ 32
  pub ebx_lt : r.ebx < 2 ^ 32
  pub ecx_lt : r.ecx < 2 ^ 32
  pub edx_lt : r.edx < 2 ^ 32
  pub esi_lt : r.esi < 2 ^ 32
  pub edi_lt : r.edi < 2 ^ 32
  pub ebp_lt : r.ebp < 2 ^ 32
  pub eflags_lt : r.eflags < 2 ^ 32

module _ (flags : ℕ → ℕ → ℕ) (esp back p q : ℕ) (r : Regs) where
  pub save-Room : 40 ≤ esp → Room flags (esp - 40) (esp + 12) save (r, back ∷ p ∷ q ∷ [])
  unfolding takes pushes
  save-Room h = omega arith

  pub save_words :
      Fits r
      → 40 ≤ esp
      → esp + 12 < 2 ^ 32
      → run_words flags (esp + 12) save (r, back ∷ p ∷ q ∷ [])
        ≡ (record r { ebp = esp - 4 }, context (esp - 4) (esp - 8) r back ++ p ∷ q ∷ [])
  unfolding takes pushes update
  save_words f room h = ground arith

module _ (flags : ℕ → ℕ → ℕ) (top x y back : ℕ) (r s : Regs) where
  pub resume-Room : 44 ≤ top → Room flags (top - 44) top resume (r, context x y s back)
  unfolding takes pushes
  resume-Room h = omega arith

  pub resume_words : run_words flags top resume (r, context x y s back) ≡ (resumed s back r, [])
  unfolding takes pushes update
  resume_words = refl

-- The four instructions in the middle.
abbrev pub change_stacks : (p q : ℕ) → Cpu → Cpu
change_stacks p q c = record {
  regs = record c.regs { eax = p; edx = q };
  esp = q;
  memory = store32 c.memory p c.esp;
}

pub task_switch_parts :
    (flags : ℕ → ℕ → ℕ) (p q : ℕ) (c : Cpu)
    → let c' = run flags save c in
      load32 c'.memory (wrap32 (c'.regs.ebp + 8)) ≡ p
      → load32 c'.memory (wrap32 (c'.regs.ebp + 12)) ≡ q
      → execute_all flags task_switch c ≡ run flags resume (change_stacks p q c')
unfolding execute_all execute task_switch run
task_switch_parts flags p q c first second =
    let c' = run flags save c in
    λ j. run flags resume (record {
      regs = record c'.regs { eax = first j; edx = second j };
      esp = second j;
      memory = store32 c'.memory (first j) c'.esp;
    })

pub resume-memory : (flags : ℕ → ℕ → ℕ) (c : Cpu) → (run flags resume c).memory ≡ c.memory
unfolding run step takes pushes update push_all
resume-memory flags c = refl
