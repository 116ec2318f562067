-- ===== src/Cpu.antt =====
-- The part of the processor that interrupt.asm and task_switch.asm use: the registers, the memory
-- with the stack in it, and their instructions, as the processor's manual describes them.
pub mod Memory
pub mod Stack
pub mod Stubs
pub mod Switch
mod Sample
use minicore_os.Base.{
  ℕ, zero, suc, ◌+◌, ◌*◌, ◌/◌, ◌%◌, ◌^◌, List, [], ◌∷◌, ◌==◌, if◌then◌else◌, get_or, wrap32, sub32,
}

-- The registers but for `esp`. `cs` and `eip` are those of the code that an interrupt leaves and that
-- `ret` and `iret` go to: inside a routine, which runs straight on, `eip` is not followed.
pub record Regs : Type 0 where
  pub eax : ℕ
  pub ebx : ℕ
  pub ecx : ℕ
  pub edx : ℕ
  pub esi : ℕ
  pub edi : ℕ
  pub ebp : ℕ
  pub ds : ℕ
  pub es : ℕ
  pub fs : ℕ
  pub gs : ℕ
  pub eflags : ℕ
  pub eip : ℕ
  pub cs : ℕ

-- The memory is a map from addresses to bytes.
pub record Cpu : Type 0 where
  pub regs : Regs
  pub esp : ℕ
  pub memory : ℕ → ℕ

-- the word of 32 bits at an address, its low byte first
pub load32 : (ℕ → ℕ) → ℕ → ℕ
load32 m a =
    m a % 2 ^ 8
    + 2 ^ 8 * (m (a + 1) % 2 ^ 8)
    + 2 ^ 16 * (m (a + 2) % 2 ^ 8)
    + 2 ^ 24 * (m (a + 3) % 2 ^ 8)

pub store32 : (ℕ → ℕ) → ℕ → ℕ → ℕ → ℕ
store32 m a v b =
    if b == a
    then v % 2 ^ 8
    else if b == a + 1
    then v / 2 ^ 8 % 2 ^ 8
    else if b == a + 2
    then v / 2 ^ 16 % 2 ^ 8
    else if b == a + 3
    then v / 2 ^ 24 % 2 ^ 8
    else m b

-- The instructions that reach the memory through `esp` alone. `mov_ax_segments v` is the sequence
-- `mov ax, v`, `mov ds, ax` and so on to `gs`, and `mov_bx_segments` the same from `bx`. `interrupt`
-- is what the processor does on its own before the first instruction of a handler: it pushes the
-- flags, `cs`, `eip` and, for some vectors, an error code. `call back` pushes the address behind the call.
pub data StackInstr : Type 0 where
  interrupt : (selector : ℕ) (error : List ℕ) → StackInstr
  cli sti pusha popa pushf popf : StackInstr
  push_byte : ℕ → StackInstr
  push_eax push_ebp pop_ebx pop_ebp : StackInstr
  mov_ax_ds mov_bx_segments mov_ebp_esp : StackInstr
  mov_ax_segments : ℕ → StackInstr
  add_esp : (count : ℕ) → StackInstr
  call : (back : ℕ) → StackInstr
  ret iret : StackInstr

-- The flag that lets devices interrupt is bit 9.
abbrev pub clear_if : ℕ → ℕ
clear_if flags = flags / 2 ^ 10 * 2 ^ 10 + flags % 2 ^ 9

abbrev pub set_if : ℕ → ℕ
set_if flags = clear_if flags + 2 ^ 9

-- how many words an instruction pops; `add esp, 4 * count` drops `count` of them
pub takes : StackInstr → ℕ
takes popa = 8
takes popf = 1
takes pop_ebx = 1
takes pop_ebp = 1
takes (add_esp count) = count
takes ret = 1
takes iret = 3
takes _ = 0

-- what it pushes, the first value first, where `esp` is the stack pointer before it
pub pushes : StackInstr → (esp : ℕ) → Regs → List ℕ
pushes (interrupt selector error) esp r = r.eflags ∷ r.cs ∷ r.eip ∷ error
pushes pusha esp r = r.eax ∷ r.ecx ∷ r.edx ∷ r.ebx ∷ esp ∷ r.ebp ∷ r.esi ∷ r.edi ∷ []
pushes pushf esp r = r.eflags ∷ []
pushes (push_byte n) esp r = n ∷ []
pushes push_eax esp r = r.eax ∷ []
pushes push_ebp esp r = r.ebp ∷ []
pushes (call back) esp r = back ∷ []
pushes _ esp r = []

-- the selector `v` in `ds`, `es`, `fs` and `gs`
abbrev pub with_segments : ℕ → Regs → Regs
with_segments v r = record r { ds = v; es = v; fs = v; gs = v }

-- What it does to the registers, `ws` being the words that it pops, the one on top first. The
-- arithmetic flags after `add esp` are `flags`, whatever they are.
pub update : (flags : ℕ → ℕ → ℕ) → StackInstr → (esp : ℕ) → List ℕ → Regs → Regs
update flags (interrupt selector error) esp ws r = record r {
  eflags = clear_if r.eflags;
  cs = selector;
}
update flags cli esp ws r = record r { eflags = clear_if r.eflags }
update flags sti esp ws r = record r { eflags = set_if r.eflags }
update flags popa esp ws r = record r {
  edi = get_or ws 0 0;
  esi = get_or ws 1 0;
  ebp = get_or ws 2 0;
  ebx = get_or ws 4 0;
  edx = get_or ws 5 0;
  ecx = get_or ws 6 0;
  eax = get_or ws 7 0;
}
update flags popf esp ws r = record r { eflags = get_or ws 0 0 }
update flags pop_ebx esp ws r = record r { ebx = get_or ws 0 0 }
update flags pop_ebp esp ws r = record r { ebp = get_or ws 0 0 }
update flags mov_ax_ds esp ws r = record r { eax = r.eax / 2 ^ 16 * 2 ^ 16 + r.ds % 2 ^ 16 }
update flags mov_bx_segments esp ws r = with_segments (r.ebx % 2 ^ 16) r
update flags (mov_ax_segments v) esp ws r =
    with_segments v (record r { eax = r.eax / 2 ^ 16 * 2 ^ 16 + v })
update flags mov_ebp_esp esp ws r = record r { ebp = esp }
update flags (add_esp count) esp ws r = record r { eflags = flags esp r.eflags }
update flags ret esp ws r = record r { eip = get_or ws 0 0 }
update flags iret esp ws r = record r {
  eip = get_or ws 0 0;
  cs = get_or ws 1 0 % 2 ^ 16;
  eflags = get_or ws 2 0;
}
update flags _ esp ws r = r

-- the `n` words from an address up
pub words : (ℕ → ℕ) → ℕ → ℕ → List ℕ
words m a zero = []
words m a (suc n) = load32 m a ∷ words m (a + 4) n

pub push_all : List ℕ → Cpu → Cpu
push_all [] c = c
push_all (v ∷ vs) c =
    let a = sub32 c.esp 4 in push_all vs (record c { esp = a; memory = store32 c.memory a v })

-- One instruction: it pops, changes the registers and pushes.
pub step : (flags : ℕ → ℕ → ℕ) → StackInstr → Cpu → Cpu
step flags i c = push_all (pushes i c.esp c.regs) (record c {
  regs = update flags i c.esp (words c.memory c.esp (takes i)) c.regs;
  esp = wrap32 (c.esp + 4 * takes i);
})

pub run : (flags : ℕ → ℕ → ℕ) → List StackInstr → Cpu → Cpu
run flags [] c = c
run flags (i ∷ code) c = run flags code (step flags i c)
