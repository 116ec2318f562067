-- ===== src/Cpu/Switch/Tests.antt =====
-- Two tasks that switch to one another.
use minicore_os.Base.{ℕ, ◌+◌, ◌-◌, ◌≡◌, ◌≤◌, ◌∙◌, ◌⊎◌, inl, inr, sym, refl, arith}
use minicore_os.Cpu.{Regs, Cpu, load32, store32}
use minicore_os.Cpu.Memory.{load32-store32_apart}
use minicore_os.Cpu.Stack.{Holds}
use minicore_os.Cpu.Switch.{execute_all, task_switch}
use minicore_os.Cpu.Switch.Parts.{context, resumed}
use minicore_os.Cpu.Switch.Context.{Calls, Waits, task_switch_lem, task_switch-task_switch}
use minicore_os.Cpu.Sample.{keep_flags, some_regs, interrupted}

-- the words `a`, `b` and `c` at an address
abbrev store_three : (m : ℕ → ℕ) (at_ a b c : ℕ) → ℕ → ℕ
store_three m at_ a b c = store32 (store32 (store32 m at_ a) (at_ + 4) b) (at_ + 8) c

-- A task calls `task_switch(0x500, 0x7000)`, where 0x7000 leads to a context of zeros.
abbrev calling : Cpu
calling = record interrupted { memory = store_three (λ _. 0) 0x9000 0x100300 0x500 0x7000 }

abbrev zeros : Regs
zeros = record {
  eax = 0;
  ebx = 0;
  ecx = 0;
  edx = 0;
  esi = 0;
  edi = 0;
  ebp = 0;
  ds = 0;
  es = 0;
  fs = 0;
  gs = 0;
  eflags = 0;
  eip = 0;
  cs = 0;
}

calling-Calls : Calls 0x100300 0x500 0x7000 calling
unfolding load32 store32
calling-Calls = record {
  fits = omega arith;
  room = omega arith;
  esp_lt = omega arith;
  called = (refl, (refl, (refl, tt)));
  slot = inl (omega arith);
}

calling-Waits : Waits 0x500 0x7000 0 0 zeros 0 calling
unfolding load32 store32
calling-Waits = record {
  saved =
      (refl, (refl, (refl, (refl, (refl, (refl, (refl, (refl, (refl, (refl, (refl, tt)))))))))));
  q_lt = omega arith;
  off_stack = inl (omega arith);
  off_slot = inr (omega arith);
}

task_switch_lem_example :
    let c' = execute_all keep_flags task_switch calling in
    (c'.regs ≡ resumed zeros 0 some_regs)
    × (c'.esp ≡ 0x702C)
    × Holds c'.memory (0x9000 - 40) (context (0x9000 - 4) (0x9000 - 8) some_regs 0x100300)
    × (load32 c'.memory 0x500 ≡ 0x9000 - 40)
    × ((b : ℕ)
        → (b + 4 ≤ 0x9000 - 40) ⊎ (0x9000 - 40 + 52 ≤ b)
        → (b + 4 ≤ 0x500) ⊎ (0x500 + 4 ≤ b)
        → load32 c'.memory b ≡ load32 calling.memory b)
task_switch_lem_example =
    task_switch_lem keep_flags 0x100300 0x500 0x7000 calling calling-Calls 0 0 zeros 0 calling-Waits

-- Another task, on a stack below, calls `task_switch(0x504, 0x8FD8)`: the context of the first.
abbrev later : Cpu
later =
    let m = (execute_all keep_flags task_switch calling).memory in
    record {
      regs = zeros;
      esp = 0x8000;
      memory = store_three m 0x8000 0x100400 0x504 (0x9000 - 40);
    }

slot_filled : load32 (execute_all keep_flags task_switch calling).memory 0x500 ≡ 0x9000 - 40
slot_filled =
    (task_switch_lem keep_flags 0x100300 0x500 0x7000 calling calling-Calls 0 0 zeros 0
      calling-Waits).3

at_slot : load32 later.memory 0x8008 ≡ 0x9000 - 40
unfolding load32 store32
at_slot = refl

later-Calls :
    Calls 0x100400 0x504 (load32 (execute_all keep_flags task_switch calling).memory 0x500) later
unfolding load32 store32
later-Calls = record {
  fits = omega arith;
  room = omega arith;
  esp_lt = omega arith;
  called = (refl, (refl, (at_slot ∙ sym slot_filled, tt)));
  slot = inl (omega arith);
}

later-kept :
    (b : ℕ)
    → 0x9000 - 40 ≤ b
    → b + 4 ≤ 0x9000 + 4
    → load32 later.memory b ≡ load32 (execute_all keep_flags task_switch calling).memory b
later-kept b low high =
    load32-store32_apart _ 0x8008 _ b (inl (omega arith))
    ∙ load32-store32_apart _ 0x8004 _ b (inl (omega arith))
    ∙ load32-store32_apart _ 0x8000 _ b (inl (omega arith))

task_switch-task_switch_example :
    let d' = execute_all keep_flags task_switch later in
    (d'.regs ≡ resumed some_regs 0x100300 zeros) × (d'.esp ≡ 0x9004)
task_switch-task_switch_example =
    task_switch-task_switch keep_flags 0x100300 0x500 0x7000 0 0 zeros 0 calling calling-Calls
      calling-Waits 0x100400 0x504 later later-Calls later-kept (inr (omega arith))
      (inr (omega arith))
