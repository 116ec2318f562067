-- ===== src/Cpu/Switch/Context.antt =====
-- A switch of stacks saves the context of the code that calls it and resumes the other one.
use minicore_os.Base.{
  ℕ, ◌+◌, ◌-◌, ◌^◌, ◌≡◌, ◌≤◌, ◌<◌, ◌⊎◌, List, [], ◌∷◌, ◌++◌, wrap32, refl, ap, sym, subst, ◌∙◌,
  arith,
}
use minicore_os.Cpu.{Regs, Cpu, load32, run}
use minicore_os.Cpu.Memory.{load32-store32, load32-store32_apart}
use minicore_os.Cpu.Stack.{Stands, Holds, Holds-prefix, Holds-kept, run-Stands, run-apart}
use minicore_os.Cpu.Switch.{execute_all, task_switch}
use minicore_os.Cpu.Switch.Parts.{
  save, resume, context, resumed, Fits, save-Room, save_words, resume-Room, resume_words,
  change_stacks, task_switch_parts, resume-memory,
}

-- The areas of `n` bytes at `a` and of `k` bytes at `b` do not overlap.
abbrev pub Apart : (a n b k : ℕ) → Type 0
Apart a n b k = (a + n ≤ b) ⊎ (b + k ≤ a)

-- A call `task_switch(p, q)` that returns to `back`: it has room on its stack for the context, and `p`
-- points out of the area that the call uses.
pub record Calls (back p q : ℕ) (c : Cpu) : Type 0 where
  pub fits : Fits c.regs
  pub room : 40 ≤ c.esp
  pub esp_lt : c.esp + 12 < 2 ^ 32
  pub called : Holds c.memory c.esp (back ∷ p ∷ q ∷ [])
  pub slot : Apart p 4 (c.esp - 40) 52

-- The stack pointer `q` leads to a context that the call does not overwrite.
pub record Waits (p q x y : ℕ) (s : Regs) (back : ℕ) (c : Cpu) : Type 0 where
  pub saved : Holds c.memory q (context x y s back)
  pub q_lt : q + 44 < 2 ^ 32
  pub off_stack : Apart q 44 (c.esp - 40) 52
  pub off_slot : Apart q 44 p 4

module _ (flags : ℕ → ℕ → ℕ) (back p q : ℕ) (c : Cpu) (call : Calls back p q c) where
  call-Stands : Stands (c.esp + 12) c.regs (back ∷ p ∷ q ∷ []) c
  call-Stands = record {
    regs_lem = refl;
    held = call.called;
    reaches = omega arith;
    bounded = call.esp_lt;
  }

  save-Stands :
      Stands
        (c.esp + 12)
        (record c.regs { ebp = c.esp - 4 })
        (context (c.esp - 4) (c.esp - 8) c.regs back ++ p ∷ q ∷ [])
        (run flags save c)
  save-Stands =
      subst (λ (s : Regs × List ℕ). Stands (c.esp + 12) s.0 s.1 (run flags save c))
        (save_words flags c.esp back p q c.regs call.fits call.room call.esp_lt)
        (run-Stands flags (c.esp - 40) (c.esp + 12) save c.regs _ c call-Stands
          (save-Room flags c.esp back p q c.regs call.room))

  save_outside :
      (b : ℕ) → Apart b 4 (c.esp - 40) 52 → load32 (run flags save c).memory b ≡ load32 c.memory b
  save_outside b away =
      run-apart (c.esp - 40) (c.esp + 12) b (ground (arith, call.room)) flags save c.regs _ c
        call-Stands (save-Room flags c.esp back p q c.regs call.room)

  -- the words of the two arguments, which `ebp` leads to
  arguments :
      let c' = run flags save c in
      (load32 c'.memory (wrap32 (c'.regs.ebp + 8)) ≡ p)
      × (load32 c'.memory (wrap32 (c'.regs.ebp + 12)) ≡ q)
  arguments =
      let c' = run flags save c in
      let s = save-Stands in
      let (_, (_, (_, (_, (_, (_, (_, (_, (_, (_, (_, (at_p, (at_q, _))))))))))))) = s.held in
      let e : c'.regs.ebp ≡ c.esp - 4 = ap (λ (r : Regs). r.ebp) s.regs_lem in
      (
        ap (load32 c'.memory) {y = c'.esp + 4 + 4 + 4 + 4 + 4 + 4 + 4 + 4 + 4 + 4 + 4}
              (omega (arith, e, s.reaches, call.room, call.esp_lt))
            ∙ at_p,
        ap (load32 c'.memory) {y = c'.esp + 4 + 4 + 4 + 4 + 4 + 4 + 4 + 4 + 4 + 4 + 4 + 4}
              (omega (arith, e, s.reaches, call.room, call.esp_lt))
            ∙ at_q,
      )

  save-esp : (run flags save c).esp ≡ c.esp - 40
  save-esp = omega (arith, save-Stands.reaches, call.room)

  -- the state between the four instructions in the middle and the rest
  abbrev halfway : Cpu
  halfway = change_stacks p q (run flags save c)

  halfway_outside :
      (b : ℕ)
      → Apart b 4 (c.esp - 40) 52
      → Apart b 4 p 4
      → load32 halfway.memory b ≡ load32 c.memory b
  halfway_outside b away off =
      load32-store32_apart (run flags save c).memory p (run flags save c).esp b (ground arith)
      ∙ save_outside b away

  halfway-saved : Holds halfway.memory (c.esp - 40) (context (c.esp - 4) (c.esp - 8) c.regs back)
  halfway-saved =
      let c1 = run flags save c in
      let ws = context (c.esp - 4) (c.esp - 8) c.regs back in
      Holds-kept c1.memory halfway.memory (c.esp - 40) (c.esp + 4) ws (omega (arith, call.room))
        (λ b low high.
          load32-store32_apart c1.memory p c1.esp b (ground (arith, call.slot, call.room)))
        (subst (λ a. Holds c1.memory a ws) save-esp
          (Holds-prefix c1.memory c1.esp ws (p ∷ q ∷ []) save-Stands.held))

  module _ (x y : ℕ) (s : Regs) (back' : ℕ) (w : Waits p q x y s back' c) where
    halfway-Stands : Stands (q + 44) halfway.regs (context x y s back') halfway
    halfway-Stands = record {
      regs_lem = refl;
      held =
          Holds-kept c.memory halfway.memory q (q + 44) (context x y s back') (omega arith)
            (λ b low high.
              halfway_outside b (ground (arith, w.off_stack)) (ground (arith, w.off_slot)))
            w.saved;
      reaches = omega arith;
      bounded = w.q_lt;
    }

    resume-Stands : Stands (q + 44) (resumed s back' halfway.regs) [] (run flags resume halfway)
    resume-Stands =
        subst (λ (r : Regs × List ℕ). Stands (q + 44) r.0 r.1 (run flags resume halfway))
          (resume_words flags (q + 44) x y back' halfway.regs s)
          (run-Stands flags (q + 44 - 44) (q + 44) resume halfway.regs (context x y s back') halfway
            halfway-Stands (resume-Room flags (q + 44) x y back' halfway.regs s (omega arith)))

    -- A call of `task_switch` whose second argument leads to a context of the registers `s`, which the
    -- call does not overwrite, goes on at the address of that context with its general registers, its
    -- flags and its stack. It leaves the context of the caller on the caller's stack, and its place
    -- where the first argument points to; no other word of the memory changes.
    pub task_switch_lem :
        let c' = execute_all flags task_switch c in
        (c'.regs ≡ resumed s back' c.regs)
        × (c'.esp ≡ q + 44)
        × Holds c'.memory (c.esp - 40) (context (c.esp - 4) (c.esp - 8) c.regs back)
        × (load32 c'.memory p ≡ c.esp - 40)
        × ((b : ℕ)
            → Apart b 4 (c.esp - 40) 52
            → Apart b 4 p 4
            → load32 c'.memory b ≡ load32 c.memory b)
    task_switch_lem =
        let c1 = run flags save c in
        let all = task_switch_parts flags p q c arguments.0 arguments.1 in
        let end = resume-Stands in
        let mem : (execute_all flags task_switch c).memory ≡ halfway.memory =
          ap (λ (d : Cpu). d.memory) all ∙ resume-memory flags halfway in
        let slot : load32 halfway.memory p ≡ wrap32 c1.esp = load32-store32 c1.memory p c1.esp in
        (
          ap (λ (d : Cpu). d.regs) all
              ∙ end.regs_lem
              ∙ ap (λ (r : Regs). resumed s back' r) save-Stands.regs_lem,
          ap (λ (d : Cpu). d.esp) all ∙ omega (arith, end.reaches),
          subst (λ m. Holds m (c.esp - 40) (context (c.esp - 4) (c.esp - 8) c.regs back)) (sym mem)
              halfway-saved,
          ap (λ m. load32 m p) mem ∙ slot ∙ omega (arith, save-esp, call.esp_lt),
          λ b away off. ap (λ m. load32 m b) mem ∙ halfway_outside b away off,
        )

-- A task that has called `task_switch` is resumed by any later call whose second argument is the stack
-- pointer that was left in its slot, if its context is still on its stack: it goes on behind its call
-- with the general registers, the flags and the stack that it had.
pub task_switch-task_switch :
    (flags : ℕ → ℕ → ℕ) (back p q x y : ℕ) (s : Regs) (back' : ℕ) (c : Cpu)
    → Calls back p q c
    → Waits p q x y s back' c
    → (later p' : ℕ) (d : Cpu)
    → Calls later p' (load32 (execute_all flags task_switch c).memory p) d
    → ((b : ℕ)
        → c.esp - 40 ≤ b
        → b + 4 ≤ c.esp + 4
        → load32 d.memory b ≡ load32 (execute_all flags task_switch c).memory b)
    → Apart (c.esp - 40) 44 (d.esp - 40) 52
    → Apart (c.esp - 40) 44 p' 4
    → let d' = execute_all flags task_switch d in
      (d'.regs ≡ resumed c.regs back d.regs) × (d'.esp ≡ c.esp + 4)
task_switch-task_switch flags back p q x y s back' c call w later p' d call' kept off_stack
      off_slot =
    let c' = execute_all flags task_switch c in
    let (_, _, saved, slot, _) = task_switch_lem flags back p q c call x y s back' w in
    let call'' : Calls later p' (c.esp - 40) d = subst (λ q. Calls later p' q d) slot call' in
    let (regs, esp, _, _, _) =
      task_switch_lem flags later p' (c.esp - 40) d call'' (c.esp - 4) (c.esp - 8) c.regs back
        (record {
          saved =
              Holds-kept c'.memory d.memory (c.esp - 40) (c.esp + 4)
                (context (c.esp - 4) (c.esp - 8) c.regs back) (omega (arith, call.room)) kept saved;
          q_lt = omega (arith, call.esp_lt);
          off_stack = off_stack;
          off_slot = off_slot;
        }) in
    (regs, omega (arith, esp, call.room))
