-- ===== src/Cpu/Stack.antt =====
-- The stack as a list of words: what an instruction does to the list, and that the memory follows.
use minicore_os.Base.{
  ℕ, zero, suc, ◌+◌, ◌-◌, ◌*◌, ◌^◌, ◌≡◌, ◌∙◌, ◌≤◌, ◌<◌, ◌⊎◌, inl, refl, ap, sym, subst, List, [],
  ◌∷◌, ◌++◌, length, wrap32, sub32, arith,
}
use minicore_os.Cpu.{
  Regs, Cpu, load32, store32, StackInstr, takes, pushes, update, words, push_all, step, run,
}
use minicore_os.Cpu.Memory.{load32-store32, load32-store32_apart}

abbrev pub take : ℕ → List ℕ → List ℕ
take zero ws = []
take (suc n) [] = []
take (suc n) (w ∷ ws) = w ∷ take n ws

abbrev pub drop : ℕ → List ℕ → List ℕ
drop zero ws = ws
drop (suc n) [] = []
drop (suc n) (w ∷ ws) = drop n ws

abbrev pub push_words : List ℕ → List ℕ → List ℕ
push_words [] ws = ws
push_words (v ∷ vs) ws = push_words vs (wrap32 v ∷ ws)

-- The words `ws` lie in the memory from `a` up.
abbrev pub Holds : (ℕ → ℕ) → ℕ → List ℕ → Type 0
Holds m a [] = Unit {0}
Holds m a (w ∷ ws) = (load32 m a ≡ w) × Holds m (a + 4) ws

-- A processor whose stack, up to the address `top`, holds `ws`.
pub record Stands (top : ℕ) (r : Regs) (ws : List ℕ) (c : Cpu) : Type 0 where
  pub regs_lem : c.regs ≡ r
  pub held : Holds c.memory c.esp ws
  pub reaches : c.esp + 4 * length ws ≡ top
  pub bounded : top < 2 ^ 32

Holds-store32 :
    (m : ℕ → ℕ) (a v b : ℕ) (ws : List ℕ) → a + 4 ≤ b → Holds m b ws → Holds (store32 m a v) b ws
Holds-store32 m a v b [] h hs = hs
Holds-store32 m a v b (w ∷ ws) h (e, hs) =
    (load32-store32_apart m a v b (inl h) ∙ e, Holds-store32 m a v (b + 4) ws (omega arith) hs)

-- Words that another memory holds too.
pub Holds-kept :
    (m m' : ℕ → ℕ) (a top : ℕ) (ws : List ℕ)
    → a + 4 * length ws ≤ top
    → ((b : ℕ) → a ≤ b → b + 4 ≤ top → load32 m' b ≡ load32 m b)
    → Holds m a ws
    → Holds m' a ws
Holds-kept m m' a top [] room same hs = hs
Holds-kept m m' a top (w ∷ ws) room same (e, hs) = (
  same a (omega arith) (omega arith) ∙ e,
  Holds-kept m m' (a + 4) top ws (omega arith) (λ b low high. same b (omega arith) high) hs,
)

pub Holds-prefix : (m : ℕ → ℕ) (a : ℕ) (ws vs : List ℕ) → Holds m a (ws ++ vs) → Holds m a ws
Holds-prefix m a [] vs hs = tt
Holds-prefix m a (w ∷ ws) vs (e, hs) = (e, Holds-prefix m (a + 4) ws vs hs)

words-take :
    (m : ℕ → ℕ) (a n : ℕ) (ws : List ℕ) → n ≤ length ws → Holds m a ws → words m a n ≡ take n ws
unfolding words
words-take m a zero ws h hs = refl
words-take m a (suc n) [] h hs = absurd (omega arith)
words-take m a (suc n) (w ∷ ws) h (e, hs) = rw (e, words-take m (a + 4) n ws (omega arith) hs)

length-drop : (n : ℕ) (ws : List ℕ) → length (drop n ws) ≡ length ws - n
length-drop zero ws = omega arith
length-drop (suc n) [] = omega arith
length-drop (suc n) (w ∷ ws) = omega (arith, length-drop n ws)

Holds-drop :
    (m : ℕ → ℕ) (a n : ℕ) (ws : List ℕ)
    → n ≤ length ws
    → Holds m a ws
    → Holds m (a + 4 * n) (drop n ws)
Holds-drop m a zero ws h hs = subst (λ b. Holds m b ws) {y = a + 4 * 0} (omega arith) hs
Holds-drop m a (suc n) [] h hs = absurd (omega arith)
Holds-drop m a (suc n) (w ∷ ws) h (e, hs) =
    subst (λ b. Holds m b (drop n ws)) {x = a + 4 + 4 * n} {y = a + 4 * suc n} (omega arith)
      (Holds-drop m (a + 4) n ws (omega arith) hs)

push-Stands :
    {top : ℕ} {r : Regs} {ws : List ℕ} (c : Cpu) (v : ℕ)
    → Stands top r ws c
    → 4 + 4 * length ws ≤ top
    → Stands top r
        (wrap32 v ∷ ws)
        (record c { esp = sub32 c.esp 4; memory = store32 c.memory (sub32 c.esp 4) v })
push-Stands {ws = ws} c v s room =
    let e : sub32 c.esp 4 + 4 ≡ c.esp = omega (arith, s.reaches, s.bounded) in
    record {
      regs_lem = s.regs_lem;
      held = (
        load32-store32 c.memory (sub32 c.esp 4) v,
        subst (λ b. Holds (store32 c.memory (sub32 c.esp 4) v) b ws) (sym e)
            (Holds-store32 c.memory (sub32 c.esp 4) v c.esp ws (omega arith) s.held),
      );
      reaches = omega (arith, s.reaches);
      bounded = s.bounded;
    }

push_all-Stands :
    {top : ℕ} {r : Regs} {ws : List ℕ} (vs : List ℕ) (c : Cpu)
    → Stands top r ws c
    → 4 * (length vs + length ws) ≤ top
    → Stands top r (push_words vs ws) (push_all vs c)
unfolding push_all
push_all-Stands {top} {r} {ws} [] c s room = s
push_all-Stands {top} {r} {ws} (v ∷ vs) c s room =
    push_all-Stands {ws = wrap32 v ∷ ws} vs _ (push-Stands c v s (omega arith)) (omega arith)

-- The step of the list of words, for a stack that ends at `top`.
abbrev pub step_words : (flags : ℕ → ℕ → ℕ) → (top : ℕ) → StackInstr → Regs × List ℕ → Regs × List ℕ
step_words flags top i (r, ws) =
    let esp = top - 4 * length ws in
    (update flags i esp (take (takes i) ws) r, push_words (pushes i esp r) (drop (takes i) ws))

abbrev pub run_words :
    (flags : ℕ → ℕ → ℕ) → (top : ℕ) → List StackInstr → Regs × List ℕ → Regs × List ℕ
run_words flags top [] s = s
run_words flags top (i ∷ code) s = run_words flags top code (step_words flags top i s)

-- The code pops no more than is there, and what it pushes lies between `low` and `top`.
abbrev pub Room : (flags : ℕ → ℕ → ℕ) → (low top : ℕ) → List StackInstr → Regs × List ℕ → Type 0
Room flags low top [] s = Unit {0}
Room flags low top (i ∷ code) (r, ws) =
    (takes i ≤ length ws)
    × (low + 4 * (length (pushes i (top - 4 * length ws) r) + (length ws - takes i)) ≤ top)
    × Room flags low top code (step_words flags top i (r, ws))

step_at :
    (flags : ℕ → ℕ → ℕ) (top : ℕ) (i : StackInstr) (r : Regs) (ws : List ℕ) (m : ℕ → ℕ)
    → Holds m (top - 4 * length ws) ws
    → 4 * length ws ≤ top
    → top < 2 ^ 32
    → takes i ≤ length ws
    → 4 * (length (pushes i (top - 4 * length ws) r) + (length ws - takes i)) ≤ top
    → let s = step_words flags top i (r, ws) in
      Stands top s.0 s.1 (step flags i (record { regs = r; esp = top - 4 * length ws; memory = m }))
unfolding step
step_at flags top i r ws m hs deep bounded some room =
    let esp = top - 4 * length ws in
    let e : wrap32 (esp + 4 * takes i) ≡ esp + 4 * takes i = omega arith in
    push_all-Stands (pushes i esp r) _
      (record {
        regs_lem = ap (λ args. update flags i esp args r) (words-take m esp (takes i) ws some hs);
        held =
            subst (λ b. Holds m b (drop (takes i) ws)) (sym e)
              (Holds-drop m esp (takes i) ws some hs);
        reaches = omega (arith, length-drop (takes i) ws);
        bounded = bounded;
      })
      (omega (arith, length-drop (takes i) ws))

-- One instruction does to the memory what `step_words` does to the list.
step-Stands :
    (flags : ℕ → ℕ → ℕ) (top : ℕ) (i : StackInstr) (r : Regs) (ws : List ℕ) (c : Cpu)
    → Stands top r ws c
    → takes i ≤ length ws
    → 4 * (length (pushes i (top - 4 * length ws) r) + (length ws - takes i)) ≤ top
    → let s = step_words flags top i (r, ws) in Stands top s.0 s.1 (step flags i c)
step-Stands flags top i r ws c s some room =
    let e : c.esp ≡ top - 4 * length ws = omega (arith, s.reaches) in
    let same : c ≡ record { regs = r; esp = top - 4 * length ws; memory = c.memory } =
      λ j. record { regs = s.regs_lem j; esp = e j; memory = c.memory } in
    let after = step_words flags top i (r, ws) in
    subst (λ c. Stands top after.0 after.1 (step flags i c)) (sym same)
      (step_at flags top i r ws c.memory (subst (λ a. Holds c.memory a ws) e s.held)
        (omega (arith, s.reaches)) s.bounded some room)

-- Straight code does to the memory what `run_words` does to the list.
pub run-Stands :
    (flags : ℕ → ℕ → ℕ) (low top : ℕ) (code : List StackInstr) (r : Regs) (ws : List ℕ) (c : Cpu)
    → Stands top r ws c
    → Room flags low top code (r, ws)
    → let s = run_words flags top code (r, ws) in Stands top s.0 s.1 (run flags code c)
unfolding run
run-Stands flags low top [] r ws c s room = s
run-Stands flags low top (i ∷ code) r ws c s (some, room, rest) =
    run-Stands flags low top code _ _ (step flags i c)
      (step-Stands flags top i r ws c s some (omega arith)) rest

module _ (low top b : ℕ) (apart : (b + 4 ≤ low) ⊎ (top ≤ b)) where
  push_all-apart :
      (vs : List ℕ) (c : Cpu)
      → low + 4 * length vs ≤ c.esp
      → c.esp ≤ top
      → top < 2 ^ 32
      → load32 (push_all vs c).memory b ≡ load32 c.memory b
  unfolding push_all
  push_all-apart [] c room below bounded = refl
  push_all-apart (v ∷ vs) c room below bounded =
      push_all-apart vs
        (record c { esp = sub32 c.esp 4; memory = store32 c.memory (sub32 c.esp 4) v })
        (omega arith) (omega arith) bounded
      ∙ load32-store32_apart c.memory (sub32 c.esp 4) v b (omega arith)

  step-apart :
      (flags : ℕ → ℕ → ℕ) (i : StackInstr) (r : Regs) (ws : List ℕ) (c : Cpu)
      → Stands top r ws c
      → takes i ≤ length ws
      → low + 4 * (length (pushes i (top - 4 * length ws) r) + (length ws - takes i)) ≤ top
      → load32 (step flags i c).memory b ≡ load32 c.memory b
  unfolding step
  step-apart flags i r ws c s some room =
      let e : c.esp ≡ top - 4 * length ws = omega (arith, s.reaches) in
      let same : pushes i c.esp c.regs ≡ pushes i (top - 4 * length ws) r = rw (e, s.regs_lem) in
      push_all-apart (pushes i c.esp c.regs) _
        (omega (arith, s.reaches, s.bounded, ap (length {A = ℕ}) same))
        (omega (arith, s.reaches, s.bounded)) s.bounded

  -- It writes nothing below `low` and nothing from `top` up.
  pub run-apart :
      (flags : ℕ → ℕ → ℕ) (code : List StackInstr) (r : Regs) (ws : List ℕ) (c : Cpu)
      → Stands top r ws c
      → Room flags low top code (r, ws)
      → load32 (run flags code c).memory b ≡ load32 c.memory b
  unfolding run
  run-apart flags [] r ws c s room = refl
  run-apart flags (i ∷ code) r ws c s (some, room, rest) =
      run-apart flags code _ _ (step flags i c)
        (step-Stands flags top i r ws c s some (omega arith)) rest
      ∙ step-apart flags i r ws c s some room
