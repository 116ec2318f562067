-- ===== src/Idt/Gates.antt =====
-- The gates that idt.c sets up: each leads to its handler.
use minicore_os.Base.{
  ℕ, zero, suc, ◌+◌, ◌*◌, ◌^◌, ◌≡◌, ◌≢◌, ◌<◌, ◌≤◌, refl, ◌==◌, arith, Bool-cases, inl, inr, ap, ◌∙◌,
  sym, subst,
}
use minicore_os.Idt.{
  Entry, Idt, write_entry, idt_set_gate, no_entry, clear_entries, outb, remap_pic, set_gates,
  idt_init,
}

-- The address that the processor jumps to through a gate.
abbrev pub address : Entry → ℕ
address e = e.base_high * 2 ^ 16 + e.base_low

-- A present 32-bit interrupt gate of the kernel's code segment, which leads to `base`.
pub record LeadsTo (e : Entry) (base : ℕ) : Type 0 where
  pub target : address e ≡ base
  pub segment : e.selector ≡ 0x08
  pub kind : e.type_attr ≡ 0x8E
  pub reserved : e.zero_byte ≡ 0

write_entry_self : (t : ℕ → Entry) (i : ℕ) (e : Entry) → write_entry t i e i ≡ e
unfolding write_entry
write_entry_self t i e = ground arith

write_entry_ne : (t : ℕ → Entry) (i : ℕ) (e : Entry) (j : ℕ) → j ≢ i → write_entry t i e j ≡ t j
unfolding write_entry
write_entry_ne t i e j ne = ground arith

-- `idt_set_gate` sets the one gate, to an address below 2 ^ 32 that its two halves spell, and leaves
-- all the others.
pub idt_set_gate_lem :
    (num base : ℕ) (s : Idt)
    → base < 2 ^ 32
    → LeadsTo ((idt_set_gate num base 0x08 0x8E s).entries num) base
      × ((j : ℕ) → j ≢ num → (idt_set_gate num base 0x08 0x8E s).entries j ≡ s.entries j)
unfolding idt_set_gate
idt_set_gate_lem num base s small = (
  subst (λ e. LeadsTo e base) (sym (write_entry_self s.entries num _))
      (record { target = omega arith; segment = refl; kind = refl; reserved = refl }),
  λ j ne. write_entry_ne s.entries num _ j ne,
)

clear_entries-cell : (n : ℕ) (t : ℕ → Entry) (i : ℕ) → i < n → clear_entries n t i ≡ no_entry
unfolding clear_entries
clear_entries-cell zero t i lt = absurd (omega arith)
clear_entries-cell (suc n) t i lt = elim (Bool-cases (i == n)) [
  | inl e ↦
      ap (write_entry (clear_entries n t) n no_entry) (ground arith)
      ∙ write_entry_self (clear_entries n t) n no_entry
  | inr e ↦
      write_entry_ne (clear_entries n t) n no_entry i (ground arith)
      ∙ clear_entries-cell n t i (ground arith)
]

module _ (handler : ℕ → ℕ) (words : (i : ℕ) → handler i < 2 ^ 32) where
  set_gates-set :
      (n : ℕ) (s : Idt) (i : ℕ) → i < n → LeadsTo ((set_gates n handler s).entries i) (handler i)
  unfolding set_gates
  set_gates-set zero s i lt = absurd (omega arith)
  set_gates-set (suc n) s i lt =
      let (here, others) = idt_set_gate_lem n (handler n) (set_gates n handler s) (words n) in
      elim (Bool-cases (i == n)) [
        | inl e ↦
            let same : i ≡ n = ground arith in
            subst (λ j. LeadsTo ((set_gates (suc n) handler s).entries j) (handler j)) (sym same)
              here
        | inr e ↦
            subst (λ g. LeadsTo g (handler i)) (sym (others i (ground arith)))
              (set_gates-set n s i (ground arith))
      ]

  set_gates-beyond :
      (n : ℕ) (s : Idt) (i : ℕ) → n ≤ i → (set_gates n handler s).entries i ≡ s.entries i
  unfolding set_gates
  set_gates-beyond zero s i le = refl
  set_gates-beyond (suc n) s i le =
      let (_, others) = idt_set_gate_lem n (handler n) (set_gates n handler s) (words n) in
      others i (omega arith) ∙ set_gates-beyond n s i (omega arith)

  -- Where all handlers have addresses below 2 ^ 32, `idt_init` leaves a table in which the gate of
  -- each vector below 48 leads to its handler, and every other gate up to 255 is empty, hence not
  -- present.
  pub idt_init_lem :
      (table : ℕ) (s : Idt)
      → ((i : ℕ) → i < 48 → LeadsTo ((idt_init table handler s).entries i) (handler i))
        × ((i : ℕ) → 48 ≤ i → i < 256 → (idt_init table handler s).entries i ≡ no_entry)
  unfolding idt_init remap_pic outb
  idt_init_lem table s =
      let s' =
        remap_pic
          (record s { limit = 2047; base = table; entries = clear_entries 256 s.entries }) in
      (
        λ i lt. set_gates-set 48 s' i lt,
        λ i le lt. set_gates-beyond 48 s' i le ∙ clear_entries-cell 256 s.entries i lt,
      )
