-- ===== src/Cpu/Stubs/Frame.antt =====
-- What an interrupt leaves on the stack for the C function, and which registers the stub behind the
-- call puts back.
use minicore_os.Base.{
  ℕ, ◌+◌, ◌-◌, ◌^◌, ◌≡◌, ◌≤◌, ◌<◌, ◌⊎◌, [], ◌∷◌, refl, ap, sym, subst, ◌∙◌, arith,
}
use minicore_os.Cpu.{Regs, Cpu, load32, run, words}
use minicore_os.Cpu.Stack.{Stands, run_words, run-Stands, run-apart}
use minicore_os.Cpu.Stubs.{at_handler, Registers, read_registers, argument}
use minicore_os.Cpu.Stubs.Pushed.{
  Fits, ds_word, frame, way_in, start-Stands, way_in-Room, way_in-frame,
}
use minicore_os.Cpu.Stubs.Vectors.{kind_of, omits-kind_of, has-kind_of, Above, above}

-- What `struct registers` holds of the interrupted registers `r`, where `w` lies above the vector.
pub record Describes (n : ℕ) (w : Above) (r : Regs) (x : Registers) : Type 0 where
  pub ds_lem : x.ds ≡ ds_word r
  pub general :
      (x.eax ≡ r.eax)
      × (x.ebx ≡ r.ebx)
      × (x.ecx ≡ r.ecx)
      × (x.edx ≡ r.edx)
      × (x.esi ≡ r.esi)
      × (x.edi ≡ r.edi)
      × (x.ebp ≡ r.ebp)
  pub vector : (x.int_no ≡ n) × (x.err_code ≡ w.err_code)
  pub resume : (x.eip ≡ w.eip) × (x.cs ≡ w.cs) × (x.eflags ≡ w.eflags)

-- An interrupt of one of the 48 vectors that meets the processor in 32-bit code with room for the
-- frame below its `esp`.
pub record CanServe (back n code : ℕ) (c : Cpu) : Type 0 where
  pub fits : Fits c.regs
  pub vector_lt : n < 48
  pub code_lt : code < 2 ^ 32
  pub back_lt : back < 2 ^ 32
  pub room : 64 ≤ c.esp
  pub esp_lt : c.esp < 2 ^ 32

at_handler-way_in :
    (flags : ℕ → ℕ → ℕ) (back n code : ℕ) (c : Cpu)
    → at_handler flags back n code c ≡ run flags (way_in (kind_of n) back n code) c
unfolding at_handler
at_handler-way_in flags back n code c = rw (omits-kind_of n, has-kind_of n) refl

-- The C function is called with what follows on its stack: the return address, then the frame.
pub at_handler-Stands :
    (flags : ℕ → ℕ → ℕ) (back n code : ℕ) (c : Cpu)
    → CanServe back n code c
    → (r : Regs) × Stands c.esp r
        (back ∷ frame (kind_of n) c.esp n code c.regs)
        (at_handler flags back n code c)
at_handler-Stands flags back n code c can =
    let k = kind_of n in
    let s = run_words flags c.esp (way_in k back n code) (c.regs, []) in
    let at_call : Stands c.esp s.0 s.1 (run flags (way_in k back n code) c) =
      run-Stands flags (c.esp - 64) c.esp (way_in k back n code) c.regs [] c
        (start-Stands c can.esp_lt) (way_in-Room flags back n code c.esp c.regs k can.room) in
    let e =
      way_in-frame flags back n code c.esp c.regs k can.fits can.vector_lt can.code_lt can.back_lt
        can.esp_lt in
    (
      s.0,
      subst (Stands c.esp s.0 (back ∷ frame k c.esp n code c.regs))
          (sym (at_handler-way_in flags back n code c))
          (subst (λ ws. Stands c.esp s.0 ws (run flags (way_in k back n code) c)) e at_call),
    )

-- For an interrupt of one of the 48 vectors, with 64 bytes of room below the interrupted `esp` and
-- registers and an error code that fit into 32 bits: at its call the C function has the return address
-- on top of its stack, and above it a `struct registers` that holds the general registers of the
-- interrupted code and the vector, and behind the vector, for every vector but four, the error code or
-- 0, and `eip`, `cs` and the flags of that code. For the vectors 17, 21, 29 and 30 of kind
-- `code_and_zero` it holds 0, the error code in the place of `eip`, `eip` in that of `cs` and `cs` in
-- that of the flags. For all vectors, the argument of the C function, which is the word above the
-- return address, is the first field of that structure instead of its address: the saved `ds`, below
-- the upper half of `eax`.
pub at_handler-Describes :
    (flags : ℕ → ℕ → ℕ) (back n code : ℕ) (c : Cpu)
    → CanServe back n code c
    → let c' = at_handler flags back n code c in
      (load32 c'.memory c'.esp ≡ back)
      × (argument c' ≡ ds_word c.regs)
      × Describes n (above (kind_of n) code c.regs) c.regs (read_registers c'.memory (c'.esp + 4))
unfolding argument read_registers words
at_handler-Describes flags back n code c can =
    let (r, s) = at_handler-Stands flags back n code c can in
    let (
      e0,
      (e1, (e2, (e3, (e4, (_, (e6, (e7, (e8, (e9, (e10, (e11, (e12, (e13, (e14, _)))))))))))))),
    ) =
      s.held in
    (
      e0,
      e1,
      record {
        ds_lem = e1;
        general = (e9, e6, e8, e7, e3, e2, e4);
        vector = (e10, e11);
        resume = (e12, e13, e14);
      },
    )

-- The number that the C function reads through its argument, as `r->int_no`, does not depend on the
-- vector `n`: whichever of the 48 vectors the interrupt has, with 64 bytes of room below the
-- interrupted `esp`, it is the word that lay at the address `ds_word + 36` before the interrupt, where
-- those 64 bytes do not cover it.
pub argument-int_no :
    (flags : ℕ → ℕ → ℕ) (back n code : ℕ) (c : Cpu)
    → CanServe back n code c
    → (ds_word c.regs + 40 ≤ c.esp - 64) ⊎ (c.esp ≤ ds_word c.regs + 36)
    → let c' = at_handler flags back n code c in
      (read_registers c'.memory (argument c')).int_no ≡ load32 c.memory (ds_word c.regs + 36)
unfolding read_registers words
argument-int_no flags back n code c can away =
    let c' = at_handler flags back n code c in
    let k = kind_of n in
    let (_, e, _) = at_handler-Describes flags back n code c can in
    let at_field : argument c' + 4 + 4 + 4 + 4 + 4 + 4 + 4 + 4 + 4 ≡ ds_word c.regs + 36 =
      omega (arith, e) in
    let same : load32 (run flags (way_in k back n code) c).memory (ds_word c.regs + 36)
        ≡ load32 c.memory (ds_word c.regs + 36) =
      run-apart (c.esp - 64) c.esp (ds_word c.regs + 36) (ground arith) flags (way_in k back n code)
        c.regs [] c (start-Stands c can.esp_lt)
        (way_in-Room flags back n code c.esp c.regs k can.room) in
    ap (load32 c'.memory) at_field
    ∙ ap (λ (d : Cpu). load32 d.memory (ds_word c.regs + 36))
        (at_handler-way_in flags back n code c)
    ∙ same

-- What the C function, as it is compiled, has to do: return, and leave the words of the interrupted
-- code's frame as they were.
pub record Returns (top : ℕ) (handler : Cpu → Cpu) (c : Cpu) : Type 0 where
  pub pops : (handler c).esp ≡ c.esp + 4
  pub keeps :
      (a : ℕ) → c.esp + 4 ≤ a → a + 4 ≤ top → load32 (handler c).memory a ≡ load32 c.memory a
