-- ===== src/Cpu/Stubs/Pushed.antt =====
-- The words that an interrupt and an entry point of interrupt.asm push, up to the call of the C function.
use minicore_os.Base.{ℕ, ◌+◌, ◌*◌, ◌/◌, ◌-◌, ◌^◌, ◌≡◌, ◌≤◌, ◌<◌, List, [], ◌∷◌, ◌++◌, refl, arith}
use minicore_os.Cpu.{Regs, Cpu, StackInstr, call, interrupt, takes, pushes, update}
use minicore_os.Cpu.Stack.{Stands, run_words, Room}
use minicore_os.Cpu.Stubs.{entry_point, error_words}
use minicore_os.Cpu.Stubs.Vectors.{
  Kind, only_zero, only_code, code_and_zero, has, omits, above, left_over,
}

-- The registers hold what fits into them.
pub record Fits (r : Regs) : Type 0 where
  pub eax_lt : r.eax < 2 ^ 32
  pub ebx_lt : r.ebx < 2 ^ 32
  pub ecx_lt : r.ecx < 2 ^ 32
  pub edx_lt : r.edx < 2 ^ 32
  pub esi_lt : r.esi < 2 ^ 32
  pub edi_lt : r.edi < 2 ^ 32
  pub ebp_lt : r.ebp < 2 ^ 32
  pub eflags_lt : r.eflags < 2 ^ 32
  pub eip_lt : r.eip < 2 ^ 32
  pub cs_lt : r.cs < 2 ^ 16
  pub ds_lt : r.ds < 2 ^ 16

-- What the two common stubs push last before the call.
abbrev pub ds_word : Regs → ℕ
ds_word r = r.eax / 2 ^ 16 * 2 ^ 16 + r.ds

-- The words on the stack from the saved `ds` up, where `top` is the interrupted `esp`: last, where the
-- error code and a 0 were pushed, the flags behind those that `struct registers` names so.
abbrev pub flags_behind : Kind → Regs → List ℕ
flags_behind only_zero r = []
flags_behind only_code r = []
flags_behind code_and_zero r = r.eflags ∷ []

abbrev pub frame : (k : Kind) → (top n code : ℕ) → Regs → List ℕ
frame k top n code r =
    ds_word r
    ∷ r.edi
    ∷ r.esi
    ∷ r.ebp
    ∷ (top - (20 + left_over k))
    ∷ r.ebx
    ∷ r.edx
    ∷ r.ecx
    ∷ r.eax
    ∷ n
    ∷ (above k code r).err_code
    ∷ (above k code r).eip
    ∷ (above k code r).cs
    ∷ (above k code r).eflags
    ∷ flags_behind k r

-- The instructions up to the call.
abbrev pub way_in : (k : Kind) → (back n code : ℕ) → List StackInstr
way_in k back n code =
    interrupt 0x08 (error_words (has k) code) ∷ (entry_point (omits k) n ++ call back ∷ [])

pub start-Stands : (c : Cpu) → c.esp < 2 ^ 32 → Stands c.esp c.regs [] c
start-Stands c h = record { regs_lem = refl; held = tt; reaches = omega arith; bounded = h }

module _ (flags : ℕ → ℕ → ℕ) (back n code top : ℕ) (r : Regs) where
  pub way_in-Room : (k : Kind) → 64 ≤ top → Room flags (top - 64) top (way_in k back n code) (r, [])
  unfolding takes pushes
  way_in-Room only_zero h = omega arith
  way_in-Room only_code h = omega arith
  way_in-Room code_and_zero h = omega arith

  pub way_in-frame :
      (k : Kind)
      → Fits r
      → n < 48
      → code < 2 ^ 32
      → back < 2 ^ 32
      → top < 2 ^ 32
      → (run_words flags top (way_in k back n code) (r, [])).1 ≡ back ∷ frame k top n code r
  unfolding takes pushes update
  way_in-frame only_zero f small fits ends bounded = ground arith
  way_in-frame only_code f small fits ends bounded = ground arith
  way_in-frame code_and_zero f small fits ends bounded = ground arith
