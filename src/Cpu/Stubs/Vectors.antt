-- ===== src/Cpu/Stubs/Vectors.antt =====
-- Which of the vectors leave an error code on the stack: by the processor, by the entry point of
-- interrupt.asm, or by both.
use minicore_os.Base.{
  ℕ, ◌%◌, ◌^◌, ◌≡◌, Bool, true, false, Bool-cases, inl, inr, if◌then◌else◌, refl, arith,
}
use minicore_os.Cpu.{Regs}
use minicore_os.Cpu.Stubs.{has_error_code, omits_zero}

-- The processor pushes no error code and the entry point a 0 in its place; the processor pushes one
-- and the entry point nothing; or the processor pushes one and the entry point a 0 on top of it.
pub data Kind : Type 0 where
  only_zero only_code code_and_zero : Kind

abbrev pub has : Kind → Bool
has only_zero = false
has only_code = true
has code_and_zero = true

abbrev pub omits : Kind → Bool
omits only_zero = false
omits only_code = true
omits code_and_zero = false

unfoldable pub kind_of : ℕ → Kind
kind_of n =
    if omits_zero n then only_code else if has_error_code n then code_and_zero else only_zero

-- The kinds cover all vectors: where the entry point pushes no 0, the processor pushes a code.
pub omits-kind_of : (n : ℕ) → omits_zero n ≡ omits (kind_of n)
unfolding kind_of
omits-kind_of n = elim (Bool-cases (omits_zero n)) [
  | inl e ↦ rw e refl
  | inr e ↦ elim (Bool-cases (has_error_code n)) [ inl h ↦ rw (e, h) refl | inr h ↦ rw (e, h) refl ]
]

pub has-kind_of : (n : ℕ) → has_error_code n ≡ has (kind_of n)
unfolding kind_of omits_zero has_error_code
has-kind_of n = ground arith

-- The four words that `struct registers` has above the vector: `err_code`, `eip`, `cs`, `eflags`.
pub record Above : Type 0 where
  pub err_code : ℕ
  pub eip : ℕ
  pub cs : ℕ
  pub eflags : ℕ

-- What lies there when the interrupted registers are `r` and the processor's error code is `code`.
-- With a code and a 0, all above the 0 lies one word too high.
abbrev pub above : Kind → (code : ℕ) → Regs → Above
above only_zero code r = record { err_code = 0; eip = r.eip; cs = r.cs; eflags = r.eflags }
above only_code code r = record { err_code = code; eip = r.eip; cs = r.cs; eflags = r.eflags }
above code_and_zero code r = record { err_code = 0; eip = code; cs = r.eip; eflags = r.cs }

-- what the stub behind the call does not pop, in bytes
abbrev pub left_over : Kind → ℕ
left_over only_zero = 0
left_over only_code = 0
left_over code_and_zero = 4

-- The registers behind `iret`: the interrupted ones, but that `es`, `fs` and `gs` become `ds`. With a
-- code and a 0 the code goes on at the error code as its address, with the low half of `eip` as `cs`,
-- and `cs` as the flags.
abbrev pub resumed : Kind → (code : ℕ) → Regs → Regs
resumed only_zero code r = record r { es = r.ds; fs = r.ds; gs = r.ds }
resumed only_code code r = record r { es = r.ds; fs = r.ds; gs = r.ds }
resumed code_and_zero code r = record r {
  es = r.ds;
  fs = r.ds;
  gs = r.ds;
  eip = code;
  cs = r.eip % 2 ^ 16;
  eflags = r.cs;
}
