-- ===== src/Cpu/Stubs/Tests.antt =====
-- A request of the keyboard, with a C function that returns at once.
use minicore_os.Base.{◌+◌, ◌≡◌, inl, refl, arith}
use minicore_os.Cpu.{Cpu, load32}
use minicore_os.Cpu.Stubs.{has_error_code, omits_zero, at_handler, argument, read_registers}
use minicore_os.Cpu.Stubs.Frame.{CanServe, Describes, at_handler-Describes, argument-int_no}
use minicore_os.Cpu.Stubs.Pushed.{ds_word}
use minicore_os.Cpu.Stubs.Vectors.{only_zero, code_and_zero, kind_of, above}
use minicore_os.Cpu.Sample.{keep_flags, some_regs, interrupted}

-- a function that returns at once, with another value in `eax`
abbrev returns_at_once : Cpu → Cpu
returns_at_once c = record c { regs = record c.regs { eax = 77 }; esp = c.esp + 4 }

keyboard-CanServe : CanServe 0x100020 33 0 interrupted
keyboard-CanServe = record {
  fits = omega arith;
  vector_lt = omega arith;
  code_lt = omega arith;
  back_lt = omega arith;
  room = omega arith;
  esp_lt = omega arith;
}

at_handler-Describes_example :
    let c' = at_handler keep_flags 0x100020 33 0 interrupted in
    (load32 c'.memory c'.esp ≡ 0x100020)
    × (argument c' ≡ ds_word some_regs)
    × Describes 33
        (above (kind_of 33) 0 some_regs)
        some_regs
        (read_registers c'.memory (c'.esp + 4))
at_handler-Describes_example =
    at_handler-Describes keep_flags 0x100020 33 0 interrupted keyboard-CanServe

argument-int_no_example :
    let c' = at_handler keep_flags 0x100020 33 0 interrupted in
    (read_registers c'.memory (argument c')).int_no
    ≡ load32 interrupted.memory (ds_word some_regs + 36)
argument-int_no_example =
    argument-int_no keep_flags 0x100020 33 0 interrupted keyboard-CanServe (inl (omega arith))

-- The keyboard's vector is an ordinary one; the alignment check and three more are not.
kinds :
    (kind_of 33 ≡ only_zero)
    × (kind_of 17 ≡ code_and_zero)
    × (kind_of 21 ≡ code_and_zero)
    × (kind_of 29 ≡ code_and_zero)
    × (kind_of 30 ≡ code_and_zero)
unfolding kind_of has_error_code omits_zero
kinds = (refl, refl, refl, refl, refl)
