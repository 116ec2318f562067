-- ===== src/Isr/Tests.antt =====
-- The masks of interrupt controllers that read the last byte written.
use minicore_os.Base.{ℕ, ◌≡◌, true, false, [], ◌∷◌, ◌==◌, if◌then◌else◌, arith}
use minicore_os.Isr.{Ports, irq_enable, irq_disable}
use minicore_os.Isr.Masks.{MaskPorts, masked, irq_enable_disable}

-- What a port reads: the last byte written to it, and 0xFF before the first.
abbrev last_written : Ports → ℕ → ℕ
last_written [] p = 0xFF
last_written ((q, v) ∷ ports) p = let older = last_written ports p in if p == q then v else older

MaskPorts-last_written : MaskPorts last_written []
MaskPorts-last_written = record {
  byte = λ p. omega arith;
  reads = λ p v h. ground arith;
  apart = λ p q v hp hq ne. ground arith;
}

irq_enable_disable_example :
    (masked last_written (irq_enable last_written 9 []) 9 ≡ false)
    × (masked last_written (irq_disable last_written 9 []) 9 ≡ true)
irq_enable_disable_example =
    irq_enable_disable last_written [] MaskPorts-last_written 9 9 (omega arith) (omega arith)
