-- ===== src/Cpu/Sample.antt =====
-- A processor to run the code of the two files on.
use minicore_os.Base.{ℕ}
use minicore_os.Cpu.{Regs, Cpu}

abbrev pub keep_flags : ℕ → ℕ → ℕ
keep_flags esp flags = flags

abbrev pub some_regs : Regs
some_regs = record {
  eax = 1;
  ebx = 2;
  ecx = 3;
  edx = 4;
  esi = 5;
  edi = 6;
  ebp = 0x9100;
  ds = 0x10;
  es = 0x18;
  fs = 0x10;
  gs = 0x10;
  eflags = 0x202;
  eip = 0x100200;
  cs = 8;
}

abbrev pub interrupted : Cpu
interrupted = record { regs = some_regs; esp = 0x9000; memory = λ _. 0 }
