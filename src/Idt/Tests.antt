-- ===== src/Idt/Tests.antt =====
-- The theorems of the descriptor table at a table of other content.
use minicore_os.Base.{ℕ, ◌+◌, ◌%◌, ◌^◌, ◌≡◌, ◌<◌, ◌≤◌, [], arith}
use minicore_os.Idt.{Idt, no_entry, idt_init}
use minicore_os.Idt.Gates.{LeadsTo, idt_init_lem}

abbrev old_table : Idt
old_table = record {
  entries = λ i. record { base_low = i; selector = 1; zero_byte = 2; type_attr = 3; base_high = 4 };
  limit = 0;
  base = 0;
  loaded = (0, 0);
  ports = [];
}

abbrev code_at : ℕ → ℕ
code_at i = (0x101000 + i) % 2 ^ 32

idt_init_lem_example :
    ((i : ℕ) → i < 48 → LeadsTo ((idt_init 0x200 code_at old_table).entries i) (code_at i))
    × ((i : ℕ) → 48 ≤ i → i < 256 → (idt_init 0x200 code_at old_table).entries i ≡ no_entry)
idt_init_lem_example = idt_init_lem code_at (λ i. omega arith) 0x200 old_table
