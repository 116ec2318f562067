-- ===== src/Idt.antt =====
-- The interrupt descriptor table of idt.c: its gates, and the commands that set the interrupt
-- controllers up. The commands go to the ports, which are a log of writes, the last one first.
pub mod Gates
mod Tests
use minicore_os.Base.{ℕ, zero, suc, ◌/◌, ◌%◌, ◌^◌, ◌*◌, ◌-◌, List, [], ◌∷◌, ◌==◌, if◌then◌else◌}

-- `struct idt_entry`
pub record Entry : Type 0 where
  pub base_low : ℕ
  pub selector : ℕ
  pub zero_byte : ℕ
  pub type_attr : ℕ
  pub base_high : ℕ

-- `idt_entries`, `idt_ptr` and what `lidt` has loaded, with the log of the writes to ports
pub record Idt : Type 0 where
  pub entries : ℕ → Entry
  pub limit : ℕ
  pub base : ℕ
  pub loaded : ℕ × ℕ
  pub ports : List (ℕ × ℕ)

-- a write of one entry
unfoldable pub write_entry : (ℕ → Entry) → ℕ → Entry → ℕ → Entry
write_entry t i e j = if j == i then e else t j

pub idt_set_gate : ℕ → ℕ → ℕ → ℕ → Idt → Idt
idt_set_gate num base sel flags s = record s {
  entries = write_entry s.entries num (record {
    base_low = base % 2 ^ 16;
    selector = sel;
    zero_byte = 0;
    type_attr = flags;
    base_high = base / 2 ^ 16 % 2 ^ 16;
  });
}

abbrev pub no_entry : Entry
no_entry = record { base_low = 0; selector = 0; zero_byte = 0; type_attr = 0; base_high = 0 }

-- `for (i = 0; i < n; i++)` of the loop that clears the table
pub clear_entries : ℕ → (ℕ → Entry) → ℕ → Entry
clear_entries zero t = t
clear_entries (suc n) t = write_entry (clear_entries n t) n no_entry

pub outb : ℕ → ℕ → Idt → Idt
outb port value s = record s { ports = (port, value) ∷ s.ports }

-- The initialization of both interrupt controllers and their masks.
pub remap_pic : Idt → Idt
remap_pic s =
    let s1 = outb 0x21 0x01 (outb 0x21 0x04 (outb 0x21 0x20 (outb 0x20 0x11 s))) in
    let s2 = outb 0xA1 0x01 (outb 0xA1 0x02 (outb 0xA1 0x28 (outb 0xA0 0x11 s1))) in
    outb 0xA1 0xFF (outb 0x21 0xFF s2)

-- The calls `idt_set_gate(i, ..., 0x08, 0x8E)` for the vectors below `n`, in their order. `handler`
-- gives the address of `isr0` to `isr31` for the vectors 0 to 31, and of `irq0` to `irq15` for 32 to
-- 47.
pub set_gates : ℕ → (handler : ℕ → ℕ) → Idt → Idt
set_gates zero handler s = s
set_gates (suc n) handler s = idt_set_gate n (handler n) 0x08 0x8E (set_gates n handler s)

-- `table` is the address of `idt_entries`, which the linker chooses.
pub idt_init : (table : ℕ) → (handler : ℕ → ℕ) → Idt → Idt
idt_init table handler s =
    let s' = record s {
      limit = 8 * 256 - 1;
      base = table;
      entries = clear_entries 256 s.entries;
    } in
    let g = set_gates 48 handler (remap_pic s') in record g { loaded = (g.limit, g.base) }
