-- ===== src/Kernel/Console.antt =====
-- `process_command` of kernel.c, the console before the shell, with its own memory test and comparison.
use minicore_os.Base.{
  ℕ, Bool, List, [], ◌∷◌, ◌==◌, if◌then◌else◌, get_or, c_string, arith, Bool-cases, inl, inr,
  Outcome,
}
use Prim.Native.String.{String}
use minicore_os.Base.Int.{ℤ, sub_ℕ}
use minicore_os.Terminal.Output.{Output, writestring, say}
use minicore_os.Kernel.{Kernel, Flow, ◌▸◌, show, alloc, alloc_zeroed, free}
use minicore_os.Kernel.Commands.{run_print_stats, run_memory_map, run_debug_heap, allocated}
use minicore_os.Kernel.Commands.Keeps.{
  run_print_stats-Keeps, run_memory_map-Keeps, run_debug_heap-Keeps,
}
use minicore_os.Kernel.Holding.{
  nothing, Held-swap, Held-rotate, alloc-Keeps, alloc_zeroed-Keeps, free-Keeps, show_then-Keeps,
}
use minicore_os.Kernel.Invariant.{IsKernel, Keeps, show-Keeps}
use minicore_os.Shell.{is_zero}

pub strcmp : List ℕ → List ℕ → ℤ
strcmp [] t = sub_ℕ 0 (get_or t 0 0)
strcmp (b ∷ bs) [] = sub_ℕ b 0
strcmp (b ∷ bs) (c ∷ cs) =
    let rest = strcmp bs cs in if b == 0 then sub_ℕ b c else (if b == c then rest else sub_ℕ b c)

abbrev pub is_command : List ℕ → String → Bool
is_command command s = is_zero (strcmp command (c_string s))

-- The command `memtest`; an `int` has 4 bytes.
pub console_memtest : Kernel → Outcome Flow
console_memtest k = show (say "=== Memory Test ===\n" ∷ []) k ▸ λ k. alloc 100 k λ ptr1 k.
    show (allocated "Allocated 100 bytes at: 0x" ptr1) k ▸ λ k. alloc 200 k λ ptr2 k.
      show (allocated "Allocated 200 bytes at: 0x" ptr2) k ▸ λ k. alloc_zeroed 50 4 k λ ptr3 k.
        show (allocated "Allocated 50 ints (zeroed) at: 0x" ptr3) k ▸ λ k. free ptr1 k ▸ λ k.
        show (say "Freed first allocation\n" ∷ []) k ▸ λ k. free ptr2 k ▸ λ k.
        show (say "Freed second allocation\n" ∷ []) k ▸ λ k. free ptr3 k ▸ λ k.
        show (say "Freed third allocation\n" ∷ say "Memory test complete!\n" ∷ []) k

abbrev pub console_help : List Output
console_help =
    say "Available commands:\n"
    ∷ say "  memstat  - Show memory statistics\n"
    ∷ say "  memmap   - Show memory map\n"
    ∷ say "  heapdbg  - Debug heap structure\n"
    ∷ say "  memtest  - Run memory allocation test\n"
    ∷ say "  help     - Show this help\n"
    ∷ []

pub process_command : List ℕ → Kernel → Outcome Flow
process_command command k =
    if is_command command "memstat"
    then run_print_stats k
    else if is_command command "memmap"
    then run_memory_map k
    else if is_command command "heapdbg"
    then run_debug_heap k
    else if is_command command "memtest"
    then console_memtest k
    else if is_command command "help"
    then show console_help k
    else show
        (say "Unknown command: "
          ∷ writestring command
          ∷ say "\nType 'help' for available commands.\n"
          ∷ [])
        k

console_memtest-Keeps : {k : Kernel} → IsKernel k → Keeps (console_memtest k)
unfolding console_memtest
console_memtest-Keeps (bs, v) = show_then-Keeps _ _ v λ t1 v1.
    alloc-Keeps v1 nothing 100 _ (omega arith) (omega arith) λ p m2 b2 v2 h2.
      show_then-Keeps _ _ v2 λ t3 v3.
        alloc-Keeps v3 h2 200 _ (omega arith) (omega arith) λ q m4 b4 v4 h4.
          show_then-Keeps _ _ v4 λ t5 v5.
            alloc_zeroed-Keeps v5 h4 50 4 _ (omega arith) (omega arith) λ r m6 b6 v6 h6.
              show_then-Keeps _ _ v6 λ t7 v7. free-Keeps _ v7 (Held-rotate h6) λ m8 b8 v8 h8.
                show_then-Keeps _ _ v8 λ t9 v9. free-Keeps _ v9 (Held-swap h8) λ m10 b10 v10 h10.
                  show_then-Keeps _ _ v10
                    λ t11 v11. free-Keeps _ v11 h10 λ m12 b12 v12 h12. show-Keeps _ (b12, v12)

-- `process_command` of any text ends, without a fault, and leaves a valid kernel.
pub process_command-Keeps :
    (command : List ℕ) {k : Kernel} → IsKernel k → Keeps (process_command command k)
unfolding process_command
process_command-Keeps command v = elim (Bool-cases (is_command command "memstat")) [
  | inl e ↦ rw e (run_print_stats-Keeps v)
  | inr e ↦ elim (Bool-cases (is_command command "memmap")) [
    | inl f ↦ rw (e, f) (run_memory_map-Keeps v)
    | inr f ↦ elim (Bool-cases (is_command command "heapdbg")) [
      | inl g ↦ rw (e, f, g) (run_debug_heap-Keeps v)
      | inr g ↦ elim (Bool-cases (is_command command "memtest")) [
        | inl h ↦ rw (e, f, g, h) (console_memtest-Keeps v)
        | inr h ↦ elim (Bool-cases (is_command command "help")) [
          | inl i ↦ rw (e, f, g, h, i) (show-Keeps console_help v)
          | inr i ↦ rw (e, f, g, h, i) (show-Keeps _ v)
        ]
      ]
    ]
  ]
]
