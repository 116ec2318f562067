-- ===== src/Kernel/Commands/Memtest.antt =====
-- The memory test of the shell: the blocks that it allocates are freed again.
use minicore_os.Base.{arith}
use minicore_os.Kernel.{Kernel}
use minicore_os.Kernel.Commands.{run_memtest}
use minicore_os.Kernel.Holding.{nothing, Held-swap, alloc-Keeps, free-Keeps, show_then-Keeps}
use minicore_os.Kernel.Invariant.{IsKernel, Keeps, show-Keeps}

pub run_memtest-Keeps : {k : Kernel} → IsKernel k → Keeps (run_memtest k)
unfolding run_memtest
run_memtest-Keeps (bs, v) = show_then-Keeps _ _ v λ t1 v1.
    alloc-Keeps v1 nothing 100 _ (omega arith) (omega arith) λ p m2 b2 v2 h2.
      show_then-Keeps _ _ v2 λ t3 v3.
        alloc-Keeps v3 h2 200 _ (omega arith) (omega arith) λ q m4 b4 v4 h4.
          show_then-Keeps _ _ v4 λ t5 v5. free-Keeps _ v5 (Held-swap h4) λ m6 b6 v6 h6.
            show_then-Keeps _ _ v6 λ t7 v7. free-Keeps _ v7 h6 λ m8 b8 v8 h8. show-Keeps _ (b8, v8)
