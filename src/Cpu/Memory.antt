-- ===== src/Cpu/Memory.antt =====
-- Words of 32 bits in the memory of bytes: what a store leaves for a later load.
use minicore_os.Base.{ℕ, ◌+◌, ◌≡◌, ◌≤◌, ◌⊎◌, wrap32, arith}
use minicore_os.Cpu.{load32, store32}

-- The word that is stored is the one that is loaded.
pub load32-store32 : (m : ℕ → ℕ) (a v : ℕ) → load32 (store32 m a v) a ≡ wrap32 v
unfolding load32 store32
load32-store32 m a v = ground arith

-- A load that does not overlap the store is not changed.
pub load32-store32_apart :
    (m : ℕ → ℕ) (a v b : ℕ) → (a + 4 ≤ b) ⊎ (b + 4 ≤ a) → load32 (store32 m a v) b ≡ load32 m b
unfolding load32 store32
load32-store32_apart m a v b h = ground arith
