-- ===== src/Mm/Memory.antt =====
-- Reads behind a write to a header.
use minicore_os.Base.{ℕ, ◌<◌, ◌≡◌, ◌≢◌, false, arith, ◌==◌}
use minicore_os.Mm.{MemBlock, Headers, modify, set_prev, relink}

module _ (h : Headers) (p : ℕ) (g : MemBlock → MemBlock) where
  pub modify_self : modify h p g p ≡ g (h p)
  unfolding modify
  modify_self = ground arith

  pub modify_ne : (a : ℕ) → a ≢ p → modify h p g a ≡ h a
  unfolding modify
  modify_ne a ne = ground arith

pub relink_pos : (h : Headers) (p v : ℕ) → 0 < p → relink h p v ≡ set_prev h p v
unfolding relink
relink_pos h p v pos = let ne : (p == 0) ≡ false = ground arith in rw ne
