-- ===== src/Base/Arith.antt =====
-- Facts about products and quotients that are not linear.
use Prim.Native.Nat.{ℕ, zero, suc, ◌*◌, ◌/◌, ◌≤◌, ◌<◌}
use mathlib.Core.Path.{◌≡◌}
use native.Mathlib.Omega.{arith}

pub pos_of_mul_pos : (a b : ℕ) → 0 < a * b → 0 < a
pos_of_mul_pos zero b h = absurd (omega arith)
pos_of_mul_pos (suc a) b h = omega arith

pub mul-div-le : (t c : ℕ) → 0 < c → c * (t / c) ≤ t
mul-div-le t c pos = omega arith

pub mul-div_cancel : (c s : ℕ) → 0 < c → c * s / c ≡ s
mul-div_cancel c s pos = grind arith
