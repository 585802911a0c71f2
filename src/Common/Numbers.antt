-- ===== src/Common/Numbers.antt =====
-- Quotients of the native numbers.
use native.Mathlib.Nat.{le-div_iff_mul-le, div-mul-le_self}
use native.Mathlib.Omega.{arith}
use Prim.Native.Nat.{ℕ, ◌/◌, ◌≤◌, ◌<◌}

pub div_mono : (a b k : ℕ) → 0 < k → a ≤ b → a / k ≤ b / k
div_mono a b k pos h = (le-div_iff_mul-le pos).1 (omega (arith, div-mul-le_self a k))
