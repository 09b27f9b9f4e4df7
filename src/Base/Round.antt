-- ===== src/Base/Round.antt =====
-- `Math.round(n / d)` of natural numbers: the whole part of n / d + 1/2.
use Prim.Native.Nat.{ℕ, ◌+◌, ◌*◌, ◌/◌, ◌≤◌, ◌<◌}
use native.Mathlib.Omega.{arith}

unfoldable pub round_div : ℕ → ℕ → ℕ
round_div n d = (2 * n + d) / (2 * d)

pub round_div-ge : (n d lo : ℕ) → 0 < d → lo * d ≤ n → lo ≤ round_div n d
unfolding round_div
round_div-ge n d lo pos h = grind arith

pub round_div-le : (n d hi : ℕ) → 0 < d → n ≤ hi * d → round_div n d ≤ hi
unfolding round_div
round_div-le n d hi pos h = grind arith
