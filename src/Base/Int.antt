-- ===== src/Base/Int.antt =====
-- Python's `int`, where the program takes one that may be negative.
use Prim.Native.Nat.{ℕ, zero, suc, ◌<◌}
use mathlib.Core.Path.{◌≡◌}
use native.Mathlib.Omega.{arith}
use mathlib.Core.Bool.{Bool, true, false}

-- `negsuc n` is -(n + 1).
pub data ℤ : Type 0 where
  pos : ℕ → ℤ
  negsuc : ℕ → ℤ

-- `z < 0`
abbrev pub is_negative : ℤ → Bool
is_negative (pos n) = false
is_negative (negsuc n) = true

-- `z <= 0`
abbrev pub is_not_positive : ℤ → Bool
is_not_positive (pos zero) = true
is_not_positive (pos (suc n)) = false
is_not_positive (negsuc n) = true

-- The number that a value is, once a test has shown that it is not negative.
abbrev pub to_ℕ : ℤ → ℕ
to_ℕ (pos n) = n
to_ℕ (negsuc n) = zero

pub to_ℕ_pos : (z : ℤ) → is_not_positive z ≡ false → 0 < to_ℕ z
to_ℕ_pos (pos zero) h = cc
to_ℕ_pos (pos (suc n)) h = omega arith
to_ℕ_pos (negsuc n) h = cc
