-- ===== src/Gpt/Layout/Alignment.antt =====
-- `_align_up` and alignment.
use native.Mathlib.Nat.{div-add-mod, mod-lt}
use rules_ostest.Base.{ℕ, ◌+◌, ◌-◌, ◌%◌, ◌≤◌, ◌<◌, ◌≡◌, arith}
use rules_ostest.Gpt.Layout.{align_up}

pub align_up_mod : (v a : ℕ) → align_up v a % a ≡ 0
unfolding align_up
align_up_mod v a = grind arith

pub le-align_up : (v a : ℕ) → 0 < a → v ≤ align_up v a
unfolding align_up
le-align_up v a h = omega (arith, div-add-mod (v + a - 1) a, mod-lt (v + a - 1) h)

-- For a positive alignment, `align_up` gives no more than any aligned LBA that is not below the
-- value.
pub align_up_least : (v a t : ℕ) → 0 < a → v ≤ t → t % a ≡ 0 → align_up v a ≤ t
unfolding align_up
align_up_least v a t h le al = grind (arith, div-add-mod (v + a - 1) a, div-add-mod t a)
