-- ===== src/Bytes/Overlay.antt =====
-- What a write leaves at each offset, and round trips of packed integers.
use mathlib.Core.Path.{fun_ext}
use native.Mathlib.Nat.{pow-succ'}
use rules_ostest.Base.{
  ℕ, zero, suc, ◌+◌, ◌-◌, ◌/◌, ◌^◌, ◌≤◌, ◌<◌, ◌≡◌, refl, ap, ◌∙◌, ◌⊎◌, [], ◌++◌, arith, length,
  get_or, length-append, get_or-append, ◌>>=◌, bind-eq-ok, Result, ok,
}
use rules_ostest.Bytes.{Bytes, to_le, from_le, slice, overlay, pack_le}

pub length-to_le : (w v : ℕ) → length (to_le w v) ≡ w
length-to_le zero v = refl
length-to_le (suc w) v = ap suc (length-to_le w (v / 256))

pub from_le-to_le : (w v : ℕ) → v < 256 ^ w → from_le (to_le w v) ≡ v
from_le-to_le zero v h = omega arith
from_le-to_le (suc w) v h =
    omega (arith, from_le-to_le w (v / 256) (omega (arith, pow-succ' 256 w)))

pub length-slice : (byte : ℕ → ℕ) (start n : ℕ) → length (slice byte start n) ≡ n
length-slice byte start zero = refl
length-slice byte start (suc n) = ap suc (length-slice byte (start + 1) n)

pub get_or-slice :
    (byte : ℕ → ℕ) (start n i : ℕ) → i < n → get_or (slice byte start n) i 0 ≡ byte (start + i)
get_or-slice byte start zero i h = elim h [ ]
get_or-slice byte start (suc n) zero h = ap byte (omega arith)
get_or-slice byte start (suc n) (suc i) h =
    get_or-slice byte (start + 1) n i (omega arith) ∙ ap byte (omega arith)

pub overlay_inside :
    (start : ℕ) (bs : Bytes) (byte : ℕ → ℕ) (i : ℕ)
    → i < length bs
    → overlay start bs byte (start + i) ≡ get_or bs i 0
unfolding overlay
overlay_inside start bs byte i h = ground arith

pub overlay_outside :
    (start : ℕ) (bs : Bytes) (byte : ℕ → ℕ) (i : ℕ)
    → (i < start) ⊎ (start + length bs ≤ i)
    → overlay start bs byte i ≡ byte i
unfolding overlay
overlay_outside start bs byte i h = ground arith

pub overlay-nil : (start : ℕ) (byte : ℕ → ℕ) → overlay start [] byte ≡ byte
unfolding overlay
overlay-nil start byte = fun_ext λ i. ground arith

pub overlay-append :
    (start : ℕ) (xs bs : Bytes) (byte : ℕ → ℕ)
    → overlay (start + length xs) bs (overlay start xs byte) ≡ overlay start (xs ++ bs) byte
unfolding overlay
overlay-append start xs bs byte =
    fun_ext λ i. ground (arith, length-append xs bs, get_or-append xs bs (i - start) 0)

pub pack_le-eq-ok :
    {E : Type 0} (e : E) (w v : ℕ) (bs : Bytes)
    → pack_le e w v ≡ ok bs
    → (v < 256 ^ w) × (bs ≡ to_le w v)
unfolding pack_le
pack_le-eq-ok e w v bs h = ground arith

-- A packed field that the rest of the call has used.
pub pack_le-bind :
    {E A : Type 0} (e : E) (w v : ℕ) (f : Bytes → Result E A) (a : A)
    → (pack_le e w v >>= f) ≡ ok a
    → (v < 256 ^ w) × (f (to_le w v) ≡ ok a)
pack_le-bind e w v f a h =
    let (bs, packed, h') = bind-eq-ok (pack_le e w v) f h in
    let (fits, same) = pack_le-eq-ok e w v bs packed in (fits, rw same at h')
