-- ===== src/Bytes/Slices.antt =====
-- Slices of a buffer: parts of a slice, and slices under a write.
use mathlib.Core.Path.{ap₂}
use native.Mathlib.Nat.{zero-add, suc-add}
use rules_ostest.Base.{
  ℕ, zero, suc, ◌+◌, ◌-◌, ◌≤◌, ◌<◌, ◌≡◌, refl, sym, ap, ◌∙◌, ◌⊎◌, [], ◌∷◌, ◌++◌, arith, length,
  get_or, take, drop, replicate,
}
use rules_ostest.Bytes.{Bytes, slice, overlay}
use rules_ostest.Bytes.Overlay.{overlay_inside, overlay_outside}

pub slice_shift : (byte : ℕ → ℕ) (s t n : ℕ) → s ≡ t → slice byte s n ≡ slice byte t n
slice_shift byte s t n e = ap (λ k. slice byte k n) e

pub drop-slice : (byte : ℕ → ℕ) (s o n : ℕ) → drop o (slice byte s (o + n)) ≡ slice byte (s + o) n
drop-slice byte s zero n = rw (zero-add n) (slice_shift byte s (s + 0) n (omega arith))
drop-slice byte s (suc o) n =
    rw (suc-add o n) (drop-slice byte (s + 1) o n ∙ slice_shift byte _ _ n (omega arith))

pub take-slice : (byte : ℕ → ℕ) (s w n : ℕ) → take w (slice byte s (w + n)) ≡ slice byte s w
take-slice byte s zero n = refl
take-slice byte s (suc w) n = rw (suc-add w n) (ap (◌∷◌ (byte s)) (take-slice byte (s + 1) w n))

-- The field of `w` bytes at offset `o` of `n` bytes.
pub field-slice :
    (byte : ℕ → ℕ) (s n o w : ℕ)
    → o + w ≤ n
    → take w (drop o (slice byte s n)) ≡ slice byte (s + o) w
field-slice byte s n o w h =
    let e : n ≡ o + (w + (n - o - w)) = omega arith in
    ap (λ k. take w (drop o (slice byte s k))) e
    ∙ ap (take w) (drop-slice byte s o (w + (n - o - w)))
    ∙ take-slice byte (s + o) w (n - o - w)

-- Two slices with the same bytes are the same.
pub slice_ext :
    (f g : ℕ → ℕ) (s t n : ℕ)
    → ((i : ℕ) → i < n → f (s + i) ≡ g (t + i))
    → slice f s n ≡ slice g t n
slice_ext f g s t zero h = refl
slice_ext f g s t (suc n) h =
    ap₂ ◌∷◌ (ap f (omega arith) ∙ h 0 (omega arith) ∙ ap g (omega arith)) (
      slice_ext f g (s + 1) (t + 1) n
        (λ i p. ap f (omega arith) ∙ h (suc i) (omega arith) ∙ ap g (omega arith)))

pub slice-get_or :
    (f : ℕ → ℕ) (s : ℕ) (bs : Bytes)
    → ((i : ℕ) → i < length bs → f (s + i) ≡ get_or bs i 0)
    → slice f s (length bs) ≡ bs
slice-get_or f s [] h = refl
slice-get_or f s (b ∷ bs) h =
    ap₂ ◌∷◌ (ap f (omega arith) ∙ h 0 (omega arith))
      (slice-get_or f (s + 1) bs (λ i p. ap f (omega arith) ∙ h (suc i) (omega arith)))

-- What was written is read back.
pub slice-overlay_self :
    (s : ℕ) (bs : Bytes) (byte : ℕ → ℕ) → slice (overlay s bs byte) s (length bs) ≡ bs
slice-overlay_self s bs byte =
    slice-get_or (overlay s bs byte) s bs (λ i p. overlay_inside s bs byte i p)

-- A write elsewhere leaves a slice as it is.
pub slice-overlay_outside :
    (s : ℕ) (bs : Bytes) (byte : ℕ → ℕ) (t n : ℕ)
    → (t + n ≤ s) ⊎ (s + length bs ≤ t)
    → slice (overlay s bs byte) t n ≡ slice byte t n
slice-overlay_outside s bs byte t n h =
    slice_ext (overlay s bs byte) byte t t n
      (λ i p. overlay_outside s bs byte (t + i) (omega arith))

-- A part of what was written is read back.
pub slice-overlay_part :
    (s : ℕ) (bs : Bytes) (byte : ℕ → ℕ) (o w : ℕ)
    → o + w ≤ length bs
    → slice (overlay s bs byte) (s + o) w ≡ take w (drop o bs)
slice-overlay_part s bs byte o w h =
    sym (field-slice (overlay s bs byte) s (length bs) o w h)
    ∙ ap (λ l. take w (drop o l)) (slice-overlay_self s bs byte)

pub slice_split :
    (byte : ℕ → ℕ) (s m n : ℕ) → slice byte s (m + n) ≡ slice byte s m ++ slice byte (s + m) n
slice_split byte s zero n = ap₂ (slice byte) (omega arith) (zero-add n)
slice_split byte s (suc m) n =
    ap (slice byte s) (suc-add m n)
    ∙ ap (◌∷◌ (byte s)) (
        slice_split byte (s + 1) m n
        ∙ ap (λ k. slice byte (s + 1) m ++ slice byte k n) (omega arith))

pub slice_zeros :
    (byte : ℕ → ℕ) (s n : ℕ) → ((i : ℕ) → i < n → byte (s + i) ≡ 0) → slice byte s n ≡ replicate n 0
slice_zeros byte s zero h = refl
slice_zeros byte s (suc n) h =
    ap₂ ◌∷◌ (ap byte (omega arith) ∙ h 0 (omega arith))
      (slice_zeros byte (s + 1) n (λ i p. ap byte (omega arith) ∙ h (suc i) (omega arith)))

-- What was written at `s`, seen from there.
pub slice-overlay_at :
    (s : ℕ) (bs : Bytes) (byte : ℕ → ℕ) (n : ℕ) → length bs ≡ n → slice (overlay s bs byte) s n ≡ bs
slice-overlay_at s bs byte n e =
    ap (slice (overlay s bs byte) s) (sym e) ∙ slice-overlay_self s bs byte
