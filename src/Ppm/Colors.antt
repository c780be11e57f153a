-- ===== src/Ppm/Colors.antt =====
-- The colors that the loops of `validate_ppm_distinct_pixels` collect.
use rules_ostest.Base.{
  ℕ, zero, suc, ◌+◌, ◌*◌, ◌≤◌, ◌≡◌, false, not, ◌&&◌, List, [], ◌∷◌, arith, ltb, ◌==◌,
  if◌then◌else◌, if-cases, length, is_empty, ok-injective, bind-eq-ok, guard-eq-ok, refuse-eq-ok,
  ok,
}
use rules_ostest.Bytes.{Bytes}
use rules_ostest.Ppm.{
  Pixel, Magic, p3, p6, is_member, observe, exceeds, collect, narrow_raster, wide_raster,
  read_samples, read_raster, ppm_token, ppm_integer, raster_start, skip_ppm_space_and_comments,
  above_maximum, wrong_raster_size, too_many_samples,
}
use mathlib.Core.Path.{subst}

abbrev pub NoRepeats : List Pixel → Type 0
NoRepeats [] = Unit
NoRepeats (p ∷ ps) = (is_member p ps ≡ false) × NoRepeats ps

-- A set of at most `n` colors.
pub record IsColors (n : ℕ) (ps : List Pixel) : Type 0 where
  pub few : length ps ≤ n
  pub no_repeats : NoRepeats ps

observe-IsColors :
    (n : ℕ) (p : Pixel) (ps : List Pixel) → IsColors n ps → IsColors n (observe n p ps)
unfolding observe
observe-IsColors n p ps c =
    if-cases (IsColors n) (ltb (length ps) n && not (is_member p ps)) (p ∷ ps) ps
      (λ h. record { few = ground arith; no_repeats = (ground arith, c.no_repeats) }) (λ _. c)

narrow_raster-IsColors :
    (maximum n : ℕ) (raster : Bytes) (ps qs : List Pixel)
    → IsColors n ps
    → narrow_raster maximum n raster ps ≡ ok qs
    → IsColors n qs
unfolding narrow_raster
narrow_raster-IsColors maximum n (r ∷ g ∷ b ∷ raster) ps qs c e =
    let pixel : Pixel = record { red = r; green = g; blue = b } in
    let (_, rest) = refuse-eq-ok (exceeds maximum pixel) above_maximum _ e in
    narrow_raster-IsColors maximum n raster (observe n pixel ps) qs (observe-IsColors n pixel ps c)
      rest
narrow_raster-IsColors maximum n [] ps qs c e = subst (IsColors n) (ok-injective e) c
narrow_raster-IsColors maximum n (r ∷ []) ps qs c e = subst (IsColors n) (ok-injective e) c
narrow_raster-IsColors maximum n (r ∷ g ∷ []) ps qs c e = subst (IsColors n) (ok-injective e) c

wide_raster-IsColors :
    (maximum n : ℕ) (raster : Bytes) (ps qs : List Pixel)
    → IsColors n ps
    → wide_raster maximum n raster ps ≡ ok qs
    → IsColors n qs
unfolding wide_raster
wide_raster-IsColors maximum n (r₁ ∷ r₀ ∷ g₁ ∷ g₀ ∷ b₁ ∷ b₀ ∷ raster) ps qs c e =
    let pixel : Pixel = record {
      red = r₁ * 256 + r₀;
      green = g₁ * 256 + g₀;
      blue = b₁ * 256 + b₀;
    } in
    let (_, rest) = refuse-eq-ok (exceeds maximum pixel) above_maximum _ e in
    wide_raster-IsColors maximum n raster (observe n pixel ps) qs (observe-IsColors n pixel ps c)
      rest
wide_raster-IsColors maximum n [] ps qs c e = subst (IsColors n) (ok-injective e) c
wide_raster-IsColors maximum n (a₁ ∷ []) ps qs c e = subst (IsColors n) (ok-injective e) c
wide_raster-IsColors maximum n (a₁ ∷ a₂ ∷ []) ps qs c e = subst (IsColors n) (ok-injective e) c
wide_raster-IsColors maximum n (a₁ ∷ a₂ ∷ a₃ ∷ []) ps qs c e = subst (IsColors n) (ok-injective e) c
wide_raster-IsColors maximum n (a₁ ∷ a₂ ∷ a₃ ∷ a₄ ∷ []) ps qs c e =
    subst (IsColors n) (ok-injective e) c
wide_raster-IsColors maximum n (a₁ ∷ a₂ ∷ a₃ ∷ a₄ ∷ a₅ ∷ []) ps qs c e =
    subst (IsColors n) (ok-injective e) c

collect-IsColors :
    (n : ℕ) (samples : List ℕ) (sample : ℕ) (ps : List Pixel)
    → IsColors n ps
    → IsColors n (collect n samples sample ps).1
unfolding collect
collect-IsColors n (r ∷ g ∷ []) sample ps c = observe-IsColors n _ ps c
collect-IsColors n [] sample ps c = c
collect-IsColors n (r ∷ []) sample ps c = c
collect-IsColors n (r ∷ g ∷ b ∷ more) sample ps c = c

read_samples-IsColors :
    (count maximum n : ℕ) (samples : List ℕ) (ps : List Pixel) (bytes : Bytes)
    (read : List Pixel × Bytes)
    → IsColors n ps
    → read_samples count maximum n samples ps bytes ≡ ok read
    → IsColors n read.0
unfolding read_samples
read_samples-IsColors zero maximum n samples ps bytes read c e =
    subst (λ r. IsColors n r.0) (ok-injective e) c
read_samples-IsColors (suc count) maximum n samples ps bytes read c e₀ =
    let (token, _, e₁) = bind-eq-ok (ppm_token bytes) _ e₀ in
    let (sample, _, e₂) = bind-eq-ok (ppm_integer token.0) _ e₁ in
    let (_, e₃) = refuse-eq-ok (ltb maximum sample) above_maximum _ e₂ in
    let next = collect n samples sample ps in
    read_samples-IsColors count maximum n next.0 next.1 token.1 read
      (collect-IsColors n samples sample ps c) e₃

pub read_raster-IsColors :
    (magic : Magic) (count maximum n : ℕ) (bytes : Bytes) (ps : List Pixel)
    → read_raster magic count maximum n bytes ≡ ok ps
    → IsColors n ps
unfolding read_raster
read_raster-IsColors p6 count maximum n bytes ps e₀ =
    let (raster, _, e₁) = bind-eq-ok (raster_start bytes) _ e₀ in
    let (_, e₂) =
      guard-eq-ok (length raster == count * 3 * (if ltb maximum 256 then 1 else 2))
        wrong_raster_size _ e₁ in
    let none_yet : IsColors n [] = record { few = omega arith; no_repeats = tt } in
    if-cases (λ r. r ≡ ok ps → IsColors n ps) (ltb maximum 256) _ _
      (λ _. narrow_raster-IsColors maximum n raster [] ps none_yet)
      (λ _. wide_raster-IsColors maximum n raster [] ps none_yet) e₂
read_raster-IsColors p3 count maximum n bytes ps e₀ =
    let (read, done, e₁) = bind-eq-ok (read_samples (count * 3) maximum n [] [] bytes) _ e₀ in
    let (_, e₂) =
      guard-eq-ok (is_empty (skip_ppm_space_and_comments false read.1)) too_many_samples _ e₁ in
    subst (IsColors n) (ok-injective e₂) (
      read_samples-IsColors (count * 3) maximum n [] [] bytes read
        (record { few = omega arith; no_repeats = tt }) done)
