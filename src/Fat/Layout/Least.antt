-- ===== src/Fat/Layout/Least.antt =====
-- The binary search of `_calculate_layout`.
use native.Mathlib.Decide.{dec_lt}
use mathlib.Core.Path.{subst}
use rules_ostest.Base.{
  ℕ, zero, suc, ◌+◌, ◌*◌, ◌/◌, ◌≤◌, ◌<◌, ◌≡◌, refl, ap, inl, inr, true, false, arith, ltb, lt→ltb,
  le→ltb, lt_cases, Bool-cases, is_ok, ok-injective, refuse-eq-ok, ok,
}
use rules_ostest.Fat.Layout.{
  clusters_beside, is_enough, search_layout, first_high, calculate_layout, too_few_clusters,
}

-- Tables of `n` sectors address every cluster that is left beside them.
abbrev pub Addresses : ℕ → ℕ → Type 0
Addresses total n = clusters_beside total n + 2 ≤ n * 128

enough→Addresses : (total n : ℕ) → is_enough total n ≡ true → Addresses total n
enough→Addresses total n h = ground arith

not_enough→ : (total n : ℕ) → is_enough total n ≡ false → ¬ Addresses total n
not_enough→ total n h = ground arith

Addresses-mono : (total m n : ℕ) → m ≤ n → Addresses total m → Addresses total n
Addresses-mono total m n h a = omega arith

-- What the loop keeps: `high` is enough and nothing below `low` is.
record Inv (total low high : ℕ) : Type 0 where
  ordered : low ≤ high
  above : Addresses total high
  below : (n : ℕ) → n < low → ¬ Addresses total n

pub record IsLeast (total n : ℕ) : Type 0 where
  pub addresses : Addresses total n
  pub least : (k : ℕ) → Addresses total k → n ≤ k

stopped-IsLeast : (total low high : ℕ) → high ≤ low → Inv total low high → IsLeast total low
stopped-IsLeast total low high h inv =
    let same : high ≡ low = omega arith in
    record {
      addresses = subst (Addresses total) same inv.above;
      least = λ k a. elim (dec_lt k low) [ yes p ↦ absurd (inv.below k p a) | no p ↦ omega arith ];
    }

search_layout-IsLeast :
    (fuel total low high : ℕ)
    → high ≤ low + fuel
    → Inv total low high
    → IsLeast total (search_layout fuel total low high)
unfolding search_layout
search_layout-IsLeast zero total low high h inv = stopped-IsLeast total low high (omega arith) inv
search_layout-IsLeast (suc fuel) total low high h inv =
    let candidate = (low + high) / 2 in
    elim (lt_cases low high) [
      | inr done ↦ rw (le→ltb low high done) (stopped-IsLeast total low high done inv)
      | inl go ↦ rw (lt→ltb low high go) (elim (Bool-cases (is_enough total candidate)) [
        | inl e ↦ rw e (
            search_layout-IsLeast fuel total low candidate (omega arith) (record {
              ordered = omega arith;
              above = enough→Addresses total candidate e;
              below = inv.below;
            }))
        | inr e ↦ rw e (
            search_layout-IsLeast fuel total (candidate + 1) high (omega arith) (record {
              ordered = omega arith;
              above = inv.above;
              below = λ n p a.
                  not_enough→ total candidate e (Addresses-mono total n candidate (omega arith) a);
            }))
      ])
    ]

first_high-Inv : (total : ℕ) → Inv total 1 (first_high total)
first_high-Inv total = record {
  ordered = omega arith;
  above = omega arith;
  below = λ n p a. omega arith;
}

-- A layout that is returned has the least table size whose entries number every cluster beside
-- two such tables; its clusters, the tables and the 32 reserved sectors are the whole image, and
-- there are 65525 clusters or more.
pub calculate_layout-IsLeast :
    (total fat_sectors clusters : ℕ)
    → calculate_layout total ≡ ok (fat_sectors, clusters)
    → IsLeast total fat_sectors × (clusters + 2 * fat_sectors + 32 ≡ total) × (65525 ≤ clusters)
unfolding calculate_layout
calculate_layout-IsLeast total fat_sectors clusters e₀ =
    let found = search_layout (first_high total) total 1 (first_high total) in
    let (many, e₁) = refuse-eq-ok (ltb (clusters_beside total found) 65525) too_few_clusters _ e₀ in
    let size : found ≡ fat_sectors = ap (λ p. p.0) (ok-injective e₁) in
    let left : clusters_beside total found ≡ clusters = ap (λ p. p.1) (ok-injective e₁) in
    let least =
      search_layout-IsLeast (first_high total) total 1 (first_high total) (omega arith)
        (first_high-Inv total) in
    (subst (IsLeast total) size least, ground arith, ground arith)

-- A layout is returned whenever some table size numbers every cluster beside two such tables and
-- leaves 65525 of them or more.
pub calculate_layout_total :
    (total n : ℕ)
    → Addresses total n
    → 65525 ≤ clusters_beside total n
    → is_ok (calculate_layout total) ≡ true
unfolding calculate_layout
calculate_layout_total total n a many =
    let found = search_layout (first_high total) total 1 (first_high total) in
    let least =
      search_layout-IsLeast (first_high total) total 1 (first_high total) (omega arith)
        (first_high-Inv total) in
    let below = least.least n a in
    rw (le→ltb (clusters_beside total found) 65525 (omega arith)) refl
