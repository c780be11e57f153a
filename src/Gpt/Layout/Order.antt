-- ===== src/Gpt/Layout/Order.antt =====
-- The loop of `_layout_partitions`, and the order of the partitions on the disk.
use rules_ostest.Base.{
  ℕ, suc, ◌+◌, ◌≤◌, ◌<◌, String, ◌≡◌, refl, ap, false, List, [], ◌∷◌, arith, ltb, length, is_empty,
  All, ok-injective, bind-eq-ok, refuse-eq-ok, ok,
}
use rules_ostest.Disk.{Host, no_partitions, too_many_partitions}
use mathlib.Core.Path.{subst}
use rules_ostest.Gpt.{Partition, PartitionSpec}
use rules_ostest.Gpt.Layout.{layout_one, layout_from, layout_partitions}
use rules_ostest.Gpt.Layout.Steps.{IsPlaced, layout_one-IsPlaced, IsAsked, layout_one-IsAsked}

-- Each partition is placed by the rules, from the end of the one before it.
abbrev pub IsLaidOut : Host → ℕ → ℕ → ℕ → List Partition → Type 0
IsLaidOut host first last cursor [] = Unit
IsLaidOut host first last cursor (p ∷ ps) =
    IsPlaced host first last cursor p × IsLaidOut host first last (p.end_lba + 1) ps

-- Each spec has its partition, which got what the spec asks for.
abbrev pub AreAsked : ℕ → List PartitionSpec → List Partition → Type 0
AreAsked cursor [] [] = Unit
AreAsked cursor [] (p ∷ ps) = ⊥
AreAsked cursor (spec ∷ specs) [] = ⊥
AreAsked cursor (spec ∷ specs) (p ∷ ps) = IsAsked cursor spec p × AreAsked (p.end_lba + 1) specs ps

-- Every partition ends before each later one starts.
abbrev pub IsOrdered : List Partition → Type 0
IsOrdered [] = Unit
IsOrdered (p ∷ ps) = All (λ q. p.end_lba < q.start_lba) ps × IsOrdered ps

not_empty {ℓ} : {A : Type ℓ} (xs : List A) → is_empty xs ≡ false → 0 < length xs
not_empty [] h = cc
not_empty (x ∷ xs) h = omega arith

module _ (host : Host) (identity : String) (first last : ℕ) where
  layout_from-IsLaidOut :
      (index cursor : ℕ) (specs : List PartitionSpec) (ps : List Partition)
      → layout_from host identity first last index cursor specs ≡ ok ps
      → IsLaidOut host first last cursor ps × (length ps ≡ length specs)
  unfolding layout_from
  layout_from-IsLaidOut index cursor [] ps e =
      subst (λ l. IsLaidOut host first last cursor l × (length l ≡ 0)) (ok-injective e) (tt, refl)
  layout_from-IsLaidOut index cursor (spec ∷ specs) ps e₀ =
      let (p, placed, e₁) =
        bind-eq-ok (layout_one host identity first last index cursor spec) _ e₀ in
      let (rest, later, e₂) =
        bind-eq-ok (layout_from host identity first last (index + 1) (p.end_lba + 1) specs) _ e₁ in
      let ih = layout_from-IsLaidOut (index + 1) (p.end_lba + 1) specs rest later in
      subst (λ l. IsLaidOut host first last cursor l × (length l ≡ suc (length specs)))
        (ok-injective e₂)
        (
          (layout_one-IsPlaced host identity first last index cursor spec p placed, ih.0),
          ap suc ih.1,
        )

  layout_from-AreAsked :
      (index cursor : ℕ) (specs : List PartitionSpec) (ps : List Partition)
      → layout_from host identity first last index cursor specs ≡ ok ps
      → AreAsked cursor specs ps
  unfolding layout_from
  layout_from-AreAsked index cursor [] ps e = subst (AreAsked cursor []) (ok-injective e) tt
  layout_from-AreAsked index cursor (spec ∷ specs) ps e₀ =
      let (p, placed, e₁) =
        bind-eq-ok (layout_one host identity first last index cursor spec) _ e₀ in
      let (rest, later, e₂) =
        bind-eq-ok (layout_from host identity first last (index + 1) (p.end_lba + 1) specs) _ e₁ in
      subst (AreAsked cursor (spec ∷ specs)) (ok-injective e₂) (
        layout_one-IsAsked host identity first last index cursor spec p placed,
        layout_from-AreAsked (index + 1) (p.end_lba + 1) specs rest later,
      )

  -- An accepted layout has one partition for each spec, from 1 to 128 of them; each has the image
  -- of its spec, is a whole number of sectors, lies in the usable range, behind the one before
  -- it, and starts on the alignment that its spec asks for, at the LBA that the spec asks for or,
  -- where that is 0, at the least aligned LBA that is free.
  pub layout_partitions-IsLaidOut :
      (specs : List PartitionSpec) (ps : List Partition)
      → layout_partitions host identity first last specs ≡ ok ps
      → IsLaidOut host first last first ps
        × AreAsked first specs ps
        × (length ps ≡ length specs)
        × (0 < length ps)
        × (length ps ≤ 128)
  unfolding layout_partitions
  layout_partitions-IsLaidOut specs ps e₀ =
      let (some_spec, e₁) = refuse-eq-ok (is_empty specs) no_partitions _ e₀ in
      let (few, e₂) = refuse-eq-ok (ltb 128 (length specs)) too_many_partitions _ e₁ in
      let (laid, same) = layout_from-IsLaidOut 0 first specs ps e₂ in
      (
        laid,
        layout_from-AreAsked 0 first specs ps e₂,
        same,
        omega (arith, not_empty specs some_spec),
        ground arith,
      )

  starts_behind :
      (c cursor : ℕ) (ps : List Partition)
      → c ≤ cursor
      → IsLaidOut host first last cursor ps
      → All (λ q. c ≤ q.start_lba) ps
  starts_behind c cursor [] h laid = tt
  starts_behind c cursor (p ∷ ps) h (placed, laid) =
      let behind = placed.behind_cursor in
      let ends = placed.end_is in
      (omega arith, starts_behind c (p.end_lba + 1) ps (omega arith) laid)

  pub IsLaidOut-IsOrdered :
      (cursor : ℕ) (ps : List Partition) → IsLaidOut host first last cursor ps → IsOrdered ps
  IsLaidOut-IsOrdered cursor [] laid = tt
  IsLaidOut-IsOrdered cursor (p ∷ ps) (placed, laid) = (
    starts_behind (suc p.end_lba) (p.end_lba + 1) ps (omega arith) laid,
    IsLaidOut-IsOrdered (p.end_lba + 1) ps laid,
  )

  -- No two partitions of an accepted layout share a sector: each ends before every later one
  -- starts.
  pub layout_partitions-IsOrdered :
      (specs : List PartitionSpec) (ps : List Partition)
      → layout_partitions host identity first last specs ≡ ok ps
      → IsOrdered ps
  layout_partitions-IsOrdered specs ps e =
      IsLaidOut-IsOrdered first ps (layout_partitions-IsLaidOut specs ps e).0
