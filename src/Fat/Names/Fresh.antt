-- ===== src/Fat/Names/Fresh.antt =====
-- The 8.3 name that one round of `_assign_short_names` finds.
use mathlib.Core.Path.{subst}
use rules_ostest.Base.{
  ℕ, zero, suc, ◌+◌, ◌≡◌, refl, sym, ap, ◌∙◌, inl, inr, Bool, true, false, not, ◌&&◌, Option, none,
  some, List, [], ◌∷◌, arith, if◌then◌else◌, Bool-cases, is_empty, take, ok-injective, ok,
}
use rules_ostest.Bytes.{Bytes}
use rules_ostest.Fat.Names.{
  Name, Unicode, is_used, find_alias, numbered_alias, choose_name, assign_short_name, eight_three,
  candidate_base, is_reserved, split_filename, sanitize_short_part, is_direct,
}

and-not-first : (a b : Bool) → (not a && not b) ≡ true → a ≡ false
and-not-first true b h = cc
and-not-first false b h = refl

and-last : (a b : Bool) → (a && not b) ≡ true → b ≡ false
and-last a b h = ground arith

some-injective : {a b : Bytes} → some a ≡ some b → a ≡ b
some-injective {a = a} h = ap (λ o. elim o [ none ↦ a | some x ↦ x ]) h

find_alias-fresh :
    (fuel n : ℕ) (stem extension : Name) (used : List Name) (raw : Bytes)
    → find_alias fuel n stem extension used ≡ some raw
    → is_used raw used ≡ false
unfolding find_alias
find_alias-fresh zero n stem extension used raw h = cc
find_alias-fresh (suc fuel) n stem extension used raw h =
    let candidate = eight_three (candidate_base stem n) extension in
    elim (Bool-cases (not (is_used candidate used) && not (is_reserved (candidate_base stem n)))) [
      | inl e ↦
          let found : some candidate ≡ some raw = sym (rw e) ∙ h in
          subst (λ r. is_used r used ≡ false) (some-injective found) (and-not-first _ _ e)
      | inr e ↦ find_alias-fresh fuel (n + 1) stem extension used raw (sym (rw e) ∙ h)
    ]

numbered_alias-fresh :
    (stem extension : Name) (used : List Name) (raw : Bytes)
    → numbered_alias stem extension used ≡ some raw
    → is_used raw used ≡ false
unfolding numbered_alias
numbered_alias-fresh stem extension used raw h =
    find_alias-fresh 999_999 1 stem extension used raw h

choose_name-fresh :
    (direct : Bool) (name : Bytes) (numbered : Option Bytes) (used : List Name) (raw : Bytes)
    → (direct ≡ true → is_used name used ≡ false)
    → ((r : Bytes) → numbered ≡ some r → is_used r used ≡ false)
    → choose_name direct name numbered ≡ ok raw
    → is_used raw used ≡ false
choose_name-fresh true name numbered used raw d n h =
    subst (λ r. is_used r used ≡ false) (ok-injective h) (d refl)
choose_name-fresh false name none used raw d n h = cc
choose_name-fresh false name (some r) used raw d n h =
    subst (λ r. is_used r used ≡ false) (ok-injective h) (n r refl)

-- The name that a round assigns is none that it was told is used.
pub assign_short_name-fresh :
    (uni : Unicode) (name : Name) (used : List Name) (raw : Bytes)
    → assign_short_name uni name used ≡ ok raw
    → is_used raw used ≡ false
unfolding assign_short_name
assign_short_name-fresh uni name used raw h =
    let base = (split_filename name).0 in
    let extension = (split_filename name).1 in
    let clean_base = sanitize_short_part uni base in
    let clean_extension = take 3 (sanitize_short_part uni extension) in
    let stem = if is_empty clean_base then 0x5f ∷ [] else clean_base in
    choose_name-fresh (is_direct uni base extension used)
      (eight_three (take 8 clean_base) clean_extension) (numbered_alias stem clean_extension used)
      used raw (λ e. and-last _ _ e) (numbered_alias-fresh stem clean_extension used) h
