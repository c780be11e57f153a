-- ===== src/Fat/Tree/Aliases.antt =====
-- The 8.3 names of the children of each directory.
use rules_ostest.Base.{◌≡◌, false, List, [], ◌∷◌, ok-injective, bind-eq-ok, ok}
use rules_ostest.Fat.Names.{Name, Unicode, is_used, assign_short_name}
use rules_ostest.Fat.Names.Fresh.{assign_short_name-fresh}
use rules_ostest.Fat.Tree.{Nodes, node, nil, cons, assign_short_names}
use mathlib.Core.Path.{subst}

-- No short name is among `used` or repeats one before it in its directory.
abbrev pub HasDistinctNames : List Name → Nodes → Type 0
HasDistinctNames used nil = Unit
HasDistinctNames used (cons (node e cs) ns) =
    (is_used e.short_name used ≡ false)
    × HasDistinctNames [] cs
    × HasDistinctNames (e.short_name ∷ used) ns

-- When short names are assigned without an error, no two children of a directory have the same
-- one, in every directory of the tree, and none in the first directory is among the names given
-- as used.
pub assign_short_names-HasDistinctNames :
    (uni : Unicode) (used : List Name) (ns ns' : Nodes)
    → assign_short_names uni used ns ≡ ok ns'
    → HasDistinctNames used ns'
unfolding assign_short_names
assign_short_names-HasDistinctNames uni used nil ns' h =
    subst (HasDistinctNames used) (ok-injective h) tt
assign_short_names-HasDistinctNames uni used (cons (node e cs) ns) ns' e₀ =
    let (raw, named, e₁) = bind-eq-ok (assign_short_name uni e.name used) _ e₀ in
    let (cs', below, e₂) = bind-eq-ok (assign_short_names uni [] cs) _ e₁ in
    let (rest, later, e₃) = bind-eq-ok (assign_short_names uni (raw ∷ used) ns) _ e₂ in
    subst (HasDistinctNames used) (ok-injective e₃) (
      assign_short_name-fresh uni e.name used raw named,
      assign_short_names-HasDistinctNames uni [] cs cs' below,
      assign_short_names-HasDistinctNames uni (raw ∷ used) ns rest later,
    )
