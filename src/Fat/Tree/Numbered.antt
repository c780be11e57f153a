-- ===== src/Fat/Tree/Numbered.antt =====
-- The clusters that `_assign_clusters` gives to the nodes of the walk.
use rules_ostest.Fat.{too_many_clusters}
use rules_ostest.Base.{
  ℕ, ◌+◌, ◌-◌, ◌≤◌, ◌≡◌, refl, sym, ap, ◌∙◌, ◌⊎◌, inl, inr, true, false, List, [], ◌∷◌, ◌++◌, arith,
  ltb, Bool-cases, ok-injective, refuse-eq-ok, ok,
}
use rules_ostest.Fat.Tree.{
  Entry, Nodes, node, nil, cons, place, number_files, number_dirs, number_children, count_clusters,
}
use rules_ostest.Fat.Walk.{
  dir_item, file_item, Item, walk_files, walk_dirs, walk_below, assign_clusters, root_count,
  root_item,
}
use mathlib.Core.Path.{subst}

-- From cluster `next` on the nodes follow one another without a gap, up to `last`.
abbrev pub IsNumbered : ℕ → List Item → ℕ → Type 0
IsNumbered next [] last = next ≡ last
IsNumbered next (i ∷ is) last =
    ((i.entry.cluster_count ≡ 0) ⊎ (i.entry.first_cluster ≡ next))
    × IsNumbered (next + i.entry.cluster_count) is last

IsNumbered-append :
    (a b c : ℕ) (xs ys : List Item)
    → IsNumbered a xs b
    → IsNumbered b ys c
    → IsNumbered a (xs ++ ys) c
IsNumbered-append a b c [] ys h k = subst (λ n. IsNumbered n ys c) (sym h) k
IsNumbered-append a b c (x ∷ xs) ys (h, hs) k =
    (h, IsNumbered-append (a + x.entry.cluster_count) b c xs ys hs k)

place_lem :
    (next : ℕ) (e : Entry)
    → ((place next e).cluster_count ≡ e.cluster_count)
      × ((e.cluster_count ≡ 0) ⊎ ((place next e).first_cluster ≡ next))
      × ((place next e).is_dir ≡ e.is_dir)
place_lem next e = ground arith

-- Numbering the files leaves the walk over the directories as it is.
walk_dirs-number_files :
    (up next : ℕ) (ns : Nodes) → walk_dirs up (number_files next ns).0 ≡ walk_dirs up ns
unfolding walk_dirs number_files
walk_dirs-number_files up next nil = refl
walk_dirs-number_files up next (cons (node e cs) ns) = ground (
  arith,
  walk_dirs-number_files up next ns,
  walk_dirs-number_files up (next + e.cluster_count) ns,
)

-- One step of the walk and of the numbering, for a file and for a directory.
module _ (e : Entry) (cs ns : Nodes) where
  module _ (h : e.is_dir ≡ false) where
    files_of_file :
        (next : ℕ)
        → walk_files (number_files next (cons (node e cs) ns)).0
          ≡ file_item (place next e) cs ∷ walk_files (number_files (next + e.cluster_count) ns).0
    unfolding walk_files number_files
    files_of_file next = ground arith

    next_of_file :
        (next : ℕ)
        → (number_files next (cons (node e cs) ns)).1 ≡ (number_files (next + e.cluster_count) ns).1
    unfolding number_files
    next_of_file next = ground arith

    dirs_of_file :
        (up next : ℕ)
        → walk_dirs up (number_dirs next (cons (node e cs) ns)).0
          ≡ walk_dirs up (number_dirs next ns).0
    unfolding walk_dirs number_dirs
    dirs_of_file up next = ground arith

    dirs_next_of_file :
        (next : ℕ) → (number_dirs next (cons (node e cs) ns)).1 ≡ (number_dirs next ns).1
    unfolding number_dirs
    dirs_next_of_file next = ground arith

  module _ (h : e.is_dir ≡ true) where
    files_of_dir :
        (next : ℕ)
        → walk_files (number_files next (cons (node e cs) ns)).0
          ≡ walk_files (number_files next ns).0
    unfolding walk_files number_files
    files_of_dir next = ground arith

    next_of_dir :
        (next : ℕ) → (number_files next (cons (node e cs) ns)).1 ≡ (number_files next ns).1
    unfolding number_files
    next_of_dir next = ground arith

    dirs_of_dir :
        (up next : ℕ)
        → (let below = number_children (next + e.cluster_count) cs in
            walk_dirs up (number_dirs next (cons (node e cs) ns)).0
            ≡ dir_item (place next e) up below.0
              ∷ (walk_below (place next e).first_cluster below.0
                  ++ walk_dirs up (number_dirs below.1 ns).0))
    unfolding walk_dirs number_dirs
    dirs_of_dir up next = ground arith

    dirs_next_of_dir :
        (next : ℕ)
        → (number_dirs next (cons (node e cs) ns)).1
          ≡ (number_dirs (number_children (next + e.cluster_count) cs).1 ns).1
    unfolding number_dirs
    dirs_next_of_dir next = ground arith

IsNumbered-subst :
    (a : ℕ) {b b' : ℕ} {xs xs' : List Item}
    → xs ≡ xs'
    → b ≡ b'
    → IsNumbered a xs b
    → IsNumbered a xs' b'
IsNumbered-subst a {b} {b'} {xs} {xs'} p q h =
    subst (IsNumbered a xs') q (subst (λ l. IsNumbered a l b) p h)

-- The head of a numbered walk.
place-IsNumbered :
    (next : ℕ) (e : Entry) (i : Item) (is : List Item) (last : ℕ)
    → i.entry ≡ place next e
    → IsNumbered (next + e.cluster_count) is last
    → IsNumbered next (i ∷ is) last
place-IsNumbered next e i is last p h =
    let (count, first, _) = place_lem next e in
    (
      elim first [
        | inl z ↦ inl (ap (λ f. f.cluster_count) p ∙ count ∙ z)
        | inr f ↦ inr (ap (λ g. g.first_cluster) p ∙ f)
      ],
      subst (λ n. IsNumbered (next + n) is last) (sym (ap (λ f. f.cluster_count) p ∙ count)) h,
    )

number_files-IsNumbered :
    (next : ℕ) (ns : Nodes)
    → IsNumbered next (walk_files (number_files next ns).0) (number_files next ns).1
unfolding walk_files number_files
number_files-IsNumbered next nil = refl
number_files-IsNumbered next (cons (node e cs) ns) = elim (Bool-cases e.is_dir) [
  | inl d ↦
      IsNumbered-subst next (sym (files_of_dir e cs ns d next)) (sym (next_of_dir e cs ns d next))
        (number_files-IsNumbered next ns)
  | inr f ↦
      IsNumbered-subst next (sym (files_of_file e cs ns f next)) (sym (next_of_file e cs ns f next))
        (place-IsNumbered next e (file_item (place next e) cs) _ _ refl
          (number_files-IsNumbered (next + e.cluster_count) ns))
]

number_children-IsNumbered :
    (up next : ℕ) (ns : Nodes)
    → IsNumbered next (walk_dirs up (number_dirs next ns).0) (number_dirs next ns).1
    → IsNumbered next (walk_below up (number_children next ns).0) (number_children next ns).1
number_children-IsNumbered up next ns h =
    let dirs = number_dirs next ns in
    IsNumbered-append next dirs.1 _ _ _
      (subst (λ l. IsNumbered next l dirs.1) (sym (walk_dirs-number_files up dirs.1 dirs.0)) h)
      (number_files-IsNumbered dirs.1 dirs.0)

number_dirs-IsNumbered :
    (up next : ℕ) (ns : Nodes)
    → IsNumbered next (walk_dirs up (number_dirs next ns).0) (number_dirs next ns).1
unfolding walk_dirs number_dirs
number_dirs-IsNumbered up next nil = refl
number_dirs-IsNumbered up next (cons (node e cs) ns) = elim (Bool-cases e.is_dir) [
  | inr f ↦
      IsNumbered-subst next (sym (dirs_of_file e cs ns f up next))
        (sym (dirs_next_of_file e cs ns f next)) (number_dirs-IsNumbered up next ns)
  | inl d ↦
      let below = number_children (next + e.cluster_count) cs in
      let first = (place next e).first_cluster in
      IsNumbered-subst next (sym (dirs_of_dir e cs ns d up next))
        (sym (dirs_next_of_dir e cs ns d next))
        (place-IsNumbered next e (dir_item (place next e) up below.0) _ _ refl (
          IsNumbered-append (next + e.cluster_count) below.1 _ (walk_below first below.0) _
            (number_children-IsNumbered first (next + e.cluster_count) cs
              (number_dirs-IsNumbered first (next + e.cluster_count) cs))
            (number_dirs-IsNumbered up below.1 ns)))
]

-- Clusters that are assigned without an error are numbered from 2 on, each node of the walk that
-- has clusters from where the one before it ends, up to the first free cluster, which is at most
-- two above the available ones.
pub assign_clusters-IsNumbered :
    (cluster_size available : ℕ) (children : Nodes) (is : List Item) (next : ℕ)
    → assign_clusters cluster_size available children ≡ ok (is, next)
    → IsNumbered 2 is next × (next ≤ available + 2)
unfolding assign_clusters
assign_clusters-IsNumbered cluster_size available children is next e₀ =
    let count = root_count cluster_size children in
    let counted = count_clusters cluster_size children in
    let placed = number_children (2 + count) counted in
    let (fits, e₁) = refuse-eq-ok (ltb available (placed.1 - 2)) too_many_clusters _ e₀ in
    let items : root_item count placed.0 ∷ walk_below 0 placed.0 ≡ is =
      ap (λ p. p.0) (ok-injective e₁) in
    let last : placed.1 ≡ next = ap (λ p. p.1) (ok-injective e₁) in
    (
      IsNumbered-subst 2 items last (
        inr refl,
        number_children-IsNumbered 0 (2 + count) counted
            (number_dirs-IsNumbered 0 (2 + count) counted),
      ),
      ground (arith, last),
    )
