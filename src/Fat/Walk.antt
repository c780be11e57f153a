-- ===== src/Fat/Walk.antt =====
-- `_walk_preorder` and `_assign_clusters` on the whole tree.
use rules_ostest.Base.{
  ℕ, ◌+◌, ◌-◌, ◌*◌, max, Bool, true, false, List, [], ◌∷◌, ◌++◌, ltb, if◌then◌else◌, ◌>>◌, refuse,
  Result, ok,
}
use rules_ostest.Fat.{FatError, too_many_clusters}
use rules_ostest.Fat.Tree.{
  Entry, Nodes, node, nil, cons, new_entry, directory_entry_count, clusters_of, count_clusters,
  number_children, number_dirs, number_files,
}

-- A node that the walk yields, with what is read of its parent and its children.
pub record Item : Type 0 where
  pub entry : Entry
  pub is_root : Bool
  pub parent_cluster : ℕ
  pub children : Nodes

abbrev pub file_item : Entry → Nodes → Item
file_item e cs = record { entry = e; is_root = false; parent_cluster = 0; children = cs }

unfoldable pub walk_files : Nodes → List Item
walk_files nil = []
walk_files (cons (node e cs) ns) =
    let rest = walk_files ns in if e.is_dir then rest else file_item e cs ∷ rest

abbrev pub dir_item : Entry → ℕ → Nodes → Item
dir_item e parent_cluster cs = record {
  entry = e;
  is_root = false;
  parent_cluster = parent_cluster;
  children = cs;
}

-- `parent_cluster` is what the `..` entry of these directories shows.
unfoldable pub walk_dirs : ℕ → Nodes → List Item
unfolding walk_files
walk_dirs parent_cluster nil = []
walk_dirs parent_cluster (cons (node e cs) ns) =
    let below = walk_dirs e.first_cluster cs ++ walk_files cs in
    let rest = walk_dirs parent_cluster ns in
    if e.is_dir then dir_item e parent_cluster cs ∷ (below ++ rest) else rest

abbrev pub walk_below : ℕ → Nodes → List Item
walk_below parent_cluster ns = walk_dirs parent_cluster ns ++ walk_files ns

abbrev pub root_item : ℕ → Nodes → Item
root_item count children = record {
  entry = record (new_entry [] true "" 0) { first_cluster = 2; cluster_count = count };
  is_root = true;
  parent_cluster = 0;
  children = children;
}

-- The clusters of the root directory.
abbrev pub root_count : ℕ → Nodes → ℕ
root_count cluster_size children =
    max 1 (clusters_of (directory_entry_count children true * 32) cluster_size)

-- `_assign_clusters`, and the walk over what it leaves; the number is `next_cluster`.
unfoldable pub assign_clusters : ℕ → ℕ → Nodes → Result FatError (List Item × ℕ)
unfolding count_clusters number_dirs number_files walk_dirs walk_files
assign_clusters cluster_size available_clusters children =
    let count = root_count cluster_size children in
    let placed = number_children (2 + count) (count_clusters cluster_size children) in
    do
      refuse (ltb available_clusters (placed.1 - 2)) too_many_clusters
      ok (root_item count placed.0 ∷ walk_below 0 placed.0, placed.1)
