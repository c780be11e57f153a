-- ===== src/Fat/Tree.antt =====
-- `Node`, `_build_tree`, `_assign_short_names` and `_assign_clusters`: the tree of files.
pub mod Aliases
pub mod Numbered
use rules_ostest.Base.{
  ℕ, ◌+◌, ◌-◌, ◌*◌, ◌/◌, max, String, Bool, true, false, not, ◌&&◌, ◌||◌, none, some, List, [], ◌∷◌,
  ltb, ◌==◌, if◌then◌else◌, length, is_empty, ◌>>=◌, ◌>>◌, guard, refuse, Result, ok, err,
}
use rules_ostest.Bytes.{Bytes}
use rules_ostest.Disk.{Host}
use rules_ostest.Fat.{
  FatError, invalid_destination, through_a_file, duplicate_destination, not_a_file,
}
use rules_ostest.Fat.Names.{
  Name, Unicode, same_name, validate_component, assign_short_name, utf16_units, short_display_name,
}

-- A `Node` without its parent and its children. A directory has the source "".
pub record Entry : Type 0 where
  pub name : Name
  pub is_dir : Bool
  pub source : String
  pub short_name : Bytes
  pub needs_lfn : Bool
  pub first_cluster : ℕ
  pub cluster_count : ℕ
  pub size : ℕ

mutual
  pub data Node : Type 0 where
    node : Entry → Nodes → Node

  pub data Nodes : Type 0 where
    nil : Nodes
    cons : Node → Nodes → Nodes

abbrev pub new_entry : Name → Bool → String → ℕ → Entry
new_entry name is_dir source size = record {
  name = name;
  is_dir = is_dir;
  source = source;
  short_name = [];
  needs_lfn = false;
  first_cluster = 0;
  cluster_count = 0;
  size = size;
}

module _ (host : Host) (uni : Unicode) where
  -- A file at the end of its path: `filename = parts[-1]`.
  unfoldable pub add_file : String → Name → Nodes → Result FatError Nodes
  add_file source filename nil = elim (host.contents source) [
    | none ↦ err not_a_file
    | some bytes ↦ ok (cons (node (new_entry filename false source (length bytes)) nil) nil)
  ]
  add_file source filename (cons (node e cs) ns) = do
    refuse (same_name (uni.casefold e.name) (uni.casefold filename)) duplicate_destination
    rest ← add_file source filename ns
    ok (cons (node e cs) rest)

  -- One step down the path, into a directory that is there or a new one.
  unfoldable pub enter : (Nodes → Result FatError Nodes) → Name → Nodes → Result FatError Nodes
  enter below part nil = do cs ← below nil; ok (cons (node (new_entry part true "" 0) cs) nil)
  enter below part (cons (node e cs) ns) =
      let here = guard e.is_dir through_a_file >> below cs >>= λ cs'. ok (cons (node e cs') ns) in
      let rest = enter below part ns >>= λ ns'. ok (cons (node e cs) ns') in
      if same_name (uni.casefold e.name) (uni.casefold part) then here else rest

  -- The loop over the parts of one destination.
  unfoldable pub add_entry : String → List Name → Nodes → Result FatError Nodes
  unfolding add_file enter
  add_entry source [] ns = err invalid_destination
  add_entry source (filename ∷ []) ns = do validate_component filename; add_file source filename ns
  add_entry source (part ∷ next ∷ parts) ns = do
    validate_component part
    enter (add_entry source (next ∷ parts)) part ns

-- `destination.replace("\\", "/").strip("/").split("/")`
abbrev pub with_slashes : Name → Name
with_slashes [] = []
with_slashes (c ∷ cs) = (if c == 0x5c then 0x2f else c) ∷ with_slashes cs

abbrev pub strip_left : Name → Name
strip_left [] = []
strip_left (c ∷ cs) = let rest = strip_left cs in if c == 0x2f then rest else c ∷ cs

abbrev pub strip_right : Name → Name
strip_right [] = []
strip_right (c ∷ cs) =
    let rest = strip_right cs in if c == 0x2f && is_empty rest then [] else c ∷ rest

abbrev push_char : ℕ → List Name → List Name
push_char c [] = (c ∷ []) ∷ []
push_char c (part ∷ parts) = (c ∷ part) ∷ parts

abbrev pub split_slash : Name → List Name
split_slash [] = [] ∷ []
split_slash (c ∷ cs) =
    let parts = split_slash cs in if c == 0x2f then [] ∷ parts else push_char c parts

abbrev has_empty : List Name → Bool
has_empty [] = false
has_empty (part ∷ parts) = is_empty part || has_empty parts

unfoldable pub destination_parts : Name → Result FatError (List Name)
destination_parts destination =
    let parts = split_slash (strip_right (strip_left (with_slashes destination))) in
    do refuse (has_empty parts) invalid_destination; ok parts

-- `_build_tree`: the entries of the manifest are a source and a destination.
unfoldable pub build_tree : Host → Unicode → List (String × Name) → Nodes → Result FatError Nodes
unfolding add_entry destination_parts
build_tree host uni [] root = ok root
build_tree host uni ((source, destination) ∷ entries) root = do
  parts ← destination_parts destination
  root' ← add_entry host uni source parts root
  build_tree host uni entries root'

-- The order of two names, by their code points.
abbrev pub name_lt : Name → Name → Bool
name_lt [] [] = false
name_lt [] (d ∷ ds) = true
name_lt (c ∷ cs) [] = false
name_lt (c ∷ cs) (d ∷ ds) = ltb c d || ((c == d) && name_lt cs ds)

-- `child.name.casefold(), child.name`
abbrev pub sorts_before : Unicode → Entry → Entry → Bool
sorts_before uni a b =
    name_lt (uni.casefold a.name) (uni.casefold b.name)
    || (same_name (uni.casefold a.name) (uni.casefold b.name) && name_lt a.name b.name)

insert_node : Unicode → Entry → Nodes → Nodes → Nodes
insert_node uni e cs nil = cons (node e cs) nil
insert_node uni e cs (cons (node f ds) ns) =
    let rest = insert_node uni e cs ns in
    if sorts_before uni f e then cons (node f ds) rest else cons (node e cs) (cons (node f ds) ns)

-- `sorted_children`, of all directories at once: no name changes once the tree is built.
unfoldable pub sort_nodes : Unicode → Nodes → Nodes
unfolding insert_node
sort_nodes uni nil = nil
sort_nodes uni (cons (node e cs) ns) = insert_node uni e (sort_nodes uni cs) (sort_nodes uni ns)

-- `_assign_short_names`. The source names all children of a directory before it goes down; one
-- exception is all that either can raise, so the order does not show.
unfoldable pub assign_short_names : Unicode → List Name → Nodes → Result FatError Nodes
assign_short_names uni used nil = ok nil
assign_short_names uni used (cons (node e cs) ns) = do
  raw ← assign_short_name uni e.name used
  cs' ← assign_short_names uni [] cs
  ns' ← assign_short_names uni (raw ∷ used) ns
  let named = record e {
    short_name = raw;
    needs_lfn = not (same_name e.name (short_display_name raw));
  }
  ok (cons (node named cs') ns')

-- `_lfn_entry_count`; every name has been encoded when it was validated.
abbrev pub unit_count : Name → ℕ
unit_count name = elim (utf16_units name) [ none ↦ 0 | some units ↦ length units ]

unfoldable pub lfn_entry_count : Name → ℕ
lfn_entry_count name = if is_empty name then 0 else (unit_count name + 1 + 12) / 13

-- The loop of `_directory_entry_count`.
unfoldable pub count_entries : Nodes → ℕ
unfolding lfn_entry_count
count_entries nil = 0
count_entries (cons (node e cs) ns) =
    1 + (if e.needs_lfn then lfn_entry_count e.name else 0) + count_entries ns

abbrev pub directory_entry_count : Nodes → Bool → ℕ
directory_entry_count children include_volume_label =
    (if include_volume_label then 1 else 2) + count_entries children

-- `math.ceil(n / cluster_size)`
abbrev pub clusters_of : ℕ → ℕ → ℕ
clusters_of n cluster_size = (n + cluster_size - 1) / cluster_size

-- The first loop of `_assign_clusters`, below the root.
abbrev pub count_for : ℕ → Entry → Nodes → ℕ
count_for cluster_size e cs =
    if e.is_dir
    then max 1 (clusters_of (directory_entry_count cs false * 32) cluster_size)
    else if e.size == 0
    then 0
    else clusters_of e.size cluster_size

unfoldable pub count_clusters : ℕ → Nodes → Nodes
unfolding count_entries
count_clusters cluster_size nil = nil
count_clusters cluster_size (cons (node e cs) ns) =
    cons
      (node (record e { cluster_count = count_for cluster_size e cs })
        (count_clusters cluster_size cs))
      (count_clusters cluster_size ns)

-- `node.first_cluster = next_cluster; next_cluster += node.cluster_count`
abbrev pub place : ℕ → Entry → Entry
place next e = if e.cluster_count == 0 then e else record e { first_cluster = next }

-- The second loop, which goes over the tree as `_walk_preorder` does: for each directory the
-- directories in it, then the files.
unfoldable pub number_files : ℕ → Nodes → Nodes × ℕ
number_files next nil = (nil, next)
number_files next (cons (node e cs) ns) =
    let rest = number_files (if e.is_dir then next else next + e.cluster_count) ns in
    (cons (node (if e.is_dir then e else place next e) cs) rest.0, rest.1)

unfoldable pub number_dirs : ℕ → Nodes → Nodes × ℕ
unfolding number_files
number_dirs next nil = (nil, next)
number_dirs next (cons (node e cs) ns) =
    let dirs = number_dirs (next + e.cluster_count) cs in
    let files = number_files dirs.1 dirs.0 in
    let rest = number_dirs (if e.is_dir then files.1 else next) ns in
    (cons (if e.is_dir then node (place next e) files.0 else node e cs) rest.0, rest.1)

abbrev pub number_children : ℕ → Nodes → Nodes × ℕ
number_children next ns = let dirs = number_dirs next ns in number_files dirs.1 dirs.0
