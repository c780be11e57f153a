-- ===== src/Tests/Fats.antt =====
-- A FAT image of 64 MiB, and nodes and names to put on it.
use rules_ostest.Fat.Entries.Sizes.{directory_data_room}
use rules_ostest.Fat.Entries.{
  lfn_checksum, lfn_entries, first_entries, child_entries, short_entry, long_entries, lfn_loop,
  lfn_entry, directory_data, join,
}
use rules_ostest.Fat.Image.{new_fat, write_chains, write_links}
use rules_ostest.Fat.Tree.Numbered.{IsNumbered, assign_clusters-IsNumbered}
use rules_ostest.Fat.Tree.{
  assign_short_names, Nodes, Node, cons, nil, node, new_entry, count_clusters, count_entries,
  lfn_entry_count, number_dirs, number_files,
}
use rules_ostest.Fat.Layout.Least.{calculate_layout-IsLeast, calculate_layout_total, IsLeast}
use rules_ostest.Fat.Names.{
  Unicode, Name, assign_short_name, split_filename, rsplit_dot, numbered_alias, find_alias,
  utf16_units,
}
use rules_ostest.Fat.Image.Chains.{IsFollowed, write_chains-follow}
use rules_ostest.Fat.Layout.{calculate_layout, search_layout}
use rules_ostest.Fat.Tree.Aliases.{HasDistinctNames, assign_short_names-HasDistinctNames}
use rules_ostest.Fat.Walk.{Item, assign_clusters, walk_dirs, walk_files, root_item}
use rules_ostest.Bytes.{Bytes, Buffer, pack_le, overlay, ljust}
use rules_ostest.Fat.Entries.LongNames.{read_name, lfn_entries-read_name}
use rules_ostest.Base.{
  ℕ, ◌+◌, ◌*◌, ◌≤◌, ◌≡◌, refl, true, false, some, List, [], ◌∷◌, ◌++◌, arith, All, result_or, is_ok,
  eq-ok_of_is_ok, ok,
}

abbrev plain : Unicode
plain = record { casefold = λ name. name; upper = λ name. name }

layout_made : calculate_layout 131072 ≡ ok (1009, 129022)
unfolding calculate_layout search_layout
layout_made = refl

calculate_layout-IsLeast_example :
    IsLeast 131072 1009 × (129022 + 2 * 1009 + 32 ≡ 131072) × (65525 ≤ 129022)
calculate_layout-IsLeast_example = calculate_layout-IsLeast 131072 1009 129022 layout_made

calculate_layout_total_example : is_ok (calculate_layout 131072) ≡ true
calculate_layout_total_example = calculate_layout_total 131072 1009 (omega arith) (omega arith)

-- A directory `A` with the files `A+B` and `A=B`.
abbrev file : Name → ℕ → Node
file name size = node (new_entry name false "" size) nil

abbrev children : Nodes
children =
    cons
      (node (new_entry (0x41 ∷ []) true "" 0)
        (cons (file (0x41 ∷ 0x2b ∷ 0x42 ∷ []) 1300) (cons (file (0x41 ∷ 0x3d ∷ 0x42 ∷ []) 0) nil)))
      (cons (file (0x42 ∷ []) 512) nil)

abbrev named_children : Nodes
named_children = result_or nil (assign_short_names plain [] children)

names_made : assign_short_names plain [] children ≡ ok named_children
unfolding assign_short_names assign_short_name split_filename rsplit_dot numbered_alias find_alias
names_made = eq-ok_of_is_ok (assign_short_names plain [] children) nil refl

assign_short_names-HasDistinctNames_example : HasDistinctNames [] named_children
assign_short_names-HasDistinctNames_example =
    assign_short_names-HasDistinctNames plain [] children named_children names_made

abbrev placed : List Item × ℕ
placed = result_or ([], 0) (assign_clusters 512 20 named_children)

placed_made : assign_clusters 512 20 named_children ≡ ok (placed.0, placed.1)
unfolding assign_short_names assign_short_name split_filename rsplit_dot numbered_alias find_alias
    assign_clusters count_clusters count_entries lfn_entry_count utf16_units number_dirs
    number_files walk_dirs walk_files
placed_made = eq-ok_of_is_ok (assign_clusters 512 20 named_children) ([], 0) refl

assign_clusters-IsNumbered_example : IsNumbered 2 placed.0 placed.1 × (placed.1 ≤ 22)
assign_clusters-IsNumbered_example =
    assign_clusters-IsNumbered 512 20 named_children placed.0 placed.1 placed_made

abbrev table : Buffer
table = result_or (new_fat 1) (write_chains placed.0 (new_fat 1))

table_made : write_chains placed.0 (new_fat 1) ≡ ok table
unfolding assign_short_names assign_short_name split_filename rsplit_dot numbered_alias find_alias
    assign_clusters count_clusters count_entries lfn_entry_count utf16_units number_dirs
    number_files walk_dirs walk_files write_chains write_links pack_le
table_made = eq-ok_of_is_ok (write_chains placed.0 (new_fat 1)) (new_fat 1) refl

write_chains-follow_example : All (IsFollowed table.byte) placed.0
write_chains-follow_example =
    write_chains-follow 2 placed.1 placed.0 (new_fat 1) table assign_clusters-IsNumbered_example.0
      (omega (arith, assign_clusters-IsNumbered_example.1)) table_made

lfn_entries-read_name_example :
    (entries : List Bytes) × (lfn_entries (0x41 ∷ 0x2b ∷ 0x42 ∷ []) (0x41 ∷ []) ≡ ok entries)
    × (read_name (0x41 ∷ []) entries ≡ some (0x41 ∷ 0x2b ∷ 0x42 ∷ []))
lfn_entries-read_name_example =
    lfn_entries-read_name (0x41 ∷ 0x2b ∷ 0x42 ∷ []) (0x41 ∷ []) (omega arith)
      (omega arith, (omega arith, (omega arith, tt)))
      (omega arith, (omega arith, (omega arith, tt)))

abbrev root : Item
root = root_item 1 named_children

directory_data_room_example :
    directory_data (0x41 ∷ []) 512 root
    ≡ ok (
        ljust 512 0 (
          join (
            result_or [] (first_entries (0x41 ∷ []) root)
            ++ result_or [] (child_entries named_children))))
unfolding assign_short_names assign_short_name split_filename rsplit_dot numbered_alias find_alias
    first_entries child_entries short_entry long_entries lfn_entries lfn_loop lfn_checksum lfn_entry
    utf16_units pack_le overlay count_entries lfn_entry_count
directory_data_room_example =
    directory_data_room (0x41 ∷ []) 512 root (result_or [] (first_entries (0x41 ∷ []) root))
      (result_or [] (child_entries named_children)) (omega arith)
      ((refl, refl), ((refl, refl), tt, ((refl, refl), tt, tt)), ((refl, refl), tt, tt))
      (omega arith) refl refl refl
