-- ===== src/Fat/Image.antt =====
-- The file allocation table and `create_fat32_image`.
pub mod Chains
use rules_ostest.Base.{
  ℕ, zero, suc, ◌+◌, ◌-◌, ◌*◌, String, Bool, false, not, ◌&&◌, ◌||◌, none, some, List, [], ◌∷◌, ltb,
  leb, ◌==◌, if◌then◌else◌, length, ◌>>=◌, ◌>>◌, guard, refuse, Result, ok, err,
}
use rules_ostest.Base.Int.{ℤ, is_negative, to_ℕ}
use rules_ostest.Bytes.{Bytes, Buffer, bytearray, put, to_bytes, to_le, pack_le}
use rules_ostest.Disk.{Host}
use rules_ostest.Files.{File, fresh, truncate, seek, write_at, copy}
use rules_ostest.Fat.{
  FatError, struct_error, os_error, bad_label_length, bad_label_character, bad_volume_id,
  end_of_chain, reserved_sectors, fat_count, sector_size,
}
use rules_ostest.Fat.Layout.{calculate_layout}
use rules_ostest.Fat.Names.{Name, Unicode}
use rules_ostest.Fat.Tree.{nil, build_tree, sort_nodes, assign_short_names}
use rules_ostest.Fat.Walk.{Item, assign_clusters}
use rules_ostest.Fat.Entries.{directory_data, boot_sector, fsinfo_sector}

-- The loop over the clusters of one node, `left` of them from `cluster` on.
unfoldable pub write_links : ℕ → ℕ → Buffer → Result FatError Buffer
write_links zero cluster fat = ok fat
write_links (suc left) cluster fat = do
  value ← pack_le struct_error 4 (if left == 0 then end_of_chain else cluster + 1)
  refuse (ltb fat.size (cluster * 4 + 4)) struct_error
  write_links left (cluster + 1) (put (cluster * 4) value fat)

unfoldable pub write_chains : List Item → Buffer → Result FatError Buffer
unfolding write_links
write_chains [] fat = ok fat
write_chains (i ∷ is) fat = do
  fat' ← write_links i.entry.cluster_count i.entry.first_cluster fat
  write_chains is fat'

abbrev pub new_fat : ℕ → Buffer
new_fat fat_sectors =
    put 4 (to_le 4 0xffff_ffff)
      (put 0 (to_le 4 0x0fff_fff8) (bytearray (fat_sectors * sector_size)))

abbrev pub bad_label_char : Name → Bool
bad_label_char [] = false
bad_label_char (c ∷ cs) = ltb c 0x20 || ltb 0x7e c || bad_label_char cs

-- What one round of the last loop writes at the clusters of a node.
unfoldable pub node_data : Host → Name → ℕ → Item → Result FatError Bytes
unfolding directory_data
node_data host volume_label cluster_size i =
    if i.entry.is_dir
    then directory_data volume_label cluster_size i
    else elim (host.contents i.entry.source) [ none ↦ err os_error | some bytes ↦ ok bytes ]

-- The loop. A directory is written at once and a file by chunks, which is the same.
unfoldable pub write_nodes : Host → Name → ℕ → ℕ → List Item → File → Result FatError File
unfolding node_data
write_nodes host volume_label cluster_size data_start [] output = ok output
write_nodes host volume_label cluster_size data_start (i ∷ is) output =
    let offset = data_start + (i.entry.first_cluster - 2) * cluster_size in
    let skipped = write_nodes host volume_label cluster_size data_start is output in
    let written = node_data host volume_label cluster_size i >>= λ bytes.
    write_nodes host volume_label cluster_size data_start is (copy bytes (seek offset output)) in
    if i.entry.cluster_count == 0 then skipped else written

-- The sectors ahead of the data.
abbrev pub write_head : ℕ → ℕ → Bytes → Bytes → Bytes → File
write_head total_bytes fat_sectors boot fsinfo fat =
    let start = truncate total_bytes fresh in
    let infos =
      write_at 3584 fsinfo (write_at 3072 boot (write_at 512 fsinfo (write_at 0 boot start))) in
    write_at ((reserved_sectors + fat_sectors) * sector_size) fat
      (write_at (reserved_sectors * sector_size) fat infos)

unfoldable pub create_fat32_image :
    Host → Unicode → List (String × Name) → ℤ → Name → ℤ → Result FatError File
unfolding write_chains write_nodes
create_fat32_image host uni entries size_mb volume_label volume_id = do
  guard (leb 1 (length volume_label) && leb (length volume_label) 11) bad_label_length
  refuse (bad_label_char volume_label) bad_label_character
  guard (not (is_negative volume_id) && leb (to_ℕ volume_id) 0xffff_ffff) bad_volume_id
  let total_sectors = to_ℕ size_mb * 2048
  layout ← calculate_layout total_sectors
  tree ← build_tree host uni entries nil
  named ← assign_short_names uni [] (sort_nodes uni tree)
  placed ← assign_clusters sector_size layout.1 named
  fat ← write_chains placed.0 (new_fat layout.0)
  let free_clusters = layout.1 - (placed.1 - 2)
  boot ← boot_sector total_sectors layout.0 volume_label (to_ℕ volume_id)
  fsinfo ← fsinfo_sector free_clusters (if free_clusters == 0 then 0xffff_ffff else placed.1)
  let data_start = (reserved_sectors + fat_count * layout.0) * sector_size
  write_nodes host volume_label sector_size data_start placed.0
      (write_head (total_sectors * sector_size) layout.0 boot fsinfo (to_bytes fat))
