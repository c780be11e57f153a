-- ===== src/Fat/Layout.antt =====
-- `_calculate_layout`: the size of the two tables.
pub mod Least
use rules_ostest.Base.{
  ℕ, zero, suc, ◌+◌, ◌-◌, ◌*◌, ◌/◌, Bool, ltb, leb, if◌then◌else◌, ◌>>◌, refuse, Result, ok,
}
use rules_ostest.Fat.{
  FatError, too_few_clusters, sector_size, reserved_sectors, fat_count, sectors_per_cluster,
  fat32_min_clusters,
}

-- The clusters that are left beside two tables of `fat_sectors` sectors. The source can come below 0
-- where the image is smaller than its tables; each test then goes as it goes for 0.
abbrev pub clusters_beside : ℕ → ℕ → ℕ
clusters_beside total_sectors fat_sectors =
    (total_sectors - reserved_sectors - fat_count * fat_sectors) / sectors_per_cluster

-- `fat_entry_capacity >= clusters + 2`
abbrev pub is_enough : ℕ → ℕ → Bool
is_enough total_sectors candidate =
    leb (clusters_beside total_sectors candidate + 2) (candidate * sector_size / 4)

-- `while low < high`. A round makes `high - low` smaller, so that difference is enough fuel.
unfoldable pub search_layout : ℕ → ℕ → ℕ → ℕ → ℕ
search_layout zero total_sectors low high = low
search_layout (suc fuel) total_sectors low high =
    let candidate = (low + high) / 2 in
    let enough = is_enough total_sectors candidate in
    let rest =
      search_layout fuel total_sectors (if enough then low else candidate + 1)
        (if enough then candidate else high) in
    if ltb low high then rest else low

-- `math.ceil((total_sectors - RESERVED_SECTORS) * 4 / SECTOR_SIZE) + 1`
abbrev pub first_high : ℕ → ℕ
first_high total_sectors = ((total_sectors - reserved_sectors) * 4 + 511) / 512 + 1

-- The sectors of a table, and the clusters of the data region.
unfoldable pub calculate_layout : ℕ → Result FatError (ℕ × ℕ)
unfolding search_layout
calculate_layout total_sectors =
    let fat_sectors =
      search_layout (first_high total_sectors) total_sectors 1 (first_high total_sectors) in
    do
      refuse (ltb (clusters_beside total_sectors fat_sectors) fat32_min_clusters) too_few_clusters
      ok (fat_sectors, clusters_beside total_sectors fat_sectors)
