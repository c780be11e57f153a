-- ===== src/Gpt/Layout.antt =====
-- `_align_up` and `_layout_partitions`: where each partition of the disk starts and ends.
pub mod Steps
pub mod Order
pub mod Alignment
use rules_ostest.Base.{
  ℕ, ◌+◌, ◌-◌, ◌*◌, ◌/◌, ◌%◌, String, Bool, true, false, not, ◌||◌, none, some, List, [], ◌∷◌, ltb,
  ◌==◌, if◌then◌else◌, length, is_empty, ◌>>=◌, ◌>>◌, guard, refuse, Result, ok,
}
use rules_ostest.Base.Int.{pos, is_negative, is_not_positive, to_ℕ}
use rules_ostest.Disk.{
  Host, Error, not_a_file, bad_image_size, bad_alignment, negative_start, start_not_aligned,
  start_before_cursor, outside_disk, attributes_too_wide, no_partitions, too_many_partitions,
  resolve_compression, logical_size, Compression,
}
use rules_ostest.Gpt.{
  Partition, PartitionSpec, sector_size, gpt_entry_count, get, parse_uuid, guid, partition_kind,
}

-- `_align_up`, for an alignment that is positive.
unfoldable pub align_up : ℕ → ℕ → ℕ
align_up value alignment = (value + alignment - 1) / alignment * alignment

unfoldable pub is_file : Host → String → Bool
is_file host image = elim (host.contents image) [ none ↦ false | some _ ↦ true ]

-- The requested start if there is one, or the first aligned LBA from the cursor on.
unfoldable pub choose_start : ℕ → ℕ → ℕ → ℕ → Result Error ℕ
choose_start number cursor alignment requested =
    if requested == 0 then ok (align_up cursor alignment) else do
      refuse (not (requested % alignment == 0)) (start_not_aligned number)
      refuse (ltb requested cursor) (start_before_cursor number)
      ok requested

-- The checks of one partition up to its place. `number` is `index + 1`.
pub record Slot : Type 0 where
  pub compression : Compression
  pub size : ℕ
  pub alignment : ℕ
  pub requested : ℕ
  pub start : ℕ
  pub end : ℕ

unfoldable pub find_slot : Host → ℕ → ℕ → ℕ → ℕ → PartitionSpec → Result Error Slot
unfolding is_file
find_slot host first_usable_lba last_usable_lba number cursor spec = do
  guard (is_file host spec.image) (not_a_file number)
  compression ← resolve_compression host spec.image (get spec.image_compression "auto")
  size ← logical_size host spec.image compression
  refuse (size == 0 || not (size % sector_size == 0)) (bad_image_size number)
  refuse (is_not_positive (get spec.alignment_lba (pos 2048))) (bad_alignment number)
  refuse (is_negative (get spec.start_lba (pos 0))) (negative_start number)
  let alignment = to_ℕ (get spec.alignment_lba (pos 2048))
  let requested = to_ℕ (get spec.start_lba (pos 0))
  start ← choose_start number cursor alignment requested
  let end = start + size / sector_size - 1
  refuse (ltb start first_usable_lba || ltb last_usable_lba end) (outside_disk number)
  ok (record {
    compression = compression;
    size = size;
    alignment = alignment;
    requested = requested;
    start = start;
    end = end;
  })

-- One round of the loop, which appends a `Partition`.
unfoldable pub layout_one : Host → String → ℕ → ℕ → ℕ → ℕ → PartitionSpec → Result Error Partition
layout_one host identity first_usable_lba last_usable_lba index cursor spec = do
  slot ← find_slot host first_usable_lba last_usable_lba (index + 1) cursor spec
  let name = get spec.partition_name ""
  unique ← guid host (get spec.unique_guid "") identity (partition_kind index name)
  let attributes = get spec.attributes (pos 0)
  refuse (is_negative attributes || ltb 0xffff_ffff_ffff_ffff (to_ℕ attributes))
      (attributes_too_wide (index + 1))
  type ← parse_uuid host spec.type_guid
  ok (record {
    image = spec.image;
    image_compression = slot.compression;
    image_size = slot.size;
    type_guid = type;
    unique_guid = unique;
    partition_name = name;
    attributes = to_ℕ attributes;
    alignment_lba = slot.alignment;
    requested_start_lba = slot.requested;
    patch_fat_hidden_sectors = get spec.patch_fat_hidden_sectors false;
    start_lba = slot.start;
    end_lba = slot.end;
  })

module _ (host : Host) (identity : String) (first_usable_lba last_usable_lba : ℕ) where
  -- The loop; the next partition looks for room behind the end of this one.
  unfoldable pub layout_from : ℕ → ℕ → List PartitionSpec → Result Error (List Partition)
  layout_from index cursor [] = ok []
  layout_from index cursor (spec ∷ specs) = do
    partition ← layout_one host identity first_usable_lba last_usable_lba index cursor spec
    rest ← layout_from (index + 1) (partition.end_lba + 1) specs
    ok (partition ∷ rest)

  unfoldable pub layout_partitions : List PartitionSpec → Result Error (List Partition)
  unfolding layout_from
  layout_partitions specs = do
    refuse (is_empty specs) no_partitions
    refuse (ltb gpt_entry_count (length specs)) too_many_partitions
    layout_from 0 first_usable_lba specs
