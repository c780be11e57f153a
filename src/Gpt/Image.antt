-- ===== src/Gpt/Image.antt =====
-- `create_gpt_image`: the whole disk.
pub mod Fill
pub mod Contents
pub mod Created
use rules_ostest.Base.{
  ℕ, ◌+◌, ◌-◌, ◌*◌, ◌/◌, ◌%◌, ◌^◌, String, not, List, [], ◌∷◌, ◌==◌, ◌>>=◌, ◌>>◌, refuse, Result,
  ok,
}
use rules_ostest.Base.Int.{ℤ, is_not_positive, to_ℕ}
use rules_ostest.Bytes.{Bytes}
use rules_ostest.Files.{File, fresh, truncate, seek, write}
use rules_ostest.Disk.{Host, Error, bad_disk_size, place}
use rules_ostest.Gpt.{Partition, PartitionSpec, sector_size, gpt_entry_array_sectors, guid}
use rules_ostest.Gpt.Layout.{layout_partitions}
use rules_ostest.Gpt.Structures.{gpt_header, protective_mbr, partition_entries}

unfoldable pub write_partitions : Host → List Partition → File → Result Error File
write_partitions host [] output = ok output
write_partitions host (p ∷ ps) output = do
  output' ←
      place host p.image p.image_compression p.image_size p.start_lba p.patch_fat_hidden_sectors
        output
  write_partitions host ps output'

-- The tables of a disk, computed before the file is opened.
pub record Tables : Type 0 where
  pub partitions : List Partition
  pub entries : Bytes
  pub primary_header : Bytes
  pub backup_header : Bytes

abbrev pub first_usable : ℕ
first_usable = 2 + gpt_entry_array_sectors

abbrev pub last_usable : ℕ → ℕ
last_usable total_lbas = total_lbas - gpt_entry_array_sectors - 2

abbrev pub backup_entries : ℕ → ℕ
backup_entries total_lbas = total_lbas - gpt_entry_array_sectors - 1

unfoldable pub make_tables : Host → List PartitionSpec → ℕ → String → String → Result Error Tables
make_tables host specs total_lbas identity disk_guid_text = do
  partitions ← layout_partitions host identity first_usable (last_usable total_lbas) specs
  disk_guid ← guid host disk_guid_text identity "disk"
  entries ← partition_entries host partitions
  let entries_crc = host.crc32 entries % 2 ^ 32
  primary ← gpt_header host (record {
    current_lba = 1;
    backup_lba = total_lbas - 1;
    first_usable_lba = first_usable;
    last_usable_lba = last_usable total_lbas;
    disk_guid = disk_guid;
    entries_lba = 2;
    entries_crc = entries_crc;
  })
  backup ← gpt_header host (record {
    current_lba = total_lbas - 1;
    backup_lba = 1;
    first_usable_lba = first_usable;
    last_usable_lba = last_usable total_lbas;
    disk_guid = disk_guid;
    entries_lba = backup_entries total_lbas;
    entries_crc = entries_crc;
  })
  ok (record {
    partitions = partitions;
    entries = entries;
    primary_header = primary;
    backup_header = backup;
  })

-- What stands in the `with` block.
unfoldable pub write_disk : Host → ℕ → Tables → Result Error File
unfolding write_partitions
write_disk host total_lbas t = do
  mbr ← protective_mbr total_lbas
  let start = seek 0 (truncate (total_lbas * sector_size) fresh)
  let headed = write t.entries (write t.primary_header (write mbr start))
  filled ← write_partitions host t.partitions headed
  let backed = write t.entries (seek (backup_entries total_lbas * sector_size) filled)
  ok (write t.backup_header (seek ((total_lbas - 1) * sector_size) backed))

unfoldable pub create_gpt_image :
    Host → List PartitionSpec → ℤ → String → String → Result Error File
create_gpt_image host specs size_mb identity disk_guid_text = do
  refuse (is_not_positive size_mb) bad_disk_size
  let total_bytes = to_ℕ size_mb * 1024 * 1024
  refuse (not (total_bytes % sector_size == 0)) bad_disk_size
  let total_lbas = total_bytes / sector_size
  tables ← make_tables host specs total_lbas identity disk_guid_text
  write_disk host total_lbas tables
