-- ===== src/Tests/Tables.antt =====
-- Headers, entries and sizes of small disks.
use rules_ostest.Gpt.Structures.Entries.{table}
use rules_ostest.Base.{
  ◌-◌, ◌≡◌, refl, false, List, [], ◌∷◌, ◌++◌, arith, replicate, result_or, eq-ok_of_is_ok, ok,
}
use rules_ostest.Bytes.{Bytes, pack_le, overlay}
use rules_ostest.Disk.{plain, open_image, logical_size}
use rules_ostest.Gpt.{Partition}
use rules_ostest.Gpt.Structures.{
  HeaderFields, gpt_header, header_fields, header_buffer, partition_entries, write_entry,
}
use rules_ostest.Gpt.Structures.Header.{IsHeader, gpt_header-IsHeader}
use rules_ostest.Gpt.Structures.Table.{partition_entries-table}
use rules_ostest.Tests.Hosts.{host}

abbrev fields : HeaderFields
fields = record {
  current_lba = 1;
  backup_lba = 2047;
  first_usable_lba = 34;
  last_usable_lba = 2014;
  disk_guid = replicate 16 3;
  entries_lba = 2;
  entries_crc = 77;
}

abbrev header : Bytes
header = result_or [] (gpt_header host fields)

header_made : gpt_header host fields ≡ ok header
unfolding gpt_header header_fields header_buffer pack_le overlay
header_made = eq-ok_of_is_ok (gpt_header host fields) [] refl

gpt_header-IsHeader_example : IsHeader host fields header
gpt_header-IsHeader_example = gpt_header-IsHeader host fields header header_made

abbrev partitions : List Partition
partitions =
    record {
      image = "boot.img";
      image_compression = plain;
      image_size = 512;
      type_guid = replicate 16 0xc1;
      unique_guid = replicate 16 0x50;
      partition_name = "A";
      attributes = 0;
      alignment_lba = 64;
      requested_start_lba = 0;
      patch_fat_hidden_sectors = false;
      start_lba = 64;
      end_lba = 64;
    }
    ∷ []

abbrev entries : Bytes
entries = result_or [] (partition_entries host partitions)

entries_made : partition_entries host partitions ≡ ok entries
unfolding partition_entries write_entry pack_le overlay
entries_made = eq-ok_of_is_ok (partition_entries host partitions) [] refl

partition_entries-table_example : entries ≡ table host partitions ++ replicate (16384 - 128) 0
partition_entries-table_example =
    partition_entries-table host partitions entries
      (record { type_length = refl; unique_length = refl }, tt) (omega arith) entries_made

blank_size : logical_size host "blank.img" plain ≡ ok 1024
unfolding logical_size open_image
blank_size = refl
