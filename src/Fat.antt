-- ===== src/Fat.antt =====
-- ostest/private/fat_image.py: the constants and the exceptions.
pub mod Layout
pub mod Names
pub mod Tree
pub mod Walk
pub mod Entries
pub mod Image
use rules_ostest.Base.{ℕ}

abbrev pub sector_size : ℕ
sector_size = 512

abbrev pub reserved_sectors : ℕ
reserved_sectors = 32

abbrev pub fat_count : ℕ
fat_count = 2

abbrev pub sectors_per_cluster : ℕ
sectors_per_cluster = 1

abbrev pub fat32_min_clusters : ℕ
fat32_min_clusters = 65525

abbrev pub end_of_chain : ℕ
end_of_chain = 0x0fff_ffff

-- The exceptions, by what they say.
pub data FatError : Type 0 where
  invalid_component space_or_dot_at_end forbidden_character name_too_long bad_encoding : FatError
  invalid_destination through_a_file duplicate_destination not_a_file : FatError
  no_alias too_many_clusters struct_error directory_too_small : FatError
  too_few_clusters bad_label_length bad_label_character bad_volume_id not_sector_aligned : FatError
  os_error bad_byte : FatError
