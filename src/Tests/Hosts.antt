-- ===== src/Tests/Hosts.antt =====
-- A host with two image files, to run the image composers on.
use text.Mathlib.Text.{◌==◌ as str_eq}
use rules_ostest.Base.{true, none, some, List, [], ◌∷◌, ◌++◌, if◌then◌else◌, length, replicate}
use rules_ostest.Base.Int.{pos}
use rules_ostest.Bytes.{Bytes}
use rules_ostest.Disk.{Host}
use rules_ostest.Gpt.{PartitionSpec}

-- A boot sector with 512-byte sectors, no backup and the signature at its end.
abbrev pub boot_image : Bytes
boot_image = replicate 11 0xeb ++ (0 ∷ 2 ∷ replicate 497 0 ++ (0x55 ∷ 0xaa ∷ []))

abbrev pub blank_image : Bytes
blank_image = replicate 1024 7

-- Any function serves for a CRC; gzip unpacks nothing here.
abbrev pub host : Host
host = record {
  contents = λ path.
      if str_eq path "boot.img"
      then some boot_image
      else if str_eq path "blank.img"
      then some blank_image
      else none;
  gunzip = λ _. none;
  parse_guid = λ text. if str_eq text "esp" then some (replicate 16 0xc1) else none;
  uuid5 = λ _. replicate 16 0x50;
  utf16le = λ name. if str_eq name "" then some [] else some (0x41 ∷ 0 ∷ []);
  crc32 = λ bytes. length bytes;
}

abbrev pub boot_spec : PartitionSpec
boot_spec = record {
  image = "boot.img";
  image_compression = none;
  alignment_lba = some (pos 64);
  start_lba = none;
  partition_name = some "A";
  unique_guid = none;
  type_guid = "esp";
  attributes = none;
  patch_fat_hidden_sectors = some true;
}

abbrev pub blank_spec : PartitionSpec
blank_spec = record boot_spec {
  image = "blank.img";
  start_lba = some (pos 128);
  patch_fat_hidden_sectors = none;
}

abbrev pub specs : List PartitionSpec
specs = boot_spec ∷ blank_spec ∷ []
