-- ===== src/Tests/Mbrs.antt =====
-- An MBR disk of two partitions.
use rules_ostest.Base.{
  ◌≡◌, refl, true, none, some, List, [], ◌∷◌, arith, result_or, eq-ok_of_is_ok, ok,
}
use rules_ostest.Base.Int.{pos}
use rules_ostest.Bytes.{pack_le, overlay}
use rules_ostest.Files.{File, fresh, copy, write}
use rules_ostest.Disk.{
  resolve_compression, logical_size, place, copy_file, patch_fat_hidden_sectors,
}
use rules_ostest.Gpt.Layout.{align_up}
use rules_ostest.Mbr.{
  PrimarySpec, create_mbr_image, layout_primary, layout_primaries, write_primary, write_primaries,
  partition_sector, fill_primaries, chs,
}
use rules_ostest.Mbr.Geometry.{lba_of, lba_of-chs}
use rules_ostest.Mbr.Composed.{IsMbrDisk, create_mbr_image-IsMbrDisk}
use rules_ostest.Tests.Hosts.{host}

abbrev boot_primary : PrimarySpec
boot_primary = record {
  image = "boot.img";
  image_compression = none;
  alignment_lba = some (pos 64);
  start_lba = none;
  type_id = none;
  bootable = some true;
  patch_fat_hidden_sectors = some true;
}

abbrev primaries : List PrimarySpec
primaries =
    boot_primary ∷ record boot_primary { image = "blank.img"; patch_fat_hidden_sectors = none } ∷ []

abbrev disk : File
disk = result_or fresh (create_mbr_image host primaries (pos 1))

disk_made : create_mbr_image host primaries (pos 1) ≡ ok disk
unfolding create_mbr_image layout_primaries layout_primary align_up resolve_compression logical_size
    partition_sector write_primaries write_primary chs pack_le fill_primaries place copy_file
    patch_fat_hidden_sectors copy write overlay
disk_made = eq-ok_of_is_ok (create_mbr_image host primaries (pos 1)) fresh refl

create_mbr_image-IsMbrDisk_example : IsMbrDisk host primaries 2048 disk
create_mbr_image-IsMbrDisk_example =
    create_mbr_image-IsMbrDisk host primaries (pos 1) disk disk_made

lba_of-chs_example : lba_of (chs 1000000) ≡ 1000000
lba_of-chs_example = lba_of-chs 1000000 (omega arith)
