-- ===== src/Tests/Isos.antt =====
-- An ISO image around a boot image of 512 bytes.
use rules_ostest.Disk.{has_gzip_magic}
use rules_ostest.Iso.Contents.{IsIso, make_iso-IsIso}
use rules_ostest.Tests.Hosts.{host}
use rules_ostest.Files.{File, fresh}
use rules_ostest.Bytes.{Bytes, pack_le}
use rules_ostest.Iso.{
  make_iso, create_iso, read_logical_image, boot_catalog, primary_volume_descriptor, root_directory,
  directory_record, both_endian_16, both_endian_32,
}
use rules_ostest.Iso.Catalog.{IsCatalog, boot_catalog-IsCatalog}
use rules_ostest.Base.{◌≡◌, refl, [], ◌∷◌, result_or, eq-ok_of_is_ok, ok}

-- The host has 512 bytes as `boot.img`.
abbrev iso_disk : File
iso_disk = result_or fresh (make_iso host "boot.img" (0x41 ∷ []))

iso_made : make_iso host "boot.img" (0x41 ∷ []) ≡ ok iso_disk
unfolding make_iso create_iso read_logical_image primary_volume_descriptor root_directory
    directory_record both_endian_16 both_endian_32 pack_le has_gzip_magic
iso_made = eq-ok_of_is_ok (make_iso host "boot.img" (0x41 ∷ [])) fresh refl

make_iso-IsIso_example :
    (boot_image : Bytes) × (read_logical_image host "boot.img" ≡ ok boot_image)
    × IsIso boot_image iso_disk
make_iso-IsIso_example = make_iso-IsIso host "boot.img" (0x41 ∷ []) iso_disk iso_made

boot_catalog-IsCatalog_example : IsCatalog 1000 (boot_catalog 1000)
boot_catalog-IsCatalog_example = boot_catalog-IsCatalog 1000
