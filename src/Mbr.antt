-- ===== src/Mbr.antt =====
-- ostest/private/mbr_image.py: a disk of one to four primary partitions.
pub mod Geometry
pub mod Table
pub mod Composed
use rules_ostest.Base.{
  ℕ, ◌+◌, ◌-◌, ◌*◌, ◌/◌, ◌%◌, String, Bool, false, not, ◌&&◌, ◌||◌, Option, List, [], ◌∷◌, ◌++◌,
  ltb, leb, ◌==◌, if◌then◌else◌, length, ◌>>=◌, ◌>>◌, guard, refuse, Result, ok,
}
use rules_ostest.Base.Int.{ℤ, pos, is_negative, is_not_positive, to_ℕ}
use rules_ostest.Bytes.{Bytes, Buffer, bytearray, put, to_bytes, pack_le}
use rules_ostest.Files.{File, fresh, truncate, write}
use rules_ostest.Disk.{
  Host, Error, struct_error, Compression, resolve_compression, logical_size, place,
  bad_partition_count, bad_mbr_size, bad_image_size, bad_placement, start_overlaps_or_unaligned,
  outside_disk, bad_type,
}
use rules_ostest.Gpt.{sector_size, get}
use rules_ostest.Gpt.Layout.{align_up}

-- An entry of the manifest, a missing key as `none`.
pub record PrimarySpec : Type 0 where
  pub image : String
  pub image_compression : Option String
  pub alignment_lba : Option ℤ
  pub start_lba : Option ℤ
  pub type_id : Option ℤ
  pub bootable : Option Bool
  pub patch_fat_hidden_sectors : Option Bool

-- An entry of `layout`.
pub record Primary : Type 0 where
  pub image : String
  pub compression : Compression
  pub size : ℕ
  pub start : ℕ
  pub end : ℕ
  pub sectors : ℕ
  pub type_id : ℕ
  pub bootable : Bool
  pub patch_fat : Bool

-- `_chs`. A sector has six bits, so `|` with the two high bits of the cylinder is a sum.
unfoldable pub chs : ℕ → Bytes
chs lba =
    let cylinder = lba / (63 * 255) in
    let head = lba / 63 % 255 in
    let sector = lba % 63 + 1 in
    if ltb 1023 cylinder
    then 0xfe ∷ 0xff ∷ 0xff ∷ []
    else head ∷ (sector + cylinder / 256 * 64) ∷ (cylinder % 256) ∷ []

-- One round of the loop over the specs.
unfoldable pub layout_primary : Host → ℕ → ℕ → ℕ → PrimarySpec → Result Error Primary
layout_primary host total_lbas index cursor spec = do
  compression ← resolve_compression host spec.image (get spec.image_compression "auto")
  size ← logical_size host spec.image compression
  refuse (size == 0 || not (size % sector_size == 0)) (bad_image_size (index + 1))
  refuse
      (is_not_positive (get spec.alignment_lba (pos 2048))
        || is_negative (get spec.start_lba (pos 0)))
      (bad_placement (index + 1))
  let alignment = to_ℕ (get spec.alignment_lba (pos 2048))
  let requested = to_ℕ (get spec.start_lba (pos 0))
  let start = if requested == 0 then align_up cursor alignment else requested
  refuse (ltb start cursor || not (start % alignment == 0))
      (start_overlaps_or_unaligned (index + 1))
  let sectors = size / sector_size
  let end = start + sectors - 1
  refuse (leb total_lbas end || ltb 0xffff_ffff sectors) (outside_disk (index + 1))
  let type_id = get spec.type_id (pos 0xef)
  guard (not (is_not_positive type_id) && leb (to_ℕ type_id) 0xff) (bad_type (index + 1))
  ok (record {
    image = spec.image;
    compression = compression;
    size = size;
    start = start;
    end = end;
    sectors = sectors;
    type_id = to_ℕ type_id;
    bootable = get spec.bootable false;
    patch_fat = get spec.patch_fat_hidden_sectors false;
  })

unfoldable pub layout_primaries : Host → ℕ → ℕ → ℕ → List PrimarySpec → Result Error (List Primary)
layout_primaries host total_lbas index cursor [] = ok []
layout_primaries host total_lbas index cursor (spec ∷ specs) = do
  p ← layout_primary host total_lbas index cursor spec
  rest ← layout_primaries host total_lbas (index + 1) (p.end + 1) specs
  ok (p ∷ rest)

-- One round of the loop that fills the table: the entry at `446 + index * 16`.
unfoldable pub write_primary : ℕ → Primary → Buffer → Result Error Buffer
unfolding chs
write_primary index p mbr = do
  start ← pack_le struct_error 4 p.start
  sectors ← pack_le struct_error 4 p.sectors
  let status = if p.bootable then 0x80 else 0
  ok (
      put (446 + index * 16) (status ∷ chs p.start ++ (p.type_id ∷ chs p.end ++ (start ++ sectors)))
        mbr)

unfoldable pub write_primaries : ℕ → List Primary → Buffer → Result Error Buffer
write_primaries index [] mbr = ok mbr
write_primaries index (p ∷ ps) mbr = do
  mbr' ← write_primary index p mbr
  write_primaries (index + 1) ps mbr'

-- The first sector.
unfoldable pub partition_sector : List Primary → Result Error Bytes
unfolding write_primaries
partition_sector ps = do
  mbr ← write_primaries 0 ps (bytearray sector_size)
  ok (to_bytes (put 510 (0x55 ∷ 0xaa ∷ []) mbr))

-- The loop that copies the images.
unfoldable pub fill_primaries : Host → List Primary → File → Result Error File
fill_primaries host [] output = ok output
fill_primaries host (p ∷ ps) output = do
  output' ← place host p.image p.compression p.size p.start p.patch_fat output
  fill_primaries host ps output'

-- The file of a call that does not raise.
unfoldable pub create_mbr_image : Host → List PrimarySpec → ℤ → Result Error File
unfolding layout_primaries partition_sector fill_primaries
create_mbr_image host specs size_mb = do
  guard (leb 1 (length specs) && leb (length specs) 4) bad_partition_count
  let total_bytes = to_ℕ size_mb * 1024 * 1024
  let total_lbas = total_bytes / sector_size
  refuse
      (is_not_positive size_mb
        || not (total_bytes % sector_size == 0)
        || ltb 0xffff_ffff total_lbas)
      bad_mbr_size
  layout ← layout_primaries host total_lbas 0 1 specs
  mbr ← partition_sector layout
  fill_primaries host layout (write mbr (truncate total_bytes fresh))
