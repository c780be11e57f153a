-- ===== src/Disk.antt =====
-- The helpers that ostest/private/gpt_image.py and ostest/private/mbr_image.py share line by line:
-- how a partition image is opened, measured, copied to its place and patched.
pub mod Place
pub mod Regions
pub mod Measure
use text.Mathlib.Text.{◌==◌ as str_eq}
use rules_ostest.Base.{
  ℕ, zero, suc, ◌+◌, ◌*◌, String, Bool, false, ◌&&◌, Option, none, some, ◌∷◌, ltb, ◌==◌,
  if◌then◌else◌, length, is_empty, get_or, take, drop, ◌>>=◌, ◌>>◌, guard, Result, ok, err,
}
use rules_ostest.Bytes.{Bytes, pack_le, from_le}
use rules_ostest.Files.{File, write, seek, read, copy, chunk_size}

-- The exceptions. A number is the `index + 1` that a message shows.
pub data Error : Type 0 where
  struct_error os_error bad_gzip unsupported_compression : Error
  no_boot_signature no_512_byte_sectors backup_outside_partition : Error
  no_partitions too_many_partitions bad_disk_size bad_guid bad_encoding : Error
  bad_partition_count bad_mbr_size : Error
  bad_placement start_overlaps_or_unaligned not_a_file bad_image_size bad_alignment negative_start
        start_not_aligned :
      ℕ → Error
  start_before_cursor outside_disk attributes_too_wide name_too_long bad_type : ℕ → Error

-- What the programs call and do not implement: the file system, `gzip`, `uuid`, `binascii` and the
-- codec for UTF-16. `none` is a call that raises.
pub record Host : Type 0 where
  pub contents : String → Option Bytes
  pub gunzip : Bytes → Option Bytes
  pub parse_guid : String → Option Bytes
  pub uuid5 : String → Bytes
  pub utf16le : String → Option Bytes
  pub crc32 : Bytes → ℕ

pub data Compression : Type 0 where
  gzip plain : Compression

abbrev pub or_raise {ℓ} : {A : Type ℓ} → Error → Option A → Result Error A
or_raise e none = err e
or_raise e (some a) = ok a

-- `input_file.read(2) == b"\x1f\x8b"`
unfoldable pub has_gzip_magic : Bytes → Bool
has_gzip_magic (a ∷ b ∷ _) = a == 0x1f && b == 0x8b
has_gzip_magic _ = false

-- `while chunk := input_file.read(n): size += len(chunk)`
count_loop : ℕ → ℕ → Bytes → ℕ → ℕ
count_loop zero n source size = size
count_loop (suc fuel) n source size =
    let chunk = take n source in
    let rest = count_loop fuel n (drop n source) (size + length chunk) in
    if is_empty chunk then size else rest

module _ (host : Host) where
  -- `source.open("rb")`, read to its end
  unfoldable pub open_plain : String → Result Error Bytes
  open_plain source = or_raise os_error (host.contents source)

  unfoldable pub resolve_compression : String → String → Result Error Compression
  unfolding has_gzip_magic open_plain
  resolve_compression source requested =
      if str_eq requested "gzip"
      then ok gzip
      else if str_eq requested "none"
      then ok plain
      else if str_eq requested "auto"
      then (do bytes ← open_plain source; ok (if has_gzip_magic bytes then gzip else plain))
      else err unsupported_compression

  -- What reading the image to its end gives, through `gzip.open` or `open`.
  unfoldable pub open_image : String → Compression → Result Error Bytes
  unfolding open_plain
  open_image source gzip = do bytes ← open_plain source; or_raise bad_gzip (host.gunzip bytes)
  open_image source plain = open_plain source

  unfoldable pub logical_size : String → Compression → Result Error ℕ
  unfolding count_loop open_image
  logical_size source plain = do bytes ← open_plain source; ok (length bytes)
  logical_size source gzip = do
    bytes ← open_image source gzip
    ok (count_loop (length bytes + 1) chunk_size bytes 0)

  unfoldable pub copy_file : String → Compression → File → ℕ → Result Error File
  unfolding open_image
  copy_file source compression output offset = do
    bytes ← open_image source compression
    ok (copy bytes (seek offset output))

-- The 16-bit number at an offset of the boot sector that was read.
abbrev u16_at : Bytes → ℕ → ℕ
u16_at boot offset = from_le (take 2 (drop offset boot))

patch_backup : File → ℕ → ℕ → ℕ → Bytes → Result Error File
patch_backup output partition_offset partition_size backup_sector packed =
    if backup_sector == 0
    then ok output
    else if ltb partition_size ((backup_sector + 1) * 512)
    then err backup_outside_partition
    else ok (write packed (seek (partition_offset + backup_sector * 512 + 28) output))

unfoldable pub patch_fat_hidden_sectors : File → ℕ → ℕ → ℕ → Result Error File
unfolding patch_backup
patch_fat_hidden_sectors output partition_offset partition_size start_lba =
    let (boot, output') = read 512 (seek partition_offset output) in
    do
      guard (length boot == 512) no_boot_signature
      guard (get_or boot 510 0 == 0x55 && get_or boot 511 0 == 0xaa) no_boot_signature
      guard (u16_at boot 11 == 512) no_512_byte_sectors
      packed ← pack_le struct_error 4 start_lba
      let patched = write packed (seek (partition_offset + 28) output')
      patch_backup patched partition_offset partition_size (u16_at boot 50) packed

-- One round of the loop that fills the partitions of the disk.
unfoldable pub place : Host → String → Compression → ℕ → ℕ → Bool → File → Result Error File
place host image compression size start_lba patch output = do
  copied ← copy_file host image compression output (start_lba * 512)
  if patch then patch_fat_hidden_sectors copied (start_lba * 512) size start_lba else ok copied
