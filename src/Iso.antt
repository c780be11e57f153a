-- ===== src/Iso.antt =====
-- ostest/private/iso_image.py.
pub mod Contents
pub mod Catalog
pub mod Reader
pub mod Writes
use rules_ostest.Files.{File, write_at, truncate, fresh}
use rules_ostest.Disk.{Host, has_gzip_magic}
use rules_ostest.Bytes.{
  Bytes, Buffer, pack_le, to_bytes, put, ljust, to_le, from_le, slice, bytearray,
}
use rules_ostest.Base.{
  ℕ, zero, suc, ◌+◌, ◌-◌, ◌*◌, ◌/◌, ◌%◌, String, Bool, true, false, not, ◌&&◌, ◌||◌, none, some,
  List, [], ◌∷◌, ◌++◌, ltb, leb, ◌==◌, if◌then◌else◌, length, is_empty, replicate, ◌>>=◌, ◌>>◌,
  guard, refuse, Result, ok, err,
}

-- The exceptions: `struct.error`, those of a file and of gzip, and the checks.
pub data IsoError : Type 0 where
  struct_error os_error bad_gzip bad_encoding bad_boot_image bad_volume_label record_too_long :
      IsoError

abbrev pub iso_sector_size : ℕ
iso_sector_size = 2048

abbrev pub root_directory_sector : ℕ
root_directory_sector = 21

abbrev pub boot_catalog_sector : ℕ
boot_catalog_sector = 22

abbrev pub boot_image_sector : ℕ
boot_image_sector = 23

-- `struct.pack(">…", v)` of `w` bytes.
abbrev pub to_be : ℕ → ℕ → Bytes
to_be zero v = []
to_be (suc w) v = to_be w (v / 256) ++ (v % 256 ∷ [])

unfoldable pub both_endian_16 : ℕ → Result IsoError Bytes
both_endian_16 value = do little ← pack_le struct_error 2 value; ok (little ++ to_be 2 value)

unfoldable pub both_endian_32 : ℕ → Result IsoError Bytes
both_endian_32 value = do little ← pack_le struct_error 4 value; ok (little ++ to_be 4 value)

-- A byte that does not fit raises `ValueError`.
unfoldable pub directory_record : Bytes → ℕ → ℕ → Bool → Result IsoError Bytes
unfolding both_endian_16 both_endian_32
directory_record identifier extent size directory =
    let padding : Bytes = if length identifier % 2 == 0 then 0 ∷ [] else [] in
    let record_length = 33 + length identifier + length padding in
    do
      refuse (ltb 255 record_length) record_too_long
      extents ← both_endian_32 extent
      sizes ← both_endian_32 size
      volume ← both_endian_16 1
      ok (
          to_bytes (
            put 33 identifier (
              put 32 (length identifier ∷ []) (
                put 28 volume (
                  put 25 ((if directory then 0x02 else 0) ∷ []) (
                    put 18 (80 ∷ 1 ∷ 1 ∷ 0 ∷ 0 ∷ 0 ∷ 0 ∷ []) (
                      put 10 sizes (
                        put 2 extents (put 0 (record_length ∷ []) (bytearray record_length))))))))))

-- "CD001"
abbrev pub standard_identifier : Bytes
standard_identifier = 0x43 ∷ 0x44 ∷ 0x30 ∷ 0x30 ∷ 0x31 ∷ []

-- The type, the identifier and the version at the start of a descriptor.
abbrev pub descriptor_head : ℕ → Buffer
descriptor_head kind =
    put 6 (1 ∷ []) (put 1 standard_identifier (put 0 (kind ∷ []) (bytearray iso_sector_size)))

-- `descriptor[40:72] = label`: a longer label makes the byte array longer, of which the rest is 0 yet.
abbrev pub put_label : Bytes → Buffer → Buffer
put_label label d =
    let field = ljust 32 0x20 label in
    record (put 40 field d) { size = d.size + (length field - 32) }

abbrev pub is_ascii : Bytes → Bool
is_ascii [] = true
is_ascii (c ∷ cs) = ltb c 128 && is_ascii cs

-- "1980010100000000\0" and "0000000000000000\0"
abbrev pub creation_date : Bytes
creation_date =
    0x31 ∷ 0x39 ∷ 0x38 ∷ 0x30 ∷ 0x30 ∷ 0x31 ∷ 0x30 ∷ 0x31 ∷ (replicate 8 0x30 ++ (0 ∷ []))

abbrev pub no_date : Bytes
no_date = replicate 16 0x30 ++ (0 ∷ [])

-- The label is the list of its code points.
unfoldable pub primary_volume_descriptor : ℕ → List ℕ → Result IsoError Bytes
unfolding directory_record both_endian_16 both_endian_32
primary_volume_descriptor total_sectors volume_label = do
  guard (is_ascii volume_label) bad_encoding
  total ← both_endian_32 total_sectors
  one ← both_endian_16 1
  block ← both_endian_16 iso_sector_size
  table ← both_endian_32 10
  root ← directory_record (0 ∷ []) root_directory_sector iso_sector_size true
  let system =
      0x52 ∷ 0x55 ∷ 0x4c ∷ 0x45 ∷ 0x53 ∷ 0x5f ∷ 0x4f ∷ 0x53 ∷ 0x54 ∷ 0x45 ∷ 0x53 ∷ 0x54 ∷ []
  let named = put_label volume_label (put 8 (ljust 32 0x20 system) (descriptor_head 1))
  let sized = put 132 table (put 128 block (put 124 one (put 120 one (put 80 total named))))
  let paths = put 156 root (put 148 (to_be 4 20) (put 140 (to_le 4 19) sized))
  let dated = put 847 no_date (put 830 creation_date (put 813 creation_date paths))
  ok (to_bytes (put 881 (1 ∷ []) (put 864 no_date dated)))

-- "EL TORITO SPECIFICATION"
abbrev pub el_torito : Bytes
el_torito =
    0x45 ∷ 0x4c ∷ 0x20 ∷ 0x54 ∷ 0x4f ∷ 0x52 ∷ 0x49 ∷ 0x54 ∷ 0x4f ∷ 0x20 ∷ 0x53 ∷ 0x50 ∷ 0x45 ∷ 0x43
    ∷ 0x49 ∷ 0x46 ∷ 0x49 ∷ 0x43 ∷ 0x41 ∷ 0x54 ∷ 0x49 ∷ 0x4f ∷ 0x4e ∷ []

unfoldable pub boot_record_descriptor : Bytes
boot_record_descriptor =
    to_bytes
      (put 71 (to_le 4 boot_catalog_sector) (put 7 (ljust 32 0x20 el_torito) (descriptor_head 0)))

unfoldable pub terminator : Bytes
terminator = to_bytes (descriptor_head 255)

unfoldable pub path_table : Bool → Bytes
path_table big_endian =
    let pack : ℕ → ℕ → Bytes = if big_endian then to_be else to_le in
    ljust iso_sector_size 0 (
      to_bytes (
        put 8 (0 ∷ []) (
          put 6 (pack 2 1) (put 2 (pack 4 root_directory_sector) (put 0 (1 ∷ []) (bytearray 10))))))

-- "EFI.IMG;1"
abbrev pub boot_image_name : Bytes
boot_image_name = 0x45 ∷ 0x46 ∷ 0x49 ∷ 0x2e ∷ 0x49 ∷ 0x4d ∷ 0x47 ∷ 0x3b ∷ 0x31 ∷ []

unfoldable pub root_directory : ℕ → Result IsoError Bytes
unfolding directory_record
root_directory boot_image_size = do
  own ← directory_record (0 ∷ []) root_directory_sector iso_sector_size true
  parent ← directory_record (1 ∷ []) root_directory_sector iso_sector_size true
  image ← directory_record boot_image_name boot_image_sector boot_image_size false
  ok (ljust iso_sector_size 0 (own ++ (parent ++ image)))

-- `sum(struct.unpack("<…H", data))`
abbrev pub sum_words : Bytes → ℕ
sum_words (low ∷ high ∷ bytes) = from_le (low ∷ high ∷ []) + sum_words bytes
sum_words _ = 0

-- `-n & 0xFFFF`
abbrev pub negated_16 : ℕ → ℕ
negated_16 n = (65536 - n % 65536) % 65536

-- "RULES_OSTEST UEFI"
abbrev pub catalog_identifier : Bytes
catalog_identifier =
    0x52 ∷ 0x55 ∷ 0x4c ∷ 0x45 ∷ 0x53 ∷ 0x5f ∷ 0x4f ∷ 0x53 ∷ 0x54 ∷ 0x45 ∷ 0x53 ∷ 0x54 ∷ 0x20 ∷ 0x55
    ∷ 0x45 ∷ 0x46 ∷ 0x49 ∷ []

-- The validation entry, but for its checksum.
abbrev pub validation_entry : Buffer
validation_entry = put 30 (0x55 ∷ 0xaa ∷ []) (
    put 4 (ljust 24 0x20 catalog_identifier)
      (put 1 (0xef ∷ []) (put 0 (1 ∷ []) (bytearray iso_sector_size))))

abbrev pub boot_sector_count : ℕ → ℕ
boot_sector_count boot_image_size =
    let virtual_sectors = (boot_image_size + 511) / 512 in
    if leb virtual_sectors 0xffff then virtual_sectors else 0

unfoldable pub boot_catalog : ℕ → Bytes
boot_catalog boot_image_size =
    let checksum = negated_16 (sum_words (slice validation_entry.byte 0 32)) in
    to_bytes (
      put 40 (to_le 4 boot_image_sector) (
        put 38 (to_le 2 (boot_sector_count boot_image_size))
          (put 33 (0 ∷ []) (put 32 (0x88 ∷ []) (put 28 (to_le 2 checksum) validation_entry)))))

unfoldable pub read_logical_image : Host → String → Result IsoError Bytes
read_logical_image host path = elim (host.contents path) [
  | none ↦ err os_error
  | some bytes ↦ elim (host.gunzip bytes) [
    | none ↦ if has_gzip_magic bytes then err bad_gzip else ok bytes
    | some unpacked ↦ ok (if has_gzip_magic bytes then unpacked else bytes)
  ]
]

-- The loop over the sectors and what goes there.
unfoldable pub write_sectors : List (ℕ × Bytes) → File → File
write_sectors [] output = output
write_sectors ((sector, bytes) ∷ more) output =
    write_sectors more (write_at (sector * iso_sector_size) bytes output)

abbrev pub total_sectors_of : Bytes → ℕ
total_sectors_of boot_image =
    boot_image_sector + (length boot_image + iso_sector_size - 1) / iso_sector_size

-- What the loop writes; the boot image is written last in the same way.
abbrev pub iso_sectors : Bytes → Bytes → Bytes → List (ℕ × Bytes)
iso_sectors boot_image volume root =
    (16, volume)
    ∷ (17, boot_record_descriptor)
    ∷ (18, terminator)
    ∷ (19, path_table false)
    ∷ (20, path_table true)
    ∷ (root_directory_sector, root)
    ∷ (boot_catalog_sector, boot_catalog (length boot_image))
    ∷ (boot_image_sector, boot_image)
    ∷ []

unfoldable pub create_iso : Host → String → List ℕ → Result IsoError File
unfolding write_sectors read_logical_image
create_iso host esp_path volume_label = do
  boot_image ← read_logical_image host esp_path
  refuse (is_empty boot_image || not (length boot_image % 512 == 0)) bad_boot_image
  volume ← primary_volume_descriptor (total_sectors_of boot_image) volume_label
  root ← root_directory (length boot_image)
  ok (
      write_sectors (iso_sectors boot_image volume root)
        (truncate (total_sectors_of boot_image * iso_sector_size) fresh))

-- `main`, without compression: `args.esp` and `args.volume_label`.
unfoldable pub make_iso : Host → String → List ℕ → Result IsoError File
unfolding create_iso
make_iso host esp volume_label = do
  refuse (is_empty volume_label || ltb 32 (length volume_label) || not (is_ascii volume_label))
      bad_volume_label
  create_iso host esp volume_label
