-- ===== src/Iso/Reader.antt =====
-- A reader of the finished image: the root directory, and the boot catalog.
use rules_ostest.Iso.{boot_image_name}
use rules_ostest.Bytes.{Bytes, from_le, slice}
use rules_ostest.Files.{File}
use rules_ostest.Base.{
  ℕ, zero, suc, ◌*◌, Bool, true, false, ◌&&◌, Option, none, some, [], ◌∷◌, ◌==◌, if◌then◌else◌,
  take, drop,
}

-- A little-endian field of `w` bytes.
abbrev pub field : Bytes → ℕ → ℕ → ℕ
field bytes o w = from_le (take w (drop o bytes))

unfoldable pub same_bytes : Bytes → Bytes → Bool
same_bytes [] [] = true
same_bytes (a ∷ bs) (b ∷ cs) = (a == b) && same_bytes bs cs
same_bytes _ _ = false

-- The extent and the size of the first record with a name; `fuel` bounds the records that are read.
unfoldable pub find_file : ℕ → Bytes → Bytes → Option (ℕ × ℕ)
unfolding same_bytes
find_file zero name directory = none
find_file (suc fuel) name directory =
    let rest = find_file fuel name (drop (field directory 0 1) directory) in
    if field directory 0 1 == 0
    then none
    else if same_bytes (take (field directory 32 1) (drop 33 directory)) name
    then some (field directory 2 4, field directory 10 4)
    else rest

abbrev pub sector_of : File → ℕ → Bytes
sector_of f n = slice f.byte (n * 2048) 2048

-- The root directory, by the record in the volume descriptor.
abbrev pub root_of : File → Bytes
root_of f = slice f.byte (field (sector_of f 16) 158 4 * 2048) (field (sector_of f 16) 166 4)

abbrev pub found_file : File → Option (ℕ × ℕ) → Option Bytes
found_file f none = none
found_file f (some (extent, size)) = some (slice f.byte (extent * 2048) size)

-- The boot image as a file of the root directory.
unfoldable pub read_boot_file : File → Option Bytes
unfolding find_file
read_boot_file f = found_file f (find_file 3 boot_image_name (root_of f))

-- The boot catalog, by the boot record, and the image that it points to.
abbrev pub catalog_of : File → Bytes
catalog_of f = sector_of f (field (sector_of f 17) 71 4)

abbrev pub read_boot_entry : ℕ → File → Bytes
read_boot_entry size f = slice f.byte (field (catalog_of f) 40 4 * 2048) size
