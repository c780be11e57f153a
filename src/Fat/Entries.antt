-- ===== src/Fat/Entries.antt =====
-- `_short_entry`, `_lfn_entries`, `_directory_data`, `_boot_sector` and `_fsinfo_sector`.
pub mod LongNames
pub mod Sizes
use rules_ostest.Base.{
  ℕ, zero, suc, ◌+◌, ◌-◌, ◌*◌, ◌/◌, ◌%◌, none, some, List, [], ◌∷◌, ◌++◌, ltb, ◌==◌, if◌then◌else◌,
  length, take, drop, replicate, ◌>>=◌, ◌>>◌, refuse, Result, ok, err,
}
use rules_ostest.Bytes.{Bytes, bytearray, put, to_bytes, to_le, pack_le, ljust}
use rules_ostest.Fat.{
  FatError, bad_byte, struct_error, bad_encoding, directory_too_small, reserved_sectors,
}
use rules_ostest.Fat.Names.{utf16_units}
use rules_ostest.Fat.Tree.{Entry, Nodes, node, nil, cons}
use rules_ostest.Fat.Walk.{Item}

-- `_fat_date()`: 1980-01-01, in the two bytes of its field.
abbrev pub fat_date : Bytes
fat_date = to_le 2 33

-- The name takes the place of 11 bytes, so that the buffer has the length of the name and 21 more; the
-- size, at 28, needs 32 of them. Then one field for each number, in the order of the source.
unfoldable pub short_entry : Bytes → ℕ → ℕ → ℕ → Result FatError Bytes
short_entry name attributes first_cluster size = do
  refuse (ltb (length name) 11) struct_error
  size_field ← pack_le struct_error 4 size
  ok (
      to_bytes (
        put 28 size_field (
          put 26 (to_le 2 (first_cluster % 65536)) (
            put 24 fat_date (
              put 20 (to_le 2 (first_cluster / 65536 % 65536)) (
                put 18 fat_date (
                  put 16 fat_date
                    (put 11 (attributes ∷ []) (put 0 name (bytearray (length name + 21)))))))))))

-- The loop of `_lfn_checksum`; the two operands of `|` share no bit.
unfoldable pub lfn_checksum : ℕ → Bytes → ℕ
lfn_checksum checksum [] = checksum
lfn_checksum checksum (value ∷ short_name) =
    lfn_checksum ((checksum % 2 * 128 + checksum / 2 + value) % 256) short_name

abbrev pub pack_utf16_units : List ℕ → Bytes
pack_utf16_units [] = []
pack_utf16_units (u ∷ units) = to_le 2 u ++ pack_utf16_units units

-- `sequence | 0x40`
abbrev pub with_last_flag : ℕ → ℕ
with_last_flag n = if n / 64 % 2 == 0 then n + 0x40 else n

-- One entry of a long name: `chunk` is 13 units.
unfoldable pub lfn_entry : ℕ → ℕ → List ℕ → Bytes
lfn_entry order checksum chunk = to_bytes (
    put 28 (pack_utf16_units (take 2 (drop 11 chunk))) (
      put 26 (0 ∷ 0 ∷ []) (
        put 14 (pack_utf16_units (take 6 (drop 5 chunk))) (
          put 13 (checksum ∷ []) (
            put 12 (0 ∷ []) (
              put 11 (0x0f ∷ [])
                (put 1 (pack_utf16_units (take 5 chunk)) (put 0 (order ∷ []) (bytearray 32)))))))))

-- `for sequence in range(entry_count, 0, -1)`, of which `sequence` is left.
unfoldable pub lfn_loop : ℕ → ℕ → ℕ → List ℕ → List Bytes
unfolding lfn_entry
lfn_loop zero entry_count checksum units = []
lfn_loop (suc n) entry_count checksum units =
    lfn_entry (if suc n == entry_count then with_last_flag (suc n) else suc n) checksum
      (take 13 (drop (n * 13) units))
    ∷ lfn_loop n entry_count checksum units

-- The units of a name, its end, and the filling of the last entry.
abbrev pub lfn_units : List ℕ → List ℕ
lfn_units encoded =
    let count = (length encoded + 1 + 12) / 13 in
    encoded ++ (0 ∷ replicate (count * 13 - (length encoded + 1)) 0xffff)

-- The first round, whose sequence number is the largest, fails where that is no byte.
unfoldable pub lfn_entries : List ℕ → Bytes → Result FatError (List Bytes)
unfolding lfn_loop lfn_checksum
lfn_entries encoded short_name = do
  let count = (length encoded + 1 + 12) / 13
  refuse (ltb 255 count) bad_byte
  ok (lfn_loop count count (lfn_checksum 0 short_name) (lfn_units encoded))

abbrev pub join : List Bytes → Bytes
join [] = []
join (bytes ∷ more) = bytes ++ join more

-- The long entries of a child, if it needs them.
unfoldable pub long_entries : Entry → Result FatError (List Bytes)
unfolding lfn_entries
long_entries e =
    if e.needs_lfn
    then elim (utf16_units e.name) [
      | none ↦ err bad_encoding
      | some encoded ↦ lfn_entries encoded e.short_name
    ]
    else ok []

-- The loop over the children.
unfoldable pub child_entries : Nodes → Result FatError (List Bytes)
unfolding long_entries short_entry
child_entries nil = ok []
child_entries (cons (node e cs) ns) = do
  long ← long_entries e
  short ←
      short_entry e.short_name (if e.is_dir then 0x10 else 0x20) e.first_cluster
        (if e.is_dir then 0 else e.size)
  rest ← child_entries ns
  ok (long ++ (short ∷ rest))

-- The entries ahead of the children: the label of the volume, or `.` and `..`.
unfoldable pub first_entries : Bytes → Item → Result FatError (List Bytes)
unfolding short_entry
first_entries label i =
    if i.is_root
    then (do entry ← short_entry (ljust 11 0x20 label) 0x08 0 0; ok (entry ∷ []))
    else (do
      own ← short_entry (ljust 11 0x20 (0x2e ∷ [])) 0x10 i.entry.first_cluster 0
      parent ← short_entry (ljust 11 0x20 (0x2e ∷ 0x2e ∷ [])) 0x10 i.parent_cluster 0
      ok (own ∷ parent ∷ []))

unfoldable pub directory_data : Bytes → ℕ → Item → Result FatError Bytes
unfolding first_entries child_entries
directory_data label cluster_size i = do
  first ← first_entries label i
  rest ← child_entries i.children
  let contents = join (first ++ rest)
  let allocated_size = i.entry.cluster_count * cluster_size
  refuse (ltb allocated_size (length contents)) directory_too_small
  ok (ljust allocated_size 0 contents)

-- A label of more than 11 bytes makes the sector longer.
unfoldable pub boot_sector : ℕ → ℕ → Bytes → ℕ → Result FatError Bytes
boot_sector total_sectors fat_sectors label volume_id = do
  total ← pack_le struct_error 4 total_sectors
  fat ← pack_le struct_error 4 fat_sectors
  id ← pack_le struct_error 4 volume_id
  let geometry = put 26 (to_le 2 255) (
      put 24 (to_le 2 63) (
        put 21 (0xf8 ∷ []) (
          put 16 (2 ∷ []) (
            put 14 (to_le 2 reserved_sectors) (
              put 13 (1 ∷ []) (
                put 11 (to_le 2 512) (
                  put 3 (0x4f ∷ 0x53 ∷ 0x54 ∷ 0x45 ∷ 0x53 ∷ 0x54 ∷ 0x20 ∷ 0x20 ∷ [])
                    (put 0 (0xeb ∷ 0x58 ∷ 0x90 ∷ []) (bytearray (512 + (length label - 11)))))))))))
  let sized =
      put 50 (to_le 2 6)
        (put 48 (to_le 2 1) (put 44 (to_le 4 2) (put 36 fat (put 32 total geometry))))
  let named =
      put 82 (0x46 ∷ 0x41 ∷ 0x54 ∷ 0x33 ∷ 0x32 ∷ 0x20 ∷ 0x20 ∷ 0x20 ∷ [])
        (put 71 (ljust 11 0x20 label) (put 67 id (put 66 (0x29 ∷ []) (put 64 (0x80 ∷ []) sized))))
  ok (to_bytes (put 510 (0x55 ∷ 0xaa ∷ []) named))

unfoldable pub fsinfo_sector : ℕ → ℕ → Result FatError Bytes
fsinfo_sector free_clusters next_free = do
  free ← pack_le struct_error 4 free_clusters
  next ← pack_le struct_error 4 next_free
  ok (
      to_bytes (
        put 508 (to_le 4 0xaa55_0000) (
          put 492 next (
            put 488 free
              (put 484 (to_le 4 0x6141_7272) (put 0 (to_le 4 0x4161_5252) (bytearray 512)))))))
