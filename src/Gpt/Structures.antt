-- ===== src/Gpt/Structures.antt =====
-- `_gpt_header`, `_protective_mbr` and `_partition_entries`: the bytes of the tables.
pub mod Header
pub mod Entries
pub mod Table
use rules_ostest.Base.{
  ℕ, ◌+◌, ◌-◌, ◌*◌, ◌%◌, ◌^◌, min, List, [], ◌∷◌, ◌++◌, ltb, length, take, replicate, ◌>>=◌, ◌>>◌,
  refuse, Result, ok,
}
use rules_ostest.Bytes.{Bytes, Buffer, bytearray, put, to_bytes, to_le, pack_le, slice}
use rules_ostest.Disk.{Host, Error, struct_error, bad_encoding, name_too_long, or_raise}
use rules_ostest.Gpt.{Partition, sector_size, gpt_entry_count, gpt_entry_size}

pub record HeaderFields : Type 0 where
  pub current_lba : ℕ
  pub backup_lba : ℕ
  pub first_usable_lba : ℕ
  pub last_usable_lba : ℕ
  pub disk_guid : Bytes
  pub entries_lba : ℕ
  pub entries_crc : ℕ

-- `16s` of `struct`: exactly 16 bytes.
abbrev pub string16 : Bytes → Bytes
string16 bs = take 16 (bs ++ replicate 16 0)

-- b"EFI PART"
abbrev pub efi_part : Bytes
efi_part = 0x45 ∷ 0x46 ∷ 0x49 ∷ 0x20 ∷ 0x50 ∷ 0x41 ∷ 0x52 ∷ 0x54 ∷ []

-- The fields of the header in order, with 0 for the CRC of the header.
unfoldable pub header_fields : HeaderFields → Result Error Bytes
header_fields h = do
  current ← pack_le struct_error 8 h.current_lba
  backup ← pack_le struct_error 8 h.backup_lba
  first ← pack_le struct_error 8 h.first_usable_lba
  last ← pack_le struct_error 8 h.last_usable_lba
  entries_lba ← pack_le struct_error 8 h.entries_lba
  entries_crc ← pack_le struct_error 4 h.entries_crc
  ok (
      efi_part
      ++ (to_le 4 0x0001_0000
          ++ (to_le 4 92
              ++ (to_le 4 0
                  ++ (to_le 4 0
                      ++ (current
                          ++ (backup
                              ++ (first
                                  ++ (last
                                      ++ (string16 h.disk_guid
                                          ++ (entries_lba
                                              ++ (to_le 4 gpt_entry_count
                                                  ++ (to_le 4 gpt_entry_size
                                                      ++ entries_crc)))))))))))))

-- The buffer with the fields, and the CRC of its first 92 bytes.
unfoldable pub header_buffer : Bytes → Buffer
header_buffer fields = put 0 fields (bytearray sector_size)

unfoldable pub gpt_header : Host → HeaderFields → Result Error Bytes
gpt_header host h = do
  fields ← header_fields h
  let header = header_buffer fields
  let header_crc = host.crc32 (slice header.byte 0 92) % 2 ^ 32
  packed ← pack_le struct_error 4 header_crc
  ok (to_bytes (put 16 packed header))

unfoldable pub protective_mbr : ℕ → Result Error Bytes
protective_mbr total_lbas = do
  size ← pack_le struct_error 4 (min (total_lbas - 1) 0xffff_ffff)
  let entry = 0 ∷ (0x00 ∷ 0x02 ∷ 0x00 ∷ []) ++ (0xee ∷ 0xff ∷ 0xff ∷ 0xff ∷ []) ++ to_le 4 1 ++ size
  ok (to_bytes (put 510 (0x55 ∷ 0xaa ∷ []) (put 446 entry (bytearray sector_size))))

-- One round of the loop over the partitions: the entry at `index * GPT_ENTRY_SIZE`.
unfoldable pub write_entry : Host → ℕ → Partition → Buffer → Result Error Buffer
write_entry host index p entries = do
  encoded_name ← or_raise bad_encoding (host.utf16le p.partition_name)
  refuse (ltb 72 (length encoded_name)) (name_too_long (index + 1))
  let offset = index * gpt_entry_size
  start ← pack_le struct_error 8 p.start_lba
  end ← pack_le struct_error 8 p.end_lba
  attributes ← pack_le struct_error 8 p.attributes
  ok (
      put (offset + 56) encoded_name (
        put (offset + 32) (start ++ (end ++ attributes))
          (put (offset + 16) p.unique_guid (put offset p.type_guid entries))))

unfoldable pub write_entries : Host → ℕ → List Partition → Buffer → Result Error Buffer
write_entries host index [] entries = ok entries
write_entries host index (p ∷ ps) entries = do
  entries' ← write_entry host index p entries
  write_entries host (index + 1) ps entries'

unfoldable pub partition_entries : Host → List Partition → Result Error Bytes
unfolding write_entries
partition_entries host ps = do
  entries ← write_entries host 0 ps (bytearray (gpt_entry_count * gpt_entry_size))
  ok (to_bytes entries)
