-- ===== src/Gpt/Structures/Header.antt =====
-- The bytes of `_gpt_header`, as a reader of the disk takes them.
use rules_ostest.Bytes.Slices.{
  field-slice, slice-overlay_outside, take-slice, slice_shift, slice-overlay_self,
  slice-overlay_part,
}
use mathlib.Core.Path.{ap₂, subst}
use rules_ostest.Bytes.Overlay.{pack_le-bind, from_le-to_le, length-slice}
use rules_ostest.Base.{
  ℕ, ◌+◌, ◌-◌, ◌%◌, ◌^◌, ◌≤◌, ◌<◌, ◌≡◌, refl, sym, ap, ◌∙◌, ◌⊎◌, ◌++◌, arith, length, take, drop,
  replicate, length-append, length-take, length-drop, take_all, take-append, drop-append_more,
  ok-injective, bind-eq-ok, ok,
}
use rules_ostest.Bytes.{Bytes, to_le, from_le, slice, overlay}
use rules_ostest.Disk.{Host, struct_error}
use rules_ostest.Gpt.Structures.{
  HeaderFields, header_fields, string16, efi_part, header_buffer, gpt_header,
}

-- The unsigned field of `w` bytes at an offset.
abbrev pub field : Bytes → ℕ → ℕ → ℕ
field bytes offset w = from_le (take w (drop offset bytes))

-- The bytes with zeros in the field for the CRC.
abbrev pub without_crc : Bytes → Bytes
without_crc header = take 16 header ++ (replicate 4 0 ++ drop 20 header)

-- What a reader of the disk finds in a header.
pub record IsHeader (host : Host) (h : HeaderFields) (header : Bytes) : Type 0 where
  pub one_sector : length header ≡ 512
  pub signature : take 8 header ≡ efi_part
  pub revision : field header 8 4 ≡ 0x0001_0000
  pub header_size : field header 12 4 ≡ 92
  pub crc : field header 16 4 ≡ host.crc32 (take 92 (without_crc header)) % 2 ^ 32
  pub current_lba : field header 24 8 ≡ h.current_lba
  pub backup_lba : field header 32 8 ≡ h.backup_lba
  pub first_usable_lba : field header 40 8 ≡ h.first_usable_lba
  pub last_usable_lba : field header 48 8 ≡ h.last_usable_lba
  pub disk_guid : take 16 (drop 56 header) ≡ string16 h.disk_guid
  pub entries_lba : field header 72 8 ≡ h.entries_lba
  pub entry_count : field header 80 4 ≡ 128
  pub entry_size : field header 84 4 ≡ 128
  pub entries_crc : field header 88 4 ≡ h.entries_crc

-- Every number of a header has room in its field.
pub record Fits (h : HeaderFields) : Type 0 where
  pub current : h.current_lba < 2 ^ 64
  pub backup : h.backup_lba < 2 ^ 64
  pub first : h.first_usable_lba < 2 ^ 64
  pub last : h.last_usable_lba < 2 ^ 64
  pub entries_lba : h.entries_lba < 2 ^ 64
  pub entries_crc : h.entries_crc < 2 ^ 32

abbrev packed_fields : HeaderFields → Bytes
packed_fields h =
    efi_part
    ++ (to_le 4 0x0001_0000
        ++ (to_le 4 92
            ++ (to_le 4 0
                ++ (to_le 4 0
                    ++ (to_le 8 h.current_lba
                        ++ (to_le 8 h.backup_lba
                            ++ (to_le 8 h.first_usable_lba
                                ++ (to_le 8 h.last_usable_lba
                                    ++ (string16 h.disk_guid
                                        ++ (to_le 8 h.entries_lba
                                            ++ (to_le 4 128
                                                ++ (to_le 4 128 ++ to_le 4 h.entries_crc))))))))))))

header_fields-eq-ok :
    (h : HeaderFields) (fields : Bytes)
    → header_fields h ≡ ok fields
    → Fits h × (fields ≡ packed_fields h)
unfolding header_fields
header_fields-eq-ok h fields e₀ =
    let (current, e₁) = pack_le-bind struct_error 8 h.current_lba _ fields e₀ in
    let (backup, e₂) = pack_le-bind struct_error 8 h.backup_lba _ fields e₁ in
    let (first, e₃) = pack_le-bind struct_error 8 h.first_usable_lba _ fields e₂ in
    let (last, e₄) = pack_le-bind struct_error 8 h.last_usable_lba _ fields e₃ in
    let (entries, e₅) = pack_le-bind struct_error 8 h.entries_lba _ fields e₄ in
    let (crc, e₆) = pack_le-bind struct_error 4 h.entries_crc _ fields e₅ in
    (
      record {
        current = current;
        backup = backup;
        first = first;
        last = last;
        entries_lba = entries;
        entries_crc = crc;
      },
      sym (ok-injective e₆),
    )

length-string16 : (g : Bytes) → length (string16 g) ≡ 16
length-string16 g =
    omega (arith, length-take 16 (g ++ replicate 16 0), length-append g (replicate 16 0))

length-packed_fields : (h : HeaderFields) → length (packed_fields h) ≡ 92
length-packed_fields h = omega (
  arith,
  length-string16 h.disk_guid,
  length-append (string16 h.disk_guid)
      (to_le 8 h.entries_lba ++ (to_le 4 128 ++ (to_le 4 128 ++ to_le 4 h.entries_crc))),
)

crc_gap :
    (byte : ℕ → ℕ) (n : ℕ)
    → 92 ≤ n
    → take 92 (without_crc (slice byte 0 n))
      ≡ slice byte 0 16 ++ (replicate 4 0 ++ slice byte 20 72)
crc_gap byte n h =
    let e : n ≡ 16 + (n - 16) = omega arith in
    let front : take 16 (slice byte 0 n) ≡ slice byte 0 16 =
      ap (λ k. take 16 (slice byte 0 k)) e ∙ take-slice byte 0 16 (n - 16) in
    let back : take 72 (drop 20 (slice byte 0 n)) ≡ slice byte 20 72 =
      field-slice byte 0 n 20 72 (omega arith) in
    ap (λ l. take 92 (l ++ (replicate 4 0 ++ drop 20 (slice byte 0 n)))) front
    ∙ ap (λ l. slice byte 0 16 ++ (replicate 4 0 ++ l)) back

module _ (h : HeaderFields) (crc : Bytes) (crc_length : length crc ≡ 4) where
  abbrev made : ℕ → ℕ
  made = overlay 16 crc (header_buffer (packed_fields h)).byte

  part :
      (o w : ℕ)
      → o + w ≤ 92
      → (o + w ≤ 16) ⊎ (20 ≤ o)
      → slice made o w ≡ take w (drop o (packed_fields h))
  unfolding header_buffer
  part o w fits apart =
      slice-overlay_outside 16 crc _ o w (omega (arith, crc_length))
      ∙ slice_shift _ o (0 + o) w (omega arith)
      ∙ slice-overlay_part 0 (packed_fields h) (λ _. 0) o w (rw (length-packed_fields h) fits)

  pub part_of_header :
      (o w : ℕ)
      → o + w ≤ 92
      → (o + w ≤ 16) ⊎ (20 ≤ o)
      → take w (drop o (slice made 0 512)) ≡ take w (drop o (packed_fields h))
  part_of_header o w fits apart =
      field-slice made 0 512 o w (omega arith)
      ∙ slice_shift made (0 + o) o w (omega arith)
      ∙ part o w fits apart

  pub crc_of_header : take 4 (drop 16 (slice made 0 512)) ≡ crc
  crc_of_header =
      field-slice made 0 512 16 4 (omega arith)
      ∙ ap (slice made 16) (sym crc_length)
      ∙ slice-overlay_self 16 crc _

  abbrev fields : Bytes
  fields = packed_fields h

  pub checked_bytes :
      take 92 (without_crc (slice made 0 512)) ≡ slice (header_buffer fields).byte 0 92
  unfolding header_buffer
  checked_bytes =
      let length_back : length (drop 20 fields) ≡ 72 =
        omega (arith, length-drop 20 fields, length-packed_fields h) in
      crc_gap made 512 (omega arith)
      ∙ ap₂ (λ l m. l ++ (replicate 4 0 ++ m)) (part 0 16 (omega arith) (omega arith))
          (part 20 72 (omega arith) (omega arith))
      ∙ ap (λ l. take 16 fields ++ (replicate 4 0 ++ l)) (take_all 72 (drop 20 fields) length_back)
      ∙ sym (slice-overlay_self 0 fields (λ _. 0))
      ∙ ap (slice (overlay 0 fields (λ _. 0)) 0) (length-packed_fields h)

  number :
      (o w v : ℕ)
      → o + w ≤ 92
      → (o + w ≤ 16) ⊎ (20 ≤ o)
      → take w (drop o fields) ≡ to_le w v
      → v < 256 ^ w
      → field (slice made 0 512) o w ≡ v
  number o w v fits apart e small =
      ap from_le (part_of_header o w fits apart ∙ e) ∙ from_le-to_le w v small

  abbrev behind_guid : Bytes
  behind_guid = to_le 8 h.entries_lba ++ (to_le 4 128 ++ (to_le 4 128 ++ to_le 4 h.entries_crc))

  -- An offset behind the GUID.
  behind :
      (k w : ℕ)
      → take w (drop (16 + k) (string16 h.disk_guid ++ behind_guid)) ≡ take w (drop k behind_guid)
  behind k w =
      ap (take w)
        (drop-append_more 16 k (string16 h.disk_guid) behind_guid (length-string16 h.disk_guid))

  IsHeader-made :
      (host : Host)
      → Fits h
      → from_le crc ≡ host.crc32 (slice (header_buffer fields).byte 0 92) % 2 ^ 32
      → IsHeader host h (slice made 0 512)
  IsHeader-made host f c = record {
    one_sector = length-slice made 0 512;
    signature = part_of_header 0 8 (omega arith) (omega arith);
    revision = number 8 4 0x0001_0000 (omega arith) (omega arith) refl (omega arith);
    header_size = number 12 4 92 (omega arith) (omega arith) refl (omega arith);
    crc = ap from_le crc_of_header ∙ c ∙ ap (λ l. host.crc32 l % 2 ^ 32) (sym checked_bytes);
    current_lba = number 24 8 h.current_lba (omega arith) (omega arith) refl f.current;
    backup_lba = number 32 8 h.backup_lba (omega arith) (omega arith) refl f.backup;
    first_usable_lba = number 40 8 h.first_usable_lba (omega arith) (omega arith) refl f.first;
    last_usable_lba = number 48 8 h.last_usable_lba (omega arith) (omega arith) refl f.last;
    disk_guid =
        part_of_header 56 16 (omega arith) (omega arith)
        ∙ take-append 16 (string16 h.disk_guid) behind_guid (length-string16 h.disk_guid);
    entries_lba = number 72 8 h.entries_lba (omega arith) (omega arith) (behind 0 8) f.entries_lba;
    entry_count = number 80 4 128 (omega arith) (omega arith) (behind 8 4) (omega arith);
    entry_size = number 84 4 128 (omega arith) (omega arith) (behind 12 4) (omega arith);
    entries_crc = number 88 4 h.entries_crc (omega arith) (omega arith) (behind 16 4) f.entries_crc;
  }

-- A header that is made is one sector, reads back as its fields, and its CRC is that of its first
-- 92 bytes with zeros for the CRC.
pub gpt_header-IsHeader :
    (host : Host) (h : HeaderFields) (header : Bytes)
    → gpt_header host h ≡ ok header
    → IsHeader host h header
unfolding gpt_header header_buffer
gpt_header-IsHeader host h header e₀ =
    let (fields, packed, e₁) = bind-eq-ok (header_fields h) _ e₀ in
    let (fits, same) = header_fields-eq-ok h fields packed in
    let crc = host.crc32 (slice (header_buffer (packed_fields h)).byte 0 92) % 2 ^ 32 in
    let (small, e₂) = pack_le-bind struct_error 4 crc _ header (rw same at e₁) in
    subst (IsHeader host h) {x = slice (made h (to_le 4 crc) refl) 0 512} (ok-injective e₂)
      (IsHeader-made h (to_le 4 crc) refl host fits (from_le-to_le 4 crc small))
