-- ===== src/Iso/Catalog.antt =====
-- The boot catalog, as firmware checks it.
use rules_ostest.Bytes.Overlay.{from_le-to_le}
use rules_ostest.Iso.{boot_catalog, sum_words, boot_sector_count}
use rules_ostest.Bytes.{Bytes, overlay}
use rules_ostest.Iso.Reader.{field}
use rules_ostest.Base.{
  ℕ, ◌+◌, ◌*◌, ◌/◌, ◌%◌, ◌≤◌, ◌<◌, ◌≡◌, refl, ◌⊎◌, inl, inr, arith, lt_cases, length, take,
}

-- What the catalog says of an image of `size` bytes: the validation entry with its key bytes and a
-- sum of 0, and a bootable entry with the sectors and the place of the image.
pub record IsCatalog (size : ℕ) (catalog : Bytes) : Type 0 where
  pub one_sector : length catalog ≡ 2048
  pub header : field catalog 0 1 ≡ 1
  pub key : field catalog 30 2 ≡ 0xaa55
  pub sum : sum_words (take 32 catalog) % 65536 ≡ 0
  pub bootable : field catalog 32 1 ≡ 0x88
  pub sectors :
      ((size ≤ 65535 * 512)
        × (512 * field catalog 38 2 < size + 512)
        × (size ≤ 512 * field catalog 38 2))
      ⊎ ((65535 * 512 < size) × (field catalog 38 2 ≡ 0))
  pub place : field catalog 40 4 ≡ 23

sectors_field : (size : ℕ) → field (boot_catalog size) 38 2 ≡ boot_sector_count size
unfolding boot_catalog overlay
sectors_field size = from_le-to_le 2 (boot_sector_count size) (ground arith)

counted :
    (size n : ℕ)
    → n ≡ boot_sector_count size
    → ((size ≤ 65535 * 512) × (512 * n < size + 512) × (size ≤ 512 * n))
      ⊎ ((65535 * 512 < size) × (n ≡ 0))
counted size n h = elim (lt_cases 65535 ((size + 511) / 512)) [
  | inl big ↦ inr (omega arith, ground (arith, big, h))
  | inr fits ↦ inl (omega arith, ground (arith, fits, h), ground (arith, fits, h))
]

-- The boot catalog is one sector, its validation entry has its key bytes and sums to 0 modulo
-- 65536, and its bootable entry points to sector 23 and has the least number of 512-byte sectors
-- that hold the image, or 0 where that does not fit in 16 bits.
pub boot_catalog-IsCatalog : (size : ℕ) → IsCatalog size (boot_catalog size)
unfolding boot_catalog overlay
boot_catalog-IsCatalog size = record {
  one_sector = refl;
  header = refl;
  key = refl;
  sum = refl;
  bootable = refl;
  sectors = counted size (field (boot_catalog size) 38 2) (sectors_field size);
  place = refl;
}
