-- ===== src/Iso/Contents.antt =====
-- What `create_iso` leaves on the disk.
use rules_ostest.Iso.Writes.{
  write_sectors-IsWritten, IsSorted, IsSorted→AreApart, size-write_sectors,
}
use mathlib.Core.Path.{subst}
use rules_ostest.Disk.{Host}
use rules_ostest.Bytes.Slices.{field-slice}
use rules_ostest.Bytes.Overlay.{pack_le-bind, length-slice, from_le-to_le}
use rules_ostest.Bytes.{Bytes, slice, ljust, overlay, pack_le, from_le}
use rules_ostest.Iso.{
  write_sectors, boot_image_name, boot_catalog, primary_volume_descriptor, root_directory,
  both_endian_16, both_endian_32, directory_record, is_ascii, bad_encoding, struct_error,
  iso_sectors, make_iso, create_iso, total_sectors_of, iso_sector_size, read_logical_image,
  bad_volume_label, bad_boot_image, boot_record_descriptor, terminator, path_table,
}
use rules_ostest.Files.{File, truncate, fresh}
use rules_ostest.Iso.Reader.{
  field, read_boot_file, find_file, catalog_of, same_bytes, read_boot_entry, root_of, sector_of,
  found_file,
}
use mathlib.Core.Path.{ap₂}
use rules_ostest.Iso.Catalog.{boot_catalog-IsCatalog}
use rules_ostest.Base.{
  ℕ, ◌+◌, ◌-◌, ◌*◌, ◌/◌, ◌%◌, ◌≤◌, String, ◌≡◌, refl, sym, ap, ◌∙◌, Bool, true, false, not, ◌||◌,
  some, List, arith, ltb, ◌==◌, length, is_empty, replicate, length-append, length-replicate, All,
  ok-injective, bind-eq-ok, guard-eq-ok, refuse-eq-ok, ok,
}

pub record IsIso (boot_image : Bytes) (f : File) : Type 0 where
  pub size : f.size ≡ (23 + (length boot_image + 2047) / 2048) * 2048
  pub file : read_boot_file f ≡ some boot_image
  pub catalog : catalog_of f ≡ boot_catalog (length boot_image)
  pub entry : read_boot_entry (length boot_image) f ≡ boot_image

length-ljust : (w fill : ℕ) (bs : Bytes) → length bs ≤ w → length (ljust w fill bs) ≡ w
length-ljust w fill bs h = omega (
  arith,
  length-append bs (replicate (w - length bs) fill),
  length-replicate (w - length bs) fill,
)

-- The volume descriptor is one sector, with a root record at 156.
record IsVolume (volume : Bytes) : Type 0 where
  one_sector : length volume ≡ 2048
  root_extent : field volume 158 4 ≡ 21
  root_size : field volume 166 4 ≡ 2048

primary_volume_descriptor-IsVolume :
    (total : ℕ) (label : List ℕ) (volume : Bytes)
    → length label ≤ 32
    → primary_volume_descriptor total label ≡ ok volume
    → IsVolume volume
unfolding primary_volume_descriptor both_endian_16 both_endian_32 directory_record overlay pack_le
primary_volume_descriptor-IsVolume total label volume h e₀ =
    let (_, e₁) = guard-eq-ok (is_ascii label) bad_encoding _ e₀ in
    let (totals, made, e₂) = bind-eq-ok (both_endian_32 total) _ e₁ in
    let (_, e₃) = pack_le-bind struct_error 4 total _ totals made in
    let e₄ = rw (sym (ok-injective e₃)) at e₂ in
    let n = 2048 + (length (ljust 32 0x20 label) - 32) in
    record {
      one_sector =
          ap length (sym (ok-injective e₄))
          ∙ length-slice _ 0 n
          ∙ omega (arith, length-ljust 32 0x20 label h);
      root_extent =
          ap (λ v. field v 158 4) (sym (ok-injective e₄))
          ∙ ap from_le (field-slice _ 0 n 158 4 (omega arith));
      root_size =
          ap (λ v. field v 166 4) (sym (ok-injective e₄))
          ∙ ap from_le (field-slice _ 0 n 166 4 (omega arith));
    }

record IsRoot (size : ℕ) (root : Bytes) : Type 0 where
  one_sector : length root ≡ 2048
  found : find_file 3 boot_image_name root ≡ some (23, size)

root_directory-IsRoot : (size : ℕ) (root : Bytes) → root_directory size ≡ ok root → IsRoot size root
unfolding root_directory both_endian_16 both_endian_32 directory_record overlay pack_le find_file
    same_bytes
root_directory-IsRoot size root e₀ =
    let (image, made, e₁) = bind-eq-ok (directory_record boot_image_name 23 size false) _ e₀ in
    let (sizes, made', e₂) = bind-eq-ok (both_endian_32 size) _ made in
    let (fits, e₃) = pack_le-bind struct_error 4 size _ sizes made' in
    let e₄ = rw (sym (ok-injective e₃)) at e₂ in
    let e₅ = rw (sym (ok-injective e₄)) at e₁ in
    record {
      one_sector = ap length (sym (ok-injective e₅));
      found =
          ap (find_file 3 boot_image_name) (sym (ok-injective e₅))
          ∙ ap (λ n. some (23, n)) (from_le-to_le 4 size fits);
    }

-- The parts that do not depend on the image.
length-boot_record_descriptor : length boot_record_descriptor ≡ 2048
unfolding boot_record_descriptor
length-boot_record_descriptor = refl

length-terminator : length terminator ≡ 2048
unfolding terminator
length-terminator = refl

length-path_table : (big_endian : Bool) → length (path_table big_endian) ≡ 2048
unfolding path_table
length-path_table false = refl
length-path_table true = refl

catalog_place : field boot_record_descriptor 71 4 ≡ 22
unfolding boot_record_descriptor overlay
catalog_place = refl

module _ (image volume root : Bytes) (v : length volume ≡ 2048) (r : length root ≡ 2048) where
  iso_sectors-IsSorted : IsSorted 0 (iso_sectors image volume root)
  iso_sectors-IsSorted =
      let c = (boot_catalog-IsCatalog (length image)).one_sector in
      (
        omega arith,
        (
          omega (arith, v),
          (
            omega (arith, length-boot_record_descriptor),
            (
              omega (arith, length-terminator),
              (
                omega (arith, length-path_table false),
                (omega (arith, length-path_table true), (omega (arith, r), (omega (arith, c), tt))),
              ),
            ),
          ),
        ),
      )

  iso_sectors_fit :
      (n : ℕ)
      → total_sectors_of image * 2048 ≤ n
      → All (λ w. w.0 * 2048 + length w.1 ≤ n) (iso_sectors image volume root)
  iso_sectors_fit n h =
      let c = (boot_catalog-IsCatalog (length image)).one_sector in
      (
        omega (arith, v),
        (
          omega (arith, length-boot_record_descriptor),
          (
            omega (arith, length-terminator),
            (
              omega (arith, length-path_table false),
              (
                omega (arith, length-path_table true),
                (omega (arith, r), (omega (arith, c), (omega arith, tt))),
              ),
            ),
          ),
        ),
      )

-- The readers, on the sectors that were written.
written :
    (image volume root : Bytes)
    → IsVolume volume
    → IsRoot (length image) root
    → IsIso image (
        write_sectors
          (iso_sectors image volume root)
          (truncate (total_sectors_of image * iso_sector_size) fresh))
unfolding read_boot_file
written image volume root v r =
    let ws = iso_sectors image volume root in
    let start = truncate (total_sectors_of image * iso_sector_size) fresh in
    let f = write_sectors ws start in
    let stored =
      write_sectors-IsWritten ws start (
        IsSorted→AreApart 0 ws
          (iso_sectors-IsSorted image volume root v.one_sector r.one_sector)) in
    let (s16, (s17, (_, (_, (_, (s21, (s22, (s23, _)))))))) = stored in
    let c = boot_catalog-IsCatalog (length image) in
    let at_16 = ap (slice f.byte (16 * 2048)) (sym v.one_sector) ∙ s16 in
    let at_17 = ap (slice f.byte (17 * 2048)) (sym length-boot_record_descriptor) ∙ s17 in
    let at_21 = ap (slice f.byte (21 * 2048)) (sym r.one_sector) ∙ s21 in
    let at_22 = ap (slice f.byte (22 * 2048)) (sym c.one_sector) ∙ s22 in
    let at_23 : slice f.byte (23 * 2048) (length image) ≡ image = s23 in
    let root_here : root_of f ≡ root =
      ap (λ d. slice f.byte (field d 158 4 * 2048) (field d 166 4)) at_16
      ∙ ap₂ (λ a b. slice f.byte (a * 2048) b) v.root_extent v.root_size
      ∙ at_21 in
    let catalog_here : catalog_of f ≡ boot_catalog (length image) =
      ap (λ d. sector_of f (field d 71 4)) at_17 ∙ ap (sector_of f) catalog_place ∙ at_22 in
    record {
      size =
          size-write_sectors ws start
            (iso_sectors_fit image volume root v.one_sector r.one_sector start.size (omega arith))
          ∙ omega arith;
      file =
          ap (λ d. found_file f (find_file 3 boot_image_name d)) root_here
          ∙ ap (found_file f) r.found
          ∙ ap some at_23;
      catalog = catalog_here;
      entry =
          ap (λ d. slice f.byte (field d 40 4 * 2048) (length image)) catalog_here
          ∙ ap (λ k. slice f.byte (k * 2048) (length image)) c.place
          ∙ at_23;
    }

-- A call that succeeds has made an image of whole sectors from which the boot image is read back
-- in both ways: as the file `EFI.IMG;1` of the root directory that the volume descriptor points
-- to, and through the boot record and the boot catalog.
pub make_iso-IsIso :
    (host : Host) (esp : String) (label : List ℕ) (f : File)
    → make_iso host esp label ≡ ok f
    → (boot_image : Bytes) × (read_logical_image host esp ≡ ok boot_image) × IsIso boot_image f
unfolding make_iso create_iso
make_iso-IsIso host esp label f e₀ =
    let (fits, e₁) =
      refuse-eq-ok (is_empty label || ltb 32 (length label) || not (is_ascii label))
        bad_volume_label _ e₀ in
    let (image, opened, e₂) = bind-eq-ok (read_logical_image host esp) _ e₁ in
    let (_, e₃) =
      refuse-eq-ok (is_empty image || not (length image % 512 == 0)) bad_boot_image _ e₂ in
    let (volume, made, e₄) =
      bind-eq-ok (primary_volume_descriptor (total_sectors_of image) label) _ e₃ in
    let (root, made', e₅) = bind-eq-ok (root_directory (length image)) _ e₄ in
    let v =
      primary_volume_descriptor-IsVolume (total_sectors_of image) label volume
        (ground (arith, fits)) made in
    let r = root_directory-IsRoot (length image) root made' in
    (image, opened, subst (IsIso image) (ok-injective e₅) (written image volume root v r))
