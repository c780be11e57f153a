-- ===== src/Disk/Place.antt =====
-- `place`: the region of one partition and the rest of the disk.
use rules_ostest.Files.Laws.{copy-eq-write}
use mathlib.Core.Path.{subst}
use rules_ostest.Disk.{place, copy_file, Host, Compression, open_image}
use native.Mathlib.Nat.{zero-add}
use rules_ostest.Base.{
  ℕ, ◌+◌, ◌*◌, ◌≤◌, ◌<◌, String, ◌≡◌, refl, sym, ap, ◌∙◌, ◌⊎◌, inl, inr, Bool, true, false, arith,
  ◌==◌, Bool-cases, length, get_or, ok-injective, ok,
}
use rules_ostest.Bytes.{Bytes, slice, overlay, to_le}
use rules_ostest.Bytes.Overlay.{overlay_outside, overlay_inside}
use rules_ostest.Bytes.Slices.{slice-overlay_self, slice_ext}
use rules_ostest.Files.{File, write, seek, copy}
use rules_ostest.Disk.Regions.{patch_fat_hidden_sectors-Patch, patched, backup_of, Patch}

-- What the region of a partition is to hold: the image, or the image with `start` in its
-- hidden-sectors fields.
abbrev pub embedded : ℕ → Bool → Bytes → Bytes
embedded start false image = image
embedded start true image = slice (patched start 0 (λ i. get_or image i 0)) 0 (length image)

pub record Placed (image : Bytes) (start : ℕ) (patch : Bool) (f f' : File) : Type 0 where
  pub outside :
      (i : ℕ) → (i < start * 512) ⊎ (start * 512 + length image ≤ i) → f'.byte i ≡ f.byte i
  pub inside : slice f'.byte (start * 512) (length image) ≡ embedded start patch image
  pub size_kept : start * 512 + length image ≤ f.size → f'.size ≡ f.size

overlay_shift :
    (at a s : ℕ) (bs : Bytes) (byte g : ℕ → ℕ) (i : ℕ)
    → a ≡ at + s
    → byte (at + i) ≡ g i
    → overlay a bs byte (at + i) ≡ overlay s bs g i
unfolding overlay
overlay_shift at a s bs byte g i h e = ground arith

backup_of_shift :
    (at n : ℕ) (byte g : ℕ → ℕ)
    → 52 ≤ n
    → ((i : ℕ) → i < n → byte (at + i) ≡ g i)
    → backup_of byte at ≡ backup_of g 0
backup_of_shift at n byte g big e =
    let next : byte (at + 50 + 1) ≡ byte (at + 51) = ap byte (omega arith) in
    cc (e 50 (omega arith), next, e 51 (omega arith))

-- Patching commutes with moving a volume to its place on the disk.
patched_shift :
    (start at n : ℕ) (byte g : ℕ → ℕ)
    → 52 ≤ n
    → ((i : ℕ) → i < n → byte (at + i) ≡ g i)
    → (i : ℕ) → i < n
    → patched start at byte (at + i) ≡ patched start 0 g i
unfolding patched
patched_shift start at n byte g big e i p = elim (Bool-cases (backup_of g 0 == 0)) [
  | inl z ↦ rw (b, z) (overlay_shift at (at + 28) 28 (to_le 4 start) byte g i refl (e i p))
  | inr nz ↦
      rw (b, nz)
        (overlay_shift at _ _ (to_le 4 start) _ _ i (omega arith)
          (overlay_shift at (at + 28) 28 (to_le 4 start) byte g i refl (e i p)))
]
  where
    b : backup_of byte at ≡ backup_of g 0
    b = backup_of_shift at n byte g big e

-- Nothing outside the volume changes.
patched_outside :
    (start at n : ℕ) (byte : ℕ → ℕ) (i : ℕ)
    → 512 ≤ n
    → (backup_of byte at ≡ 0) ⊎ ((backup_of byte at + 1) * 512 ≤ n)
    → (i < at) ⊎ (at + n ≤ i)
    → patched start at byte i ≡ byte i
unfolding patched
patched_outside start at n byte i big fits out = ground (
  arith,
  overlay_outside (at + 28) (to_le 4 start) byte i,
  overlay_outside (at + backup_of byte at * 512 + 28) (to_le 4 start)
      (overlay (at + 28) (to_le 4 start) byte) i,
)

write-Placed :
    (image : Bytes) (start : ℕ) (f : File)
    → 0 < length image
    → Placed image start false f (write image (seek (start * 512) f))
unfolding write
write-Placed image start f p = record {
  outside = λ i h. overlay_outside (start * 512) image f.byte i h;
  inside = slice-overlay_self (start * 512) image f.byte;
  size_kept = λ h. ground arith;
}

image_bytes :
    (image : Bytes) (start : ℕ) (f : File) (i : ℕ)
    → i < length image
    → (write image (seek (start * 512) f)).byte (start * 512 + i) ≡ get_or image i 0
unfolding write
image_bytes image start f i p = overlay_inside (start * 512) image f.byte i p

place_patched-Placed :
    (image : Bytes) (start : ℕ) (f f' : File)
    → 512 ≤ length image
    → Patch (write image (seek (start * 512) f)) f' (start * 512) (length image) start
    → Placed image start true f f'
place_patched-Placed image start f f' big h =
    let written = write image (seek (start * 512) f) in
    let raw = write-Placed image start f (omega arith) in
    record {
      outside = λ i out.
          h.bytes i
          ∙ patched_outside start (start * 512) (length image) written.byte i big h.backup_fits out
          ∙ raw.outside i out;
      inside = slice_ext f'.byte _ (start * 512) 0 (length image) (λ i p.
          h.bytes (start * 512 + i)
          ∙ patched_shift start (start * 512) (length image) written.byte _ (omega arith)
              (image_bytes image start f) i p
          ∙ ap (patched start 0 (λ j. get_or image j 0)) (sym (zero-add i)));
      size_kept = λ r. h.size_grows (rw (raw.size_kept r) r) ∙ raw.size_kept r;
    }

-- A call of `place` that succeeds has put the image, patched if asked for, in its region.
pub place-Placed :
    (host : Host) (source : String) (c : Compression) (size start : ℕ) (patch : Bool)
    (image : Bytes) (f f' : File)
    → open_image host source c ≡ ok image
    → length image ≡ size
    → 512 ≤ size
    → place host source c size start patch f ≡ ok f'
    → Placed image start patch f f'
unfolding place copy_file
place-Placed host source c size start false image f f' opened len big h =
    let copied : copy image (seek (start * 512) f) ≡ f' = ok-injective (rw opened at h) in
    subst (Placed image start false f) (sym (copy-eq-write image _) ∙ copied)
      (write-Placed image start f (omega arith))
place-Placed host source c size start true image f f' opened len big h =
    place_patched-Placed image start f f' (omega arith) (
      rw len (
        patch_fat_hidden_sectors-Patch (write image (seek (start * 512) f)) f' (start * 512) size
          start (rw copy-eq-write at (rw opened at h))))
