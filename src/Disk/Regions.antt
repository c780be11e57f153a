-- ===== src/Disk/Regions.antt =====
-- The patched boot sectors of an image, and `_patch_fat_hidden_sectors`.
use rules_ostest.Base.{
  ℕ, ◌+◌, ◌-◌, ◌*◌, ◌^◌, ◌≤◌, ◌<◌, min, ◌≡◌, sym, ap, ◌∙◌, ◌⊎◌, inl, inr, ◌&&◌, Option, none, some,
  arith, ◌==◌, if◌then◌else◌, ==_iff, Bool-cases, length, get_or, ok-injective, bind-eq-ok,
  guard-eq-ok, ok,
}
use rules_ostest.Bytes.{to_le, from_le, slice, overlay, pack_le}
use rules_ostest.Bytes.Overlay.{pack_le-eq-ok, length-slice}
use rules_ostest.Bytes.Slices.{field-slice}
use rules_ostest.Files.{File, write, seek, read}
use rules_ostest.Disk.{
  u16_at, patch_fat_hidden_sectors, patch_backup, no_boot_signature, no_512_byte_sectors,
  struct_error, Error, or_raise,
}

-- The number of the backup boot sector that a FAT boot sector at `at` names.
abbrev pub backup_of : (ℕ → ℕ) → ℕ → ℕ
backup_of byte at = from_le (slice byte (at + 50) 2)

-- A FAT volume at `at`, with `start` in the hidden-sectors field of its boot sector and of the
-- backup that the boot sector names.
unfoldable pub patched : ℕ → ℕ → (ℕ → ℕ) → ℕ → ℕ
patched start at byte =
    let first = overlay (at + 28) (to_le 4 start) byte in
    let both = overlay (at + backup_of byte at * 512 + 28) (to_le 4 start) first in
    if backup_of byte at == 0 then first else both

pub record Patch (f f' : File) (at size start : ℕ) : Type 0 where
  pub has_boot : at + 512 ≤ f.size
  pub fits : start < 2 ^ 32
  pub backup_fits : (backup_of f.byte at ≡ 0) ⊎ ((backup_of f.byte at + 1) * 512 ≤ size)
  pub bytes : (i : ℕ) → f'.byte i ≡ patched start at f.byte i
  pub size_grows : at + size ≤ f.size → f'.size ≡ f.size

u16_at-boot :
    (f : File) (at o : ℕ)
    → o + 2 ≤ 512
    → length (read 512 (seek at f)).0 ≡ 512
    → u16_at (read 512 (seek at f)).0 o ≡ from_le (slice f.byte (at + o) 2)
u16_at-boot f at o h e =
    let e' = sym (length-slice f.byte at (min 512 (f.size - at))) ∙ e in
    ap from_le (field-slice f.byte at (min 512 (f.size - at)) o 2 (omega arith))

-- The last step, once the boot sector has been checked: `b` is the sector that it names.
patch_backup-Patch :
    (f f' : File) (at size start b : ℕ)
    → at + 512 ≤ f.size
    → start < 2 ^ 32
    → b ≡ backup_of f.byte at
    → patch_backup
        (write (to_le 4 start) (seek (at + 28) (read 512 (seek at f)).1))
        at
        size
        b
        (to_le 4 start)
      ≡ ok f'
    → Patch f f' at size start
unfolding patch_backup write patched
patch_backup-Patch f f' at size start b room fits e h = elim (Bool-cases (b == 0)) [
  | inl z ↦ record {
    has_boot = room;
    fits = fits;
    backup_fits = ground arith;
    bytes = λ i. ground arith;
    size_grows = λ r. ground arith;
  }
  | inr nz ↦ record {
    has_boot = room;
    fits = fits;
    backup_fits = ground arith;
    bytes = λ i. ground arith;
    size_grows = λ r. ground arith;
  }
]

pub patch_fat_hidden_sectors-Patch :
    (f f' : File) (at size start : ℕ)
    → patch_fat_hidden_sectors f at size start ≡ ok f'
    → Patch f f' at size start
unfolding patch_fat_hidden_sectors
patch_fat_hidden_sectors-Patch f f' at size start h =
    let boot = (read 512 (seek at f)).0 in
    let (sized, h₁) = guard-eq-ok (length boot == 512) no_boot_signature _ h in
    let (signed, h₂) =
      guard-eq-ok (get_or boot 510 0 == 0x55 && get_or boot 511 0 == 0xaa) no_boot_signature _ h₁ in
    let (sectors, h₃) = guard-eq-ok (u16_at boot 11 == 512) no_512_byte_sectors _ h₂ in
    let (packed, p, h₄) = bind-eq-ok (pack_le struct_error 4 start) _ h₃ in
    let (fits, same) = pack_le-eq-ok struct_error 4 start packed p in
    let full = (==_iff (length boot) 512).0 sized in
    patch_backup-Patch f f' at size start (u16_at boot 50)
      (omega (arith, full, length-slice f.byte at (min 512 (f.size - at)))) fits
      (u16_at-boot f at 50 (omega arith) full) (rw same at h₄)

pub or_raise-eq-ok {ℓ} :
    {A : Type ℓ} (e : Error) (o : Option A) (a : A) → or_raise e o ≡ ok a → o ≡ some a
or_raise-eq-ok e none a h = cc
or_raise-eq-ok e (some b) a h = ap some (ok-injective h)
