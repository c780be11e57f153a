-- ===== src/Qemu/Media/Protected.antt =====
-- The drives that a guest may not write to.
use rules_ostest.Qemu.Drives.{
  drive_id, join_options, drive_options, format_name, drive_flags, flag, is_cdrom,
}
use rules_ostest.Qemu.Media.{has_text}
use rules_ostest.Qemu.Drives.Options.{read_options, drive_options-read}
use rules_ostest.Text.{Text, codes}
use rules_ostest.Qemu.{QemuMedia}
use rules_ostest.Base.{
  ℕ, ◌≡◌, refl, ap, ◌∙◌, ◌⊎◌, inl, inr, Bool, true, false, not, ◌&&◌, List, [], ◌∷◌, ◌++◌, arith,
}

has_text-append : (a b : List Text) (s : Text) → has_text b s ≡ true → has_text (a ++ b) s ≡ true
has_text-append [] b s h = h
has_text-append (x ∷ a) b s h = ground (arith, has_text-append a b s h)

has_text-front : (a b : List Text) (s : Text) → has_text a s ≡ true → has_text (a ++ b) s ≡ true
has_text-front [] b s h = cc
has_text-front (x ∷ a) b s h = ground (arith, has_text-front a b s)

-- A medium that is read-only or a snapshot has the option for it.
flags-protect :
    (m : QemuMedia)
    → (m.readonly ≡ true) ⊎ (m.snapshot ≡ true)
    → (has_text (drive_flags m) (codes "readonly=on") ≡ true)
      ⊎ (has_text (drive_flags m) (codes "snapshot=on") ≡ true)
flags-protect m h = flagged (is_cdrom m.interface) m.readonly m.snapshot h
  where
    flagged :
        (disc readonly snapshot : Bool)
        → (readonly ≡ true) ⊎ (snapshot ≡ true)
        → (let flags =
              flag disc (codes "media=cdrom")
              ++ (flag readonly (codes "readonly=on")
                  ++ flag (snapshot && not readonly) (codes "snapshot=on")) in
            (has_text flags (codes "readonly=on") ≡ true)
            ⊎ (has_text flags (codes "snapshot=on") ≡ true))
    flagged true true snapshot k = inl refl
    flagged false true snapshot k = inl refl
    flagged true false true k = inr refl
    flagged false false true k = inr refl
    flagged disc false false (inl k) = cc
    flagged disc false false (inr k) = cc

-- Its drive, as QEMU reads it, has the file of the test, or is read-only, or is a snapshot.
abbrev pub IsProtected : Text → ℕ → QemuMedia → Type 0
IsProtected own index m =
    let options = read_options (join_options (drive_options index m)) in
    (m.path ≡ own)
    ⊎ (has_text options (codes "readonly=on") ≡ true)
    ⊎ (has_text options (codes "snapshot=on") ≡ true)

pub told-IsProtected :
    (own : Text) (index : ℕ) (m : QemuMedia)
    → (m.path ≡ own) ⊎ (m.readonly ≡ true) ⊎ (m.snapshot ≡ true)
    → IsProtected own index m
told-IsProtected own index m (inl e) = inl e
told-IsProtected own index m (inr h) =
    let front =
      codes "if=none"
      ∷ (codes "id=" ++ drive_id index)
      ∷ (codes "format=" ++ format_name m.image_format)
      ∷ (codes "file=" ++ m.path)
      ∷ [] in
    let read = drive_options-read index m in
    elim (flags-protect m h) [
      | inl k ↦ inr (
          inl (
            ap (λ l. has_text l (codes "readonly=on")) read
            ∙ has_text-append front (drive_flags m) _ k))
      | inr k ↦ inr (
          inr (
            ap (λ l. has_text l (codes "snapshot=on")) read
            ∙ has_text-append front (drive_flags m) _ k))
    ]
