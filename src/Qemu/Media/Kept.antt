-- ===== src/Qemu/Media/Kept.antt =====
-- The media that are resolved: no guest writes to an input of the test.
use rules_ostest.Qemu.Media.Protected.{told-IsProtected, IsProtected}
use rules_ostest.Base.Int.{is_not_positive, pos, ℤ}
use mathlib.Core.Path.{subst}
use rules_ostest.Qemu.Drives.{format_name, is_cdrom}
use rules_ostest.Qemu.Media.{
  Made, scratch_file, unpacked, copied, Runfiles, make_scratch, materialize_image, make_image,
  MediaSpec, locate, option_or, or_raise, check_name, make_medium, resolve_medium, destination_of,
  check_bootindex, read_kind, read_interface, read_format, bootindex_of,
}
use rules_ostest.Qemu.{
  QemuMedia, Interface, ImageFormat, scratch_cdrom, unreadable, missing_field, scratch_format,
  bad_compression, scratch_protected, no_gzip_magic, scratch_size, number, export_protected,
}
use rules_ostest.Text.{Text, codes, same_text, same_text_self}
use rules_ostest.Base.{
  ℕ, ◌≡◌, refl, sym, ap, ◌∙◌, ◌⊎◌, inl, inr, Bool, true, false, not, ◌&&◌, ◌||◌, Option, List, [],
  ◌∷◌, ◌++◌, arith, if◌then◌else◌, All, ok-injective, bind-eq-ok, guard-eq-ok, refuse-eq-ok, ok,
}

abbrev pub made_path : Made → Text
made_path (scratch_file path size) = path
made_path (unpacked source path) = path
made_path (copied source path) = path

-- A medium and the files that are made for it; `own` is the file of the test for it.
pub record IsKept (own : Text) (index : ℕ) (m : QemuMedia) (made : List Made) : Type 0 where
  pub is_protected : IsProtected own index m
  pub export_is_own :
      m.exported ≡ true → (m.readonly ≡ false) × (m.snapshot ≡ false) × (m.path ≡ own)
  pub made_own : All (λ f. made_path f ≡ own) made

-- A path that a guest may write to only where it is `own`.
IsOwn : Text → Bool → Bool → Text × List Made → Type 0
IsOwn own readonly snapshot found =
    ((found.0 ≡ own) ⊎ (readonly ≡ true) ⊎ (snapshot ≡ true)) × All (λ f. made_path f ≡ own) found.1

not_self : ¬ (true ≡ false)
not_self e = cc

All-last : (P : Made → Type 0) (l : List Made) (x : Made) → All P l → P x → All P (l ++ (x ∷ []))
All-last P [] x h p = (p, tt)
All-last P (y ∷ l) x (h, hs) p = (h, All-last P l x hs p)

module _ (r : Runfiles) where
  materialize_image-either :
      (source own compression : Text) (found : Text × List Made)
      → materialize_image r source own compression ≡ ok found
      → ((found.0 ≡ source) ⊎ (found.0 ≡ own)) × All (λ f. made_path f ≡ own) found.1
  unfolding materialize_image
  materialize_image-either source own compression found h =
      let (is_gzip, read, h₁) = bind-eq-ok (or_raise (r.has_gzip_magic source) unreadable) _ h in
      let (known, h₂) =
        guard-eq-ok
          (same_text compression (codes "auto")
            || same_text compression (codes "gzip")
            || same_text compression (codes "none"))
          bad_compression _ h₁ in
      let (good, h₃) =
        refuse-eq-ok (same_text compression (codes "gzip") && not is_gzip) no_gzip_magic _ h₂ in
      chosen (same_text compression (codes "none") || not is_gzip) (ok-injective h₃)
    where
      chosen :
          (test : Bool)
          → (if test then (source, []) else (own, unpacked source own ∷ [])) ≡ found
          → ((found.0 ≡ source) ⊎ (found.0 ≡ own)) × All (λ f. made_path f ≡ own) found.1
      chosen true e =
          (inl (sym (ap (λ p. p.0) e)), subst (λ p. All (λ f. made_path f ≡ own) p.1) e tt)
      chosen false e =
          (inr (sym (ap (λ p. p.0) e)), subst (λ p. All (λ f. made_path f ≡ own) p.1) e (refl, tt))

  -- A writable image that is no copy yet is copied.
  copied-IsOwn :
      (source own : Text) (readonly snapshot : Bool) (found result : Text × List Made)
      → ((found.0 ≡ source) ⊎ (found.0 ≡ own)) × All (λ f. made_path f ≡ own) found.1
      → (if not readonly && not snapshot && same_text found.0 source
          then (own, found.1 ++ (copied source own ∷ []))
          else found)
        ≡ result
      → IsOwn own readonly snapshot result
  unfolding IsOwn
  copied-IsOwn source own readonly snapshot found result (either, made) e =
      by_test readonly snapshot (same_text found.0 source) refl e
    where
      by_test :
          (ro snap same : Bool)
          → same_text found.0 source ≡ same
          → (if not ro && not snap && same
              then (own, found.1 ++ (copied source own ∷ []))
              else found)
            ≡ result
          → IsOwn own ro snap result
      by_test true snap same s k = subst (IsOwn own true snap) k (inr (inl refl), made)
      by_test false true same s k = subst (IsOwn own false true) k (inr (inr refl), made)
      by_test false false true s k =
          subst (IsOwn own false false) k
            (inl refl, All-last (λ f. made_path f ≡ own) found.1 (copied source own) made refl)
      by_test false false false s k = subst (IsOwn own false false) k (elim either [
        | inr e ↦ (inl e, made)
        | inl e ↦
            absurd (not_self (sym (ap (λ t. same_text t source) e ∙ same_text_self source) ∙ s))
      ])

  make_image-IsOwn :
      (spec : MediaSpec) (readonly snapshot : Bool) (own : Text) (found : Text × List Made)
      → make_image r spec readonly snapshot own ≡ ok found
      → IsOwn own readonly snapshot found
  unfolding make_image
  make_image-IsOwn spec readonly snapshot own found h =
      let (value, given_path, h₁) = bind-eq-ok (or_raise spec.path missing_field) _ h in
      let (source, located, h₂) = bind-eq-ok (locate r value) _ h₁ in
      let (first, materialized, h₃) =
        bind-eq-ok (materialize_image r source own (option_or (codes "auto") spec.compression)) _
          h₂ in
      copied-IsOwn source own readonly snapshot first found
        (materialize_image-either source own (option_or (codes "auto") spec.compression) first
          materialized)
        (ok-injective h₃)

make_scratch-IsOwn :
    (spec : MediaSpec) (interface : Interface) (image_format : ImageFormat)
    (readonly snapshot : Bool) (own : Text) (found : Text × List Made)
    → make_scratch spec interface image_format readonly snapshot own ≡ ok found
    → IsOwn own readonly snapshot found
unfolding make_scratch IsOwn
make_scratch-IsOwn spec interface image_format readonly snapshot own found h =
    let (no_disc, h₁) = refuse-eq-ok (is_cdrom interface) scratch_cdrom _ h in
    let (raw, h₂) =
      guard-eq-ok (same_text (format_name image_format) (codes "raw")) scratch_format _ h₁ in
    let (writable, h₃) = refuse-eq-ok (readonly || snapshot) scratch_protected _ h₂ in
    let (sized, h₄) =
      refuse-eq-ok (is_not_positive (option_or (pos 0) spec.size_mb)) scratch_size _ h₃ in
    subst (IsOwn own readonly snapshot) (ok-injective h₄) (inl refl, (refl, tt))

-- What a round leaves of one object.
pub record IsResolved (own : Text) (index : ℕ) (used : List ℕ) (names : List Text)
    (found : QemuMedia × List Made) : Type 0 where
  pub kept : IsKept own index found.0 found.1
  pub new_name : check_name names found.0.name ≡ ok tt
  pub new_bootindex : (wanted : Option ℤ) × (check_bootindex used wanted ≡ ok found.0.bootindex)

pub or-false : (a b : Bool) → (a || b) ≡ false → (a ≡ false) × (b ≡ false)
or-false a b h = ground arith

exported-own :
    (own : Text) (exported readonly snapshot : Bool) (found : Text × List Made)
    → IsOwn own readonly snapshot found
    → (exported && (readonly || snapshot)) ≡ false
    → exported ≡ true
    → (readonly ≡ false) × (snapshot ≡ false) × (found.0 ≡ own)
unfolding IsOwn
exported-own own true readonly snapshot found o h e =
    let (ro, snap) = or-false readonly snapshot h in
    (ro, snap, elim o.0 [ inl p ↦ p | inr (inl k) ↦ cc | inr (inr k) ↦ cc ])
exported-own own false readonly snapshot found o h e = cc

module _ (r : Runfiles) (tmpdir instance_name : Text) where
  make_medium-IsOwn :
      (scratch : Bool) (spec : MediaSpec) (interface : Interface) (image_format : ImageFormat)
      (readonly snapshot : Bool) (own : Text) (found : Text × List Made)
      → make_medium r scratch spec interface image_format readonly snapshot own ≡ ok found
      → IsOwn own readonly snapshot found
  unfolding make_medium
  make_medium-IsOwn true spec interface image_format readonly snapshot own found h =
      make_scratch-IsOwn spec interface image_format readonly snapshot own found h
  make_medium-IsOwn false spec interface image_format readonly snapshot own found h =
      make_image-IsOwn r spec readonly snapshot own found h

  pub resolve_medium-IsResolved :
      (index : ℕ) (used : List ℕ) (names : List Text) (spec : MediaSpec)
      (found : QemuMedia × List Made)
      → resolve_medium r tmpdir instance_name index used names spec ≡ ok found
      → IsResolved
          (destination_of tmpdir instance_name found.0.interface index)
          index
          used
          names
          found
  unfolding resolve_medium IsOwn
  resolve_medium-IsResolved index used names spec found h =
      let (scratch, _, h₁) = bind-eq-ok (read_kind (option_or (codes "image") spec.kind)) _ h in
      let (interface_name, _, h₂) = bind-eq-ok (or_raise spec.interface missing_field) _ h₁ in
      let (interface, _, h₃) = bind-eq-ok (read_interface interface_name) _ h₂ in
      let (image_format, _, h₄) =
        bind-eq-ok (read_format (option_or (codes "raw") spec.image_format)) _ h₃ in
      let wanted = bootindex_of scratch index spec.bootindex in
      let (bootindex, checked, h₅) = bind-eq-ok (check_bootindex used wanted) _ h₄ in
      let name = option_or (codes "media" ++ number index) spec.name in
      let (unit, named, h₆) = bind-eq-ok (check_name names name) _ h₅ in
      let readonly = option_or (not scratch && is_cdrom interface) spec.readonly in
      let snapshot = option_or (not scratch && not (is_cdrom interface)) spec.snapshot in
      let exported = option_or false spec.exported in
      let own = destination_of tmpdir instance_name interface index in
      let (file, made, h₇) =
        bind-eq-ok (make_medium r scratch spec interface image_format readonly snapshot own) _ h₆ in
      let (fits, h₈) = refuse-eq-ok (exported && (readonly || snapshot)) export_protected _ h₇ in
      let o =
        make_medium-IsOwn scratch spec interface image_format readonly snapshot own file made in
      subst
        (λ f.
          IsResolved (destination_of tmpdir instance_name f.0.interface index) index used names f)
        (ok-injective h₈)
        (record {
          kept = record {
            is_protected = told-IsProtected own index _ o.0;
            export_is_own = exported-own own exported readonly snapshot file o fits;
            made_own = o.1;
          };
          new_name = named;
          new_bootindex = (wanted, checked);
        })
