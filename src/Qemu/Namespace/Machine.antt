-- ===== src/Qemu/Namespace/Machine.antt =====
-- The options of `-machine`, as QEMU reads them.
use mathlib.Core.Path.{ap₂}
use rules_ostest.Qemu.Drives.{join_options, qemu_keyval_path}
use rules_ostest.Qemu.Namespace.{bad_option, has_comma}
use rules_ostest.Qemu.{x86_64, aarch64, UefiQemuConfig, Arch}
use rules_ostest.Qemu.Drives.Options.{is_option, read_options, is_plain, escaped-plain, read-joined}
use rules_ostest.Text.{Text}
use rules_ostest.Qemu.Command.{all_machine_options, any, machine_name, gic_version_2}
use rules_ostest.Base.{
  ◌≡◌, refl, sym, ap, ◌∙◌, Bool, true, false, List, [], ◌∷◌, map, arith, if◌then◌else◌, All,
}

-- An option that reads as itself.
IsPlain : Text → Type 0
IsPlain s = (is_option s ≡ true) × (is_plain s ≡ true)

plain-joined :
    (x : Text) (xs : List Text)
    → All IsPlain (x ∷ xs)
    → read_options (join_options (x ∷ xs)) ≡ x ∷ xs
unfolding IsPlain
plain-joined x xs h =
    ap (λ l. read_options (join_options l)) (sym (all-escaped (x ∷ xs) h))
    ∙ read-joined x xs (all-options xs h.1)
  where
    all-escaped : (l : List Text) → All IsPlain l → map qemu_keyval_path l ≡ l
    all-escaped [] k = refl
    all-escaped (o ∷ os) (k, ks) = ap₂ (◌∷◌) (escaped-plain o k.1) (all-escaped os ks)

    all-options : (l : List Text) → All IsPlain l → All (λ s. is_option s ≡ true) l
    all-options [] k = tt
    all-options (o ∷ os) (k, ks) = (k.0, all-options os ks)

good-IsPlain : (s : Text) → bad_option s ≡ false → IsPlain s
unfolding IsPlain
good-IsPlain [] h = cc
good-IsPlain (c ∷ cs) h = (ground arith, plain (c ∷ cs) h)
  where
    plain : (t : Text) → has_comma t ≡ false → is_plain t ≡ true
    plain [] k = refl
    plain (d ∷ ds) k = ground (arith, plain ds)

good-all : (l : List Text) → any bad_option l ≡ false → All IsPlain l
good-all [] h = tt
good-all (s ∷ l) h = (good-IsPlain s (ground arith), good-all l (ground arith))

-- Options without a comma come to the machine as they are.
pub machine-read :
    (c : UefiQemuConfig)
    → any bad_option c.machine_options ≡ false
    → (let options = machine_name c.arch ∷ all_machine_options c in
        read_options (join_options options) ≡ options)
unfolding all_machine_options IsPlain
machine-read c h = plain-joined _ _ (name_plain c.arch, with_gic _)
  where
    name_plain : (arch : Arch) → IsPlain (machine_name arch)
    name_plain x86_64 = (refl, refl)
    name_plain aarch64 = (refl, refl)

    with_gic :
        (test : Bool)
        → All IsPlain (if test then gic_version_2 ∷ c.machine_options else c.machine_options)
    with_gic true = ((refl, refl), good-all c.machine_options h)
    with_gic false = good-all c.machine_options h
