-- ===== src/Qemu/Namespace/Read.antt =====
-- What the checks of `from_namespace` leave.
use rules_ostest.Qemu.Command.{any}
use rules_ostest.Base.Int.{to_ℕ, is_not_positive, to_ℕ_pos}
use rules_ostest.Qemu.Namespace.{
  Namespace, check_boot, check_machine, is_given, raise_forward, read_options_of, copy_vars,
  if_given, vars_path, read_arch, bad_option, named_boot, file_of, vars_made, firmware_dir,
  check_cpu_model, check_graphics, is_set, debugcon_file,
}
use rules_ostest.Forwards.{ForwardError}
use rules_ostest.Text.{Text, codes}
use rules_ostest.Base.{
  ◌<◌, ◌≡◌, refl, sym, ap, ◌∙◌, Bool, true, false, not, ◌&&◌, ◌||◌, Option, none, some, List, [],
  ◌∷◌, is_empty, All, guard, refuse, ok-injective, bind-eq-ok, guard-eq-ok, refuse-eq-ok, Result,
  ok, err,
}
use mathlib.Core.Path.{subst}
use rules_ostest.Qemu.Media.Kept.{or-false, made_path}
use rules_ostest.Qemu.Media.{copied, has_text, Runfiles, Made, option_or, locate}
use rules_ostest.Qemu.{
  uefi, direct_kernel, no_firmware, no_kernel, needs_direct_kernel, bad_counts, bad_machine_option,
  vars_without_firmware, two_firmware_dirs, Boot, ConfigError, Arch, x86_64, aarch64,
}

-- A value is there where its argument is given.
abbrev pub IsGiven : {A : Type 0} → Option Text → Option A → Type 0
IsGiven v o = (is_given v ≡ true → ¬ (o ≡ none)) × (is_given v ≡ false → o ≡ none)

pub if_given-IsGiven :
    {A : Type 0} (v : Option Text) (f : Text → Result ConfigError A) (o : Option A)
    → if_given v f ≡ ok o
    → IsGiven v o
if_given-IsGiven none f o h = (λ e. cc, λ e. sym (ok-injective h))
if_given-IsGiven (some []) f o h = (λ e. cc, λ e. sym (ok-injective h))
if_given-IsGiven {A = A} (some (c ∷ s)) f o h =
    let (x, _, h₁) = bind-eq-ok (f (c ∷ s)) (λ x. ok (some x)) h in
    (λ e k. absurd (not_none x (ok-injective h₁ ∙ k)), λ e. cc)
  where
    not_none : (x : A) → ¬ (some x ≡ none)
    not_none x e = cc

check_machine-fits :
    (ns : Namespace)
    → check_machine ns ≡ ok tt
    → (0 < to_ℕ ns.memory_mb) × (0 < to_ℕ ns.cpus) × (any bad_option ns.machine_options ≡ false)
unfolding check_machine
check_machine-fits ns h =
    let (counts, h₁) =
      refuse-eq-ok (is_not_positive ns.memory_mb || is_not_positive ns.cpus) bad_counts _ h in
    let (memory, cpus) = or-false (is_not_positive ns.memory_mb) (is_not_positive ns.cpus) counts in
    (
      to_ℕ_pos ns.memory_mb memory,
      to_ℕ_pos ns.cpus cpus,
      refused (any bad_option ns.machine_options) h₁,
    )
  where
    refused : (test : Bool) → refuse test bad_machine_option ≡ ok tt → test ≡ false
    refused true k = cc
    refused false k = refl

-- What the way to boot is given.
abbrev pub HasBoot : Boot → Namespace → Type 0
HasBoot uefi ns =
    (is_given ns.firmware ≡ true)
    × (is_given ns.kernel ≡ false)
    × (is_given ns.initrd ≡ false)
    × (ns.kernel_args ≡ [])
HasBoot direct_kernel ns = is_given ns.kernel ≡ true

check_boot-fits : (boot : Boot) (ns : Namespace) → check_boot boot ns ≡ ok tt → HasBoot boot ns
unfolding check_boot
check_boot-fits uefi ns h =
    let (firmware, h₁) = guard-eq-ok (is_given ns.firmware) no_firmware _ h in
    fits (is_given ns.kernel) (is_given ns.initrd) ns.kernel_args firmware h₁
  where
    fits :
        (kernel initrd : Bool) (kernel_args : Text)
        → is_given ns.firmware ≡ true
        → refuse (kernel || initrd || not (is_empty kernel_args)) needs_direct_kernel ≡ ok tt
        → (is_given ns.firmware ≡ true) × (kernel ≡ false) × (initrd ≡ false) × (kernel_args ≡ [])
    fits false false [] f k = (f, refl, refl, refl)
    fits true initrd l f k = cc
    fits false true l f k = cc
    fits false false (c ∷ l) f k = cc
check_boot-fits direct_kernel ns h = guarded (is_given ns.kernel) h
  where
    guarded : (test : Bool) → guard test no_kernel ≡ ok tt → test ≡ true
    guarded true k = refl
    guarded false k = cc

pub record IsRead (ns : Namespace) (options : Arch × Boot × Option Text) : Type 0 where
  pub counts : (0 < to_ℕ ns.memory_mb) × (0 < to_ℕ ns.cpus)
  pub plain : any bad_option ns.machine_options ≡ false
  pub boot : HasBoot options.1 ns
  pub directory : (is_set options.2 && has_text ns.qemu_args (codes "-L")) ≡ false
  pub vars : (is_given ns.firmware_vars && not (is_given ns.firmware)) ≡ false

-- The copy of the variables, where they are given.
pub record AreOwn (file : Text) (given_vars : Bool) (vars : Option (Text × List Made))
    : Type 0 where
  pub path : (path : Text) → vars_path vars ≡ some path → (path ≡ file) × (given_vars ≡ true)
  pub made : All (λ f. made_path f ≡ file) (vars_made vars)

no_vars : (file : Text) → AreOwn file false none
no_vars file = record { path = λ path e. cc; made = tt }

copied_vars : (source file : Text) → AreOwn file true (some (file, copied source file ∷ []))
copied_vars source file = record {
  path = λ path e. (sym (ap (option_or file) e), refl);
  made = (refl, tt);
}

pub debugcon_file-x86_64 :
    (tmpdir : Text) (outputs : Option Text) (instance_name : Text) (wanted : Bool) (arch : Arch)
    (found : Option Text) (path : Text)
    → debugcon_file tmpdir outputs instance_name wanted arch ≡ ok found
    → found ≡ some path
    → arch ≡ x86_64
debugcon_file-x86_64 tmpdir outputs instance_name false arch found path h e =
    absurd (not_there (ok-injective h ∙ e))
  where
    not_there : ¬ (none ≡ some path)
    not_there k = cc
debugcon_file-x86_64 tmpdir outputs instance_name true aarch64 found path h e = cc
debugcon_file-x86_64 tmpdir outputs instance_name true x86_64 found path h e = refl

pub raise_forward-ok :
    {A : Type 0} {m : Result ForwardError A} {x : A} → raise_forward m ≡ ok x → m ≡ ok x
raise_forward-ok {m = ok y} h = ap ok (ok-injective h)
raise_forward-ok {m = err e} h = cc

module _ (r : Runfiles) where
  pub read_options_of-IsRead :
      (ns : Namespace) (options : Arch × Boot × Option Text)
      → read_options_of r ns ≡ ok options
      → IsRead ns options
  unfolding read_options_of
  read_options_of-IsRead ns options h =
      let (arch, _, h₁) = bind-eq-ok (read_arch r ns) _ h in
      let (_, machine, h₂) = bind-eq-ok (check_machine ns) _ h₁ in
      let (boot, _, h₃) = bind-eq-ok (named_boot ns.boot) _ h₂ in
      let (_, booted, h₄) = bind-eq-ok (check_boot boot ns) _ h₃ in
      let (vars, h₅) =
        refuse-eq-ok (is_given ns.firmware_vars && not (is_given ns.firmware)) vars_without_firmware
          _ h₄ in
      let (directory, _, h₆) = bind-eq-ok (if_given ns.qemu_firmware_dir (firmware_dir r)) _ h₅ in
      let (_, _, h₇) = bind-eq-ok (check_cpu_model ns.cpu_model) _ h₆ in
      let (_, _, h₈) = bind-eq-ok (check_graphics ns.graphics_device ns.graphics) _ h₇ in
      let (one_dir, h₉) =
        refuse-eq-ok (is_set directory && has_text ns.qemu_args (codes "-L")) two_firmware_dirs _
          h₈ in
      let (memory, cpus, plain) = check_machine-fits ns machine in
      subst (IsRead ns) (ok-injective h₉) (record {
        counts = (memory, cpus);
        plain = plain;
        boot = check_boot-fits boot ns booted;
        directory = one_dir;
        vars = vars;
      })

  -- The variables are a copy of the test's.
  pub copy_vars-AreOwn :
      (tmpdir instance_name : Text) (v : Option Text) (vars : Option (Text × List Made))
      → if_given v (copy_vars r tmpdir instance_name) ≡ ok vars
      → AreOwn (file_of tmpdir instance_name "uefi-vars.fd") (is_given v) vars
  unfolding copy_vars
  copy_vars-AreOwn tmpdir instance_name none vars h =
      subst (AreOwn _ false) (ok-injective h) (no_vars _)
  copy_vars-AreOwn tmpdir instance_name (some []) vars h =
      subst (AreOwn _ false) (ok-injective h) (no_vars _)
  copy_vars-AreOwn tmpdir instance_name (some (c ∷ s)) vars h =
      let (found, copied_there, h₁) =
        bind-eq-ok (copy_vars r tmpdir instance_name (c ∷ s)) (λ x. ok (some x)) h in
      let (source, _, h₂) = bind-eq-ok (locate r (c ∷ s)) _ copied_there in
      let file = file_of tmpdir instance_name "uefi-vars.fd" in
      subst (AreOwn file true) (ok-injective h₁)
        (subst (λ x. AreOwn file true (some x)) (ok-injective h₂) (copied_vars source file))
