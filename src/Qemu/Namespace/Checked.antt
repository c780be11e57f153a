-- ===== src/Qemu/Namespace/Checked.antt =====
-- The configurations that are accepted.
use rules_ostest.Qemu.Namespace.Read.{
  HasBoot, read_options_of-IsRead, IsRead, IsGiven, AreOwn, raise_forward-ok, copy_vars-AreOwn,
  if_given-IsGiven, debugcon_file-x86_64,
}
use rules_ostest.Qemu.Requests.Apart.{take_requests-ArePairwiseApart}
use rules_ostest.Qemu.Requests.{take_requests}
use rules_ostest.Qemu.Namespace.Machine.{machine-read}
use rules_ostest.Forwards.{HostForward}
use mathlib.Core.Path.{subst}
use rules_ostest.Qemu.Drives.{join_options}
use rules_ostest.Qemu.Drives.Options.{read_options}
use rules_ostest.Qemu.Command.{machine_name, all_machine_options}
use rules_ostest.Qemu.Media.{Made, Runfiles, locate, resolve_media}
use rules_ostest.Qemu.Namespace.{
  Namespace, if_given, is_given, file_of, read_options_of, copy_vars, vars_path, vars_made,
  raise_forward, config_of, from_namespace, media_specs, debugcon_file, is_set,
}
use rules_ostest.Text.{Text, codes}
use rules_ostest.Base.{
  ◌<◌, ◌≡◌, refl, ◌∙◌, ◌⊎◌, inl, inr, Bool, true, false, not, ◌&&◌, Option, none, some, List, [],
  ◌∷◌, ◌++◌, arith, All, ok-injective, bind-eq-ok, ok,
}
use rules_ostest.Forwards.Parsed
use rules_ostest.Forwards.Parsed.{IsForward}
use rules_ostest.Qemu.Media.Kept.{made_path}
use rules_ostest.Qemu.Media.{has_text}
use rules_ostest.Qemu.{x86_64, uefi, direct_kernel, Boot, UefiQemuConfig, Arch, QemuMedia}
use rules_ostest.Qemu.Media.Distinct.{AreKept, ArePairwiseApart, IsOwnFile, resolve_media-AreKept}

-- What the way to boot has.
abbrev pub IsBootable : Boot → UefiQemuConfig → Type 0
IsBootable uefi c =
    ¬ (c.firmware ≡ none) × (c.kernel ≡ none) × (c.initrd ≡ none) × (c.kernel_args ≡ [])
IsBootable direct_kernel c = ¬ (c.kernel ≡ none)

-- A configuration and the files that are made for it.
pub record IsConfig (tmpdir instance_name : Text) (c : UefiQemuConfig) (made : List Made)
    : Type 0 where
  pub counts : (0 < c.memory_mb) × (0 < c.cpus)
  pub machine :
      read_options (join_options (machine_name c.arch ∷ all_machine_options c))
      ≡ machine_name c.arch ∷ all_machine_options c
  pub bootable : IsBootable c.boot c
  pub vars :
      (path : Text)
      → c.firmware_vars ≡ some path
      → (path ≡ file_of tmpdir instance_name "uefi-vars.fd") × ¬ (c.firmware ≡ none)
  pub debugcon : (path : Text) → c.debugcon_path ≡ some path → c.arch ≡ x86_64
  pub directory : is_set c.qemu_firmware_dir ≡ true → has_text c.qemu_args (codes "-L") ≡ false
  pub media : AreKept tmpdir instance_name 0 c.media × ArePairwiseApart c.media
  pub forwards : All IsForward c.hostfwd × Parsed.ArePairwiseApart c.hostfwd
  pub own :
      All
        (λ f.
          IsOwnFile tmpdir instance_name f
          ⊎ (made_path f ≡ file_of tmpdir instance_name "uefi-vars.fd"))
        made

HasBoot-IsBootable :
    (boot : Boot) (ns : Namespace) (c : UefiQemuConfig)
    → HasBoot boot ns
    → IsGiven ns.firmware c.firmware
    → IsGiven ns.kernel c.kernel
    → IsGiven ns.initrd c.initrd
    → c.kernel_args ≡ ns.kernel_args
    → IsBootable boot c
HasBoot-IsBootable uefi ns c (firmware, kernel, initrd, no_args) f k i e =
    (f.0 firmware, k.1 kernel, i.1 initrd, e ∙ no_args)
HasBoot-IsBootable direct_kernel ns c kernel f k i e = k.0 kernel

one_dir : (a b : Bool) → a ≡ true → (a && b) ≡ false → b ≡ false
one_dir a b h k = ground arith

firmware_needed :
    (vars firmware : Bool) → vars ≡ true → (vars && not firmware) ≡ false → firmware ≡ true
firmware_needed vars firmware h k = ground arith

All-both :
    {A : Type 0} (P Q : A → Type 0) (l m : List A)
    → All P l
    → All Q m
    → All (λ x. P x ⊎ Q x) (l ++ m)
All-both P Q [] [] h k = tt
All-both P Q [] (y ∷ m) h (k, ks) = (inr k, All-both P Q [] m tt ks)
All-both P Q (x ∷ l) m (h, hs) k = (inl h, All-both P Q l m hs k)

-- What the steps in front of `cls` leave makes a configuration.
config_of-IsConfig :
    (tmpdir instance_name : Text) (ns : Namespace) (options : Arch × Boot × Option Text)
    (media : List QemuMedia) (made : List Made) (hostfwd : List HostForward)
    (vars : Option (Text × List Made)) (debugcon_path : Option Text) (qemu : Text)
    (firmware kernel initrd : Option Text)
    → IsRead ns options
    → AreKept tmpdir instance_name 0 media
      × ArePairwiseApart media
      × All (IsOwnFile tmpdir instance_name) made
    → All IsForward hostfwd × Parsed.ArePairwiseApart hostfwd
    → AreOwn (file_of tmpdir instance_name "uefi-vars.fd") (is_given ns.firmware_vars) vars
    → ((path : Text) → debugcon_path ≡ some path → options.0 ≡ x86_64)
    → IsGiven ns.firmware firmware
    → IsGiven ns.kernel kernel
    → IsGiven ns.initrd initrd
    → IsConfig tmpdir instance_name
        (config_of instance_name ns options media hostfwd
          (vars_path vars)
          debugcon_path
          qemu
          firmware
          kernel
          initrd)
        (made ++ vars_made vars)
unfolding config_of
config_of-IsConfig tmpdir instance_name ns (arch, boot, directory) media made hostfwd vars
      debugcon_path qemu firmware kernel initrd v (kept, apart, files) forwards own debugcon f k i =
    record {
      counts = v.counts;
      machine = machine-read _ v.plain;
      bootable = HasBoot-IsBootable boot ns _ v.boot f k i refl;
      vars = λ path e.
          let (same, has_vars) = own.path path e in
          (same, f.0 (firmware_needed _ _ has_vars v.vars));
      debugcon = debugcon;
      directory = λ e. one_dir _ _ e v.directory;
      media = (kept, apart);
      forwards = forwards;
      own = All-both _ _ made (vars_made vars) files own.made;
    }

module _ (r : Runfiles) where
  -- A configuration that `from_namespace` accepts has memory and a CPU; its `-machine` argument,
  -- read by QEMU's syntax of options, is the name of the machine and the options of
  -- `all_machine_options`, none of them split; it has firmware and no kernel, initrd or kernel
  -- arguments, or else, for a direct boot, a kernel; writable variables are the file of the test
  -- for them, and there is firmware with them; a debug console is only on x86_64; with a firmware
  -- directory there is no `-L` among the QEMU arguments; its media are as `resolve_media-AreKept`
  -- says; its forwards have proper names and ports from 1 to 65535, and no two share a name, a
  -- guest endpoint or a static host endpoint; and only files of the test are made, for media or
  -- for the variables.
  pub from_namespace-IsConfig :
      (tmpdir : Text) (outputs : Option Text) (instance_name : Text) (ns : Namespace)
      (c : UefiQemuConfig) (made : List Made)
      → from_namespace r tmpdir outputs instance_name ns ≡ ok (c, made)
      → IsConfig tmpdir instance_name c made
  unfolding from_namespace
  from_namespace-IsConfig tmpdir outputs instance_name ns c made h =
      let (options, read, h₁) = bind-eq-ok (read_options_of r ns) _ h in
      let (media, resolved, h₂) =
        bind-eq-ok (resolve_media r tmpdir instance_name 0 [] [] (media_specs ns)) _ h₁ in
      let (hostfwd, taken, h₃) =
        bind-eq-ok (raise_forward (take_requests [] [] [] 0 ns.hostfwd)) _ h₂ in
      let (vars, copied_there, h₄) =
        bind-eq-ok (if_given ns.firmware_vars (copy_vars r tmpdir instance_name)) _ h₃ in
      let (debugcon, found_file, h₅) =
        bind-eq-ok (debugcon_file tmpdir outputs instance_name ns.debugcon options.0) _ h₄ in
      let (qemu, _, h₆) = bind-eq-ok (locate r ns.qemu) _ h₅ in
      let (firmware, has_firmware, h₇) = bind-eq-ok (if_given ns.firmware (locate r)) _ h₆ in
      let (kernel, has_kernel, h₈) = bind-eq-ok (if_given ns.kernel (locate r)) _ h₇ in
      let (initrd, has_initrd, h₉) = bind-eq-ok (if_given ns.initrd (locate r)) _ h₈ in
      subst (λ p. IsConfig tmpdir instance_name p.0 p.1) (ok-injective h₉)
        (config_of-IsConfig tmpdir instance_name ns options media.0 media.1 hostfwd vars debugcon
          qemu firmware kernel initrd (read_options_of-IsRead r ns options read)
          (resolve_media-AreKept r tmpdir instance_name (media_specs ns) media.0 media.1 resolved)
          (take_requests-ArePairwiseApart ns.hostfwd hostfwd (raise_forward-ok taken))
          (copy_vars-AreOwn r tmpdir instance_name ns.firmware_vars vars copied_there)
          (λ path e.
            debugcon_file-x86_64 tmpdir outputs instance_name ns.debugcon options.0 debugcon path
              found_file e)
          (if_given-IsGiven ns.firmware (locate r) firmware has_firmware)
          (if_given-IsGiven ns.kernel (locate r) kernel has_kernel)
          (if_given-IsGiven ns.initrd (locate r) initrd has_initrd))
