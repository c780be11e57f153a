-- ===== src/Qemu/Namespace.antt =====
-- `UefiQemuConfig.from_namespace`: from the arguments of a test to the configuration.
pub mod Checked
pub mod Machine
pub mod Read
pub mod Started
use rules_ostest.Qemu.Command.{any}
use rules_ostest.Base.Int.{ℤ, pos, is_not_positive, to_ℕ}
use rules_ostest.Qemu.Requests.{take_requests, ForwardSpec}
use rules_ostest.Forwards.{ForwardError, HostForward}
use rules_ostest.Text.{Text, same_text, codes}
use rules_ostest.Base.{
  String, Bool, true, false, not, ◌&&◌, ◌||◌, Option, none, some, List, [], ◌∷◌, ◌++◌, ◌==◌,
  if◌then◌else◌, is_empty, ◌>>=◌, ◌>>◌, guard, refuse, Result, ok, err,
}
use rules_ostest.Qemu.{
  uefi, direct_kernel, x86_64, aarch64, bad_forward, unreadable, bad_arch, bad_counts,
  bad_machine_option, bad_boot, no_firmware, no_kernel, needs_direct_kernel, vars_without_firmware,
  no_marker_file, bad_cpu_model, empty_graphics_device, no_graphics, two_firmware_dirs,
  debugcon_only_x86, ConfigError, Boot, Arch, UefiQemuConfig, QemuMedia,
}
use rules_ostest.Qemu.Media.{
  copied, given, has_text, Runfiles, MediaSpec, locate, resolve_media, Made, option_or, or_raise,
}

-- The arguments, with the JSON of media and host forwards decoded.
pub record Namespace : Type 0 where
  pub arch : Option Text
  pub arch_file : Option Text
  pub qemu : Text
  pub qemu_firmware_dir : Option Text
  pub firmware : Option Text
  pub firmware_vars : Option Text
  pub boot : Text
  pub kernel : Option Text
  pub initrd : Option Text
  pub kernel_args : Text
  pub disk : Option Text
  pub media : List MediaSpec
  pub hostfwd : List (Option ForwardSpec)
  pub memory_mb : ℤ
  pub cpus : ℤ
  pub require_kvm : Bool
  pub debugcon : Bool
  pub gdb : Bool
  pub pause_at_start : Bool
  pub allow_reboot : Bool
  pub cpu_model : Option Text
  pub graphics : Bool
  pub graphics_device : Option Text
  pub machine_options : List Text
  pub qemu_args : List Text

-- The truth of an optional text.
abbrev pub is_given : Option Text → Bool
is_given none = false
is_given (some s) = not (is_empty s)

-- A call on an argument that is given.
abbrev pub if_given :
    {A : Type 0} → Option Text → (Text → Result ConfigError A) → Result ConfigError (Option A)
if_given none f = ok none
if_given (some []) f = ok none
if_given (some (c ∷ s)) f = do x ← f (c ∷ s); ok (some x)

abbrev pub has_comma : Text → Bool
has_comma [] = false
has_comma (c ∷ cs) = (c == 0x2c) || has_comma cs

abbrev pub named_arch : Option Text → Result ConfigError Arch
named_arch none = err bad_arch
named_arch (some s) =
    if same_text s (codes "x86_64")
    then ok x86_64
    else if same_text s (codes "aarch64")
    then ok aarch64
    else err bad_arch

abbrev pub named_boot : Text → Result ConfigError Boot
named_boot s =
    if same_text s (codes "uefi")
    then ok uefi
    else if same_text s (codes "direct-kernel")
    then ok direct_kernel
    else err bad_boot

abbrev pub bad_option : Text → Bool
bad_option s = is_empty s || has_comma s

unfoldable pub check_machine : Namespace → Result ConfigError (Unit {0})
check_machine ns = do
  refuse (is_not_positive ns.memory_mb || is_not_positive ns.cpus) bad_counts
  refuse (any bad_option ns.machine_options) bad_machine_option

-- What the way to boot needs.
unfoldable pub check_boot : Boot → Namespace → Result ConfigError (Unit {0})
check_boot uefi ns = do
  guard (is_given ns.firmware) no_firmware
  refuse (is_given ns.kernel || is_given ns.initrd || not (is_empty ns.kernel_args))
      needs_direct_kernel
check_boot direct_kernel ns = guard (is_given ns.kernel) no_kernel

abbrev pub check_cpu_model : Option Text → Result ConfigError (Unit {0})
check_cpu_model none = ok tt
check_cpu_model (some model) = refuse (bad_option model) bad_cpu_model

abbrev pub check_graphics : Option Text → Bool → Result ConfigError (Unit {0})
check_graphics none graphics = ok tt
check_graphics (some device) graphics = do
  refuse (is_empty device) empty_graphics_device
  guard graphics no_graphics

abbrev pub is_set : Option Text → Bool
is_set none = false
is_set (some s) = true

-- The disk in front of the other media.
abbrev pub media_specs : Namespace → List MediaSpec
media_specs ns = elim (is_given ns.disk) [
  | false ↦ ns.media
  | true ↦
      record {
        kind = none;
        interface = some (codes "virtio-blk");
        image_format = some (codes "raw");
        bootindex = given (pos 1);
        name = some (codes "disk");
        readonly = some false;
        snapshot = some true;
        exported = none;
        size_mb = none;
        path = ns.disk;
        compression = some (codes "auto");
      }
      ∷ ns.media
]

abbrev pub raise_forward : {A : Type 0} → Result ForwardError A → Result ConfigError A
raise_forward (ok x) = ok x
raise_forward (err e) = err (bad_forward e)

-- `directory / f"{instance_name}-{rest}"`
abbrev pub file_of : Text → Text → String → Text
file_of directory instance_name rest =
    directory ++ (codes "/" ++ (instance_name ++ (codes "-" ++ codes rest)))

-- The file of the debug console, in the directory of the outputs where there is one.
abbrev pub debugcon_file :
    Text → Option Text → Text → Bool → Arch → Result ConfigError (Option Text)
debugcon_file tmpdir outputs instance_name false arch = ok none
debugcon_file tmpdir outputs instance_name true aarch64 = err debugcon_only_x86
debugcon_file tmpdir outputs instance_name true x86_64 =
    ok (some (file_of (option_or tmpdir outputs) instance_name "ovmf-debug.log"))

abbrev pub vars_path : Option (Text × List Made) → Option Text
vars_path none = none
vars_path (some found) = some found.0

abbrev pub vars_made : Option (Text × List Made) → List Made
vars_made none = []
vars_made (some found) = found.1

-- `cls(...)`
unfoldable pub config_of :
    Text
    → Namespace
    → Arch × Boot × Option Text
    → List QemuMedia
    → List HostForward
    → Option Text
    → Option Text
    → Text
    → Option Text
    → Option Text
    → Option Text
    → UefiQemuConfig
config_of instance_name ns options media hostfwd vars debugcon_path qemu firmware kernel initrd =
    record {
      name = instance_name;
      arch = options.0;
      qemu = qemu;
      firmware = firmware;
      media = media;
      firmware_vars = vars;
      memory_mb = to_ℕ ns.memory_mb;
      cpus = to_ℕ ns.cpus;
      require_kvm = ns.require_kvm;
      debugcon_path = debugcon_path;
      gdb = ns.gdb;
      pause_at_start = ns.pause_at_start;
      machine_options = ns.machine_options;
      qemu_args = ns.qemu_args;
      boot = options.1;
      kernel = kernel;
      initrd = initrd;
      kernel_args = ns.kernel_args;
      cpu_model = ns.cpu_model;
      graphics = ns.graphics;
      graphics_device = ns.graphics_device;
      allow_reboot = ns.allow_reboot;
      hostfwd = hostfwd;
      qemu_firmware_dir = options.2;
    }

module _ (r : Runfiles) where
  unfoldable pub read_arch : Namespace → Result ConfigError Arch
  unfolding locate
  read_arch ns = do
    written ← if_given ns.arch_file (λ file. do
      path ← locate r file
      text ← or_raise (r.read_text path) unreadable
      ok (r.strip text))
    elim written [ none ↦ named_arch ns.arch | some text ↦ named_arch (some text) ]

  -- The directory of a marker file.
  unfoldable pub firmware_dir : Text → Result ConfigError Text
  unfolding locate
  firmware_dir value = do
    marker ← locate r value
    guard (r.is_file marker) no_marker_file
    ok (r.parent marker)

  -- What the configuration has beside its files.
  unfoldable pub read_options_of : Namespace → Result ConfigError (Arch × Boot × Option Text)
  unfolding read_arch check_machine check_boot firmware_dir
  read_options_of ns = do
    arch ← read_arch ns
    check_machine ns
    boot ← named_boot ns.boot
    check_boot boot ns
    refuse (is_given ns.firmware_vars && not (is_given ns.firmware)) vars_without_firmware
    directory ← if_given ns.qemu_firmware_dir firmware_dir
    check_cpu_model ns.cpu_model
    check_graphics ns.graphics_device ns.graphics
    refuse (is_set directory && has_text ns.qemu_args (codes "-L")) two_firmware_dirs
    ok (arch, boot, directory)

  -- The copy of the variables that the guest writes to.
  unfoldable pub copy_vars : Text → Text → Text → Result ConfigError (Text × List Made)
  unfolding locate
  copy_vars tmpdir instance_name value = do
    source ← locate r value
    let file = file_of tmpdir instance_name "uefi-vars.fd"
    ok (file, copied source file ∷ [])

  -- `tmpdir` and `outputs` are TEST_TMPDIR and TEST_UNDECLARED_OUTPUTS_DIR.
  unfoldable pub from_namespace :
      Text → Option Text → Text → Namespace → Result ConfigError (UefiQemuConfig × List Made)
  unfolding config_of read_options_of resolve_media take_requests copy_vars locate
  from_namespace tmpdir outputs instance_name ns = do
    options ← read_options_of ns
    media ← resolve_media r tmpdir instance_name 0 [] [] (media_specs ns)
    hostfwd ← raise_forward (take_requests [] [] [] 0 ns.hostfwd)
    vars ← if_given ns.firmware_vars (copy_vars tmpdir instance_name)
    debugcon_path ← debugcon_file tmpdir outputs instance_name ns.debugcon options.0
    qemu ← locate r ns.qemu
    firmware ← if_given ns.firmware (locate r)
    kernel ← if_given ns.kernel (locate r)
    initrd ← if_given ns.initrd (locate r)
    ok (
      config_of instance_name ns options media.0 hostfwd (vars_path vars) debugcon_path qemu
          firmware kernel initrd,
      media.1 ++ vars_made vars,
    )
