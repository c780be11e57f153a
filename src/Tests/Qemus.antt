-- ===== src/Tests/Qemus.antt =====
-- Machines in QEMU: their command lines and media.
use rules_ostest.Base.Int.{pos}
use rules_ostest.Qemu.Namespace.Started.{from_namespace-command}
use rules_ostest.Qemu.Namespace.Checked.{IsConfig, from_namespace-IsConfig}
use rules_ostest.Qemu.Namespace.{from_namespace, Namespace}
use rules_ostest.Qemu.Command.Accepted.{IsStartable, command-IsStartable, uses_gic_v2}
use rules_ostest.Qemu.Media.Distinct.{AreKept, ArePairwiseApart, IsOwnFile, resolve_media-AreKept}
use rules_ostest.Qemu.Command.{command}
use rules_ostest.Qemu.Drives.Options.{read_options, told_options, drive_options-read}
use rules_ostest.Text.{Text, codes, same_text}
use rules_ostest.Qemu.Drives.{media_arguments, join_options, drive_options}
use rules_ostest.Base.{
  ℕ, ◌≤◌, ◌≡◌, refl, ◌↔◌, true, false, Option, none, some, List, [], ◌∷◌, ◌++◌, map, take, All,
  result_or, ok, err,
}
use rules_ostest.Forwards.{integer, tcp}
use rules_ostest.Qemu.{
  direct_kernel, aarch64, raw_image, cdrom, virtio_blk, QemuMedia, UefiQemuConfig, too_many_cpus,
  x86_64, uefi,
}
use rules_ostest.Qemu.Media.{copied, missing, Runfiles, MediaSpec, Made, resolve_media}

-- A disc whose path has a comma.
abbrev disc : QemuMedia
disc = record {
  name = codes "disc";
  path = codes "/inputs/a,b.iso";
  interface = cdrom;
  image_format = raw_image;
  readonly = true;
  snapshot = false;
  bootindex = some 1;
  exported = false;
}

drive_options-read_example :
    read_options (join_options (drive_options 0 disc)) ≡ told_options 0 disc
drive_options-read_example = drive_options-read 0 disc

disc_arguments :
    media_arguments 0 (disc ∷ [])
    ≡ codes "-drive"
      ∷ codes "if=none,id=ostest_media0,format=raw,file=/inputs/a,,b.iso,media=cdrom,readonly=on"
      ∷ codes "-device"
      ∷ codes "scsi-cd,bus=ostest_scsi.0,drive=ostest_media0,bootindex=1"
      ∷ []
unfolding media_arguments
disc_arguments = refl

-- Every runfile is there, in one directory; none is packed.
abbrev plain_runfiles : Runfiles
plain_runfiles = record {
  is_absolute = λ s. same_text (take 1 s) (codes "/");
  rlocation = λ s. some (codes "/inputs/" ++ s);
  exists = λ s. true;
  has_gzip_magic = λ s. some false;
  read_text = λ s. none;
  is_file = λ s. true;
  parent = λ s. s;
  strip = λ s. s;
}

-- A disk that the guest writes to and that is exported.
abbrev disk_spec : MediaSpec
disk_spec = record {
  kind = none;
  interface = some (codes "virtio-blk");
  image_format = none;
  bootindex = missing;
  name = some (codes "disk");
  readonly = some false;
  snapshot = some false;
  exported = some true;
  size_mb = none;
  path = some (codes "disk.img");
  compression = none;
}

abbrev disk : QemuMedia
disk = record {
  name = codes "disk";
  path = codes "/tmp/t-media-0.img";
  interface = virtio_blk;
  image_format = raw_image;
  readonly = false;
  snapshot = false;
  bootindex = some 1;
  exported = true;
}

abbrev disk_copy : List Made
disk_copy = copied (codes "/inputs/disk.img") (codes "/tmp/t-media-0.img") ∷ []

resolved_disk :
    resolve_media plain_runfiles (codes "/tmp") (codes "t") 0 [] [] (disk_spec ∷ [])
    ≡ ok (disk ∷ [], disk_copy)
unfolding resolve_media
resolved_disk = refl

resolve_media-AreKept_example :
    AreKept (codes "/tmp") (codes "t") 0 (disk ∷ [])
    × ArePairwiseApart (disk ∷ [])
    × All (IsOwnFile (codes "/tmp") (codes "t")) disk_copy
resolve_media-AreKept_example =
    resolve_media-AreKept plain_runfiles (codes "/tmp") (codes "t") (disk_spec ∷ []) (disk ∷ [])
      disk_copy resolved_disk

-- A direct kernel on AArch64 with GDB.
abbrev virt : ℕ → UefiQemuConfig
virt cpus = record {
  name = codes "t";
  arch = aarch64;
  qemu = codes "/qemu";
  firmware = none;
  media = disc ∷ [];
  firmware_vars = none;
  memory_mb = 256;
  cpus = cpus;
  require_kvm = false;
  debugcon_path = none;
  gdb = true;
  pause_at_start = true;
  machine_options = codes "its=off" ∷ [];
  qemu_args = [];
  boot = direct_kernel;
  kernel = some (codes "/kernel");
  initrd = none;
  kernel_args = codes "console=ttyAMA0";
  cpu_model = none;
  graphics = false;
  graphics_device = none;
  allow_reboot = false;
  hostfwd = [];
  qemu_firmware_dir = none;
}

command-IsStartable_example :
    ((arguments : List Text) × (command (virt 9) none (some 7) [] false ≡ ok arguments))
    ↔ IsStartable (virt 9) (some 7)
command-IsStartable_example = command-IsStartable (virt 9) none (some 7) [] false

nine_cpus : command (virt 9) none (some 7) [] false ≡ err too_many_cpus
unfolding command
nine_cpus = refl

first_eight :
    take 11 (result_or [] (command (virt 8) none (some 7) [] false))
    ≡ map codes (
        "/qemu" ∷ "-no-user-config" ∷ "-nodefaults" ∷ "-machine" ∷ "virt,gic-version=2,its=off"
        ∷ "-m" ∷ "256" ∷ "-smp" ∷ "8" ∷ "-cpu" ∷ "cortex-a53" ∷ [])
unfolding command
first_eight = refl

-- A test of a UEFI machine with variables, the exported disk, and one forward.
abbrev arguments : Namespace
arguments = record {
  arch = some (codes "x86_64");
  arch_file = none;
  qemu = codes "qemu";
  qemu_firmware_dir = none;
  firmware = some (codes "code.fd");
  firmware_vars = some (codes "vars.fd");
  boot = codes "uefi";
  kernel = none;
  initrd = none;
  kernel_args = [];
  disk = none;
  media = disk_spec ∷ [];
  hostfwd =
      some (record {
        has_more = false;
        guest = some (integer (pos 22));
        name = some (codes "ssh");
        host = none;
        protocol = none;
      })
      ∷ [];
  memory_mb = pos 256;
  cpus = pos 1;
  require_kvm = false;
  debugcon = true;
  gdb = false;
  pause_at_start = false;
  allow_reboot = false;
  cpu_model = none;
  graphics = false;
  graphics_device = none;
  machine_options = codes "smm=on" ∷ [];
  qemu_args = [];
}

abbrev machine : UefiQemuConfig
machine = record {
  name = codes "t";
  arch = x86_64;
  qemu = codes "/inputs/qemu";
  firmware = some (codes "/inputs/code.fd");
  media = disk ∷ [];
  firmware_vars = some (codes "/tmp/t-uefi-vars.fd");
  memory_mb = 256;
  cpus = 1;
  require_kvm = false;
  debugcon_path = some (codes "/tmp/t-ovmf-debug.log");
  gdb = false;
  pause_at_start = false;
  machine_options = codes "smm=on" ∷ [];
  qemu_args = [];
  boot = uefi;
  kernel = none;
  initrd = none;
  kernel_args = [];
  cpu_model = none;
  graphics = false;
  graphics_device = none;
  allow_reboot = false;
  hostfwd = record { name = codes "ssh"; protocol = tcp; guest_port = 22; host_port = none } ∷ [];
  qemu_firmware_dir = none;
}

abbrev machine_files : List Made
machine_files = disk_copy ++ (copied (codes "/inputs/vars.fd") (codes "/tmp/t-uefi-vars.fd") ∷ [])

configured :
    from_namespace plain_runfiles (codes "/tmp") none (codes "t") arguments
    ≡ ok (machine, machine_files)
unfolding from_namespace
configured = refl

from_namespace-IsConfig_example : IsConfig (codes "/tmp") (codes "t") machine machine_files
from_namespace-IsConfig_example =
    from_namespace-IsConfig plain_runfiles (codes "/tmp") none (codes "t") arguments machine
      machine_files configured

from_namespace-command_example :
    ((found : List Text) × (command machine (some 5) none [] false ≡ ok found)) ↔ (
      (x86_64 ≡ aarch64 → uses_gic_v2 machine ≡ true → 1 ≤ 8)
      × (false ≡ true → ¬ (Path (Option ℕ) none none)))
from_namespace-command_example =
    from_namespace-command plain_runfiles (codes "/tmp") none (codes "t") arguments machine
      machine_files configured (some 5) none [] false
