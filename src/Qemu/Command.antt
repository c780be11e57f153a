-- ===== src/Qemu/Command.antt =====
-- `UefiQemuConfig.command`: the arguments, group by group.
pub mod Accepted
use rules_ostest.Qemu.Drives.{
  media_arguments, join_options, is_usb, flag, qemu_keyval_path, is_cdrom,
}
use rules_ostest.Text.{Text, codes, same_text}
use rules_ostest.Qemu.{
  x86_64, aarch64, uefi, direct_kernel, no_kernel, no_gdb_listener, too_many_cpus, Arch, Boot,
  UefiQemuConfig, QemuMedia, ConfigError, QemuNic, number,
}
use rules_ostest.Forwards.{tcp, udp, Protocol, HostForward}
use rules_ostest.Base.{
  ℕ, ◌+◌, String, Bool, true, false, not, ◌&&◌, ◌||◌, Option, none, some, List, [], ◌∷◌, ◌++◌, map,
  ltb, ◌==◌, if◌then◌else◌, ◌>>=◌, ◌>>◌, refuse, Result, ok, err,
}

-- `option.split("=", 1)[0]`
abbrev pub option_key : Text → Text
option_key [] = []
option_key (c ∷ cs) = let rest = option_key cs in if c == 0x3d then [] else c ∷ rest

abbrev pub any : {A : Type 0} → (A → Bool) → List A → Bool
any test [] = false
any test (x ∷ xs) = test x || any test xs

abbrev pub is_aarch64 : Arch → Bool
is_aarch64 x86_64 = false
is_aarch64 aarch64 = true

abbrev pub is_direct : Boot → Bool
is_direct uefi = false
is_direct direct_kernel = true

abbrev pub gic_version_2 : Text
gic_version_2 = codes "gic-version=2"

-- A direct kernel on AArch64 gets GICv2, unless an option says otherwise.
unfoldable pub all_machine_options : UefiQemuConfig → List Text
all_machine_options c =
    if is_aarch64 c.arch
      && is_direct c.boot
      && not (any (λ option. same_text (option_key option) (codes "gic-version")) c.machine_options)
    then gic_version_2 ∷ c.machine_options
    else c.machine_options

abbrev pub machine_name : Arch → Text
machine_name x86_64 = codes "q35"
machine_name aarch64 = codes "virt"

-- An argument and its value, where there is one.
abbrev pub optional : String → Option Text → List Text
optional argument none = []
optional argument (some value) = codes argument ∷ value ∷ []

abbrev pub pair : String → Text → List Text
pair argument value = codes argument ∷ value ∷ []

abbrev pub machine_arguments : UefiQemuConfig → List Text
machine_arguments c =
    pair "-machine" (join_options (machine_name c.arch ∷ all_machine_options c))
    ++ (pair "-m" (number c.memory_mb) ++ pair "-smp" (number c.cpus))

abbrev pub cpu_of : Option Text → Arch → Boot → Option Text
cpu_of (some model) arch boot = some model
cpu_of none x86_64 boot = none
cpu_of none aarch64 uefi = some (codes "max")
cpu_of none aarch64 direct_kernel = some (codes "cortex-a53")

abbrev pub accel_arguments : Bool → List Text
accel_arguments true = pair "-accel" (codes "kvm")
accel_arguments false = pair "-accel" (codes "kvm") ++ pair "-accel" (codes "tcg")

abbrev pub pflash : String → Option Text → List Text
pflash options none = []
pflash options (some path) = pair "-drive" (codes options ++ qemu_keyval_path path)

abbrev pub firmware_arguments : UefiQemuConfig → List Text
firmware_arguments c =
    pflash "if=pflash,format=raw,unit=0,readonly=on,file=" c.firmware
    ++ pflash "if=pflash,format=raw,unit=1,file=" c.firmware_vars

abbrev pub append_kernel : Text → List Text
append_kernel [] = []
append_kernel (c ∷ cs) = pair "-append" (c ∷ cs)

abbrev pub kernel_arguments : Boot → Option Text → UefiQemuConfig → Result ConfigError (List Text)
kernel_arguments uefi kernel c = ok []
kernel_arguments direct_kernel none c = err no_kernel
kernel_arguments direct_kernel (some path) c =
    ok (pair "-kernel" path ++ (optional "-initrd" c.initrd ++ append_kernel c.kernel_args))

-- The controllers that media need.
abbrev pub bus_arguments : List QemuMedia → List Text
bus_arguments media =
    (if any (λ m. is_usb m.interface) media
      then pair "-device" (codes "qemu-xhci,id=ostest_usb")
      else [])
    ++ (if any (λ m. is_cdrom m.interface) media
        then pair "-device" (codes "virtio-scsi-pci,id=ostest_scsi")
        else [])

abbrev pub graphics_of : Option Text → Arch → Text
graphics_of (some device) arch = device
graphics_of none x86_64 = codes "VGA"
graphics_of none aarch64 = codes "virtio-gpu-pci"

abbrev pub fixed_arguments : List Text
fixed_arguments =
    pair "-display" (codes "none")
    ++ (pair "-monitor" (codes "none")
        ++ (pair "-serial" (codes "stdio") ++ pair "-nic" (codes "none")))

abbrev pub clock_arguments : List Text
clock_arguments =
    pair "-rtc" (codes "base=2000-01-01T00:00:00,clock=vm")
    ++ pair "-uuid" (codes "00000000-0000-0000-0000-000000000001")

abbrev pub listener : String → ℕ → Text
listener start fd = codes start ++ (number fd ++ codes ",server=on,wait=off")

abbrev pub qmp_arguments : Option ℕ → List Text
qmp_arguments none = []
qmp_arguments (some fd) =
    pair "-chardev" (listener "socket,id=ostest_qmp,fd=" fd)
    ++ pair "-mon" (codes "chardev=ostest_qmp,mode=control")

abbrev pub debugcon_arguments : Option Text → List Text
debugcon_arguments none = []
debugcon_arguments (some path) =
    pair "-debugcon" (codes "file:" ++ path) ++ pair "-global" (codes "isa-debugcon.iobase=0x402")

abbrev pub gdb_arguments : Bool → Option ℕ → Result ConfigError (List Text)
gdb_arguments false fd = ok []
gdb_arguments true none = err no_gdb_listener
gdb_arguments true (some fd) = ok (
    pair "-chardev" (listener "socket,id=ostest_gdb,fd=" fd)
    ++ pair "-gdb" (codes "chardev:ostest_gdb"))

abbrev pub nic_arguments : ℕ → List QemuNic → List Text
nic_arguments index [] = []
nic_arguments index (nic ∷ nics) =
    let netdev_id = codes "ostest_net" ++ number index in
    pair "-netdev" (codes "socket,id=" ++ (netdev_id ++ (codes ",fd=" ++ number nic.fileno)))
    ++ (pair "-device"
          (nic.model ++ (codes ",netdev=" ++ (netdev_id ++ (codes ",mac=" ++ nic.mac))))
        ++ nic_arguments (index + 1) nics)

abbrev pub protocol_name : Protocol → Text
protocol_name tcp = codes "tcp"
protocol_name udp = codes "udp"

-- `HostForwardRequest.qemu_hostfwd`; port 0 is for QEMU to choose.
abbrev pub port_or_0 : Option ℕ → ℕ
port_or_0 none = 0
port_or_0 (some port) = port

abbrev pub qemu_hostfwd : HostForward → Text
qemu_hostfwd f =
    protocol_name f.protocol
    ++ (codes ":127.0.0.1:"
        ++ (number (port_or_0 f.host_port) ++ (codes "-:" ++ number f.guest_port)))

abbrev pub usernet_arguments : List HostForward → List Text
usernet_arguments [] = []
usernet_arguments (f ∷ fs) =
    pair "-netdev" (
      join_options (
        codes "user"
        ∷ codes "id=ostest_usernet"
        ∷ codes "ipv6=off"
        ∷ codes "restrict=on"
        ∷ map (λ g. codes "hostfwd=" ++ qemu_hostfwd g) (f ∷ fs)))
    ++ pair "-device" (codes "virtio-net-pci,netdev=ostest_usernet,mac=52:54:00:ff:00:01")

-- What stands in front of the kernel, and what follows the media up to GDB.
abbrev pub first_arguments : UefiQemuConfig → List Text
first_arguments c =
    (c.qemu ∷ codes "-no-user-config" ∷ codes "-nodefaults" ∷ [])
    ++ (optional "-L" c.qemu_firmware_dir
        ++ (machine_arguments c
            ++ (optional "-cpu" (cpu_of c.cpu_model c.arch c.boot)
                ++ (accel_arguments c.require_kvm ++ firmware_arguments c))))

abbrev pub middle_arguments : UefiQemuConfig → Option ℕ → Bool → List Text
middle_arguments c qmp_listener_fd allow_reboot =
    flag c.graphics (codes "-device")
    ++ (flag c.graphics (graphics_of c.graphics_device c.arch)
        ++ (fixed_arguments
            ++ (flag (not (c.allow_reboot || allow_reboot)) (codes "-no-reboot")
                ++ (clock_arguments
                    ++ (qmp_arguments qmp_listener_fd ++ debugcon_arguments c.debugcon_path)))))

unfoldable pub command :
    UefiQemuConfig → Option ℕ → Option ℕ → List QemuNic → Bool → Result ConfigError (List Text)
unfolding all_machine_options media_arguments
command c qmp_listener_fd gdb_listener_fd nics allow_reboot = do
  refuse
      (is_aarch64 c.arch
        && ltb 8 c.cpus
        && any (λ option. same_text option gic_version_2) (all_machine_options c))
      too_many_cpus
  kernel ← kernel_arguments c.boot c.kernel c
  gdb ← gdb_arguments c.gdb gdb_listener_fd
  ok (
      first_arguments c
      ++ (kernel
          ++ (bus_arguments c.media
              ++ (media_arguments 0 c.media
                  ++ (middle_arguments c qmp_listener_fd allow_reboot
                      ++ (gdb
                          ++ (flag c.pause_at_start (codes "-S")
                              ++ (nic_arguments 0 nics
                                  ++ (usernet_arguments c.hostfwd ++ c.qemu_args)))))))))
