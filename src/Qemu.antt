-- ===== src/Qemu.antt =====
-- ostest/python/qemu.py: the configuration of a machine, the media that it boots from, and the
-- command line that is made of them.
pub mod Drives
pub mod Command
pub mod Media
pub mod Requests
pub mod Namespace
use rules_ostest.Forwards.{HostForward, ForwardError}
use rules_ostest.Text.{Text, decimal_text}
use rules_ostest.Base.{ℕ, ◌+◌, Bool, Option, List}

pub data Arch : Type 0 where
  x86_64 aarch64 : Arch

pub data Boot : Type 0 where
  uefi direct_kernel : Boot

pub data Interface : Type 0 where
  virtio_blk usb_storage nvme cdrom : Interface

pub data ImageFormat : Type 0 where
  raw_image qcow2 : ImageFormat

-- Paths are their texts.
pub record QemuMedia : Type 0 where
  pub name : Text
  pub path : Text
  pub interface : Interface
  pub image_format : ImageFormat
  pub readonly : Bool
  pub snapshot : Bool
  pub bootindex : Option ℕ
  pub exported : Bool

-- `QemuNic`, with the descriptor of its connection.
pub record QemuNic : Type 0 where
  pub fileno : ℕ
  pub mac : Text
  pub model : Text

pub record UefiQemuConfig : Type 0 where
  pub name : Text
  pub arch : Arch
  pub qemu : Text
  pub firmware : Option Text
  pub media : List QemuMedia
  pub firmware_vars : Option Text
  pub memory_mb : ℕ
  pub cpus : ℕ
  pub require_kvm : Bool
  pub debugcon_path : Option Text
  pub gdb : Bool
  pub pause_at_start : Bool
  pub machine_options : List Text
  pub qemu_args : List Text
  pub boot : Boot
  pub kernel : Option Text
  pub initrd : Option Text
  pub kernel_args : Text
  pub cpu_model : Option Text
  pub graphics : Bool
  pub graphics_device : Option Text
  pub allow_reboot : Bool
  pub hostfwd : List HostForward
  pub qemu_firmware_dir : Option Text

pub data ConfigError : Type 0 where
  too_many_cpus no_kernel no_gdb_listener : ConfigError
  bad_kind bad_interface bad_format bad_bootindex duplicate_bootindex empty_name duplicate_name :
      ConfigError
  scratch_cdrom scratch_format scratch_protected scratch_size missing_field : ConfigError
  absolute_path unresolved no_such_file unreadable bad_compression no_gzip_magic : ConfigError
  export_protected : ConfigError
  bad_arch bad_counts bad_machine_option bad_boot no_firmware needs_direct_kernel
        vars_without_firmware :
      ConfigError
  no_marker_file bad_cpu_model empty_graphics_device no_graphics two_firmware_dirs
        debugcon_only_x86 :
      ConfigError
  bad_forward : ForwardError → ConfigError

abbrev pub number : ℕ → Text
number n = decimal_text (n + 1) n
