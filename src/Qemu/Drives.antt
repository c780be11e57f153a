-- ===== src/Qemu/Drives.antt =====
-- The `-drive` and `-device` options of the media.
pub mod Options
use rules_ostest.Text.{Text, codes}
use rules_ostest.Qemu.{
  virtio_blk, usb_storage, nvme, cdrom, raw_image, qcow2, ImageFormat, Interface, QemuMedia, number,
}
use rules_ostest.Base.{
  ℕ, ◌+◌, ◌-◌, Bool, true, false, not, ◌&&◌, Option, none, some, List, [], ◌∷◌, ◌++◌, ◌==◌,
  if◌then◌else◌, length, is_empty, replicate,
}

-- `_qemu_keyval_path`: a comma is doubled.
unfoldable pub qemu_keyval_path : Text → Text
qemu_keyval_path [] = []
qemu_keyval_path (c ∷ cs) =
    let rest = qemu_keyval_path cs in if c == 0x2c then c ∷ c ∷ rest else c ∷ rest

-- `",".join(options)`
unfoldable pub join_options : List Text → Text
join_options [] = []
join_options (option ∷ options) =
    let rest = join_options options in if is_empty options then option else option ++ (0x2c ∷ rest)

abbrev pub format_name : ImageFormat → Text
format_name raw_image = codes "raw"
format_name qcow2 = codes "qcow2"

abbrev pub is_cdrom : Interface → Bool
is_cdrom cdrom = true
is_cdrom _ = false

abbrev pub is_usb : Interface → Bool
is_usb usb_storage = true
is_usb _ = false

abbrev pub flag : Bool → Text → List Text
flag true option = option ∷ []
flag false option = []

-- `f"ostest_media{index}"`
abbrev pub drive_id : ℕ → Text
drive_id index = codes "ostest_media" ++ number index

-- The options that follow the file.
abbrev pub drive_flags : QemuMedia → List Text
drive_flags m =
    flag (is_cdrom m.interface) (codes "media=cdrom")
    ++ (flag m.readonly (codes "readonly=on")
        ++ flag (m.snapshot && not m.readonly) (codes "snapshot=on"))

unfoldable pub drive_options : ℕ → QemuMedia → List Text
unfolding qemu_keyval_path
drive_options index m =
    codes "if=none"
    ∷ (codes "id=" ++ drive_id index)
    ∷ (codes "format=" ++ format_name m.image_format)
    ∷ (codes "file=" ++ qemu_keyval_path m.path)
    ∷ drive_flags m

abbrev pub bootindex_option : Option ℕ → Text
bootindex_option none = []
bootindex_option (some n) = codes ",bootindex=" ++ number n

-- `f"{index:04d}"`
abbrev pub four_digits : ℕ → Text
four_digits n = replicate (4 - length (number n)) 0x30 ++ number n

unfoldable pub media_device : ℕ → QemuMedia → Text
media_device index m =
    let drive = codes "drive=" ++ drive_id index in
    let boot = bootindex_option m.bootindex in
    elim m.interface [
      | virtio_blk ↦ codes "virtio-blk-pci," ++ (drive ++ boot)
      | usb_storage ↦ codes "usb-storage,bus=ostest_usb.0," ++ (drive ++ boot)
      | nvme ↦ codes "nvme," ++ (drive ++ (codes ",serial=OSTEST" ++ (four_digits index ++ boot)))
      | cdrom ↦ codes "scsi-cd,bus=ostest_scsi.0," ++ (drive ++ boot)
    ]

-- `for index, medium in enumerate(self.media)`
unfoldable pub media_arguments : ℕ → List QemuMedia → List Text
unfolding drive_options join_options media_device
media_arguments index [] = []
media_arguments index (m ∷ media) =
    codes "-drive"
    ∷ join_options (drive_options index m)
    ∷ codes "-device"
    ∷ media_device index m
    ∷ media_arguments (index + 1) media
