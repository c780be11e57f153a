-- ===== src/Qemu/Media.antt =====
-- `UefiQemuConfig.from_namespace`: the media, and the files that are made for them.
pub mod Protected
pub mod Kept
pub mod Distinct
use rules_ostest.Qemu.Drives.{is_cdrom, format_name}
use rules_ostest.Text.{Text, same_text, codes}
use rules_ostest.Qemu.{
  virtio_blk, usb_storage, nvme, cdrom, raw_image, qcow2, ConfigError, Interface, ImageFormat,
  QemuMedia, number,
}
use rules_ostest.Qemu.{
  bad_kind, bad_interface, bad_format, bad_bootindex, duplicate_bootindex, empty_name,
  duplicate_name, scratch_cdrom, scratch_format, scratch_protected, scratch_size, missing_field,
  absolute_path, unresolved, no_such_file, unreadable, bad_compression, no_gzip_magic,
  export_protected,
}
use rules_ostest.Base.Int.{pos, ℤ, is_not_positive, to_ℕ}
use rules_ostest.Base.{
  ℕ, ◌+◌, ◌*◌, Bool, true, false, not, ◌&&◌, ◌||◌, Option, none, some, List, [], ◌∷◌, ◌++◌, ◌==◌,
  if◌then◌else◌, is_empty, ◌>>=◌, ◌>>◌, guard, refuse, Result, ok, err,
}

-- The runfiles and the file system: whether a path is absolute, what a runfile resolves to, whether
-- a path exists, whether a file starts with the bytes of gzip and what text it has (`none` where it is
-- unreadable), whether a path is a file, and its parent; and `str.strip`.
pub record Runfiles : Type 0 where
  pub is_absolute : Text → Bool
  pub rlocation : Text → Option Text
  pub exists : Text → Bool
  pub has_gzip_magic : Text → Option Bool
  pub read_text : Text → Option Text
  pub is_file : Text → Bool
  pub parent : Text → Text
  pub strip : Text → Text

-- A bootindex that is missing, `null`, or a number.
pub data BootIndex : Type 0 where
  missing null : BootIndex
  given : ℤ → BootIndex

-- A decoded object of `--ostest-media`; a field is `none` where it is missing.
pub record MediaSpec : Type 0 where
  pub kind : Option Text
  pub interface : Option Text
  pub image_format : Option Text
  pub bootindex : BootIndex
  pub name : Option Text
  pub readonly : Option Bool
  pub snapshot : Option Bool
  pub exported : Option Bool
  pub size_mb : Option ℤ
  pub path : Option Text
  pub compression : Option Text

-- A file that is made: zeros, the content of a gzip file, or a copy.
pub data Made : Type 0 where
  scratch_file : Text → ℕ → Made
  unpacked copied : Text → Text → Made

abbrev pub option_or : {A : Type 0} → A → Option A → A
option_or d none = d
option_or d (some x) = x

abbrev pub or_raise : {A : Type 0} → Option A → ConfigError → Result ConfigError A
or_raise none e = err e
or_raise (some x) e = ok x

abbrev pub read_interface : Text → Result ConfigError Interface
read_interface s =
    if same_text s (codes "virtio-blk")
    then ok virtio_blk
    else if same_text s (codes "usb-storage")
    then ok usb_storage
    else if same_text s (codes "nvme")
    then ok nvme
    else if same_text s (codes "cdrom")
    then ok cdrom
    else err bad_interface

abbrev pub read_format : Text → Result ConfigError ImageFormat
read_format s =
    if same_text s (codes "raw")
    then ok raw_image
    else if same_text s (codes "qcow2")
    then ok qcow2
    else err bad_format

-- Whether the kind is `scratch`.
abbrev pub read_kind : Text → Result ConfigError Bool
read_kind s =
    if same_text s (codes "image")
    then ok false
    else if same_text s (codes "scratch")
    then ok true
    else err bad_kind

-- The boot index of medium `index`.
abbrev pub bootindex_of : Bool → ℕ → BootIndex → Option ℤ
bootindex_of scratch index null = none
bootindex_of scratch index (given n) = some n
bootindex_of true index missing = none
bootindex_of false index missing = some (pos (index + 1))

abbrev pub has_number : List ℕ → ℕ → Bool
has_number [] n = false
has_number (m ∷ ms) n = (m == n) || has_number ms n

abbrev pub has_text : List Text → Text → Bool
has_text [] s = false
has_text (t ∷ ts) s = same_text t s || has_text ts s

-- Positive, and not used before.
unfoldable pub check_bootindex : List ℕ → Option ℤ → Result ConfigError (Option ℕ)
check_bootindex used none = ok none
check_bootindex used (some n) = do
  refuse (is_not_positive n) bad_bootindex
  refuse (has_number used (to_ℕ n)) duplicate_bootindex
  ok (some (to_ℕ n))

unfoldable pub check_name : List Text → Text → Result ConfigError (Unit {0})
check_name used name = do
  refuse (is_empty name) empty_name
  refuse (has_text used name) duplicate_name

abbrev pub add_bootindex : Option ℕ → List ℕ → List ℕ
add_bootindex none used = used
add_bootindex (some n) used = n ∷ used

-- The file of a scratch medium.
unfoldable pub make_scratch :
    MediaSpec → Interface → ImageFormat → Bool → Bool → Text → Result ConfigError (Text × List Made)
make_scratch spec interface image_format readonly snapshot destination = do
  refuse (is_cdrom interface) scratch_cdrom
  guard (same_text (format_name image_format) (codes "raw")) scratch_format
  refuse (readonly || snapshot) scratch_protected
  let size_mb = option_or (pos 0) spec.size_mb
  refuse (is_not_positive size_mb) scratch_size
  ok (destination, scratch_file destination (to_ℕ size_mb * 1024 * 1024) ∷ [])

-- `f"{instance_name}-media-{index}{extension}"` in the directory of the test.
abbrev pub destination_of : Text → Text → Interface → ℕ → Text
destination_of tmpdir instance_name interface index =
    tmpdir
    ++ (codes "/"
        ++ (instance_name
            ++ (codes "-media-"
                ++ (number index ++ (if is_cdrom interface then codes ".iso" else codes ".img")))))

module _ (r : Runfiles) where
  unfoldable pub locate : Text → Result ConfigError Text
  locate value = do
    refuse (r.is_absolute value) absolute_path
    path ← or_raise (r.rlocation value) unresolved
    guard (r.exists path) no_such_file
    ok path

  -- `_materialize_image`: the path, and what is made.
  unfoldable pub materialize_image : Text → Text → Text → Result ConfigError (Text × List Made)
  materialize_image source destination compression = do
    is_gzip ← or_raise (r.has_gzip_magic source) unreadable
    guard
        (same_text compression (codes "auto")
          || same_text compression (codes "gzip")
          || same_text compression (codes "none"))
        bad_compression
    refuse (same_text compression (codes "gzip") && not is_gzip) no_gzip_magic
    ok (
        if same_text compression (codes "none") || not is_gzip
        then (source, [])
        else (destination, unpacked source destination ∷ []))

  -- The file of an image: a writable one is a copy.
  unfoldable pub make_image : MediaSpec → Bool → Bool → Text → Result ConfigError (Text × List Made)
  unfolding locate materialize_image
  make_image spec readonly snapshot destination = do
    value ← or_raise spec.path missing_field
    source ← locate value
    found ← materialize_image source destination (option_or (codes "auto") spec.compression)
    ok (
        if not readonly && not snapshot && same_text found.0 source
        then (destination, found.1 ++ (copied source destination ∷ []))
        else found)

  unfoldable pub make_medium :
      Bool
      → MediaSpec
      → Interface
      → ImageFormat
      → Bool
      → Bool
      → Text
      → Result ConfigError (Text × List Made)
  unfolding make_scratch make_image
  make_medium true spec interface image_format readonly snapshot destination =
      make_scratch spec interface image_format readonly snapshot destination
  make_medium false spec interface image_format readonly snapshot destination =
      make_image spec readonly snapshot destination

  -- A round of the loop.
  unfoldable pub resolve_medium :
      Text → Text → ℕ → List ℕ → List Text → MediaSpec → Result ConfigError (QemuMedia × List Made)
  unfolding check_bootindex check_name make_medium
  resolve_medium tmpdir instance_name index used names spec = do
    scratch ← read_kind (option_or (codes "image") spec.kind)
    interface_name ← or_raise spec.interface missing_field
    interface ← read_interface interface_name
    image_format ← read_format (option_or (codes "raw") spec.image_format)
    bootindex ← check_bootindex used (bootindex_of scratch index spec.bootindex)
    let name = option_or (codes "media" ++ number index) spec.name
    check_name names name
    let readonly = option_or (not scratch && is_cdrom interface) spec.readonly
    let snapshot = option_or (not scratch && not (is_cdrom interface)) spec.snapshot
    let exported = option_or false spec.exported
    let destination = destination_of tmpdir instance_name interface index
    found ← make_medium scratch spec interface image_format readonly snapshot destination
    refuse (exported && (readonly || snapshot)) export_protected
    ok (
      record {
        name = name;
        path = found.0;
        interface = interface;
        image_format = image_format;
        readonly = readonly;
        snapshot = snapshot;
        bootindex = bootindex;
        exported = exported;
      },
      found.1,
    )

  -- `for index, spec in enumerate(media_specs)`
  unfoldable pub resolve_media :
      Text
      → Text
      → ℕ
      → List ℕ
      → List Text
      → List MediaSpec
      → Result ConfigError (List QemuMedia × List Made)
  unfolding resolve_medium
  resolve_media tmpdir instance_name index used names [] = ok ([], [])
  resolve_media tmpdir instance_name index used names (spec ∷ specs) = do
    first ← resolve_medium tmpdir instance_name index used names spec
    rest ←
        resolve_media tmpdir instance_name (index + 1) (add_bootindex first.0.bootindex used)
          (first.0.name ∷ names) specs
    ok (first.0 ∷ rest.0, first.1 ++ rest.1)
