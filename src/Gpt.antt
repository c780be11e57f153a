-- ===== src/Gpt.antt =====
-- ostest/private/gpt_image.py: the constants, the partitions and the GUIDs.
pub mod Layout
pub mod Structures
pub mod Image
use Prim.Native.String
use text.Mathlib.Text.{◌==◌ as str_eq}
use rules_ostest.Base.{ℕ, ◌*◌, ◌/◌, String, Bool, Option, none, some, if◌then◌else◌, Result, ok}
use rules_ostest.Base.Int.{ℤ}
use rules_ostest.Base.Decimal.{decimal}
use rules_ostest.Bytes.{Bytes}
use rules_ostest.Disk.{Host, Error, Compression, bad_guid, or_raise}

abbrev pub sector_size : ℕ
sector_size = 512

abbrev pub gpt_entry_count : ℕ
gpt_entry_count = 128

abbrev pub gpt_entry_size : ℕ
gpt_entry_size = 128

abbrev pub gpt_entry_array_sectors : ℕ
gpt_entry_array_sectors = gpt_entry_count * gpt_entry_size / sector_size

-- One element of the manifest. `none` is a key that is absent.
pub record PartitionSpec : Type 0 where
  pub image : String
  pub image_compression : Option String
  pub alignment_lba : Option ℤ
  pub start_lba : Option ℤ
  pub partition_name : Option String
  pub unique_guid : Option String
  pub type_guid : String
  pub attributes : Option ℤ
  pub patch_fat_hidden_sectors : Option Bool

-- A GUID is its 16 bytes in the order of `bytes_le`.
pub record Partition : Type 0 where
  pub image : String
  pub image_compression : Compression
  pub image_size : ℕ
  pub type_guid : Bytes
  pub unique_guid : Bytes
  pub partition_name : String
  pub attributes : ℕ
  pub alignment_lba : ℕ
  pub requested_start_lba : ℕ
  pub patch_fat_hidden_sectors : Bool
  pub start_lba : ℕ
  pub end_lba : ℕ

-- `spec.get(key, default)`
abbrev pub get {ℓ} : {A : Type ℓ} → Option A → A → A
get none default = default
get (some a) default = a

infixr 65 ◌⧺◌
abbrev pub ◌⧺◌ : String → String → String
s ⧺ t = String.◌++◌ s t

-- `uuid.UUID(value)`
unfoldable pub parse_uuid : Host → String → Result Error Bytes
parse_uuid host value = or_raise bad_guid (host.parse_guid value)

-- The name that is hashed in the program's namespace where no GUID is given.
unfoldable pub guid : Host → String → String → String → Result Error Bytes
unfolding parse_uuid
guid host value identity kind =
    if str_eq value ""
    then ok (host.uuid5 ("rules_ostest:" ⧺ identity ⧺ ":" ⧺ kind))
    else parse_uuid host value

abbrev pub partition_kind : ℕ → String → String
partition_kind index name = "partition:" ⧺ decimal index ⧺ ":" ⧺ name
