-- ===== src/Gpt/Image/Created.antt =====
-- `create_gpt_image` from its arguments to the finished disk.
use mathlib.Core.Path.{subst}
use rules_ostest.Base.{
  ℕ, ◌-◌, ◌*◌, ◌/◌, ◌%◌, ◌^◌, ◌≤◌, min, String, ◌≡◌, sym, ap, ◌∙◌, not, List, [], ◌∷◌, ◌++◌, arith,
  ◌==◌, length, ok-injective, bind-eq-ok, refuse-eq-ok, ok,
}
use rules_ostest.Base.Int.{ℤ, is_not_positive, to_ℕ, to_ℕ_pos}
use rules_ostest.Bytes.{Bytes, to_le, overlay}
use rules_ostest.Bytes.Overlay.{length-slice, pack_le-bind}
use rules_ostest.Files.{File, fresh}
use rules_ostest.Disk.{Host, bad_disk_size, struct_error}
use rules_ostest.Gpt.{PartitionSpec, guid}
use rules_ostest.Gpt.Layout.{layout_partitions}
use rules_ostest.Gpt.Layout.Order.{layout_partitions-IsLaidOut}
use rules_ostest.Gpt.Structures.{HeaderFields, protective_mbr, partition_entries, gpt_header}
use rules_ostest.Gpt.Structures.Header.{IsHeader, gpt_header-IsHeader}
use rules_ostest.Gpt.Structures.Table.{length-partition_entries}
use rules_ostest.Gpt.Image.{
  Tables, make_tables, write_disk, write_partitions, backup_entries, first_usable, last_usable,
  create_gpt_image,
}
use rules_ostest.Gpt.Image.Fill.{write_partitions-IsFilled}
use rules_ostest.Gpt.Image.Contents.{IsGptDisk, headed, finished-IsGptDisk}

length-protective_mbr : (total : ℕ) (mbr : Bytes) → protective_mbr total ≡ ok mbr → length mbr ≡ 512
unfolding protective_mbr
length-protective_mbr total mbr e₀ =
    let (small, e₁) = pack_le-bind struct_error 4 (min (total - 1) 0xffff_ffff) _ mbr e₀ in
    let entry =
      0 ∷ (0x00 ∷ 0x02 ∷ 0x00 ∷ [])
      ++ (0xee ∷ 0xff ∷ 0xff ∷ 0xff ∷ [])
      ++ to_le 4 1
      ++ to_le 4 (min (total - 1) 0xffff_ffff) in
    ap length (sym (ok-injective e₁))
    ∙ length-slice (overlay 510 (0x55 ∷ 0xaa ∷ []) (overlay 446 entry (λ _. 0))) 0 512

-- The fields of the two headers.
abbrev pub primary_fields : Host → ℕ → Bytes → Bytes → HeaderFields
primary_fields host total disk_guid entries = record {
  current_lba = 1;
  backup_lba = total - 1;
  first_usable_lba = first_usable;
  last_usable_lba = last_usable total;
  disk_guid = disk_guid;
  entries_lba = 2;
  entries_crc = host.crc32 entries % 2 ^ 32;
}

abbrev pub backup_fields : Host → ℕ → Bytes → Bytes → HeaderFields
backup_fields host total disk_guid entries = record {
  current_lba = total - 1;
  backup_lba = 1;
  first_usable_lba = first_usable;
  last_usable_lba = last_usable total;
  disk_guid = disk_guid;
  entries_lba = backup_entries total;
  entries_crc = host.crc32 entries % 2 ^ 32;
}

-- The tables belong to the specs.
pub record IsTables (host : Host) (specs : List PartitionSpec) (total : ℕ)
    (identity guid_text : String) (t : Tables) : Type 0 where
  pub disk_guid : Bytes
  pub guid_given : guid host guid_text identity "disk" ≡ ok disk_guid
  pub layout :
      layout_partitions host identity first_usable (last_usable total) specs ≡ ok t.partitions
  pub entries : partition_entries host t.partitions ≡ ok t.entries
  pub primary : IsHeader host (primary_fields host total disk_guid t.entries) t.primary_header
  pub backup : IsHeader host (backup_fields host total disk_guid t.entries) t.backup_header

make_tables-IsTables :
    (host : Host) (specs : List PartitionSpec) (total : ℕ) (identity guid_text : String)
    (t : Tables)
    → make_tables host specs total identity guid_text ≡ ok t
    → IsTables host specs total identity guid_text t
unfolding make_tables
make_tables-IsTables host specs total identity guid_text t e₀ =
    let (ps, layout, e₁) =
      bind-eq-ok (layout_partitions host identity first_usable (last_usable total) specs) _ e₀ in
    let (disk_guid, given, e₂) = bind-eq-ok (guid host guid_text identity "disk") _ e₁ in
    let (entries, wrote, e₃) = bind-eq-ok (partition_entries host ps) _ e₂ in
    let (primary, first, e₄) =
      bind-eq-ok (gpt_header host (primary_fields host total disk_guid entries)) _ e₃ in
    let (backup, second, e₅) =
      bind-eq-ok (gpt_header host (backup_fields host total disk_guid entries)) _ e₄ in
    subst (IsTables host specs total identity guid_text) (ok-injective e₅) (record {
      disk_guid = disk_guid;
      guid_given = given;
      layout = layout;
      entries = wrote;
      primary = gpt_header-IsHeader host _ primary first;
      backup = gpt_header-IsHeader host _ backup second;
    })

-- The whole disk, from what the call was given.
pub record IsCreated (host : Host) (specs : List PartitionSpec) (total : ℕ)
    (identity guid_text : String) (f : File) : Type 0 where
  pub tables : Tables
  pub mbr : Bytes
  pub is_mbr : protective_mbr total ≡ ok mbr
  pub from_specs : IsTables host specs total identity guid_text tables
  pub on_disk : IsGptDisk host total mbr tables f

write_disk-IsCreated :
    (host : Host) (specs : List PartitionSpec) (total : ℕ) (identity guid_text : String)
    (t : Tables) (f : File)
    → 68 ≤ total
    → IsTables host specs total identity guid_text t
    → write_disk host total t ≡ ok f
    → IsCreated host specs total identity guid_text f
unfolding write_disk
write_disk-IsCreated host specs total identity guid_text t f big made e₀ =
    let (mbr, is_mbr, e₁) = bind-eq-ok (protective_mbr total) _ e₀ in
    let (filled, done, e₂) =
      bind-eq-ok (write_partitions host t.partitions (headed host total mbr t fresh)) _ e₁ in
    let laid =
      (layout_partitions-IsLaidOut host identity first_usable (last_usable total) specs t.partitions
        made.layout).0 in
    record {
      tables = t;
      mbr = mbr;
      is_mbr = is_mbr;
      from_specs = made;
      on_disk = subst (IsGptDisk host total mbr t) (ok-injective e₂) (
          finished-IsGptDisk host total mbr t filled big (length-protective_mbr total mbr is_mbr)
            made.primary.one_sector
            (length-partition_entries host t.partitions t.entries made.entries)
            made.backup.one_sector laid
            (write_partitions-IsFilled host first_usable (last_usable total) first_usable
              t.partitions _ filled laid done));
    }

-- A call of `create_gpt_image` that succeeds has made a disk of `size_mb` MiB with the protective
-- MBR in its first sector, then the primary header and the partition entries, at its end the same
-- entries and the backup header, and at the place of each partition of the layout its image, with
-- the hidden sectors patched where the spec asks for that.
pub create_gpt_image-IsCreated :
    (host : Host) (specs : List PartitionSpec) (size_mb : ℤ) (identity guid_text : String)
    (f : File)
    → create_gpt_image host specs size_mb identity guid_text ≡ ok f
    → IsCreated host specs (to_ℕ size_mb * 2048) identity guid_text f
unfolding create_gpt_image
create_gpt_image-IsCreated host specs size_mb identity guid_text f e₀ =
    let (positive, e₁) = refuse-eq-ok (is_not_positive size_mb) bad_disk_size _ e₀ in
    let (_, e₂) = refuse-eq-ok (not (to_ℕ size_mb * 1024 * 1024 % 512 == 0)) bad_disk_size _ e₁ in
    let e : to_ℕ size_mb * 1024 * 1024 / 512 ≡ to_ℕ size_mb * 2048 = omega arith in
    let (t, made, e₃) =
      bind-eq-ok (make_tables host specs (to_ℕ size_mb * 2048) identity guid_text) _ (rw e at e₂) in
    write_disk-IsCreated host specs (to_ℕ size_mb * 2048) identity guid_text t f
      (omega (arith, to_ℕ_pos size_mb positive))
      (make_tables-IsTables host specs (to_ℕ size_mb * 2048) identity guid_text t made) e₃
