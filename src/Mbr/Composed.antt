-- ===== src/Mbr/Composed.antt =====
-- `create_mbr_image` from its arguments to the finished disk.
use rules_ostest.Gpt.Image.Fill.{Holds, write_partitions-IsFilled, before-IsGap}
use rules_ostest.Bytes.{Bytes, bytearray, put, slice}
use rules_ostest.Bytes.Overlay.{length-slice}
use rules_ostest.Bytes.Slices.{slice_ext}
use rules_ostest.Files.Laws.{write_inside, size-write}
use mathlib.Core.Path.{subst, fun_ext}
use rules_ostest.Base.Int.{is_not_positive, pos, to_ℕ, ℤ, to_ℕ_pos}
use rules_ostest.Gpt.Layout.Order.{IsLaidOut, IsOrdered, IsLaidOut-IsOrdered}
use rules_ostest.Mbr.Table.{IsTable, partition_sector-IsTable, size-write_primaries}
use rules_ostest.Base.{
  ℕ, suc, ◌+◌, ◌-◌, ◌*◌, ◌/◌, ◌%◌, ◌≤◌, ◌≡◌, refl, sym, ap, ◌∙◌, inl, Bool, true, false, not, ◌&&◌,
  ◌||◌, List, [], ◌∷◌, map, arith, ltb, leb, ◌==◌, if◌then◌else◌, length, All, ◌>>=◌, ok-injective,
  bind-eq-ok, guard-eq-ok, refuse-eq-ok, ok,
}
use rules_ostest.Files.{File, write, truncate, fresh}
use rules_ostest.Disk.{
  Host, place, resolve_compression, logical_size, bad_type, bad_partition_count, bad_mbr_size,
}
use rules_ostest.Gpt.{Partition, get}
use rules_ostest.Gpt.Layout.{align_up}
use rules_ostest.Gpt.Image.{write_partitions}
use rules_ostest.Gpt.Layout.Steps.{IsPlaced}
use rules_ostest.Mbr.{
  PrimarySpec, Primary, layout_primary, fill_primaries, layout_primaries, partition_sector,
  create_mbr_image, write_primaries,
}

-- The region of a primary partition, as one of the GPT composer, which fills it in the same way.
abbrev pub region : Primary → Partition
region p = record {
  image = p.image;
  image_compression = p.compression;
  image_size = p.size;
  type_guid = [];
  unique_guid = [];
  partition_name = "";
  attributes = 0;
  alignment_lba = 1;
  requested_start_lba = p.start;
  patch_fat_hidden_sectors = p.patch_fat;
  start_lba = p.start;
  end_lba = p.end;
}

fill_primaries-region :
    (host : Host) (ps : List Primary) (f : File)
    → fill_primaries host ps f ≡ write_partitions host (map region ps) f
unfolding fill_primaries write_partitions
fill_primaries-region host [] f = refl
fill_primaries-region host (p ∷ ps) f =
    ap (λ k. place host p.image p.compression p.size p.start p.patch_fat f >>= k)
      (fun_ext (λ f'. fill_primaries-region host ps f'))

pub layout_primary-IsPlaced :
    (host : Host) (total index cursor : ℕ) (spec : PrimarySpec) (p : Primary)
    → 1 ≤ cursor
    → layout_primary host total index cursor spec ≡ ok p
    → IsPlaced host 1 (total - 1) cursor (region p)
unfolding layout_primary
layout_primary-IsPlaced host total index cursor spec p h e₀ =
    let (c, resolved, e₂) =
      bind-eq-ok (resolve_compression host spec.image (get spec.image_compression "auto")) _ e₀ in
    let (size, sized, e₃) = bind-eq-ok (logical_size host spec.image c) _ e₂ in
    let (whole, e₄) = refuse-eq-ok (size == 0 || not (size % 512 == 0)) _ _ e₃ in
    let (positive, e₅) =
      refuse-eq-ok (is_not_positive (get spec.alignment_lba (pos 2048)) || _) _ _ e₄ in
    let alignment = to_ℕ (get spec.alignment_lba (pos 2048)) in
    let requested = to_ℕ (get spec.start_lba (pos 0)) in
    let start : ℕ = if requested == 0 then align_up cursor alignment else requested in
    let (behind, e₆) = refuse-eq-ok (ltb start cursor || _) _ _ e₅ in
    let (inside, e₇) = refuse-eq-ok (leb total (start + size / 512 - 1) || _) _ _ e₆ in
    let made : Primary = record {
      image = spec.image;
      compression = c;
      size = size;
      start = start;
      end = start + size / 512 - 1;
      sectors = size / 512;
      type_id = to_ℕ (get spec.type_id (pos 0xef));
      bootable = get spec.bootable false;
      patch_fat = get spec.patch_fat_hidden_sectors false;
    } in
    let (_, e₈) = guard-eq-ok _ (bad_type (index + 1)) (ok made) e₇ in
    subst (λ q. IsPlaced host 1 (total - 1) cursor (region q)) {x = made} (ok-injective e₈)
      (record {
        measured = sized;
        has_sectors = ground arith;
        whole_sectors = ground arith;
        alignment_pos = omega arith;
        aligned = omega arith;
        behind_cursor = ground arith;
        where_asked = inl refl;
        end_is = ground arith;
        from_first = ground arith;
        to_last = ground arith;
        attributes_fit = omega arith;
      })

layout_primaries-IsLaidOut :
    (host : Host) (total index cursor : ℕ) (specs : List PrimarySpec) (ps : List Primary)
    → 1 ≤ cursor
    → layout_primaries host total index cursor specs ≡ ok ps
    → IsLaidOut host 1 (total - 1) cursor (map region ps)
unfolding layout_primaries
layout_primaries-IsLaidOut host total index cursor [] ps h e =
    subst (λ l. IsLaidOut host 1 (total - 1) cursor (map region l)) (ok-injective e) tt
layout_primaries-IsLaidOut host total index cursor (spec ∷ specs) ps h e₀ =
    let (p, placed, e₁) = bind-eq-ok (layout_primary host total index cursor spec) _ e₀ in
    let (rest, later, e₂) =
      bind-eq-ok (layout_primaries host total (index + 1) (p.end + 1) specs) _ e₁ in
    subst (λ l. IsLaidOut host 1 (total - 1) cursor (map region l)) (ok-injective e₂)
      (
        layout_primary-IsPlaced host total index cursor spec p h placed,
        layout_primaries-IsLaidOut host total (index + 1) (p.end + 1) specs rest (omega arith)
            later,
      )

-- The bytes of the first sector are 512.
length-partition_sector :
    (ps : List Primary) (mbr : Bytes) → partition_sector ps ≡ ok mbr → length mbr ≡ 512
unfolding partition_sector
length-partition_sector ps mbr e₀ =
    let (b, wrote, e₁) = bind-eq-ok (write_primaries 0 ps (bytearray 512)) _ e₀ in
    ap length (sym (ok-injective e₁))
    ∙ length-slice (put 510 (0x55 ∷ 0xaa ∷ []) b).byte 0 b.size
    ∙ size-write_primaries 0 ps (bytearray 512) b wrote

length-layout_primaries :
    (host : Host) (total index cursor : ℕ) (specs : List PrimarySpec) (ps : List Primary)
    → layout_primaries host total index cursor specs ≡ ok ps
    → length ps ≡ length specs
unfolding layout_primaries
length-layout_primaries host total index cursor [] ps e = ap length (sym (ok-injective e))
length-layout_primaries host total index cursor (spec ∷ specs) ps e₀ =
    let (p, _, e₁) = bind-eq-ok (layout_primary host total index cursor spec) _ e₀ in
    let (rest, later, e₂) =
      bind-eq-ok (layout_primaries host total (index + 1) (p.end + 1) specs) _ e₁ in
    ap length (sym (ok-injective e₂))
    ∙ ap suc (length-layout_primaries host total (index + 1) (p.end + 1) specs rest later)

or-first : (a b : Bool) → (a || b) ≡ false → a ≡ false
or-first true b h = h
or-first false b h = refl

-- What a disk with the partitions `ps` and the first sector `mbr` holds.
pub record IsMbrDisk (host : Host) (specs : List PrimarySpec) (total : ℕ) (f : File) : Type 0 where
  pub layout : List Primary
  pub from_specs : layout_primaries host total 0 1 specs ≡ ok layout
  pub mbr : Bytes
  pub is_mbr : partition_sector layout ≡ ok mbr
  pub size : f.size ≡ total * 512
  pub sector : slice f.byte 0 512 ≡ mbr
  pub table : IsTable f.byte layout
  pub partitions : All (Holds host f) (map region layout)
  pub ordered : IsOrdered (map region layout)

filled-IsMbrDisk :
    (host : Host) (specs : List PrimarySpec) (total : ℕ) (layout : List Primary) (mbr : Bytes)
    (bytes : ℕ) (f : File)
    → length specs ≤ 4
    → 1 ≤ total
    → bytes ≡ total * 512
    → layout_primaries host total 0 1 specs ≡ ok layout
    → partition_sector layout ≡ ok mbr
    → fill_primaries host layout (write mbr (truncate bytes fresh)) ≡ ok f
    → IsMbrDisk host specs total f
filled-IsMbrDisk host specs total layout mbr bytes f few big whole laid is_mbr e =
    let start : File = truncate bytes fresh in
    let sector = length-partition_sector layout mbr is_mbr in
    let placed = layout_primaries-IsLaidOut host total 0 1 specs layout (omega arith) laid in
    let filled =
      write_partitions-IsFilled host 1 (total - 1) 1 (map region layout) (write mbr start) f placed
        (sym (fill_primaries-region host layout (write mbr start)) ∙ e) in
    let sized : (write mbr start).size ≡ total * 512 =
      size-write mbr start (omega (arith, sector)) ∙ whole in
    let held : slice f.byte 0 512 ≡ mbr =
      slice_ext f.byte (write mbr start).byte 0 0 512 (λ i q.
        filled.gaps (0 + i)
          (before-IsGap host 1 (total - 1) 1 (map region layout) (0 + i) placed (omega arith)))
      ∙ write_inside mbr start 512 sector in
    let same = length-layout_primaries host total 0 1 specs layout laid in
    record {
      layout = layout;
      from_specs = laid;
      mbr = mbr;
      is_mbr = is_mbr;
      size = filled.size_kept (omega (arith, sized)) ∙ sized;
      sector = held;
      table = partition_sector-IsTable layout mbr f.byte (omega (arith, same, few)) is_mbr held;
      partitions = filled.held;
      ordered = IsLaidOut-IsOrdered host "" 1 (total - 1) 1 (map region layout) placed;
    }

-- A call of `create_mbr_image` that succeeds has made a disk of `size_mb` MiB whose first sector
-- reads back, entry by entry from byte 446 on, as the status, both CHS addresses, the type, the
-- first LBA and the number of sectors of each partition of the layout, with zeros before and
-- behind the entries and the signature at 510, and which holds the image of each partition in its
-- place, patched where the spec asks for that; each partition ends before every later one starts.
pub create_mbr_image-IsMbrDisk :
    (host : Host) (specs : List PrimarySpec) (size_mb : ℤ) (f : File)
    → create_mbr_image host specs size_mb ≡ ok f
    → IsMbrDisk host specs (to_ℕ size_mb * 2048) f
unfolding create_mbr_image
create_mbr_image-IsMbrDisk host specs size_mb f e₀ =
    let (few, e₁) =
      guard-eq-ok (leb 1 (length specs) && leb (length specs) 4) bad_partition_count _ e₀ in
    let bytes : ℕ = to_ℕ size_mb * 1024 * 1024 in
    let (good, e₂) =
      refuse-eq-ok
        (is_not_positive size_mb || not (bytes % 512 == 0) || ltb 0xffff_ffff (bytes / 512))
        bad_mbr_size _ e₁ in
    let sectors : to_ℕ size_mb * 1024 * 1024 / 512 ≡ to_ℕ size_mb * 2048 = omega arith in
    let total = to_ℕ size_mb * 2048 in
    let (layout, laid, e₃) =
      bind-eq-ok (layout_primaries host total 0 1 specs) _ (rw sectors at e₂) in
    let (mbr, is_mbr, e₄) = bind-eq-ok (partition_sector layout) _ e₃ in
    let whole : to_ℕ size_mb * 1024 * 1024 ≡ to_ℕ size_mb * 2048 * 512 = omega arith in
    filled-IsMbrDisk host specs total layout mbr bytes f (ground arith)
      (omega (arith, to_ℕ_pos size_mb (or-first (is_not_positive size_mb) _ (or-first _ _ good))))
      whole laid is_mbr e₄
