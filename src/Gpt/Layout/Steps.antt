-- ===== src/Gpt/Layout/Steps.antt =====
-- One round of the loop of `_layout_partitions`.
use mathlib.Core.Path.{subst}
use rules_ostest.Gpt.Layout.Alignment.{align_up_mod, le-align_up, align_up_least}
use rules_ostest.Base.Int.{pos, is_negative, is_not_positive, to_ℕ, to_ℕ_pos}
use rules_ostest.Base.{
  ℕ, ◌+◌, ◌-◌, ◌/◌, ◌%◌, ◌^◌, ◌≤◌, ◌<◌, String, ◌≡◌, refl, sym, ap, ◌∙◌, ◌⊎◌, inl, inr, not, ◌||◌,
  arith, ltb, ◌==◌, ok-injective, bind-eq-ok, guard-eq-ok, refuse-eq-ok, ok,
}
use rules_ostest.Disk.{
  not_a_file, bad_image_size, bad_alignment, negative_start, outside_disk, attributes_too_wide,
  Host, logical_size, resolve_compression,
}
use rules_ostest.Gpt.{Partition, PartitionSpec, get, guid, parse_uuid, partition_kind}
use rules_ostest.Gpt.Layout.{is_file, align_up, choose_start, Slot, find_slot, layout_one}

-- The place of a partition that was asked for at `requested`, 0 for no request.
pub record IsPlaced (host : Host) (first last cursor : ℕ) (p : Partition) : Type 0 where
  pub measured : logical_size host p.image p.image_compression ≡ ok p.image_size
  pub has_sectors : 0 < p.image_size
  pub whole_sectors : p.image_size % 512 ≡ 0
  pub alignment_pos : 0 < p.alignment_lba
  pub aligned : p.start_lba % p.alignment_lba ≡ 0
  pub behind_cursor : cursor ≤ p.start_lba
  pub where_asked :
      (p.requested_start_lba ≡ p.start_lba)
      ⊎ ((p.requested_start_lba ≡ 0) × (p.start_lba ≡ align_up cursor p.alignment_lba))
  pub end_is : p.end_lba + 1 ≡ p.start_lba + p.image_size / 512
  pub from_first : first ≤ p.start_lba
  pub to_last : p.end_lba ≤ last
  pub attributes_fit : p.attributes < 2 ^ 64

choose_start_lem :
    (number cursor alignment requested start : ℕ)
    → 0 < alignment
    → choose_start number cursor alignment requested ≡ ok start
    → (start % alignment ≡ 0)
      × (cursor ≤ start)
      × ((requested ≡ start) ⊎ ((requested ≡ 0) × (start ≡ align_up cursor alignment)))
unfolding choose_start
choose_start_lem number cursor alignment requested start h e =
    ground (arith, align_up_mod cursor alignment, le-align_up cursor alignment)

pub record IsSlot (host : Host) (first last cursor : ℕ) (spec : PartitionSpec) (s : Slot)
    : Type 0 where
  pub requested_is : s.requested ≡ to_ℕ (get spec.start_lba (pos 0))
  pub alignment_is : s.alignment ≡ to_ℕ (get spec.alignment_lba (pos 2048))
  pub measured : logical_size host spec.image s.compression ≡ ok s.size
  pub has_sectors : 0 < s.size
  pub whole_sectors : s.size % 512 ≡ 0
  pub alignment_pos : 0 < s.alignment
  pub aligned : s.start % s.alignment ≡ 0
  pub behind_cursor : cursor ≤ s.start
  pub where_asked :
      (s.requested ≡ s.start) ⊎ ((s.requested ≡ 0) × (s.start ≡ align_up cursor s.alignment))
  pub end_is : s.end + 1 ≡ s.start + s.size / 512
  pub from_first : first ≤ s.start
  pub to_last : s.end ≤ last

find_slot-IsSlot :
    (host : Host) (first last number cursor : ℕ) (spec : PartitionSpec) (s : Slot)
    → find_slot host first last number cursor spec ≡ ok s
    → IsSlot host first last cursor spec s
unfolding find_slot
find_slot-IsSlot host first last number cursor spec s e₀ =
    let (_, e₁) = guard-eq-ok (is_file host spec.image) (not_a_file number) _ e₀ in
    let (c, resolved, e₂) =
      bind-eq-ok (resolve_compression host spec.image (get spec.image_compression "auto")) _ e₁ in
    let (size, sized, e₃) = bind-eq-ok (logical_size host spec.image c) _ e₂ in
    let (whole, e₄) =
      refuse-eq-ok (size == 0 || not (size % 512 == 0)) (bad_image_size number) _ e₃ in
    let (positive, e₅) =
      refuse-eq-ok (is_not_positive (get spec.alignment_lba (pos 2048))) (bad_alignment number) _
        e₄ in
    let (_, e₆) =
      refuse-eq-ok (is_negative (get spec.start_lba (pos 0))) (negative_start number) _ e₅ in
    let alignment = to_ℕ (get spec.alignment_lba (pos 2048)) in
    let requested = to_ℕ (get spec.start_lba (pos 0)) in
    let (start, chosen, e₇) = bind-eq-ok (choose_start number cursor alignment requested) _ e₆ in
    let end : ℕ = start + size / 512 - 1 in
    let (inside, e₈) = refuse-eq-ok (ltb start first || ltb last end) (outside_disk number) _ e₇ in
    let alignment_pos = to_ℕ_pos (get spec.alignment_lba (pos 2048)) positive in
    let placed = choose_start_lem number cursor alignment requested start alignment_pos chosen in
    subst (IsSlot host first last cursor spec) (ok-injective e₈) (record {
      requested_is = refl;
      alignment_is = refl;
      measured = sized;
      has_sectors = ground arith;
      whole_sectors = ground arith;
      alignment_pos = alignment_pos;
      aligned = placed.0;
      behind_cursor = placed.1;
      where_asked = placed.2;
      end_is = ground arith;
      from_first = ground arith;
      to_last = ground arith;
    })

-- A round that goes on has placed its partition.
pub layout_one-IsPlaced :
    (host : Host) (identity : String) (first last index cursor : ℕ) (spec : PartitionSpec)
    (p : Partition)
    → layout_one host identity first last index cursor spec ≡ ok p
    → IsPlaced host first last cursor p
unfolding layout_one
layout_one-IsPlaced host identity first last index cursor spec p e₀ =
    let (s, found, e₁) = bind-eq-ok (find_slot host first last (index + 1) cursor spec) _ e₀ in
    let (unique, _, e₂) =
      bind-eq-ok
        (guid host (get spec.unique_guid "") identity
          (partition_kind index (get spec.partition_name "")))
        _ e₁ in
    let attributes = get spec.attributes (pos 0) in
    let (fits, e₃) =
      refuse-eq-ok (is_negative attributes || ltb 0xffff_ffff_ffff_ffff (to_ℕ attributes))
        (attributes_too_wide (index + 1)) _ e₂ in
    let (type, _, e₄) = bind-eq-ok (parse_uuid host spec.type_guid) _ e₃ in
    let slot = find_slot-IsSlot host first last (index + 1) cursor spec s found in
    subst (IsPlaced host first last cursor) (ok-injective e₄) (record {
      measured = slot.measured;
      has_sectors = slot.has_sectors;
      whole_sectors = slot.whole_sectors;
      alignment_pos = slot.alignment_pos;
      aligned = slot.aligned;
      behind_cursor = slot.behind_cursor;
      where_asked = slot.where_asked;
      end_is = slot.end_is;
      from_first = slot.from_first;
      to_last = slot.to_last;
      attributes_fit = ground arith;
    })

-- What a spec asks for, 0 for no start, and what its partition got.
pub record IsAsked (cursor : ℕ) (spec : PartitionSpec) (p : Partition) : Type 0 where
  pub image : p.image ≡ spec.image
  pub aligned : p.start_lba % to_ℕ (get spec.alignment_lba (pos 2048)) ≡ 0
  pub start_asked :
      0 < to_ℕ (get spec.start_lba (pos 0)) → p.start_lba ≡ to_ℕ (get spec.start_lba (pos 0))
  pub start_first :
      to_ℕ (get spec.start_lba (pos 0)) ≡ 0
      → (t : ℕ) → cursor ≤ t
      → t % to_ℕ (get spec.alignment_lba (pos 2048)) ≡ 0
      → p.start_lba ≤ t

IsSlot-asked :
    (host : Host) (first last cursor : ℕ) (spec : PartitionSpec) (s : Slot)
    → IsSlot host first last cursor spec s
    → 0 < to_ℕ (get spec.start_lba (pos 0))
    → s.start ≡ to_ℕ (get spec.start_lba (pos 0))
IsSlot-asked host first last cursor spec s v h = elim v.where_asked [
  | inl e ↦ omega (arith, e, v.requested_is)
  | inr (e, k) ↦ omega (arith, e, v.requested_is)
]

IsSlot-first :
    (host : Host) (first last cursor : ℕ) (spec : PartitionSpec) (s : Slot)
    → IsSlot host first last cursor spec s
    → to_ℕ (get spec.start_lba (pos 0)) ≡ 0
    → (t : ℕ) → cursor ≤ t
    → t % to_ℕ (get spec.alignment_lba (pos 2048)) ≡ 0
    → s.start ≤ t
IsSlot-first host first last cursor spec s v h t le al = elim v.where_asked [
  | inl e ↦ omega (arith, e, v.requested_is)
  | inr (e, k) ↦
      let least =
        align_up_least cursor s.alignment t v.alignment_pos le (ap (t %◌) v.alignment_is ∙ al) in
      omega (arith, least, k)
]

pub layout_one-IsAsked :
    (host : Host) (identity : String) (first last index cursor : ℕ) (spec : PartitionSpec)
    (p : Partition)
    → layout_one host identity first last index cursor spec ≡ ok p
    → IsAsked cursor spec p
unfolding layout_one
layout_one-IsAsked host identity first last index cursor spec p e₀ =
    let (s, found, e₁) = bind-eq-ok (find_slot host first last (index + 1) cursor spec) _ e₀ in
    let (unique, _, e₂) =
      bind-eq-ok
        (guid host (get spec.unique_guid "") identity
          (partition_kind index (get spec.partition_name "")))
        _ e₁ in
    let attributes = get spec.attributes (pos 0) in
    let (_, e₃) =
      refuse-eq-ok (is_negative attributes || ltb 0xffff_ffff_ffff_ffff (to_ℕ attributes))
        (attributes_too_wide (index + 1)) _ e₂ in
    let (type, _, e₄) = bind-eq-ok (parse_uuid host spec.type_guid) _ e₃ in
    let v = find_slot-IsSlot host first last (index + 1) cursor spec s found in
    subst (IsAsked cursor spec) (ok-injective e₄) (record {
      image = refl;
      aligned = ap (s.start %◌) (sym v.alignment_is) ∙ v.aligned;
      start_asked = IsSlot-asked host first last cursor spec s v;
      start_first = IsSlot-first host first last cursor spec s v;
    })
