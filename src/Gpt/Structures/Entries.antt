-- ===== src/Gpt/Structures/Entries.antt =====
-- One round of the loop of `_partition_entries`, and the table of all entries.
use rules_ostest.Disk.Regions.{or_raise-eq-ok}
use mathlib.Core.Path.{ap₂}
use rules_ostest.Gpt.Structures.{write_entry}
use rules_ostest.Bytes.Slices.{
  slice_split, slice-overlay_outside, slice-overlay_at, slice_zeros, slice_shift,
}
use rules_ostest.Base.{
  ℕ, ◌+◌, ◌-◌, ◌*◌, ◌^◌, ◌≤◌, ◌<◌, ◌≡◌, refl, sym, ap, ◌∙◌, ◌⊎◌, none, some, List, [], ◌∷◌, ◌++◌,
  arith, ltb, length, ok-injective, bind-eq-ok, refuse-eq-ok, ok,
}
use rules_ostest.Bytes.{Bytes, to_le, slice, overlay, ljust, Buffer}
use rules_ostest.Bytes.Overlay.{overlay_outside, pack_le-bind}
use rules_ostest.Disk.{Host, or_raise, bad_encoding, name_too_long, struct_error}
use rules_ostest.Gpt.{Partition}

-- The name in UTF-16, where it can be encoded.
abbrev pub encoded_name : Host → Partition → Bytes
encoded_name host p = elim (host.utf16le p.partition_name) [ none ↦ [] | some name ↦ name ]

-- An entry as UEFI lays it out: 128 bytes.
abbrev pub entry_bytes : Host → Partition → Bytes
entry_bytes host p =
    p.type_guid
    ++ (p.unique_guid
        ++ ((to_le 8 p.start_lba ++ (to_le 8 p.end_lba ++ to_le 8 p.attributes))
            ++ ljust 72 0 (encoded_name host p)))

abbrev pub table : Host → List Partition → Bytes
table host [] = []
table host (p ∷ ps) = entry_bytes host p ++ table host ps

pub record HasGuids (p : Partition) : Type 0 where
  pub type_length : length p.type_guid ≡ 16
  pub unique_length : length p.unique_guid ≡ 16

module _ (o : ℕ) (type unique numbers name : Bytes) (byte : ℕ → ℕ) where
  -- The four writes of one entry at `o`.
  abbrev written : ℕ → ℕ
  written =
      overlay (o + 56) name
        (overlay (o + 32) numbers (overlay (o + 16) unique (overlay o type byte)))

  module _ (t : length type ≡ 16) (u : length unique ≡ 16) (q : length numbers ≡ 24)
      (short : length name ≤ 72) where
    written_outside : (i : ℕ) → (i < o) ⊎ (o + 128 ≤ i) → written i ≡ byte i
    written_outside i out =
        overlay_outside (o + 56) name _ i (omega arith)
        ∙ overlay_outside (o + 32) numbers _ i (omega arith)
        ∙ overlay_outside (o + 16) unique _ i (omega arith)
        ∙ overlay_outside o type byte i (omega arith)

    type_there : slice written o 16 ≡ type
    type_there =
        slice-overlay_outside (o + 56) name _ o 16 (omega arith)
        ∙ slice-overlay_outside (o + 32) numbers _ o 16 (omega arith)
        ∙ slice-overlay_outside (o + 16) unique _ o 16 (omega arith)
        ∙ slice-overlay_at o type byte 16 t

    unique_there : slice written (o + 16) 16 ≡ unique
    unique_there =
        slice-overlay_outside (o + 56) name _ (o + 16) 16 (omega arith)
        ∙ slice-overlay_outside (o + 32) numbers _ (o + 16) 16 (omega arith)
        ∙ slice-overlay_at (o + 16) unique _ 16 u

    numbers_there : slice written (o + 32) 24 ≡ numbers
    numbers_there =
        slice-overlay_outside (o + 56) name _ (o + 32) 24 (omega arith)
        ∙ slice-overlay_at (o + 32) numbers _ 24 q

    -- Behind the name the entry keeps its zeros.
    pad_there :
        ((i : ℕ) → i < 128 → byte (o + i) ≡ 0)
        → (i : ℕ) → i < 72 - length name
        → written (o + 56 + length name + i) ≡ 0
    pad_there zeros i p =
        let k : ℕ = 56 + length name + i in
        let e : o + 56 + length name + i ≡ o + k = omega arith in
        ap written e
        ∙ overlay_outside (o + 56) name _ (o + k) (omega arith)
        ∙ overlay_outside (o + 32) numbers _ (o + k) (omega arith)
        ∙ overlay_outside (o + 16) unique _ (o + k) (omega arith)
        ∙ overlay_outside o type byte (o + k) (omega arith)
        ∙ zeros k (omega arith)

    name_there :
        ((i : ℕ) → i < 128 → byte (o + i) ≡ 0) → slice written (o + 56) 72 ≡ ljust 72 0 name
    name_there zeros =
        let e : 72 ≡ length name + (72 - length name) = omega arith in
        ap (slice written (o + 56)) e
        ∙ slice_split written (o + 56) (length name) (72 - length name)
        ∙ ap₂ ◌++◌ (slice-overlay_at (o + 56) name _ (length name) refl)
            (slice_zeros written (o + 56 + length name) (72 - length name) (pad_there zeros))

    written_inside :
        ((i : ℕ) → i < 128 → byte (o + i) ≡ 0)
        → slice written o 128 ≡ type ++ (unique ++ (numbers ++ ljust 72 0 name))
    written_inside zeros =
        slice_split written o 16 112
        ∙ ap₂ ◌++◌ type_there (
            slice_split written (o + 16) 16 96
            ∙ ap₂ ◌++◌ unique_there (
                slice_shift written _ (o + 32) 96 (omega arith)
                ∙ slice_split written (o + 32) 24 72
                ∙ ap₂ ◌++◌ numbers_there
                    (slice_shift written _ (o + 56) 72 (omega arith) ∙ name_there zeros)))

-- One round: the entry is in its place, and nothing else has changed.
pub record IsWritten (host : Host) (index : ℕ) (p : Partition) (b b' : Buffer) : Type 0 where
  pub size_kept : b'.size ≡ b.size
  pub fits : (p.start_lba < 2 ^ 64) × (p.end_lba < 2 ^ 64) × (p.attributes < 2 ^ 64)
  pub encodes : host.utf16le p.partition_name ≡ some (encoded_name host p)
  pub short : length (encoded_name host p) ≤ 72
  pub inside :
      ((i : ℕ) → i < 128 → b.byte (index * 128 + i) ≡ 0)
      → slice b'.byte (index * 128) 128 ≡ entry_bytes host p
  pub outside : (i : ℕ) → (i < index * 128) ⊎ (index * 128 + 128 ≤ i) → b'.byte i ≡ b.byte i

encoded_name-eq :
    (host : Host) (p : Partition) (name : Bytes)
    → host.utf16le p.partition_name ≡ some name
    → encoded_name host p ≡ name
encoded_name-eq host p name e = rw (e, encoded_name)

pub write_entry-IsWritten :
    (host : Host) (index : ℕ) (p : Partition) (b b' : Buffer)
    → HasGuids p
    → write_entry host index p b ≡ ok b'
    → IsWritten host index p b b'
unfolding write_entry
write_entry-IsWritten host index p b b' g e₀ =
    let (name, encoded, e₁) =
      bind-eq-ok (or_raise bad_encoding (host.utf16le p.partition_name)) _ e₀ in
    let (short, e₂) = refuse-eq-ok (ltb 72 (length name)) (name_too_long (index + 1)) _ e₁ in
    let (start, e₃) = pack_le-bind struct_error 8 p.start_lba _ b' e₂ in
    let (end, e₄) = pack_le-bind struct_error 8 p.end_lba _ b' e₃ in
    let (attributes, e₅) = pack_le-bind struct_error 8 p.attributes _ b' e₄ in
    let same = or_raise-eq-ok bad_encoding (host.utf16le p.partition_name) name encoded in
    let is : encoded_name host p ≡ name = encoded_name-eq host p name same in
    let numbers = to_le 8 p.start_lba ++ (to_le 8 p.end_lba ++ to_le 8 p.attributes) in
    let short' : length name ≤ 72 = ground arith in
    record {
      size_kept = ap (λ c. c.size) (sym (ok-injective e₅));
      fits = (start, end, attributes);
      encodes = same ∙ ap some (sym is);
      short = rw is short';
      inside = λ zeros.
          ap (λ c. slice c.byte (index * 128) 128) (sym (ok-injective e₅))
          ∙ written_inside (index * 128) p.type_guid p.unique_guid numbers name b.byte g.type_length
              g.unique_length refl short' zeros
          ∙ ap (λ n. p.type_guid ++ (p.unique_guid ++ (numbers ++ ljust 72 0 n))) (sym is);
      outside = λ i out.
          ap (λ c. c.byte i) (sym (ok-injective e₅))
          ∙ written_outside (index * 128) p.type_guid p.unique_guid numbers name b.byte
              g.type_length g.unique_length refl short' i out;
    }
