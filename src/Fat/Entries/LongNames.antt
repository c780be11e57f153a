-- ===== src/Fat/Entries/LongNames.antt =====
-- The entries of a long name, as a driver reads them.
use rules_ostest.Bytes.Overlay.{from_le-to_le}
use native.Mathlib.Nat.{zero-add, suc-add}
use rules_ostest.Fat.Entries.{
  lfn_entry, lfn_loop, lfn_units, lfn_entries, lfn_checksum, with_last_flag,
}
use rules_ostest.Bytes.{Bytes, from_le, slice, overlay, to_le}
use rules_ostest.Bytes.Slices.{slice_ext, slice-get_or}
use rules_ostest.Base.{
  ℕ, zero, suc, ◌+◌, ◌-◌, ◌*◌, ◌/◌, ◌%◌, ◌≤◌, ◌<◌, ◌≡◌, refl, sym, ap, ◌∙◌, Bool, true, false, ◌&&◌,
  Option, none, some, List, [], ◌∷◌, ◌++◌, arith, ltb, ◌==◌, if◌then◌else◌, le→ltb, length, get_or,
  take, drop, replicate, length-append, length-take, length-drop, length-replicate, take_all, All,
  ok,
}

abbrev pub units_of : Bytes → List ℕ
units_of (low ∷ high ∷ bytes) = from_le (low ∷ high ∷ []) ∷ units_of bytes
units_of _ = []

-- The 13 units of an entry.
abbrev pub entry_units : Bytes → List ℕ
entry_units entry =
    units_of (take 10 (drop 1 entry))
    ++ (units_of (take 12 (drop 14 entry)) ++ units_of (take 4 (drop 28 entry)))

-- The sequence number, the attributes and the checksum of an entry.
abbrev pub is_long : ℕ → ℕ → Bytes → Bool
is_long order checksum entry =
    (get_or entry 0 0 == order) && (get_or entry 11 0 == 0x0f) && (get_or entry 13 0 == checksum)

-- The units of the entries, the last part first; `flag` is on the first entry only.
abbrev pub read_units : ℕ → ℕ → List Bytes → Option (List ℕ)
read_units flag checksum [] = some []
read_units flag checksum (entry ∷ entries) = elim (read_units 0 checksum entries) [
  | none ↦ none
  | some front ↦
      if is_long (flag + length (entry ∷ entries)) checksum entry
      then some (front ++ entry_units entry)
      else none
]

abbrev pub until_nul : List ℕ → List ℕ
until_nul [] = []
until_nul (u ∷ us) = let rest = until_nul us in if u == 0 then [] else u ∷ rest

-- The checksum of a short name, as a driver computes it: the sum is rotated to the right in a byte
-- before each character is added.
abbrev pub short_name_sum : ℕ → Bytes → ℕ
short_name_sum sum [] = sum
short_name_sum sum (c ∷ cs) =
    short_name_sum (((if sum % 2 == 0 then sum / 2 else 0x80 + sum / 2) + c) % 0x100) cs

-- The name of long entries in front of a short name.
abbrev pub read_name : Bytes → List Bytes → Option (List ℕ)
read_name short_name entries = elim (read_units 0x40 (short_name_sum 0 short_name) entries) [
  | none ↦ none
  | some units ↦ some (until_nul units)
]

-- Every unit has 16 bits.
abbrev pub AreUnits : List ℕ → Type 0
AreUnits = All (λ u. u < 65536)

get_or_lt : (us : List ℕ) (i : ℕ) → AreUnits us → get_or us i 0 < 65536
get_or_lt [] i h = omega arith
get_or_lt (u ∷ us) zero h = h.0
get_or_lt (u ∷ us) (suc i) h = get_or_lt us i h.1

thirteen : (us : List ℕ) → length us ≡ 13 → us ≡ slice (λ i. get_or us i 0) 0 13
thirteen us h = sym (
    ap (slice (λ i. get_or us i 0) 0) (sym h)
    ∙ slice-get_or (λ i. get_or us i 0) 0 us (λ i p. ap (λ k. get_or us k 0) (omega arith)))

entry_units-slice :
    (order checksum : ℕ) (g : ℕ → ℕ)
    → entry_units (lfn_entry order checksum (slice g 0 13))
      ≡ slice (λ i. from_le (to_le 2 (g i))) 0 13
unfolding lfn_entry overlay
entry_units-slice order checksum g = refl

is_long-slice :
    (order checksum : ℕ) (g : ℕ → ℕ)
    → is_long order checksum (lfn_entry order checksum (slice g 0 13)) ≡ true
unfolding lfn_entry overlay
is_long-slice order checksum g = ground arith

entry_units-lfn_entry :
    (order checksum : ℕ) (us : List ℕ)
    → length us ≡ 13
    → AreUnits us
    → entry_units (lfn_entry order checksum us) ≡ us
entry_units-lfn_entry order checksum us h small =
    ap (λ l. entry_units (lfn_entry order checksum l)) (thirteen us h)
    ∙ entry_units-slice order checksum (λ i. get_or us i 0)
    ∙ slice_ext (λ i. from_le (to_le 2 (get_or us i 0))) (λ i. get_or us i 0) 0 0 13
        (λ i p. from_le-to_le 2 (get_or us (0 + i) 0) (get_or_lt us (0 + i) small))
    ∙ sym (thirteen us h)

is_long-lfn_entry :
    (order checksum : ℕ) (us : List ℕ)
    → length us ≡ 13
    → is_long order checksum (lfn_entry order checksum us) ≡ true
is_long-lfn_entry order checksum us h =
    ap (λ l. is_long order checksum (lfn_entry order checksum l)) (thirteen us h)
    ∙ is_long-slice order checksum (λ i. get_or us i 0)

take_add : (m n : ℕ) (us : List ℕ) → take (m + n) us ≡ take m us ++ take n (drop m us)
take_add zero n us = ap (λ k. take k us) (zero-add n)
take_add (suc m) n [] = rw (suc-add m n) (ap ([] ++◌) (take-nil n))
  where
    take-nil : (n : ℕ) → [] ≡ take {A = ℕ} n []
    take-nil zero = refl
    take-nil (suc n) = refl
take_add (suc m) n (u ∷ us) = rw (suc-add m n) (ap (u ∷◌) (take_add m n us))

AreUnits-take : (n : ℕ) (us : List ℕ) → AreUnits us → AreUnits (take n us)
AreUnits-take zero us h = tt
AreUnits-take (suc n) [] h = tt
AreUnits-take (suc n) (u ∷ us) h = (h.0, AreUnits-take n us h.1)

AreUnits-drop : (n : ℕ) (us : List ℕ) → AreUnits us → AreUnits (drop n us)
AreUnits-drop zero us h = h
AreUnits-drop (suc n) [] h = tt
AreUnits-drop (suc n) (u ∷ us) h = AreUnits-drop n us h.1

length-lfn_loop_entries :
    (n count checksum : ℕ) (us : List ℕ) → length (lfn_loop n count checksum us) ≡ n
unfolding lfn_loop
length-lfn_loop_entries zero count checksum us = refl
length-lfn_loop_entries (suc n) count checksum us =
    omega (arith, length-lfn_loop_entries n count checksum us)

-- The loop, of which `n` of `count` entries are left; the first of all has the flag.
read_units-lfn_loop :
    (n count checksum : ℕ) (us : List ℕ)
    → n ≤ count
    → count < 64
    → n * 13 ≤ length us
    → AreUnits us
    → read_units (if n == count then 0x40 else 0) checksum (lfn_loop n count checksum us)
      ≡ some (take (n * 13) us)
unfolding lfn_loop
read_units-lfn_loop zero count checksum us h few l small = refl
read_units-lfn_loop (suc n) count checksum us h few l small =
    let chunk = take 13 (drop (n * 13) us) in
    let order = if suc n == count then with_last_flag (suc n) else suc n in
    let entry = lfn_entry order checksum chunk in
    let size : length chunk ≡ 13 =
      omega (arith, length-take 13 (drop (n * 13) us), length-drop (n * 13) us) in
    let not_last : (n == count) ≡ false = ground arith in
    let ih =
      ap (λ t. read_units (if t then 0x40 else 0) checksum (lfn_loop n count checksum us))
        (sym not_last)
      ∙ read_units-lfn_loop n count checksum us (omega arith) few (omega arith) small in
    let flagged : (if suc n == count then 0x40 else 0) + suc (length (lfn_loop n count checksum us))
        ≡ order =
      ground (arith, length-lfn_loop_entries n count checksum us) in
    let good =
      ap (λ o. is_long o checksum entry) flagged ∙ is_long-lfn_entry order checksum chunk size in
    let whole : take (n * 13) us ++ entry_units entry ≡ take (suc n * 13) us =
      ap (take (n * 13) us ++◌) (
        entry_units-lfn_entry order checksum chunk size
          (AreUnits-take 13 (drop (n * 13) us) (AreUnits-drop (n * 13) us small)))
      ∙ sym (take_add (n * 13) 13 us)
      ∙ ap (λ k. take k us) (omega arith) in
    rw ih (rw good (ap some whole))

length-lfn_units :
    (encoded : List ℕ) → length (lfn_units encoded) ≡ (length encoded + 1 + 12) / 13 * 13
length-lfn_units encoded =
    let pad = (length encoded + 1 + 12) / 13 * 13 - (length encoded + 1) in
    omega
      (arith, length-append encoded (0 ∷ replicate pad 0xffff), length-replicate {A = ℕ} pad 0xffff)

AreUnits-padded : (n : ℕ) (us : List ℕ) → AreUnits us → AreUnits (us ++ (0 ∷ replicate n 0xffff))
AreUnits-padded n [] h = (omega arith, filling n)
  where
    filling : (n : ℕ) → AreUnits (replicate n 0xffff)
    filling zero = tt
    filling (suc n) = (omega arith, filling n)
AreUnits-padded n (u ∷ us) h = (h.0, AreUnits-padded n us h.1)

until_nul-append : (us vs : List ℕ) → All (λ u. 0 < u) us → until_nul (us ++ (0 ∷ vs)) ≡ us
until_nul-append [] vs h = refl
until_nul-append (u ∷ us) vs h =
    let ih = until_nul-append us vs h.1 in
    let present : (u == 0) ≡ false = ground (arith, h.0) in rw present (ap (u ∷◌) ih)

lfn_checksum-short_name_sum :
    (sum : ℕ) (short_name : Bytes) → lfn_checksum sum short_name ≡ short_name_sum sum short_name
unfolding lfn_checksum
lfn_checksum-short_name_sum sum [] = refl
lfn_checksum-short_name_sum sum (c ∷ cs) =
    ap (λ rotated. lfn_checksum ((rotated + c) % 0x100) cs) (rotate sum)
    ∙ lfn_checksum-short_name_sum (((if sum % 2 == 0 then sum / 2 else 0x80 + sum / 2) + c) % 0x100)
        cs
  where
    rotate : (n : ℕ) → n % 2 * 128 + n / 2 ≡ (if n % 2 == 0 then n / 2 else 0x80 + n / 2)
    rotate n = ground arith

-- For a name of at most 255 16-bit units, none of them 0, the entries are made without an error,
-- and a reader that knows the short name and checks the sequence number, the flag of the first
-- entry, the attributes and the checksum of the short name in every long entry accepts them and
-- gets the name back.
pub lfn_entries-read_name :
    (encoded : List ℕ) (short_name : Bytes)
    → length encoded ≤ 255
    → AreUnits encoded
    → All (λ u. 0 < u) encoded
    → (entries : List Bytes) × (lfn_entries encoded short_name ≡ ok entries)
      × (read_name short_name entries ≡ some encoded)
unfolding lfn_entries
lfn_entries-read_name encoded short_name short small present =
    let checksum = lfn_checksum 0 short_name in
    let count = (length encoded + 1 + 12) / 13 in
    let units = lfn_units encoded in
    let same : (count == count) ≡ true = ground arith in
    let byte : ltb 255 count ≡ false = le→ltb 255 count (omega arith) in
    let size = length-lfn_units encoded in
    let read =
      ap (λ t. read_units (if t then 0x40 else 0) checksum (lfn_loop count count checksum units))
        (sym same)
      ∙ read_units-lfn_loop count count checksum units (omega arith) (omega arith)
          (omega (arith, size)) (AreUnits-padded (count * 13 - (length encoded + 1)) encoded small)
      ∙ ap some (take_all (count * 13) units size) in
    (
      lfn_loop count count checksum units,
      rw byte refl,
      ap (λ sum. read_name_by sum (lfn_loop count count checksum units))
            (sym (lfn_checksum-short_name_sum 0 short_name))
          ∙ ap (λ o. elim o [ none ↦ none | some us ↦ some (until_nul us) ]) read
          ∙ ap some (
              until_nul-append encoded (replicate (count * 13 - (length encoded + 1)) 0xffff)
                present),
    )
  where
    read_name_by : ℕ → List Bytes → Option (List ℕ)
    read_name_by sum entries = elim (read_units 0x40 sum entries) [
      | none ↦ none
      | some us ↦ some (until_nul us)
    ]
