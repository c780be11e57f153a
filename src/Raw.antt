-- ===== src/Raw.antt =====
-- ostest/private/raw_image.py.
pub mod Blobs
pub mod Composed
use rules_ostest.Base.Int.{ℤ, to_ℕ, is_not_positive}
use rules_ostest.Bytes.{Bytes}
use rules_ostest.Text.{Text, same_text}
use rules_ostest.Files.{File, copy, seek, truncate, fresh}
use rules_ostest.Base.{
  ℕ, ◌+◌, ◌-◌, ◌*◌, String, Bool, true, false, not, ◌&&◌, ◌||◌, Option, none, some, List, [], ◌∷◌,
  ltb, leb, ◌==◌, if◌then◌else◌, length, is_empty, ◌>>=◌, ◌>>◌, guard, refuse, Result, ok, err,
}

pub data RawError : Type 0 where
  invalid_offset key_error bad_size not_a_file beyond_image overlapping os_error : RawError

-- What the module calls: the file system, how `re.IGNORECASE` matches a letter of the pattern,
-- `str.lower`, and the order of `str(path)`.
pub record RawHost : Type 0 where
  pub contents : String → Option Bytes
  pub matches_letter : ℕ → ℕ → Bool
  pub lower : Text → Text
  pub path_before : String → String → Bool

abbrev pub is_digit : ℕ → Bool
is_digit c = leb 0x30 c && leb c 0x39

-- The digits at the start and what is behind them.
abbrev pub split_digits : Text → Text × Text
split_digits [] = ([], [])
split_digits (c ∷ cs) =
    let rest = split_digits cs in if is_digit c then (c ∷ rest.0, rest.1) else ([], c ∷ cs)

-- `(0|[1-9][0-9]*)`
abbrev pub is_count : Text → Bool
is_count [] = false
is_count (c ∷ cs) = not (c == 0x30) || is_empty cs

abbrev pub digits_value : ℕ → Text → ℕ
digits_value n [] = n
digits_value n (c ∷ cs) = digits_value (n * 10 + (c - 0x30)) cs

-- "b", "kib", "mib", "gib" and "s"
abbrev pub unit_b : Text
unit_b = 0x62 ∷ []

abbrev pub unit_kib : Text
unit_kib = 0x6b ∷ 0x69 ∷ 0x62 ∷ []

abbrev pub unit_mib : Text
unit_mib = 0x6d ∷ 0x69 ∷ 0x62 ∷ []

abbrev pub unit_gib : Text
unit_gib = 0x67 ∷ 0x69 ∷ 0x62 ∷ []

abbrev pub unit_s : Text
unit_s = 0x73 ∷ []

-- `_MULTIPLIERS[unit]`
abbrev pub multiplier : Text → Option ℕ
multiplier unit =
    if is_empty unit || same_text unit unit_b
    then some 1
    else if same_text unit unit_kib
    then some 1024
    else if same_text unit unit_mib
    then some (1024 * 1024)
    else if same_text unit unit_gib
    then some (1024 * 1024 * 1024)
    else if same_text unit unit_s
    then some 512
    else none

-- A blob: its place, its end, and its source with what the source holds.
pub record Blob : Type 0 where
  pub offset : ℕ
  pub end : ℕ
  pub source : String
  pub bytes : Bytes

-- `zip(blobs, blobs[1:])`
unfoldable pub check_overlaps : List Blob → Result RawError (Unit {0})
check_overlaps [] = ok tt
check_overlaps (b ∷ []) = ok tt
check_overlaps (b ∷ c ∷ blobs) = do
  refuse (ltb c.offset b.end) overlapping
  check_overlaps (c ∷ blobs)

unfoldable pub write_blobs : List Blob → File → File
write_blobs [] output = output
write_blobs (b ∷ blobs) output = write_blobs blobs (copy b.bytes (seek b.offset output))

module _ (host : RawHost) where
  abbrev pub matches_unit : Text → Text → Bool
  matches_unit [] [] = true
  matches_unit (p ∷ pattern) (c ∷ cs) = host.matches_letter p c && matches_unit pattern cs
  matches_unit _ _ = false

  -- `(B|KiB|MiB|GiB|s)?$`
  abbrev pub is_unit : Text → Bool
  is_unit text =
      is_empty text
      || matches_unit unit_b text
      || matches_unit unit_kib text
      || matches_unit unit_mib text
      || matches_unit unit_gib text
      || matches_unit unit_s text

  unfoldable pub parse_offset : Text → Result RawError ℕ
  parse_offset value =
      let split = split_digits value in
      do
        guard (is_count split.0 && is_unit split.1) invalid_offset
        elim (multiplier (host.lower split.1)) [
          | none ↦ err key_error
          | some m ↦ ok (digits_value 0 split.0 * m)
        ]

  -- A round of the loop over the entries.
  unfoldable pub make_blob : ℕ → String → Text → Result RawError Blob
  unfolding parse_offset
  make_blob total_size source offset_text = elim (host.contents source) [
    | none ↦ err not_a_file
    | some bytes ↦ (do
      offset ← parse_offset offset_text
      refuse (ltb total_size (offset + length bytes)) beyond_image
      ok (record { offset = offset; end = offset + length bytes; source = source; bytes = bytes }))
  ]

  unfoldable pub make_blobs : ℕ → List (String × Text) → Result RawError (List Blob)
  unfolding make_blob
  make_blobs total_size [] = ok []
  make_blobs total_size ((source, offset) ∷ entries) = do
    blob ← make_blob total_size source offset
    blobs ← make_blobs total_size entries
    ok (blob ∷ blobs)

  abbrev pub blob_before : Blob → Blob → Bool
  blob_before a b =
      ltb a.offset b.offset || ((a.offset == b.offset) && host.path_before a.source b.source)

  -- `blobs.sort`, which keeps the order of equal ones.
  abbrev pub insert_blob : Blob → List Blob → List Blob
  insert_blob b [] = b ∷ []
  insert_blob b (a ∷ blobs) =
      let rest = insert_blob b blobs in if blob_before a b then a ∷ rest else b ∷ (a ∷ blobs)

  abbrev pub sort_blobs : List Blob → List Blob
  sort_blobs [] = []
  sort_blobs (b ∷ blobs) = insert_blob b (sort_blobs blobs)

  unfoldable pub create_raw_image : List (String × Text) → ℤ → Result RawError File
  unfolding make_blobs check_overlaps write_blobs
  create_raw_image entries size_mb =
      let total_size = to_ℕ size_mb * 1024 * 1024 in
      do
        refuse (is_not_positive size_mb) bad_size
        blobs ← make_blobs total_size entries
        check_overlaps (sort_blobs blobs)
        ok (write_blobs (sort_blobs blobs) (truncate total_size fresh))
