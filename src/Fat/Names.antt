-- ===== src/Fat/Names.antt =====
-- `_validate_component` and the 8.3 names of `_assign_short_names`, one name at a time.
-- A `str` is the list of its code points.
pub mod Fresh
use rules_ostest.Base.{
  ℕ, zero, suc, ◌+◌, ◌-◌, ◌/◌, ◌%◌, Bool, true, false, not, ◌&&◌, ◌||◌, Option, none, some, List,
  [], ◌∷◌, ◌++◌, ltb, leb, ◌==◌, if◌then◌else◌, length, is_empty, get_or, take, drop, ◌>>◌, refuse,
  Result, ok, err,
}
use rules_ostest.Bytes.{Bytes, ljust}
use rules_ostest.Fat.{
  FatError, invalid_component, space_or_dot_at_end, forbidden_character, name_too_long,
  bad_encoding, no_alias,
}

abbrev pub Name : Type 0
Name = List ℕ

-- `str.casefold` and `str.upper`.
pub record Unicode : Type 0 where
  pub casefold : Name → Name
  pub upper : Name → Name

abbrev pub same_name : Name → Name → Bool
same_name [] [] = true
same_name (c ∷ cs) (d ∷ ds) = (c == d) && same_name cs ds
same_name _ _ = false

-- `c in chars`
abbrev pub contains : ℕ → List ℕ → Bool
contains c [] = false
contains c (d ∷ ds) = (c == d) || contains c ds

-- `raw in used`
abbrev pub is_used : Name → List Name → Bool
is_used raw [] = false
is_used raw (u ∷ used) = same_name raw u || is_used raw used

-- The code units of `str.encode("utf-16le")`, which raises on a surrogate.
unfoldable pub utf16_units : Name → Option (List ℕ)
utf16_units [] = some []
utf16_units (c ∷ cs) =
    let rest = utf16_units cs in
    if leb 0xd800 c && ltb c 0xe000 then none else elim rest [
      | none ↦ none
      | some units ↦ some (
          if ltb c 0x1_0000
          then c ∷ units
          else (0xd800 + (c - 0x1_0000) / 1024) ∷ ((0xdc00 + (c - 0x1_0000) % 1024) ∷ units))
    ]

-- The code points of '<>:"/\\|?*'.
abbrev pub forbidden_chars : List ℕ
forbidden_chars = 0x3c ∷ 0x3e ∷ 0x3a ∷ 0x22 ∷ 0x2f ∷ 0x5c ∷ 0x7c ∷ 0x3f ∷ 0x2a ∷ []

abbrev pub has_forbidden : Name → Bool
has_forbidden [] = false
has_forbidden (c ∷ cs) = ltb c 32 || contains c forbidden_chars || has_forbidden cs

abbrev pub last_char : Name → ℕ
last_char [] = 0
last_char (c ∷ []) = c
last_char (c ∷ d ∷ cs) = last_char (d ∷ cs)

unfoldable pub validate_component : Name → Result FatError (Unit {0})
unfolding utf16_units
validate_component component = do
  refuse
      (is_empty component
        || same_name component (0x2e ∷ [])
        || same_name component (0x2e ∷ 0x2e ∷ []))
      invalid_component
  refuse (contains (last_char component) (0x20 ∷ 0x2e ∷ [])) space_or_dot_at_end
  refuse (has_forbidden component) forbidden_character
  elim (utf16_units component) [
    | none ↦ err bad_encoding
    | some units ↦ refuse (ltb 255 (length units)) name_too_long
  ]

-- `VALID_SHORT_CHARS`
abbrev pub is_valid_short : ℕ → Bool
is_valid_short c =
    (leb 0x41 c && leb c 0x5a)
    || (leb 0x30 c && leb c 0x39)
    || contains c (
        0x24 ∷ 0x25 ∷ 0x27 ∷ 0x2d ∷ 0x5f ∷ 0x40 ∷ 0x7e ∷ 0x60 ∷ 0x21 ∷ 0x28 ∷ 0x29 ∷ 0x7b ∷ 0x7d
        ∷ 0x5e ∷ 0x23 ∷ 0x26 ∷ [])

-- `RESERVED_SHORT_NAMES`
abbrev pub is_reserved : Name → Bool
is_reserved (a ∷ b ∷ c ∷ []) = is_used (a ∷ b ∷ c ∷ []) (
    (0x43 ∷ 0x4f ∷ 0x4e ∷ [])
    ∷ (0x50 ∷ 0x52 ∷ 0x4e ∷ [])
    ∷ (0x41 ∷ 0x55 ∷ 0x58 ∷ [])
    ∷ (0x4e ∷ 0x55 ∷ 0x4c ∷ [])
    ∷ [])
is_reserved (a ∷ b ∷ c ∷ d ∷ []) =
    is_used (a ∷ b ∷ c ∷ []) ((0x43 ∷ 0x4f ∷ 0x4d ∷ []) ∷ (0x4c ∷ 0x50 ∷ 0x54 ∷ []) ∷ [])
    && leb 0x31 d
    && leb d 0x39
is_reserved _ = false

-- `name.rsplit(".", 1)` where there is a dot: the parts before and behind the last one.
unfoldable pub rsplit_dot : Name → Option (Name × Name)
rsplit_dot [] = none
rsplit_dot (c ∷ cs) = elim (rsplit_dot cs) [
  | some (base, extension) ↦ some (c ∷ base, extension)
  | none ↦ if c == 0x2e then some ([], cs) else none
]

unfoldable pub split_filename : Name → Name × Name
unfolding rsplit_dot
split_filename name =
    if get_or name 0 0 == 0x2e
    then (name, [])
    else elim (rsplit_dot name) [ none ↦ (name, []) | some parts ↦ parts ]

-- The loop of `_sanitize_short_part`, over `value.upper()`.
abbrev pub sanitize_chars : Name → Name
sanitize_chars [] = []
sanitize_chars (c ∷ cs) =
    let rest = sanitize_chars cs in
    if is_valid_short c
    then c ∷ rest
    else if contains c (0x20 ∷ 0x2e ∷ [])
    then rest
    else 0x5f ∷ rest

abbrev pub sanitize_short_part : Unicode → Name → Name
sanitize_short_part uni value = sanitize_chars (uni.upper value)

-- `rstrip()` of a name that holds no white space but spaces.
abbrev pub rstrip : Name → Name
rstrip [] = []
rstrip (c ∷ cs) = let rest = rstrip cs in if c == 0x20 && is_empty rest then [] else c ∷ rest

abbrev pub short_display_name : Bytes → Name
short_display_name raw =
    let extension = rstrip (drop 8 raw) in
    rstrip (take 8 raw) ++ (if is_empty extension then [] else 0x2e ∷ extension)

-- `base.ljust(8) + extension.ljust(3)`
abbrev pub eight_three : Name → Name → Bytes
eight_three base extension = ljust 8 0x20 base ++ ljust 3 0x20 extension

-- `all(char.upper() in VALID_SHORT_CHARS for char in …)`
abbrev pub all_valid : Unicode → Name → Bool
all_valid uni [] = true
all_valid uni (c ∷ cs) =
    (length (uni.upper (c ∷ [])) == 1)
    && is_valid_short (get_or (uni.upper (c ∷ [])) 0 0)
    && all_valid uni cs

-- `str(n)`, for a number of at most `fuel` digits.
abbrev pub digits : ℕ → ℕ → Name
digits zero n = []
digits (suc fuel) n =
    let front = digits fuel (n / 10) in
    if ltb n 10 then (0x30 + n) ∷ [] else front ++ ((0x30 + n % 10) ∷ [])

abbrev pub candidate_base : Name → ℕ → Name
candidate_base stem n =
    let suffix = 0x7e ∷ digits 6 n in take 8 (take (8 - length suffix) stem ++ suffix)

-- The loop over the numbers behind `~`, `fuel` of them from `n` on.
unfoldable pub find_alias : ℕ → ℕ → Name → Name → List Name → Option Bytes
find_alias zero n stem extension used = none
find_alias (suc fuel) n stem extension used =
    let candidate = eight_three (candidate_base stem n) extension in
    let rest = find_alias fuel (n + 1) stem extension used in
    if not (is_used candidate used) && not (is_reserved (candidate_base stem n))
    then some candidate
    else rest

abbrev pub is_direct : Unicode → Name → Name → List Name → Bool
is_direct uni base extension used =
    let direct_base = take 8 (sanitize_short_part uni base) in
    let direct = eight_three direct_base (take 3 (sanitize_short_part uni extension)) in
    not (is_empty direct_base)
    && leb (length base) 8
    && leb (length extension) 3
    && all_valid uni (base ++ extension)
    && not (is_reserved (uni.upper base))
    && not (is_used direct used)

-- `for suffix_number in range(1, 1_000_000)`
unfoldable pub numbered_alias : Name → Name → List Name → Option Bytes
unfolding find_alias
numbered_alias stem extension used = find_alias 999_999 1 stem extension used

abbrev pub choose_name : Bool → Bytes → Option Bytes → Result FatError Bytes
choose_name true direct numbered = ok direct
choose_name false direct none = err no_alias
choose_name false direct (some raw) = ok raw

-- One round of the loop of `_assign_short_names`.
unfoldable pub assign_short_name : Unicode → Name → List Name → Result FatError Bytes
assign_short_name uni name used =
    let base = (split_filename name).0 in
    let extension = (split_filename name).1 in
    let clean_base = sanitize_short_part uni base in
    let clean_extension = take 3 (sanitize_short_part uni extension) in
    let stem = if is_empty clean_base then 0x5f ∷ [] else clean_base in
    choose_name (is_direct uni base extension used)
      (eight_three (take 8 clean_base) clean_extension) (numbered_alias stem clean_extension used)
