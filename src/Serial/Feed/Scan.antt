-- ===== src/Serial/Feed/Scan.antt =====
-- The search for forbidden markers in a chunk behind the kept end of the stream.
use rules_ostest.Serial.{overlap_of}
use rules_ostest.Search.Overlap.{find-append_some, find-cons_none, find-append_none, drop-drop}
use mathlib.Core.Path.{ap₂}
use rules_ostest.Base.{
  ℕ, zero, suc, ◌+◌, ◌-◌, ◌≤◌, ◌<◌, ◌≡◌, refl, sym, ap, ◌∙◌, inl, inr, Bool, true, false, ◌||◌,
  Option, none, some, List, [], ◌∷◌, ◌++◌, arith, Option-cases, length, drop, length-drop, All,
}
use rules_ostest.Bytes.{Bytes}
use rules_ostest.Search.{find, last}
use rules_ostest.Serial.Feed.{Hit, first_forbidden, better}

-- `marker in stream`
abbrev pub occurs : Bytes → Bytes → Bool
occurs marker stream = elim (find marker stream) [ none ↦ false | some _ ↦ true ]

abbrev pub any_occurs : List Bytes → Bytes → Bool
any_occurs [] stream = false
any_occurs (marker ∷ markers) stream = occurs marker stream || any_occurs markers stream

abbrev pub found : Option Hit → Bool
found none = false
found (some _) = true

-- The loop finds a marker exactly when one occurs, or when one was found before.
pub first_forbidden-found :
    (order : ℕ) (markers : List Bytes) (window : Bytes) (first : Option Hit)
    → found (first_forbidden order markers window first)
      ≡ (any_occurs markers window || found first)
unfolding first_forbidden
first_forbidden-found order [] window first = refl
first_forbidden-found order (marker ∷ markers) window first =
    elim (Option-cases (find marker window)) [
      | inl e ↦ ground (arith, first_forbidden-found (order + 1) markers window first)
      | inr (p, e) ↦ ground (
        arith,
        first_forbidden-found (order + 1) markers window
            (better first (record { position = p; order = order; marker = marker })),
      )
    ]

or-eq-false : (a b : Bool) → (a || b) ≡ false → (a ≡ false) × (b ≡ false)
or-eq-false a b h = ground arith

-- A marker in the stream with more bytes behind it, or in front.
occurs-append : (m xs ys : Bytes) → occurs m (xs ++ ys) ≡ false → occurs m xs ≡ false
occurs-append m xs ys h = elim (Option-cases (find m xs)) [
  | inl e ↦ ground arith
  | inr (p, e) ↦ ground (arith, find-append_some m xs ys p e)
]

find-drop-none : (m xs : Bytes) (n : ℕ) → find m xs ≡ none → find m (drop n xs) ≡ none
find-drop-none m xs zero h = h
find-drop-none m [] (suc n) h = h
find-drop-none m (x ∷ xs) (suc n) h = find-drop-none m xs n (find-cons_none m x xs h).1

occurs-none : (m xs : Bytes) → occurs m xs ≡ false → find m xs ≡ none
occurs-none m xs h = elim (Option-cases (find m xs)) [ inl e ↦ e | inr (p, e) ↦ ground arith ]

occurs-last :
    (m xs ys : Bytes)
    → 0 < length m
    → find m xs ≡ none
    → occurs m (xs ++ ys) ≡ occurs m (last (length m - 1) xs ++ ys)
occurs-last m xs ys pos h =
    let e = find-append_none m xs ys pos h in
    elim (Option-cases (find m (last (length m - 1) xs ++ ys))) [
      | inl n ↦ ground arith
      | inr (p, s) ↦ ground arith
    ]

last-last : (j k : ℕ) (xs : Bytes) → j ≤ k → last j (last k xs) ≡ last j xs
last-last j k xs h =
    ap (λ n. drop (n - j) (last k xs)) (length-drop (length xs - k) xs)
    ∙ drop-drop (length xs - k) _ xs
    ∙ ap (λ n. drop n xs) (omega arith)

-- With `length m - 1` bytes or more kept of the part that is clean, the scan misses nothing.
pub occurs-overlap :
    (m xs ys : Bytes) (k : ℕ)
    → 0 < length m
    → length m - 1 ≤ k
    → occurs m xs ≡ false
    → occurs m (xs ++ ys) ≡ occurs m (last k xs ++ ys)
occurs-overlap m xs ys k pos big h =
    let clean = occurs-none m xs h in
    occurs-last m xs ys pos clean
    ∙ ap (λ l. occurs m (l ++ ys)) (sym (last-last (length m - 1) k xs big))
    ∙ sym (occurs-last m (last k xs) ys pos (find-drop-none m xs (length xs - k) clean))

-- The same for all forbidden markers at once.
pub any_occurs-overlap :
    (markers : List Bytes) (xs ys : Bytes) (k : ℕ)
    → All (λ m. 0 < length m) markers
    → overlap_of markers ≤ k
    → any_occurs markers xs ≡ false
    → any_occurs markers (xs ++ ys) ≡ any_occurs markers (last k xs ++ ys)
any_occurs-overlap [] xs ys k big fits h = refl
any_occurs-overlap (m ∷ ms) xs ys k big fits h =
    let (one, rest) = or-eq-false (occurs m xs) (any_occurs ms xs) h in
    ap₂ ◌||◌ (occurs-overlap m xs ys k big.0 (omega arith) one)
      (any_occurs-overlap ms xs ys k big.1 (omega arith) rest)

pub any_occurs-append :
    (markers : List Bytes) (xs ys : Bytes)
    → any_occurs markers (xs ++ ys) ≡ false
    → any_occurs markers xs ≡ false
any_occurs-append [] xs ys h = refl
any_occurs-append (m ∷ ms) xs ys h =
    let (one, rest) = or-eq-false (occurs m (xs ++ ys)) (any_occurs ms (xs ++ ys)) h in
    ground (arith, occurs-append m xs ys one, any_occurs-append ms xs ys rest)

pub any_occurs-drop :
    (markers : List Bytes) (xs : Bytes) (n : ℕ)
    → any_occurs markers xs ≡ false
    → any_occurs markers (drop n xs) ≡ false
any_occurs-drop [] xs n h = refl
any_occurs-drop (m ∷ ms) xs n h =
    let (one, rest) = or-eq-false (occurs m xs) (any_occurs ms xs) h in
    ground (arith, find-drop-none m xs n (occurs-none m xs one), any_occurs-drop ms xs n rest)
