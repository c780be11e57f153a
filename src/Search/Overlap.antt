-- ===== src/Search/Overlap.antt =====
-- Searches in a buffer that comes in two parts.
use native.Mathlib.Nat.{suc-add}
use mathlib.Core.Option
use native.Mathlib.Decide.{dec_lt}
use rules_ostest.Base.{
  ℕ, zero, suc, ◌+◌, ◌-◌, ◌≤◌, ◌<◌, ◌≡◌, refl, sym, ap, ◌∙◌, inl, inr, true, false, ◌&&◌, Option,
  none, some, [], ◌∷◌, ◌++◌, arith, ◌==◌, Option-cases, length, drop, length-append, length-drop,
}
use rules_ostest.Bytes.{Bytes}
use rules_ostest.Search.{starts_with, find, last}

starts_with-append :
    (m xs ys : Bytes) → length m ≤ length xs → starts_with m (xs ++ ys) ≡ starts_with m xs
unfolding starts_with
starts_with-append [] xs ys h = refl
starts_with-append (a ∷ m) [] ys h = absurd (omega arith)
starts_with-append (a ∷ m) (x ∷ xs) ys h =
    ap (λ t. (a == x) && t) (starts_with-append m xs ys (omega arith))

starts_with_short : (m xs : Bytes) → length xs < length m → starts_with m xs ≡ false
unfolding starts_with
starts_with_short [] xs h = absurd (omega arith)
starts_with_short (a ∷ m) [] h = refl
starts_with_short (a ∷ m) (x ∷ xs) h = ground (arith, starts_with_short m xs (omega arith))

starts_with_long : (m xs : Bytes) → starts_with m xs ≡ true → length m ≤ length xs
starts_with_long m xs h = elim (dec_lt (length xs) (length m)) [
  | yes short ↦ cc (starts_with_short m xs short, h)
  | no long ↦ omega arith
]

-- A position that is found leaves room for the marker.
pub find_room : (m xs : Bytes) (p : ℕ) → find m xs ≡ some p → p + length m ≤ length xs
unfolding find
find_room m [] p h = ground (arith, starts_with_long m [])
find_room m (x ∷ xs) p h = elim (Option-cases (find m xs)) [
  | inl e ↦ ground (arith, starts_with_long m (x ∷ xs))
  | inr (q, e) ↦ ground (arith, starts_with_long m (x ∷ xs), find_room m xs q e)
]

-- More bytes do not move what was found.
pub find-append_some : (m xs ys : Bytes) (p : ℕ) → find m xs ≡ some p → find m (xs ++ ys) ≡ some p
unfolding find
find-append_some m [] [] p h = h
find-append_some [] [] (y ∷ ys) p h = h
find-append_some (a ∷ m) [] (y ∷ ys) p h = ground arith
find-append_some m (x ∷ xs) ys p h = elim (Option-cases (find m xs)) [
  | inl e ↦ ground (arith, starts_with_long m (x ∷ xs), starts_with-append m (x ∷ xs) ys)
  | inr (q, e) ↦ ground (
    arith,
    starts_with_long m (x ∷ xs),
    starts_with-append m (x ∷ xs) ys,
    find_room m xs q e,
    find-append_some m xs ys q e,
  )
]

map-zero : (o : Option ℕ) (k : ℕ) → k ≡ 0 → Option.map (λ p. k + p) o ≡ o
map-zero none k e = refl
map-zero (some p) k e = ap some (omega arith)

map-suc :
    (o : Option ℕ) (k l : ℕ)
    → l ≡ suc k
    → Option.map suc (Option.map (λ p. k + p) o) ≡ Option.map (λ p. l + p) o
map-suc none k l e = refl
map-suc (some p) k l e = ap some (omega arith)

pub find-cons_none :
    (m : Bytes) (x : ℕ) (xs : Bytes)
    → find m (x ∷ xs) ≡ none
    → (starts_with m (x ∷ xs) ≡ false) × (find m xs ≡ none)
unfolding find
find-cons_none m x xs h = ground arith

find-cons_later :
    (m : Bytes) (x : ℕ) (xs : Bytes)
    → starts_with m (x ∷ xs) ≡ false
    → find m (x ∷ xs) ≡ Option.map suc (find m xs)
unfolding find
find-cons_later m x xs h = ground arith

drop_nil : (n : ℕ) → drop {A = ℕ} n [] ≡ []
drop_nil zero = refl
drop_nil (suc n) = refl

-- Bytes that hold no marker can be dropped but for the last `length m - 1`.
pub find-append_none :
    (m xs ys : Bytes)
    → 0 < length m
    → find m xs ≡ none
    → find m (xs ++ ys)
      ≡ Option.map (λ p. length xs - (length m - 1) + p) (find m (last (length m - 1) xs ++ ys))
find-append_none m [] ys pos h =
    sym (map-zero (find m ys) (0 - (length m - 1)) (omega arith))
    ∙ ap (λ l. Option.map (λ p. 0 - (length m - 1) + p) (find m (l ++ ys)))
        (sym (drop_nil (0 - (length m - 1))))
find-append_none m (x ∷ xs) ys pos h = elim (dec_lt (length xs) (length m - 1)) [
  | yes short ↦
      let z : length (x ∷ xs) - (length m - 1) ≡ 0 = omega arith in
      rw z (sym (map-zero (find m (x ∷ xs ++ ys)) 0 refl))
  | no long ↦
      let (no_start, no_later) = find-cons_none m x xs h in
      let step : length (x ∷ xs) - (length m - 1) ≡ suc (length xs - (length m - 1)) =
        omega arith in
      find-cons_later m x (xs ++ ys) (starts_with-append m (x ∷ xs) ys (omega arith) ∙ no_start)
      ∙ ap (Option.map suc) (find-append_none m xs ys pos no_later)
      ∙ map-suc _ (length xs - (length m - 1)) _ step
      ∙ ap
          (λ k.
            Option.map (λ p. length (x ∷ xs) - (length m - 1) + p) (find m (drop k (x ∷ xs) ++ ys)))
          (sym step)
]

pub drop-append_le : (n : ℕ) (xs ys : Bytes) → n ≤ length xs → drop n (xs ++ ys) ≡ drop n xs ++ ys
drop-append_le zero xs ys h = refl
drop-append_le (suc n) [] ys h = absurd (omega arith)
drop-append_le (suc n) (x ∷ xs) ys h = drop-append_le n xs ys (omega arith)

pub drop-drop : (m n : ℕ) (xs : Bytes) → drop n (drop m xs) ≡ drop (m + n) xs
drop-drop zero n xs = ap (λ k. drop k xs) (omega arith)
drop-drop (suc m) n [] = drop_nil n ∙ sym (drop_nil (suc m + n))
drop-drop (suc m) n (x ∷ xs) = drop-drop m n xs ∙ ap (λ k. drop k (x ∷ xs)) (sym (suc-add m n))

pub last-append_eq : (k : ℕ) (xs ys : Bytes) → last k xs ++ ys ≡ drop (length xs - k) (xs ++ ys)
last-append_eq k xs ys = sym (drop-append_le (length xs - k) xs ys (omega arith))

-- Keeping the end twice is keeping it once.
pub last-last_append : (k : ℕ) (xs ys : Bytes) → last k (last k xs ++ ys) ≡ last k (xs ++ ys)
last-last_append k xs ys =
    let kept = last-append_eq k xs ys in
    let size : length (last k xs ++ ys) ≡ length xs - (length xs - k) + length ys =
      omega (arith, length-append (last k xs) ys, length-drop (length xs - k) xs) in
    ap (λ n. drop (n - k) (last k xs ++ ys)) size
    ∙ ap (drop (length xs - (length xs - k) + length ys - k)) kept
    ∙ drop-drop (length xs - k) _ (xs ++ ys)
    ∙ ap (λ n. drop n (xs ++ ys)) (omega (arith, length-append xs ys))

pub length-last : (k : ℕ) (xs : Bytes) → length (last k xs) ≤ k
length-last k xs = omega (arith, length-drop (length xs - k) xs)
