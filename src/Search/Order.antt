-- ===== src/Search/Order.antt =====
-- Patterns that occur in a text one behind the other, as an independent reading of `bytes.find`.
use rules_ostest.Search.Overlap.{drop-append_le}
use rules_ostest.Search.{starts_with, find}
use rules_ostest.Bytes.{Bytes}
use mathlib.Core.Option
use native.Mathlib.Nat.{suc-add, zero-add}
use mathlib.Core.Path.{subst}
use mathlib.Core.List.{append_assoc}
use rules_ostest.Base.{
  ℕ, suc, ◌+◌, ◌≤◌, ◌≡◌, refl, sym, ap, ◌∙◌, inl, inr, true, none, some, List, [], ◌∷◌, ◌++◌, arith,
  Bool-cases, Option-cases, length, take, drop, length-append,
}

-- Every pattern occurs, each behind the end of the one before it.
abbrev pub InOrder : List Bytes → Bytes → Type 0
InOrder [] text = Unit
InOrder (m ∷ ms) text =
    (front : Bytes) × (rest : Bytes) × (text ≡ front ++ (m ++ rest)) × InOrder ms rest

starts_with-append_self : (m rest : Bytes) → starts_with m (m ++ rest) ≡ true
unfolding starts_with
starts_with-append_self [] rest = refl
starts_with-append_self (a ∷ m) rest = ground (arith, starts_with-append_self m rest)

starts_with_split : (m text : Bytes) → starts_with m text ≡ true → text ≡ m ++ drop (length m) text
unfolding starts_with
starts_with_split [] text h = refl
starts_with_split (a ∷ m) [] h = cc
starts_with_split (a ∷ m) (b ∷ text) h =
    let same : a ≡ b = ground arith in
    let later : starts_with m text ≡ true = ground arith in
    ap (◌∷ text) (sym same) ∙ ap (a ∷◌) (starts_with_split m text later)

find-here : (m text : Bytes) → starts_with m text ≡ true → find m text ≡ some 0
unfolding find
find-here m [] h = ground arith
find-here m (b ∷ text) h = ground arith

-- An occurrence is found, or one ahead of it.
pub find-front :
    (m front rest : Bytes) → (p : ℕ) × (find m (front ++ (m ++ rest)) ≡ some p) × (p ≤ length front)
unfolding find
find-front m [] rest = (0, find-here m (m ++ rest) (starts_with-append_self m rest), omega arith)
find-front m (x ∷ front) rest =
    let (p, found, early) = find-front m front rest in
    let text = x ∷ (front ++ (m ++ rest)) in
    elim (Bool-cases (starts_with m text)) [
      | inl e ↦ (0, find-here m text e, omega arith)
      | inr e ↦ (suc p, rw e (ap (Option.map suc) found), omega arith)
    ]

pub none-some : {p : ℕ} → ¬ (none ≡ some p)
none-some e = cc

pub some-injective : {a b : ℕ} → some a ≡ some b → a ≡ b
some-injective {a = a} h = ap (λ o. elim o [ none ↦ a | some x ↦ x ]) h

-- What is found is an occurrence.
pub find_split :
    (m text : Bytes) (p : ℕ)
    → find m text ≡ some p
    → text ≡ take p text ++ (m ++ drop (p + length m) text)
unfolding find
find_split m [] p h = elim (Bool-cases (starts_with m [])) [
  | inl e ↦
      let here : p ≡ 0 = ground arith in
      subst (λ q. [] ≡ take q [] ++ (m ++ drop (q + length m) [])) (sym here)
        (starts_with_split m [] e ∙ ap (λ k. m ++ drop k []) (sym (zero-add (length m))))
  | inr e ↦ absurd (none-some (sym (rw e refl) ∙ h))
]
find_split m (b ∷ text) p h = elim (Bool-cases (starts_with m (b ∷ text))) [
  | inl e ↦
      let here : p ≡ 0 = ground arith in
      subst (λ q. b ∷ text ≡ take q (b ∷ text) ++ (m ++ drop (q + length m) (b ∷ text))) (sym here)
        (starts_with_split m (b ∷ text) e ∙ ap (λ k. m ++ drop k (b ∷ text)) (omega arith))
  | inr e ↦ elim (Option-cases (find m text)) [
    | inl missing ↦ absurd (none-some (sym (rw e (ap (Option.map suc) missing)) ∙ h))
    | inr (q, found) ↦
        let later : suc q ≡ p = some-injective (sym (rw e (ap (Option.map suc) found)) ∙ h) in
        subst (λ q. b ∷ text ≡ take q (b ∷ text) ++ (m ++ drop (q + length m) (b ∷ text))) later
          (ap (b ∷◌) (find_split m text q found)
            ∙ ap (λ k. b ∷ (take q text ++ (m ++ drop k (b ∷ text)))) (sym (suc-add q (length m))))
  ]
]

pub InOrder-prefix :
    (ms : List Bytes) (front text : Bytes) → InOrder ms text → InOrder ms (front ++ text)
InOrder-prefix [] front text h = tt
InOrder-prefix (m ∷ ms) front text (before, rest, e, h) =
    (front ++ before, rest, ap (front ++◌) e ∙ sym (append_assoc front before (m ++ rest)), h)

-- The first occurrence serves as well as any other.
pub InOrder-find :
    (m : Bytes) (ms : List Bytes) (text : Bytes)
    → InOrder (m ∷ ms) text
    → (p : ℕ) × (find m text ≡ some p) × InOrder ms (drop (p + length m) text)
InOrder-find m ms text (front, rest, e, h) =
    let (p, found, early) = find-front m front rest in
    let behind : drop (p + length m) text ≡ drop (p + length m) (front ++ m) ++ rest =
      ap (drop (p + length m)) (e ∙ sym (append_assoc front m rest))
      ∙ drop-append_le (p + length m) (front ++ m) rest (omega (arith, length-append front m)) in
    (
      p,
      ap (find m) e ∙ found,
      subst (InOrder ms) (sym behind) (InOrder-prefix ms (drop (p + length m) (front ++ m)) rest h),
    )

pub find-InOrder :
    (m : Bytes) (ms : List Bytes) (text : Bytes) (p : ℕ)
    → find m text ≡ some p
    → InOrder ms (drop (p + length m) text)
    → InOrder (m ∷ ms) text
find-InOrder m ms text p found h =
    (take p text, drop (p + length m) text, find_split m text p found, h)
