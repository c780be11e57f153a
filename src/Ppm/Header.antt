-- ===== src/Ppm/Header.antt =====
-- What `_ppm_token` and `_ppm_integer` read: the bytes that it skips, a token and a number.
use rules_ostest.Ppm.{
  is_space, skip_ppm_space_and_comments, split_token, ppm_token, digits_value, ended_early,
  PpmError, ppm_integer, not_an_integer,
}
use rules_ostest.Bytes.{Bytes}
use mathlib.Core.Path.{subst}
use native.Mathlib.Nat.{pow-suc}
use mathlib.Core.Option.{some-injective}
use rules_ostest.Base.{
  ℕ, ◌+◌, ◌-◌, ◌*◌, ◌^◌, ◌≤◌, ◌≡◌, refl, sym, ap, ◌∙◌, ◌⊎◌, inl, inr, Bool, true, false, not, ◌&&◌,
  ◌||◌, Option, none, some, [], ◌∷◌, ◌++◌, arith, ltb, ◌==◌, if◌then◌else◌, Bool-cases, if-cases,
  length, is_empty, All, ok-injective, refuse-eq-ok, Result, ok, err,
}

-- Space and comments, the second argument being whether they start within a comment. Where they
-- are not closed, the last comment has no end of its line.
pub data IsGap (closed : Bool) : Bool → Bytes → Type 0 where
  done : IsGap closed false []
  cut_off : closed ≡ false → IsGap closed true []
  space :
      {b : ℕ} {gap : Bytes}
      → is_space b ≡ true
      → IsGap closed false gap
      → IsGap closed false (b ∷ gap)
  hash : {gap : Bytes} → IsGap closed true gap → IsGap closed false (0x23 ∷ gap)
  comment :
      {b : ℕ} {gap : Bytes} → ¬ (b ≡ 0x0a) → IsGap closed true gap → IsGap closed true (b ∷ gap)
  line_end : {gap : Bytes} → IsGap closed false gap → IsGap closed true (0x0a ∷ gap)

-- A byte of a token.
abbrev pub IsPlain : ℕ → Type 0
IsPlain b = (is_space b ≡ false) × (¬ (b ≡ 0x23))

-- What follows a token does not go on with it.
abbrev pub IsEnd : Bytes → Type 0
IsEnd [] = Unit
IsEnd (b ∷ bs) = (is_space b ≡ true) ⊎ (b ≡ 0x23)

-- The first token of `before`, and what is behind it.
pub record IsToken (before token after : Bytes) : Type 0 where
  pub gap : Bytes
  pub skipped : IsGap true false gap
  pub split : before ≡ gap ++ (token ++ after)
  pub plain : All IsPlain token
  pub has_bytes : is_empty token ≡ false
  pub ends : IsEnd after

-- The number that decimal digits stand for.
abbrev pub decimal : Bytes → ℕ
decimal [] = 0
decimal (b ∷ bs) = (b - 0x30) * 10 ^ length bs + decimal bs

pub record IsNumber (token : Bytes) (n : ℕ) : Type 0 where
  pub digits : All (λ b. (0x30 ≤ b) × (b ≤ 0x39)) token
  pub value : n ≡ decimal token

pub eq-true : (a b : ℕ) → (a == b) ≡ true → a ≡ b
eq-true a b h = ground arith

eq-false : (a b : ℕ) → (a == b) ≡ false → ¬ (a ≡ b)
eq-false a b h k = ground arith

space_no_hash : (b : ℕ) → is_space b ≡ true → (b == 0x23) ≡ false
space_no_hash b h = ground arith

skip_space :
    (b : ℕ) (bs : Bytes)
    → is_space b ≡ true
    → skip_ppm_space_and_comments false (b ∷ bs) ≡ skip_ppm_space_and_comments false bs
unfolding skip_ppm_space_and_comments
skip_space b bs h = let no_hash = space_no_hash b h in simp (h, no_hash)

skip_plain :
    (b : ℕ) (bs : Bytes)
    → is_space b ≡ false
    → (b == 0x23) ≡ false
    → skip_ppm_space_and_comments false (b ∷ bs) ≡ b ∷ bs
unfolding skip_ppm_space_and_comments
skip_plain b bs h k = simp (h, k)

skip_comment :
    (b : ℕ) (bs : Bytes)
    → (b == 0x0a) ≡ false
    → skip_ppm_space_and_comments true (b ∷ bs) ≡ skip_ppm_space_and_comments true bs
unfolding skip_ppm_space_and_comments
skip_comment b bs h = simp h

abbrev Skipped : Bool → Bytes → Bytes → Type 0
Skipped c l rest = (gap : Bytes) × IsGap (not (is_empty rest)) c gap × (l ≡ gap ++ rest)

after_byte :
    (c d : Bool) (b : ℕ) (bs rest : Bytes)
    → ((gap : Bytes) → IsGap (not (is_empty rest)) d gap → IsGap (not (is_empty rest)) c (b ∷ gap))
    → Skipped d bs rest
    → Skipped c (b ∷ bs) rest
after_byte c d b bs rest more (gap, skipped, split) = (b ∷ gap, more gap skipped, ap (b ∷◌) split)

pub skip-Skipped :
    (c : Bool) (l rest : Bytes) → skip_ppm_space_and_comments c l ≡ rest → Skipped c l rest
unfolding skip_ppm_space_and_comments
skip-Skipped false [] rest e = ([], done, e)
skip-Skipped true [] rest e = ([], cut_off (ap (λ l. not (is_empty l)) (sym e)), e)
skip-Skipped false (b ∷ bs) rest e = elim (Bool-cases (is_space b)) [
  | inl h ↦
      after_byte false false b bs rest (λ gap g. space h g)
        (skip-Skipped false bs rest (sym (skip_space b bs h) ∙ e))
  | inr h ↦ elim (Bool-cases (b == 0x23)) [
    | inr k ↦
        let stays = sym (skip_plain b bs h k) ∙ e in
        ([], subst (λ l. IsGap (not (is_empty l)) false []) stays done, stays)
    | inl k ↦
        subst (λ x. skip_ppm_space_and_comments false (x ∷ bs) ≡ rest → Skipped false (x ∷ bs) rest)
          (sym (eq-true b 0x23 k))
          (λ f. after_byte false true 0x23 bs rest (λ gap g. hash g) (skip-Skipped true bs rest f))
          e
  ]
]
skip-Skipped true (b ∷ bs) rest e = elim (Bool-cases (b == 0x0a)) [
  | inr h ↦
      after_byte true true b bs rest (λ gap g. comment (eq-false b 0x0a h) g)
        (skip-Skipped true bs rest (sym (skip_comment b bs h) ∙ e))
  | inl h ↦
      subst (λ x. skip_ppm_space_and_comments true (x ∷ bs) ≡ rest → Skipped true (x ∷ bs) rest)
        (sym (eq-true b 0x0a h))
        (λ f.
          after_byte true false 0x0a bs rest (λ gap g. line_end g) (skip-Skipped false bs rest f))
        e
]

record IsSplit (l token rest : Bytes) : Type 0 where
  joined : l ≡ token ++ rest
  plain : All IsPlain token
  ends : IsEnd rest

end_of_token :
    (b : ℕ) → (not (is_space b) && not (b == 0x23)) ≡ false → (is_space b ≡ true) ⊎ (b ≡ 0x23)
end_of_token b h = elim (Bool-cases (is_space b)) [ inl e ↦ inl e | inr e ↦ inr (ground arith) ]

split_token-IsSplit : (l : Bytes) → IsSplit l (split_token l).0 (split_token l).1
unfolding split_token
split_token-IsSplit [] = record { joined = refl; plain = tt; ends = tt }
split_token-IsSplit (b ∷ bs) =
    let later = split_token-IsSplit bs in
    if-cases {A = Bytes × Bytes} (λ s. IsSplit (b ∷ bs) s.0 s.1)
      (not (is_space b) && not (b == 0x23)) _ _
      (λ h. record {
        joined = ap (b ∷◌) later.joined;
        plain = ((ground arith, λ k. ground arith), later.plain);
        ends = later.ends;
      })
      (λ h. record { joined = refl; plain = tt; ends = end_of_token b h })

start_not_empty : (l : Bytes) → is_empty (split_token l).0 ≡ false → is_empty l ≡ false
unfolding split_token
start_not_empty [] h = h
start_not_empty (b ∷ bs) h = refl

pub ppm_token-IsToken :
    (before : Bytes) (read : Bytes × Bytes)
    → ppm_token before ≡ ok read
    → IsToken before read.0 read.1
unfolding ppm_token
ppm_token-IsToken before read e₀ =
    let start = skip_ppm_space_and_comments false before in
    let s = split_token-IsSplit start in
    let token = (split_token start).0 in
    let (some_bytes, e₁) = refuse-eq-ok (is_empty token) ended_early _ e₀ in
    let (gap, skipped, split) = skip-Skipped false before start refl in
    let follows = ap not (start_not_empty start some_bytes) in
    subst (λ r. IsToken before r.0 r.1) (ok-injective e₁)
      (record {
        gap = gap;
        skipped = subst (λ c. IsGap c false gap) follows skipped;
        split = split ∙ ap (gap ++◌) s.joined;
        plain = s.plain;
        has_bytes = some_bytes;
        ends = s.ends;
      })

if-none-eq-some :
    (test : Bool) (o : Option ℕ) (n : ℕ)
    → (if test then none else o) ≡ some n
    → (test ≡ false) × (o ≡ some n)
if-none-eq-some true o n e = cc
if-none-eq-some false o n e = (refl, e)

is_digit : (b : ℕ) → (ltb b 0x30 || ltb 0x39 b) ≡ false → (0x30 ≤ b) × (b ≤ 0x39)
is_digit b h = ground arith

one_digit_more : (value d p r : ℕ) → (value * 10 + d) * p + r ≡ value * (p * 10) + (d * p + r)
one_digit_more value d p r = grind arith

digits_value-eq-some :
    (value : ℕ) (token : Bytes) (n : ℕ)
    → digits_value value token ≡ some n
    → All (λ b. (0x30 ≤ b) × (b ≤ 0x39)) token × (n ≡ value * 10 ^ length token + decimal token)
unfolding digits_value
digits_value-eq-some value [] n e = (tt, omega (arith, some-injective value n e))
digits_value-eq-some value (b ∷ bs) n e =
    let (digit, later) = if-none-eq-some (ltb b 0x30 || ltb 0x39 b) _ n e in
    let (digits, sum) = digits_value-eq-some (value * 10 + (b - 0x30)) bs n later in
    (
      (is_digit b digit, digits),
      sum
          ∙ one_digit_more value (b - 0x30) (10 ^ length bs) (decimal bs)
          ∙ ap (λ p. value * p + ((b - 0x30) * 10 ^ length bs + decimal bs))
              (sym (pow-suc 10 (length bs))),
    )

number_of :
    (o : Option ℕ) (n : ℕ)
    → (elim o as (λ x. Result PpmError ℕ) [ none ↦ err not_an_integer | some value ↦ ok value ])
      ≡ ok n
    → o ≡ some n
number_of none n e = cc
number_of (some v) n e = ap some (ok-injective e)

if-err-eq-ok :
    (test : Bool) (r : Result PpmError ℕ) (n : ℕ)
    → (if test then err not_an_integer else r) ≡ ok n
    → r ≡ ok n
if-err-eq-ok true r n e = cc
if-err-eq-ok false r n e = e

pub ppm_integer-IsNumber : (token : Bytes) (n : ℕ) → ppm_integer token ≡ ok n → IsNumber token n
unfolding ppm_integer
ppm_integer-IsNumber token n e =
    let (digits, sum) =
      digits_value-eq-some 0 token n
        (number_of (digits_value 0 token) n (if-err-eq-ok (is_empty token) _ n e)) in
    record { digits = digits; value = omega (arith, sum) }
