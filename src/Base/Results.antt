-- ===== src/Base/Results.antt =====
-- Calls that may raise: a value, or the exception.
use mathlib.Core.Path.{◌≡◌, refl, ap}
use mathlib.Core.Logic.{◌⊎◌, inl, inr}
use mathlib.Core.Bool.{Bool, true, false}

pub data Result {ℓ} (E : Type 0) (A : Type ℓ) : Type ℓ where
  ok : A → Result E A
  err : E → Result E A

infixl 5 ◌>>=◌ ◌>>◌
abbrev pub ◌>>=◌ {ℓ κ} :
    {E : Type 0} {A : Type ℓ} {B : Type κ} → Result E A → (A → Result E B) → Result E B
ok a >>= f = f a
err e >>= f = err e

abbrev pub ◌>>◌ {ℓ} : {E : Type 0} {B : Type ℓ} → Result E (Unit {0}) → Result E B → Result E B
m >> k = m >>= λ _. k

-- `if not test: raise e`
abbrev pub guard : {E : Type 0} → Bool → E → Result E (Unit {0})
guard true e = ok tt
guard false e = err e

-- `if test: raise e`
abbrev pub refuse : {E : Type 0} → Bool → E → Result E (Unit {0})
refuse true e = err e
refuse false e = ok tt

-- The value of a call, `d` where it raises.
module _ {ℓ} {E : Type 0} {A : Type ℓ} where
  abbrev pub result_or : A → Result E A → A
  result_or d (ok x) = x
  result_or d (err e) = d

  abbrev pub is_ok : Result E A → Bool
  is_ok (ok x) = true
  is_ok (err e) = false

  pub eq-ok_of_is_ok : (r : Result E A) (d : A) → is_ok r ≡ true → r ≡ ok (result_or d r)
  eq-ok_of_is_ok (ok x) d h = refl
  eq-ok_of_is_ok (err e) d h = cc

  pub ok-injective : {a b : A} → Path (Result E A) (ok a) (ok b) → a ≡ b
  ok-injective {a = a} h = ap (result_or a) h

pub bind-eq-ok {ℓ κ} :
    {E : Type 0} {A : Type ℓ} {B : Type κ} (m : Result E A) (f : A → Result E B) {b : B}
    → (m >>= f) ≡ ok b
    → (a : A) × (m ≡ ok a) × (f a ≡ ok b)
bind-eq-ok (ok a) f h = (a, refl, h)
bind-eq-ok (err e) f h = cc

pub Result-cases {ℓ} :
    {E : Type 0} {A : Type ℓ} (r : Result E A) → ((a : A) × (r ≡ ok a)) ⊎ ((e : E) × (r ≡ err e))
Result-cases (ok a) = inl (a, refl)
Result-cases (err e) = inr (e, refl)

pub guard-eq-ok {ℓ} :
    {E : Type 0} {A : Type ℓ} (b : Bool) (e : E) (k : Result E A) {a : A}
    → (guard b e >> k) ≡ ok a
    → (b ≡ true) × (k ≡ ok a)
guard-eq-ok true e k h = (refl, h)
guard-eq-ok false e k h = cc

pub refuse-eq-ok {ℓ} :
    {E : Type 0} {A : Type ℓ} (b : Bool) (e : E) (k : Result E A) {a : A}
    → (refuse b e >> k) ≡ ok a
    → (b ≡ false) × (k ≡ ok a)
refuse-eq-ok true e k h = cc
refuse-eq-ok false e k h = (refl, h)
