-- ===== src/Text.antt =====
-- A `str` as the list of its code points.
use Prim.Native.String.{String}
use Prim.Native.Char.{code}
use rules_ostest.Search.{find}
use rules_ostest.Base.{
  ℕ, zero, suc, ◌+◌, ◌/◌, ◌%◌, ◌≡◌, refl, ap, ◌∙◌, Bool, true, false, ◌&&◌, none, some, List, [],
  ◌∷◌, ◌++◌, arith, ltb, ◌==◌, if◌then◌else◌,
}

abbrev pub Text : Type 0
Text = List ℕ

-- The code points of a text that is written out.
abbrev pub codes : String → Text
codes String.[] = []
codes (String.◌∷◌ c s) = code c ∷ codes s

abbrev pub same_text : Text → Text → Bool
same_text [] [] = true
same_text (c ∷ cs) (d ∷ ds) = (c == d) && same_text cs ds
same_text _ _ = false

pub same_text_self : (s : Text) → same_text s s ≡ true
same_text_self [] = refl
same_text_self (c ∷ cs) = ground (arith, same_text_self cs)

pub same_text→ : (s t : Text) → same_text s t ≡ true → s ≡ t
same_text→ [] [] h = refl
same_text→ [] (d ∷ ds) h = cc
same_text→ (c ∷ cs) [] h = cc
same_text→ (c ∷ cs) (d ∷ ds) h =
    let head : c ≡ d = ground arith in
    ap (◌∷◌ c) (same_text→ cs ds (ground arith)) ∙ ap (◌∷ ds) head

-- `needle in text`
abbrev pub occurs_in : Text → Text → Bool
occurs_in needle text = elim (find needle text) [ none ↦ false | some _ ↦ true ]

-- `str(n)` of a number below 10 ^ fuel.
abbrev pub decimal_text : ℕ → ℕ → Text
decimal_text zero n = []
decimal_text (suc fuel) n =
    let front = decimal_text fuel (n / 10) in
    if ltb n 10 then (0x30 + n) ∷ [] else front ++ ((0x30 + n % 10) ∷ [])
