-- ===== src/Serial/Feed/Keep.antt =====
-- The loop over the markers and the fields that it does not use.
use mathlib.Core.Path.{subst}
use rules_ostest.Base.{
  ℕ, zero, suc, ◌+◌, ◌≡◌, refl, sym, ap, ◌∙◌, inl, inr, arith, lt_cases, Option-cases, length,
}
use rules_ostest.Bytes.{Bytes}
use rules_ostest.Search.{find}
use rules_ostest.Serial.{Machine, AssertionPhase}
use rules_ostest.Serial.Feed.{match_loop, finish_phase}
use rules_ostest.Serial.Feed.Loop.{wanted, matched, loop_waits, loop_goes_on, loop_finishes}

pub record Keeps (m m' : Machine) : Type 0 where
  pub phases : m'.phases ≡ m.phases
  pub forbidden : m'.forbidden ≡ m.forbidden
  pub overlap : m'.forbidden_overlap ≡ m.forbidden_overlap
  pub tail : m'.forbidden_tail ≡ m.forbidden_tail
  pub phase_index : m'.phase_index ≡ m.phase_index

finish_phase-Keeps : (phase : AssertionPhase) (m : Machine) → Keeps m (finish_phase phase m)
unfolding finish_phase
finish_phase-Keeps phase m = ground arith

pub match_loop-Keeps :
    (fuel : ℕ) (phase : AssertionPhase) (m : Machine) → Keeps m (match_loop fuel phase m)
unfolding match_loop
match_loop-Keeps zero phase m = ground arith
match_loop-Keeps (suc fuel) phase m = elim (Option-cases (find (wanted phase m) m.marker_buffer)) [
  | inl e ↦ subst (Keeps m) (sym (loop_waits fuel phase m e)) (ground arith)
  | inr (p, e) ↦ elim (lt_cases (m.marker_index + 1) (length phase.markers)) [
    | inl more ↦
        subst (Keeps m) (sym (loop_goes_on fuel phase m p e more))
          (let ih = match_loop-Keeps fuel phase (matched phase m p) in ground arith)
    | inr done ↦
        subst (Keeps m) (sym (loop_finishes fuel phase m p e done))
          (let f = finish_phase-Keeps phase (matched phase m p) in ground arith)
  ]
]

-- The kept end of the stream plays no part in the loop.
abbrev pub with_tail : Bytes → Machine → Machine
with_tail t m = record m { forbidden_tail = t }

finish_phase-with_tail :
    (t : Bytes) (phase : AssertionPhase) (m : Machine)
    → finish_phase phase (with_tail t m) ≡ with_tail t (finish_phase phase m)
unfolding finish_phase
finish_phase-with_tail t phase m = ground arith

pub match_loop-with_tail :
    (t : Bytes) (fuel : ℕ) (phase : AssertionPhase) (m : Machine)
    → match_loop fuel phase (with_tail t m) ≡ with_tail t (match_loop fuel phase m)
unfolding match_loop
match_loop-with_tail t zero phase m = refl
match_loop-with_tail t (suc fuel) phase m =
    elim (Option-cases (find (wanted phase m) m.marker_buffer)) [
      | inl e ↦
          loop_waits fuel phase (with_tail t m) e
          ∙ ap (with_tail t) (sym (loop_waits fuel phase m e))
      | inr (p, e) ↦ elim (lt_cases (m.marker_index + 1) (length phase.markers)) [
        | inl more ↦
            loop_goes_on fuel phase (with_tail t m) p e more
            ∙ match_loop-with_tail t fuel phase (matched phase m p)
            ∙ ap (with_tail t) (sym (loop_goes_on fuel phase m p e more))
        | inr done ↦
            loop_finishes fuel phase (with_tail t m) p e done
            ∙ finish_phase-with_tail t phase (matched phase m p)
            ∙ ap (with_tail t) (sym (loop_finishes fuel phase m p e done))
      ]
    ]
