-- ===== src/Serial/Feed/Loop.antt =====
-- The loop over the markers of a phase: its fuel, and a buffer that comes in two parts.
use rules_ostest.Base.{
  ℕ, zero, suc, ◌+◌, ◌-◌, ◌≤◌, ◌<◌, ◌≡◌, refl, sym, ◌∙◌, inl, inr, none, some, [], arith, lt_cases,
  Option-cases, length, get_or, drop,
}
use rules_ostest.Bytes.{Bytes}
use rules_ostest.Search.{find, last}
use rules_ostest.Serial.{Machine, AssertionPhase, complete, reboot, Reason}
use rules_ostest.Serial.Feed.{match_loop, finish_phase}

-- A position in the markers from which the fuel lasts.
abbrev pub Lasts : ℕ → AssertionPhase → Machine → Type 0
Lasts fuel phase m =
    (m.marker_index < length phase.markers) × (length phase.markers ≤ m.marker_index + fuel)

-- The marker that the loop looks for.
abbrev pub wanted : AssertionPhase → Machine → Bytes
wanted phase m = get_or phase.markers m.marker_index []

-- One more marker has matched at `position`.
abbrev pub matched : AssertionPhase → Machine → ℕ → Machine
matched phase m position = record m {
  marker_buffer = drop (position + length (wanted phase m)) m.marker_buffer;
  marker_index = m.marker_index + 1;
}

abbrev pub trimmed : AssertionPhase → Machine → Machine
trimmed phase m = record m {
  marker_buffer = last (length (wanted phase m) - 1) m.marker_buffer;
  reason = Reason.waiting_for (m.phase_index + 1) (m.marker_index + 1) (wanted phase m);
}

-- The three ways that a round goes.
module _ (fuel : ℕ) (phase : AssertionPhase) (m : Machine) where
  pub loop_waits :
      find (wanted phase m) m.marker_buffer ≡ none → match_loop (suc fuel) phase m ≡ trimmed phase m
  unfolding match_loop
  loop_waits e = ground arith

  pub loop_goes_on :
      (p : ℕ)
      → find (wanted phase m) m.marker_buffer ≡ some p
      → m.marker_index + 1 < length phase.markers
      → match_loop (suc fuel) phase m ≡ match_loop fuel phase (matched phase m p)
  unfolding match_loop
  loop_goes_on p e h = ground arith

  pub loop_finishes :
      (p : ℕ)
      → find (wanted phase m) m.marker_buffer ≡ some p
      → length phase.markers ≤ m.marker_index + 1
      → match_loop (suc fuel) phase m ≡ finish_phase phase (matched phase m p)
  unfolding match_loop
  loop_finishes p e h = ground arith

pub finish_phase_any :
    (phase : AssertionPhase) (m : Machine) (b : Bytes) (r : Reason)
    → finish_phase phase (record m { marker_buffer = b; reason = r }) ≡ finish_phase phase m
unfolding finish_phase
finish_phase_any phase m b r =
    elim phase.then_do
      as (λ t.
        finish_phase (record phase { then_do = t }) (record m { marker_buffer = b; reason = r })
        ≡ finish_phase (record phase { then_do = t }) m) [ complete ↦ refl | reboot ↦ refl ]

-- With fuel that lasts, neither the fuel nor the last message counts.
pub match_loop_any :
    (f g : ℕ) (phase : AssertionPhase) (m : Machine) (r : Reason)
    → Lasts f phase m
    → Lasts g phase m
    → match_loop f phase m ≡ match_loop g phase (record m { reason = r })
match_loop_any zero g phase m r lf lg = absurd (omega arith)
match_loop_any (suc f) zero phase m r lf lg = absurd (omega arith)
match_loop_any (suc f) (suc g) phase m r lf lg =
    elim (Option-cases (find (wanted phase m) m.marker_buffer)) [
      | inl e ↦ loop_waits f phase m e ∙ sym (loop_waits g phase (record m { reason = r }) e)
      | inr (p, e) ↦ elim (lt_cases (m.marker_index + 1) (length phase.markers)) [
        | inl more ↦
            loop_goes_on f phase m p e more
            ∙ match_loop_any f g phase (matched phase m p) r (omega arith) (omega arith)
            ∙ sym (loop_goes_on g phase (record m { reason = r }) p e more)
        | inr done ↦
            loop_finishes f phase m p e done
            ∙ sym (finish_phase_any phase (matched phase m p) _ r)
            ∙ sym (loop_finishes g phase (record m { reason = r }) p e done)
      ]
    ]
