-- ===== src/Serial/Feed/Settled.antt =====
-- The state in which the loop over the markers stops.
use rules_ostest.Base.{
  ℕ, zero, suc, ◌+◌, ◌-◌, ◌≤◌, ◌<◌, ◌≡◌, refl, sym, ◌⊎◌, inl, inr, true, false, [], arith, lt_cases,
  Option-cases, length, get_or,
}
use mathlib.Core.Path.{subst}
use rules_ostest.Serial.{Machine, AssertionPhase, complete, reboot}
use rules_ostest.Serial.Feed.{match_loop, finish_phase, is_running}
use rules_ostest.Serial.Feed.Loop.{Lasts, wanted, matched, loop_waits, loop_goes_on, loop_finishes}
use rules_ostest.Search.{find}
use rules_ostest.Search.Overlap.{length-last}

-- The marker waited for is one of the phase, and the buffer is shorter than it.
pub record Settled (phase : AssertionPhase) (m : Machine) : Type 0 where
  pub in_range :
      (is_running m.outcome ≡ false)
      ⊎ (m.waiting_for_reboot ≡ true)
      ⊎ (m.marker_index < length phase.markers)
  pub bound : length m.marker_buffer ≤ length (get_or phase.markers m.marker_index []) - 1
  pub reboots : (m.waiting_for_reboot ≡ false) ⊎ (phase.then_do ≡ reboot)

finish_phase-Settled :
    (phase : AssertionPhase) (m : Machine)
    → m.waiting_for_reboot ≡ false
    → Settled phase (finish_phase phase m)
unfolding finish_phase
finish_phase-Settled phase m go =
    elim phase.then_do
      as (λ t.
        Settled (record phase { then_do = t }) (finish_phase (record phase { then_do = t }) m)) [
          | complete ↦ record { in_range = inl refl; bound = omega arith; reboots = inl go }
          | reboot ↦ record { in_range = inr (inl refl); bound = omega arith; reboots = inr refl }
        ]

pub match_loop-Settled :
    (fuel : ℕ) (phase : AssertionPhase) (m : Machine)
    → Lasts fuel phase m
    → m.waiting_for_reboot ≡ false
    → Settled phase (match_loop fuel phase m)
match_loop-Settled zero phase m lasts go = absurd (omega arith)
match_loop-Settled (suc fuel) phase m lasts go =
    elim (Option-cases (find (wanted phase m) m.marker_buffer)) [
      | inl e ↦ subst (Settled phase) (sym (loop_waits fuel phase m e)) (record {
        in_range = inr (inr lasts.0);
        bound = omega (arith, length-last (length (wanted phase m) - 1) m.marker_buffer);
        reboots = inl go;
      })
      | inr (p, e) ↦ elim (lt_cases (m.marker_index + 1) (length phase.markers)) [
        | inl more ↦
            subst (Settled phase) (sym (loop_goes_on fuel phase m p e more))
              (match_loop-Settled fuel phase (matched phase m p) (omega arith) go)
        | inr done ↦
            subst (Settled phase) (sym (loop_finishes fuel phase m p e done))
              (finish_phase-Settled phase (matched phase m p) go)
      ]
    ]
