-- ===== src/Serial/Feed/Valid.antt =====
-- The states that a serial assertion machine can be in.
use rules_ostest.Base.{
  ℕ, zero, suc, ◌+◌, ◌-◌, ◌≤◌, ◌<◌, ◌≡◌, ◌⊎◌, true, false, List, [], ◌∷◌, arith, length, get_or,
  All,
}
use rules_ostest.Bytes.{Bytes}
use rules_ostest.Serial.{complete, reboot, AssertionPhase, Machine, overlap_of, phase_at}
use rules_ostest.Serial.Feed.{is_running}

-- Every phase but the last ends with a reboot, and the last one completes.
abbrev pub EndsProperly : List AssertionPhase → Type 0
EndsProperly [] = Unit
EndsProperly (p ∷ []) = p.then_do ≡ complete
EndsProperly (p ∷ q ∷ ps) = (p.then_do ≡ reboot) × EndsProperly (q ∷ ps)

abbrev pub HasMarkers : AssertionPhase → Type 0
HasMarkers p = (0 < length p.markers) × All (λ marker. 0 < length marker) p.markers

-- The markers of the phase that the machine is in.
abbrev pub current : Machine → List Bytes
current m = (phase_at m m.phase_index).markers

pub record IsValid (m : Machine) : Type 0 where
  pub phase_in_range : m.phase_index < length m.phases
  pub phases_have_markers : All HasMarkers m.phases
  pub phases_end : EndsProperly m.phases
  pub marker_in_range :
      (is_running m.outcome ≡ false)
      ⊎ (m.waiting_for_reboot ≡ true)
      ⊎ (m.marker_index < length (current m))
  pub reboot_has_phase : (m.waiting_for_reboot ≡ false) ⊎ (m.phase_index + 1 < length m.phases)
  pub forbidden_nonempty : All (λ marker. 0 < length marker) m.forbidden
  pub overlap : m.forbidden_overlap ≡ overlap_of m.forbidden
  pub tail_bound : length m.forbidden_tail ≤ m.forbidden_overlap
  pub buffer_bound : length m.marker_buffer ≤ length (get_or (current m) m.marker_index []) - 1

pub All-phase :
    (ps : List AssertionPhase) (i : ℕ)
    → All HasMarkers ps
    → i < length ps
    → HasMarkers (get_or ps i (record { markers = []; then_do = complete }))
All-phase [] i h lt = absurd (omega arith)
All-phase (p ∷ ps) zero h lt = h.0
All-phase (p ∷ ps) (suc i) h lt = All-phase ps i h.1 (omega arith)

-- A phase that ends with a reboot has one behind it.
pub reboot-not_last :
    (ps : List AssertionPhase) (i : ℕ)
    → EndsProperly ps
    → (get_or ps i (record { markers = []; then_do = complete })).then_do ≡ reboot
    → i + 1 < length ps
reboot-not_last [] i e r = cc
reboot-not_last (p ∷ []) zero e r = cc
reboot-not_last (p ∷ []) (suc i) e r = cc
reboot-not_last (p ∷ q ∷ ps) zero e r = omega arith
reboot-not_last (p ∷ q ∷ ps) (suc i) e r = omega (arith, reboot-not_last (q ∷ ps) i e.1 r)
