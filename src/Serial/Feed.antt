-- ===== src/Serial/Feed.antt =====
-- `feed`, `handle_reset`, `process_exited` and `timed_out`: the events of the machine.
mod Loop
mod Split
pub mod Scan
mod Keep
pub mod Stream
pub mod Chunks
pub mod Forbidden
mod Settled
pub mod Valid
pub mod Events
pub mod Order
pub mod Last
use text.Mathlib.Text.{◌==◌ as str_eq}
use rules_ostest.Base.Int.{ℤ}
use rules_ostest.Base.{
  ℕ, zero, suc, ◌+◌, ◌-◌, String, Bool, true, false, not, ◌&&◌, ◌||◌, Option, none, some, List, [],
  ◌∷◌, ◌++◌, ltb, ◌==◌, if◌then◌else◌, length, is_empty, get_or, drop,
}
use rules_ostest.Bytes.{Bytes}
use rules_ostest.Search.{find, last}
use rules_ostest.Serial.{
  complete, reboot, AssertionOutcome, running, pass, Reason, AssertionPhase, Machine, fail_with,
  phase_at,
}

-- A forbidden marker that was found: its position, its place in the list, and itself.
pub record Hit : Type 0 where
  pub position : ℕ
  pub order : ℕ
  pub marker : Bytes

-- `candidate[:2] < first_forbidden[:2]`
abbrev pub is_before : Hit → Hit → Bool
is_before a b = ltb a.position b.position || (a.position == b.position && ltb a.order b.order)

abbrev pub better : Option Hit → Hit → Option Hit
better none candidate = some candidate
better (some first) candidate = some (if is_before candidate first then candidate else first)

-- The loop over the forbidden markers.
unfoldable pub first_forbidden : ℕ → List Bytes → Bytes → Option Hit → Option Hit
first_forbidden order [] window first = first
first_forbidden order (marker ∷ markers) window first =
    first_forbidden (order + 1) markers window (elim (find marker window) [
      | none ↦ first
      | some position ↦
          better first (record { position = position; order = order; marker = marker })
    ])

-- What the loop does once the last marker of a phase has matched.
unfoldable pub finish_phase : AssertionPhase → Machine → Machine
finish_phase phase m = elim phase.then_do [
  | complete ↦ record m {
    outcome = pass;
    reason = Reason.matched_all (length m.phases);
    marker_buffer = [];
  }
  | reboot ↦ record m {
    waiting_for_reboot = true;
    reason = Reason.phase_complete (m.phase_index + 1);
    marker_buffer = [];
  }
]

-- The `while` loop. A round that goes on has matched one more marker of the phase, so the number
-- of markers is enough fuel.
unfoldable pub match_loop : ℕ → AssertionPhase → Machine → Machine
unfolding finish_phase
match_loop zero phase m = m
match_loop (suc fuel) phase m =
    let marker = get_or phase.markers m.marker_index [] in
    elim (find marker m.marker_buffer) [
      | none ↦ record m {
        marker_buffer = last (length marker - 1) m.marker_buffer;
        reason = Reason.waiting_for (m.phase_index + 1) (m.marker_index + 1) marker;
      }
      | some position ↦
          let m' = record m {
            marker_buffer = drop (position + length marker) m.marker_buffer;
            marker_index = m.marker_index + 1;
          } in
          let rest = match_loop fuel phase m' in
          if ltb m'.marker_index (length phase.markers) then rest else finish_phase phase m'
    ]

-- Behind the search for forbidden markers, whose tail has been kept.
unfoldable pub feed_markers : Bytes → Machine → Machine
feed_markers bytes m =
    if m.waiting_for_reboot
    then m
    else let phase = phase_at m m.phase_index in
      match_loop (length phase.markers) phase
        (record m { marker_buffer = m.marker_buffer ++ bytes })

abbrev pub is_running : AssertionOutcome → Bool
is_running running = true
is_running _ = false

unfoldable pub feed : Bytes → Machine → Machine
feed bytes m =
    if not (is_running m.outcome)
    then m
    else if is_empty bytes
    then m
    else let window = m.forbidden_tail ++ bytes in
      elim (first_forbidden 0 m.forbidden window none) [
        | some hit ↦ fail_with (Reason.matched_forbidden hit.marker) m
        | none ↦ feed_markers bytes (record m { forbidden_tail = last m.forbidden_overlap window })
      ]

-- `guest is True`
abbrev pub is_true : Option Bool → Bool
is_true (some true) = true
is_true _ = false

-- `reason == "guest-reset"`
abbrev pub is_guest_reset : Option String → Bool
is_guest_reset none = false
is_guest_reset (some reason) = str_eq reason "guest-reset"

unfoldable pub handle_reset : Option Bool → Option String → Machine → Machine
handle_reset guest reason m =
    if not (is_running m.outcome)
    then m
    else if not (is_true guest) && not (is_guest_reset reason)
    then fail_with (Reason.non_guest_reset (m.phase_index + 1)) m
    else if not m.waiting_for_reboot
    then fail_with (Reason.unexpected_reset (m.phase_index + 1)) m
    else record m {
      phase_index = m.phase_index + 1;
      marker_index = 0;
      marker_buffer = [];
      waiting_for_reboot = false;
      reason =
          Reason.entered_phase (m.phase_index + 2)
            (get_or (phase_at m (m.phase_index + 1)).markers 0 []);
    }

-- A decoded event, as far as the machine reads it: a field of `data` is `none`
-- where it is missing or of another type, or where `data` is no object.
pub record QmpEvent : Type 0 where
  pub event : String
  pub guest : Option Bool
  pub reason : Option String

unfoldable pub handle_qmp_event : QmpEvent → Machine → Machine
unfolding handle_reset
handle_qmp_event e m = if str_eq e.event "RESET" then handle_reset e.guest e.reason m else m

unfoldable pub process_exited : ℤ → Machine → Machine
process_exited returncode m =
    if is_running m.outcome then fail_with (Reason.exited returncode) m else m

unfoldable pub timed_out : String → Machine → Machine
timed_out seconds m =
    if is_running m.outcome then fail_with (Reason.timed_out_after seconds) m else m
