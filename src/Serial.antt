-- ===== src/Serial.antt =====
-- ostest/private/qemu_runner_support.py: the serial assertion machine.
pub mod Feed
pub mod Runs
pub mod Made
use Prim.Native.String
use rules_ostest.Base.Int.{ℤ}
use rules_ostest.Base.{
  ℕ, ◌+◌, ◌-◌, max, String, Bool, true, false, List, [], ◌∷◌, if◌then◌else◌, length, is_empty,
  get_or, ◌>>=◌, ◌>>◌, guard, refuse, Result, ok, err,
}
use rules_ostest.Bytes.{Bytes}

pub data PhaseTransition : Type 0 where
  complete reboot : PhaseTransition

pub data AssertionOutcome : Type 0 where
  running pass fail : AssertionOutcome

-- The messages, by what they say. Phases and markers are counted as the messages count them.
pub data Reason : Type 0 where
  waiting_first : Reason
  waiting_for : ℕ → ℕ → Bytes → Reason
  matched_forbidden : Bytes → Reason
  matched_all : ℕ → Reason
  phase_complete : ℕ → Reason
  entered_phase : ℕ → Bytes → Reason
  non_guest_reset unexpected_reset : ℕ → Reason
  exited : ℤ → Reason
  timed_out_after : String → Reason

pub data SerialError : Type 0 where
  empty_marker no_markers no_phases : SerialError
  wrong_transition : ℕ → SerialError

-- `Marker = str | bytes`
pub data Marker : Type 0 where
  text : String → Marker
  raw : Bytes → Marker

pub record AssertionPhase : Type 0 where
  pub markers : List Bytes
  pub then_do : PhaseTransition

pub record Machine : Type 0 where
  pub phases : List AssertionPhase
  pub forbidden : List Bytes
  pub forbidden_overlap : ℕ
  pub forbidden_tail : Bytes
  pub marker_buffer : Bytes
  pub phase_index : ℕ
  pub marker_index : ℕ
  pub waiting_for_reboot : Bool
  pub outcome : AssertionOutcome
  pub reason : Reason

-- `utf8` is `str.encode("utf-8")`.
module _ (utf8 : String → Bytes) where
  abbrev pub encode : Marker → Bytes
  encode (text s) = utf8 s
  encode (raw bytes) = bytes

  unfoldable pub marker_bytes : Marker → Result SerialError Bytes
  marker_bytes marker = if is_empty (encode marker) then err empty_marker else ok (encode marker)

  unfoldable pub all_marker_bytes : List Marker → Result SerialError (List Bytes)
  unfolding marker_bytes
  all_marker_bytes [] = ok []
  all_marker_bytes (marker ∷ markers) = do
    bytes ← marker_bytes marker
    rest ← all_marker_bytes markers
    ok (bytes ∷ rest)

  -- `AssertionPhase(markers, then)`
  unfoldable pub make_phase : List Marker → PhaseTransition → Result SerialError AssertionPhase
  unfolding all_marker_bytes
  make_phase markers then_do = do
    encoded ← all_marker_bytes markers
    refuse (is_empty encoded) no_markers
    ok (record { markers = encoded; then_do = then_do })

abbrev pub same_transition : PhaseTransition → PhaseTransition → Bool
same_transition complete complete = true
same_transition reboot reboot = true
same_transition _ _ = false

-- Every phase but the last ends with a reboot.
unfoldable pub check_transitions : ℕ → List AssertionPhase → Result SerialError (Unit {0})
check_transitions index [] = ok tt
check_transitions index (phase ∷ phases) = do
  guard (same_transition phase.then_do (if is_empty phases then complete else reboot))
      (wrong_transition index)
  check_transitions (index + 1) phases

-- `max((len(marker) - 1 for marker in forbidden), default=0)`
abbrev pub overlap_of : List Bytes → ℕ
overlap_of [] = 0
overlap_of (marker ∷ markers) = max (length marker - 1) (overlap_of markers)

-- `SerialAssertionMachine(phases, forbidden_markers=…)`
unfoldable pub make_machine :
    (String → Bytes) → List AssertionPhase → List Marker → Result SerialError Machine
unfolding check_transitions all_marker_bytes
make_machine utf8 phases forbidden_markers = do
  refuse (is_empty phases) no_phases
  check_transitions 0 phases
  forbidden ← all_marker_bytes utf8 forbidden_markers
  ok (record {
    phases = phases;
    forbidden = forbidden;
    forbidden_overlap = overlap_of forbidden;
    forbidden_tail = [];
    marker_buffer = [];
    phase_index = 0;
    marker_index = 0;
    waiting_for_reboot = false;
    outcome = running;
    reason = waiting_first;
  })

-- `SerialAssertionMachine.ordered`
unfoldable pub ordered : (String → Bytes) → List Marker → List Marker → Result SerialError Machine
unfolding make_phase make_machine
ordered utf8 markers forbidden_markers = do
  phase ← make_phase utf8 markers complete
  make_machine utf8 (phase ∷ []) forbidden_markers

-- `AssertionResult`, the snapshot that every event returns.
pub record AssertionResult : Type 0 where
  pub outcome : AssertionOutcome
  pub reason : Reason
  pub phase_index : ℕ
  pub marker_index : ℕ
  pub waiting_for_reboot : Bool

-- `result`
abbrev pub result : Machine → AssertionResult
result m = record {
  outcome = m.outcome;
  reason = m.reason;
  phase_index = m.phase_index;
  marker_index = m.marker_index;
  waiting_for_reboot = m.waiting_for_reboot;
}

-- `retained_bytes`
abbrev pub retained_bytes : Machine → ℕ
retained_bytes m = length m.forbidden_tail + length m.marker_buffer

-- `_fail`
abbrev pub fail_with : Reason → Machine → Machine
fail_with why m = record m { outcome = fail; reason = why }

abbrev pub empty_phase : AssertionPhase
empty_phase = record { markers = []; then_do = complete }

-- `self._phases[index]`; the index is in range by `IsValid`.
abbrev pub phase_at : Machine → ℕ → AssertionPhase
phase_at m index = get_or m.phases index empty_phase
