-- ===== src/Runner/Evidence.antt =====
-- What the variables of `_run_qemu` say about the guest, the screenshot and the companion.
pub mod Steps
pub mod Drain
pub mod Round
pub mod Exit
pub mod Loop
pub mod Passed
use rules_ostest.Runner.Round.{unless_decided}
use mathlib.Core.Path.{subst}
use mathlib.Core.List.{Mem}
use rules_ostest.Serial.Feed.{QmpEvent}
use rules_ostest.Runner.Loop.{is_accepted, split_lines}
use rules_ostest.Ppm.{PpmInfo, validate_ppm_distinct_pixels}
use rules_ostest.Base.Int.{ℤ}
use rules_ostest.Bytes.{Bytes}
use rules_ostest.Serial.{pass, Machine}
use rules_ostest.Serial.Runs.{chunk, Event, run, qmp, exited, expired}
use rules_ostest.Runner.{
  phase_machine, Why, Run, World, Outcome, Judge, Raise, is_decided, got, event,
}
use rules_ostest.Base.{
  ℕ, ◌+◌, ◌≡◌, refl, ◌⊎◌, inl, inr, Bool, true, false, Option, none, some, List, [], ◌∷◌, ◌++◌,
  Bool-cases, All, ◌>>=◌, ok-injective, ok, err,
}

-- The bytes of the chunks among the events.
abbrev pub bytes_of : List Event → Bytes
bytes_of [] = []
bytes_of (chunk bytes ∷ es) = bytes ++ bytes_of es
bytes_of (e ∷ es) = bytes_of es

abbrev pub has_failed : Option (Bool × Why) → Bool
has_failed (some (false, why)) = true
has_failed _ = false

abbrev pub has_passed : Option (Bool × Why) → Bool
has_passed (some (true, why)) = true
has_passed _ = false

-- What holds of the state that a call leaves, unless it raises.
pub data Holds (P : Run → Type 0) : Outcome → Type 0 where
  returns : {r : Run} → P r → Holds P (ok r)
  raises : {e : Raise × Run} → Holds P (err e)

pub Holds-bind :
    {P Q : Run → Type 0} {o : Outcome} {f : Run → Outcome}
    → Holds P o
    → ((r : Run) → P r → Holds Q (f r))
    → Holds Q (o >>= f)
Holds-bind (returns {r} h) k = k r h
Holds-bind raises k = raises

pub Holds-map : {P Q : Run → Type 0} {o : Outcome} → Holds P o → ((r : Run) → P r → Q r) → Holds Q o
Holds-map (returns {r} h) k = returns (k r h)
Holds-map raises k = raises

pub unless_decided-Holds :
    (P : Run → Type 0) (f : Run → Outcome) (r : Run)
    → P r
    → (is_decided r.outcome ≡ false → Holds P (f r))
    → Holds P (unless_decided f r)
unfolding unless_decided
unless_decided-Holds P f r h k = elim (Bool-cases (is_decided r.outcome)) [
  | inl e ↦ rw (e, unless_decided) (returns h)
  | inr e ↦ rw (e, unless_decided) (k e)
]

-- What a call that has returned has left.
pub Holds-ok : (P : Run → Type 0) (r : Run) → Holds P (ok r) → P r
Holds-ok P r h = inverted h refl
  where
    inverted : {o : Outcome} → Holds P o → o ≡ ok r → P r
    inverted (returns p) e = subst P (ok-injective e) p
    inverted raises e = cc

-- What the loop starts with: the machine, and the events that came before it.
pub record Start : Type 0 where
  pub machine : Machine
  pub events : List QmpEvent

-- What is left behind the complete lines of the chunks that QMP has sent.
pub data IsBuffered (w : World) : Bytes → Type 0 where
  nothing : IsBuffered w []
  more :
      {buffer bytes : Bytes} (time : ℕ)
      → IsBuffered w buffer
      → w.recv_qmp time ≡ got bytes
      → IsBuffered w (split_lines (buffer ++ bytes)).1

-- A complete line that QMP has sent.
pub record WasLine (w : World) (line : Bytes) : Type 0 where
  pub buffer : Bytes
  pub bytes : Bytes
  pub time : ℕ
  pub buffered : IsBuffered w buffer
  pub received : w.recv_qmp time ≡ got bytes
  pub complete : Mem line (split_lines (buffer ++ bytes)).0

-- An event that was there before the loop, or that a line of QMP has said.
abbrev pub IsHeard : World → List QmpEvent → QmpEvent → Type 0
IsHeard w events e = Mem e events ⊎ ((line : Bytes) × WasLine w line × (w.loads line ≡ event e))

-- An event of the machine that the system has brought about; the chunks are those of the log.
abbrev pub HasCome : World → List QmpEvent → Event → Type 0
HasCome w events (chunk bytes) = Unit
HasCome w events (qmp e) = IsHeard w events e
HasCome w events (exited status) = (time : ℕ) × (w.polled time ≡ some status)
HasCome w events (expired seconds) = seconds ≡ w.timeout_seconds

module _ (w : World) (start : Start) where
  -- The process was seen to end with an accepted status.
  pub record WasAccepted : Type 0 where
    pub status : ℤ
    pub time : ℕ
    pub polled : w.polled time ≡ some status
    pub accepted : is_accepted w.success_exit_codes status ≡ true

  -- The machine has gone from `start` by the events, whose chunks are what was read.
  pub record Judged (judge : Judge) (log : Bytes) (failed guest handled : Bool) : Type 0 where
    pub machine : Machine
    pub trace : List Event
    pub is_machine : judge ≡ phase_machine machine
    pub by_trace : run trace start.machine ≡ machine
    pub come : All (HasCome w start.events) trace
    pub read_all : (failed ≡ true) ⊎ (bytes_of trace ≡ log)
    pub guest_done : guest ≡ true → (machine.outcome ≡ pass) ⊎ ((handled ≡ true) × WasAccepted)

  -- A screenshot was accepted.
  pub record WasShown : Type 0 where
    pub time : ℕ
    pub contents : Bytes
    pub info : PpmInfo
    pub was_read : w.screenshot time ≡ some contents
    pub accepted :
        validate_ppm_distinct_pixels contents w.min_distinct_pixels w.max_file_bytes w.max_pixels
        ≡ ok info

  -- The companion was seen to end, and without an error.
  pub record HasServed : Type 0 where
    pub time : ℕ
    pub has_ended : w.companion_polled time ≡ true
    pub ended_well : w.companion_waited (time + 1) ≡ none

  -- `wanted` is whether a screenshot is asked for, `queue` the events that wait, `log` what of the
  -- log the machine has been given.
  pub record Facts (wanted : Bool) (queue : List QmpEvent) (log : Bytes) (judge : Judge)
      (outcome : Option (Bool × Why)) (guest_complete process_exit_handled : Bool)
      (screenshot_complete companion_complete : Bool) (returncode : Option ℤ)
      (pending_events : List QmpEvent) (qmp_buffer : Bytes) : Type 0 where
    pub judged : Judged judge log (has_failed outcome) guest_complete process_exit_handled
    pub shown : screenshot_complete ≡ true → (wanted ≡ false) ⊎ WasShown
    pub served : companion_complete ≡ true → (w.has_companion ≡ false) ⊎ HasServed
    pub ended : (status : ℤ) → returncode ≡ some status → (t : ℕ) × (w.polled t ≡ some status)
    pub queued : pending_events ≡ queue
    pub queue_heard : All (IsHeard w start.events) queue
    pub buffered : IsBuffered w qmp_buffer
    pub early : (queue ≡ []) ⊎ (process_exit_handled ≡ false)
    pub passed :
        has_passed outcome ≡ true
        → (guest_complete ≡ true) × (screenshot_complete ≡ true) × (companion_complete ≡ true)

  abbrev pub Backed : Bool → List QmpEvent → Bytes → Run → Type 0
  Backed wanted queue log r =
      Facts wanted queue log r.judge r.outcome r.guest_complete r.process_exit_handled
        r.screenshot_complete r.companion_complete r.returncode r.pending_events r.qmp_buffer
