-- ===== src/Serial/Runs.antt =====
-- Runs of the machine: its construction and any list of events.
use rules_ostest.Base.{String, ◌≡◌, refl, ap, ◌∙◌, false, List, [], ◌∷◌, arith}
use rules_ostest.Base.Int.{ℤ}
use rules_ostest.Bytes.{Bytes}
use rules_ostest.Serial.{Machine}
use rules_ostest.Serial.Feed.{
  feed, handle_qmp_event, process_exited, timed_out, QmpEvent, is_running, handle_reset,
}
use rules_ostest.Serial.Feed.Valid.{IsValid}
use rules_ostest.Serial.Feed.Events.{
  feed-IsValid, handle_qmp_event-IsValid, process_exited-IsValid, timed_out-IsValid,
}
use rules_ostest.Serial.Feed.Stream.{feed_stopped}

-- An event that the runner passes to the machine.
pub data Event : Type 0 where
  chunk : Bytes → Event
  qmp : QmpEvent → Event
  exited : ℤ → Event
  expired : String → Event

abbrev pub step : Event → Machine → Machine
step (chunk bytes) = feed bytes
step (qmp e) = handle_qmp_event e
step (exited code) = process_exited code
step (expired seconds) = timed_out seconds

abbrev pub run : List Event → Machine → Machine
run [] m = m
run (e ∷ es) m = run es (step e m)

step-IsValid : (e : Event) (m : Machine) → IsValid m → IsValid (step e m)
step-IsValid (chunk bytes) m v = feed-IsValid m bytes v
step-IsValid (qmp e) m v = handle_qmp_event-IsValid m e v
step-IsValid (exited code) m v = process_exited-IsValid m code v
step-IsValid (expired seconds) m v = timed_out-IsValid m seconds v

-- Every list of events (chunks, QMP events, the exit of the process, the deadline) leads from a
-- valid machine to a valid one: the phase and the marker that it reads next are in range, and the
-- bytes that it keeps are bounded by the markers.
pub run-IsValid : (events : List Event) (m : Machine) → IsValid m → IsValid (run events m)
run-IsValid [] m v = v
run-IsValid (e ∷ es) m v = run-IsValid es (step e m) (step-IsValid e m v)

pub step_stopped : (e : Event) (m : Machine) → is_running m.outcome ≡ false → step e m ≡ m
unfolding handle_qmp_event handle_reset process_exited timed_out
step_stopped (chunk bytes) m h = feed_stopped m bytes h
step_stopped (qmp e) m h = ground arith
step_stopped (exited code) m h = ground arith
step_stopped (expired seconds) m h = ground arith

-- No list of events changes a machine that has passed or failed.
pub run-stopped :
    (events : List Event) (m : Machine) → is_running m.outcome ≡ false → run events m ≡ m
run-stopped [] m h = refl
run-stopped (e ∷ es) m h = ap (run es) (step_stopped e m h) ∙ run-stopped es m h
