-- ===== src/Tests/Serials.antt =====
-- A serial machine of two phases.
use rules_ostest.Serial.Feed.Order.{ordered-feed_all}
use rules_ostest.Search.Order.{InOrder}
use rules_ostest.Base.{
  String, ◌≡◌, refl, ◌↔◌, true, false, none, some, List, [], ◌∷◌, map, arith, All, result_or,
  eq-ok_of_is_ok, ok,
}
use rules_ostest.Base.Int.{pos}
use rules_ostest.Bytes.{Bytes}
use rules_ostest.Search.{starts_with, find, last}
use rules_ostest.Serial.{
  AssertionPhase, Machine, Marker, raw, complete, reboot, running, make_machine, all_marker_bytes,
  marker_bytes, check_transitions, result, waiting_first, ordered, encode, pass, make_phase,
}
use rules_ostest.Serial.Feed.{
  feed, feed_markers, match_loop, finish_phase, first_forbidden, is_running, QmpEvent,
}
use rules_ostest.Serial.Feed.Valid.{IsValid, HasMarkers}
use rules_ostest.Serial.Feed.Events.{feed-IsValid}
use rules_ostest.Serial.Feed.Stream.{is_fail}
use rules_ostest.Serial.Feed.Scan.{any_occurs}
use rules_ostest.Serial.Feed.Chunks.{feed_all, join, feed_all-join}
use rules_ostest.Serial.Feed.Forbidden.{feed-is_fail}
use rules_ostest.Serial.Runs.{Event, chunk, qmp, exited, run, run-IsValid}
use rules_ostest.Serial.Made.{make_machine-IsValid}

abbrev utf8 : String → Bytes
utf8 _ = 65 ∷ []

-- "boot" and "ok", a reboot, then "up".
abbrev phases : List AssertionPhase
phases =
    record { markers = (1 ∷ 2 ∷ []) ∷ (3 ∷ 4 ∷ []) ∷ []; then_do = reboot }
    ∷ record { markers = (5 ∷ []) ∷ []; then_do = complete }
    ∷ []

abbrev forbidden : List Marker
forbidden = raw (9 ∷ 8 ∷ []) ∷ []

abbrev blank : Machine
blank = record {
  phases = [];
  forbidden = [];
  forbidden_overlap = 0;
  forbidden_tail = [];
  marker_buffer = [];
  phase_index = 0;
  marker_index = 0;
  waiting_for_reboot = false;
  outcome = running;
  reason = waiting_first;
}

abbrev machine : Machine
machine = result_or blank (make_machine utf8 phases forbidden)

machine_made : make_machine utf8 phases forbidden ≡ ok machine
unfolding make_machine check_transitions all_marker_bytes marker_bytes
machine_made = eq-ok_of_is_ok (make_machine utf8 phases forbidden) blank refl

phases_have : All HasMarkers phases
phases_have =
    ((omega arith, (omega arith, (omega arith, tt))), ((omega arith, (omega arith, tt)), tt))

machine-IsValid : IsValid machine
machine-IsValid = make_machine-IsValid utf8 phases forbidden machine phases_have machine_made

make_machine-IsValid_example : IsValid machine
make_machine-IsValid_example =
    make_machine-IsValid utf8 phases forbidden machine phases_have machine_made

abbrev reset : QmpEvent
reset = record { event = "RESET"; guest = some true; reason = none }

abbrev boot : List Event
boot =
    chunk (7 ∷ 1 ∷ []) ∷ chunk (2 ∷ 3 ∷ 4 ∷ []) ∷ qmp reset ∷ chunk (5 ∷ []) ∷ exited (pos 0) ∷ []

run-IsValid_example : IsValid (run boot machine)
run-IsValid_example = run-IsValid boot machine machine-IsValid

-- The machine that has seen a forbidden marker.
abbrev failed : Machine
failed = feed (9 ∷ 8 ∷ []) machine

failed_stopped : is_running failed.outcome ≡ false
unfolding feed first_forbidden find starts_with make_machine check_transitions all_marker_bytes
    marker_bytes
failed_stopped = refl

machine_running : machine.outcome ≡ running
unfolding make_machine check_transitions all_marker_bytes marker_bytes
machine_running = refl

abbrev chunks : List Bytes
chunks = (7 ∷ 1 ∷ []) ∷ (2 ∷ 9 ∷ 3 ∷ []) ∷ (4 ∷ []) ∷ []

chunks_fine : is_fail (feed (join chunks) machine).outcome ≡ false
unfolding feed feed_markers match_loop finish_phase first_forbidden find starts_with make_machine
    check_transitions all_marker_bytes marker_bytes
chunks_fine = refl

feed_all-join_example : result (feed_all chunks machine) ≡ result (feed (join chunks) machine)
feed_all-join_example = feed_all-join chunks machine machine-IsValid machine_running chunks_fine

-- The machine that has seen the first byte of a forbidden marker.
abbrev half : Machine
half = feed (1 ∷ 9 ∷ []) machine

half_running : half.outcome ≡ running
unfolding feed feed_markers match_loop finish_phase first_forbidden find starts_with make_machine
    check_transitions all_marker_bytes marker_bytes
half_running = refl

half_tail : half.forbidden_tail ≡ last half.forbidden_overlap (1 ∷ 9 ∷ [])
unfolding feed feed_markers match_loop finish_phase first_forbidden find starts_with make_machine
    check_transitions all_marker_bytes marker_bytes
half_tail = refl

half_clean : any_occurs half.forbidden (1 ∷ 9 ∷ []) ≡ false
unfolding feed feed_markers match_loop finish_phase first_forbidden find starts_with make_machine
    check_transitions all_marker_bytes marker_bytes
half_clean = refl

half-IsValid : IsValid half
half-IsValid = feed-IsValid machine (1 ∷ 9 ∷ []) machine-IsValid

feed-is_fail_example :
    is_fail (feed (8 ∷ []) half).outcome ≡ any_occurs half.forbidden (1 ∷ 9 ∷ 8 ∷ [])
feed-is_fail_example =
    feed-is_fail half (1 ∷ 9 ∷ []) (8 ∷ []) half-IsValid half_running half_tail half_clean

-- "boot" and "ok" in this order.
abbrev wanted_markers : List Marker
wanted_markers = raw (1 ∷ 2 ∷ []) ∷ raw (3 ∷ 4 ∷ []) ∷ []

abbrev ordered_machine : Machine
ordered_machine = result_or blank (ordered utf8 wanted_markers forbidden)

ordered_made : ordered utf8 wanted_markers forbidden ≡ ok ordered_machine
unfolding ordered make_phase make_machine check_transitions all_marker_bytes marker_bytes
ordered_made = eq-ok_of_is_ok (ordered utf8 wanted_markers forbidden) blank refl

ordered_clean : any_occurs (map (encode utf8) forbidden) (join chunks) ≡ false
unfolding find starts_with
ordered_clean = refl

ordered-feed_all_example :
    ((result (feed_all chunks ordered_machine)).outcome ≡ pass)
    ↔ InOrder (map (encode utf8) wanted_markers) (join chunks)
ordered-feed_all_example =
    ordered-feed_all utf8 wanted_markers forbidden ordered_machine chunks ordered_made ordered_clean
