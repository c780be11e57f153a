-- ===== src/Tests/Runners.antt =====
-- A run of the test runner whose guest prints its marker.
use rules_ostest.Runner.Qmp.{
  Line, reply, returned, wait_response, wait_response-IsResponse, IsResponse, Received,
}
use rules_ostest.Serial.Feed.{QmpEvent}
use rules_ostest.Runner.Exit.{handle_exit, poll_companion}
use rules_ostest.Runner.Messages.{on_ready}
use rules_ostest.Runner.Round.{run_loop, round, initial, on_queue, settle, unless_decided}
use rules_ostest.Runner.Loop.{
  drain_serial, drain_loop, take_chunk, process_serial, judge_chunk, request_screenshot,
}
use rules_ostest.Runner.Main.Markers.{main_status-InOrder}
use rules_ostest.Search.Order.{InOrder}
use rules_ostest.Serial.Feed.Scan.{any_occurs}
use rules_ostest.Bytes.{Bytes}
use rules_ostest.Base.Int.{pos}
use rules_ostest.Runner.Main.{make_judge, Plan, main_status, run_qemu, conclude}
use rules_ostest.Runner.Ends.{Ends, run_loop-Ends}
use rules_ostest.Serial.{
  all_marker_bytes, marker_bytes, check_transitions, make_phase, make_machine, ordered, running,
  waiting_first, Machine, text,
}
use rules_ostest.Serial.Feed.{feed, feed_markers, match_loop, finish_phase, first_forbidden}
use rules_ostest.Search.{find, starts_with}
use rules_ostest.Runner.{
  World, would_block, got, malformed, phase_machine, Read, Run, append_output_tail,
}
use rules_ostest.Base.{
  ℕ, ◌≤◌, String, ◌≡◌, refl, true, false, none, some, List, [], ◌∷◌, map, arith, leb, ◌==◌,
  if◌then◌else◌, result_or, ok,
}

abbrev utf8 : String → Bytes
utf8 _ = 65 ∷ []

abbrev plan : Plan
plan = record {
  phases = [];
  success_markers = "A" ∷ [];
  forbidden_markers = [];
  screendump_not_blank = false;
}

abbrev reads : ℕ → Read
reads n = if n == 3 then got (7 ∷ 65 ∷ []) else would_block

abbrev world : World
world = record {
  success = λ text. false;
  failure = none;
  decode = λ pending bytes final. (bytes, []);
  timeout_seconds = "9";
  success_exit_codes = [];
  min_distinct_pixels = pos 2;
  max_file_bytes = pos 100;
  max_pixels = pos 100;
  has_qmp = false;
  has_companion = false;
  companion_started = false;
  loads = λ line. malformed;
  is_late = λ n. leb 40 n;
  serial_ready = λ n. true;
  qmp_ready = λ n. false;
  read_serial = reads;
  recv_qmp = λ n. would_block;
  qmp_written = λ n. false;
  polled = λ n. none;
  companion_polled = λ n. false;
  companion_waited = λ n. none;
  screenshot = λ n. none;
  closed_for_long = λ a b. false;
}

abbrev blank : Machine
blank = record {
  phases = [];
  forbidden = [];
  forbidden_overlap = 0;
  forbidden_tail = [];
  marker_buffer = [];
  phase_index = 0;
  marker_index = 0;
  waiting_for_reboot = false;
  outcome = running;
  reason = waiting_first;
}

abbrev first_machine : Machine
first_machine = result_or blank (ordered utf8 (map text plan.success_markers) [])

passes : main_status world utf8 plan [] [] 50 false false true none false none ≡ 0
unfolding main_status run_qemu make_judge ordered make_phase make_machine check_transitions
    all_marker_bytes marker_bytes run_loop round on_ready on_queue settle handle_exit poll_companion
    drain_serial drain_loop take_chunk process_serial judge_chunk request_screenshot
    append_output_tail conclude unless_decided feed feed_markers match_loop finish_phase
    first_forbidden find starts_with
passes = refl

main_status-InOrder_example :
    (m : Machine) × (r : Run) × (make_judge utf8 plan ≡ ok (phase_machine m))
    × (run_loop world 50 (initial world (phase_machine m) plan.screendump_not_blank []) ≡ ok r)
    × (any_occurs (map utf8 plan.forbidden_markers) r.log ≡ false
        → InOrder (map utf8 plan.success_markers) r.log)
main_status-InOrder_example =
    main_status-InOrder world utf8 plan [] [] 50 false false true none false none refl refl refl
      refl passes

over : (n : ℕ) → 40 ≤ n → leb 40 n ≡ true
over n h = ground arith

run_loop-Ends_example :
    Ends (run_loop world 50 (initial world (phase_machine first_machine) false []))
run_loop-Ends_example =
    run_loop-Ends world 40 over 50 (initial world (phase_machine first_machine) false [])
      (omega arith) (omega arith)

abbrev reset : QmpEvent
reset = record { event = "RESET"; guest = some true; reason = none }

-- An event, a late response, and the response to request 7.
abbrev lines : List Line
lines = Line.event reset ∷ reply (some 4) (returned "late") ∷ reply (some 7) (returned "text") ∷ []

abbrev received : Received
received = record { value = "text"; pending_events = reset ∷ []; unread = [] }

wait_response-lines : wait_response 7 lines [] ≡ ok received
unfolding wait_response
wait_response-lines = refl

wait_response-IsResponse_example : IsResponse 7 lines [] received
wait_response-IsResponse_example = wait_response-IsResponse 7 lines [] received wait_response-lines
