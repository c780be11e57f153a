-- ===== src/Runner.antt =====
-- ostest/private/qemu_test_runner.py: what `_run_qemu` keeps while a guest runs, and what judges
-- the serial stream. What the system answers depends on how many calls were made before.
pub mod Legacy
pub mod Loop
pub mod Messages
pub mod Exit
pub mod Round
pub mod Evidence
pub mod Clock
pub mod Ends
pub mod Main
pub mod Qmp
use rules_ostest.Ppm.{PpmError}
use rules_ostest.Base.Int.{ℤ}
use rules_ostest.Search.{last}
use rules_ostest.Bytes.{Bytes}
use rules_ostest.Serial.Feed.{QmpEvent}
use rules_ostest.Serial.{Machine, Reason}
use rules_ostest.Base.{
  ℕ, ◌+◌, String, Bool, true, false, Option, none, some, List, ◌++◌, ltb, if◌then◌else◌, length,
  Result,
}

-- Decoded text, by its code points.
abbrev pub Chars : Type 0
Chars = List ℕ

-- `RunResult.reason`, by what it says.
pub data Why : Type 0 where
  forbidden_marker : Bytes → Why
  failure_matched success_matched deadline_passed log_too_long screendump_failed qmp_closed : Why
  serial : Reason → Why
  bad_screendump : Option PpmError → Why
  companion_failed : String → Why
  all_complete : Why
  accepted_status bad_status : ℤ → Why

-- A decoded line of QMP: an event, a response by its id and whether it has an `error`, or text that
-- is no JSON object.
pub data Message : Type 0 where
  event : QmpEvent → Message
  response : Option ℕ → Bool → Message
  malformed : Message

-- A read that does not wait. No bytes are the end of the stream.
pub data Read : Type 0 where
  would_block : Read
  got : Bytes → Read

-- The arguments of `_run_qemu` that its loop reads, and the answers of the system and of the
-- standard library. A pattern is its `search`; `decode` is the incremental decoder, which keeps the
-- bytes of a character that has not ended. A companion is started only where there are forwards.
pub record World : Type 0 where
  pub success : Chars → Bool
  pub failure : Option (Chars → Bool)
  pub decode : Bytes → Bytes → Bool → Chars × Bytes
  pub timeout_seconds : String
  pub success_exit_codes : List ℤ
  pub min_distinct_pixels : ℤ
  pub max_file_bytes : ℤ
  pub max_pixels : ℤ
  pub has_qmp : Bool
  pub has_companion : Bool
  pub companion_started : Bool
  pub loads : Bytes → Message
  pub is_late : ℕ → Bool
  pub serial_ready : ℕ → Bool
  pub qmp_ready : ℕ → Bool
  pub read_serial : ℕ → Read
  pub recv_qmp : ℕ → Read
  pub qmp_written : ℕ → Bool
  pub polled : ℕ → Option ℤ
  pub companion_polled : ℕ → Bool
  pub companion_waited : ℕ → Option String
  pub screenshot : ℕ → Option Bytes
  pub closed_for_long : ℕ → ℕ → Bool

-- `_LegacyVerdict`: the bytes that its decoder keeps, the text, and the end of the stream.
pub record LegacyVerdict : Type 0 where
  pub forbidden : List Bytes
  pub pending : Bytes
  pub seen : Chars
  pub forbidden_tail : Bytes
  pub max_forbidden_overlap : ℕ

-- The machine, or what stands for it where the plan is a pattern.
pub data Judge : Type 0 where
  legacy : LegacyVerdict → Judge
  phase_machine : Machine → Judge

-- The variables of `_run_qemu`; `now` counts the calls of the system.
pub record Run : Type 0 where
  pub judge : Judge
  pub match_pending : Bytes
  pub regex_buffer : Chars
  pub output_tail : Bytes
  pub log : Bytes
  pub serial_eof : Bool
  pub serial_log_bytes : ℕ
  pub qmp_registered : Bool
  pub qmp_buffer : Bytes
  pub qmp_closed_at : Option ℕ
  pub pending_events : List QmpEvent
  pub screenshot_request_id : Option ℕ
  pub screenshot_complete : Bool
  pub companion_complete : Bool
  pub guest_complete : Bool
  pub process_exit_handled : Bool
  pub returncode : Option ℤ
  pub outcome : Option (Bool × Why)
  pub now : ℕ

-- An exception, with the variables as it leaves them; `out_of_rounds` is none of the code's.
pub data Raise : Type 0 where
  no_qmp write_failed bad_message out_of_rounds : Raise

abbrev pub Outcome : Type 0
Outcome = Result (Raise × Run) Run

-- One call of the system.
abbrev pub tick : Run → Run
tick r = record r { now = r.now + 1 }

abbrev pub set_outcome : Bool → Why → Run → Run
set_outcome passed why r = record r { outcome = some (passed, why) }

-- `outcome is not None`
abbrev pub is_decided : Option (Bool × Why) → Bool
is_decided none = false
is_decided (some _) = true

-- `_append_output_tail` of at most 64 KiB.
abbrev pub max_failure_output : ℕ
max_failure_output = 65536

unfoldable pub append_output_tail : ℕ → Bytes → Bytes → Bytes
append_output_tail limit tail chunk =
    let extended = tail ++ chunk in
    if ltb limit (length extended) then last limit extended else extended
