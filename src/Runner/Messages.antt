-- ===== src/Runner/Messages.antt =====
-- `_run_qemu`: what the guest's serial stream and QMP bring in a round.
use rules_ostest.Runner.Loop.{drain_serial, split_lines, same_id}
use rules_ostest.Bytes.{Bytes}
use rules_ostest.Serial.{fail, pass, running, AssertionOutcome, Machine}
use rules_ostest.Runner.{
  would_block, got, event, response, malformed, legacy, phase_machine, Judge, World, Run, Message,
  serial, is_decided, set_outcome, Outcome, bad_screendump, bad_message, tick, screendump_failed,
}
use rules_ostest.Serial.Feed.{handle_qmp_event, QmpEvent}
use rules_ostest.Ppm.{validate_ppm_distinct_pixels}
use rules_ostest.Base.{
  ℕ, Bool, true, false, not, ◌&&◌, none, some, List, [], ◌∷◌, ◌++◌, if◌then◌else◌, is_empty, ◌>>=◌,
  ok, err,
}

-- `result.outcome is AssertionOutcome.FAIL`
abbrev pub by_failure : AssertionOutcome → Machine → Run → Run
by_failure fail m r = record r { judge = phase_machine m; outcome = some (false, serial m.reason) }
by_failure pass m r = record r { judge = phase_machine m }
by_failure running m r = record r { judge = phase_machine m }

abbrev pub take_failure : Machine → Run → Run
take_failure m r = by_failure m.outcome m r

abbrev pub judge_event : Judge → QmpEvent → Run → Run
judge_event (legacy l) e r = r
judge_event (phase_machine m) e r = take_failure (handle_qmp_event e m) r

abbrev pub on_event : QmpEvent → Run → Run
on_event e r = judge_event r.judge e r

-- The events that came with the answers to the runner's own requests, up to the first that fails.
unfoldable pub on_pending : List QmpEvent → Run → Run
on_pending [] r = r
on_pending (e ∷ es) r =
    let next = on_event e r in
    elim (is_decided next.outcome) [ true ↦ next | false ↦ on_pending es next ]

module _ (w : World) where
  -- The response to `screendump`.
  unfoldable pub check_screenshot : Run → Run
  check_screenshot r = elim (w.screenshot r.now) [
    | none ↦ set_outcome false (bad_screendump none) (tick r)
    | some contents ↦
        elim (validate_ppm_distinct_pixels contents w.min_distinct_pixels w.max_file_bytes
          w.max_pixels) [
            | ok info ↦ record (tick r) { screenshot_complete = true }
            | err e ↦ set_outcome false (bad_screendump (some e)) (tick r)
          ]
  ]

  unfoldable pub on_message : Message → Run → Outcome
  unfolding check_screenshot
  on_message malformed r = err (bad_message, r)
  on_message (event e) r = ok (on_event e r)
  on_message (response id has_error) r =
      if same_id id r.screenshot_request_id
      then ok (if has_error then set_outcome false screendump_failed r else check_screenshot r)
      else ok r

  unfoldable pub on_lines : List Bytes → Run → Outcome
  unfolding on_message
  on_lines [] r = ok r
  on_lines (line ∷ lines) r = do next ← on_message (w.loads line) r; on_lines lines next

  -- A chunk of QMP; none is the end of the connection.
  unfoldable pub on_chunk : Bytes → Run → Outcome
  unfolding on_lines split_lines
  on_chunk chunk r =
      let lines = split_lines (r.qmp_buffer ++ chunk) in
      let closed = record r { qmp_registered = false } in
      if is_empty chunk
      then ok (
          if r.guest_complete && r.screenshot_complete
          then closed
          else record (tick closed) { qmp_closed_at = some r.now })
      else on_lines lines.0 (record r { qmp_buffer = lines.1 })

  -- What QMP has to say, unless reading the serial stream has decided.
  unfoldable pub read_qmp : Run → Outcome
  unfolding on_chunk
  read_qmp r = elim (is_decided r.outcome) [
    | true ↦ ok r
    | false ↦ elim (w.recv_qmp r.now) [
      | would_block ↦ ok (tick r)
      | got chunk ↦ on_chunk chunk (tick r)
    ]
  ]

  -- The serial bytes that are there are read before QMP is.
  unfoldable pub on_qmp : ℕ → Run → Outcome
  unfolding drain_serial read_qmp
  on_qmp fuel r = drain_serial w fuel r >>= read_qmp

  abbrev pub drain_ready : Bool → ℕ → Run → Outcome
  drain_ready true fuel r = drain_serial w fuel r
  drain_ready false fuel r = ok r

  abbrev pub qmp_if_ready : Bool → ℕ → Run → Outcome
  qmp_if_ready true fuel r = on_qmp fuel r
  qmp_if_ready false fuel r = ok r

  -- `selector.select`, sorted: the serial stream first.
  unfoldable pub on_ready : ℕ → Run → Outcome
  unfolding drain_serial on_qmp
  on_ready fuel r =
      drain_ready (w.serial_ready r.now && not r.serial_eof) fuel (tick r)
      >>= qmp_if_ready (w.qmp_ready r.now && r.qmp_registered) fuel
