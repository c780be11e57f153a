-- ===== src/Runner/Loop.antt =====
-- `_run_qemu`: the loop over the events of the guest, and the functions in it.
use rules_ostest.Runner.Legacy.{feed_legacy, matches, trim, max_match_buffer}
use rules_ostest.Bytes.{Bytes}
use rules_ostest.Base.Int.{pos, negsuc, ℤ}
use rules_ostest.Serial.{fail, pass, running, Machine, AssertionOutcome}
use rules_ostest.Runner.{
  would_block, got, legacy, phase_machine, World, Run, Why, append_output_tail, Judge, Outcome,
  LegacyVerdict, serial, deadline_passed, tick, max_failure_output, set_outcome, is_decided, no_qmp,
  log_too_long, out_of_rounds, write_failed, failure_matched,
}
use rules_ostest.Serial.Feed.{feed, timed_out}
use rules_ostest.Base.{
  ℕ, zero, suc, ◌+◌, Bool, true, false, not, ◌&&◌, ◌||◌, Option, none, some, List, [], ◌∷◌, ◌++◌,
  ltb, ◌==◌, if◌then◌else◌, length, is_empty, ◌>>=◌, ok, err,
}

-- `MAX_SERIAL_LOG_BYTES`
abbrev pub max_serial_log_bytes : ℕ
max_serial_log_bytes = 268435456

abbrev pub same_id : Option ℕ → Option ℕ → Bool
same_id none none = true
same_id (some a) (some b) = a == b
same_id _ _ = false

abbrev pub same_int : ℤ → ℤ → Bool
same_int (pos a) (pos b) = a == b
same_int (negsuc a) (negsuc b) = a == b
same_int _ _ = false

abbrev pub is_accepted : List ℤ → ℤ → Bool
is_accepted [] status = false
is_accepted (code ∷ codes) status = same_int status code || is_accepted codes status

-- Complete lines, and what follows the last of them.
abbrev pub add_line : ℕ → List Bytes × Bytes → List Bytes × Bytes
add_line byte ([], rest) = ([], byte ∷ rest)
add_line byte (line ∷ lines, rest) = ((byte ∷ line) ∷ lines, rest)

unfoldable pub split_lines : Bytes → List Bytes × Bytes
split_lines [] = ([], [])
split_lines (byte ∷ bytes) =
    let later = split_lines bytes in
    if byte == 10 then ([] ∷ later.0, later.1) else add_line byte later

-- What a pattern plan says of a chunk.
abbrev pub take_verdict : Option (Bool × Why) × LegacyVerdict → Run → Run
take_verdict (none, l) r = record r { judge = legacy l }
take_verdict (some (true, why), l) r = record r { judge = legacy l; guest_complete = true }
take_verdict (some (false, why), l) r = record r { judge = legacy l; outcome = some (false, why) }

-- What the machine says of a chunk.
abbrev pub by_result : AssertionOutcome → Machine → Run → Run
by_result fail m r = record r { judge = phase_machine m; outcome = some (false, serial m.reason) }
by_result pass m r = record r { judge = phase_machine m; guest_complete = true }
by_result running m r = record r { judge = phase_machine m }

abbrev pub take_result : Machine → Run → Run
take_result m r = by_result m.outcome m r

-- A chunk that was read is written to the log.
abbrev pub logged : Bytes → Run → Run
logged chunk r = record r {
  log = r.log ++ chunk;
  serial_log_bytes = r.serial_log_bytes + length chunk;
}

module _ (w : World) where
  -- `if guest_complete and not screenshot_complete and screenshot_request_id is None`
  unfoldable pub request_screenshot : Run → Outcome
  request_screenshot r =
      let asked = record (tick r) { screenshot_request_id = some 1000 } in
      if r.guest_complete && not r.screenshot_complete && same_id r.screenshot_request_id none
      then (if not w.has_qmp
          then err (no_qmp, r)
          else if w.qmp_written r.now
          then ok asked
          else err (write_failed, asked))
      else ok r

  -- What `process_serial` does with a chunk that is in the tail by then.
  unfoldable pub judge_chunk : Judge → Bytes → Bool → Run → Outcome
  unfolding request_screenshot feed_legacy
  judge_chunk (legacy l) chunk final r =
      request_screenshot (take_verdict (feed_legacy w chunk final l) r)
  judge_chunk (phase_machine m) chunk final r =
      let decoded = w.decode r.match_pending chunk final in
      let buffer = r.regex_buffer ++ decoded.0 in
      let seen = record r { match_pending = decoded.1; regex_buffer = buffer } in
      let shorter = record seen { regex_buffer = trim max_match_buffer buffer } in
      if matches w.failure buffer
      then ok (set_outcome false failure_matched seen)
      else request_screenshot (take_result (feed chunk m) shorter)

  unfoldable pub process_serial : Bytes → Bool → Run → Outcome
  unfolding judge_chunk append_output_tail
  process_serial chunk final r =
      let kept = record r {
        output_tail = append_output_tail max_failure_output r.output_tail chunk;
      } in
      if is_empty chunk && not final then ok r else judge_chunk r.judge chunk final kept

  -- The deadline: a machine is told.
  abbrev pub tell_late : Judge → Judge
  tell_late (legacy l) = legacy l
  tell_late (phase_machine m) = phase_machine (timed_out w.timeout_seconds m)

  abbrev pub time_out : Run → Run
  time_out r = record r { judge = tell_late r.judge; outcome = some (false, deadline_passed) }

  -- A read of the serial stream; the rest of the loop is `again`.
  unfoldable pub take_chunk : Bytes → (Run → Outcome) → Run → Outcome
  unfolding process_serial
  take_chunk chunk again r =
      let grown = logged chunk r in
      elim (is_empty chunk) [
        | true ↦ process_serial [] true (record r { serial_eof = true })
        | false ↦ elim (ltb max_serial_log_bytes grown.serial_log_bytes) [
          | true ↦ ok (set_outcome false log_too_long grown)
          | false ↦ process_serial chunk false grown >>= again
        ]
      ]

  -- The `while` loop of `drain_serial`. Every round reads the clock, so the rounds up to the
  -- deadline are enough fuel.
  unfoldable pub drain_loop : ℕ → Run → Outcome
  unfolding take_chunk
  drain_loop zero r = if is_decided r.outcome then ok r else err (out_of_rounds, r)
  drain_loop (suc fuel) r = elim (is_decided r.outcome) [
    | true ↦ ok r
    | false ↦ elim (w.is_late r.now) [
      | true ↦ ok (time_out (tick r))
      | false ↦ elim (w.read_serial (r.now + 1)) [
        | would_block ↦ ok (tick (tick r))
        | got chunk ↦ take_chunk chunk (drain_loop fuel) (tick (tick r))
      ]
    ]
  ]

  unfoldable pub drain_serial : ℕ → Run → Outcome
  unfolding drain_loop
  drain_serial fuel r = elim r.serial_eof [ true ↦ ok r | false ↦ drain_loop fuel r ]
