-- ===== src/Runner/Exit.antt =====
-- `_run_qemu`: the companion, and the end of the process.
use rules_ostest.Runner.Loop.{drain_serial, is_accepted}
use rules_ostest.Base.Int.{ℤ}
use rules_ostest.Runner.{
  legacy, phase_machine, Run, World, Judge, set_outcome, tick, is_decided, Outcome, Why,
  accepted_status, companion_failed, qmp_closed, bad_status, serial,
}
use rules_ostest.Serial.Feed.{process_exited}
use rules_ostest.Base.{
  ℕ, ◌+◌, String, Bool, true, false, not, ◌&&◌, ◌||◌, Option, none, some, if◌then◌else◌, ◌>>=◌, ok,
}

abbrev pub exit_reason : ℤ → Judge → Why
exit_reason status (legacy l) = bad_status status
exit_reason status (phase_machine m) = serial (process_exited status m).reason

abbrev pub tell_exited : ℤ → Judge → Judge
tell_exited status (legacy l) = legacy l
tell_exited status (phase_machine m) = phase_machine (process_exited status m)

-- The guest is done, and so is the screenshot.
abbrev pub pass_exit : Bool → ℤ → Run → Run
pass_exit true status r = set_outcome true (accepted_status status) r
pass_exit false status r = r

abbrev pub fail_exit : ℤ → Run → Run
fail_exit status r = record r {
  judge = tell_exited status r.judge;
  outcome = some (false, exit_reason status r.judge);
}

-- `companion.wait(0.1)`: no error is success.
abbrev pub take_wait : Option String → Run → Run
take_wait (some what) r = set_outcome false (companion_failed what) r
take_wait none r = record r { companion_complete = true }

module _ (w : World) where
  -- `if companion is not None and not companion_complete`
  unfoldable pub poll_companion : Run → Run
  poll_companion r =
      if w.companion_started && not r.companion_complete
      then (if w.companion_polled r.now
          then take_wait (w.companion_waited (r.now + 1)) (tick (tick r))
          else tick r)
      else r

  -- `process.poll()`, which keeps the status.
  abbrev pub poll_as : Option ℤ → Run → Run
  poll_as (some status) r = r
  poll_as none r = record (tick r) { returncode = w.polled r.now }

  abbrev pub poll : Run → Run
  poll r = poll_as r.returncode r

  -- The process has ended and its output has been read, with no verdict so far.
  unfoldable pub judge_exit : ℤ → Run → Run
  judge_exit status r =
      let guest = r.guest_complete || is_accepted w.success_exit_codes status in
      let done = record r { guest_complete = guest; process_exit_handled = true } in
      if guest && r.screenshot_complete
      then pass_exit r.companion_complete status done
      else fail_exit status done

  -- QMP was closed; the process has been polled.
  unfoldable pub judge_closed : Option ℤ → ℕ → Run → Run
  judge_closed (some status) closed_at r = r
  judge_closed none closed_at r =
      if r.guest_complete && r.screenshot_complete
      then r
      else if w.closed_for_long closed_at r.now
      then set_outcome false qmp_closed (tick r)
      else tick r

  unfoldable pub check_closed : Run → Run
  unfolding judge_closed
  check_closed r = elim (is_decided r.outcome) [
    | true ↦ r
    | false ↦ elim r.qmp_closed_at [
      | none ↦ r
      | some closed_at ↦ judge_closed (poll r).returncode closed_at (poll r)
    ]
  ]

  -- The process has ended; what it wrote has been read unless there may be more.
  unfoldable pub end_run : ℤ → Run → Outcome
  unfolding judge_exit check_closed
  end_run status r =
      if not r.serial_eof
      then ok r
      else if is_decided r.outcome
      then ok (record r { process_exit_handled = true })
      else ok (check_closed (judge_exit status r))

  -- The process has been polled.
  unfoldable pub handle_exit : Option ℤ → Bool → ℕ → Run → Outcome
  unfolding drain_serial end_run
  handle_exit none handled fuel r = ok (check_closed r)
  handle_exit (some status) true fuel r = ok (check_closed r)
  handle_exit (some status) false fuel r = drain_serial w fuel r >>= end_run status
