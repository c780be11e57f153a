-- ===== src/Runner/Round.antt =====
-- `_run_qemu`: one round of its loop, and the loop.
use rules_ostest.Serial.Feed.{QmpEvent}
use rules_ostest.Runner.Loop.{drain_serial, time_out}
use rules_ostest.Runner.Exit.{poll_companion, handle_exit, poll}
use rules_ostest.Runner.Messages.{on_pending, on_ready}
use rules_ostest.Runner.{
  Run, Outcome, World, is_decided, Judge, out_of_rounds, set_outcome, all_complete, tick,
}
use rules_ostest.Base.{
  ℕ, zero, suc, Bool, true, false, not, ◌&&◌, none, List, [], if◌then◌else◌, is_empty, ◌>>=◌, ok,
  err,
}

-- `if outcome is not None: break`
unfoldable pub unless_decided : (Run → Outcome) → Run → Outcome
unless_decided f r = elim (is_decided r.outcome) [ true ↦ ok r | false ↦ f r ]

module _ (w : World) where
  -- Behind the events of the selector.
  unfoldable pub settle : ℕ → Run → Outcome
  unfolding poll_companion handle_exit
  settle fuel r =
      let next = poll_companion w r in
      elim (next.guest_complete && next.screenshot_complete && next.companion_complete) [
        | true ↦ ok (set_outcome true all_complete next)
        | false ↦
            handle_exit w (poll w next).returncode next.process_exit_handled fuel (poll w next)
      ]

  -- The events that wait are taken out of the queue.
  abbrev pub take_queue : ℕ → Run → Outcome
  take_queue fuel r = settle fuel (on_pending r.pending_events (record r { pending_events = [] }))

  unfoldable pub on_queue : ℕ → Run → Outcome
  unfolding drain_serial on_pending settle
  on_queue fuel r = elim (is_empty r.pending_events) [
    | true ↦ settle fuel r
    | false ↦ drain_serial w fuel r >>= unless_decided (take_queue fuel)
  ]

  unfoldable pub round : ℕ → Run → Outcome
  unfolding on_ready on_queue
  round fuel r = on_ready w fuel r >>= unless_decided (on_queue fuel)

  -- `while outcome is None`; every round reads the clock.
  unfoldable pub run_loop : ℕ → Run → Outcome
  unfolding round
  run_loop zero r = if is_decided r.outcome then ok r else err (out_of_rounds, r)
  run_loop (suc fuel) r = elim (is_decided r.outcome) [
    | true ↦ ok r
    | false ↦ elim (w.is_late r.now) [
      | true ↦ ok (time_out w (tick r))
      | false ↦ round (suc fuel) (tick r) >>= run_loop fuel
    ]
  ]

-- The variables before the loop; `wanted` is whether a screenshot is asked for.
abbrev pub initial : World → Judge → Bool → List QmpEvent → Run
initial w judge wanted queue = record {
  judge = judge;
  match_pending = [];
  regex_buffer = [];
  output_tail = [];
  log = [];
  serial_eof = false;
  serial_log_bytes = 0;
  qmp_registered = w.has_qmp;
  qmp_buffer = [];
  qmp_closed_at = none;
  pending_events = queue;
  screenshot_request_id = none;
  screenshot_complete = not wanted;
  companion_complete = not w.has_companion;
  guest_complete = false;
  process_exit_handled = false;
  returncode = none;
  outcome = none;
  now = 0;
}
