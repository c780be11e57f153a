-- ===== src/Runner/Ends.antt =====
-- The loop of `_run_qemu` comes to a verdict, for every round looks at the clock.
use rules_ostest.Runner.Round.{round, run_loop, settle, on_queue, take_queue}
use rules_ostest.Runner.Evidence.Drain.{Read-cases}
use rules_ostest.Runner.Messages.{on_ready, on_qmp, drain_ready, qmp_if_ready}
use rules_ostest.Runner.Exit.{
  check_closed, end_run, handle_exit, judge_exit, poll, poll_companion, take_wait, poll_as,
  pass_exit, judge_closed,
}
use rules_ostest.Runner.Loop.{drain_loop, drain_serial, is_accepted}
use rules_ostest.Base.Int.{ℤ}
use rules_ostest.Runner.Clock.{
  comes, breaks, Advances, Advances-bind, Advances-sooner, unless_decided-Advances,
  take_chunk-Advances, read_qmp-Advances, on_pending-now,
}
use rules_ostest.Runner.{out_of_rounds, World, Outcome, Run, is_decided, tick, Raise}
use rules_ostest.Base.{
  ℕ, zero, suc, ◌+◌, ◌≤◌, ◌<◌, String, ◌≡◌, refl, ◌≢◌, inl, inr, Bool, true, false, not, ◌&&◌, ◌||◌,
  Option, none, some, [], arith, lt_cases, Bool-cases, Option-cases, is_empty, ◌>>=◌, ok, err,
}

poll_companion-later : (w : World) (r : Run) → r.now ≤ (poll_companion w r).now
unfolding poll_companion
poll_companion-later w r = elim (Bool-cases (w.companion_started && not r.companion_complete)) [
  | inr e ↦ rw e (omega arith)
  | inl e ↦ rw e (elim (Bool-cases (w.companion_polled r.now)) [
    | inr f ↦ rw f (omega arith)
    | inl f ↦ rw f (waited (w.companion_waited (r.now + 1)))
  ])
]
  where
    waited : (o : Option String) → r.now ≤ (take_wait o (tick (tick r))).now
    waited none = omega arith
    waited (some what) = omega arith

poll-later : (w : World) (r : Run) → r.now ≤ (poll w r).now
poll-later w r = polled r.returncode
  where
    polled : (o : Option ℤ) → r.now ≤ (poll_as w o r).now
    polled (some status) = omega arith
    polled none = omega arith

judge_exit-now : (w : World) (status : ℤ) (r : Run) → (judge_exit w status r).now ≡ r.now
unfolding judge_exit
judge_exit-now w status r =
    elim (Bool-cases
      ((r.guest_complete || is_accepted w.success_exit_codes status) && r.screenshot_complete)) [
        | inl e ↦ rw e (
            passed r.companion_complete (record r {
              process_exit_handled = true;
              guest_complete = r.guest_complete || is_accepted w.success_exit_codes status;
            }))
        | inr e ↦ rw e refl
      ]
  where
    passed : (test : Bool) (m : Run) → (pass_exit test status m).now ≡ m.now
    passed true m = refl
    passed false m = refl

check_closed-later : (w : World) (r : Run) → r.now ≤ (check_closed w r).now
unfolding check_closed judge_closed
check_closed-later w r = elim (Bool-cases (is_decided r.outcome)) [
  | inl e ↦ rw (e, check_closed) (omega arith)
  | inr e ↦ elim (Option-cases r.qmp_closed_at) [
    | inl f ↦ simp (e, check_closed, f) (omega arith)
    | inr (closed_at, f) ↦
        simp (e, check_closed, f)
          (omega (arith, judged (poll w r).returncode closed_at (poll w r), poll-later w r))
  ]
]
  where
    judged : (o : Option ℤ) (closed_at : ℕ) (m : Run) → m.now ≤ (judge_closed w o closed_at m).now
    judged (some status) closed_at m = omega arith
    judged none closed_at m = elim (Bool-cases (m.guest_complete && m.screenshot_complete)) [
      | inl f ↦ rw f (omega arith)
      | inr f ↦ elim (Bool-cases (w.closed_for_long closed_at m.now)) [
        | inl g ↦ rw (f, g) (omega arith)
        | inr g ↦ rw (f, g) (omega arith)
      ]
    ]

end_run-Advances :
    (w : World) (n : ℕ) (status : ℤ) (r : Run) → n ≤ r.now → Advances n (end_run w status r)
unfolding end_run
end_run-Advances w n status r h = elim (Bool-cases (not r.serial_eof)) [
  | inl e ↦ rw e (comes h)
  | inr e ↦ elim (Bool-cases (is_decided r.outcome)) [
    | inl f ↦ rw (e, f) (comes h)
    | inr f ↦
        rw (e, f)
          (comes (
            omega
              (arith, h, judge_exit-now w status r, check_closed-later w (judge_exit w status r))))
  ]
]

-- A verdict, or an exception of the code's.
pub data Ends : Outcome → Type 0 where
  decides : {r : Run} → is_decided r.outcome ≡ true → Ends (ok r)
  breaks_off : {e : Raise × Run} → e.0 ≢ out_of_rounds → Ends (err e)

-- From call `late` on the deadline has passed.
module _ (w : World) (late : ℕ) (is_over : (n : ℕ) → late ≤ n → w.is_late n ≡ true) where
  early : (n : ℕ) → w.is_late n ≡ false → n < late
  early n h = elim (lt_cases n late) [ inl lt ↦ lt | inr le ↦ cc (is_over n le, h) ]

  drain_loop-Advances :
      (fuel n : ℕ) (r : Run)
      → 0 < fuel
      → late < r.now + fuel
      → n ≤ r.now
      → Advances n (drain_loop w fuel r)
  unfolding drain_loop
  drain_loop-Advances zero n r some_left room h = absurd (omega (arith, some_left))
  drain_loop-Advances (suc fuel) n r some_left room h = elim (Bool-cases (is_decided r.outcome)) [
    | inl e ↦ rw (e, drain_loop) (comes h)
    | inr e ↦ elim (Bool-cases (w.is_late r.now)) [
      | inl f ↦ rw (e, f, drain_loop) (comes (omega (arith, h)))
      | inr f ↦
          let soon = early r.now f in
          elim (Read-cases (w.read_serial (r.now + 1))) [
            | inl g ↦ rw (e, f, g, drain_loop) (comes (omega (arith, h)))
            | inr (bytes, g) ↦
                rw (e, f, g, drain_loop)
                  (Advances-sooner (omega (arith, h)) (
                    take_chunk-Advances w (r.now + 2) bytes (drain_loop w fuel) (tick (tick r))
                      (λ m le.
                        drain_loop-Advances fuel (r.now + 2) m (omega (arith, soon, room))
                          (omega (arith, room, le)) le)
                      (omega arith)))
          ]
    ]
  ]

  module _ (fuel : ℕ) (some_left : 0 < fuel) where
    drain_serial-Advances :
        (n : ℕ) (r : Run) → late < n + fuel → n ≤ r.now → Advances n (drain_serial w fuel r)
    unfolding drain_serial
    drain_serial-Advances n r room h = elim (Bool-cases r.serial_eof) [
      | inl e ↦ simp (e, drain_serial) (comes h)
      | inr e ↦
          simp (e, drain_serial) (drain_loop-Advances fuel n r some_left (omega (arith, room, h)) h)
    ]

    on_ready-Advances :
        (n : ℕ) (r : Run) → late < n + fuel → n ≤ r.now → Advances n (on_ready w fuel r)
    unfolding on_ready on_qmp
    on_ready-Advances n r room h =
        Advances-bind (drained (w.serial_ready r.now && not r.serial_eof))
          (asked (w.qmp_ready r.now && r.qmp_registered))
      where
        drained : (test : Bool) → Advances n (drain_ready w test fuel (tick r))
        drained true = drain_serial-Advances n (tick r) room (omega (arith, h))
        drained false = comes (omega (arith, h))

        asked : (test : Bool) (m : Run) → n ≤ m.now → Advances n (qmp_if_ready w test fuel m)
        asked true m le = Advances-bind (drain_serial-Advances n m room le) (read_qmp-Advances w n)
        asked false m le = comes le

    handle_exit-Advances :
        (n : ℕ) (o : Option ℤ) (handled : Bool) (r : Run)
        → late < n + fuel
        → n ≤ r.now
        → Advances n (handle_exit w o handled fuel r)
    unfolding handle_exit
    handle_exit-Advances n none handled r room h = comes (omega (arith, h, check_closed-later w r))
    handle_exit-Advances n (some status) true r room h =
        comes (omega (arith, h, check_closed-later w r))
    handle_exit-Advances n (some status) false r room h =
        Advances-bind (drain_serial-Advances n r room h) (end_run-Advances w n status)

    settle-Advances : (n : ℕ) (r : Run) → late < n + fuel → n ≤ r.now → Advances n (settle w fuel r)
    unfolding settle
    settle-Advances n r room h =
        let m = poll_companion w r in
        let later : n ≤ m.now = omega (arith, h, poll_companion-later w r) in
        elim (Bool-cases (m.guest_complete && m.screenshot_complete && m.companion_complete)) [
          | inl e ↦ rw (e, settle) (comes later)
          | inr e ↦
              rw (e, settle)
                (handle_exit-Advances n (poll w m).returncode m.process_exit_handled (poll w m) room
                  (omega (arith, later, poll-later w m)))
        ]

    round-Advances : (n : ℕ) (r : Run) → late < n + fuel → n ≤ r.now → Advances n (round w fuel r)
    unfolding round on_queue
    round-Advances n r room h =
        Advances-bind (on_ready-Advances n r room h)
          (λ m le. unless_decided-Advances n (on_queue w fuel) m le (queued m le))
      where
        queued : (m : Run) → n ≤ m.now → Advances n (on_queue w fuel m)
        queued m le = elim (Bool-cases (is_empty m.pending_events)) [
          | inl e ↦ rw (e, on_queue) (settle-Advances n m room le)
          | inr e ↦
              rw (e, on_queue)
                (Advances-bind (drain_serial-Advances n m room le) (λ o le'.
                  unless_decided-Advances n (take_queue w fuel) o le' (
                    settle-Advances n _ room (
                      omega (
                        arith,
                        le',
                        on_pending-now o.pending_events (record o { pending_events = [] }),
                      )))))
        ]

  -- Where from some call of the system on the deadline has passed, and the fuel and the calls so
  -- far are more than that call's number, the loop returns with a verdict, or leaves by an
  -- exception of the code's.
  pub run_loop-Ends :
      (fuel : ℕ) (r : Run) → 0 < fuel → late < r.now + fuel → Ends (run_loop w fuel r)
  unfolding run_loop
  run_loop-Ends zero r some_left room = absurd (omega (arith, some_left))
  run_loop-Ends (suc fuel) r some_left room = elim (Bool-cases (is_decided r.outcome)) [
    | inl e ↦ rw (e, run_loop) (decides e)
    | inr e ↦ elim (Bool-cases (w.is_late r.now)) [
      | inl f ↦ rw (e, f, run_loop) (decides refl)
      | inr f ↦
          let soon = early r.now f in
          rw (e, f, run_loop)
            (go_on (round w (suc fuel) (tick r))
              (round-Advances (suc fuel) (omega arith) (r.now + 1) (tick r) (omega (arith, room))
                (omega arith))
              (λ m le. run_loop-Ends fuel m (omega (arith, soon, room)) (omega (arith, room, le))))
    ]
  ]
    where
      go_on :
          {n : ℕ} (o : Outcome)
          → Advances n o
          → ((m : Run) → n ≤ m.now → Ends (run_loop w fuel m))
          → Ends (o >>= run_loop w fuel)
      go_on (ok m) (comes le) k = k m le
      go_on (err e) (breaks h) k = breaks_off h
