-- ===== src/Runner/Evidence/Exit.antt =====
-- What follows the events of a round: the companion, the verdict and the end of the process.
use rules_ostest.Runner.Evidence.Drain.{IsBacked, set_outcome-Backed, drain_serial-Backed}
use rules_ostest.Runner.Evidence.Steps.{Judged-handled, Judged-fail, Judged-exited}
use rules_ostest.Runner.Exit.{
  check_closed, poll_companion, judge_exit, take_wait, poll, judge_closed, poll_as, handle_exit,
  fail_exit, end_run, pass_exit,
}
use rules_ostest.Runner.Loop.{is_accepted}
use rules_ostest.Runner.Evidence.{
  Judged, WasAccepted, Holds, returns, has_failed, Holds-bind, Start,
}
use rules_ostest.Base.Int.{ℤ}
use rules_ostest.Runner.{Why, World, is_decided, Run, tick, qmp_closed, companion_failed}
use mathlib.Core.Path.{subst}
use rules_ostest.Base.{
  ℕ, ◌+◌, String, ◌≡◌, refl, sym, ◌⊎◌, inl, inr, Bool, true, false, not, ◌&&◌, ◌||◌, Option, none,
  some, [], arith, Bool-cases, Option-cases,
}

or-cases : (a b : Bool) → (a || b) ≡ true → (a ≡ true) ⊎ (b ≡ true)
or-cases true b h = inl refl
or-cases false b h = inr h

pub not-eq : (b : Bool) → not b ≡ true → b ≡ false
not-eq b h = ground arith

and-cases : (a b : Bool) → (a && b) ≡ true → (a ≡ true) × (b ≡ true)
and-cases a b h = ground arith

pub eq-none : (o : Option (Bool × Why)) → is_decided o ≡ false → o ≡ none
eq-none none h = refl
eq-none (some x) h = cc

module _ (w : World) (start : Start) (wanted : Bool) where
  abbrev pub Quiet : Run → Type 0
  Quiet = IsBacked w start wanted []

  poll_as-Backed : (o : Option ℤ) (r : Run) → Quiet r → Quiet (poll_as w o r)
  poll_as-Backed (some status) r b = b
  poll_as-Backed none r b = record {
    judged = b.judged;
    shown = b.shown;
    served = b.served;
    ended = λ status e. (r.now, e);
    queued = b.queued;
    queue_heard = b.queue_heard;
    buffered = b.buffered;
    early = b.early;
    passed = b.passed;
  }

  pub poll-Backed : (r : Run) → Quiet r → Quiet (poll w r)
  poll-Backed r b = poll_as-Backed r.returncode r b

  -- Whether the companion has failed, or the outcome is what it was.
  pub record Polled (r n : Run) : Type 0 where
    pub known : Quiet n
    pub decided : (n.outcome ≡ r.outcome) ⊎ (n.companion_complete ≡ false)
    pub same_guest : n.guest_complete ≡ r.guest_complete

  take_wait-Polled :
      (o : Option String) (r : Run)
      → w.companion_started ≡ true
      → r.companion_complete ≡ false
      → w.companion_polled r.now ≡ true
      → w.companion_waited (r.now + 1) ≡ o
      → Quiet r
      → Polled r (take_wait o (tick (tick r)))
  take_wait-Polled (some what) r has not_yet polled waited b = record {
    known = set_outcome-Backed w start wanted [] (companion_failed what) r.log (tick (tick r)) b;
    decided = inr not_yet;
    same_guest = refl;
  }
  take_wait-Polled none r has not_yet polled waited b = record {
    known = record {
      judged = b.judged;
      shown = b.shown;
      served = λ _. inr (record { time = r.now; has_ended = polled; ended_well = waited });
      ended = b.ended;
      queued = b.queued;
      queue_heard = b.queue_heard;
      buffered = b.buffered;
      early = b.early;
      passed = λ p. ((b.passed p).0, (b.passed p).1, refl);
    };
    decided = inl refl;
    same_guest = refl;
  }

  pub poll_companion-Polled : (r : Run) → Quiet r → Polled r (poll_companion w r)
  unfolding poll_companion
  poll_companion-Polled r b = elim (Bool-cases (w.companion_started && not r.companion_complete)) [
    | inr e ↦ rw e (record { known = b; decided = inl refl; same_guest = refl })
    | inl e ↦ elim (Bool-cases (w.companion_polled r.now)) [
      | inr f ↦ rw (e, f) (record { known = b; decided = inl refl; same_guest = refl })
      | inl f ↦
          let (has, not_yet) = and-cases w.companion_started (not r.companion_complete) e in
          rw (e, f)
            (take_wait-Polled (w.companion_waited (r.now + 1)) r has
              (not-eq r.companion_complete not_yet) f refl b)
    ]
  ]

  fail_exit-Backed :
      (status : ℤ) (t : ℕ) (r : Run)
      → w.polled t ≡ some status
      → Quiet r
      → Quiet (fail_exit status r)
  fail_exit-Backed status t r seen b = record {
    judged = Judged-fail w start (Judged-exited w start status r.judge (t, seen) b.judged);
    shown = b.shown;
    served = b.served;
    ended = b.ended;
    queued = b.queued;
    queue_heard = b.queue_heard;
    buffered = b.buffered;
    early = b.early;
    passed = λ p. cc;
  }

  pass_exit-Backed :
      (test : Bool) (status : ℤ) (r : Run)
      → test ≡ r.companion_complete
      → (r.guest_complete && r.screenshot_complete) ≡ true
      → r.outcome ≡ none
      → Quiet r
      → Quiet (pass_exit test status r)
  pass_exit-Backed false status r served both open_still b = b
  pass_exit-Backed true status r served both open_still b = record {
    judged =
        subst
          (λ o. Judged w start r.judge r.log (has_failed o) r.guest_complete r.process_exit_handled)
          open_still b.judged;
    shown = b.shown;
    served = b.served;
    ended = b.ended;
    queued = b.queued;
    queue_heard = b.queue_heard;
    buffered = b.buffered;
    early = b.early;
    passed = λ p. ((and-cases _ _ both).0, (and-cases _ _ both).1, sym served);
  }

  handled-Backed :
      (guest : Bool) (r : Run)
      → (guest ≡ true → (r.guest_complete ≡ true) ⊎ WasAccepted w start)
      → (r.guest_complete ≡ true → guest ≡ true)
      → Quiet r
      → Quiet (record r { guest_complete = guest; process_exit_handled = true })
  handled-Backed guest r done still b = record {
    judged = Judged-handled w start guest b.judged done;
    shown = b.shown;
    served = b.served;
    ended = b.ended;
    queued = b.queued;
    queue_heard = b.queue_heard;
    buffered = b.buffered;
    early = inl refl;
    passed = λ p. (still (b.passed p).0, (b.passed p).1, (b.passed p).2);
  }

  judge_exit-Backed :
      (status : ℤ) (t : ℕ) (r : Run)
      → w.polled t ≡ some status
      → r.outcome ≡ none
      → Quiet r
      → Quiet (judge_exit w status r)
  unfolding judge_exit
  judge_exit-Backed status t r seen open_still b =
      let guest = r.guest_complete || is_accepted w.success_exit_codes status in
      let ended : Run = record r { guest_complete = guest; process_exit_handled = true } in
      let done : Quiet (record r { guest_complete = guest; process_exit_handled = true }) =
        handled-Backed guest r
          (λ g. elim (or-cases r.guest_complete (is_accepted w.success_exit_codes status) g) [
            | inl before ↦ inl before
            | inr accepted ↦
                inr (record { status = status; time = t; polled = seen; accepted = accepted })
          ])
          (λ g. ground arith) b in
      elim (Bool-cases (guest && r.screenshot_complete)) [
        | inl e ↦ rw e (pass_exit-Backed r.companion_complete status ended refl e open_still done)
        | inr e ↦ rw e (fail_exit-Backed status t ended seen done)
      ]

  judge_closed-Backed :
      (o : Option ℤ) (closed_at : ℕ) (r : Run) → Quiet r → Quiet (judge_closed w o closed_at r)
  unfolding judge_closed
  judge_closed-Backed (some status) closed_at r b = b
  judge_closed-Backed none closed_at r b =
      elim (Bool-cases (r.guest_complete && r.screenshot_complete)) [
        | inl f ↦ rw f b
        | inr f ↦ elim (Bool-cases (w.closed_for_long closed_at r.now)) [
          | inl g ↦ rw (f, g) (set_outcome-Backed w start wanted [] qmp_closed r.log (tick r) b)
          | inr g ↦ rw (f, g) b
        ]
      ]

  check_closed-Backed : (r : Run) → Quiet r → Quiet (check_closed w r)
  unfolding check_closed
  check_closed-Backed r b = elim (Bool-cases (is_decided r.outcome)) [
    | inl e ↦ rw (e, check_closed) b
    | inr e ↦ elim (Option-cases r.qmp_closed_at) [
      | inl f ↦ simp (e, check_closed, f) b
      | inr (closed_at, f) ↦
          simp (e, check_closed, f)
            (judge_closed-Backed (poll w r).returncode closed_at (poll w r) (poll-Backed r b))
    ]
  ]

  end_run-Backed :
      (status : ℤ) (t : ℕ) (r : Run)
      → w.polled t ≡ some status
      → Quiet r
      → Holds Quiet (end_run w status r)
  unfolding end_run
  end_run-Backed status t r seen b = elim (Bool-cases (not r.serial_eof)) [
    | inl e ↦ rw e (returns b)
    | inr e ↦ elim (Bool-cases (is_decided r.outcome)) [
      | inl f ↦ rw (e, f) (returns (handled-Backed r.guest_complete r (λ g. inl g) (λ g. g) b))
      | inr f ↦
          rw (e, f)
            (returns (
              check_closed-Backed (judge_exit w status r)
                (judge_exit-Backed status t r seen (eq-none r.outcome f) b)))
    ]
  ]

  pub handle_exit-Backed :
      (o : Option ℤ) (handled : Bool) (fuel : ℕ) (r : Run)
      → r.returncode ≡ o
      → Quiet r
      → Holds Quiet (handle_exit w o handled fuel r)
  unfolding handle_exit
  handle_exit-Backed none handled fuel r here b = returns (check_closed-Backed r b)
  handle_exit-Backed (some status) true fuel r here b = returns (check_closed-Backed r b)
  handle_exit-Backed (some status) false fuel r here b =
      let (t, seen) = b.ended status here in
      Holds-bind (drain_serial-Backed w start wanted [] fuel r b)
        (λ n k. end_run-Backed status t n seen k)
