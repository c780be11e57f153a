-- ===== src/Runner/Evidence/Loop.antt =====
-- The loop keeps what is known.
use rules_ostest.Runner.Exit.{poll_companion, poll}
use rules_ostest.Runner.Evidence.Exit.{
  eq-none, poll_companion-Polled, handle_exit-Backed, poll-Backed,
}
use rules_ostest.Runner.Evidence.Steps.{phase_machine-injective, step-pass}
use rules_ostest.Runner.Messages.{judge_event, by_failure, on_pending}
use rules_ostest.Runner.Evidence.Drain.{IsBacked, time_out-Backed, drain_serial-Backed}
use rules_ostest.Runner.Round.{round, on_queue, run_loop, settle, take_queue}
use rules_ostest.Runner.Evidence.Round.{judge_event-Backed, on_ready-Backed}
use rules_ostest.Serial.Feed.{QmpEvent}
use rules_ostest.Serial.{AssertionOutcome, running, pass, fail, Machine}
use rules_ostest.Serial.Runs.{qmp, step}
use rules_ostest.Runner.{legacy, phase_machine, World, Run, Why, Judge, is_decided, tick}
use rules_ostest.Runner.Evidence.{
  returns, Holds, Judged, has_failed, Holds-bind, Holds-map, raises, unless_decided-Holds, Start,
  IsHeard,
}
use mathlib.Core.Path.{subst}
use rules_ostest.Base.{
  ℕ, zero, suc, ◌≡◌, refl, sym, ap, ◌∙◌, ◌⊎◌, inl, inr, Bool, true, false, ◌&&◌, Option, none, List,
  [], ◌∷◌, arith, Bool-cases, is_empty, All,
}

pass-fail : ¬ (pass ≡ fail)
pass-fail e = cc

all-three : (a b c : Bool) → (a && b && c) ≡ true → (a ≡ true) × (b ≡ true) × (c ≡ true)
all-three a b c h = (ground arith, ground arith, ground arith)

by_failure-handled :
    (o : AssertionOutcome) (m : Machine) (r : Run)
    → r.process_exit_handled ≡ false
    → (by_failure o m r).process_exit_handled ≡ false
by_failure-handled running m r h = h
by_failure-handled pass m r h = h
by_failure-handled fail m r h = h

-- An outcome that a complete run cannot take over from.
abbrev IsOpen : Run → Type 0
IsOpen r = (r.outcome ≡ none) ⊎ (r.guest_complete ≡ false)

still_open :
    {o o' : Option (Bool × Why)} {guest guest' served : Bool}
    → (o ≡ o') ⊎ (served ≡ false)
    → guest ≡ guest'
    → (o' ≡ none) ⊎ (guest' ≡ false)
    → guest ≡ true
    → served ≡ true
    → o ≡ none
still_open (inr f) same is_open g s = cc
still_open (inl e) same (inl n) g s = e ∙ n
still_open (inl e) same (inr f) g s = cc

module _ (w : World) (start : Start) (wanted : Bool) where
  abbrev Quiet : Run → Type 0
  Quiet = IsBacked w start wanted []

  -- Known with some queue.
  abbrev pub Known : Run → Type 0
  Known r = (queue : List QmpEvent) × IsBacked w start wanted queue r

  -- An event that fails finds a guest that is not done.
  by_failure-IsOpen :
      (e : QmpEvent) (o : AssertionOutcome) (m : Machine) (r : Run)
      → Quiet r
      → r.judge ≡ phase_machine m
      → r.process_exit_handled ≡ false
      → r.outcome ≡ none
      → (step (qmp e) m).outcome ≡ o
      → IsOpen (by_failure o (step (qmp e) m) r)
  by_failure-IsOpen e running m r b here early open_still is_o = inl open_still
  by_failure-IsOpen e pass m r b here early open_still is_o = inl open_still
  by_failure-IsOpen e fail m r b here early open_still is_o = elim (Bool-cases r.guest_complete) [
    | inr f ↦ inr f
    | inl g ↦ elim (b.judged.guest_done g) [
      | inl p ↦
          let same = phase_machine-injective (sym b.judged.is_machine ∙ here) in
          let passed = step-pass (qmp e) m (sym (ap (λ n. n.outcome) same) ∙ p) in
          absurd (pass-fail (sym passed ∙ is_o))
      | inr (handled, accepted) ↦ cc (handled, early)
    ]
  ]

  judge_event-IsOpen :
      (e : QmpEvent) (j : Judge) (r : Run)
      → Quiet r
      → r.judge ≡ j
      → r.process_exit_handled ≡ false
      → r.outcome ≡ none
      → IsOpen (judge_event j e r) × ((judge_event j e r).process_exit_handled ≡ false)
  judge_event-IsOpen e (legacy l) r b here early open_still = (inl open_still, early)
  judge_event-IsOpen e (phase_machine m) r b here early open_still = (
    by_failure-IsOpen e (step (qmp e) m).outcome m r b here early open_still refl,
    by_failure-handled (step (qmp e) m).outcome (step (qmp e) m) r early,
  )

  on_pending-Backed :
      (es : List QmpEvent) (r : Run)
      → All (IsHeard w start.events) es
      → Quiet r
      → r.process_exit_handled ≡ false
      → r.outcome ≡ none
      → Quiet (on_pending es r) × IsOpen (on_pending es r)
  unfolding on_pending
  on_pending-Backed [] r heard b early open_still = (b, inl open_still)
  on_pending-Backed (e ∷ es) r (heard, more_heard) b early open_still =
      let next = judge_event r.judge e r in
      let known = judge_event-Backed w start wanted [] e r.judge r b heard refl in
      let (is_open, early') = judge_event-IsOpen e r.judge r b refl early open_still in
      elim (Bool-cases (is_decided next.outcome)) [
        | inl f ↦ rw (f, on_pending) (known, is_open)
        | inr f ↦
            rw (f, on_pending)
              (on_pending-Backed es next more_heard known early' (eq-none next.outcome f))
      ]

  settle-Backed : (fuel : ℕ) (r : Run) → Quiet r → IsOpen r → Holds Quiet (settle w fuel r)
  unfolding settle
  settle-Backed fuel r b is_open =
      let n = poll_companion w r in
      let p = poll_companion-Polled w start wanted r b in
      elim (Bool-cases (n.guest_complete && n.screenshot_complete && n.companion_complete)) [
        | inr e ↦
            rw (e, settle)
              (handle_exit-Backed w start wanted (poll w n).returncode n.process_exit_handled fuel
                (poll w n) refl (poll-Backed w start wanted n p.known))
        | inl e ↦
            let (guest, shown, served) =
              all-three n.guest_complete n.screenshot_complete n.companion_complete e in
            let still : n.outcome ≡ none = still_open p.decided p.same_guest is_open guest served in
            rw (e, settle)
              (returns (record {
                judged =
                    subst
                      (λ o.
                        Judged w start n.judge n.log (has_failed o) n.guest_complete
                          n.process_exit_handled)
                      still p.known.judged;
                shown = p.known.shown;
                served = p.known.served;
                ended = p.known.ended;
                queued = p.known.queued;
                queue_heard = p.known.queue_heard;
                buffered = p.known.buffered;
                early = p.known.early;
                passed = λ _. (guest, shown, served);
              }))
      ]

  on_queue-Known :
      (fuel : ℕ) (queue : List QmpEvent) (r : Run)
      → IsBacked w start wanted queue r
      → r.outcome ≡ none
      → Holds Known (on_queue w fuel r)
  unfolding on_queue
  on_queue-Known fuel [] r b open_still =
      rw (ap is_empty b.queued, on_queue)
        (Holds-map (settle-Backed fuel r b (inl open_still)) (λ n k. ([], k)))
  on_queue-Known fuel (e ∷ es) r b open_still =
      rw (ap is_empty b.queued, on_queue)
        (Holds-bind (drain_serial-Backed w start wanted (e ∷ es) fuel r b) (λ n k.
          unless_decided-Holds Known (take_queue w fuel) n (e ∷ es, k)
            (λ f. taken n k (eq-none n.outcome f))))
    where
      not_yet : (n : Run) → IsBacked w start wanted (e ∷ es) n → n.process_exit_handled ≡ false
      not_yet n k = elim k.early [ inl none_left ↦ cc | inr h ↦ h ]

      emptied :
          (n : Run) → IsBacked w start wanted (e ∷ es) n → Quiet (record n { pending_events = [] })
      emptied n k = record {
        judged = k.judged;
        shown = k.shown;
        served = k.served;
        ended = k.ended;
        queued = refl;
        queue_heard = tt;
        buffered = k.buffered;
        early = inl refl;
        passed = k.passed;
      }

      taken :
          (n : Run)
          → IsBacked w start wanted (e ∷ es) n
          → n.outcome ≡ none
          → Holds Known (take_queue w fuel n)
      taken n k f =
          let (known, is_open) =
            on_pending-Backed n.pending_events (record n { pending_events = [] })
              (subst (All (IsHeard w start.events)) (sym k.queued) k.queue_heard) (emptied n k)
              (not_yet n k) f in
          Holds-map
            (settle-Backed fuel (on_pending n.pending_events (record n { pending_events = [] }))
              known is_open)
            (λ o q. ([], q))

  round-Known : (fuel : ℕ) (r : Run) → Known r → Holds Known (round w fuel r)
  unfolding round
  round-Known fuel r (queue, b) = Holds-bind (on_ready-Backed w start wanted queue fuel r b) (λ n k.
      unless_decided-Holds Known (on_queue w fuel) n (queue, k)
        (λ f. on_queue-Known fuel queue n k (eq-none n.outcome f)))

  pub run_loop-Known : (fuel : ℕ) (r : Run) → Known r → Holds Known (run_loop w fuel r)
  unfolding run_loop
  run_loop-Known zero r known = elim (Bool-cases (is_decided r.outcome)) [
    | inl e ↦ rw (e, run_loop) (returns known)
    | inr e ↦ rw (e, run_loop) raises
  ]
  run_loop-Known (suc fuel) r (queue, b) = elim (Bool-cases (is_decided r.outcome)) [
    | inl e ↦ rw (e, run_loop) (returns (queue, b))
    | inr e ↦ elim (Bool-cases (w.is_late r.now)) [
      | inl f ↦
          rw (e, f, run_loop) (returns (queue, time_out-Backed w start wanted queue (tick r) b))
      | inr f ↦
          rw (e, f, run_loop)
            (Holds-bind (round-Known (suc fuel) (tick r) (queue, b)) (run_loop-Known fuel))
    ]
  ]
