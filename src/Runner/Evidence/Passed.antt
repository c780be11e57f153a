-- ===== src/Runner/Evidence/Passed.antt =====
-- A run that passes: what it rests on.
use rules_ostest.Runner.Evidence.Exit.{not-eq}
use rules_ostest.Runner.Evidence.Loop.{run_loop-Known, Known}
use rules_ostest.Runner.Evidence.Drain.{IsBacked}
use rules_ostest.Runner.Round.{run_loop, initial}
use rules_ostest.Serial.{pass, Machine}
use rules_ostest.Serial.Runs.{Event, run}
use rules_ostest.Runner.{phase_machine, World, Run, Why}
use rules_ostest.Runner.Evidence.{
  bytes_of, Holds, WasAccepted, WasShown, HasServed, has_failed, Holds-ok, has_passed, Start,
  HasCome, IsHeard, nothing,
}
use mathlib.Core.Path.{subst}
use rules_ostest.Base.{
  ℕ, ◌≡◌, refl, sym, ap, ◌∙◌, ◌⊎◌, inl, inr, Bool, true, false, some, List, [], All, All-Mem, ok,
}

-- What a run that passes has seen: a machine that the serial log and the events have led from
-- `start` to its pass, or else a process that ended with an accepted status; where a screenshot
-- was asked for, one that is accepted; where there is a companion, that it ended without an error.
pub record IsEarned (w : World) (start : Start) (wanted : Bool) (r : Run) : Type 0 where
  pub machine : Machine
  pub trace : List Event
  pub is_machine : r.judge ≡ phase_machine machine
  pub by_trace : run trace start.machine ≡ machine
  pub come : All (HasCome w start.events) trace
  pub read_all : bytes_of trace ≡ r.log
  pub guest_done : (machine.outcome ≡ pass) ⊎ WasAccepted w start
  pub shown : (wanted ≡ false) ⊎ WasShown w start
  pub served : (w.has_companion ≡ false) ⊎ HasServed w start

false-true : ¬ (false ≡ true)
false-true e = cc

initial-Backed :
    (w : World) (start : Start) (wanted : Bool)
    → IsBacked w start wanted start.events
        (initial w (phase_machine start.machine) wanted start.events)
initial-Backed w start wanted = record {
  judged = record {
    machine = start.machine;
    trace = [];
    come = tt;
    is_machine = refl;
    by_trace = refl;
    read_all = inr refl;
    guest_done = λ g. cc;
  };
  shown = λ s. inl (not-eq wanted s);
  served = λ s. inl (not-eq w.has_companion s);
  ended = λ status e. cc;
  queued = refl;
  queue_heard = All-Mem (IsHeard w start.events) start.events (λ e there. inl there);
  buffered = nothing;
  early = inr refl;
  passed = λ p. cc;
}

-- A run that passes has earned it.
pub run_loop-IsEarned :
    (w : World) (start : Start) (wanted : Bool) (fuel : ℕ) (why : Why) (r : Run)
    → run_loop w fuel (initial w (phase_machine start.machine) wanted start.events) ≡ ok r
    → r.outcome ≡ some (true, why)
    → IsEarned w start wanted r
run_loop-IsEarned w start wanted fuel why r ran passes =
    let known =
      run_loop-Known w start wanted fuel
        (initial w (phase_machine start.machine) wanted start.events)
        (start.events, initial-Backed w start wanted) in
    let (left, b) =
      Holds-ok (Known w start wanted) r (subst (Holds (Known w start wanted)) ran known) in
    let (guest, shot, companion) = b.passed (ap has_passed passes) in
    record {
      machine = b.judged.machine;
      trace = b.judged.trace;
      is_machine = b.judged.is_machine;
      by_trace = b.judged.by_trace;
      come = b.judged.come;
      read_all = elim b.judged.read_all [
        | inr read ↦ read
        | inl f ↦ absurd (false-true (sym (ap has_failed passes) ∙ f))
      ];
      guest_done = elim (b.judged.guest_done guest) [
        | inl p ↦ inl p
        | inr (_, accepted) ↦ inr accepted
      ];
      shown = b.shown shot;
      served = b.served companion;
    }
