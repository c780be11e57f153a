-- ===== src/Runner/Evidence/Steps.antt =====
-- The machine and the events that it has been given.
use rules_ostest.Runner.Exit.{tell_exited}
use rules_ostest.Base.Int.{ℤ}
use rules_ostest.Serial.Feed.{is_running}
use rules_ostest.Runner.Loop.{tell_late}
use rules_ostest.Runner.Evidence.{bytes_of, Judged, WasAccepted, Start, HasCome}
use rules_ostest.Bytes.{Bytes}
use rules_ostest.Serial.{pass, Machine}
use rules_ostest.Serial.Runs.{chunk, qmp, exited, expired, Event, run, step, step_stopped}
use rules_ostest.Runner.{phase_machine, World, Judge, legacy, LegacyVerdict}
use mathlib.Core.List.{append_assoc, append-nil}
use rules_ostest.Base.{◌≡◌, refl, sym, ap, ◌∙◌, ◌⊎◌, inl, inr, Bool, true, List, [], ◌∷◌, ◌++◌, All}

pub bytes_of-append : (a b : List Event) → bytes_of (a ++ b) ≡ bytes_of a ++ bytes_of b
bytes_of-append [] b = refl
bytes_of-append (chunk bytes ∷ a) b =
    ap (bytes ++◌) (bytes_of-append a b) ∙ sym (append_assoc bytes (bytes_of a) (bytes_of b))
bytes_of-append (qmp e ∷ a) b = bytes_of-append a b
bytes_of-append (exited e ∷ a) b = bytes_of-append a b
bytes_of-append (expired e ∷ a) b = bytes_of-append a b

pub All-last {ℓ κ} :
    {A : Type ℓ} (P : A → Type κ) (l : List A) (x : A) → All P l → P x → All P (l ++ (x ∷ []))
All-last P [] x h p = (p, tt)
All-last P (y ∷ l) x (h, hs) p = (h, All-last P l x hs p)

pub run-append : (a b : List Event) (m : Machine) → run (a ++ b) m ≡ run b (run a m)
run-append [] b m = refl
run-append (e ∷ a) b m = run-append a b (step e m)

machine_of : Machine → Judge → Machine
machine_of d (legacy l) = d
machine_of d (phase_machine m) = m

pub phase_machine-injective : {a b : Machine} → phase_machine a ≡ phase_machine b → a ≡ b
unfolding machine_of
phase_machine-injective {a} h = ap (machine_of a) h

pub legacy-phase_machine : {l : LegacyVerdict} {m : Machine} → ¬ (legacy l ≡ phase_machine m)
legacy-phase_machine h = cc

pub step-pass : (e : Event) (m : Machine) → m.outcome ≡ pass → (step e m).outcome ≡ pass
step-pass e m h = ap (λ n. n.outcome) (step_stopped e m (ap is_running h)) ∙ h

module _ (w : World) (start : Start) where
  -- One more event of the machine.
  pub Judged-step :
      {j : Judge} {log log' : Bytes} {failed failed' guest guest' handled : Bool} (e : Event)
      (m : Machine)
      → Judged w start j log failed guest handled
      → j ≡ phase_machine m
      → HasCome w start.events e
      → ((trace : List Event) → bytes_of trace ≡ log → bytes_of trace ++ bytes_of (e ∷ []) ≡ log')
      → (failed ≡ true → failed' ≡ true)
      → (guest' ≡ true → (guest ≡ true) ⊎ ((step e m).outcome ≡ pass))
      → Judged w start (phase_machine (step e m)) log' failed' guest' handled
  Judged-step e m v here has_come reads fails done =
      let same = phase_machine-injective (sym v.is_machine ∙ here) in
      record {
        machine = step e m;
        trace = v.trace ++ (e ∷ []);
        is_machine = refl;
        by_trace = run-append v.trace (e ∷ []) start.machine ∙ ap (step e) (v.by_trace ∙ same);
        come = All-last (HasCome w start.events) v.trace e v.come has_come;
        read_all = elim v.read_all [
          | inl f ↦ inl (fails f)
          | inr read ↦ inr (bytes_of-append v.trace (e ∷ []) ∙ reads v.trace read)
        ];
        guest_done = λ g. elim (done g) [
          | inr p ↦ inl p
          | inl before ↦ elim (v.guest_done before) [
            | inl p ↦ inl (step-pass e m (sym (ap (λ n. n.outcome) same) ∙ p))
            | inr exit ↦ inr exit
          ]
        ];
      }

  -- A failure: the log no longer counts.
  pub Judged-fail :
      {j : Judge} {log log' : Bytes} {failed guest handled : Bool}
      → Judged w start j log failed guest handled
      → Judged w start j log' true guest handled
  Judged-fail v = record {
    machine = v.machine;
    trace = v.trace;
    is_machine = v.is_machine;
    by_trace = v.by_trace;
    come = v.come;
    read_all = inl refl;
    guest_done = v.guest_done;
  }

  pub Judged-late :
      {log : Bytes} {failed guest handled : Bool} (j : Judge)
      → Judged w start j log failed guest handled
      → Judged w start (tell_late w j) log true guest handled
  Judged-late (legacy l) v = absurd (legacy-phase_machine v.is_machine)
  Judged-late (phase_machine m) v = Judged-fail (
      Judged-step {failed' = true} (expired w.timeout_seconds) m v refl refl
        (λ trace read. append-nil (bytes_of trace) ∙ read) (λ _. refl) (λ g. inl g))

  pub Judged-handled :
      {j : Judge} {log : Bytes} {failed guest handled : Bool} (guest' : Bool)
      → Judged w start j log failed guest handled
      → (guest' ≡ true → (guest ≡ true) ⊎ WasAccepted w start)
      → Judged w start j log failed guest' true
  Judged-handled guest' v done = record {
    machine = v.machine;
    trace = v.trace;
    is_machine = v.is_machine;
    by_trace = v.by_trace;
    come = v.come;
    read_all = v.read_all;
    guest_done = λ g. elim (done g) [
      | inr accepted ↦ inr (refl, accepted)
      | inl before ↦ elim (v.guest_done before) [
        | inl p ↦ inl p
        | inr (h, accepted) ↦ inr (refl, accepted)
      ]
    ];
  }

  pub Judged-exited :
      {log : Bytes} {failed guest handled : Bool} (status : ℤ) (j : Judge)
      → HasCome w start.events (exited status)
      → Judged w start j log failed guest handled
      → Judged w start (tell_exited status j) log true guest handled
  Judged-exited status (legacy l) has_come v = absurd (legacy-phase_machine v.is_machine)
  Judged-exited status (phase_machine m) has_come v =
      Judged-step (exited status) m v refl has_come (λ t read. append-nil (bytes_of t) ∙ read)
        (λ _. refl) (λ g. inl g)
