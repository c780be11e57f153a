-- ===== src/Runner/Evidence/Drain.antt =====
-- Reading the serial stream keeps what is known.
use rules_ostest.Runner.Evidence.Steps.{Judged-late, legacy-phase_machine, Judged-fail, Judged-step}
use rules_ostest.Runner.Legacy.{matches, trim, max_match_buffer}
use rules_ostest.Serial.Feed.{feed, QmpEvent}
use rules_ostest.Runner.Loop.{
  request_screenshot, same_id, time_out, take_result, judge_chunk, by_result, process_serial,
  take_chunk, drain_loop, drain_serial, logged, max_serial_log_bytes,
}
use rules_ostest.Runner.Evidence.{bytes_of, Backed, Holds, Holds-bind, Start, HasCome}
use rules_ostest.Bytes.{Bytes}
use rules_ostest.Serial.{pass, Machine, running, fail}
use rules_ostest.Serial.Runs.{chunk, Event, step}
use rules_ostest.Runner.{
  phase_machine, World, Judge, Run, tick, legacy, Why, set_outcome, Read, would_block, got,
  failure_matched, append_output_tail, Outcome, is_decided, max_failure_output, log_too_long,
}
use mathlib.Core.Path.{ap₂}
use mathlib.Core.List.{append-nil}
use rules_ostest.Serial.{AssertionOutcome}
use rules_ostest.Runner.Evidence.{returns, raises}
use rules_ostest.Base.{
  ℕ, zero, suc, ◌+◌, ◌≡◌, refl, sym, ap, ◌∙◌, ◌⊎◌, inl, inr, Bool, true, false, not, ◌&&◌, none,
  List, [], ◌∷◌, ◌++◌, ltb, Bool-cases, is_empty,
}

pub Read-cases : (o : Read) → (o ≡ would_block) ⊎ ((bytes : Bytes) × (o ≡ got bytes))
Read-cases would_block = inl refl
Read-cases (got bytes) = inr (bytes, refl)

module _ (w : World) (start : Start) (wanted : Bool) (queue : List QmpEvent) where
  abbrev pub IsBacked : Run → Type 0
  IsBacked r = Backed w start wanted queue r.log r

  request_screenshot-Backed : (r : Run) → IsBacked r → Holds IsBacked (request_screenshot w r)
  unfolding request_screenshot
  request_screenshot-Backed r b =
      elim (Bool-cases
        (r.guest_complete && not r.screenshot_complete && same_id r.screenshot_request_id none)) [
          | inr e ↦ rw e (returns b)
          | inl e ↦ rw e (elim (Bool-cases w.has_qmp) [
            | inr f ↦ simp f raises
            | inl f ↦ simp f (elim (Bool-cases (w.qmp_written r.now)) [
              | inl g ↦ rw g (returns b)
              | inr g ↦ rw g raises
            ])
          ])
        ]

  pub set_outcome-Backed :
      (why : Why) (log : Bytes) (r : Run)
      → Backed w start wanted queue log r
      → IsBacked (set_outcome false why r)
  set_outcome-Backed why log r b = record {
    judged = Judged-fail w start b.judged;
    shown = b.shown;
    served = b.served;
    ended = b.ended;
    queued = b.queued;
    queue_heard = b.queue_heard;
    buffered = b.buffered;
    early = b.early;
    passed = λ p. cc;
  }

  pub time_out-Backed : (r : Run) → IsBacked r → IsBacked (time_out w r)
  time_out-Backed r b = record {
    judged = Judged-late w start r.judge b.judged;
    shown = b.shown;
    served = b.served;
    ended = b.ended;
    queued = b.queued;
    queue_heard = b.queue_heard;
    buffered = b.buffered;
    early = b.early;
    passed = λ p. cc;
  }

  -- An event that the machine gets, and what it says then.
  by_result-Backed :
      (e : Event) (o : AssertionOutcome) (log : Bytes) (m : Machine) (r : Run)
      → Backed w start wanted queue log r
      → r.judge ≡ phase_machine m
      → HasCome w start.events e
      → ((trace : List Event) → bytes_of trace ≡ log → bytes_of trace ++ bytes_of (e ∷ []) ≡ r.log)
      → (step e m).outcome ≡ o
      → IsBacked (by_result o (step e m) r)
  by_result-Backed e running log m r b here has_come reads is_o = record {
    judged = Judged-step w start e m b.judged here has_come reads (λ f. f) (λ g. inl g);
    shown = b.shown;
    served = b.served;
    ended = b.ended;
    queued = b.queued;
    queue_heard = b.queue_heard;
    buffered = b.buffered;
    early = b.early;
    passed = b.passed;
  }
  by_result-Backed e pass log m r b here has_come reads is_o = record {
    judged = Judged-step w start e m b.judged here has_come reads (λ f. f) (λ g. inr is_o);
    shown = b.shown;
    served = b.served;
    ended = b.ended;
    queued = b.queued;
    queue_heard = b.queue_heard;
    buffered = b.buffered;
    early = b.early;
    passed = λ p. (refl, (b.passed p).1, (b.passed p).2);
  }
  by_result-Backed e fail log m r b here has_come reads is_o = record {
    judged = Judged-step w start e m b.judged here has_come reads (λ f. refl) (λ g. inl g);
    shown = b.shown;
    served = b.served;
    ended = b.ended;
    queued = b.queued;
    queue_heard = b.queue_heard;
    buffered = b.buffered;
    early = b.early;
    passed = λ p. cc;
  }

  take_result-Backed :
      (chunk_bytes log : Bytes) (m : Machine) (r : Run)
      → Backed w start wanted queue log r
      → r.judge ≡ phase_machine m
      → log ++ chunk_bytes ≡ r.log
      → IsBacked (take_result (feed chunk_bytes m) r)
  take_result-Backed chunk_bytes log m r b here grown =
      by_result-Backed (chunk chunk_bytes) (feed chunk_bytes m).outcome log m r b here tt
        (λ trace read. ap₂ (◌++◌) read (append-nil chunk_bytes) ∙ grown) refl

  judge_chunk-Backed :
      (j : Judge) (chunk_bytes : Bytes) (final : Bool) (log : Bytes) (r : Run)
      → Backed w start wanted queue log r
      → r.judge ≡ j
      → log ++ chunk_bytes ≡ r.log
      → Holds IsBacked (judge_chunk w j chunk_bytes final r)
  unfolding judge_chunk
  judge_chunk-Backed (legacy l) chunk_bytes final log r b here grown =
      absurd (legacy-phase_machine (sym here ∙ b.judged.is_machine))
  judge_chunk-Backed (phase_machine m) chunk_bytes final log r b here grown =
      let decoded = w.decode r.match_pending chunk_bytes final in
      let buffer = r.regex_buffer ++ decoded.0 in
      let seen : Run = record r { match_pending = decoded.1; regex_buffer = buffer } in
      let shorter : Run = record seen { regex_buffer = trim max_match_buffer buffer } in
      elim (Bool-cases (matches w.failure buffer)) [
        | inl e ↦ simp e (returns (set_outcome-Backed failure_matched log seen b))
        | inr e ↦ simp e (
            request_screenshot-Backed (take_result (feed chunk_bytes m) shorter)
              (take_result-Backed chunk_bytes log m shorter b here grown))
      ]

  process_serial-Backed :
      (chunk_bytes : Bytes) (final : Bool) (log : Bytes) (r : Run)
      → Backed w start wanted queue log r
      → log ++ chunk_bytes ≡ r.log
      → (is_empty chunk_bytes && not final) ≡ false
      → Holds IsBacked (process_serial w chunk_bytes final r)
  unfolding process_serial
  process_serial-Backed chunk_bytes final log r b grown e =
      let kept : Run = record r {
        output_tail = append_output_tail max_failure_output r.output_tail chunk_bytes;
      } in
      rw e (judge_chunk-Backed r.judge chunk_bytes final log kept b refl grown)

  take_chunk-Backed :
      (chunk_bytes : Bytes) (again : Run → Outcome) (r : Run)
      → ((n : Run) → IsBacked n → Holds IsBacked (again n))
      → IsBacked r
      → Holds IsBacked (take_chunk w chunk_bytes again r)
  unfolding take_chunk
  take_chunk-Backed chunk_bytes again r ih b =
      let grown = logged chunk_bytes r in
      elim (Bool-cases (is_empty chunk_bytes)) [
        | inl e ↦
            let at_end : Run = record r { serial_eof = true } in
            rw (e, take_chunk)
              (process_serial-Backed [] true r.log at_end b (append-nil r.log) refl)
        | inr e ↦
            rw (e, take_chunk)
              (elim (Bool-cases (ltb max_serial_log_bytes grown.serial_log_bytes)) [
                | inl f ↦ rw f (returns (set_outcome-Backed log_too_long r.log grown b))
                | inr f ↦ rw f (
                    Holds-bind
                      (process_serial-Backed chunk_bytes false r.log grown b refl
                        (ap (λ x. x && not false) e))
                      ih)
              ])
      ]

  drain_loop-Backed : (fuel : ℕ) (r : Run) → IsBacked r → Holds IsBacked (drain_loop w fuel r)
  unfolding drain_loop
  drain_loop-Backed zero r b = elim (Bool-cases (is_decided r.outcome)) [
    | inl e ↦ rw (e, drain_loop) (returns b)
    | inr e ↦ rw (e, drain_loop) raises
  ]
  drain_loop-Backed (suc fuel) r b = elim (Bool-cases (is_decided r.outcome)) [
    | inl e ↦ rw (e, drain_loop) (returns b)
    | inr e ↦
        rw (e, drain_loop)
          (elim (Bool-cases (w.is_late r.now)) [
            | inl f ↦ rw f (returns (time_out-Backed (tick r) b))
            | inr f ↦ rw f (elim (Read-cases (w.read_serial (r.now + 1))) [
              | inl g ↦ rw g (returns b)
              | inr (bytes, g) ↦ rw g (
                  take_chunk-Backed bytes (drain_loop w fuel) (tick (tick r))
                    (drain_loop-Backed fuel) b)
            ])
          ])
  ]

  pub drain_serial-Backed :
      (fuel : ℕ) (r : Run) → IsBacked r → Holds IsBacked (drain_serial w fuel r)
  unfolding drain_serial
  drain_serial-Backed fuel r b = elim (Bool-cases r.serial_eof) [
    | inl e ↦ simp (e, drain_serial) (returns b)
    | inr e ↦ simp (e, drain_serial) (drain_loop-Backed fuel r b)
  ]
