-- ===== src/Runner/Evidence/Round.antt =====
-- The events of one round keep what is known.
use rules_ostest.Runner.Evidence.Steps.{Judged-step}
use rules_ostest.Runner.Evidence.Drain.{
  IsBacked, set_outcome-Backed, Read-cases, drain_serial-Backed,
}
use rules_ostest.Runner.Messages.{
  on_lines, judge_event, check_screenshot, on_ready, read_qmp, by_failure, on_qmp, on_chunk,
  on_message, drain_ready, qmp_if_ready,
}
use rules_ostest.Ppm.{validate_ppm_distinct_pixels}
use rules_ostest.Runner.Loop.{split_lines, same_id}
use rules_ostest.Bytes.{Bytes}
use rules_ostest.Serial.Feed.{QmpEvent}
use rules_ostest.Serial.{AssertionOutcome, running, pass, fail, Machine}
use rules_ostest.Serial.Runs.{qmp, step}
use rules_ostest.Runner.{
  event, got, response, malformed, legacy, phase_machine, World, Run, Judge, Message,
  bad_screendump, set_outcome, tick, is_decided, screendump_failed,
}
use rules_ostest.Runner.Evidence.{
  returns, raises, Holds, Holds-bind, bytes_of, Start, IsHeard, WasLine, IsBuffered, more,
}
use mathlib.Core.List.{append-nil}
use rules_ostest.Base.{
  ℕ, ◌≡◌, refl, ◌∙◌, inl, inr, Bool, true, false, not, ◌&&◌, none, some, List, [], ◌∷◌, ◌++◌,
  if◌then◌else◌, Bool-cases, Option-cases, is_empty, All, All-Mem, Result-cases, ok,
}

module _ (w : World) (start : Start) (wanted : Bool) (queue : List QmpEvent) where
  abbrev Known : Run → Type 0
  Known = IsBacked w start wanted queue

  by_failure-Backed :
      (e : QmpEvent) (o : AssertionOutcome) (m : Machine) (r : Run)
      → Known r
      → IsHeard w start.events e
      → r.judge ≡ phase_machine m
      → Known (by_failure o (step (qmp e) m) r)
  by_failure-Backed e running m r b heard here = record {
    judged =
        Judged-step w start (qmp e) m b.judged here heard (λ t read. append-nil (bytes_of t) ∙ read)
          (λ f. f) (λ g. inl g);
    shown = b.shown;
    served = b.served;
    ended = b.ended;
    queued = b.queued;
    queue_heard = b.queue_heard;
    buffered = b.buffered;
    early = b.early;
    passed = b.passed;
  }
  by_failure-Backed e pass m r b heard here = record {
    judged =
        Judged-step w start (qmp e) m b.judged here heard (λ t read. append-nil (bytes_of t) ∙ read)
          (λ f. f) (λ g. inl g);
    shown = b.shown;
    served = b.served;
    ended = b.ended;
    queued = b.queued;
    queue_heard = b.queue_heard;
    buffered = b.buffered;
    early = b.early;
    passed = b.passed;
  }
  by_failure-Backed e fail m r b heard here = record {
    judged =
        Judged-step w start (qmp e) m b.judged here heard (λ t read. append-nil (bytes_of t) ∙ read)
          (λ f. refl) (λ g. inl g);
    shown = b.shown;
    served = b.served;
    ended = b.ended;
    queued = b.queued;
    queue_heard = b.queue_heard;
    buffered = b.buffered;
    early = b.early;
    passed = λ p. cc;
  }

  pub judge_event-Backed :
      (e : QmpEvent) (j : Judge) (r : Run)
      → Known r
      → IsHeard w start.events e
      → r.judge ≡ j
      → Known (judge_event j e r)
  judge_event-Backed e (legacy l) r b heard here = b
  judge_event-Backed e (phase_machine m) r b heard here =
      by_failure-Backed e (step (qmp e) m).outcome m r b heard here

  check_screenshot-Backed : (r : Run) → Known r → Known (check_screenshot w r)
  unfolding check_screenshot
  check_screenshot-Backed r b = elim (Option-cases (w.screenshot r.now)) [
    | inl e ↦
        rw (e, check_screenshot)
          (set_outcome-Backed w start wanted queue (bad_screendump none) r.log (tick r) b)
    | inr (contents, e) ↦
        let checked =
          validate_ppm_distinct_pixels contents w.min_distinct_pixels w.max_file_bytes
            w.max_pixels in
        elim (Result-cases checked) [
          | inl (info, f) ↦
              rw (e, check_screenshot, f)
                (record {
                  judged = b.judged;
                  shown = λ _. inr (record {
                    time = r.now;
                    contents = contents;
                    info = info;
                    was_read = e;
                    accepted = f;
                  });
                  served = b.served;
                  ended = b.ended;
                  queued = b.queued;
                  queue_heard = b.queue_heard;
                  buffered = b.buffered;
                  early = b.early;
                  passed = λ p. ((b.passed p).0, refl, (b.passed p).2);
                })
          | inr (why, f) ↦
              rw (e, check_screenshot, f)
                (set_outcome-Backed w start wanted queue (bad_screendump (some why)) r.log (tick r)
                  b)
        ]
  ]

  on_message-Backed :
      (m : Message) (r : Run)
      → ((e : QmpEvent) → m ≡ event e → IsHeard w start.events e)
      → Known r
      → Holds Known (on_message w m r)
  unfolding on_message
  on_message-Backed malformed r heard b = raises
  on_message-Backed (event e) r heard b =
      returns (judge_event-Backed e r.judge r b (heard e refl) refl)
  on_message-Backed (response id has_error) r heard b =
      elim (Bool-cases (same_id id r.screenshot_request_id)) [
        | inr e ↦ rw e (returns b)
        | inl e ↦ rw e (answered has_error)
      ]
    where
      answered :
          (test : Bool)
          → Holds Known
              (ok (if test then set_outcome false screendump_failed r else check_screenshot w r))
      answered true = returns (set_outcome-Backed w start wanted queue screendump_failed r.log r b)
      answered false = returns (check_screenshot-Backed r b)

  on_lines-Backed :
      (lines : List Bytes) (r : Run)
      → All (WasLine w) lines
      → Known r
      → Holds Known (on_lines w lines r)
  unfolding on_lines
  on_lines-Backed [] r sent b = returns b
  on_lines-Backed (line ∷ lines) r (sent, more_sent) b =
      Holds-bind (on_message-Backed (w.loads line) r (λ e said. inr (line, sent, said)) b)
        (λ n k. on_lines-Backed lines n more_sent k)

  -- The rest of a chunk is kept for the next one.
  kept-Backed :
      (rest : Bytes) (r : Run)
      → IsBuffered w rest
      → Known r
      → Known (record r { qmp_buffer = rest })
  kept-Backed rest r buffered b = record {
    judged = b.judged;
    shown = b.shown;
    served = b.served;
    ended = b.ended;
    queued = b.queued;
    queue_heard = b.queue_heard;
    buffered = buffered;
    early = b.early;
    passed = b.passed;
  }

  on_chunk-Backed :
      (bytes : Bytes) (time : ℕ) (r : Run)
      → w.recv_qmp time ≡ got bytes
      → Known r
      → Holds Known (on_chunk w bytes r)
  unfolding on_chunk
  on_chunk-Backed bytes time r received b = elim (Bool-cases (is_empty bytes)) [
    | inr e ↦ rw e (
        let lines = split_lines (r.qmp_buffer ++ bytes) in
        on_lines-Backed lines.0 (record r { qmp_buffer = lines.1 })
          (All-Mem (WasLine w) lines.0 (λ line there. record {
            buffer = r.qmp_buffer;
            bytes = bytes;
            time = time;
            buffered = b.buffered;
            received = received;
            complete = there;
          }))
          (kept-Backed lines.1 r (more time b.buffered received) b))
    | inl e ↦ rw e (elim (Bool-cases (r.guest_complete && r.screenshot_complete)) [
      | inl f ↦ rw f (returns b)
      | inr f ↦ rw f (returns b)
    ])
  ]

  after_drain : (n : Run) → Known n → Holds Known (read_qmp w n)
  unfolding read_qmp
  after_drain n b = elim (Bool-cases (is_decided n.outcome)) [
    | inl e ↦ rw (e, read_qmp) (returns b)
    | inr e ↦ elim (Read-cases (w.recv_qmp n.now)) [
      | inl f ↦ rw (e, f, read_qmp) (returns b)
      | inr (bytes, f) ↦ rw (e, f, read_qmp) (on_chunk-Backed bytes n.now (tick n) f b)
    ]
  ]

  on_qmp-Backed : (fuel : ℕ) (r : Run) → Known r → Holds Known (on_qmp w fuel r)
  unfolding on_qmp
  on_qmp-Backed fuel r b =
      Holds-bind (drain_serial-Backed w start wanted queue fuel r b) after_drain

  pub on_ready-Backed : (fuel : ℕ) (r : Run) → Known r → Holds Known (on_ready w fuel r)
  unfolding on_ready
  on_ready-Backed fuel r b =
      Holds-bind (drained (w.serial_ready r.now && not r.serial_eof) b)
        (asked (w.qmp_ready r.now && r.qmp_registered))
    where
      drained : (test : Bool) → Known (tick r) → Holds Known (drain_ready w test fuel (tick r))
      drained true k = drain_serial-Backed w start wanted queue fuel (tick r) k
      drained false k = returns k

      asked : (test : Bool) (n : Run) → Known n → Holds Known (qmp_if_ready w test fuel n)
      asked true n k = on_qmp-Backed fuel n k
      asked false n k = returns k
