-- ===== src/Runner/Clock.antt =====
-- What every call does to the clock of `_run_qemu`.
use rules_ostest.Runner.Evidence.Drain.{Read-cases}
use rules_ostest.Runner.Round.{unless_decided}
use rules_ostest.Runner.Messages.{
  on_lines, on_message, read_qmp, check_screenshot, on_pending, judge_event, on_chunk, by_failure,
}
use rules_ostest.Runner.Legacy.{feed_legacy, trim, max_match_buffer, matches}
use rules_ostest.Ppm.{validate_ppm_distinct_pixels}
use rules_ostest.Bytes.{Bytes}
use rules_ostest.Runner.Loop.{
  request_screenshot, take_chunk, process_serial, judge_chunk, by_result, take_verdict, same_id,
  max_serial_log_bytes,
}
use rules_ostest.Serial.Feed.{QmpEvent, handle_qmp_event, feed}
use rules_ostest.Serial.{AssertionOutcome, running, pass, fail, Machine}
use rules_ostest.Runner.{
  legacy, phase_machine, event, response, malformed, out_of_rounds, Outcome, Why, World, Run,
  LegacyVerdict, Judge, Raise, is_decided, Message, set_outcome, screendump_failed, tick,
}
use rules_ostest.Base.{
  ℕ, ◌+◌, ◌≤◌, ◌≡◌, refl, ◌∙◌, ◌≢◌, inl, inr, Bool, true, false, not, ◌&&◌, Option, none, some,
  List, [], ◌∷◌, ◌++◌, arith, ltb, if◌then◌else◌, Bool-cases, Option-cases, length, is_empty, ◌>>=◌,
  Result-cases, ok, err,
}

-- A call that returns at `n` or later, or raises what the code can raise.
pub data Advances (n : ℕ) : Outcome → Type 0 where
  comes : {r : Run} → n ≤ r.now → Advances n (ok r)
  breaks : {e : Raise × Run} → e.0 ≢ out_of_rounds → Advances n (err e)

pub Advances-bind :
    {n : ℕ} {o : Outcome} {f : Run → Outcome}
    → Advances n o
    → ((r : Run) → n ≤ r.now → Advances n (f r))
    → Advances n (o >>= f)
Advances-bind (comes {r} h) k = k r h
Advances-bind (breaks h) k = breaks h

pub Advances-sooner : {n k : ℕ} {o : Outcome} → k ≤ n → Advances n o → Advances k o
Advances-sooner le (comes h) = comes (omega (arith, le, h))
Advances-sooner le (breaks h) = breaks h

pub unless_decided-Advances :
    (n : ℕ) (f : Run → Outcome) (r : Run)
    → n ≤ r.now
    → Advances n (f r)
    → Advances n (unless_decided f r)
unfolding unless_decided
unless_decided-Advances n f r h k = elim (Bool-cases (is_decided r.outcome)) [
  | inl e ↦ rw (e, unless_decided) (comes h)
  | inr e ↦ rw (e, unless_decided) k
]

by_result-now : (o : AssertionOutcome) (m : Machine) (r : Run) → (by_result o m r).now ≡ r.now
by_result-now running m r = refl
by_result-now pass m r = refl
by_result-now fail m r = refl

take_verdict-now :
    (v : Option (Bool × Why) × LegacyVerdict) (r : Run) → (take_verdict v r).now ≡ r.now
take_verdict-now (none, l) r = refl
take_verdict-now (some (true, why), l) r = refl
take_verdict-now (some (false, why), l) r = refl

judge_event-now : (e : QmpEvent) (j : Judge) (r : Run) → (judge_event j e r).now ≡ r.now
judge_event-now e (legacy l) r = refl
judge_event-now e (phase_machine m) r =
    by_failure-now (handle_qmp_event e m).outcome (handle_qmp_event e m) r
  where
    by_failure-now : (o : AssertionOutcome) (m : Machine) (r : Run) → (by_failure o m r).now ≡ r.now
    by_failure-now running m r = refl
    by_failure-now pass m r = refl
    by_failure-now fail m r = refl

pub on_pending-now : (es : List QmpEvent) (r : Run) → (on_pending es r).now ≡ r.now
unfolding on_pending
on_pending-now [] r = refl
on_pending-now (e ∷ es) r =
    let next = judge_event r.judge e r in
    elim (Bool-cases (is_decided next.outcome)) [
      | inl f ↦ rw (f, on_pending) (judge_event-now e r.judge r)
      | inr f ↦ rw (f, on_pending) (on_pending-now es next ∙ judge_event-now e r.judge r)
    ]

module _ (w : World) where
  request_screenshot-Advances : (n : ℕ) (r : Run) → n ≤ r.now → Advances n (request_screenshot w r)
  unfolding request_screenshot
  request_screenshot-Advances n r h =
      elim (Bool-cases
        (r.guest_complete && not r.screenshot_complete && same_id r.screenshot_request_id none)) [
          | inr e ↦ rw e (comes h)
          | inl e ↦ rw e (elim (Bool-cases w.has_qmp) [
            | inr f ↦ simp f (breaks (λ x. cc))
            | inl f ↦ simp f (elim (Bool-cases (w.qmp_written r.now)) [
              | inl g ↦ rw g (comes (omega (arith, h)))
              | inr g ↦ rw g (breaks (λ x. cc))
            ])
          ])
        ]

  judge_chunk-Advances :
      (n : ℕ) (j : Judge) (chunk : Bytes) (final : Bool) (r : Run)
      → n ≤ r.now
      → Advances n (judge_chunk w j chunk final r)
  unfolding judge_chunk
  judge_chunk-Advances n (legacy l) chunk final r h =
      request_screenshot-Advances n _
        (omega (arith, h, take_verdict-now (feed_legacy w chunk final l) r))
  judge_chunk-Advances n (phase_machine m) chunk final r h =
      let decoded = w.decode r.match_pending chunk final in
      let buffer = r.regex_buffer ++ decoded.0 in
      let seen = record r {
        match_pending = decoded.1;
        regex_buffer = trim max_match_buffer buffer;
      } in
      elim (Bool-cases (matches w.failure buffer)) [
        | inl e ↦ simp e (comes h)
        | inr e ↦ simp e (
            request_screenshot-Advances n _
              (omega (arith, h, by_result-now (feed chunk m).outcome (feed chunk m) seen)))
      ]

  process_serial-Advances :
      (n : ℕ) (chunk : Bytes) (final : Bool) (r : Run)
      → n ≤ r.now
      → Advances n (process_serial w chunk final r)
  unfolding process_serial
  process_serial-Advances n chunk final r h = elim (Bool-cases (is_empty chunk && not final)) [
    | inl e ↦ rw e (comes h)
    | inr e ↦ rw e (judge_chunk-Advances n r.judge chunk final _ h)
  ]

  pub take_chunk-Advances :
      (n : ℕ) (chunk : Bytes) (again : Run → Outcome) (r : Run)
      → ((m : Run) → n ≤ m.now → Advances n (again m))
      → n ≤ r.now
      → Advances n (take_chunk w chunk again r)
  unfolding take_chunk
  take_chunk-Advances n chunk again r ih h = elim (Bool-cases (is_empty chunk)) [
    | inl e ↦
        rw (e, take_chunk) (process_serial-Advances n [] true (record r { serial_eof = true }) h)
    | inr e ↦
        rw (e, take_chunk)
          (elim (Bool-cases (ltb max_serial_log_bytes (r.serial_log_bytes + length chunk))) [
            | inl f ↦ rw f (comes h)
            | inr f ↦ rw f (Advances-bind (process_serial-Advances n chunk false _ h) ih)
          ])
  ]

  check_screenshot-now : (r : Run) → (check_screenshot w r).now ≡ r.now + 1
  unfolding check_screenshot
  check_screenshot-now r = elim (Option-cases (w.screenshot r.now)) [
    | inl e ↦ rw (e, check_screenshot) refl
    | inr (contents, e) ↦
        elim (Result-cases (
          validate_ppm_distinct_pixels contents w.min_distinct_pixels w.max_file_bytes
            w.max_pixels)) [
              | inl (info, f) ↦ rw (e, check_screenshot, f) refl
              | inr (why, f) ↦ rw (e, check_screenshot, f) refl
            ]
  ]

  on_message-Advances : (n : ℕ) (m : Message) (r : Run) → n ≤ r.now → Advances n (on_message w m r)
  unfolding on_message
  on_message-Advances n malformed r h = breaks (λ x. cc)
  on_message-Advances n (event e) r h = comes (omega (arith, h, judge_event-now e r.judge r))
  on_message-Advances n (response id has_error) r h =
      elim (Bool-cases (same_id id r.screenshot_request_id)) [
        | inr e ↦ rw e (comes h)
        | inl e ↦ rw e (answered has_error)
      ]
    where
      answered :
          (test : Bool)
          → Advances n
              (ok (if test then set_outcome false screendump_failed r else check_screenshot w r))
      answered true = comes h
      answered false = comes (omega (arith, h, check_screenshot-now r))

  on_lines-Advances :
      (n : ℕ) (lines : List Bytes) (r : Run) → n ≤ r.now → Advances n (on_lines w lines r)
  unfolding on_lines
  on_lines-Advances n [] r h = comes h
  on_lines-Advances n (line ∷ lines) r h =
      Advances-bind (on_message-Advances n (w.loads line) r h) (on_lines-Advances n lines)

  on_chunk-Advances :
      (n : ℕ) (chunk : Bytes) (r : Run) → n ≤ r.now → Advances n (on_chunk w chunk r)
  unfolding on_chunk
  on_chunk-Advances n chunk r h = elim (Bool-cases (is_empty chunk)) [
    | inr e ↦ rw e (on_lines-Advances n _ _ h)
    | inl e ↦ rw e (elim (Bool-cases (r.guest_complete && r.screenshot_complete)) [
      | inl f ↦ rw f (comes h)
      | inr f ↦ rw f (comes (omega (arith, h)))
    ])
  ]

  pub read_qmp-Advances : (n : ℕ) (r : Run) → n ≤ r.now → Advances n (read_qmp w r)
  unfolding read_qmp
  read_qmp-Advances n r h = elim (Bool-cases (is_decided r.outcome)) [
    | inl e ↦ rw (e, read_qmp) (comes h)
    | inr e ↦ elim (Read-cases (w.recv_qmp r.now)) [
      | inl f ↦ rw (e, f, read_qmp) (comes (omega (arith, h)))
      | inr (bytes, f) ↦ rw (e, f, read_qmp) (on_chunk-Advances n bytes (tick r) (omega (arith, h)))
    ]
  ]
