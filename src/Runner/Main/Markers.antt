-- ===== src/Runner/Main/Markers.antt =====
-- A plan of markers: what a pass says of the serial log.
use rules_ostest.Runner.Evidence.Passed.{IsEarned}
use rules_ostest.Runner.Round.{run_loop, initial}
use rules_ostest.Serial.Feed.Order.{ordered-feed_all}
use mathlib.Core.Path.{subst}
use rules_ostest.Runner.Main.Zero.{main_status-zero}
use rules_ostest.Serial.Made.{ordered-fresh}
use rules_ostest.Search.Order.{InOrder}
use rules_ostest.Serial.Feed.Scan.{any_occurs}
use rules_ostest.Runner.Loop.{is_accepted}
use rules_ostest.Runner.Main.{
  Plan, ordered, text, make_judge, main_status, run_qemu, after_export, invalid_plan, export_errors,
}
use rules_ostest.Base.Int.{ℤ}
use rules_ostest.Serial.Feed.Stream.{eq-running}
use rules_ostest.Serial.Feed.Last.{IsLast, feed-IsLast}
use rules_ostest.Runner.Evidence.{bytes_of, Start}
use rules_ostest.Serial.Feed.Chunks.{feed_all, join, feed_stopped_all}
use rules_ostest.Bytes.{Bytes}
use rules_ostest.Serial.{pass, Machine, running, fail, Marker, encode, SerialError}
use rules_ostest.Serial.Runs.{chunk, qmp, exited, expired, Event, run, run-stopped, step}
use rules_ostest.Serial.Feed.{
  feed, handle_qmp_event, is_running, handle_reset, QmpEvent, process_exited, timed_out,
}
use rules_ostest.Runner.{World, Run, phase_machine}
use package.text.Mathlib.Text.{◌==◌ as str_eq}
use rules_ostest.Base.{
  ℕ, String, ◌≡◌, refl, sym, ap, ◌∙◌, ◌⊎◌, inl, inr, Bool, true, false, not, ◌&&◌, Option, List, [],
  ◌∷◌, ◌++◌, map, arith, if◌then◌else◌, Bool-cases, is_empty, Result-cases, ok, err,
}

-- The chunks among the events.
abbrev chunks_of : List Event → List Bytes
chunks_of [] = []
chunks_of (chunk bytes ∷ es) = bytes ∷ chunks_of es
chunks_of (e ∷ es) = chunks_of es

join-chunks_of : (es : List Event) → join (chunks_of es) ≡ bytes_of es
join-chunks_of [] = refl
join-chunks_of (chunk bytes ∷ es) = ap (λ l. bytes ++ l) (join-chunks_of es)
join-chunks_of (qmp e ∷ es) = join-chunks_of es
join-chunks_of (exited e ∷ es) = join-chunks_of es
join-chunks_of (expired e ∷ es) = join-chunks_of es

fail-not_pass : (es : List Event) (m : Machine) → m.outcome ≡ fail → ¬ ((run es m).outcome ≡ pass)
fail-not_pass es m f h =
    absurd (pass-fail (sym h ∙ ap (λ n. n.outcome) (run-stopped es m (ap is_running f)) ∙ f))
  where
    pass-fail : ¬ (pass ≡ fail)
    pass-fail e = cc

-- A machine that does not wait takes no reset.
qmp-outcome :
    (e : QmpEvent) (m : Machine)
    → m.outcome ≡ running
    → m.waiting_for_reboot ≡ false
    → (step (qmp e) m ≡ m) ⊎ ((step (qmp e) m).outcome ≡ fail)
unfolding handle_qmp_event handle_reset
qmp-outcome e m running_still go = elim (Bool-cases (str_eq e.event "RESET")) [
  | inl f ↦ inr (ground arith)
  | inr f ↦ inl (ground arith)
]

stopped-chunks :
    (es : List Event) (m : Machine)
    → is_running m.outcome ≡ false
    → (run es m).outcome ≡ pass
    → (feed_all (chunks_of es) m).outcome ≡ pass
stopped-chunks es m stopped h =
    ap (λ n. n.outcome) (feed_stopped_all (chunks_of es) m stopped)
    ∙ sym (ap (λ n. n.outcome) (run-stopped es m stopped))
    ∙ h

exited-fail :
    (code : ℤ) (m : Machine) → m.outcome ≡ running → (process_exited code m).outcome ≡ fail
unfolding process_exited
exited-fail code m go = ground arith

late-fail :
    (seconds : String) (m : Machine) → m.outcome ≡ running → (timed_out seconds m).outcome ≡ fail
unfolding timed_out
late-fail seconds m go = ground arith

running-chunks :
    (e : Event) (es : List Event) (m : Machine)
    → IsLast m
    → m.outcome ≡ running
    → ((n : Machine)
        → IsLast n
        → (run es n).outcome ≡ pass
        → (feed_all (chunks_of es) n).outcome ≡ pass)
    → (run (e ∷ es) m).outcome ≡ pass
    → (feed_all (chunks_of (e ∷ es)) m).outcome ≡ pass
running-chunks (chunk bytes) es m v go ih p = ih (feed bytes m) (feed-IsLast bytes m go v) p
running-chunks (qmp e) es m v go ih p = elim (qmp-outcome e m go v.not_waiting) [
  | inl same ↦ ih m v (sym (ap (λ n. (run es n).outcome) same) ∙ p)
  | inr f ↦ absurd (fail-not_pass es (step (qmp e) m) f p)
]
running-chunks (exited code) es m v go ih p =
    absurd (fail-not_pass es (process_exited code m) (exited-fail code m go) p)
running-chunks (expired seconds) es m v go ih p =
    absurd (fail-not_pass es (timed_out seconds m) (late-fail seconds m go) p)

passed_machine :
    {w : World} {start : Start} {wanted : Bool} {r : Run} (earned : IsEarned w start wanted r)
    → w.success_exit_codes ≡ []
    → earned.machine.outcome ≡ pass
passed_machine earned no_codes = elim earned.guest_done [
  | inl p ↦ p
  | inr accepted ↦ cc (accepted.accepted, ap (λ codes. is_accepted codes accepted.status) no_codes)
]

-- A machine in its last phase passes only by the chunks.
run-chunks :
    (es : List Event) (m : Machine)
    → IsLast m
    → (run es m).outcome ≡ pass
    → (feed_all (chunks_of es) m).outcome ≡ pass
run-chunks [] m v h = h
run-chunks (e ∷ es) m v h = elim (Bool-cases (is_running m.outcome)) [
  | inr stopped ↦ stopped-chunks (e ∷ es) m stopped h
  | inl go ↦ running-chunks e es m v (eq-running m.outcome go) (run-chunks es) h
]

-- The markers occur in the log of a run that a machine for them has passed.
pub IsEarned-InOrder :
    (w : World) (utf8 : String → Bytes) (markers forbidden : List Marker) (start : Start)
    (wanted : Bool) (r : Run)
    → ordered utf8 markers forbidden ≡ ok start.machine
    → any_occurs (map (encode utf8) forbidden) r.log ≡ false
    → w.success_exit_codes ≡ []
    → IsEarned w start wanted r
    → InOrder (map (encode utf8) markers) r.log
IsEarned-InOrder w utf8 markers forbidden start wanted r made clean no_codes earned =
    let (phase, same, then_complete, have, valid, is_fresh) =
      ordered-fresh utf8 markers forbidden start.machine made in
    let last : IsLast start.machine =
      subst IsLast (sym is_fresh) (record { not_waiting = refl; completes = then_complete }) in
    let whole = join-chunks_of earned.trace ∙ earned.read_all in
    let passes = passed_machine earned no_codes in
    let chunked =
      run-chunks earned.trace start.machine last (ap (λ n. n.outcome) earned.by_trace ∙ passes) in
    let (there, back) =
      ordered-feed_all utf8 markers forbidden start.machine (chunks_of earned.trace) made
        (ap (any_occurs (map (encode utf8) forbidden)) whole ∙ clean) in
    subst (InOrder (map (encode utf8) markers)) whole (there chunked)

map-text : (utf8 : String → Bytes) (l : List String) → map (encode utf8) (map text l) ≡ map utf8 l
map-text utf8 [] = refl
map-text utf8 (s ∷ l) = ap (λ rest. utf8 s ∷ rest) (map-text utf8 l)

module _ (w : World) (utf8 : String → Bytes) (p : Plan) (queue : List QmpEvent)
    (left_over : List Bytes) (fuel : ℕ) (require_kvm skip_without_kvm available : Bool)
    (media_error : Option String) (export_vars : Bool) (vars_error : Option String) where
  make_judge-ordered :
      (start : Machine)
      → is_empty p.phases ≡ true
      → is_empty p.success_markers ≡ false
      → ordered utf8 (map text p.success_markers) (map text p.forbidden_markers) ≡ ok start
      → make_judge utf8 p ≡ ok (phase_machine start)
  unfolding make_judge
  make_judge-ordered start no_phases some_markers made = rw (no_phases, some_markers, made) refl

  main_status-invalid :
      (e : SerialError)
      → is_empty p.phases ≡ true
      → is_empty p.success_markers ≡ false
      → (require_kvm && skip_without_kvm && not available) ≡ false
      → ordered utf8 (map text p.success_markers) (map text p.forbidden_markers) ≡ err e
      → main_status w utf8 p queue left_over fuel require_kvm skip_without_kvm available media_error
          export_vars vars_error
        ≡ 1
  unfolding main_status run_qemu make_judge
  main_status-invalid e no_phases some_markers not_skipped made =
      rw (not_skipped, no_phases, some_markers, made)
        (unchanged (export_errors media_error export_vars vars_error))
    where
      unchanged :
          (errors : List String)
          → ◌≡◌ {A = ℕ}
              (if (after_export errors
                  (record { passed = false; reason = invalid_plan e; output_tail = [] })).passed
                then 0
                else 1)
              1
      unchanged errors = ground arith

  -- Where a plan of markers, without phases and without accepted exit codes, makes `main` return
  -- 0 and the test is not skipped, the loop has returned, and the bytes of the markers occur in
  -- the serial log, each behind the end of the one before it, unless a forbidden marker occurs in
  -- the log.
  pub main_status-InOrder :
      is_empty p.phases ≡ true
      → is_empty p.success_markers ≡ false
      → w.success_exit_codes ≡ []
      → (require_kvm && skip_without_kvm && not available) ≡ false
      → main_status w utf8 p queue left_over fuel require_kvm skip_without_kvm available media_error
          export_vars vars_error
        ≡ 0
      → (start : Machine) × (r : Run) × (make_judge utf8 p ≡ ok (phase_machine start))
        × (run_loop w fuel (initial w (phase_machine start) p.screendump_not_blank queue) ≡ ok r)
        × (any_occurs (map utf8 p.forbidden_markers) r.log ≡ false
            → InOrder (map utf8 p.success_markers) r.log)
  main_status-InOrder no_phases some_markers no_codes not_skipped h =
      elim (Result-cases
        (ordered utf8 (map text p.success_markers) (map text p.forbidden_markers))) [
          | inr (e, refused) ↦
              let status = main_status-invalid e no_phases some_markers not_skipped refused in
              absurd (omega (arith, status, h))
          | inl (start, made) ↦
              let judge = make_judge-ordered start no_phases some_markers made in
              elim (main_status-zero w utf8 p queue left_over fuel require_kvm skip_without_kvm
                available media_error export_vars vars_error start judge h) [
                  | inl skipped ↦ cc
                  | inr (_, r, ran, earned) ↦ (
                    start,
                    r,
                    judge,
                    ran,
                    λ clean.
                        subst (λ ms. InOrder ms r.log) (map-text utf8 p.success_markers)
                          (IsEarned-InOrder w utf8 (map text p.success_markers)
                            (map text p.forbidden_markers)
                            (record { machine = start; events = queue }) p.screendump_not_blank r
                            made
                            (ap (λ ms. any_occurs ms r.log) (map-text utf8 p.forbidden_markers)
                              ∙ clean)
                            no_codes earned),
                  )
                ]
        ]
