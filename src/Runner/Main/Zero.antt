-- ===== src/Runner/Main/Zero.antt =====
-- What a status of 0 means.
use rules_ostest.Runner.Evidence.Passed.{IsEarned, run_loop-IsEarned}
use rules_ostest.Runner.Round.{run_loop, initial}
use rules_ostest.Serial.{Machine}
use rules_ostest.Serial.Feed.{QmpEvent}
use rules_ostest.Bytes.{Bytes}
use rules_ostest.Runner.Main.{
  main_status, conclude, RunResult, after_export, run_qemu, Plan, make_judge, export_errors, report,
  run_judge,
}
use rules_ostest.Runner.{phase_machine, Outcome, World, Run, Why}
use rules_ostest.Base.{
  ℕ, String, ◌≡◌, refl, sym, ap, ◌∙◌, ◌⊎◌, inl, inr, Bool, true, false, not, ◌&&◌, Option, none,
  some, List, [], ◌∷◌, arith, if◌then◌else◌, ok, err,
}

one-zero : ¬ (◌≡◌ {A = ℕ} 1 0)
one-zero e = omega (arith, e)

after_export-passed :
    (errors : List String) (r : RunResult)
    → (after_export errors r).passed ≡ true
    → (errors ≡ []) × (r.passed ≡ true)
after_export-passed [] r h = (refl, h)
after_export-passed (e ∷ es) r h = ground arith

report-passed :
    (o : Option (Bool × Why)) (r : Run)
    → (report o r).passed ≡ true
    → (why : Why) × (o ≡ some (true, why))
report-passed none r h = cc
report-passed (some (true, why)) r h = (why, refl)
report-passed (some (false, why)) r h = cc

conclude-passed :
    (left_over : List Bytes) (o : Outcome)
    → (conclude left_over o).passed ≡ true
    → (r : Run) × (why : Why) × (o ≡ ok r) × (r.outcome ≡ some (true, why))
unfolding conclude
conclude-passed left_over (err (e, r)) h = cc
conclude-passed left_over (ok r) h = let (why, e) = report-passed r.outcome r h in (r, why, refl, e)

status-zero :
    (skipped passed : Bool)
    → ◌≡◌ {A = ℕ} (if skipped then 0 else if passed then 0 else 1) 0
    → (skipped ≡ true) ⊎ (passed ≡ true)
status-zero true passed h = inl refl
status-zero false true h = inr refl
status-zero false false h = absurd (one-zero h)

pub main_status-zero :
    (w : World) (utf8 : String → Bytes) (p : Plan) (queue : List QmpEvent) (left_over : List Bytes)
    (fuel : ℕ) (require_kvm skip_without_kvm available : Bool) (media_error : Option String)
    (export_vars : Bool) (vars_error : Option String) (start : Machine)
    → make_judge utf8 p ≡ ok (phase_machine start)
    → main_status w utf8 p queue left_over fuel require_kvm skip_without_kvm available media_error
        export_vars vars_error
      ≡ 0
    → ((require_kvm && skip_without_kvm && not available) ≡ true)
      ⊎ ((export_errors media_error export_vars vars_error ≡ [])
          × (r : Run) × (run_loop w fuel
                (initial w (phase_machine start) p.screendump_not_blank queue)
              ≡ ok r)
          × IsEarned w (record { machine = start; events = queue }) p.screendump_not_blank r)
unfolding main_status run_qemu
main_status-zero w utf8 p queue left_over fuel require_kvm skip available media_error export_vars
      vars_error start made h =
    elim (status-zero (require_kvm && skip && not available) _ h) [
      | inl skipped ↦ inl skipped
      | inr passes ↦
          let errors = export_errors media_error export_vars vars_error in
          let result = run_qemu w utf8 p queue left_over fuel in
          let (no_errors, passed) = after_export-passed errors result passes in
          let judged =
            sym (ap (λ j. (run_judge w p.screendump_not_blank queue left_over fuel j).passed) made)
            ∙ passed in
          let (r, why, ran, decided) = conclude-passed left_over _ judged in
          inr (
            no_errors,
            r,
            ran,
            run_loop-IsEarned w (record { machine = start; events = queue }) p.screendump_not_blank
                fuel why r ran decided,
          )
    ]
