-- ===== src/Runner/Main.antt =====
-- What `_run_qemu` returns, and the verdict of `main`.
pub mod Zero
pub mod Markers
use rules_ostest.Runner.Round.{run_loop, initial}
use rules_ostest.Runner.Legacy.{make_legacy}
use rules_ostest.Serial.Feed.{QmpEvent}
use rules_ostest.Bytes.{Bytes}
use rules_ostest.Serial.{text, AssertionPhase, SerialError, make_machine, ordered}
use rules_ostest.Runner.{
  legacy, phase_machine, out_of_rounds, Why, World, append_output_tail, Outcome, Raise,
  max_failure_output, Judge, Run,
}
use rules_ostest.Base.{
  ℕ, String, Bool, true, false, not, ◌&&◌, Option, none, some, List, [], ◌∷◌, map, if◌then◌else◌,
  is_empty, ◌>>=◌, Result, ok, err,
}

-- `RunResult.reason`, by where it comes from.
pub data Reported : Type 0 where
  judged : Why → Reported
  invalid_plan : SerialError → Reported
  orchestration_failed : Raise → Reported
  export_failed : List String → Reported

pub record RunResult : Type 0 where
  pub passed : Bool
  pub reason : Reported
  pub output_tail : Bytes

-- The arguments of `_run_qemu` that say how the serial stream is judged; `main` wants a pattern
-- where there are neither phases nor markers.
pub record Plan : Type 0 where
  pub phases : List AssertionPhase
  pub success_markers : List String
  pub forbidden_markers : List String
  pub screendump_not_blank : Bool

module _ (utf8 : String → Bytes) where
  unfoldable pub make_judge : Plan → Result SerialError Judge
  unfolding make_machine ordered
  make_judge p =
      let forbidden = map text p.forbidden_markers in
      if not (is_empty p.phases)
      then (make_machine utf8 p.phases forbidden >>= λ m. ok (phase_machine m))
      else if not (is_empty p.success_markers)
      then (ordered utf8 (map text p.success_markers) forbidden >>= λ m. ok (phase_machine m))
      else ok (legacy (make_legacy (map utf8 p.forbidden_markers)))

-- What is left in the pipe after an exception, up to an empty read.
abbrev pub drain_rest : List Bytes → Bytes → Bytes
drain_rest [] tail = tail
drain_rest (chunk ∷ chunks) tail =
    if is_empty chunk
    then tail
    else drain_rest chunks (append_output_tail max_failure_output tail chunk)

abbrev pub report : Option (Bool × Why) → Run → RunResult
report (some (passed, why)) r = record {
  passed = passed;
  reason = judged why;
  output_tail = r.output_tail;
}
report none r = record {
  passed = false;
  reason = orchestration_failed out_of_rounds;
  output_tail = r.output_tail;
}

unfoldable pub conclude : List Bytes → Outcome → RunResult
conclude left_over (err (e, r)) = record {
  passed = false;
  reason = orchestration_failed e;
  output_tail = drain_rest left_over r.output_tail;
}
conclude left_over (ok r) = report r.outcome r

abbrev pub run_judge :
    World → Bool → List QmpEvent → List Bytes → ℕ → Result SerialError Judge → RunResult
run_judge w wanted queue left_over fuel (err e) = record {
  passed = false;
  reason = invalid_plan e;
  output_tail = [];
}
run_judge w wanted queue left_over fuel (ok judge) =
    conclude left_over (run_loop w fuel (initial w judge wanted queue))

-- `_run_qemu`, once QEMU runs and QMP is connected; `queue` has the events that came before.
unfoldable pub run_qemu :
    World → (String → Bytes) → Plan → List QmpEvent → List Bytes → ℕ → RunResult
unfolding make_judge run_loop conclude
run_qemu w utf8 p queue left_over fuel =
    run_judge w p.screendump_not_blank queue left_over fuel (make_judge utf8 p)

-- The errors of `_export_media` and, where asked for, of `export_firmware_vars`.
abbrev pub export_errors : Option String → Bool → Option String → List String
export_errors none true (some e) = e ∷ []
export_errors none _ _ = []
export_errors (some media) true (some e) = media ∷ e ∷ []
export_errors (some media) _ _ = media ∷ []

-- An error of an export turns a pass into a failure.
abbrev pub after_export : List String → RunResult → RunResult
after_export errors r =
    if not (is_empty errors) && r.passed
    then record { passed = false; reason = export_failed errors; output_tail = r.output_tail }
    else r

-- The status that `main` returns, behind the checks of its arguments. `available` is what the KVM
-- probe says.
unfoldable pub main_status :
    World
    → (String → Bytes)
    → Plan
    → List QmpEvent
    → List Bytes
    → ℕ
    → (require_kvm skip_without_kvm available : Bool)
    → (media_error : Option String) (export_vars : Bool) (vars_error : Option String) → ℕ
unfolding run_qemu
main_status w utf8 p queue left_over fuel require_kvm skip_without_kvm available media_error
      export_vars vars_error =
    let r =
      after_export (export_errors media_error export_vars vars_error)
        (run_qemu w utf8 p queue left_over fuel) in
    if require_kvm && skip_without_kvm && not available then 0 else if r.passed then 0 else 1
