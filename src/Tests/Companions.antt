-- ===== src/Tests/Companions.antt =====
-- A companion that ends with status 0 and leaves nothing behind, and one that must be killed.
use rules_ostest.Companion.Ends.{IsEnded, Fails, run_one_shot_companion-IsEnded}
use rules_ostest.Companion.Status.{read_log_tail-suffix, run_one_shot_companion-zero}
use rules_ostest.Bytes.{Bytes}
use rules_ostest.Base.Int.{pos, negsuc}
use rules_ostest.Companion.{
  kill, World, Call, Outcome, run_one_shot_companion, read_log_tail, Finished, make_companion,
  empty_command, start, wait_for, terminate, terminate_process_group, grace_loop, reap, time_out,
  finish, make_result, kill_group, end_process, conclude, open_log, spawn,
}
use rules_ostest.Base.{
  ℕ, ◌≤◌, ◌≡◌, refl, ◌⊎◌, Bool, true, false, not, none, some, List, [], ◌∷◌, ◌++◌, if◌then◌else◌,
  length, result_or, err,
}

abbrev quiet : World
quiet = record {
  is_posix = true;
  spawned = λ _. true;
  waited = λ _. some (pos 0);
  polled = λ _. some (pos 0);
  group_alive = λ _. false;
  signalled = λ _. true;
  rounds = λ _. 0;
  log = λ _. some (1 ∷ 2 ∷ 3 ∷ []);
}

abbrev is_killed : List Call → Bool
is_killed [] = false
is_killed (kill ∷ h) = true
is_killed (_ ∷ h) = is_killed h

-- It does not stop within its timeout, nor on SIGTERM.
abbrev stubborn : World
stubborn = record quiet {
  waited = λ h. if is_killed h then some (negsuc 8) else none;
  polled = λ h. if is_killed h then some (negsuc 8) else none;
  group_alive = λ h. not (is_killed h);
  rounds = λ _. 2;
}

abbrev ended : Outcome Finished
ended =
    result_or
      (
        err empty_command,
        record {
          tail_bytes = pos 2;
          has_process = false;
          is_started = false;
          log_open = false;
          result = none;
          history = [];
        },
      )
      (run_one_shot_companion stubborn 1 (pos 2) (pos 5))

run_one_shot_companion-IsEnded_example : Fails ended.0 ⊎ IsEnded stubborn ended.1
unfolding run_one_shot_companion make_companion start wait_for terminate terminate_process_group
    grace_loop kill_group end_process reap time_out finish conclude make_result read_log_tail
run_one_shot_companion-IsEnded_example =
    run_one_shot_companion-IsEnded stubborn 1 (pos 2) (pos 5) ended refl

abbrev passed : Outcome Finished
passed = result_or (err empty_command, ended.1) (run_one_shot_companion quiet 1 (pos 2) (pos 5))

abbrev success : Finished
success = record { returncode = pos 0; output_tail = 2 ∷ 3 ∷ [] }

run_one_shot_companion-zero_example :
    (quiet.spawned (open_log ∷ []) ≡ true)
    × (quiet.waited (spawn ∷ open_log ∷ []) ≡ some success.returncode)
    × (success.returncode ≡ pos 0)
unfolding run_one_shot_companion make_companion start wait_for terminate terminate_process_group
    grace_loop kill_group end_process reap time_out finish conclude make_result read_log_tail
run_one_shot_companion-zero_example =
    run_one_shot_companion-zero quiet 1 (pos 2) (pos 5) success passed.1 refl

read_log_tail-suffix_example :
    (length {A = ℕ} (2 ∷ 3 ∷ []) ≤ 2)
    × ((front : Bytes) × ((1 ∷ 2 ∷ 3 ∷ []) ≡ front ++ (2 ∷ 3 ∷ []))
        × ((front ≡ []) ⊎ (length {A = ℕ} (2 ∷ 3 ∷ []) ≡ 2)))
unfolding read_log_tail
read_log_tail-suffix_example = read_log_tail-suffix (1 ∷ 2 ∷ 3 ∷ []) (pos 2) (2 ∷ 3 ∷ []) refl
