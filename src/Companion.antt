-- ===== src/Companion.antt =====
-- The companion process of ostest/private/managed_network.py: `OneShotCompanion`, `read_log_tail` and
-- `run_one_shot_companion`. What the operating system answers depends on what was done before.
pub mod Ends
pub mod Status
use rules_ostest.Bytes.{Bytes}
use rules_ostest.Base.Int.{ℤ, pos, is_not_positive, negsuc, to_ℕ}
use rules_ostest.Base.{
  ℕ, zero, suc, ◌-◌, Bool, true, false, not, ◌||◌, Option, none, some, List, [], ◌∷◌, ◌==◌,
  if◌then◌else◌, length, drop, ◌>>=◌, ◌>>◌, refuse, Result, ok, err,
}

-- What is done to the process, its group and the log; a history has the last call first.
pub data Call : Type 0 where
  open_log close_log spawn wait poll probe sleep term kill : Call

-- The answers of the system after a history: `Popen` (a process or OSError), `wait` (a status or
-- TimeoutExpired), `poll`, whether the group is there, whether it may be signalled (or PermissionError),
-- the 10 ms sleeps before the deadline, and the log file.
pub record World : Type 0 where
  pub is_posix : Bool
  pub spawned : List Call → Bool
  pub waited : List Call → Option ℤ
  pub polled : List Call → Option ℤ
  pub group_alive : List Call → Bool
  pub signalled : List Call → Bool
  pub rounds : List Call → ℕ
  pub log : List Call → Option Bytes

pub record Finished : Type 0 where
  pub returncode : ℤ
  pub output_tail : Bytes

-- The exceptions; `wait_expired` is TimeoutExpired from the last wait for a killed process,
-- `not_permitted` PermissionError from a signal.
pub data CompanionError : Type 0 where
  empty_command bad_tail_size already_started not_posix start_failed not_started : CompanionError
  bad_timeout still_running wait_expired not_permitted bad_limit : CompanionError
  exited timed_out : Finished → CompanionError

pub record Companion : Type 0 where
  pub tail_bytes : ℤ
  pub has_process : Bool
  pub is_started : Bool
  pub log_open : Bool
  pub result : Option Finished
  pub history : List Call

-- A method leaves a state behind, whether it returns or raises.
abbrev pub Outcome : Type 0 → Type 0
Outcome A = Result CompanionError A × Companion

abbrev pub call : Call → Companion → Companion
call k c = record c { history = k ∷ c.history }

abbrev pub and_then : {A B : Type 0} → Outcome A → (A → Companion → Outcome B) → Outcome B
and_then (ok a, c) f = f a c
and_then (err e, c) f = (err e, c)

abbrev pub is_zero : ℤ → Bool
is_zero (pos n) = n == 0
is_zero (negsuc n) = false

-- The bytes that `read_log_tail` decodes.
unfoldable pub read_log_tail : Option Bytes → ℤ → Result CompanionError Bytes
read_log_tail log limit =
    if is_not_positive limit
    then err bad_limit
    else elim log [ none ↦ ok [] | some bytes ↦ ok (drop (length bytes - to_ℕ limit) bytes) ]

-- `__init__`, of a command with `arguments` arguments.
unfoldable pub make_companion : ℕ → ℤ → Result CompanionError Companion
make_companion arguments tail_bytes = do
  refuse (arguments == 0) empty_command
  refuse (is_not_positive tail_bytes) bad_tail_size
  ok (record {
    tail_bytes = tail_bytes;
    has_process = false;
    is_started = false;
    log_open = false;
    result = none;
    history = [];
  })

-- `_close_log`
abbrev pub close : Companion → Companion
close c = if c.log_open then record (call close_log c) { log_open = false } else c

module _ (w : World) where
  -- Making the directories and opening the log is left to the file system.
  unfoldable pub start : Companion → Outcome (Unit {0})
  start c =
      let opened = record (call open_log c) { log_open = true; is_started = true } in
      if c.has_process || c.is_started
      then (err already_started, c)
      else if not w.is_posix
      then (err not_posix, c)
      else if w.spawned opened.history
      then (ok tt, record (call spawn opened) { has_process = true })
      else (err start_failed, close (call spawn opened))

  -- `while self._group_exists() and time.monotonic() < deadline`
  unfoldable pub grace_loop : ℕ → Companion → Companion
  grace_loop zero c = call probe c
  grace_loop (suc n) c =
      let rest = grace_loop n (call sleep (call probe c)) in
      if w.group_alive c.history then rest else call probe c

  -- `_signal_process_group`; that the group is gone is no error.
  abbrev pub signal : Call → Companion → Outcome (Unit {0})
  signal k c = (if w.signalled c.history then ok tt else err not_permitted, call k c)

  -- SIGKILL, where the group outlives its grace period.
  unfoldable pub kill_group : Companion → Outcome (Unit {0})
  kill_group c =
      if w.group_alive c.history then signal kill (call probe c) else (ok tt, call probe c)

  unfoldable pub terminate_process_group : Companion → Outcome (Unit {0})
  unfolding grace_loop kill_group
  terminate_process_group c =
      if not c.has_process
      then (ok tt, c)
      else if not (w.group_alive c.history)
      then (ok tt, call probe c)
      else and_then (signal term (call probe c))
          (λ _ asked. kill_group (grace_loop (w.rounds asked.history) asked))

  -- The wait for a process that has not ended, and once more when it is killed.
  unfoldable pub reap : Companion → Outcome (Unit {0})
  reap c = elim (w.waited c.history) [
    | some status ↦ (ok tt, call wait c)
    | none ↦ and_then (signal kill (call wait c)) (λ _ killed. elim (w.waited killed.history) [
      | some status ↦ (ok tt, call wait killed)
      | none ↦ (err wait_expired, call wait killed)
    ])
  ]

  -- The process behind its group, then the log.
  unfoldable pub end_process : Companion → Outcome (Unit {0})
  unfolding reap
  end_process ended =
      and_then
        (elim (w.polled ended.history) [
          | some status ↦ (ok tt, call poll ended)
          | none ↦ reap (call poll ended)
        ])
        (λ _ d. (ok tt, close d))

  unfoldable pub terminate : Companion → Outcome (Unit {0})
  unfolding terminate_process_group end_process
  terminate c =
      if not c.has_process
      then (ok tt, close c)
      else and_then (terminate_process_group c) (λ _ ended. end_process ended)

  -- `_make_result`, with the status of a process that has ended.
  unfoldable pub make_result : ℤ → Companion → Result CompanionError Finished
  unfolding read_log_tail
  make_result returncode c = do
    tail ← read_log_tail (w.log c.history) c.tail_bytes
    ok (record { returncode = returncode; output_tail = tail })

  abbrev pub settle : Finished → Outcome Finished → Outcome Finished
  settle r (o, c) = if is_zero r.returncode then (o, c) else (err (exited r), c)

  -- A wait that has timed out.
  unfoldable pub time_out : Companion → Outcome Finished
  unfolding terminate make_result
  time_out c = and_then (terminate c) (λ _ d. elim (w.polled d.history) [
    | none ↦ (err still_running, call poll d)
    | some status ↦ elim (make_result status (call poll d)) [
      | err e ↦ (err e, call poll d)
      | ok r ↦ (err (timed_out r), record (call poll d) { result = some r })
    ]
  ])

  -- The result of a process whose group is gone.
  unfoldable pub conclude : ℤ → Companion → Outcome Finished
  unfolding make_result
  conclude status d = elim (make_result status d) [
    | err e ↦ (err e, d)
    | ok r ↦ settle r (ok r, record d { result = some r })
  ]

  -- A wait that has returned a status.
  unfoldable pub finish : ℤ → Companion → Outcome Finished
  unfolding terminate_process_group conclude
  finish status c = and_then (terminate_process_group c) (λ _ ended. conclude status (close ended))

  -- Of the timeout only its sign is looked at here.
  unfoldable pub wait_for : ℤ → Companion → Outcome Finished
  unfolding time_out finish
  wait_for timeout c = if is_not_positive timeout then (err bad_timeout, c) else elim c.result [
    | some r ↦ settle r (ok r, c)
    | none ↦ if not c.has_process then (err not_started, c) else elim (w.waited c.history) [
      | none ↦ time_out (call wait c)
      | some status ↦ finish status (call wait c)
    ]
  ]

  -- `finally: companion.terminate()`: what it raises takes the place of what came before.
  abbrev pub finally_terminate : Outcome Finished → Outcome Finished
  finally_terminate (o, c) = and_then (terminate c) (λ _ d. (o, d))

  unfoldable pub run_one_shot_companion : ℕ → ℤ → ℤ → Result CompanionError (Outcome Finished)
  unfolding make_companion start wait_for terminate
  run_one_shot_companion arguments tail_bytes timeout = do
    c ← make_companion arguments tail_bytes
    ok (finally_terminate (and_then (start c) (λ _ d. wait_for timeout d)))
