-- ===== src/Companion/Status.antt =====
-- What a wait for the companion returns.
use mathlib.Core.Path.{subst}
use rules_ostest.Companion.Ends.{either_branch}
use rules_ostest.Bytes.{Bytes}
use rules_ostest.Companion.{empty_command, bad_tail_size, make_companion, start}
use rules_ostest.Companion.{open_log, spawn, conclude}
use rules_ostest.Companion.{timed_out, wait, poll, call, bad_limit}
use rules_ostest.Base.Int.{ℤ, pos, to_ℕ, is_not_positive, negsuc}
use rules_ostest.Companion.{
  finish, CompanionError, run_one_shot_companion, Outcome, read_log_tail, World, time_out, wait_for,
  Finished, Companion, is_zero, settle, close, call, and_then, terminate_process_group, poll, wait,
  make_result, not_started, still_running, terminate,
}
use rules_ostest.Base.{
  ℕ, ◌-◌, ◌≤◌, ◌≡◌, refl, sym, ap, ◌∙◌, ◌⊎◌, inl, inr, Bool, true, false, not, Option, none, some,
  [], ◌∷◌, ◌++◌, arith, ◌==◌, if◌then◌else◌, lt_cases, Bool-cases, length, take, drop,
  take-append-drop, length-drop, ok-injective, bind-eq-ok, refuse-eq-ok, Result, ok, err,
}

-- A call returns no result.
abbrev Raises : Outcome Finished → Type 0
Raises r = (x : Finished) → ¬ (r.0 ≡ ok x)

-- A result that a call returns has the status, which is 0.
abbrev Returns : ℤ → Outcome Finished → Type 0
Returns status r =
    (x : Finished) → r.0 ≡ ok x → (x.returncode ≡ status) × (is_zero x.returncode ≡ true)

not-ok :
    {e : CompanionError} {x : Finished} → ¬ (Path (Result CompanionError Finished) (err e) (ok x))
not-ok h = cc

and_then-either :
    {A : Type 0} (P : Outcome Finished → Type 0) (r : Outcome A)
    (f : A → Companion → Outcome Finished)
    → ((e : CompanionError) (d : Companion) → P (err e, d))
    → ((a : A) (d : Companion) → P (f a d))
    → P (and_then r f)
and_then-either P (ok a, d) f failed h = h a d
and_then-either P (err e, d) f failed h = failed e d

settle-Returns :
    (w : World) (r : Finished) (c : Companion) → Returns r.returncode (settle w r (ok r, c))
settle-Returns w r c x =
    either_branch
      (λ (q : Outcome Finished).
        q.0 ≡ ok x → (x.returncode ≡ r.returncode) × (is_zero x.returncode ≡ true))
      (is_zero r.returncode)
      (λ null e.
        let same = sym (ok-injective e) in
        (ap (λ q. q.returncode) same, ap (λ q. is_zero q.returncode) same ∙ null))
      (λ other e. absurd (not-ok e))

make_result-status :
    (w : World) (status : ℤ) (c : Companion) (r : Finished)
    → make_result w status c ≡ ok r
    → r.returncode ≡ status
unfolding make_result
make_result-status w status c r h =
    let (_, _, h₁) = bind-eq-ok (read_log_tail (w.log c.history) c.tail_bytes) _ h in
    ap (λ q. q.returncode) (sym (ok-injective h₁))

conclude-Returns : (w : World) (status : ℤ) (d : Companion) → Returns status (conclude w status d)
unfolding conclude
conclude-Returns w status d = by_result (make_result w status d) refl
  where
    by_result :
        (o : Result CompanionError Finished)
        → make_result w status d ≡ o
        → Returns status
            (elim o [ err e ↦ (err e, d) | ok r ↦ settle w r (ok r, record d { result = some r }) ])
    by_result (err e) made x h = absurd (not-ok h)
    by_result (ok r) made x h =
        let (same, null) = settle-Returns w r (record d { result = some r }) x h in
        (same ∙ make_result-status w status d r made, null)

finish-Returns : (w : World) (status : ℤ) (c : Companion) → Returns status (finish w status c)
unfolding finish
finish-Returns w status c =
    and_then-either (Returns status) (terminate_process_group w c) _ (λ e d x h. absurd (not-ok h))
      (λ _ ended. conclude-Returns w status (close ended))

time_out-Raises : (w : World) (c : Companion) → Raises (time_out w c)
unfolding time_out
time_out-Raises w c =
    and_then-either Raises (terminate w c) _ (λ e d x h. not-ok h)
      (λ _ d. status_of (w.polled d.history) d)
  where
    recorded :
        (o : Result CompanionError Finished) (d : Companion)
        → Raises (elim o [
          | err e ↦ (err e, call poll d)
          | ok r ↦ (err (timed_out r), record (call poll d) { result = some r })
        ])
    recorded (err e) d x h = not-ok h
    recorded (ok r) d x h = not-ok h

    status_of :
        (o : Option ℤ) (d : Companion)
        → Raises (elim o [
          | none ↦ (err still_running, call poll d)
          | some status ↦ elim (make_result w status (call poll d)) [
            | err e ↦ (err e, call poll d)
            | ok r ↦ (err (timed_out r), record (call poll d) { result = some r })
          ]
        ])
    status_of none d x h = not-ok h
    status_of (some status) d x h = recorded (make_result w status (call poll d)) d x h

-- A process that was started, whose wait gave the status of the result, 0.
record IsDone (w : World) (c : Companion) (x : Finished) : Type 0 where
  started : c.has_process ≡ true
  status : w.waited c.history ≡ some x.returncode
  null : is_zero x.returncode ≡ true

-- A wait, with no result so far.
wait_for-IsDone :
    (w : World) (timeout : ℤ) (c : Companion) (x : Finished)
    → c.result ≡ none
    → (wait_for w timeout c).0 ≡ ok x
    → IsDone w c x
unfolding wait_for
wait_for-IsDone w timeout c x fresh =
    either_branch P (is_not_positive timeout) (λ _ h. absurd (not-ok h))
      (λ _. subst (λ o. P (of_result o)) (sym fresh) (by_process c.has_process refl))
  where
    P : Outcome Finished → Type 0
    P r = r.0 ≡ ok x → IsDone w c x

    of_wait : Option ℤ → Outcome Finished
    of_wait o = elim o [
      | none ↦ time_out w (call wait c)
      | some status ↦ finish w status (call wait c)
    ]

    of_result : Option Finished → Outcome Finished
    of_result o = elim o [
      | some r ↦ settle w r (ok r, c)
      | none ↦ if not c.has_process then (err not_started, c) else of_wait (w.waited c.history)
    ]

    by_wait : (o : Option ℤ) → w.waited c.history ≡ o → c.has_process ≡ true → P (of_wait o)
    by_wait none e p h = absurd (time_out-Raises w (call wait c) x h)
    by_wait (some status) e p h =
        let (same, null) = finish-Returns w status (call wait c) x h in
        record { started = p; status = e ∙ ap some (sym same); null = null }

    by_process :
        (b : Bool)
        → c.has_process ≡ b
        → P (if not b then (err not_started, c) else of_wait (w.waited c.history))
    by_process true p h = by_wait (w.waited c.history) refl p h
    by_process false p h = absurd (not-ok h)

abbrev fresh_companion : ℤ → Companion
fresh_companion tail_bytes = record {
  tail_bytes = tail_bytes;
  has_process = false;
  is_started = false;
  log_open = false;
  result = none;
  history = [];
}

make_companion-fresh :
    (arguments : ℕ) (tail_bytes : ℤ) (c : Companion)
    → make_companion arguments tail_bytes ≡ ok c
    → c ≡ fresh_companion tail_bytes
unfolding make_companion
make_companion-fresh arguments tail_bytes c e₀ =
    let (_, e₁) = refuse-eq-ok (arguments == 0) empty_command _ e₀ in
    let (_, e₂) = refuse-eq-ok (is_not_positive tail_bytes) bad_tail_size _ e₁ in
    sym (ok-injective e₂)

-- What the system answered to a run that returns `x`.
abbrev HasRun : World → Finished → Type 0
HasRun w x =
    (w.spawned (open_log ∷ []) ≡ true)
    × (w.waited (spawn ∷ open_log ∷ []) ≡ some x.returncode)
    × (is_zero x.returncode ≡ true)

started-HasRun :
    (w : World) (tail_bytes timeout : ℤ) (x : Finished)
    → (and_then (start w (fresh_companion tail_bytes)) (λ _ d. wait_for w timeout d)).0 ≡ ok x
    → HasRun w x
unfolding start
started-HasRun w tail_bytes timeout x =
    either_branch P (not w.is_posix) (λ _ h. absurd (not-ok h))
      (λ _.
        either_branch P (w.spawned (open_log ∷ []))
          (λ spawned h. let v = wait_for-IsDone w timeout _ x refl h in (spawned, v.status, v.null))
          (λ _ h. absurd (not-ok h)))
  where
    P : Outcome (Unit {0}) → Type 0
    P r = (and_then r (λ _ d. wait_for w timeout d)).0 ≡ ok x → HasRun w x

finally-ok :
    (o : Result CompanionError Finished) (r : Outcome (Unit {0})) (x : Finished)
    → (let f : Outcome Finished = and_then r (λ _ d. (o, d)) in f.0 ≡ ok x)
    → o ≡ ok x
finally-ok o (ok u, d) x h = h
finally-ok o (err e, d) x h = absurd (not-ok h)

-- A run of a companion returns a result only if the log was opened, the process was started, the
-- first wait for it gave a status, and that status, which is the one returned, is 0.
pub run_one_shot_companion-zero :
    (w : World) (arguments : ℕ) (tail_bytes timeout : ℤ) (x : Finished) (d : Companion)
    → run_one_shot_companion w arguments tail_bytes timeout ≡ ok (ok x, d)
    → (w.spawned (open_log ∷ []) ≡ true)
      × (w.waited (spawn ∷ open_log ∷ []) ≡ some x.returncode)
      × (x.returncode ≡ pos 0)
unfolding run_one_shot_companion
run_one_shot_companion-zero w arguments tail_bytes timeout x d e₀ =
    let (c, made, e₁) = bind-eq-ok (make_companion arguments tail_bytes) _ e₀ in
    let before = and_then (start w c) (λ _ d. wait_for w timeout d) in
    let returned = finally-ok before.0 (terminate w before.1) x (ap (λ r. r.0) (ok-injective e₁)) in
    let (spawned, status, null) = started-HasRun w tail_bytes timeout x (
      ap (λ k. (and_then (start w k) (λ _ d. wait_for w timeout d)).0)
        (sym (make_companion-fresh arguments tail_bytes c made))
      ∙ returned) in
    (spawned, status, is_zero→ x.returncode null)
  where
    is_zero→ : (z : ℤ) → is_zero z ≡ true → z ≡ pos 0
    is_zero→ (pos n) h = ap pos (ground arith)
    is_zero→ (negsuc n) h = cc

-- The tail of a log has at most as many bytes as the limit and is the end of the log; it has
-- exactly that many unless it is the whole log.
pub read_log_tail-suffix :
    (log : Bytes) (limit : ℤ) (tail : Bytes)
    → read_log_tail (some log) limit ≡ ok tail
    → (length tail ≤ to_ℕ limit)
      × ((front : Bytes) × (log ≡ front ++ tail) × ((front ≡ []) ⊎ (length tail ≡ to_ℕ limit)))
unfolding read_log_tail
read_log_tail-suffix log limit tail h = elim (Bool-cases (is_not_positive limit)) [
  | inl none_wanted ↦ absurd (refused (sym (rw none_wanted refl) ∙ h))
  | inr wanted ↦
      let n = length log - to_ℕ limit in
      let same : drop n log ≡ tail = ok-injective (sym (rw wanted refl) ∙ h) in
      subst
        (λ t.
          (length t ≤ to_ℕ limit)
          × ((front : Bytes) × (log ≡ front ++ t) × ((front ≡ []) ⊎ (length t ≡ to_ℕ limit))))
        same
        (
          omega (arith, length-drop n log),
          (take n log, sym (take-append-drop n log), cut (to_ℕ limit)),
        )
]
  where
    refused : ¬ (Path (Result CompanionError Bytes) (err bad_limit) (ok tail))
    refused e = cc

    cut : (l : ℕ) → (take (length log - l) log ≡ []) ⊎ (length (drop (length log - l) log) ≡ l)
    cut l = elim (lt_cases (length log) l) [
      | inl short ↦ (let all : length log - l ≡ 0 = omega arith in inl (ap (λ k. take k log) all))
      | inr long ↦ inr (omega (arith, length-drop (length log - l) log))
    ]
