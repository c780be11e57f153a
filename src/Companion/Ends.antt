-- ===== src/Companion/Ends.antt =====
-- How the companion is left behind.
use mathlib.Core.Path.{subst}
use rules_ostest.Base.Int.{ℤ}
use rules_ostest.Companion.{
  World, Call, terminate_process_group, Companion, grace_loop, call, term, close, reap, terminate,
  Outcome, wait_expired, not_permitted, and_then, CompanionError, run_one_shot_companion, Finished,
  make_companion, start, wait_for, signal, kill_group, end_process,
}
use rules_ostest.Companion.{
  Call, close_log, wait, poll, probe, term, kill, call, World, Companion, grace_loop,
  terminate_process_group,
}
use rules_ostest.Base.{
  ℕ, ◌≡◌, refl, sym, ap, ◌∙◌, ◌⊎◌, inl, inr, Bool, true, false, not, Option, none, some, List, [],
  ◌∷◌, if◌then◌else◌, ok-injective, bind-eq-ok, Result, ok, err,
}

-- The group of the process has been found gone, or a SIGKILL to it has not failed, and nothing was done
-- to it since.
abbrev pub IsCleared : World → List Call → Type 0
IsCleared w [] = ⊥
IsCleared w (kill ∷ h) = w.signalled h ≡ true
IsCleared w (probe ∷ h) = w.group_alive h ≡ false
IsCleared w (close_log ∷ h) = IsCleared w h
IsCleared w (poll ∷ h) = IsCleared w h
IsCleared w (wait ∷ h) = IsCleared w h
IsCleared w (_ ∷ h) = ⊥

pub true-not-false : ¬ (true ≡ false)
true-not-false e = cc

-- Both branches of a test.
pub either_branch {ℓ κ} :
    {A : Type ℓ} (P : A → Type κ) (b : Bool) {x y : A}
    → (b ≡ true → P x)
    → (b ≡ false → P y)
    → P (if b then x else y)
either_branch P true f g = f refl
either_branch P false f g = g refl

not-true : {b : Bool} → not b ≡ true → b ≡ false
not-true {b = true} h = cc
not-true {b = false} h = refl

not-false : {b : Bool} → not b ≡ false → b ≡ true
not-false {b = true} h = refl
not-false {b = false} h = cc

abbrev elim_error :
    Result CompanionError Finished
    → Result CompanionError (Unit {0})
    → Result CompanionError Finished
elim_error o (ok u) = o
elim_error o (err e) = err e

-- The wait behind SIGKILL has expired, or a signal was not permitted.
abbrev pub Fails {ℓ} : {A : Type ℓ} → Result CompanionError A → Type ℓ
Fails r = (r ≡ err wait_expired) ⊎ (r ≡ err not_permitted)

module _ (w : World) where
  -- The log is closed, and a process that was started is gone with its group.
  pub record IsEnded (d : Companion) : Type 0 where
    pub closed : d.log_open ≡ false
    pub cleared : d.has_process ≡ true → IsCleared w d.history

  -- A method that returns leaves such a state.
  abbrev Leaves : (Companion → Type 0) → Outcome (Unit {0}) → Type 0
  Leaves Q r = Fails r.0 ⊎ ((r.0 ≡ ok tt) × Q r.1)

  and_then-Leaves :
      (P Q : Companion → Type 0) (r : Outcome (Unit {0}))
      (f : Unit {0} → Companion → Outcome (Unit {0}))
      → Leaves P r
      → ((d : Companion) → P d → Leaves Q (f tt d))
      → Leaves Q (and_then r f)
  and_then-Leaves P Q (ok u, d) f (inl (inl e)) k = cc
  and_then-Leaves P Q (ok u, d) f (inl (inr e)) k = cc
  and_then-Leaves P Q (ok u, d) f (inr (e, h)) k = k d h
  and_then-Leaves P Q (err x, d) f (inl e) k = inl e
  and_then-Leaves P Q (err x, d) f (inr (e, h)) k = cc

  close-IsEnded :
      (c : Companion) → (c.has_process ≡ true → IsCleared w c.history) → IsEnded (close c)
  close-IsEnded c h =
      either_branch IsEnded c.log_open (λ _. record { closed = refl; cleared = h })
        (λ e. record { closed = e; cleared = h })

  abbrev Cleared : Companion → Type 0
  Cleared d = IsCleared w d.history

  -- A signal that does not fail.
  signal-Leaves :
      (k : Call) (c : Companion)
      → Leaves (λ d. (w.signalled c.history ≡ true) × (d ≡ call k c)) (signal w k c)
  signal-Leaves k c = by_answer (w.signalled c.history) refl
    where
      by_answer :
          (b : Bool)
          → w.signalled c.history ≡ b
          → Leaves
              (λ d. (w.signalled c.history ≡ true) × (d ≡ call k c))
              (if b then ok tt else err not_permitted, call k c)
      by_answer true e = inr (refl, (e, refl))
      by_answer false e = inl (inr refl)

  kill-Leaves : (c : Companion) → Leaves Cleared (signal w kill c)
  kill-Leaves c = elim (signal-Leaves kill c) [
    | inl failed ↦ inl failed
    | inr (e, (permitted, same)) ↦ inr (e, permitted)
  ]

  kill_group-Leaves : (c : Companion) → Leaves Cleared (kill_group w c)
  unfolding kill_group
  kill_group-Leaves c =
      either_branch (Leaves Cleared) (w.group_alive c.history) (λ _. kill-Leaves (call probe c))
        (λ gone. inr (refl, gone))

  group-Leaves :
      (c : Companion) → c.has_process ≡ true → Leaves Cleared (terminate_process_group w c)
  unfolding terminate_process_group
  group-Leaves c h =
      either_branch (Leaves Cleared) (not c.has_process)
        (λ e. absurd (true-not-false (sym h ∙ not-true e)))
        (λ _.
          either_branch (Leaves Cleared) (not (w.group_alive c.history))
            (λ gone. inr (refl, not-true gone))
            (λ _.
              and_then-Leaves
                (λ d. (w.signalled (call probe c).history ≡ true) × (d ≡ call term (call probe c)))
                Cleared (signal w term (call probe c))
                (λ _ asked. kill_group w (grace_loop w (w.rounds asked.history) asked))
                (signal-Leaves term (call probe c))
                (λ asked _. kill_group-Leaves (grace_loop w (w.rounds asked.history) asked))))

  -- The second wait, behind SIGKILL.
  killed-Leaves :
      (o : Option ℤ) (d : Companion)
      → Cleared d
      → Leaves Cleared
          (elim o [ some status ↦ (ok tt, call wait d) | none ↦ (err wait_expired, call wait d) ])
  killed-Leaves none d h = inl (inl refl)
  killed-Leaves (some status) d h = inr (refl, h)

  reap-Leaves : (c : Companion) → Cleared c → Leaves Cleared (reap w c)
  unfolding reap
  reap-Leaves c h = by_status (w.waited c.history)
    where
      by_status :
          (o : Option ℤ)
          → Leaves Cleared (elim o [
            | some status ↦ (ok tt, call wait c)
            | none ↦ and_then (signal w kill (call wait c)) (λ _ killed.
                elim (w.waited killed.history) [
                  | some status ↦ (ok tt, call wait killed)
                  | none ↦ (err wait_expired, call wait killed)
                ])
          ])
      by_status (some status) = inr (refl, h)
      by_status none =
          and_then-Leaves Cleared Cleared (signal w kill (call wait c)) _
            (kill-Leaves (call wait c)) (λ d cleared. killed-Leaves (w.waited d.history) d cleared)

  polled-Leaves :
      (o : Option ℤ) (c : Companion)
      → Cleared c
      → Leaves Cleared (elim o [ some status ↦ (ok tt, call poll c) | none ↦ reap w (call poll c) ])
  polled-Leaves none c h = reap-Leaves (call poll c) h
  polled-Leaves (some status) c h = inr (refl, h)

  end_process-Leaves : (c : Companion) → Cleared c → Leaves IsEnded (end_process w c)
  unfolding end_process
  end_process-Leaves c h =
      and_then-Leaves Cleared IsEnded _ (λ _ d. (ok tt, close d))
        (polled-Leaves (w.polled c.history) c h)
        (λ d cleared. inr (refl, close-IsEnded d (λ _. cleared)))

  terminate-Leaves : (c : Companion) → Leaves IsEnded (terminate w c)
  unfolding terminate
  terminate-Leaves c =
      either_branch (Leaves IsEnded) (not c.has_process)
        (λ none_there. inr (
          refl,
          close-IsEnded c (λ there. absurd (true-not-false (sym there ∙ not-true none_there))),
        ))
        (λ there.
          and_then-Leaves Cleared IsEnded (terminate_process_group w c)
            (λ _ ended. end_process w ended) (group-Leaves c (not-false there)) end_process-Leaves)

  finally-IsEnded :
      (o : Result CompanionError Finished) (r : Outcome (Unit {0}))
      → Leaves IsEnded r
      → (let f : Outcome Finished = and_then r (λ _ d. (o, d)) in Fails f.0 ⊎ IsEnded f.1)
  finally-IsEnded o (ok u, d) (inl (inl e)) = cc
  finally-IsEnded o (ok u, d) (inl (inr e)) = cc
  finally-IsEnded o (ok u, d) (inr (e, h)) = inr h
  finally-IsEnded o (err x, d) (inl (inl e)) = inl (inl (ap (elim_error o) e))
  finally-IsEnded o (err x, d) (inl (inr e)) = inl (inr (ap (elim_error o) e))
  finally-IsEnded o (err x, d) (inr (e, h)) = cc

  -- However a run of a companion ends, unless the process outlives the wait behind SIGKILL or a
  -- signal is not permitted, the log is closed, and of a process that was started the group has
  -- been found gone or has been killed since it was last signalled.
  pub run_one_shot_companion-IsEnded :
      (arguments : ℕ) (tail_bytes timeout : ℤ) (r : Outcome Finished)
      → run_one_shot_companion w arguments tail_bytes timeout ≡ ok r
      → Fails r.0 ⊎ IsEnded r.1
  unfolding run_one_shot_companion
  run_one_shot_companion-IsEnded arguments tail_bytes timeout r e₀ =
      let (c, _, e₁) = bind-eq-ok (make_companion arguments tail_bytes) _ e₀ in
      let before = and_then (start w c) (λ _ d. wait_for w timeout d) in
      subst (λ q. Fails q.0 ⊎ IsEnded q.1) (ok-injective e₁)
        (finally-IsEnded before.0 (terminate w before.1) (terminate-Leaves before.1))
