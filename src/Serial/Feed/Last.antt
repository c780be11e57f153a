-- ===== src/Serial/Feed/Last.antt =====
-- A machine in its last phase, which waits for no reboot.
use rules_ostest.Serial.Feed.Stream.{window, feed-go_on}
use rules_ostest.Serial.Feed.Split.{go_on, extended, go_on-running}
use rules_ostest.Serial.Feed.Scan.{any_occurs}
use rules_ostest.Serial.Feed.Loop.{wanted, loop_waits, loop_goes_on, matched, loop_finishes}
use rules_ostest.Serial.Feed.Events.{feed_empty, feed_fails}
use rules_ostest.Serial.Feed.Keep.{with_tail, match_loop-Keeps}
use rules_ostest.Serial.Feed.{finish_phase, match_loop, feed}
use rules_ostest.Bytes.{Bytes}
use rules_ostest.Serial.{complete, running, Machine, phase_at, AssertionPhase, empty_phase}
use rules_ostest.Search.{find, last}
use mathlib.Core.Path.{ap₂, subst}
use rules_ostest.Base.{
  ℕ, zero, suc, ◌+◌, ◌≡◌, refl, sym, ap, ◌∙◌, inl, inr, false, lt_cases, Bool-cases, Option-cases,
  length, is_empty, get_or,
}

pub record IsLast (m : Machine) : Type 0 where
  pub not_waiting : m.waiting_for_reboot ≡ false
  pub completes : (phase_at m m.phase_index).then_do ≡ complete

finish_phase-not_waiting :
    (phase : AssertionPhase) (m : Machine)
    → phase.then_do ≡ complete
    → (finish_phase phase m).waiting_for_reboot ≡ m.waiting_for_reboot
unfolding finish_phase
finish_phase-not_waiting phase m h = rw h refl

match_loop-not_waiting :
    (fuel : ℕ) (phase : AssertionPhase) (m : Machine)
    → phase.then_do ≡ complete
    → (match_loop fuel phase m).waiting_for_reboot ≡ m.waiting_for_reboot
unfolding match_loop
match_loop-not_waiting zero phase m h = refl
match_loop-not_waiting (suc fuel) phase m h =
    elim (Option-cases (find (wanted phase m) m.marker_buffer)) [
      | inl e ↦ ap (λ k. k.waiting_for_reboot) (loop_waits fuel phase m e)
      | inr (p, e) ↦ elim (lt_cases (m.marker_index + 1) (length phase.markers)) [
        | inl more ↦
            ap (λ k. k.waiting_for_reboot) (loop_goes_on fuel phase m p e more)
            ∙ match_loop-not_waiting fuel phase (matched phase m p) h
        | inr done ↦
            ap (λ k. k.waiting_for_reboot) (loop_finishes fuel phase m p e done)
            ∙ finish_phase-not_waiting phase (matched phase m p) h
      ]
    ]

IsLast-same :
    (m n : Machine)
    → n.waiting_for_reboot ≡ m.waiting_for_reboot
    → n.phases ≡ m.phases
    → n.phase_index ≡ m.phase_index
    → IsLast m
    → IsLast n
IsLast-same m n waiting phases index v = record {
  not_waiting = waiting ∙ v.not_waiting;
  completes = ap₂ (λ ps i. (get_or ps i empty_phase).then_do) phases index ∙ v.completes;
}

go_on-IsLast :
    (t bytes : Bytes) (m : Machine)
    → m.outcome ≡ running
    → IsLast m
    → (let phase = phase_at m m.phase_index in
        IsLast (with_tail t (go_on (length phase.markers) phase bytes m)))
go_on-IsLast t bytes m run v =
    let phase = phase_at m m.phase_index in
    let loop = match_loop (length phase.markers) phase (extended m bytes) in
    let k = match_loop-Keeps (length phase.markers) phase (extended m bytes) in
    subst (λ n. IsLast (with_tail t n))
      (sym (go_on-running (length phase.markers) phase bytes m run v.not_waiting))
      (IsLast-same m (with_tail t loop)
        (match_loop-not_waiting (length phase.markers) phase (extended m bytes) v.completes)
        k.phases k.phase_index v)

pub feed-IsLast :
    (bytes : Bytes) (m : Machine) → m.outcome ≡ running → IsLast m → IsLast (feed bytes m)
feed-IsLast bytes m run v = elim (Bool-cases (is_empty bytes)) [
  | inl e ↦ subst IsLast (sym (feed_empty m bytes e)) v
  | inr e ↦ elim (Bool-cases (any_occurs m.forbidden (window m bytes))) [
    | inl dirty ↦
        let (why, f) = feed_fails m bytes run e dirty in
        subst IsLast (sym f) (record { not_waiting = v.not_waiting; completes = v.completes })
    | inr clean ↦
        subst IsLast (sym (feed-go_on m bytes (phase_at m m.phase_index) run e clean refl))
          (go_on-IsLast (last m.forbidden_overlap (window m bytes)) bytes m run v)
  ]
]
