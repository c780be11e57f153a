-- ===== src/Serial/Feed/Stream.antt =====
-- `feed` as the search for forbidden markers and then the loop over the markers.
use mathlib.Core.List.{append_assoc}
use rules_ostest.Serial.Feed.Valid.{IsValid, All-phase}
use mathlib.Core.Path.{subst}
use rules_ostest.Serial.Feed.Loop.{wanted, loop_waits, loop_goes_on, matched, loop_finishes}
use rules_ostest.Serial.Feed.Split.{go_on-running, extended, go_on, loop_append}
use rules_ostest.Serial.Feed.Keep.{with_tail, match_loop-with_tail, Keeps, match_loop-Keeps}
use rules_ostest.Base.{
  ℕ, zero, suc, ◌+◌, ◌≡◌, refl, sym, ap, ◌∙◌, ◌⊎◌, inl, inr, Bool, true, false, none, ◌++◌, arith,
  lt_cases, Bool-cases, Option-cases, length, is_empty,
}
use rules_ostest.Bytes.{Bytes}
use rules_ostest.Search.{last, find}
use rules_ostest.Serial.{
  pass, Machine, AssertionOutcome, running, fail, phase_at, AssertionPhase, result,
}
use rules_ostest.Serial.Feed.{feed_markers, feed, finish_phase, match_loop, is_running}
use rules_ostest.Serial.Feed.Scan.{any_occurs, first_forbidden-found}

abbrev pub is_fail : AssertionOutcome → Bool
is_fail fail = true
is_fail _ = false

abbrev pub window : Machine → Bytes → Bytes
window m bytes = m.forbidden_tail ++ bytes

-- The machine with the end of the window kept.
abbrev pub kept : Machine → Bytes → Machine
kept m bytes = record m { forbidden_tail = last m.forbidden_overlap (window m bytes) }

pub feed_clean :
    (m : Machine) (bytes : Bytes)
    → m.outcome ≡ running
    → is_empty bytes ≡ false
    → any_occurs m.forbidden (window m bytes) ≡ false
    → feed bytes m ≡ feed_markers bytes (kept m bytes)
unfolding feed
feed_clean m bytes run some_bytes clean =
    ground (arith, first_forbidden-found 0 m.forbidden (window m bytes) none)

pub feed_dirty :
    (m : Machine) (bytes : Bytes)
    → m.outcome ≡ running
    → is_empty bytes ≡ false
    → any_occurs m.forbidden (window m bytes) ≡ true
    → (feed bytes m).outcome ≡ fail
unfolding feed
feed_dirty m bytes run some_bytes dirty =
    ground (arith, first_forbidden-found 0 m.forbidden (window m bytes) none)

finish_phase-is_fail :
    (phase : AssertionPhase) (m : Machine)
    → m.outcome ≡ running
    → is_fail (finish_phase phase m).outcome ≡ false
unfolding finish_phase
finish_phase-is_fail phase m run = ground arith

pub match_loop-is_fail :
    (fuel : ℕ) (phase : AssertionPhase) (m : Machine)
    → m.outcome ≡ running
    → is_fail (match_loop fuel phase m).outcome ≡ false
unfolding match_loop
match_loop-is_fail zero phase m run = ground arith
match_loop-is_fail (suc fuel) phase m run =
    elim (Option-cases (find (wanted phase m) m.marker_buffer)) [
      | inl e ↦ ap (λ k. is_fail k.outcome) (loop_waits fuel phase m e) ∙ ap is_fail run
      | inr (p, e) ↦ elim (lt_cases (m.marker_index + 1) (length phase.markers)) [
        | inl more ↦
            ap (λ k. is_fail k.outcome) (loop_goes_on fuel phase m p e more)
            ∙ match_loop-is_fail fuel phase (matched phase m p) run
        | inr done ↦
            ap (λ k. is_fail k.outcome) (loop_finishes fuel phase m p e done)
            ∙ finish_phase-is_fail phase (matched phase m p) run
      ]
    ]

pub feed_markers-is_fail :
    (bytes : Bytes) (m : Machine)
    → m.outcome ≡ running
    → is_fail (feed_markers bytes m).outcome ≡ false
unfolding feed_markers
feed_markers-is_fail bytes m run =
    let phase = phase_at m m.phase_index in
    ground (arith, match_loop-is_fail (length phase.markers) phase (extended m bytes) run)

pub feed-go_on :
    (m : Machine) (bytes : Bytes) (phase : AssertionPhase)
    → m.outcome ≡ running
    → is_empty bytes ≡ false
    → any_occurs m.forbidden (window m bytes) ≡ false
    → phase_at m m.phase_index ≡ phase
    → feed bytes m
      ≡ with_tail
          (last m.forbidden_overlap (window m bytes))
          (go_on (length phase.markers) phase bytes m)
unfolding feed_markers
feed-go_on m bytes phase run some_bytes clean here =
    feed_clean m bytes run some_bytes clean
    ∙ subst
        (λ p.
          feed_markers bytes (kept m bytes)
          ≡ with_tail (last m.forbidden_overlap (window m bytes))
              (go_on (length p.markers) p bytes m))
        here
        (let p = phase_at m m.phase_index in
          ground (
            arith,
            match_loop-with_tail (last m.forbidden_overlap (window m bytes)) (length p.markers) p
                (extended m bytes),
          ))

pub go_on-with_tail :
    (t : Bytes) (fuel : ℕ) (phase : AssertionPhase) (bytes : Bytes) (m : Machine)
    → go_on fuel phase bytes (with_tail t m) ≡ with_tail t (go_on fuel phase bytes m)
go_on-with_tail t fuel phase bytes m =
    ground (arith, match_loop-with_tail t fuel phase (extended m bytes))

pub go_on-Keeps :
    (fuel : ℕ) (phase : AssertionPhase) (bytes : Bytes) (m : Machine)
    → Keeps m (go_on fuel phase bytes m)
go_on-Keeps fuel phase bytes m =
    let k = match_loop-Keeps fuel phase (extended m bytes) in ground arith

pub in_range :
    {P : Type 0} {outcome : AssertionOutcome} {wait : Bool}
    → (is_running outcome ≡ false) ⊎ (wait ≡ true) ⊎ P
    → outcome ≡ running
    → wait ≡ false
    → P
in_range (inl h) run go = cc
in_range (inr (inl h)) run go = cc
in_range (inr (inr p)) run go = p

-- Two parts of the stream, behind the search for forbidden markers.
pub go_on-append :
    (m : Machine) (a b : Bytes)
    → IsValid m
    → m.outcome ≡ running
    → (let phase = phase_at m m.phase_index in
        go_on (length phase.markers) phase (a ++ b) m
        ≡ go_on (length phase.markers) phase b (go_on (length phase.markers) phase a m))
go_on-append m a b v run =
    let phase = phase_at m m.phase_index in
    let fits = (All-phase m.phases m.phase_index v.phases_have_markers v.phase_in_range).1 in
    elim (Bool-cases m.waiting_for_reboot) [
      | inl wait ↦ ground arith
      | inr go ↦
          go_on-running (length phase.markers) phase (a ++ b) m run go
          ∙ ap (λ l. match_loop (length phase.markers) phase (record m { marker_buffer = l }))
              (sym (append_assoc m.marker_buffer a b))
          ∙ loop_append phase b (length phase.markers) (length phase.markers) (extended m a) fits
              (in_range v.marker_in_range run go, omega arith) (omega arith) run go
          ∙ ap (go_on (length phase.markers) phase b)
              (sym (go_on-running (length phase.markers) phase a m run go))
    ]

pub eq-running : (o : AssertionOutcome) → is_running o ≡ true → o ≡ running
eq-running running h = refl
eq-running pass h = cc
eq-running fail h = cc

pub feed_stopped : (m : Machine) (bytes : Bytes) → is_running m.outcome ≡ false → feed bytes m ≡ m
unfolding feed
feed_stopped m bytes h = ground arith

-- A chunk cannot be told from its two parts.
pub result-feed :
    (m : Machine) (bytes : Bytes) (phase : AssertionPhase)
    → any_occurs m.forbidden (window m bytes) ≡ false
    → phase_at m m.phase_index ≡ phase
    → is_empty bytes ≡ false
    → result (feed bytes m) ≡ result (go_on (length phase.markers) phase bytes m)
result-feed m bytes phase clean here some_bytes = elim (Bool-cases (is_running m.outcome)) [
  | inl run ↦ ap result (feed-go_on m bytes phase (eq-running m.outcome run) some_bytes clean here)
  | inr stopped ↦ ap result (feed_stopped m bytes stopped) ∙ ground arith
]
