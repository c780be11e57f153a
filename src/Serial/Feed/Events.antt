-- ===== src/Serial/Feed/Events.antt =====
-- The events and the well-formed states of the machine.
use rules_ostest.Base.Int.{ℤ}
use rules_ostest.Search.Overlap.{length-last}
use rules_ostest.Serial.Feed.Split.{go_on, go_on-running, extended}
use rules_ostest.Serial.Feed.Stream.{feed_stopped, window, in_range, eq-running, feed-go_on}
use rules_ostest.Serial.Feed.Scan.{any_occurs, found, first_forbidden-found}
use rules_ostest.Base.{
  ◌+◌, ◌-◌, ◌≤◌, ◌<◌, String, ◌≡◌, refl, sym, ap, ◌∙◌, ◌⊎◌, inl, inr, Bool, true, false, not, ◌&&◌,
  Option, none, [], ◌∷◌, arith, Bool-cases, Option-cases, if-cases, length, is_empty, get_or, All,
}
use mathlib.Core.Path.{ap₂, subst}
use rules_ostest.Serial.{Machine, fail_with, empty_phase, phase_at, Reason, overlap_of, running}
use rules_ostest.Serial.Feed.{
  is_running, feed, handle_reset, match_loop, last, first_forbidden, is_true, handle_qmp_event,
  process_exited, timed_out, is_guest_reset, QmpEvent,
}
use rules_ostest.Serial.Feed.Valid.{
  IsValid, current, HasMarkers, reboot-not_last, EndsProperly, All-phase,
}
use rules_ostest.Serial.Feed.Keep.{Keeps, match_loop-Keeps, with_tail}
use text.Mathlib.Text.{◌==◌ as str_eq}
use rules_ostest.Serial.Feed.Loop.{Lasts}
use rules_ostest.Serial.Feed.Settled.{Settled, match_loop-Settled}
use rules_ostest.Bytes.{Bytes}

not-eq-false : (b : Bool) → not b ≡ false → b ≡ true
not-eq-false true h = refl
not-eq-false false h = cc

-- The machine with the tail `t` and what the loop left, for its phase.
Settled-IsValid :
    (m n : Machine) (t : Bytes)
    → IsValid m
    → Keeps m n
    → Settled (phase_at m m.phase_index) n
    → length t ≤ m.forbidden_overlap
    → IsValid (record n { forbidden_tail = t })
Settled-IsValid m n t v k s fits =
    let same : current n ≡ current m =
      ap₂ (λ ps i. (get_or ps i empty_phase).markers) k.phases k.phase_index in
    record {
      phase_in_range =
          subst (λ i. i < length n.phases) (sym k.phase_index)
            (subst (λ ps. m.phase_index < length ps) (sym k.phases) v.phase_in_range);
      phases_have_markers = subst (All HasMarkers) (sym k.phases) v.phases_have_markers;
      phases_end = subst EndsProperly (sym k.phases) v.phases_end;
      marker_in_range =
          subst
            (λ ms.
              (is_running n.outcome ≡ false)
              ⊎ (n.waiting_for_reboot ≡ true)
              ⊎ (n.marker_index < length ms))
            (sym same) s.in_range;
      reboot_has_phase = elim s.reboots [
        | inl go ↦ inl go
        | inr r ↦ inr (
            subst (λ ps. n.phase_index + 1 < length ps) (sym k.phases)
              (subst (λ i. i + 1 < length m.phases) (sym k.phase_index)
                (reboot-not_last m.phases m.phase_index v.phases_end r)))
      ];
      forbidden_nonempty =
          subst (All (λ marker. 0 < length marker)) (sym k.forbidden) v.forbidden_nonempty;
      overlap = k.overlap ∙ v.overlap ∙ ap overlap_of (sym k.forbidden);
      tail_bound = omega (arith, k.overlap);
      buffer_bound =
          subst (λ ms. length n.marker_buffer ≤ length (get_or ms n.marker_index []) - 1) (sym same)
            s.bound;
    }

pub is_empty-nil : (a : Bytes) → is_empty a ≡ true → a ≡ []
is_empty-nil [] h = refl
is_empty-nil (x ∷ a) h = cc

pub feed_empty : (m : Machine) (bytes : Bytes) → is_empty bytes ≡ true → feed bytes m ≡ m
unfolding feed
feed_empty m bytes h = ground arith

pub feed_fails :
    (m : Machine) (bytes : Bytes)
    → m.outcome ≡ running
    → is_empty bytes ≡ false
    → any_occurs m.forbidden (window m bytes) ≡ true
    → (why : Reason) × (feed bytes m ≡ fail_with why m)
unfolding feed
feed_fails m bytes run some_bytes dirty =
    elim (Option-cases (first_forbidden 0 m.forbidden (window m bytes) none)) [
      | inl e ↦ cc (ap found e, first_forbidden-found 0 m.forbidden (window m bytes) none, dirty)
      | inr (hit, e) ↦ (Reason.matched_forbidden hit.marker, ground arith)
    ]

wait_has_phase :
    (m : Machine) → IsValid m → m.waiting_for_reboot ≡ true → m.phase_index + 1 < length m.phases
wait_has_phase m v wait = elim v.reboot_has_phase [ inl go ↦ cc | inr h ↦ h ]

fail_with-IsValid : (why : Reason) (m : Machine) → IsValid m → IsValid (fail_with why m)
fail_with-IsValid why m v = record {
  phase_in_range = v.phase_in_range;
  phases_have_markers = v.phases_have_markers;
  phases_end = v.phases_end;
  marker_in_range = inl refl;
  reboot_has_phase = v.reboot_has_phase;
  forbidden_nonempty = v.forbidden_nonempty;
  overlap = v.overlap;
  tail_bound = v.tail_bound;
  buffer_bound = v.buffer_bound;
}

tail-IsValid :
    (m : Machine) (t : Bytes)
    → IsValid m
    → length t ≤ m.forbidden_overlap
    → IsValid (record m { forbidden_tail = t })
tail-IsValid m t v fits = record {
  phase_in_range = v.phase_in_range;
  phases_have_markers = v.phases_have_markers;
  phases_end = v.phases_end;
  marker_in_range = v.marker_in_range;
  reboot_has_phase = v.reboot_has_phase;
  forbidden_nonempty = v.forbidden_nonempty;
  overlap = v.overlap;
  tail_bound = fits;
  buffer_bound = v.buffer_bound;
}

feed_go_on-IsValid :
    (m : Machine) (bytes t : Bytes)
    → IsValid m
    → m.outcome ≡ running
    → length t ≤ m.forbidden_overlap
    → (let phase = phase_at m m.phase_index in
        IsValid (with_tail t (go_on (length phase.markers) phase bytes m)))
feed_go_on-IsValid m bytes t v run fits =
    let phase = phase_at m m.phase_index in
    elim (Bool-cases m.waiting_for_reboot) [
      | inl wait ↦
          let stay : m ≡ go_on (length phase.markers) phase bytes m = ground arith in
          subst (λ n. IsValid (with_tail t n)) stay (tail-IsValid m t v fits)
      | inr go ↦
          let lasts : Lasts (length phase.markers) phase (extended m bytes) =
            (in_range v.marker_in_range run go, omega arith) in
          subst (λ n. IsValid (with_tail t n))
            (sym (go_on-running (length phase.markers) phase bytes m run go))
            (Settled-IsValid m (match_loop (length phase.markers) phase (extended m bytes)) t v
              (let k = match_loop-Keeps (length phase.markers) phase (extended m bytes) in
                ground arith)
              (match_loop-Settled (length phase.markers) phase (extended m bytes) lasts go) fits)
    ]

pub feed-IsValid : (m : Machine) (bytes : Bytes) → IsValid m → IsValid (feed bytes m)
feed-IsValid m bytes v = elim (Bool-cases (is_running m.outcome)) [
  | inr stopped ↦ subst IsValid (sym (feed_stopped m bytes stopped)) v
  | inl runs ↦
      let run = eq-running m.outcome runs in
      elim (Bool-cases (is_empty bytes)) [
        | inl none_left ↦ subst IsValid (sym (feed_empty m bytes none_left)) v
        | inr some_bytes ↦ elim (Bool-cases (any_occurs m.forbidden (window m bytes))) [
          | inl dirty ↦
              let (why, e) = feed_fails m bytes run some_bytes dirty in
              subst IsValid (sym e) (fail_with-IsValid why m v)
          | inr clean ↦
              subst IsValid
                (sym (feed-go_on m bytes (phase_at m m.phase_index) run some_bytes clean refl))
                (feed_go_on-IsValid m bytes (last m.forbidden_overlap (window m bytes)) v run
                  (length-last m.forbidden_overlap (window m bytes)))
        ]
      ]
]

-- The machine that `handle_reset` leaves when the guest reboots at the end of a phase.
abbrev pub rebooted : Machine → Machine
rebooted m = record m {
  phase_index = m.phase_index + 1;
  marker_index = 0;
  marker_buffer = [];
  waiting_for_reboot = false;
  reason =
      Reason.entered_phase (m.phase_index + 2)
        (get_or (phase_at m (m.phase_index + 1)).markers 0 []);
}

rebooted-IsValid : (m : Machine) → IsValid m → m.waiting_for_reboot ≡ true → IsValid (rebooted m)
rebooted-IsValid m v wait =
    let next : m.phase_index + 1 < length m.phases = wait_has_phase m v wait in
    record {
      phase_in_range = next;
      phases_have_markers = v.phases_have_markers;
      phases_end = v.phases_end;
      marker_in_range =
          inr (inr (All-phase m.phases (m.phase_index + 1) v.phases_have_markers next).0);
      reboot_has_phase = inl refl;
      forbidden_nonempty = v.forbidden_nonempty;
      overlap = v.overlap;
      tail_bound = v.tail_bound;
      buffer_bound = omega arith;
    }

pub handle_reset-IsValid :
    (m : Machine) (guest : Option Bool) (why : Option String)
    → IsValid m
    → IsValid (handle_reset guest why m)
unfolding handle_reset
handle_reset-IsValid m guest why v =
    if-cases IsValid (not (is_running m.outcome)) _ _ (λ _. v)
      (λ _.
        if-cases IsValid (not (is_true guest) && not (is_guest_reset why)) _ _
          (λ _. fail_with-IsValid _ m v)
          (λ _.
            if-cases IsValid (not m.waiting_for_reboot) _ _ (λ _. fail_with-IsValid _ m v)
              (λ h. rebooted-IsValid m v (not-eq-false m.waiting_for_reboot h))))

pub handle_qmp_event-IsValid :
    (m : Machine) (e : QmpEvent) → IsValid m → IsValid (handle_qmp_event e m)
unfolding handle_qmp_event
handle_qmp_event-IsValid m e v =
    if-cases IsValid (str_eq e.event "RESET") _ _ (λ _. handle_reset-IsValid m e.guest e.reason v)
      (λ _. v)

pub process_exited-IsValid : (m : Machine) (code : ℤ) → IsValid m → IsValid (process_exited code m)
unfolding process_exited
process_exited-IsValid m code v =
    if-cases IsValid (is_running m.outcome) _ _ (λ _. fail_with-IsValid _ m v) (λ _. v)

pub timed_out-IsValid : (m : Machine) (seconds : String) → IsValid m → IsValid (timed_out seconds m)
unfolding timed_out
timed_out-IsValid m seconds v =
    if-cases IsValid (is_running m.outcome) _ _ (λ _. fail_with-IsValid _ m v) (λ _. v)
