-- ===== src/Serial/Made.antt =====
-- The constructors of `AssertionPhase` and `SerialAssertionMachine`.
use mathlib.Core.Path.{subst, ap₂}
use rules_ostest.Base.{
  ℕ, ◌+◌, ◌<◌, String, ◌≡◌, refl, sym, ap, ◌∙◌, inl, inr, true, false, List, [], ◌∷◌, map, arith,
  Bool-cases, length, is_empty, All, ok-injective, bind-eq-ok, guard-eq-ok, refuse-eq-ok, ok,
}
use rules_ostest.Bytes.{Bytes}
use rules_ostest.Serial.{
  Machine, AssertionPhase, Marker, make_machine, all_marker_bytes, check_transitions, complete,
  reboot, same_transition, marker_bytes, make_phase, PhaseTransition, no_markers, no_phases,
  waiting_first, encode, overlap_of, running, ordered,
}
use rules_ostest.Serial.Feed.Valid.{IsValid, HasMarkers, EndsProperly, All-phase}

is_empty-pos : {A : Type 0} (xs : List A) → is_empty xs ≡ false → 0 < length xs
is_empty-pos [] h = cc
is_empty-pos (x ∷ xs) h = omega arith

module _ (utf8 : String → Bytes) where
  marker_bytes-nonempty :
      (marker : Marker) (bytes : Bytes) → marker_bytes utf8 marker ≡ ok bytes → 0 < length bytes
  unfolding marker_bytes
  marker_bytes-nonempty marker bytes h = elim (Bool-cases (is_empty (encode utf8 marker))) [
    | inl e ↦ ground arith
    | inr e ↦ ground (arith, is_empty-pos (encode utf8 marker) e)
  ]

  all_marker_bytes-nonempty :
      (markers : List Marker) (all : List Bytes)
      → all_marker_bytes utf8 markers ≡ ok all
      → All (λ marker. 0 < length marker) all
  unfolding all_marker_bytes
  all_marker_bytes-nonempty [] all h = subst (All (λ marker. 0 < length marker)) (ok-injective h) tt
  all_marker_bytes-nonempty (marker ∷ markers) all h =
      let (bytes, one, h₁) = bind-eq-ok (marker_bytes utf8 marker) _ h in
      let (rest, more, h₂) = bind-eq-ok (all_marker_bytes utf8 markers) _ h₁ in
      subst (All (λ marker. 0 < length marker)) (ok-injective h₂)
        (marker_bytes-nonempty marker bytes one, all_marker_bytes-nonempty markers rest more)

  pub make_phase-HasMarkers :
      (markers : List Marker) (then_do : PhaseTransition) (phase : AssertionPhase)
      → make_phase utf8 markers then_do ≡ ok phase
      → HasMarkers phase
  unfolding make_phase
  make_phase-HasMarkers markers then_do phase h =
      let (all, made, h₁) = bind-eq-ok (all_marker_bytes utf8 markers) _ h in
      let (some_markers, h₂) = refuse-eq-ok (is_empty all) no_markers _ h₁ in
      subst HasMarkers (ok-injective h₂)
        (is_empty-pos all some_markers, all_marker_bytes-nonempty markers all made)

eq-same_transition : (a b : PhaseTransition) → same_transition a b ≡ true → a ≡ b
eq-same_transition complete complete h = refl
eq-same_transition reboot reboot h = refl
eq-same_transition complete reboot h = cc
eq-same_transition reboot complete h = cc

check_transitions-EndsProperly :
    (index : ℕ) (phases : List AssertionPhase)
    → check_transitions index phases ≡ ok tt
    → EndsProperly phases
unfolding check_transitions
check_transitions-EndsProperly index [] h = tt
check_transitions-EndsProperly index (p ∷ []) h =
    eq-same_transition p.then_do complete (guard-eq-ok _ _ _ h).0
check_transitions-EndsProperly index (p ∷ q ∷ ps) h =
    let (first, rest) = guard-eq-ok _ _ _ h in
    (
      eq-same_transition p.then_do reboot first,
      check_transitions-EndsProperly (index + 1) (q ∷ ps) rest,
    )

-- The machine that the constructor leaves.
abbrev pub fresh : List AssertionPhase → List Bytes → Machine
fresh phases forbidden = record {
  phases = phases;
  forbidden = forbidden;
  forbidden_overlap = overlap_of forbidden;
  forbidden_tail = [];
  marker_buffer = [];
  phase_index = 0;
  marker_index = 0;
  waiting_for_reboot = false;
  outcome = running;
  reason = waiting_first;
}

fresh-IsValid :
    (phases : List AssertionPhase) (forbidden : List Bytes)
    → 0 < length phases
    → All HasMarkers phases
    → EndsProperly phases
    → All (λ marker. 0 < length marker) forbidden
    → IsValid (fresh phases forbidden)
fresh-IsValid phases forbidden some_phases have ends big = record {
  phase_in_range = some_phases;
  phases_have_markers = have;
  phases_end = ends;
  marker_in_range = inr (inr (All-phase phases 0 have some_phases).0);
  reboot_has_phase = inl refl;
  forbidden_nonempty = big;
  overlap = refl;
  tail_bound = omega arith;
  buffer_bound = omega arith;
}

-- A machine that is made without an error, of phases that each have a marker and no empty marker,
-- is valid.
pub make_machine-IsValid :
    (utf8 : String → Bytes) (phases : List AssertionPhase) (forbidden : List Marker) (m : Machine)
    → All HasMarkers phases
    → make_machine utf8 phases forbidden ≡ ok m
    → IsValid m
unfolding make_machine
make_machine-IsValid utf8 phases forbidden m have h =
    let (some_phases, h₁) = refuse-eq-ok (is_empty phases) no_phases _ h in
    let (checked, ends, h₂) = bind-eq-ok (check_transitions 0 phases) _ h₁ in
    let (all, made, h₃) = bind-eq-ok (all_marker_bytes utf8 forbidden) _ h₂ in
    subst IsValid (ok-injective h₃) (
      fresh-IsValid phases all (is_empty-pos phases some_phases) have
        (check_transitions-EndsProperly 0 phases ends)
        (all_marker_bytes-nonempty utf8 forbidden all made))

module _ (utf8 : String → Bytes) where
  all_marker_bytes-map :
      (markers : List Marker) (all : List Bytes)
      → all_marker_bytes utf8 markers ≡ ok all
      → map (encode utf8) markers ≡ all
  unfolding all_marker_bytes marker_bytes
  all_marker_bytes-map [] all h = ok-injective h
  all_marker_bytes-map (marker ∷ markers) all h =
      let (bytes, one, h₁) = bind-eq-ok (marker_bytes utf8 marker) _ h in
      let (rest, more, h₂) = bind-eq-ok (all_marker_bytes utf8 markers) _ h₁ in
      let same : encode utf8 marker ≡ bytes = elim (Bool-cases (is_empty (encode utf8 marker))) [
        | inl e ↦ ground arith
        | inr e ↦ ground arith
      ] in
      ap₂ (◌∷◌) same (all_marker_bytes-map markers rest more) ∙ ok-injective h₂

  -- The machine that is made for markers in order.
  pub ordered-fresh :
      (markers forbidden : List Marker) (m : Machine)
      → ordered utf8 markers forbidden ≡ ok m
      → (phase : AssertionPhase) × (phase.markers ≡ map (encode utf8) markers)
        × (phase.then_do ≡ complete)
        × HasMarkers phase
        × IsValid m
        × (m ≡ fresh (phase ∷ []) (map (encode utf8) forbidden))
  unfolding ordered make_machine make_phase
  ordered-fresh markers forbidden m h =
      let (phase, made, h₁) = bind-eq-ok (make_phase utf8 markers complete) _ h in
      let have = make_phase-HasMarkers utf8 markers complete phase made in
      let (some_phases, h₂) = refuse-eq-ok (is_empty (phase ∷ [])) no_phases _ h₁ in
      let (checked, ends, h₃) = bind-eq-ok (check_transitions 0 (phase ∷ [])) _ h₂ in
      let (all, encoded, h₄) = bind-eq-ok (all_marker_bytes utf8 forbidden) _ h₃ in
      let (bytes, one, k₁) = bind-eq-ok (all_marker_bytes utf8 markers) _ made in
      let (some_markers, k₂) = refuse-eq-ok (is_empty bytes) no_markers _ k₁ in
      let same = ok-injective k₂ in
      (
        phase,
        sym (ap (λ p. p.markers) same) ∙ sym (all_marker_bytes-map markers bytes one),
        sym (ap (λ p. p.then_do) same),
        have,
        make_machine-IsValid utf8 (phase ∷ []) forbidden m (have, tt) h₁,
        sym (ok-injective h₄)
            ∙ ap (fresh (phase ∷ [])) (sym (all_marker_bytes-map forbidden all encoded)),
      )
