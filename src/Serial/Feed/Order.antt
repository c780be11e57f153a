-- ===== src/Serial/Feed/Order.antt =====
-- A machine of one phase against an independent reading of its plan.
use rules_ostest.Serial.Feed.Split.{extended}
use rules_ostest.Serial.Feed.Chunks.{feed_nothing, join, feed_all, feed_all-join}
use rules_ostest.Serial.Feed.Events.{is_empty-nil}
use rules_ostest.Serial.Feed.Stream.{feed_clean, is_fail, feed_markers-is_fail, kept}
use rules_ostest.Serial.Feed.Valid.{HasMarkers}
use rules_ostest.Serial.Feed.Scan.{any_occurs}
use rules_ostest.Serial.Feed.Loop.{loop_waits, loop_finishes, matched, loop_goes_on}
use mathlib.Core.Path.{subst}
use rules_ostest.Serial.{AssertionPhase, pass, Machine, complete, Marker, ordered, encode, result}
use rules_ostest.Serial.Made.{fresh, ordered-fresh}
use rules_ostest.Bytes.{Bytes}
use rules_ostest.Search.{find}
use rules_ostest.Search.Order.{InOrder, InOrder-find, find-InOrder, none-some, some-injective}
use rules_ostest.Serial.Feed.{match_loop, running, finish_phase, feed, feed_markers}
use rules_ostest.Base.{
  ℕ, zero, suc, ◌+◌, ◌<◌, String, ◌≡◌, refl, sym, ap, ◌∙◌, ◌↔◌, inl, inr, true, false, none, some,
  List, [], ◌∷◌, ◌++◌, map, arith, Bool-cases, Option-cases, length, is_empty, get_or, drop,
  length-append, All, ok,
}

nil-cons : {x : Bytes} {xs : List Bytes} → ¬ ([] ≡ x ∷ xs)
nil-cons e = cc

-- The markers from one on.
drop_head :
    (i : ℕ) (markers : List Bytes) (x : Bytes) (xs : List Bytes)
    → drop i markers ≡ x ∷ xs
    → (get_or markers i [] ≡ x)
      × (drop (i + 1) markers ≡ xs)
      × (i + suc (length xs) ≡ length markers)
drop_head zero [] x xs h = absurd (nil-cons h)
drop_head zero (m ∷ markers) x xs h =
    let size : suc (length markers) ≡ suc (length xs) = ap length h in
    (ap (λ l. get_or l 0 []) h, ap (drop 1) h, omega (arith, size))
drop_head (suc i) [] x xs h = absurd (nil-cons h)
drop_head (suc i) (m ∷ markers) x xs h =
    let (first, rest, size) = drop_head i markers x xs h in
    let next : suc i + 1 ≡ suc (i + 1) = omega arith in
    (first, ap (λ k. drop k (m ∷ markers)) next ∙ rest, omega (arith, size))

not-pass : ¬ (running ≡ pass)
not-pass e = cc

-- The loop passes exactly when the markers that are left occur in order in the buffer.
abbrev Decides : AssertionPhase → List Bytes → Machine → Type 0
Decides phase xs m = ((match_loop (length xs) phase m).outcome ≡ pass) ↔ InOrder xs m.marker_buffer

waits-Decides :
    (phase : AssertionPhase) (x : Bytes) (xs : List Bytes) (m : Machine)
    → get_or phase.markers m.marker_index [] ≡ x
    → m.outcome ≡ running
    → find x m.marker_buffer ≡ none
    → Decides phase (x ∷ xs) m
waits-Decides phase x xs m here run missing =
    let stops = loop_waits (length xs) phase m (ap (λ y. find y m.marker_buffer) here ∙ missing) in
    (
      λ e. absurd (not-pass (sym run ∙ sym (ap (λ n. n.outcome) stops) ∙ e)),
      λ h. absurd (none-some (sym missing ∙ (InOrder-find x xs m.marker_buffer h).1)),
    )

-- One marker is found at `p`, and the rest decides.
found-Decides :
    (x : Bytes) (xs : List Bytes) (text : Bytes) (p : ℕ) (P : Type 0)
    → find x text ≡ some p
    → P ↔ InOrder xs (drop (p + length x) text)
    → P ↔ InOrder (x ∷ xs) text
found-Decides x xs text p P found (there, back) = (
  λ h. find-InOrder x xs text p found (there h),
  λ h.
      let (q, found', rest) = InOrder-find x xs text h in
      let same : q ≡ p = some-injective (sym found' ∙ found) in
      back (subst (λ k. InOrder xs (drop (k + length x) text)) same rest),
)

match_loop-Decides :
    (phase : AssertionPhase) (xs : List Bytes) (m : Machine)
    → 0 < length xs
    → drop m.marker_index phase.markers ≡ xs
    → m.outcome ≡ running
    → phase.then_do ≡ complete
    → Decides phase xs m
unfolding finish_phase
match_loop-Decides phase [] m some_left left run then_complete = absurd (omega arith)
match_loop-Decides phase (x ∷ []) m some_left left run then_complete =
    let (here, rest, size) = drop_head m.marker_index phase.markers x [] left in
    elim (Option-cases (find x m.marker_buffer)) [
      | inl missing ↦ waits-Decides phase x [] m here run missing
      | inr (p, found) ↦
          let ends =
            loop_finishes 0 phase m p (ap (λ y. find y m.marker_buffer) here ∙ found)
              (omega (arith, size)) in
          let passes : (match_loop 1 phase m).outcome ≡ pass =
            ap (λ n. n.outcome) ends ∙ finished (matched phase m p) in
          found-Decides x [] m.marker_buffer p ((match_loop 1 phase m).outcome ≡ pass) found
            (λ _. tt, λ _. passes)
    ]
  where
    finished : (n : Machine) → (finish_phase phase n).outcome ≡ pass
    finished n = rw then_complete refl
match_loop-Decides phase (x ∷ y ∷ ys) m some_left left run then_complete =
    let (here, rest, size) = drop_head m.marker_index phase.markers x (y ∷ ys) left in
    elim (Option-cases (find x m.marker_buffer)) [
      | inl missing ↦ waits-Decides phase x (y ∷ ys) m here run missing
      | inr (p, found) ↦
          let next = matched phase m p in
          let goes_on =
            loop_goes_on (suc (length ys)) phase m p (ap (λ z. find z m.marker_buffer) here ∙ found)
              (omega (arith, size)) in
          let buffer : next.marker_buffer ≡ drop (p + length x) m.marker_buffer =
            ap (λ z. drop (p + length z) m.marker_buffer) here in
          let ih = match_loop-Decides phase (y ∷ ys) next (omega arith) rest run then_complete in
          let both : ((match_loop (suc (suc (length ys))) phase m).outcome ≡ pass)
              ↔ InOrder (y ∷ ys) (drop (p + length x) m.marker_buffer) =
            (
              λ e. subst (InOrder (y ∷ ys)) buffer (ih.0 (sym (ap (λ n. n.outcome) goes_on) ∙ e)),
              λ h. ap (λ n. n.outcome) goes_on ∙ ih.1 (subst (InOrder (y ∷ ys)) (sym buffer) h),
            ) in
          found-Decides x (y ∷ ys) m.marker_buffer p _ found both
    ]

nothing-InOrder :
    (x : Bytes) (xs : List Bytes) (stream : Bytes)
    → 0 < length x
    → is_empty stream ≡ true
    → ¬ InOrder (x ∷ xs) stream
nothing-InOrder x xs [] pos h (front, rest, e, _) =
    let size : 0 ≡ length (front ++ (x ++ rest)) = ap length e in
    absurd (omega (arith, size, length-append {0} front (x ++ rest), length-append {0} x rest))
nothing-InOrder x xs (y ∷ ys) pos h _ = cc

never-InOrder :
    (markers : List Bytes) (stream : Bytes)
    → 0 < length markers
    → All (λ marker. 0 < length marker) markers
    → is_empty stream ≡ true
    → ¬ InOrder markers stream
never-InOrder [] stream some_left big none_left h = omega arith
never-InOrder (x ∷ xs) stream some_left big none_left h =
    nothing-InOrder x xs stream big.0 none_left h

feed-fine :
    (phase : AssertionPhase) (forbidden : List Bytes) (stream : Bytes)
    → any_occurs forbidden stream ≡ false
    → is_fail (feed stream (fresh (phase ∷ []) forbidden)).outcome ≡ false
feed-fine phase forbidden stream clean = elim (Bool-cases (is_empty stream)) [
  | inl nothing ↦
      ap (λ l. is_fail (feed l (fresh (phase ∷ []) forbidden)).outcome)
        (is_empty-nil stream nothing)
      ∙ ap (λ n. is_fail n.outcome) (feed_nothing (fresh (phase ∷ []) forbidden))
  | inr some_bytes ↦
      let m = fresh (phase ∷ []) forbidden in
      ap (λ n. is_fail n.outcome) (feed_clean m stream refl some_bytes clean)
      ∙ feed_markers-is_fail stream (kept m stream) refl
]

-- A new machine of one phase on a whole stream.
pub feed-Decides :
    (phase : AssertionPhase) (forbidden : List Bytes) (stream : Bytes)
    → HasMarkers phase
    → phase.then_do ≡ complete
    → any_occurs forbidden stream ≡ false
    → ((feed stream (fresh (phase ∷ []) forbidden)).outcome ≡ pass) ↔ InOrder phase.markers stream
unfolding feed_markers
feed-Decides phase forbidden stream have then_complete clean = elim (Bool-cases (is_empty stream)) [
  | inl nothing ↦
      let silent : feed stream fresh_one ≡ fresh_one =
        ap (λ l. feed l fresh_one) (is_empty-nil stream nothing) ∙ feed_nothing fresh_one in
      (
        λ e. absurd (not-pass (sym (ap (λ n. n.outcome) silent) ∙ e)),
        λ h. absurd (never-InOrder phase.markers stream have.0 have.1 nothing h),
      )
  | inr some_bytes ↦
      let e = feed_clean fresh_one stream refl some_bytes clean in
      let opens = ap (λ n. n.outcome) e in
      let (there, back) =
        match_loop-Decides phase phase.markers (extended (kept fresh_one stream) stream) have.0 refl
          refl then_complete in
      (λ p. there (sym opens ∙ p), λ h. opens ∙ back h)
]
  where
    fresh_one : Machine
    fresh_one = fresh (phase ∷ []) forbidden

-- The machine that `ordered` makes for markers passes on a stream, in whatever chunks it comes,
-- exactly when the bytes of the markers occur in the stream, each behind the end of the one
-- before it, where no forbidden marker occurs in the stream.
pub ordered-feed_all :
    (utf8 : String → Bytes) (markers forbidden : List Marker) (m : Machine) (chunks : List Bytes)
    → ordered utf8 markers forbidden ≡ ok m
    → any_occurs (map (encode utf8) forbidden) (join chunks) ≡ false
    → ((result (feed_all chunks m)).outcome ≡ pass)
      ↔ InOrder (map (encode utf8) markers) (join chunks)
ordered-feed_all utf8 markers forbidden m chunks h clean =
    let (phase, same, then_complete, have, v, is_fresh) =
      ordered-fresh utf8 markers forbidden m h in
    let stream = join chunks in
    let whole = ap (λ n. (feed stream n).outcome) is_fresh in
    let (there, back) =
      feed-Decides phase (map (encode utf8) forbidden) stream have then_complete clean in
    let fine : is_fail (feed stream m).outcome ≡ false =
      ap is_fail whole ∙ feed-fine phase (map (encode utf8) forbidden) stream clean in
    let parts =
      ap (λ r. r.outcome) (feed_all-join chunks m v (ap (λ n. n.outcome) is_fresh) fine) ∙ whole in
    (
      λ p. subst (λ ms. InOrder ms stream) same (there (sym parts ∙ p)),
      λ o. parts ∙ back (subst (λ ms. InOrder ms stream) (sym same) o),
    )
