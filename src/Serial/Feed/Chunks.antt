-- ===== src/Serial/Feed/Chunks.antt =====
-- A stream that `feed` is given in chunks.
use rules_ostest.Base.{
  ◌≡◌, refl, sym, ap, ◌∙◌, inl, inr, false, List, [], ◌∷◌, ◌++◌, arith, Bool-cases, length,
  is_empty, get_or,
}
use rules_ostest.Serial.{Machine, running, result, empty_phase, phase_at}
use rules_ostest.Serial.Feed.{feed, is_running}
use rules_ostest.Serial.Feed.Keep.{with_tail}
use rules_ostest.Serial.Feed.Valid.{IsValid}
use rules_ostest.Serial.Feed.Scan.{any_occurs, any_occurs-append, any_occurs-overlap}
use rules_ostest.Serial.Feed.Split.{go_on}
use rules_ostest.Serial.Feed.Stream.{
  eq-running, feed_stopped, is_fail, window, feed_dirty, feed-go_on, go_on-Keeps, result-feed,
  go_on-with_tail, go_on-append,
}
use rules_ostest.Bytes.{Bytes}
use rules_ostest.Search.{last}
use rules_ostest.Serial.Feed.Events.{is_empty-nil, feed-IsValid}
use mathlib.Core.List.{append_assoc, append-nil}
use mathlib.Core.Path.{ap₂}

is_empty-append : (a b : Bytes) → is_empty a ≡ false → is_empty (a ++ b) ≡ false
is_empty-append [] b h = cc
is_empty-append (x ∷ a) b h = refl

pub feed_nothing : (m : Machine) → feed [] m ≡ m
unfolding feed
feed_nothing m = ground arith

-- A chunk that does not fail holds no forbidden marker, nor does the seam.
clean_of_feed :
    (m : Machine) (bytes : Bytes)
    → m.outcome ≡ running
    → is_empty bytes ≡ false
    → is_fail (feed bytes m).outcome ≡ false
    → any_occurs m.forbidden (window m bytes) ≡ false
clean_of_feed m bytes run some_bytes fine =
    elim (Bool-cases (any_occurs m.forbidden (window m bytes))) [
      | inl dirty ↦ cc (ap is_fail (feed_dirty m bytes run some_bytes dirty), fine)
      | inr clean ↦ clean
    ]

module _ (m : Machine) (v : IsValid m) (run : m.outcome ≡ running) where
  nonempty-append :
      (a b : Bytes)
      → is_empty a ≡ false
      → is_empty b ≡ false
      → is_fail (feed (a ++ b) m).outcome ≡ false
      → result (feed b (feed a m)) ≡ result (feed (a ++ b) m)
  nonempty-append a b some_a some_b fine =
      let phase = phase_at m m.phase_index in
      let L = length phase.markers in
      let k = m.forbidden_overlap in
      let clean = clean_of_feed m (a ++ b) run (is_empty-append a b some_a) fine in
      let clean_ab : any_occurs m.forbidden (window m a ++ b) ≡ false =
        ap (any_occurs m.forbidden) (append_assoc m.forbidden_tail a b) ∙ clean in
      let clean_a = any_occurs-append m.forbidden (window m a) b clean_ab in
      let first = feed-go_on m a phase run some_a clean_a refl in
      let n = with_tail (last k (window m a)) (go_on L phase a m) in
      let keeps = go_on-Keeps L phase a m in
      let clean_b : any_occurs n.forbidden (window n b) ≡ false =
        ap (λ f. any_occurs f (window n b)) keeps.forbidden
        ∙ sym (
            any_occurs-overlap m.forbidden (window m a) b k v.forbidden_nonempty
              (omega (arith, v.overlap)) clean_a)
        ∙ clean_ab in
      ap (λ x. result (feed b x)) first
      ∙ result-feed n b phase clean_b
          (ap₂ (λ ps i. get_or ps i empty_phase) keeps.phases keeps.phase_index) some_b
      ∙ ap result (go_on-with_tail (last k (window m a)) L phase b (go_on L phase a m))
      ∙ ap result (sym (go_on-append m a b v run))
      ∙ sym (result-feed m (a ++ b) phase clean refl (is_empty-append a b some_a))

  pub feed-append :
      (a b : Bytes)
      → is_fail (feed (a ++ b) m).outcome ≡ false
      → result (feed b (feed a m)) ≡ result (feed (a ++ b) m)
  feed-append a b fine = elim (Bool-cases (is_empty a)) [
    | inl no_a ↦
        let e = is_empty-nil a no_a in
        ap (λ x. result (feed b x)) (ap (λ l. feed l m) e ∙ feed_nothing m)
        ∙ ap (λ l. result (feed (l ++ b) m)) (sym e)
    | inr some_a ↦ elim (Bool-cases (is_empty b)) [
      | inl no_b ↦
          let e = is_empty-nil b no_b in
          ap (λ l. result (feed l (feed a m))) e
          ∙ ap result (feed_nothing (feed a m))
          ∙ ap (λ l. result (feed l m)) (sym (append-nil a) ∙ ap (λ l. a ++ l) (sym e))
      | inr some_b ↦ nonempty-append a b some_a some_b fine
    ]
  ]

-- A stream in chunks, one `feed` for each.
abbrev pub feed_all : List Bytes → Machine → Machine
feed_all [] m = m
feed_all (chunk ∷ chunks) m = feed_all chunks (feed chunk m)

abbrev pub join : List Bytes → Bytes
join [] = []
join (chunk ∷ chunks) = chunk ++ join chunks

pub feed_stopped_all :
    (chunks : List Bytes) (m : Machine) → is_running m.outcome ≡ false → feed_all chunks m ≡ m
feed_stopped_all [] m h = refl
feed_stopped_all (c ∷ cs) m h = ap (feed_all cs) (feed_stopped m c h) ∙ feed_stopped_all cs m h

-- However a stream is cut into chunks, a valid machine that is running reports after the last
-- chunk what it reports on the whole stream in one chunk, where the report on the whole stream is
-- no failure.
pub feed_all-join :
    (chunks : List Bytes) (m : Machine)
    → IsValid m
    → m.outcome ≡ running
    → is_fail (feed (join chunks) m).outcome ≡ false
    → result (feed_all chunks m) ≡ result (feed (join chunks) m)
feed_all-join [] m v run fine = ap result (sym (feed_nothing m))
feed_all-join (c ∷ cs) m v run fine =
    let two = feed-append m v run c (join cs) fine in
    let n = feed c m in
    elim (Bool-cases (is_running n.outcome)) [
      | inl runs ↦
          feed_all-join cs n (feed-IsValid m c v) (eq-running n.outcome runs)
            (ap (λ r. is_fail r.outcome) two ∙ fine)
          ∙ two
      | inr stopped ↦
          ap result (feed_stopped_all cs n stopped ∙ sym (feed_stopped n (join cs) stopped)) ∙ two
    ]
