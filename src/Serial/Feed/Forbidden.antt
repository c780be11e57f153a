-- ===== src/Serial/Feed/Forbidden.antt =====
-- The forbidden markers and the tail that `feed` keeps.
use rules_ostest.Base.{
  ◌≡◌, refl, sym, ap, ◌∙◌, inl, inr, false, ◌++◌, arith, Bool-cases, length, is_empty,
}
use rules_ostest.Bytes.{Bytes}
use rules_ostest.Search.{last}
use rules_ostest.Search.Overlap.{last-last_append}
use rules_ostest.Serial.{Machine, running, phase_at}
use rules_ostest.Serial.Feed.{feed}
use rules_ostest.Serial.Feed.Valid.{IsValid}
use rules_ostest.Serial.Feed.Events.{feed_empty, is_empty-nil}
use rules_ostest.Serial.Feed.Stream.{
  is_fail, window, feed_clean, feed_dirty, feed_markers-is_fail, kept, feed-go_on, go_on-Keeps,
}
use rules_ostest.Serial.Feed.Scan.{any_occurs, any_occurs-overlap}
use mathlib.Core.Path.{ap₂}
use mathlib.Core.List.{append-nil}

module _ (m : Machine) (stream bytes : Bytes) (v : IsValid m) (run : m.outcome ≡ running)
    (seen : m.forbidden_tail ≡ last m.forbidden_overlap stream)
    (clean : any_occurs m.forbidden stream ≡ false) where
  seam : any_occurs m.forbidden (window m bytes) ≡ any_occurs m.forbidden (stream ++ bytes)
  seam =
      ap (λ t. any_occurs m.forbidden (t ++ bytes)) seen
      ∙ sym (
          any_occurs-overlap m.forbidden stream bytes m.forbidden_overlap v.forbidden_nonempty
            (omega (arith, v.overlap)) clean)

  -- A valid machine that is running, whose tail is the end of the stream so far and whose stream
  -- holds no forbidden marker, fails on more bytes exactly when a forbidden marker occurs in the
  -- stream with these bytes behind it.
  pub feed-is_fail : is_fail (feed bytes m).outcome ≡ any_occurs m.forbidden (stream ++ bytes)
  feed-is_fail = elim (Bool-cases (is_empty bytes)) [
    | inl no_bytes ↦
        ap (λ n. is_fail n.outcome) (feed_empty m bytes no_bytes)
        ∙ ap is_fail run
        ∙ sym clean
        ∙ ap (any_occurs m.forbidden)
            (sym (append-nil stream) ∙ ap (λ l. stream ++ l) (sym (is_empty-nil bytes no_bytes)))
    | inr some_bytes ↦ elim (Bool-cases (any_occurs m.forbidden (window m bytes))) [
      | inl dirty ↦ ap is_fail (feed_dirty m bytes run some_bytes dirty) ∙ sym dirty ∙ seam
      | inr fine ↦
          ap (λ n. is_fail n.outcome) (feed_clean m bytes run some_bytes fine)
          ∙ feed_markers-is_fail bytes (kept m bytes) run
          ∙ sym fine
          ∙ seam
    ]
  ]

  -- Under the conditions of `feed-is_fail`, when no forbidden marker occurs in the stream with
  -- the new bytes, the tail is then the end of that longer stream.
  pub feed-tail :
      any_occurs m.forbidden (stream ++ bytes) ≡ false
      → (feed bytes m).forbidden_tail ≡ last (feed bytes m).forbidden_overlap (stream ++ bytes)
  feed-tail fine = elim (Bool-cases (is_empty bytes)) [
    | inl no_bytes ↦
        ap (λ n. n.forbidden_tail) (feed_empty m bytes no_bytes)
        ∙ seen
        ∙ ap₂ last (ap (λ n. n.forbidden_overlap) (sym (feed_empty m bytes no_bytes)))
            (sym (append-nil stream) ∙ ap (λ l. stream ++ l) (sym (is_empty-nil bytes no_bytes)))
    | inr some_bytes ↦
        let phase = phase_at m m.phase_index in
        let e = feed-go_on m bytes phase run some_bytes (seam ∙ fine) refl in
        let k = go_on-Keeps (length phase.markers) phase bytes m in
        ap (λ n. n.forbidden_tail) e
        ∙ ap (λ t. last m.forbidden_overlap (t ++ bytes)) seen
        ∙ last-last_append m.forbidden_overlap stream bytes
        ∙ ap (λ j. last j (stream ++ bytes)) (sym (ap (λ n. n.forbidden_overlap) e ∙ k.overlap))
  ]
