-- ===== src/Serial/Feed/Split.antt =====
-- The loop over the markers on a buffer that comes in two parts.
use mathlib.Core.Option
use rules_ostest.Base.{
  ℕ, zero, suc, ◌+◌, ◌-◌, ◌≤◌, ◌<◌, ◌≡◌, sym, ap, ◌∙◌, inl, inr, false, not, ◌&&◌, none, some, List,
  [], ◌∷◌, ◌++◌, arith, if◌then◌else◌, lt_cases, Option-cases, length, get_or, drop, All,
}
use rules_ostest.Bytes.{Bytes}
use rules_ostest.Search.{find, last}
use rules_ostest.Search.Overlap.{
  find-append_none, last-last_append, last-append_eq, drop-drop, find-append_some, drop-append_le,
  find_room,
}
use rules_ostest.Serial.{Machine, AssertionPhase, running}
use rules_ostest.Serial.Feed.{match_loop, finish_phase, is_running}
use rules_ostest.Serial.Feed.Loop.{
  Lasts, wanted, trimmed, loop_waits, matched, loop_goes_on, match_loop_any, loop_finishes,
  finish_phase_any,
}

-- The loop on more bytes, unless the machine has stopped or waits for a reboot.
abbrev pub go_on : ℕ → AssertionPhase → Bytes → Machine → Machine
go_on fuel phase bytes m =
    if is_running m.outcome && not m.waiting_for_reboot
    then match_loop fuel phase (record m { marker_buffer = m.marker_buffer ++ bytes })
    else m

abbrev pub extended : Machine → Bytes → Machine
extended m bytes = record m { marker_buffer = m.marker_buffer ++ bytes }

finish_phase-stops :
    (fuel : ℕ) (phase : AssertionPhase) (bytes : Bytes) (m : Machine)
    → go_on fuel phase bytes (finish_phase phase m) ≡ finish_phase phase m
unfolding finish_phase
finish_phase-stops fuel phase bytes m = ground arith

pub go_on-running :
    (fuel : ℕ) (phase : AssertionPhase) (bytes : Bytes) (m : Machine)
    → m.outcome ≡ running
    → m.waiting_for_reboot ≡ false
    → go_on fuel phase bytes m ≡ match_loop fuel phase (extended m bytes)
go_on-running fuel phase bytes m run wait = ground arith

All-get_or :
    (markers : List Bytes) (i : ℕ)
    → All (λ marker. 0 < length marker) markers
    → i < length markers
    → 0 < length (get_or markers i [])
All-get_or [] i big h = absurd (omega arith)
All-get_or (x ∷ xs) zero big h = big.0
All-get_or (x ∷ xs) (suc i) big h = All-get_or xs i big.1 (omega arith)

module _ (phase : AssertionPhase) (bytes : Bytes) where
  -- Dropping from the kept end or from the whole leaves the same.
  last_cut :
      (m : Machine) (k q : ℕ) (n : ℕ)
      → drop (q + n) (last k m.marker_buffer ++ bytes)
        ≡ drop (length m.marker_buffer - k + q + n) (m.marker_buffer ++ bytes)
  last_cut m k q n =
      ap (drop (q + n)) (last-append_eq k m.marker_buffer bytes)
      ∙ drop-drop (length m.marker_buffer - k) (q + n) (m.marker_buffer ++ bytes)
      ∙ ap (λ j. drop j (m.marker_buffer ++ bytes)) (omega arith)

  -- The marker stands at `p` of the whole and at `q` of the kept end.
  after_found :
      (f g : ℕ) (m : Machine) (p q : ℕ)
      → Lasts (suc f) phase m
      → Lasts (suc g) phase m
      → find (wanted phase m) (m.marker_buffer ++ bytes) ≡ some p
      → find (wanted phase m) (last (length (wanted phase m) - 1) m.marker_buffer ++ bytes) ≡ some q
      → drop
          (q + length (wanted phase m))
          (last (length (wanted phase m) - 1) m.marker_buffer ++ bytes)
        ≡ drop (p + length (wanted phase m)) (m.marker_buffer ++ bytes)
      → match_loop (suc f) phase (extended m bytes)
        ≡ match_loop (suc g) phase (extended (trimmed phase m) bytes)
  after_found f g m p q lf lg whole kept cut =
      let here = matched phase (extended m bytes) p in
      let r = (trimmed phase m).reason in
      elim (lt_cases (m.marker_index + 1) (length phase.markers)) [
        | inl more ↦
            loop_goes_on f phase (extended m bytes) p whole more
            ∙ match_loop_any f g phase here r (omega arith) (omega arith)
            ∙ ap (λ b. match_loop g phase (record here { reason = r; marker_buffer = b })) (sym cut)
            ∙ sym (loop_goes_on g phase (extended (trimmed phase m) bytes) q kept more)
        | inr done ↦
            loop_finishes f phase (extended m bytes) p whole done
            ∙ sym (finish_phase_any phase here _ r)
            ∙ sym (loop_finishes g phase (extended (trimmed phase m) bytes) q kept done)
      ]

  -- The first part holds no further marker.
  after_wait :
      (f g : ℕ) (m : Machine)
      → 0 < length (wanted phase m)
      → Lasts (suc f) phase m
      → Lasts (suc g) phase m
      → find (wanted phase m) m.marker_buffer ≡ none
      → match_loop (suc f) phase (extended m bytes)
        ≡ match_loop (suc g) phase (extended (trimmed phase m) bytes)
  after_wait f g m big lf lg e =
      let off = length m.marker_buffer - (length (wanted phase m) - 1) in
      let both = find-append_none (wanted phase m) m.marker_buffer bytes big e in
      let kept = last (length (wanted phase m) - 1) m.marker_buffer ++ bytes in
      elim (Option-cases (find (wanted phase m) kept)) [
        | inl n ↦
            loop_waits f phase (extended m bytes) (both ∙ ap (Option.map (λ p. off + p)) n)
            ∙ ap (λ b. record (trimmed phase m) { marker_buffer = b })
                (sym (last-last_append (length (wanted phase m) - 1) m.marker_buffer bytes))
            ∙ sym (loop_waits g phase (extended (trimmed phase m) bytes) n)
        | inr (q, s) ↦
            after_found f g m (off + q) q lf lg (both ∙ ap (Option.map (λ p. off + p)) s) s
              (last_cut m (length (wanted phase m) - 1) q (length (wanted phase m)))
      ]

  -- The stream goes on: the first part, all markers of which have matched or not.
  pub loop_append :
      (f g : ℕ) (m : Machine)
      → All (λ marker. 0 < length marker) phase.markers
      → Lasts f phase m
      → length phase.markers ≤ g
      → m.outcome ≡ running
      → m.waiting_for_reboot ≡ false
      → match_loop f phase (extended m bytes) ≡ go_on g phase bytes (match_loop f phase m)
  loop_append zero g m big l h run wait = absurd (omega arith)
  loop_append (suc f) zero m big l h run wait = absurd (omega arith)
  loop_append (suc f) (suc g) m big l h run wait =
      elim (Option-cases (find (wanted phase m) m.marker_buffer)) [
        | inl e ↦
            after_wait f g m (All-get_or phase.markers m.marker_index big l.0) l (omega arith) e
            ∙ sym (
                ap (go_on (suc g) phase bytes) (loop_waits f phase m e)
                ∙ go_on-running (suc g) phase bytes (trimmed phase m) run wait)
        | inr (p, e) ↦
            let w = wanted phase m in
            let later = find-append_some w m.marker_buffer bytes p e in
            let cut : drop (p + length w) (m.marker_buffer ++ bytes)
                ≡ drop (p + length w) m.marker_buffer ++ bytes =
              drop-append_le (p + length w) m.marker_buffer bytes
                (find_room w m.marker_buffer p e) in
            elim (lt_cases (m.marker_index + 1) (length phase.markers)) [
              | inl more ↦
                  loop_goes_on f phase (extended m bytes) p later more
                  ∙ ap (λ b. match_loop f phase (record (matched phase m p) { marker_buffer = b }))
                      cut
                  ∙ loop_append f (suc g) (matched phase m p) big (omega arith) h run wait
                  ∙ ap (go_on (suc g) phase bytes) (sym (loop_goes_on f phase m p e more))
              | inr done ↦
                  loop_finishes f phase (extended m bytes) p later done
                  ∙ finish_phase_any phase (matched phase m p) _ m.reason
                  ∙ sym (finish_phase-stops (suc g) phase bytes (matched phase m p))
                  ∙ ap (go_on (suc g) phase bytes) (sym (loop_finishes f phase m p e done))
            ]
      ]
