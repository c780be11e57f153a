-- ===== src/Runner/Legacy.antt =====
-- `_LegacyVerdict`, which looks for forbidden markers in the bytes and for patterns in the text.
use rules_ostest.Search.{find}
use rules_ostest.Serial.{overlap_of}
use rules_ostest.Runner.{
  Chars, LegacyVerdict, last, World, Why, failure_matched, forbidden_marker, success_matched,
}
use rules_ostest.Bytes.{Bytes}
use rules_ostest.Base.{
  ℕ, Bool, true, false, Option, none, some, List, [], ◌∷◌, ◌++◌, ltb, ◌==◌, if◌then◌else◌, length,
}

-- `marker in window`
abbrev pub first_in : List Bytes → Bytes → Option Bytes
first_in [] window = none
first_in (marker ∷ markers) window = elim (find marker window) [
  | some position ↦ some marker
  | none ↦ first_in markers window
]

-- `_LegacyVerdict(success, failure, forbidden)`
abbrev pub make_legacy : List Bytes → LegacyVerdict
make_legacy forbidden = record {
  forbidden = forbidden;
  pending = [];
  seen = [];
  forbidden_tail = [];
  max_forbidden_overlap = overlap_of forbidden;
}

-- `MAX_MATCH_BUFFER`
abbrev pub max_match_buffer : ℕ
max_match_buffer = 4194304

abbrev pub matches : Option (Chars → Bool) → Chars → Bool
matches none text = false
matches (some search) text = search text

-- `text[-limit:]` where the text is longer.
abbrev pub trim : ℕ → Chars → Chars
trim limit text = if ltb limit (length text) then last limit text else text

-- Behind the search for forbidden markers.
unfoldable pub feed_text :
    World → Bytes → Bool → LegacyVerdict → Option (Bool × Why) × LegacyVerdict
feed_text w chunk final l =
    let (chars, pending) = w.decode l.pending chunk final in
    let text = l.seen ++ chars in
    let l' = record l { pending = pending; seen = text } in
    if matches w.failure text
    then (some (false, failure_matched), l')
    else if w.success text
    then (some (true, success_matched), l')
    else (none, record l' { seen = trim max_match_buffer text })

-- `feed(chunk, final=…)`
unfoldable pub feed_legacy :
    World → Bytes → Bool → LegacyVerdict → Option (Bool × Why) × LegacyVerdict
unfolding feed_text
feed_legacy w chunk final l =
    let window = l.forbidden_tail ++ chunk in
    elim (first_in l.forbidden window) [
      | some marker ↦ (some (false, forbidden_marker marker), l)
      | none ↦ feed_text w chunk final (record l {
        forbidden_tail =
            if l.max_forbidden_overlap == 0
            then l.forbidden_tail
            else last l.max_forbidden_overlap window;
      })
    ]
