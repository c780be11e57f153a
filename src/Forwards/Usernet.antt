-- ===== src/Forwards/Usernet.antt =====
-- `parse_info_usernet`, `resolve_host_forwards` and `canonical_mapping_json`.
use rules_ostest.Forwards.{
  Protocol, TextLibrary, HostForward, tcp, ForwardError, same_protocol, udp, matches_name,
  not_reported, bad_row, bad_name, ambiguous_rows, bad_row_port, bad_port, not_loopback,
  wrong_guest_address, wrong_static_port, duplicate_name,
}
use rules_ostest.Text.{Text, occurs_in, same_text}
use rules_ostest.Base.{
  ℕ, ◌+◌, ◌*◌, Bool, false, not, ◌&&◌, ◌||◌, none, some, List, [], ◌∷◌, leb, ◌==◌, if◌then◌else◌,
  is_empty, ◌>>=◌, ◌>>◌, guard, refuse, Result, ok, err,
}

-- One HOST_FORWARD row.
pub record Row : Type 0 where
  pub protocol : Protocol
  pub fd : ℕ
  pub source_address : Text
  pub host_port : ℕ
  pub guest_address : Text
  pub guest_port : ℕ

-- "HOST_FORWARD"
abbrev pub host_forward : Text
host_forward =
    0x48 ∷ 0x4f ∷ 0x53 ∷ 0x54 ∷ 0x5f ∷ 0x46 ∷ 0x4f ∷ 0x52 ∷ 0x57 ∷ 0x41 ∷ 0x52 ∷ 0x44 ∷ []

-- "127.0.0.1" and "10.0.2.15"
abbrev pub loopback_address : Text
loopback_address = 0x31 ∷ 0x32 ∷ 0x37 ∷ 0x2e ∷ 0x30 ∷ 0x2e ∷ 0x30 ∷ 0x2e ∷ 0x31 ∷ []

abbrev pub default_guest_address : Text
default_guest_address = 0x31 ∷ 0x30 ∷ 0x2e ∷ 0x30 ∷ 0x2e ∷ 0x32 ∷ 0x2e ∷ 0x31 ∷ 0x35 ∷ []

-- A line that does not match raises, whatever of it fails.
abbrev drop_prefix : Text → Text → Result ForwardError Text
drop_prefix [] text = ok text
drop_prefix (p ∷ prefix) [] = err bad_row
drop_prefix (p ∷ prefix) (c ∷ text) =
    let rest = drop_prefix prefix text in if p == c then rest else err bad_row

module _ (lib : TextLibrary) where
  -- `\s*`
  abbrev pub skip_space : Text → Text
  skip_space [] = []
  skip_space (c ∷ cs) = let rest = skip_space cs in if lib.is_space c then rest else c ∷ cs

  -- A run of characters that are no space, and what is behind it.
  abbrev pub take_word : Text → Text × Text
  take_word [] = ([], [])
  take_word (c ∷ cs) =
      let rest = take_word cs in if lib.is_space c then ([], c ∷ cs) else (c ∷ rest.0, rest.1)

  -- `\s+` and the word behind it, which is not empty.
  abbrev pub next_word : Text → Result ForwardError (Text × Text)
  next_word [] = err bad_row
  next_word (c ∷ cs) =
      let word = take_word (skip_space cs) in
      if lib.is_space c && not (is_empty word.0) then ok word else err bad_row

  -- `int` of a word that `\d+` matches; `n` is the value of the digits before.
  abbrev pub word_value : ℕ → Text → Result ForwardError ℕ
  word_value n [] = ok n
  word_value n (c ∷ cs) = elim (lib.digit_value c) [
    | none ↦ err bad_row
    | some d ↦ word_value (n * 10 + d) cs
  ]

  abbrev pub next_number : Text → Result ForwardError (ℕ × Text)
  next_number text = do (word, rest) ← next_word text; n ← word_value 0 word; ok (n, rest)

  -- `(TCP|UDP)`
  abbrev pub protocol_of : Text → Result ForwardError (Protocol × Text)
  protocol_of text = elim (drop_prefix (0x54 ∷ 0x43 ∷ 0x50 ∷ []) text) [
    | ok rest ↦ ok (tcp, rest)
    | err e ↦ elim (drop_prefix (0x55 ∷ 0x44 ∷ 0x50 ∷ []) text) [
      | ok rest ↦ ok (udp, rest)
      | err e ↦ err e
    ]
  ]

  -- `_HOST_FORWARD_LINE.fullmatch(line)`. A word ends where a space or the line ends, so that there is one way to match.
  unfoldable pub match_row : Text → Result ForwardError Row
  match_row line = do
    (protocol, after_protocol) ← protocol_of (skip_space line)
    opened ← drop_prefix (0x5b ∷ []) (skip_space after_protocol)
    named ← drop_prefix host_forward (skip_space opened)
    closed ← drop_prefix (0x5d ∷ []) (skip_space named)
    (fd, after_fd) ← next_number closed
    (source_address, after_source) ← next_word after_fd
    (host_port, after_host) ← next_number after_source
    (guest_address, after_guest) ← next_word after_host
    (guest_port, rest) ← next_number after_guest
    ok (record {
      protocol = protocol;
      fd = fd;
      source_address = source_address;
      host_port = host_port;
      guest_address = guest_address;
      guest_port = guest_port;
    })

  abbrev pub is_port : ℕ → Bool
  is_port n = leb 1 n && leb n 65535

  -- The loop over the lines.
  unfoldable pub parse_lines : List Text → Result ForwardError (List Row)
  unfolding match_row
  parse_lines [] = ok []
  parse_lines (line ∷ lines) =
      let rest = parse_lines lines in
      if occurs_in host_forward line
      then (do
        row ← match_row line
        guard (is_port row.host_port && is_port row.guest_port) bad_row_port
        rows ← rest
        ok (row ∷ rows))
      else rest

  unfoldable pub parse_info_usernet : Text → Result ForwardError (List Row)
  unfolding parse_lines
  parse_info_usernet output = parse_lines (lib.splitlines output)

pub record ResolvedForward : Type 0 where
  pub name : Text
  pub protocol : Protocol
  pub guest_port : ℕ
  pub host_port : ℕ
  pub host : Text

-- The checks of `__post_init__`.
unfoldable pub make_resolved : Text → Protocol → ℕ → ℕ → Result ForwardError ResolvedForward
make_resolved name protocol guest_port host_port = do
  guard (matches_name name) bad_name
  guard (leb 1 guest_port && leb guest_port 65535) bad_port
  guard (leb 1 host_port && leb host_port 65535) bad_port
  ok (record {
    name = name;
    protocol = protocol;
    guest_port = guest_port;
    host_port = host_port;
    host = loopback_address;
  })

abbrev pub answers : HostForward → Row → Bool
answers f row = same_protocol row.protocol f.protocol && (row.guest_port == f.guest_port)

abbrev pub candidates : HostForward → List Row → List Row
candidates f [] = []
candidates f (row ∷ rows) =
    let rest = candidates f rows in if answers f row then row ∷ rest else rest

abbrev pub bound_elsewhere : HostForward → Row → Bool
bound_elsewhere f row = elim f.host_port [ none ↦ false | some n ↦ not (row.host_port == n) ]

-- A round of the loop of `resolve_host_forwards`, with the candidates of its request.
unfoldable pub resolve_one : HostForward → List Row → Result ForwardError ResolvedForward
unfolding make_resolved
resolve_one f [] = err not_reported
resolve_one f (row ∷ other ∷ rows) = err ambiguous_rows
resolve_one f (row ∷ []) = do
  guard (same_text row.source_address loopback_address) not_loopback
  guard (same_text row.guest_address default_guest_address) wrong_guest_address
  refuse (bound_elsewhere f row) wrong_static_port
  make_resolved f.name f.protocol f.guest_port row.host_port

unfoldable pub resolve_all :
    List Row → List HostForward → Result ForwardError (List ResolvedForward)
unfolding resolve_one
resolve_all rows [] = ok []
resolve_all rows (f ∷ requested) = do
  resolved ← resolve_one f (candidates f rows)
  more ← resolve_all rows requested
  ok (resolved ∷ more)

unfoldable pub resolve_host_forwards :
    TextLibrary → List HostForward → Text → Result ForwardError (List ResolvedForward)
unfolding resolve_all parse_info_usernet
resolve_host_forwards lib requested output = do
  rows ← parse_info_usernet lib output
  resolve_all rows requested

abbrev pub is_mapped : Text → List ResolvedForward → Bool
is_mapped name [] = false
is_mapped name (f ∷ mapping) = same_text f.name name || is_mapped name mapping

-- The loop of `canonical_mapping_json`. The mapping, which `json.dumps` gets, is by the names.
unfoldable pub canonical_mapping :
    List ResolvedForward → List ResolvedForward → Result ForwardError (List ResolvedForward)
canonical_mapping mapping [] = ok mapping
canonical_mapping mapping (f ∷ forwards) = do
  refuse (is_mapped f.name mapping) duplicate_name
  canonical_mapping (f ∷ mapping) forwards
