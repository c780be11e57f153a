-- ===== src/Forwards.antt =====
-- The host forwards of ostest/private/managed_network.py.
pub mod Parsed
pub mod Usernet
pub mod Resolved
use rules_ostest.Base.Int.{ℤ, pos}
use rules_ostest.Text.{Text, same_text, decimal_text}
use rules_ostest.Base.{
  ℕ, ◌+◌, Bool, true, false, not, ◌&&◌, ◌||◌, Option, none, some, List, [], ◌∷◌, leb, ◌==◌,
  if◌then◌else◌, ◌>>=◌, ◌>>◌, guard, refuse, Result, ok, err,
}

-- The exceptions, by what they say.
pub data ForwardError : Type 0 where
  bad_port bad_name bad_protocol invalid_json not_an_object unknown_fields missing_guest :
      ForwardError
  duplicate_name duplicate_guest_endpoint duplicate_static_endpoint : ForwardError
  bad_row bad_row_port not_reported ambiguous_rows not_loopback wrong_guest_address
        wrong_static_port :
      ForwardError
  bad_limit : ForwardError

-- What `json.loads` returns, as far as it is looked at: the values of an object's fields.
pub data Value : Type 0 where
  integer : ℤ → Value
  string : Text → Value
  other : Value

pub data Json : Type 0 where
  object : List (Text × Value) → Json
  no_object : Json

-- `json.loads`, `str.splitlines`, and the characters that `\s`, `\d` and `int` take.
pub record TextLibrary : Type 0 where
  pub loads : Text → Option Json
  pub splitlines : Text → List Text
  pub is_space : ℕ → Bool
  pub digit_value : ℕ → Option ℕ

pub data Protocol : Type 0 where
  tcp udp : Protocol

abbrev pub same_protocol : Protocol → Protocol → Bool
same_protocol tcp tcp = true
same_protocol udp udp = true
same_protocol _ _ = false

-- A Boolean is no integer here: `_port` refuses it, and so it is `other`.
unfoldable pub port : Value → Result ForwardError ℕ
port (integer (pos n)) = if leb 1 n && leb n 65535 then ok n else err bad_port
port _ = err bad_port

abbrev pub is_letter : ℕ → Bool
is_letter c = (leb 0x41 c && leb c 0x5a) || (leb 0x61 c && leb c 0x7a)

abbrev pub is_name_char : ℕ → Bool
is_name_char c =
    is_letter c || (leb 0x30 c && leb c 0x39) || (c == 0x5f) || (c == 0x2e) || (c == 0x2d)

abbrev pub are_name_chars : Text → Bool
are_name_chars [] = true
are_name_chars (c ∷ cs) = is_name_char c && are_name_chars cs

-- `_NAME_PATTERN.fullmatch(name)`
abbrev pub matches_name : Text → Bool
matches_name [] = false
matches_name (c ∷ cs) = is_letter c && are_name_chars cs

pub record HostForward : Type 0 where
  pub name : Text
  pub protocol : Protocol
  pub guest_port : ℕ
  pub host_port : Option ℕ

-- "tcp" and "udp"
abbrev pub as_protocol : Value → Option Protocol
as_protocol (string s) =
    if same_text s (0x74 ∷ 0x63 ∷ 0x70 ∷ [])
    then some tcp
    else if same_text s (0x75 ∷ 0x64 ∷ 0x70 ∷ [])
    then some udp
    else none
as_protocol _ = none

-- The checks of `__post_init__` on ports that have passed `_port`.
unfoldable pub make_forward : Value → Value → ℕ → Option ℕ → Result ForwardError HostForward
make_forward (string name) protocol guest_port host_port = do
  guard (matches_name name) bad_name
  elim (as_protocol protocol) [
    | none ↦ err bad_protocol
    | some p ↦
        ok (record { name = name; protocol = p; guest_port = guest_port; host_port = host_port })
  ]
make_forward _ protocol guest_port host_port = err bad_name

-- `value.get(key, default)`
abbrev pub get_field : Text → Value → List (Text × Value) → Value
get_field key default [] = default
get_field key default ((k, v) ∷ fields) =
    let rest = get_field key default fields in if same_text key k then v else rest

abbrev pub has_field : Text → List (Text × Value) → Bool
has_field key [] = false
has_field key ((k, v) ∷ fields) = same_text key k || has_field key fields

-- "guest", "host", "name" and "protocol"
abbrev pub guest_key : Text
guest_key = 0x67 ∷ 0x75 ∷ 0x65 ∷ 0x73 ∷ 0x74 ∷ []

abbrev pub host_key : Text
host_key = 0x68 ∷ 0x6f ∷ 0x73 ∷ 0x74 ∷ []

abbrev pub name_key : Text
name_key = 0x6e ∷ 0x61 ∷ 0x6d ∷ 0x65 ∷ []

abbrev pub protocol_key : Text
protocol_key = 0x70 ∷ 0x72 ∷ 0x6f ∷ 0x74 ∷ 0x6f ∷ 0x63 ∷ 0x6f ∷ 0x6c ∷ []

-- "auto"
abbrev pub auto : Text
auto = 0x61 ∷ 0x75 ∷ 0x74 ∷ 0x6f ∷ []

-- `set(value) - allowed`
abbrev pub has_unknown : List (Text × Value) → Bool
has_unknown [] = false
has_unknown ((k, v) ∷ fields) =
    not (
      same_text k guest_key
      || same_text k host_key
      || same_text k name_key
      || same_text k protocol_key)
    || has_unknown fields

-- A missing or empty name is the default one.
abbrev pub name_or : Text → Value → Value
name_or default_name (string []) = string default_name
name_or default_name v = v

-- `"auto"` or a port.
unfoldable pub host_port_of : Value → Result ForwardError (Option ℕ)
unfolding port
host_port_of (string s) = if same_text s auto then ok none else err bad_port
host_port_of v = do n ← port v; ok (some n)

-- The object of a forward.
unfoldable pub read_forward : Text → List (Text × Value) → Result ForwardError HostForward
unfolding port host_port_of make_forward
read_forward default_name fields = do
  refuse (has_unknown fields) unknown_fields
  guard (has_field guest_key fields) missing_guest
  host_port ← host_port_of (get_field host_key (string auto) fields)
  guest_port ← port (get_field guest_key other fields)
  make_forward (name_or default_name (get_field name_key (string default_name) fields))
      (get_field protocol_key (string (0x74 ∷ 0x63 ∷ 0x70 ∷ [])) fields) guest_port host_port

unfoldable pub from_json : TextLibrary → Text → Text → Result ForwardError HostForward
unfolding read_forward
from_json lib encoded default_name = elim (lib.loads encoded) [
  | none ↦ err invalid_json
  | some no_object ↦ err not_an_object
  | some (object fields) ↦ read_forward default_name fields
]

-- "forward{index}"
abbrev pub forward_name : ℕ → Text
forward_name index = 0x66 ∷ 0x6f ∷ 0x72 ∷ 0x77 ∷ 0x61 ∷ 0x72 ∷ 0x64 ∷ decimal_text (index + 1) index

unfoldable pub parse_each : TextLibrary → ℕ → List Text → Result ForwardError (List HostForward)
unfolding from_json
parse_each lib index [] = ok []
parse_each lib index (value ∷ encoded) = do
  forward ← from_json lib value (forward_name index)
  forwards ← parse_each lib (index + 1) encoded
  ok (forward ∷ forwards)

abbrev pub has_text : Text → List Text → Bool
has_text name [] = false
has_text name (n ∷ names) = same_text name n || has_text name names

abbrev pub has_endpoint : Protocol → ℕ → List (Protocol × ℕ) → Bool
has_endpoint protocol port [] = false
has_endpoint protocol port ((p, n) ∷ endpoints) =
    (same_protocol protocol p && (port == n)) || has_endpoint protocol port endpoints

abbrev pub static_taken : HostForward → List (Protocol × ℕ) → Bool
static_taken f endpoints = elim f.host_port [
  | none ↦ false
  | some n ↦ has_endpoint f.protocol n endpoints
]

abbrev pub add_static : HostForward → List (Protocol × ℕ) → List (Protocol × ℕ)
add_static f endpoints = elim f.host_port [
  | none ↦ endpoints
  | some n ↦ (f.protocol, n) ∷ endpoints
]

-- The loop of `parse_host_forwards` over the forwards.
unfoldable pub check_forwards :
    List Text
    → List (Protocol × ℕ)
    → List (Protocol × ℕ)
    → List HostForward
    → Result ForwardError (Unit {0})
check_forwards names guests statics [] = ok tt
check_forwards names guests statics (f ∷ forwards) = do
  refuse (has_text f.name names) duplicate_name
  refuse (has_endpoint f.protocol f.guest_port guests) duplicate_guest_endpoint
  refuse (static_taken f statics) duplicate_static_endpoint
  check_forwards (f.name ∷ names) ((f.protocol, f.guest_port) ∷ guests) (add_static f statics)
      forwards

unfoldable pub parse_host_forwards :
    TextLibrary → List Text → Result ForwardError (List HostForward)
unfolding parse_each check_forwards
parse_host_forwards lib encoded = do
  forwards ← parse_each lib 0 encoded
  check_forwards [] [] [] forwards
  ok forwards
