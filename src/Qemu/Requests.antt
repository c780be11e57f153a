-- ===== src/Qemu/Requests.antt =====
-- `UefiQemuConfig.from_namespace`: the host forwards that are asked for.
pub mod Apart
use rules_ostest.Text.{Text, codes}
use rules_ostest.Base.{
  ℕ, ◌+◌, Bool, Option, none, some, List, [], ◌∷◌, ◌>>=◌, ◌>>◌, guard, refuse, Result, ok, err,
}
use rules_ostest.Forwards.{
  has_text, Value, port, ForwardError, host_port_of, Protocol, as_protocol, HostForward,
  forward_name, add_static, matches_name, auto, has_endpoint, static_taken,
}
use rules_ostest.Qemu.Media.{option_or}
use rules_ostest.Forwards.{
  string, unknown_fields, missing_guest, bad_name, duplicate_name, bad_protocol,
  duplicate_guest_endpoint, duplicate_static_endpoint, not_an_object,
}

-- A decoded object of `--ostest-hostfwd`; a field is `none` where it is missing, and texts have passed
-- `str`.
pub record ForwardSpec : Type 0 where
  pub has_more : Bool
  pub guest : Option Value
  pub name : Option Text
  pub host : Option Value
  pub protocol : Option Text

abbrev pub guest_value : Option Value → Result ForwardError Value
guest_value none = err missing_guest
guest_value (some v) = ok v

abbrev pub read_protocol : Text → Result ForwardError Protocol
read_protocol s = elim (as_protocol (string s)) [ none ↦ err bad_protocol | some p ↦ ok p ]

-- A round of the loop, `none` for a value that is no object. `HostForwardRequest` checks its fields
-- once more.
unfoldable pub take_request :
    List Text
    → List (Protocol × ℕ)
    → List (Protocol × ℕ)
    → ℕ
    → Option ForwardSpec
    → Result ForwardError HostForward
unfolding port host_port_of
take_request names guests statics index none = err not_an_object
take_request names guests statics index (some spec) = do
  refuse spec.has_more unknown_fields
  guest ← guest_value spec.guest
  let name = option_or (forward_name index) spec.name
  guard (matches_name name) bad_name
  refuse (has_text name names) duplicate_name
  guest_port ← port guest
  host_port ← host_port_of (option_or (string auto) spec.host)
  protocol ← read_protocol (option_or (codes "tcp") spec.protocol)
  refuse (has_endpoint protocol guest_port guests) duplicate_guest_endpoint
  let f : HostForward = record {
    name = name;
    protocol = protocol;
    guest_port = guest_port;
    host_port = host_port;
  }
  refuse (static_taken f statics) duplicate_static_endpoint
  ok f

unfoldable pub take_requests :
    List Text
    → List (Protocol × ℕ)
    → List (Protocol × ℕ)
    → ℕ
    → List (Option ForwardSpec)
    → Result ForwardError (List HostForward)
unfolding take_request
take_requests names guests statics index [] = ok []
take_requests names guests statics index (spec ∷ specs) = do
  f ← take_request names guests statics index spec
  fs ←
      take_requests (f.name ∷ names) ((f.protocol, f.guest_port) ∷ guests) (add_static f statics)
        (index + 1) specs
  ok (f ∷ fs)
