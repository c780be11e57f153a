-- ===== src/Tests/Ports.antt =====
-- Two forwards, and the line that QEMU prints of one of them.
use rules_ostest.Search.{find, starts_with}
use rules_ostest.Base.Int.{pos}
use rules_ostest.Forwards.Resolved.{
  parse-resolve-map, AreResolved, resolve_host_forwards-AreResolved,
}
use rules_ostest.Forwards.Parsed.{IsForward, ArePairwiseApart, parse_host_forwards-ArePairwiseApart}
use rules_ostest.Text.{Text, same_text}
use rules_ostest.Forwards.{
  parse_host_forwards, HostForward, TextLibrary, parse_each, object, from_json, guest_key,
  read_forward, integer, port, host_port_of, name_key, make_forward, string, check_forwards,
  host_key,
}
use rules_ostest.Forwards.Usernet.{
  Row, ResolvedForward, canonical_mapping, resolve_host_forwards, parse_info_usernet, parse_lines,
  match_row, resolve_all, resolve_one, make_resolved,
}
use rules_ostest.Search.{find, starts_with}
use rules_ostest.Base.{
  ◌-◌, ◌≡◌, refl, true, ◌&&◌, none, some, List, [], ◌∷◌, leb, ◌==◌, if◌then◌else◌, length, All,
  result_or, is_ok, eq-ok_of_is_ok, ok,
}

-- The first text stands for the object of `ssh`, every other one for that of a forward without a name.
abbrev library : TextLibrary
library = record {
  loads = λ text.
      if same_text text []
      then some (
          object
            ((guest_key, integer (pos 22)) ∷ (name_key, string (0x73 ∷ 0x73 ∷ 0x68 ∷ [])) ∷ []))
      else some (object ((guest_key, integer (pos 80)) ∷ (host_key, integer (pos 8000)) ∷ []));
  splitlines = λ text. text ∷ [];
  is_space = λ c. c == 0x20;
  digit_value = λ c. if leb 0x30 c && leb c 0x39 then some (c - 0x30) else none;
}

abbrev requested : List HostForward
requested = result_or [] (parse_host_forwards library ([] ∷ (0x61 ∷ []) ∷ []))

requested_made : parse_host_forwards library ([] ∷ (0x61 ∷ []) ∷ []) ≡ ok requested
unfolding parse_host_forwards parse_each from_json read_forward port host_port_of make_forward
    check_forwards
requested_made = eq-ok_of_is_ok (parse_host_forwards library ([] ∷ (0x61 ∷ []) ∷ [])) [] refl

parse_host_forwards-ArePairwiseApart_example :
    All IsForward requested × ArePairwiseApart requested × (length requested ≡ 2)
parse_host_forwards-ArePairwiseApart_example =
    parse_host_forwards-ArePairwiseApart library ([] ∷ (0x61 ∷ []) ∷ []) requested requested_made

abbrev ssh : List HostForward
ssh = result_or [] (parse_host_forwards library ([] ∷ []))

ssh_made : parse_host_forwards library ([] ∷ []) ≡ ok ssh
unfolding parse_host_forwards parse_each from_json read_forward port host_port_of make_forward
    check_forwards
ssh_made = eq-ok_of_is_ok (parse_host_forwards library ([] ∷ [])) [] refl

-- "  TCP[HOST_FORWARD]  12  127.0.0.1 8080  10.0.2.15 22 0 0"
abbrev usernet : Text
usernet =
    0x20 ∷ 0x20 ∷ 0x54 ∷ 0x43 ∷ 0x50 ∷ 0x5b ∷ 0x48 ∷ 0x4f ∷ 0x53 ∷ 0x54 ∷ 0x5f ∷ 0x46 ∷ 0x4f ∷ 0x52
    ∷ 0x57 ∷ 0x41 ∷ 0x52 ∷ 0x44 ∷ 0x5d ∷ 0x20 ∷ 0x20 ∷ 0x31 ∷ 0x32 ∷ 0x20 ∷ 0x20 ∷ 0x31 ∷ 0x32
    ∷ 0x37 ∷ 0x2e ∷ 0x30 ∷ 0x2e ∷ 0x30 ∷ 0x2e ∷ 0x31 ∷ 0x20 ∷ 0x38 ∷ 0x30 ∷ 0x38 ∷ 0x30 ∷ 0x20
    ∷ 0x20 ∷ 0x31 ∷ 0x30 ∷ 0x2e ∷ 0x30 ∷ 0x2e ∷ 0x32 ∷ 0x2e ∷ 0x31 ∷ 0x35 ∷ 0x20 ∷ 0x32 ∷ 0x32
    ∷ 0x20 ∷ 0x30 ∷ 0x20 ∷ 0x30 ∷ []

abbrev resolved : List ResolvedForward
resolved = result_or [] (resolve_host_forwards library ssh usernet)

resolved_made : resolve_host_forwards library ssh usernet ≡ ok resolved
unfolding parse_host_forwards parse_each from_json read_forward port host_port_of make_forward
    check_forwards resolve_host_forwards parse_info_usernet parse_lines match_row find starts_with
    resolve_all resolve_one make_resolved
resolved_made = eq-ok_of_is_ok (resolve_host_forwards library ssh usernet) [] refl

resolve_host_forwards-AreResolved_example :
    (rows : List Row) × (parse_info_usernet library usernet ≡ ok rows)
    × AreResolved rows ssh resolved
resolve_host_forwards-AreResolved_example =
    resolve_host_forwards-AreResolved library ssh usernet resolved resolved_made

parse-resolve-map_example : is_ok (canonical_mapping [] resolved) ≡ true
parse-resolve-map_example =
    parse-resolve-map library ([] ∷ []) usernet ssh resolved ssh_made resolved_made
