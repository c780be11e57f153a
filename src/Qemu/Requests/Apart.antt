-- ===== src/Qemu/Requests/Apart.antt =====
-- The host forwards that are accepted.
use mathlib.Core.Path.{subst}
use rules_ostest.Qemu.Media.{option_or}
use rules_ostest.Qemu.Requests.{
  take_request, take_requests, ForwardSpec, guest_value, read_protocol,
}
use rules_ostest.Text.{Text, codes}
use rules_ostest.Base.{
  ℕ, ◌+◌, ◌≡◌, refl, false, Option, none, some, List, [], ◌∷◌, All, ok-injective, bind-eq-ok,
  guard-eq-ok, refuse-eq-ok, ok,
}
use rules_ostest.Forwards.{
  has_text, check_forwards, Protocol, HostForward, add_static, has_endpoint, static_taken,
  forward_name, matches_name, port, host_port_of, auto,
}
use rules_ostest.Forwards.Parsed.{
  ArePairwiseApart, IsForward, port-eq-ok, host_port_of-eq-ok, checked-ArePairwiseApart,
}
use rules_ostest.Forwards.{
  string, unknown_fields, bad_name, duplicate_name, duplicate_guest_endpoint,
  duplicate_static_endpoint,
}

-- What the sets of the loop let pass.
record IsTaken (names : List Text) (guests statics : List (Protocol × ℕ)) (f : HostForward)
    : Type 0 where
  valid : IsForward f
  name : has_text f.name names ≡ false
  guest : has_endpoint f.protocol f.guest_port guests ≡ false
  static : static_taken f statics ≡ false

take_request-IsTaken :
    (names : List Text) (guests statics : List (Protocol × ℕ)) (index : ℕ)
    (spec : Option ForwardSpec) (f : HostForward)
    → take_request names guests statics index spec ≡ ok f
    → IsTaken names guests statics f
unfolding take_request
take_request-IsTaken names guests statics index none f h = cc
take_request-IsTaken names guests statics index (some spec) f e₀ =
    let (known, e₁) = refuse-eq-ok spec.has_more unknown_fields _ e₀ in
    let (guest, guest_there, e₂) = bind-eq-ok (guest_value spec.guest) _ e₁ in
    let name = option_or (forward_name index) spec.name in
    let (named, e₃) = guard-eq-ok (matches_name name) bad_name _ e₂ in
    let (new_name, e₄) = refuse-eq-ok (has_text name names) duplicate_name _ e₃ in
    let (guest_port, ported, e₅) = bind-eq-ok (port guest) _ e₄ in
    let (host_port, hosted, e₆) =
      bind-eq-ok (host_port_of (option_or (string auto) spec.host)) _ e₅ in
    let (protocol, known_protocol, e₇) =
      bind-eq-ok (read_protocol (option_or (codes "tcp") spec.protocol)) _ e₆ in
    let (new_guest, e₈) =
      refuse-eq-ok (has_endpoint protocol guest_port guests) duplicate_guest_endpoint _ e₇ in
    let g : HostForward = record {
      name = name;
      protocol = protocol;
      guest_port = guest_port;
      host_port = host_port;
    } in
    let (new_static, e₉) = refuse-eq-ok (static_taken g statics) duplicate_static_endpoint _ e₈ in
    subst (IsTaken names guests statics) (ok-injective e₉) (record {
      valid = record {
        named = named;
        guest = port-eq-ok guest guest_port ported;
        static = λ n same.
            host_port_of-eq-ok (option_or (string auto) spec.host) host_port n hosted same;
      };
      name = new_name;
      guest = new_guest;
      static = new_static;
    })

checked-next :
    (names : List Text) (guests statics : List (Protocol × ℕ)) (f : HostForward)
    (fs : List HostForward)
    → IsTaken names guests statics f
    → check_forwards
        (f.name ∷ names)
        ((f.protocol, f.guest_port) ∷ guests)
        (add_static f statics)
        fs
      ≡ ok tt
    → check_forwards names guests statics (f ∷ fs) ≡ ok tt
unfolding check_forwards
checked-next names guests statics f fs v h = rw (v.name, v.guest, v.static) h

take_requests-check_forwards :
    (names : List Text) (guests statics : List (Protocol × ℕ)) (index : ℕ)
    (specs : List (Option ForwardSpec)) (fs : List HostForward)
    → take_requests names guests statics index specs ≡ ok fs
    → All IsForward fs × (check_forwards names guests statics fs ≡ ok tt)
unfolding take_requests check_forwards
take_requests-check_forwards names guests statics index [] fs h =
    subst (λ l. All IsForward l × (check_forwards names guests statics l ≡ ok tt)) (ok-injective h)
      (tt, refl)
take_requests-check_forwards names guests statics index (spec ∷ specs) fs e₀ =
    let (f, taken, e₁) = bind-eq-ok (take_request names guests statics index spec) _ e₀ in
    let (rest, later, e₂) =
      bind-eq-ok
        (take_requests (f.name ∷ names) ((f.protocol, f.guest_port) ∷ guests) (add_static f statics)
          (index + 1) specs)
        _ e₁ in
    let v = take_request-IsTaken names guests statics index spec f taken in
    let (valid, checked) =
      take_requests-check_forwards (f.name ∷ names) ((f.protocol, f.guest_port) ∷ guests)
        (add_static f statics) (index + 1) specs rest later in
    subst (λ l. All IsForward l × (check_forwards names guests statics l ≡ ok tt)) (ok-injective e₂)
      ((v.valid, valid), checked-next names guests statics f rest v checked)

pub take_requests-ArePairwiseApart :
    (specs : List (Option ForwardSpec)) (fs : List HostForward)
    → take_requests [] [] [] 0 specs ≡ ok fs
    → All IsForward fs × ArePairwiseApart fs
take_requests-ArePairwiseApart specs fs h =
    let (valid, checked) = take_requests-check_forwards [] [] [] 0 specs fs h in
    (valid, checked-ArePairwiseApart fs checked)
