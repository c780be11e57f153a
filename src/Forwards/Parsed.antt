-- ===== src/Forwards/Parsed.antt =====
-- The forwards that `parse_host_forwards` accepts.
use rules_ostest.Forwards.{
  no_object, object, read_forward, same_protocol, has_text, add_static, has_endpoint,
  check_forwards, parse_host_forwards, duplicate_name, duplicate_guest_endpoint, static_taken,
  duplicate_static_endpoint,
}
use rules_ostest.Forwards.{tcp, udp}
use rules_ostest.Base.Int.{pos, negsuc}
use rules_ostest.Text.{Text, same_text, same_text_self}
use rules_ostest.Forwards.{
  port, from_json, HostForward, make_forward, host_port_of, parse_each, matches_name, Value,
  TextLibrary, integer, string, Json, forward_name, Protocol, invalid_json, bad_protocol,
  not_an_object, bad_name, object, as_protocol, has_unknown, unknown_fields, has_field, guest_key,
  missing_guest, get_field, host_key, auto, other, name_or, name_key, protocol_key,
}
use mathlib.Core.Path.{subst}
use rules_ostest.Base.{
  ℕ, suc, ◌+◌, ◌≤◌, ◌≡◌, refl, sym, ap, ◌∙◌, Bool, true, false, ◌&&◌, ◌||◌, Option, none, some,
  List, [], ◌∷◌, arith, ◌==◌, length, All, ok-injective, bind-eq-ok, guard-eq-ok, refuse-eq-ok, ok,
  err,
}

pub record IsForward (f : HostForward) : Type 0 where
  pub named : matches_name f.name ≡ true
  pub guest : (1 ≤ f.guest_port) × (f.guest_port ≤ 65535)
  pub static : (n : ℕ) → f.host_port ≡ some n → (1 ≤ n) × (n ≤ 65535)

-- Two forwards share neither their name nor a guest endpoint nor a static host endpoint.
pub record AreApart (f g : HostForward) : Type 0 where
  pub names : ¬ (f.name ≡ g.name)
  pub guests : ¬ ((f.protocol ≡ g.protocol) × (f.guest_port ≡ g.guest_port))
  pub statics : (n : ℕ) → f.host_port ≡ some n → g.host_port ≡ some n → ¬ (f.protocol ≡ g.protocol)

abbrev pub ArePairwiseApart : List HostForward → Type 0
ArePairwiseApart [] = Unit
ArePairwiseApart (f ∷ fs) = All (AreApart f) fs × ArePairwiseApart fs

pub port-eq-ok : (v : Value) (n : ℕ) → port v ≡ ok n → (1 ≤ n) × (n ≤ 65535)
unfolding port
port-eq-ok (integer (pos m)) n h = ground arith
port-eq-ok (integer (negsuc m)) n h = cc
port-eq-ok (string s) n h = cc
port-eq-ok other n h = cc

pub some-injective : {a b : ℕ} → some a ≡ some b → a ≡ b
some-injective {a = a} h = ap (λ o. elim o [ none ↦ a | some x ↦ x ]) h

pub host_port_of-eq-ok :
    (v : Value) (o : Option ℕ) (n : ℕ) → host_port_of v ≡ ok o → o ≡ some n → (1 ≤ n) × (n ≤ 65535)
unfolding host_port_of port
host_port_of-eq-ok (integer z) o n h e =
    let (m, made, h') = bind-eq-ok (port (integer z)) _ h in
    port-eq-ok (integer z) n (made ∙ ap ok (some-injective (ok-injective h' ∙ e)))
host_port_of-eq-ok (string s) o n h e = ground arith
host_port_of-eq-ok other o n h e = cc

make_forward-IsForward :
    (name protocol : Value) (guest : ℕ) (host : Option ℕ) (f : HostForward)
    → (1 ≤ guest) × (guest ≤ 65535)
    → ((n : ℕ) → host ≡ some n → (1 ≤ n) × (n ≤ 65535))
    → make_forward name protocol guest host ≡ ok f
    → IsForward f
unfolding make_forward
make_forward-IsForward (integer z) protocol guest host f g s h = cc
make_forward-IsForward other protocol guest host f g s h = cc
make_forward-IsForward (string name) protocol guest host f g s h =
    let (named, h') = guard-eq-ok (matches_name name) bad_name _ h in made (as_protocol protocol) h'
  where
    made :
        (o : Option Protocol)
        → elim o [
          | none ↦ err bad_protocol
          | some p ↦ ok (record { name = name; protocol = p; guest_port = guest; host_port = host })
        ]
          ≡ ok f
        → IsForward f
    made none e = cc
    made (some p) e =
        subst IsForward (ok-injective e) (record { named = named_here; guest = g; static = s })
      where
        named_here : matches_name name ≡ true
        named_here = (guard-eq-ok (matches_name name) bad_name _ h).0

read_forward-IsForward :
    (default_name : Text) (fields : List (Text × Value)) (f : HostForward)
    → read_forward default_name fields ≡ ok f
    → IsForward f
unfolding read_forward
read_forward-IsForward default_name fields f e₀ =
    let (_, e₁) = refuse-eq-ok (has_unknown fields) unknown_fields _ e₀ in
    let (_, e₂) = guard-eq-ok (has_field guest_key fields) missing_guest _ e₁ in
    let (host, hosted, e₃) =
      bind-eq-ok (host_port_of (get_field host_key (string auto) fields)) _ e₂ in
    let (guest, ported, e₄) = bind-eq-ok (port (get_field guest_key other fields)) _ e₃ in
    make_forward-IsForward (name_or default_name (get_field name_key (string default_name) fields))
      (get_field protocol_key (string (0x74 ∷ 0x63 ∷ 0x70 ∷ [])) fields) guest host f
      (port-eq-ok (get_field guest_key other fields) guest ported)
      (λ n same. host_port_of-eq-ok (get_field host_key (string auto) fields) host n hosted same) e₄

from_json-IsForward :
    (lib : TextLibrary) (encoded default_name : Text) (f : HostForward)
    → from_json lib encoded default_name ≡ ok f
    → IsForward f
unfolding from_json
from_json-IsForward lib encoded default_name f h = read (lib.loads encoded) h
  where
    read :
        (o : Option Json)
        → elim o [
          | none ↦ err invalid_json
          | some no_object ↦ err not_an_object
          | some (object fields) ↦ read_forward default_name fields
        ]
          ≡ ok f
        → IsForward f
    read none e = cc
    read (some no_object) e = cc
    read (some (object fields)) e = read_forward-IsForward default_name fields f e

parse_each-IsForward :
    (lib : TextLibrary) (index : ℕ) (encoded : List Text) (fs : List HostForward)
    → parse_each lib index encoded ≡ ok fs
    → All IsForward fs × (length fs ≡ length encoded)
unfolding parse_each
parse_each-IsForward lib index [] fs h =
    subst (λ l. All IsForward l × (length l ≡ 0)) (ok-injective h) (tt, refl)
parse_each-IsForward lib index (value ∷ encoded) fs e₀ =
    let (f, made, e₁) = bind-eq-ok (from_json lib value (forward_name index)) _ e₀ in
    let (rest, parsed, e₂) = bind-eq-ok (parse_each lib (index + 1) encoded) _ e₁ in
    let (ih, size) = parse_each-IsForward lib (index + 1) encoded rest parsed in
    subst (λ l. All IsForward l × (length l ≡ suc (length encoded))) (ok-injective e₂)
      ((from_json-IsForward lib value (forward_name index) f made, ih), omega (arith, size))

pub same_protocol_self : (p : Protocol) → same_protocol p p ≡ true
same_protocol_self tcp = refl
same_protocol_self udp = refl

or-false : {a b : Bool} → (a || b) ≡ false → (a ≡ false) × (b ≡ false)
or-false {a = true} h = cc
or-false {a = false} h = (refl, h)

true-not-false : ¬ (true ≡ false)
true-not-false e = cc

-- What the sets of the loop hold of a forward that it accepts.
record IsFresh (names : List Text) (guests statics : List (Protocol × ℕ)) (g : HostForward)
    : Type 0 where
  name : has_text g.name names ≡ false
  guest : has_endpoint g.protocol g.guest_port guests ≡ false
  static : (n : ℕ) → g.host_port ≡ some n → has_endpoint g.protocol n statics ≡ false

same_endpoint_not :
    (p q : Protocol) (m n : ℕ) → (same_protocol q p && (n == m)) ≡ false → ¬ ((p ≡ q) × (m ≡ n))
same_endpoint_not p q m n h (e, k) =
    let same : same_protocol q p ≡ true = ap (same_protocol q) e ∙ same_protocol_self q in
    ground (arith, same, k)

static-fresh :
    (o : Option ℕ) (p q : Protocol) (n : ℕ) (statics : List (Protocol × ℕ))
    → has_endpoint q n (elim o [ none ↦ statics | some m ↦ (p, m) ∷ statics ]) ≡ false
    → (has_endpoint q n statics ≡ false) × (o ≡ some n → (same_protocol q p && (n == n)) ≡ false)
static-fresh none p q n statics h = (h, λ e. cc)
static-fresh (some m) p q n statics h =
    let (apart, rest) = or-false h in
    (rest, λ e. ap (λ k. same_protocol q p && (n == k)) (sym (some-injective e)) ∙ apart)

-- A forward that is fresh behind `f`.
IsFresh-step :
    (names : List Text) (guests statics : List (Protocol × ℕ)) (f g : HostForward)
    → IsFresh (f.name ∷ names) ((f.protocol, f.guest_port) ∷ guests) (add_static f statics) g
    → IsFresh names guests statics g × AreApart f g
IsFresh-step names guests statics f g h =
    let split = λ (n : ℕ) (e : g.host_port ≡ some n).
      static-fresh f.host_port f.protocol g.protocol n statics (h.static n e) in
    (
      record {
        name = (or-false h.name).1;
        guest = (or-false h.guest).1;
        static = λ n e. (split n e).0;
      },
      record {
        names = λ e.
            let same : same_text g.name f.name ≡ true =
              ap (same_text g.name) e ∙ same_text_self g.name in
            true-not-false (sym same ∙ (or-false h.name).0);
        guests =
            same_endpoint_not f.protocol g.protocol f.guest_port g.guest_port (or-false h.guest).0;
        statics =
            λ n e k p. same_endpoint_not f.protocol g.protocol n n ((split n k).1 e) (p, refl);
      },
    )

All-split :
    {P Q R : HostForward → Type 0} (fs : List HostForward)
    → ((f : HostForward) → P f → Q f × R f)
    → All P fs
    → All Q fs × All R fs
All-split [] s h = (tt, tt)
All-split (f ∷ fs) s (h, hs) =
    let (q, r) = s f h in let (qs, rs) = All-split fs s hs in ((q, qs), (r, rs))

check_forwards-ArePairwiseApart :
    (names : List Text) (guests statics : List (Protocol × ℕ)) (fs : List HostForward)
    → check_forwards names guests statics fs ≡ ok tt
    → All (IsFresh names guests statics) fs × ArePairwiseApart fs
unfolding check_forwards
check_forwards-ArePairwiseApart names guests statics [] h = (tt, tt)
check_forwards-ArePairwiseApart names guests statics (f ∷ fs) e₀ =
    let (name, e₁) = refuse-eq-ok (has_text f.name names) duplicate_name _ e₀ in
    let (guest, e₂) =
      refuse-eq-ok (has_endpoint f.protocol f.guest_port guests) duplicate_guest_endpoint _ e₁ in
    let (static, e₃) = refuse-eq-ok (static_taken f statics) duplicate_static_endpoint _ e₂ in
    let (fresh, pairs) =
      check_forwards-ArePairwiseApart (f.name ∷ names) ((f.protocol, f.guest_port) ∷ guests)
        (add_static f statics) fs e₃ in
    let (later, apart) = All-split fs (IsFresh-step names guests statics f) fresh in
    (
      (
        record {
          name = name;
          guest = guest;
          static = λ n e.
              ap (λ o. elim o [ none ↦ false | some m ↦ has_endpoint f.protocol m statics ]) (sym e)
              ∙ static;
        },
        later,
      ),
      (apart, pairs),
    )

pub checked-ArePairwiseApart :
    (fs : List HostForward) → check_forwards [] [] [] fs ≡ ok tt → ArePairwiseApart fs
checked-ArePairwiseApart fs h = (check_forwards-ArePairwiseApart [] [] [] fs h).1

-- The forwards that are accepted are one for each text, each with a proper name and ports from 1
-- to 65535, and no two of them share a name, a guest endpoint or a static host endpoint.
pub parse_host_forwards-ArePairwiseApart :
    (lib : TextLibrary) (encoded : List Text) (fs : List HostForward)
    → parse_host_forwards lib encoded ≡ ok fs
    → All IsForward fs × ArePairwiseApart fs × (length fs ≡ length encoded)
unfolding parse_host_forwards
parse_host_forwards-ArePairwiseApart lib encoded fs e₀ =
    let (parsed, made, e₁) = bind-eq-ok (parse_each lib 0 encoded) _ e₀ in
    let (_, checked, e₂) = bind-eq-ok (check_forwards [] [] [] parsed) _ e₁ in
    let (valid, size) = parse_each-IsForward lib 0 encoded parsed made in
    let apart = checked-ArePairwiseApart parsed checked in
    subst (λ l. All IsForward l × ArePairwiseApart l × (length l ≡ length encoded))
      (ok-injective e₂) (valid, apart, size)
