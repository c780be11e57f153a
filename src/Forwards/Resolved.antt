-- ===== src/Forwards/Resolved.antt =====
-- What `resolve_host_forwards` returns, and the mapping that is made of it.
use rules_ostest.Text.{same_text, Text, same_text→}
use rules_ostest.Forwards.{tcp, udp, Protocol, same_protocol}
use rules_ostest.Forwards.Parsed.{same_protocol_self}
use rules_ostest.Forwards.{
  TextLibrary, HostForward, parse_host_forwards, not_loopback, wrong_guest_address,
  wrong_static_port, matches_name, bad_name, bad_port,
}
use rules_ostest.Forwards.Parsed.{
  some-injective, AreApart, ArePairwiseApart, parse_host_forwards-ArePairwiseApart,
}
use rules_ostest.Forwards.Usernet.{
  ResolvedForward, resolve_one, resolve_host_forwards, canonical_mapping, resolve_all, Row,
  make_resolved, is_mapped, candidates, parse_info_usernet, loopback_address, default_guest_address,
  bound_elsewhere, answers,
}
use mathlib.Core.Path.{subst}
use rules_ostest.Base.{
  ℕ, ◌≤◌, ◌≡◌, refl, sym, ap, ◌∙◌, inl, inr, true, false, not, ◌&&◌, Option, none, some, List, [],
  ◌∷◌, ◌++◌, arith, leb, ◌==◌, Bool-cases, drop, All, is_ok, ok-injective, bind-eq-ok, guard-eq-ok,
  refuse-eq-ok, ok,
}

-- A row with the protocol and the guest port of a forward.
abbrev pub IsFor : HostForward → Row → Type 0
IsFor f row = (row.protocol ≡ f.protocol) × (row.guest_port ≡ f.guest_port)

-- `row` is the only one of `rows` that is for the forward.
pub record IsOnly (f : HostForward) (row : Row) (rows : List Row) : Type 0 where
  pub before : List Row
  pub after : List Row
  pub split : rows ≡ before ++ (row ∷ after)
  pub is_for : IsFor f row
  pub none_before : All (λ other. ¬ IsFor f other) before
  pub none_after : All (λ other. ¬ IsFor f other) after

-- A forward as QEMU reports it: exactly one row has its endpoint, between the expected addresses.
pub record IsResolved (rows : List Row) (f : HostForward) (r : ResolvedForward) : Type 0 where
  pub row : Row
  pub only : IsOnly f row rows
  pub source : row.source_address ≡ loopback_address
  pub guest : row.guest_address ≡ default_guest_address
  pub static : (n : ℕ) → f.host_port ≡ some n → row.host_port ≡ n
  pub bound : (1 ≤ r.host_port) × (r.host_port ≤ 65535)
  pub made : r ≡ record {
    name = f.name;
    protocol = f.protocol;
    guest_port = f.guest_port;
    host_port = row.host_port;
    host = loopback_address;
  }

abbrev pub AreResolved : List Row → List HostForward → List ResolvedForward → Type 0
AreResolved rows [] [] = Unit
AreResolved rows [] (r ∷ rs) = ⊥
AreResolved rows (f ∷ fs) [] = ⊥
AreResolved rows (f ∷ fs) (r ∷ rs) = IsResolved rows f r × AreResolved rows fs rs

bound_elsewhere-static :
    (o : Option ℕ) (port n : ℕ)
    → elim o [ none ↦ false | some m ↦ not (port == m) ] ≡ false
    → o ≡ some n
    → port ≡ n
bound_elsewhere-static none port n h e = cc
bound_elsewhere-static (some m) port n h e = ground (arith, some-injective e)

same_protocol→ : (p q : Protocol) → same_protocol p q ≡ true → p ≡ q
same_protocol→ tcp tcp h = refl
same_protocol→ udp udp h = refl
same_protocol→ tcp udp h = cc
same_protocol→ udp tcp h = cc

answers→ : (f : HostForward) (row : Row) → answers f row ≡ true → IsFor f row
answers→ f row h = (same_protocol→ row.protocol f.protocol (ground arith), ground (arith, h))

answers-not : (f : HostForward) (row : Row) → answers f row ≡ false → ¬ IsFor f row
answers-not f row h k =
    let same : same_protocol row.protocol f.protocol ≡ true =
      ap (λ p. same_protocol p f.protocol) k.0 ∙ same_protocol_self f.protocol in
    ground (arith, same, k.1)

candidates-none :
    (f : HostForward) (rows : List Row)
    → candidates f rows ≡ []
    → All (λ other. ¬ IsFor f other) rows
candidates-none f [] h = tt
candidates-none f (row ∷ rows) h = elim (Bool-cases (answers f row)) [
  | inl e ↦ absurd (not_empty (sym (rw e refl) ∙ h))
  | inr e ↦ (answers-not f row e, candidates-none f rows (sym (rw e refl) ∙ h))
]
  where
    not_empty : ¬ (Path (List Row) (row ∷ candidates f rows) [])
    not_empty k = cc

candidates-IsOnly :
    (f : HostForward) (row : Row) (rows : List Row)
    → candidates f rows ≡ row ∷ []
    → IsOnly f row rows
candidates-IsOnly f row [] h = cc
candidates-IsOnly f row (other ∷ rows) h = elim (Bool-cases (answers f other)) [
  | inl e ↦
      let found : Path (List Row) (other ∷ candidates f rows) (row ∷ []) = sym (rw e refl) ∙ h in
      let same : other ≡ row = ap (λ l. elim l [ [] ↦ other | x ∷ xs ↦ x ]) found in
      record {
        before = [];
        after = rows;
        split = ap (λ x. x ∷ rows) same;
        is_for = subst (IsFor f) same (answers→ f other e);
        none_before = tt;
        none_after = candidates-none f rows (ap (drop 1) found);
      }
  | inr e ↦
      let later = candidates-IsOnly f row rows (sym (rw e refl) ∙ h) in
      record {
        before = other ∷ later.before;
        after = later.after;
        split = ap (other ∷◌) later.split;
        is_for = later.is_for;
        none_before = (answers-not f other e, later.none_before);
        none_after = later.none_after;
      }
]

resolve_one-IsResolved :
    (rows cs : List Row) (f : HostForward) (r : ResolvedForward)
    → candidates f rows ≡ cs
    → resolve_one f cs ≡ ok r
    → IsResolved rows f r
unfolding resolve_one make_resolved
resolve_one-IsResolved rows [] f r c h = cc
resolve_one-IsResolved rows (row ∷ other ∷ cs) f r c h = cc
resolve_one-IsResolved rows (row ∷ []) f r c e₀ =
    let (source, e₁) =
      guard-eq-ok (same_text row.source_address loopback_address) not_loopback _ e₀ in
    let (guest, e₂) =
      guard-eq-ok (same_text row.guest_address default_guest_address) wrong_guest_address _ e₁ in
    let (static, e₃) = refuse-eq-ok (bound_elsewhere f row) wrong_static_port _ e₂ in
    let (_, e₄) = guard-eq-ok (matches_name f.name) bad_name _ e₃ in
    let (_, e₅) = guard-eq-ok (leb 1 f.guest_port && leb f.guest_port 65535) bad_port _ e₄ in
    let (port, e₆) = guard-eq-ok (leb 1 row.host_port && leb row.host_port 65535) bad_port _ e₅ in
    let made = sym (ok-injective e₆) in
    let same : r.host_port ≡ row.host_port = ap (λ q. q.host_port) made in
    record {
      row = row;
      only = candidates-IsOnly f row rows c;
      source = same_text→ row.source_address loopback_address source;
      guest = same_text→ row.guest_address default_guest_address guest;
      static = λ n e. bound_elsewhere-static f.host_port row.host_port n static e;
      bound = (ground (arith, port, same), ground (arith, port, same));
      made = made;
    }

resolve_all-AreResolved :
    (rows : List Row) (fs : List HostForward) (rs : List ResolvedForward)
    → resolve_all rows fs ≡ ok rs
    → AreResolved rows fs rs
unfolding resolve_all
resolve_all-AreResolved rows [] rs h = subst (AreResolved rows []) (ok-injective h) tt
resolve_all-AreResolved rows (f ∷ fs) rs e₀ =
    let (r, one, e₁) = bind-eq-ok (resolve_one f (candidates f rows)) _ e₀ in
    let (more, rest, e₂) = bind-eq-ok (resolve_all rows fs) _ e₁ in
    subst (AreResolved rows (f ∷ fs)) (ok-injective e₂) (
      resolve_one-IsResolved rows (candidates f rows) f r refl one,
      resolve_all-AreResolved rows fs more rest,
    )

-- When the requests are resolved, each of them in its order has exactly one row of the output
-- with its protocol and guest port; that row is bound to the loopback address, goes to the
-- guest's address and has the static port if one was asked for, and what is returned is the
-- request with the port of that row.
pub resolve_host_forwards-AreResolved :
    (lib : TextLibrary) (fs : List HostForward) (output : Text) (rs : List ResolvedForward)
    → resolve_host_forwards lib fs output ≡ ok rs
    → (rows : List Row) × (parse_info_usernet lib output ≡ ok rows) × AreResolved rows fs rs
unfolding resolve_host_forwards
resolve_host_forwards-AreResolved lib fs output rs e₀ =
    let (rows, parsed, e₁) = bind-eq-ok (parse_info_usernet lib output) _ e₀ in
    (rows, parsed, resolve_all-AreResolved rows fs rs e₁)

-- No two names are the same.
abbrev HasDistinctNames : List ResolvedForward → Type 0
HasDistinctNames [] = Unit
HasDistinctNames (r ∷ rs) = All (λ q. same_text r.name q.name ≡ false) rs × HasDistinctNames rs

apart-names :
    (rows : List Row) (f : HostForward) (name : Text) (fs : List HostForward)
    (rs : List ResolvedForward)
    → name ≡ f.name
    → All (AreApart f) fs
    → AreResolved rows fs rs
    → All (λ q. same_text name q.name ≡ false) rs
apart-names rows f name [] [] e h k = tt
apart-names rows f name [] (r ∷ rs) e h k = absurd k
apart-names rows f name (g ∷ fs) [] e h k = absurd k
apart-names rows f name (g ∷ fs) (r ∷ rs) e (h, hs) (k, ks) = (
  elim (Bool-cases (same_text name r.name)) [
    | inl same ↦ absurd (h.names (sym e ∙ same_text→ name r.name same ∙ ap (λ q. q.name) k.made))
    | inr apart ↦ apart
  ],
  apart-names rows f name fs rs e hs ks,
)

AreResolved-HasDistinctNames :
    (rows : List Row) (fs : List HostForward) (rs : List ResolvedForward)
    → ArePairwiseApart fs
    → AreResolved rows fs rs
    → HasDistinctNames rs
AreResolved-HasDistinctNames rows [] [] h k = tt
AreResolved-HasDistinctNames rows [] (r ∷ rs) h k = absurd k
AreResolved-HasDistinctNames rows (f ∷ fs) [] h k = absurd k
AreResolved-HasDistinctNames rows (f ∷ fs) (r ∷ rs) (h, hs) (k, ks) = (
  apart-names rows f r.name fs rs (ap (λ q. q.name) k.made) h ks,
  AreResolved-HasDistinctNames rows fs rs hs ks,
)

-- A new name ahead of the mapping.
is_mapped-step :
    (r : ResolvedForward) (mapping rs : List ResolvedForward)
    → All (λ q. is_mapped q.name mapping ≡ false) rs
    → All (λ q. same_text r.name q.name ≡ false) rs
    → All (λ q. is_mapped q.name (r ∷ mapping) ≡ false) rs
is_mapped-step r mapping [] h k = tt
is_mapped-step r mapping (q ∷ rs) (h, hs) (k, ks) = (rw k h, is_mapped-step r mapping rs hs ks)

canonical_mapping_ok :
    (mapping rs : List ResolvedForward)
    → All (λ q. is_mapped q.name mapping ≡ false) rs
    → HasDistinctNames rs
    → is_ok (canonical_mapping mapping rs) ≡ true
unfolding canonical_mapping
canonical_mapping_ok mapping [] h k = refl
canonical_mapping_ok mapping (r ∷ rs) (h, hs) (k, ks) =
    rw h (canonical_mapping_ok (r ∷ mapping) rs (is_mapped-step r mapping rs hs k) ks)

-- The forwards that were parsed together and then resolved always have a mapping: its check for
-- duplicate names cannot fail.
pub parse-resolve-map :
    (lib : TextLibrary) (encoded : List Text) (output : Text) (fs : List HostForward)
    (rs : List ResolvedForward)
    → parse_host_forwards lib encoded ≡ ok fs
    → resolve_host_forwards lib fs output ≡ ok rs
    → is_ok (canonical_mapping [] rs) ≡ true
parse-resolve-map lib encoded output fs rs e k =
    let (_, apart, _) = parse_host_forwards-ArePairwiseApart lib encoded fs e in
    let (rows, _, resolved) = resolve_host_forwards-AreResolved lib fs output rs k in
    canonical_mapping_ok [] rs (unmapped rs)
      (AreResolved-HasDistinctNames rows fs rs apart resolved)
  where
    unmapped : (rs : List ResolvedForward) → All (λ q. is_mapped q.name [] ≡ false) rs
    unmapped [] = tt
    unmapped (r ∷ rs) = (refl, unmapped rs)
