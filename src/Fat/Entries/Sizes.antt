-- ===== src/Fat/Entries/Sizes.antt =====
-- The length of a directory's entries: `_assign_clusters` leaves enough room for them.
use rules_ostest.Fat.{FatError, bad_byte, struct_error, bad_encoding}
use rules_ostest.Fat.Names.{utf16_units}
use rules_ostest.Bytes.Overlay.{pack_le-bind, length-slice}
use rules_ostest.Fat.Walk.{Item}
use rules_ostest.Fat.Tree.{
  Nodes, nil, cons, node, count_entries, lfn_entry_count, Entry, clusters_of, directory_entry_count,
}
use rules_ostest.Fat.Entries.{
  long_entries, lfn_entry, child_entries, short_entry, first_entries, lfn_loop, join, lfn_entries,
  lfn_checksum, directory_data, lfn_units, with_last_flag,
}
use rules_ostest.Bytes.{Bytes, ljust}
use mathlib.Core.List.{append_assoc}
use native.Mathlib.Nat.{div-add-mod, mod-lt, mul-le-mul_right, le-max_right}
use rules_ostest.Base.{
  ℕ, zero, suc, ◌+◌, ◌-◌, ◌*◌, ◌/◌, ◌≤◌, ◌<◌, max, ◌≡◌, refl, sym, ap, ◌∙◌, ◌⊎◌, inl, inr, Bool,
  true, false, Option, none, some, List, [], ◌∷◌, ◌++◌, arith, ltb, ◌==◌, if◌then◌else◌, le→ltb,
  length, is_empty, take, drop, replicate, length-append, length-replicate, ◌>>=◌, ok-injective,
  bind-eq-ok, refuse-eq-ok, Result, ok, err,
}

length-short_entry :
    (name : Bytes) (attributes cluster size : ℕ) (bs : Bytes)
    → length name ≡ 11
    → short_entry name attributes cluster size ≡ ok bs
    → length bs ≡ 32
unfolding short_entry
length-short_entry name attributes cluster size bs eleven e₀ =
    let (_, e₁) = refuse-eq-ok (ltb (length name) 11) struct_error _ e₀ in
    let (_, e₂) = pack_le-bind struct_error 4 size _ bs e₁ in
    ap length (sym (ok-injective e₂)) ∙ length-slice _ 0 (length name + 21) ∙ omega (arith, eleven)

length-lfn_entry :
    (order checksum : ℕ) (chunk : List ℕ) → length (lfn_entry order checksum chunk) ≡ 32
unfolding lfn_entry
length-lfn_entry order checksum chunk = refl

length-lfn_loop :
    (n count checksum : ℕ) (units : List ℕ)
    → length (join (lfn_loop n count checksum units)) ≡ n * 32
unfolding lfn_loop
length-lfn_loop zero count checksum units = omega arith
length-lfn_loop (suc n) count checksum units =
    let order = if suc n == count then with_last_flag (suc n) else suc n in
    let entry = lfn_entry order checksum (take 13 (drop (n * 13) units)) in
    omega (
      arith,
      length-append entry (join (lfn_loop n count checksum units)),
      length-lfn_entry order checksum (take 13 (drop (n * 13) units)),
      length-lfn_loop n count checksum units,
    )

length-lfn_entries :
    (encoded : List ℕ) (short : Bytes) (es : List Bytes)
    → lfn_entries encoded short ≡ ok es
    → length (join es) ≡ (length encoded + 1 + 12) / 13 * 32
unfolding lfn_entries
length-lfn_entries encoded short es e₀ =
    let count = (length encoded + 1 + 12) / 13 in
    let (_, e₁) = refuse-eq-ok (ltb 255 count) bad_byte _ e₀ in
    ap (λ x. length (join x)) (sym (ok-injective e₁))
    ∙ length-lfn_loop count count (lfn_checksum 0 short) (lfn_units encoded)

length-long :
    (needs : Bool) (o : Option (List ℕ)) (short : Bytes) (es : List Bytes)
    → (if needs
        then elim o [ none ↦ err bad_encoding | some encoded ↦ lfn_entries encoded short ]
        else ok [])
      ≡ ok es
    → length (join es)
      ≡ (if needs then (elim o [ none ↦ 0 | some encoded ↦ length encoded ] + 1 + 12) / 13 else 0)
        * 32
length-long true none short es h = cc
length-long true (some encoded) short es h = length-lfn_entries encoded short es h
length-long false o short es h = ap (λ x. length (join x)) (sym (ok-injective h)) ∙ omega arith

length-long_entries :
    (e : Entry) (es : List Bytes)
    → long_entries e ≡ ok es
    → is_empty e.name ≡ false
    → length (join es) ≡ (if e.needs_lfn then lfn_entry_count e.name else 0) * 32
unfolding long_entries lfn_entry_count
length-long_entries e es h named =
    rw named (length-long e.needs_lfn (utf16_units e.name) e.short_name es h)

join-append : (xs ys : List Bytes) → join (xs ++ ys) ≡ join xs ++ join ys
join-append [] ys = refl
join-append (x ∷ xs) ys = ap (x ++◌) (join-append xs ys) ∙ sym (append_assoc x (join xs) (join ys))

-- Every node has a name, and a short name of 11 bytes.
abbrev pub HasNames : Nodes → Type 0
HasNames nil = Unit
HasNames (cons (node e cs) ns) =
    ((is_empty e.name ≡ false) × (length e.short_name ≡ 11)) × HasNames cs × HasNames ns

length-child_entries :
    (ns : Nodes) (es : List Bytes)
    → child_entries ns ≡ ok es
    → HasNames ns
    → length (join es) ≡ count_entries ns * 32
unfolding child_entries count_entries
length-child_entries nil es h named = ap (λ x. length (join x)) (sym (ok-injective h)) ∙ omega arith
length-child_entries (cons (node e cs) ns) es e₀ ((named, eleven), below, later) =
    let (long, made, e₁) = bind-eq-ok (long_entries e) _ e₀ in
    let (short, packed, e₂) =
      bind-eq-ok
        (short_entry e.short_name (if e.is_dir then 0x10 else 0x20) e.first_cluster
          (if e.is_dir then 0 else e.size))
        _ e₁ in
    let (rest, ih, e₃) = bind-eq-ok (child_entries ns) _ e₂ in
    ap (λ x. length (join x)) (sym (ok-injective e₃))
    ∙ ap length (join-append long (short ∷ rest))
    ∙ omega (
      arith,
      length-append (join long) (short ++ join rest),
      length-append short (join rest),
      length-long_entries e long made named,
      length-short_entry e.short_name (if e.is_dir then 0x10 else 0x20) e.first_cluster
          (if e.is_dir then 0 else e.size) short eleven packed,
      length-child_entries ns rest ih later,
    )

length-first :
    (root : Bool) (one two three : Result FatError Bytes) (es : List Bytes)
    → ((bs : Bytes) → (one ≡ ok bs) ⊎ ((two ≡ ok bs) ⊎ (three ≡ ok bs)) → length bs ≡ 32)
    → (if root
        then (do entry ← one; ok (entry ∷ []))
        else (do own ← two; parent ← three; ok (own ∷ parent ∷ [])))
      ≡ ok es
    → length (join es) ≡ (if root then 1 else 2) * 32
length-first true one two three es size e₀ =
    let (entry, made, e₁) = bind-eq-ok one _ e₀ in
    ap (λ x. length (join x)) (sym (ok-injective e₁))
    ∙ omega (arith, length-append entry [], size entry (inl made))
length-first false one two three es size e₀ =
    let (own, made, e₁) = bind-eq-ok two _ e₀ in
    let (parent, made', e₂) = bind-eq-ok three _ e₁ in
    ap (λ x. length (join x)) (sym (ok-injective e₂))
    ∙ omega (
      arith,
      length-append own (parent ++ []),
      length-append parent [],
      size own (inr (inl made)),
      size parent (inr (inr made')),
    )

length-label : (label : Bytes) → length label ≤ 11 → length (ljust 11 0x20 label) ≡ 11
length-label label h = omega (
  arith,
  length-append label (replicate (11 - length label) 0x20),
  length-replicate {A = ℕ} (11 - length label) 0x20,
)

length-first_entries :
    (label : Bytes) (i : Item) (es : List Bytes)
    → length label ≤ 11
    → first_entries label i ≡ ok es
    → length (join es) ≡ (if i.is_root then 1 else 2) * 32
unfolding first_entries
length-first_entries label i es short h =
    length-first i.is_root _ _ _ es
      (λ bs o. elim o [
        | inl e ↦ length-short_entry (ljust 11 0x20 label) 0x08 0 0 bs (length-label label short) e
        | inr (inl e) ↦
            length-short_entry (ljust 11 0x20 (0x2e ∷ [])) 0x10 i.entry.first_cluster 0 bs refl e
        | inr (inr e) ↦
            length-short_entry (ljust 11 0x20 (0x2e ∷ 0x2e ∷ [])) 0x10 i.parent_cluster 0 bs refl e
      ])
      h

le-clusters_of : (n a : ℕ) → 0 < a → n ≤ max 1 (clusters_of n a) * a
le-clusters_of n a h = omega (
  arith,
  mul-le-mul_right a (le-max_right 1 (clusters_of n a)),
  div-add-mod (n + a - 1) a,
  mod-lt (n + a - 1) h,
)

-- For a volume label of at most 11 bytes, and a directory whose children have names and short
-- names of 11 bytes and which has the clusters that `_assign_clusters` counts for it, the check
-- of the size does not fail: its data is its entries, then zeros up to the end of its clusters.
pub directory_data_room :
    (label : Bytes) (cluster_size : ℕ) (i : Item) (first rest : List Bytes)
    → length label ≤ 11
    → HasNames i.children
    → 0 < cluster_size
    → i.entry.cluster_count
      ≡ max 1 (clusters_of (directory_entry_count i.children i.is_root * 32) cluster_size)
    → first_entries label i ≡ ok first
    → child_entries i.children ≡ ok rest
    → directory_data label cluster_size i
      ≡ ok (ljust (i.entry.cluster_count * cluster_size) 0 (join (first ++ rest)))
unfolding directory_data
directory_data_room label cluster_size i first rest short named pos count e f =
    let n = directory_entry_count i.children i.is_root * 32 in
    let size : length (join (first ++ rest)) ≡ n =
      ap length (join-append first rest)
      ∙ omega (
        arith,
        length-append (join first) (join rest),
        length-first_entries label i first short e,
        length-child_entries i.children rest f named,
      ) in
    let room : length (join (first ++ rest)) ≤ i.entry.cluster_count * cluster_size =
      omega (arith, size, le-clusters_of n cluster_size pos, ap (λ c. c * cluster_size) count) in
    rw e (
      rw f (
        rw (le→ltb (i.entry.cluster_count * cluster_size) (length (join (first ++ rest))) room)
          refl))
