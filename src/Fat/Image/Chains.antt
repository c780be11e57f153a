-- ===== src/Fat/Image/Chains.antt =====
-- The chains of the file allocation table, as a reader follows them.
use rules_ostest.Base.{
  ℕ, zero, suc, ◌+◌, ◌*◌, ◌^◌, ◌≤◌, ◌<◌, ◌≡◌, refl, ap, ◌∙◌, ◌⊎◌, inl, inr, false, List, [], ◌∷◌,
  arith, ltb, leb, ◌==◌, if◌then◌else◌, All, ok-injective, bind-eq-ok, refuse-eq-ok, ok,
}
use rules_ostest.Bytes.{Buffer, to_le, from_le, put, slice}
use rules_ostest.Bytes.Overlay.{from_le-to_le, length-to_le, pack_le-bind}
use rules_ostest.Bytes.Slices.{slice-overlay_at, slice-overlay_outside}
use rules_ostest.Fat.{struct_error}
use rules_ostest.Fat.Walk.{Item}
use rules_ostest.Fat.Tree.Numbered.{IsNumbered}
use rules_ostest.Fat.Image.{write_links, write_chains}
use mathlib.Core.Path.{subst}

-- The entry of a cluster.
abbrev pub link : (ℕ → ℕ) → ℕ → ℕ
link byte c = from_le (slice byte (c * 4) 4)

-- `n` clusters from `c` on, each linked to the next and the last to the end of the chain.
abbrev pub IsChain : (ℕ → ℕ) → ℕ → ℕ → Type 0
IsChain byte zero c = Unit
IsChain byte (suc n) c =
    (link byte c ≡ (if n == 0 then 0x0fff_ffff else c + 1)) × IsChain byte n (c + 1)

-- What a reader collects: it stops at an entry of 0x0ffffff8 or more.
abbrev pub follow : ℕ → (ℕ → ℕ) → ℕ → List ℕ
follow zero byte c = []
follow (suc fuel) byte c =
    let rest = follow fuel byte (link byte c) in
    c ∷ (if leb 0x0fff_fff8 (link byte c) then [] else rest)

abbrev pub count_up : ℕ → ℕ → List ℕ
count_up zero c = []
count_up (suc n) c = c ∷ count_up n (c + 1)

record Linked (left c : ℕ) (b b' : Buffer) : Type 0 where
  chain : IsChain b'.byte left c
  outside : (d : ℕ) → (d < c) ⊎ (c + left ≤ d) → link b'.byte d ≡ link b.byte d

link-put_same : (c v : ℕ) (b : Buffer) → v < 256 ^ 4 → link (put (c * 4) (to_le 4 v) b).byte c ≡ v
link-put_same c v b h =
    ap from_le (slice-overlay_at (c * 4) (to_le 4 v) b.byte 4 (length-to_le 4 v))
    ∙ from_le-to_le 4 v h

link-put_other :
    (c d v : ℕ) (b : Buffer)
    → (d < c) ⊎ (c < d)
    → link (put (c * 4) (to_le 4 v) b).byte d ≡ link b.byte d
link-put_other c d v b h =
    ap from_le
      (slice-overlay_outside (c * 4) (to_le 4 v) b.byte (d * 4) 4 (omega (arith, length-to_le 4 v)))

write_links-Linked :
    (left c : ℕ) (b b' : Buffer) → write_links left c b ≡ ok b' → Linked left c b b'
unfolding write_links
write_links-Linked zero c b b' e =
    subst (Linked zero c b) (ok-injective e) (record { chain = tt; outside = λ d h. refl })
write_links-Linked (suc left) c b b' e₀ =
    let v : ℕ = if left == 0 then 0x0fff_ffff else c + 1 in
    let (fits, e₁) = pack_le-bind struct_error 4 v _ b' e₀ in
    let (_, e₂) = refuse-eq-ok (ltb b.size (c * 4 + 4)) struct_error _ e₁ in
    let ih = write_links-Linked left (c + 1) (put (c * 4) (to_le 4 v) b) b' e₂ in
    record {
      chain = (ih.outside c (inl (omega arith)) ∙ link-put_same c v b fits, ih.chain);
      outside = λ d h. ih.outside d (omega arith) ∙ link-put_other c d v b (omega arith);
    }

IsChain-ext :
    (f g : ℕ → ℕ) (n c : ℕ)
    → ((d : ℕ) → c ≤ d → d < c + n → link g d ≡ link f d)
    → IsChain f n c
    → IsChain g n c
IsChain-ext f g zero c h k = tt
IsChain-ext f g (suc n) c h k = (
  h c (omega arith) (omega arith) ∙ k.0,
  IsChain-ext f g n (c + 1) (λ d p q. h d (omega arith) (omega arith)) k.1,
)

IsNumbered-le : (next last : ℕ) (is : List Item) → IsNumbered next is last → next ≤ last
IsNumbered-le next last [] e = omega (arith, e)
IsNumbered-le next last (i ∷ is) (at, num) =
    omega (arith, IsNumbered-le (next + i.entry.cluster_count) last is num)

record Chained (next last : ℕ) (is : List Item) (b b' : Buffer) : Type 0 where
  chains : All (λ i. IsChain b'.byte i.entry.cluster_count i.entry.first_cluster) is
  outside : (d : ℕ) → (d < next) ⊎ (last ≤ d) → link b'.byte d ≡ link b.byte d
  ordered : next ≤ last

write_chains-Chained :
    (next last : ℕ) (is : List Item) (b b' : Buffer)
    → IsNumbered next is last
    → write_chains is b ≡ ok b'
    → Chained next last is b b'
unfolding write_chains
write_chains-Chained next last [] b b' num e =
    subst (Chained next last [] b) (ok-injective e)
      (record { chains = tt; outside = λ d h. refl; ordered = omega arith })
write_chains-Chained next last (i ∷ is) b b' (at, num) e₀ =
    let count = i.entry.cluster_count in
    let first = i.entry.first_cluster in
    let (b₁, linked, e₁) = bind-eq-ok (write_links count first b) _ e₀ in
    let l = write_links-Linked count first b b₁ linked in
    let ih = write_chains-Chained (next + count) last is b₁ b' num e₁ in
    record {
      chains = (
        IsChain-ext b₁.byte b'.byte count first (λ d p q. ih.outside d (omega (arith, at))) l.chain,
        ih.chains,
      );
      outside = λ d h.
          ih.outside d (omega (arith, ih.ordered)) ∙ l.outside d (omega (arith, at, ih.ordered));
      ordered = omega (arith, ih.ordered);
    }

follow-count_up :
    (byte : ℕ → ℕ) (n c more : ℕ)
    → IsChain byte (suc n) c
    → c + suc n ≤ 0x0fff_fff8
    → follow (suc n + more) byte c ≡ count_up (suc n) c
follow-count_up byte zero c more k h =
    ap (λ fuel. follow fuel byte c) one
    ∙ ap (λ v. c ∷ (if leb 0x0fff_fff8 v then [] else follow more byte v)) k.0
  where
    one : 1 + more ≡ suc more
    one = omega arith
follow-count_up byte (suc n) c more k h =
    let here : link byte c ≡ c + 1 = k.0 ∙ ground arith in
    let ih = follow-count_up byte n (c + 1) more k.1 (omega arith) in
    let small : leb 0x0fff_fff8 (c + 1) ≡ false = ground arith in
    let step : suc (suc n) + more ≡ suc (suc n + more) = omega arith in
    ap (λ fuel. follow fuel byte c) step
    ∙ ap (λ v. c ∷ (if leb 0x0fff_fff8 v then [] else follow (suc n + more) byte v)) here
    ∙ ap (λ t. c ∷ (if t then [] else follow (suc n + more) byte (c + 1))) small
    ∙ ap (c ∷◌) ih

-- What a reader finds from the first cluster of a node that has clusters, however many clusters it
-- would read.
abbrev pub IsFollowed : (ℕ → ℕ) → Item → Type 0
IsFollowed byte i =
    (more : ℕ)
    → 0 < i.entry.cluster_count
    → follow (i.entry.cluster_count + more) byte i.entry.first_cluster
      ≡ count_up i.entry.cluster_count i.entry.first_cluster

IsFollowed-intro :
    (byte : ℕ → ℕ) (n c : ℕ)
    → IsChain byte n c
    → (n ≡ 0) ⊎ (c + n ≤ 0x0fff_fff8)
    → (more : ℕ) → 0 < n
    → follow (n + more) byte c ≡ count_up n c
IsFollowed-intro byte zero c k h more pos = absurd (not_pos pos)
  where
    not_pos : ¬ (0 < 0)
    not_pos p = omega arith
IsFollowed-intro byte (suc n) c k (inl empty) more pos = cc
IsFollowed-intro byte (suc n) c k (inr fits) more pos = follow-count_up byte n c more k fits

follows-count_up :
    (byte : ℕ → ℕ) (next last : ℕ) (is : List Item)
    → IsNumbered next is last
    → last ≤ 0x0fff_fff8
    → All (λ i. IsChain byte i.entry.cluster_count i.entry.first_cluster) is
    → All (IsFollowed byte) is
follows-count_up byte next last [] num h a = tt
follows-count_up byte next last (i ∷ is) (at, num) h (a, more) =
    let o = IsNumbered-le (next + i.entry.cluster_count) last is num in
    (
      IsFollowed-intro byte i.entry.cluster_count i.entry.first_cluster a (omega (arith, at, o)),
      follows-count_up byte (next + i.entry.cluster_count) last is num h more,
    )

-- For nodes that are numbered one behind the other up to a cluster of at most 0x0ffffff8, a table
-- that `write_chains` has made without an error leads a reader from the first cluster of each
-- node that has clusters over its clusters in order and stops there, however many more clusters
-- he would read.
pub write_chains-follow :
    (next last : ℕ) (is : List Item) (b b' : Buffer)
    → IsNumbered next is last
    → last ≤ 0x0fff_fff8
    → write_chains is b ≡ ok b'
    → All (IsFollowed b'.byte) is
write_chains-follow next last is b b' num h e =
    follows-count_up b'.byte next last is num h
      (write_chains-Chained next last is b b' num e).chains
