-- ===== src/Qemu/Media/Distinct.antt =====
-- All media of a machine.
use rules_ostest.Qemu.Media.Protected.{IsProtected}
use mathlib.Core.Path.{subst}
use rules_ostest.Base.Int.{ℤ, is_not_positive, to_ℕ, to_ℕ_pos}
use rules_ostest.Qemu.Media.Kept.{IsResolved, made_path, resolve_medium-IsResolved, or-false}
use rules_ostest.Qemu.Media.{
  destination_of, has_text, option_or, check_bootindex, check_name, has_number, add_bootindex, Made,
  Runfiles, resolve_media, MediaSpec, resolve_medium,
}
use rules_ostest.Qemu.{
  QemuMedia, Interface, duplicate_name, bad_bootindex, empty_name, duplicate_bootindex,
}
use rules_ostest.Text.{Text, same_text, same_text_self}
use rules_ostest.Base.{
  ℕ, ◌+◌, ◌<◌, ◌≡◌, refl, sym, ap, ◌∙◌, Bool, true, false, Option, none, some, List, [], ◌∷◌, ◌++◌,
  arith, ◌==◌, is_empty, All, refuse, ok-injective, bind-eq-ok, refuse-eq-ok, ok,
}

-- Each medium with its index, and the file of the test for it.
abbrev pub AreKept : Text → Text → ℕ → List QemuMedia → Type 0
AreKept tmpdir instance_name index [] = Unit
AreKept tmpdir instance_name index (m ∷ media) =
    (let own = destination_of tmpdir instance_name m.interface index in
      IsProtected own index m
      × (m.exported ≡ true → (m.readonly ≡ false) × (m.snapshot ≡ false) × (m.path ≡ own)))
    × AreKept tmpdir instance_name (index + 1) media

-- Not the same name, nor the same boot index.
pub record AreApart (m n : QemuMedia) : Type 0 where
  pub names : ¬ (m.name ≡ n.name)
  pub bootindices : (i : ℕ) → m.bootindex ≡ some i → ¬ (n.bootindex ≡ some i)

abbrev pub ArePairwiseApart : List QemuMedia → Type 0
ArePairwiseApart [] = Unit
ArePairwiseApart (m ∷ media) = All (AreApart m) media × ArePairwiseApart media

-- A name and a boot index that are not used before; boot indices are positive.
record IsFresh (used : List ℕ) (names : List Text) (m : QemuMedia) : Type 0 where
  new_name : has_text names m.name ≡ false
  new_index : (i : ℕ) → m.bootindex ≡ some i → (0 < i) × (has_number used i ≡ false)

some-same : {a b : ℕ} → some a ≡ some b → a ≡ b
some-same {a = a} h = ap (option_or a) h

checked-index :
    (used : List ℕ) (wanted : Option ℤ) (b : Option ℕ) (i : ℕ)
    → check_bootindex used wanted ≡ ok b
    → b ≡ some i
    → (0 < i) × (has_number used i ≡ false)
unfolding check_bootindex
checked-index used none b i h e = absurd (none-not (ok-injective h ∙ e))
  where
    none-not : ¬ (none ≡ some i)
    none-not k = cc
checked-index used (some n) b i h e =
    let (positive, h₁) = refuse-eq-ok (is_not_positive n) bad_bootindex _ h in
    let (unused, h₂) = refuse-eq-ok (has_number used (to_ℕ n)) duplicate_bootindex _ h₁ in
    let same : to_ℕ n ≡ i = some-same (ok-injective h₂ ∙ e) in
    (
      subst (λ k. 0 < k) same (to_ℕ_pos n positive),
      subst (λ k. has_number used k ≡ false) same unused,
    )

IsResolved-IsFresh :
    (own : Text) (index : ℕ) (used : List ℕ) (names : List Text) (found : QemuMedia × List Made)
    → IsResolved own index used names found
    → IsFresh used names found.0
unfolding check_name
IsResolved-IsFresh own index used names found v = record {
  new_name =
      let (some_name, h) = refuse-eq-ok (is_empty found.0.name) empty_name _ v.new_name in
      new_text (has_text names found.0.name) h;
  new_index = λ i e. checked-index used v.new_bootindex.0 found.0.bootindex i v.new_bootindex.1 e;
}
  where
    new_text : (test : Bool) → refuse test duplicate_name ≡ ok tt → test ≡ false
    new_text true h = cc
    new_text false h = refl

number_self : (n : ℕ) → (n == n) ≡ true
number_self n = ground arith

kept_unused :
    (b : Option ℕ) (used : List ℕ) (i : ℕ)
    → has_number (add_bootindex b used) i ≡ false
    → has_number used i ≡ false
kept_unused none used i h = h
kept_unused (some n) used i h = (or-false (n == i) (has_number used i) h).1

used_now :
    (b : Option ℕ) (used : List ℕ) (i : ℕ)
    → b ≡ some i
    → ¬ (has_number (add_bootindex b used) i ≡ false)
used_now none used i e h = cc
used_now (some n) used i e h =
    let same : n ≡ i = some-same e in
    let taken : (n == i) ≡ true = ap (n ==◌) (sym same) ∙ number_self n in
    cc (taken, (or-false (n == i) (has_number used i) h).0)

IsFresh-step :
    (used : List ℕ) (names : List Text) (first m : QemuMedia)
    → IsFresh (add_bootindex first.bootindex used) (first.name ∷ names) m
    → IsFresh used names m × AreApart first m
IsFresh-step used names first m v =
    let (other, new) = or-false (same_text first.name m.name) (has_text names m.name) v.new_name in
    (
      record {
        new_name = new;
        new_index =
            λ i e. ((v.new_index i e).0, kept_unused first.bootindex used i (v.new_index i e).1);
      },
      record {
        names = λ same. cc (ap (same_text first.name) same, same_text_self first.name, other);
        bootindices = λ i e k. used_now first.bootindex used i e (v.new_index i k).1;
      },
    )

All-step :
    (used : List ℕ) (names : List Text) (first : QemuMedia) (media : List QemuMedia)
    → All (IsFresh (add_bootindex first.bootindex used) (first.name ∷ names)) media
    → All (IsFresh used names) media × All (AreApart first) media
All-step used names first [] h = (tt, tt)
All-step used names first (m ∷ media) (h, hs) =
    let (fresh, apart) = IsFresh-step used names first m h in
    let (freshes, aparts) = All-step used names first media hs in
    ((fresh, freshes), (apart, aparts))

-- A file of the test for one of the media.
abbrev pub IsOwnFile : Text → Text → Made → Type 0
IsOwnFile tmpdir instance_name f =
    (interface : Interface) × (index : ℕ) × (made_path f
      ≡ destination_of tmpdir instance_name interface index)

own_files :
    (tmpdir instance_name : Text) (interface : Interface) (index : ℕ) (made rest : List Made)
    → All (λ f. made_path f ≡ destination_of tmpdir instance_name interface index) made
    → All (IsOwnFile tmpdir instance_name) rest
    → All (IsOwnFile tmpdir instance_name) (made ++ rest)
own_files tmpdir instance_name interface index [] rest h k = k
own_files tmpdir instance_name interface index (f ∷ made) rest (h, hs) k =
    ((interface, index, h), own_files tmpdir instance_name interface index made rest hs k)

record AreResolved (tmpdir instance_name : Text) (index : ℕ) (used : List ℕ) (names : List Text)
    (found : List QemuMedia × List Made) : Type 0 where
  kept : AreKept tmpdir instance_name index found.0
  fresh : All (IsFresh used names) found.0
  apart : ArePairwiseApart found.0
  own : All (IsOwnFile tmpdir instance_name) found.1

module _ (r : Runfiles) (tmpdir instance_name : Text) where
  resolve_media-AreResolved :
      (index : ℕ) (used : List ℕ) (names : List Text) (specs : List MediaSpec)
      (found : List QemuMedia × List Made)
      → resolve_media r tmpdir instance_name index used names specs ≡ ok found
      → AreResolved tmpdir instance_name index used names found
  unfolding resolve_media
  resolve_media-AreResolved index used names [] found h =
      subst (AreResolved tmpdir instance_name index used names) (ok-injective h)
        (record { kept = tt; fresh = tt; apart = tt; own = tt })
  resolve_media-AreResolved index used names (spec ∷ specs) found h =
      let (first, one, h₁) =
        bind-eq-ok (resolve_medium r tmpdir instance_name index used names spec) _ h in
      let used' = add_bootindex first.0.bootindex used in
      let names' = first.0.name ∷ names in
      let (rest, more, h₂) =
        bind-eq-ok (resolve_media r tmpdir instance_name (index + 1) used' names' specs) _ h₁ in
      let v = resolve_medium-IsResolved r tmpdir instance_name index used names spec first one in
      let vs = resolve_media-AreResolved (index + 1) used' names' specs rest more in
      let (fresh, apart) = All-step used names first.0 rest.0 vs.fresh in
      subst (AreResolved tmpdir instance_name index used names) (ok-injective h₂) (record {
        kept = ((v.kept.is_protected, v.kept.export_is_own), vs.kept);
        fresh = (IsResolved-IsFresh _ index used names first v, fresh);
        apart = (apart, vs.apart);
        own =
            own_files tmpdir instance_name first.0.interface index first.1 rest.1 v.kept.made_own
              vs.own;
      })

  -- Where the media of a test are resolved without an error, the drive of each medium has the
  -- file of the test for it, or else, as QEMU reads its options, is read-only or a snapshot; an
  -- exported medium is the file of the test and neither read-only nor a snapshot; no two media
  -- share a name or a boot index; and only files of the test are made.
  pub resolve_media-AreKept :
      (specs : List MediaSpec) (media : List QemuMedia) (made : List Made)
      → resolve_media r tmpdir instance_name 0 [] [] specs ≡ ok (media, made)
      → AreKept tmpdir instance_name 0 media
        × ArePairwiseApart media
        × All (IsOwnFile tmpdir instance_name) made
  resolve_media-AreKept specs media made h =
      let v = resolve_media-AreResolved 0 [] [] specs (media, made) h in (v.kept, v.apart, v.own)
