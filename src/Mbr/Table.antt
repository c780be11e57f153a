-- ===== src/Mbr/Table.antt =====
-- The partition table in the first sector, as it is read back.
use rules_ostest.Bytes.Slices.{slice_ext, field-slice, slice_shift, slice-overlay_at}
use rules_ostest.Bytes.Overlay.{pack_le-bind, from_le-to_le, overlay_outside, get_or-slice}
use rules_ostest.Mbr.Geometry.{chs-fits}
use rules_ostest.Bytes.{Bytes, slice, to_le, Buffer, from_le, overlay, pack_le, bytearray, put}
use rules_ostest.Mbr.{Primary, partition_sector, write_primaries, chs, write_primary, struct_error}
use rules_ostest.Base.{
  ℕ, ◌+◌, ◌*◌, ◌^◌, ◌≤◌, ◌<◌, ◌≡◌, refl, sym, ap, ◌∙◌, inl, inr, Bool, List, [], ◌∷◌, ◌++◌, arith,
  if◌then◌else◌, length, get_or, take, drop, length-append, ok-injective, bind-eq-ok, ok,
}
use mathlib.Core.Path.{subst, ap₂}

-- The entry at `446 + index * 16`: its status, both CHS addresses, its type, its first LBA and its
-- sectors.
pub record HasEntry (byte : ℕ → ℕ) (index : ℕ) (p : Primary) : Type 0 where
  pub status : slice byte (446 + index * 16) 1 ≡ (if p.bootable then 0x80 else 0) ∷ []
  pub first_chs : slice byte (446 + index * 16 + 1) 3 ≡ chs p.start
  pub type : slice byte (446 + index * 16 + 4) 1 ≡ p.type_id ∷ []
  pub last_chs : slice byte (446 + index * 16 + 5) 3 ≡ chs p.end
  pub start : from_le (slice byte (446 + index * 16 + 8) 4) ≡ p.start
  pub sectors : from_le (slice byte (446 + index * 16 + 12) 4) ≡ p.sectors

abbrev pub HasEntries : (ℕ → ℕ) → ℕ → List Primary → Type 0
HasEntries byte index [] = Unit
HasEntries byte index (p ∷ ps) = HasEntry byte index p × HasEntries byte (index + 1) ps

-- The first sector: zeros, the entries of the partitions, zeros, and the signature.
pub record IsTable (byte : ℕ → ℕ) (ps : List Primary) : Type 0 where
  pub code : (i : ℕ) → i < 446 → byte i ≡ 0
  pub entries : HasEntries byte 0 ps
  pub unused : (i : ℕ) → 446 + length ps * 16 ≤ i → i < 510 → byte i ≡ 0
  pub signature : slice byte 510 2 ≡ 0x55 ∷ 0xaa ∷ []

HasEntry-ext :
    (f g : ℕ → ℕ) (index : ℕ) (p : Primary)
    → ((i : ℕ) → 446 + index * 16 ≤ i → i < 446 + index * 16 + 16 → g i ≡ f i)
    → HasEntry f index p
    → HasEntry g index p
HasEntry-ext f g index p h v =
    let same : (o n : ℕ)
        → o + n ≤ 16
        → slice g (446 + index * 16 + o) n ≡ slice f (446 + index * 16 + o) n =
      λ o n q.
        slice_ext g f _ _ n (λ i r. h (446 + index * 16 + o + i) (omega arith) (omega arith)) in
    record {
      status =
          slice_ext g f _ _ 1 (λ i r. h (446 + index * 16 + i) (omega arith) (omega arith))
          ∙ v.status;
      first_chs = same 1 3 (omega arith) ∙ v.first_chs;
      type = same 4 1 (omega arith) ∙ v.type;
      last_chs = same 5 3 (omega arith) ∙ v.last_chs;
      start = ap from_le (same 8 4 (omega arith)) ∙ v.start;
      sectors = ap from_le (same 12 4 (omega arith)) ∙ v.sectors;
    }

HasEntries-ext :
    (f g : ℕ → ℕ) (index : ℕ) (ps : List Primary)
    → ((i : ℕ) → 446 + index * 16 ≤ i → i < 446 + (index + length ps) * 16 → g i ≡ f i)
    → HasEntries f index ps
    → HasEntries g index ps
HasEntries-ext f g index [] h v = tt
HasEntries-ext f g index (p ∷ ps) h (v, vs) = (
  HasEntry-ext f g index p (λ i q r. h i q (omega arith)) v,
  HasEntries-ext f g (index + 1) ps (λ i q r. h i (omega arith) (omega arith)) vs,
)

-- The 16 bytes of an entry.
abbrev entry_of : Bool → Bytes → ℕ → Bytes → ℕ → ℕ → Bytes
entry_of bootable first type last start sectors =
    let status = if bootable then 0x80 else 0 in
    status ∷ first ++ (type ∷ last ++ (to_le 4 start ++ to_le 4 sectors))

three : (bs : Bytes) → length bs ≡ 3 → bs ≡ get_or bs 0 0 ∷ get_or bs 1 0 ∷ get_or bs 2 0 ∷ []
three [] h = absurd (no h)
  where
    no : ¬ (length {A = ℕ} [] ≡ 3)
    no e = omega (arith, e)
three (a ∷ []) h = absurd (no h)
  where
    no : ¬ (length (a ∷ []) ≡ 3)
    no e = omega (arith, e)
three (a ∷ b ∷ []) h = absurd (no h)
  where
    no : ¬ (length (a ∷ b ∷ []) ≡ 3)
    no e = omega (arith, e)
three (a ∷ b ∷ c ∷ []) h = refl
three (a ∷ b ∷ c ∷ d ∷ bs) h = absurd (no h)
  where
    no : ¬ (length (a ∷ b ∷ c ∷ d ∷ bs) ≡ 3)
    no e = omega (arith, e)

chs-three :
    (lba : ℕ) → chs lba ≡ get_or (chs lba) 0 0 ∷ get_or (chs lba) 1 0 ∷ get_or (chs lba) 2 0 ∷ []
chs-three lba = three (chs lba) (chs-fits lba).0

-- Where 16 bytes are an entry, its fields are read back.
entry-HasEntry :
    (byte : ℕ → ℕ) (index : ℕ) (p : Primary)
    → slice byte (446 + index * 16) 16
      ≡ entry_of p.bootable (chs p.start) p.type_id (chs p.end) p.start p.sectors
    → p.start < 256 ^ 4
    → p.sectors < 256 ^ 4
    → HasEntry byte index p
entry-HasEntry byte index p inside start_fits sectors_fits =
    let s = 446 + index * 16 in
    let first = chs p.start in
    let last = chs p.end in
    let whole : slice byte s 16
        ≡ entry_of p.bootable (get_or first 0 0 ∷ get_or first 1 0 ∷ get_or first 2 0 ∷ [])
            p.type_id (get_or last 0 0 ∷ get_or last 1 0 ∷ get_or last 2 0 ∷ []) p.start p.sectors =
      inside
      ∙ ap₂ (λ a b. entry_of p.bootable a p.type_id b p.start p.sectors) (chs-three p.start)
          (chs-three p.end) in
    let field : (o n : ℕ) → o + n ≤ 16 → slice byte (s + o) n ≡ take n (drop o (slice byte s 16)) =
      λ o n h. sym (field-slice byte s 16 o n h) in
    record {
      status =
          slice_shift byte s (s + 0) 1 (omega arith)
          ∙ field 0 1 (omega arith)
          ∙ ap (λ l. take 1 (drop 0 l)) whole;
      first_chs =
          field 1 3 (omega arith) ∙ ap (λ l. take 3 (drop 1 l)) whole ∙ sym (chs-three p.start);
      type = field 4 1 (omega arith) ∙ ap (λ l. take 1 (drop 4 l)) whole;
      last_chs =
          field 5 3 (omega arith) ∙ ap (λ l. take 3 (drop 5 l)) whole ∙ sym (chs-three p.end);
      start =
          ap from_le (field 8 4 (omega arith) ∙ ap (λ l. take 4 (drop 8 l)) whole)
          ∙ from_le-to_le 4 p.start start_fits;
      sectors =
          ap from_le (field 12 4 (omega arith) ∙ ap (λ l. take 4 (drop 12 l)) whole)
          ∙ from_le-to_le 4 p.sectors sectors_fits;
    }

length-entry :
    (bootable : Bool) (first : Bytes) (type : ℕ) (last : Bytes) (start sectors : ℕ)
    → length first ≡ 3
    → length last ≡ 3
    → length (entry_of bootable first type last start sectors) ≡ 16
length-entry bootable first type last start sectors h k = omega (
  arith,
  h,
  k,
  length-append first (type ∷ last ++ (to_le 4 start ++ to_le 4 sectors)),
  length-append last (to_le 4 start ++ to_le 4 sectors),
)

record IsWritten (index : ℕ) (ps : List Primary) (b b' : Buffer) : Type 0 where
  before : (i : ℕ) → i < 446 + index * 16 → b'.byte i ≡ b.byte i
  entries : HasEntries b'.byte index ps
  behind : (i : ℕ) → 446 + (index + length ps) * 16 ≤ i → b'.byte i ≡ b.byte i

write_primaries-IsWritten :
    (index : ℕ) (ps : List Primary) (b b' : Buffer)
    → write_primaries index ps b ≡ ok b'
    → IsWritten index ps b b'
unfolding write_primaries write_primary
write_primaries-IsWritten index [] b b' e =
    subst (IsWritten index [] b) (ok-injective e)
      (record { before = λ i h. refl; entries = tt; behind = λ i h. refl })
write_primaries-IsWritten index (p ∷ ps) b b' e₀ =
    let (b₁, wrote, e₁) = bind-eq-ok (write_primary index p b) _ e₀ in
    let (start_fits, e₂) = pack_le-bind struct_error 4 p.start _ b₁ wrote in
    let (sectors_fits, e₃) = pack_le-bind struct_error 4 p.sectors _ b₁ e₂ in
    let entry = entry_of p.bootable (chs p.start) p.type_id (chs p.end) p.start p.sectors in
    let s = 446 + index * 16 in
    let size =
      length-entry p.bootable (chs p.start) p.type_id (chs p.end) p.start p.sectors
        (chs-fits p.start).0 (chs-fits p.end).0 in
    let here : (i : ℕ) → b₁.byte i ≡ overlay s entry b.byte i =
      λ i. ap (λ c. c.byte i) (sym (ok-injective e₃)) in
    let inside : slice b₁.byte s 16 ≡ entry =
      slice_ext b₁.byte (overlay s entry b.byte) s s 16 (λ i h. here (s + i))
      ∙ slice-overlay_at s entry b.byte 16 size in
    let ih = write_primaries-IsWritten (index + 1) ps b₁ b' e₁ in
    record {
      before = λ i h. ih.before i (omega arith) ∙ here i ∙ overlay_outside s entry b.byte i (inl h);
      entries = (
        HasEntry-ext b₁.byte b'.byte index p (λ i q r. ih.before i (omega arith))
            (entry-HasEntry b₁.byte index p inside start_fits sectors_fits),
        ih.entries,
      );
      behind = λ i h.
          ih.behind i (omega arith)
          ∙ here i
          ∙ overlay_outside s entry b.byte i (inr (omega (arith, size)));
    }

pub size-write_primaries :
    (index : ℕ) (ps : List Primary) (b b' : Buffer)
    → write_primaries index ps b ≡ ok b'
    → b'.size ≡ b.size
unfolding write_primaries write_primary
size-write_primaries index [] b b' e = ap (λ c. c.size) (sym (ok-injective e))
size-write_primaries index (p ∷ ps) b b' e₀ =
    let (b₁, wrote, e₁) = bind-eq-ok (write_primary index p b) _ e₀ in
    let (start, _, e₂) = bind-eq-ok (pack_le struct_error 4 p.start) _ wrote in
    let (sectors, _, e₃) = bind-eq-ok (pack_le struct_error 4 p.sectors) _ e₂ in
    size-write_primaries (index + 1) ps b₁ b' e₁ ∙ ap (λ c. c.size) (sym (ok-injective e₃))

-- The table of at most four partitions.
pub partition_sector-IsTable :
    (ps : List Primary) (mbr : Bytes) (byte : ℕ → ℕ)
    → length ps ≤ 4
    → partition_sector ps ≡ ok mbr
    → slice byte 0 512 ≡ mbr
    → IsTable byte ps
unfolding partition_sector
partition_sector-IsTable ps mbr byte few e₀ here =
    let (b, wrote, e₁) = bind-eq-ok (write_primaries 0 ps (bytearray 512)) _ e₀ in
    let w = write_primaries-IsWritten 0 ps (bytearray 512) b wrote in
    let size = size-write_primaries 0 ps (bytearray 512) b wrote in
    let last = put 510 (0x55 ∷ 0xaa ∷ []) b in
    let written : slice byte 0 512 ≡ slice last.byte 0 512 =
      here ∙ sym (ok-injective e₁) ∙ ap (slice last.byte 0) size in
    let at : (i : ℕ) → i < 512 → byte i ≡ last.byte i = λ i h.
      sym (get_or-slice byte 0 512 i h ∙ ap byte (omega arith))
      ∙ ap (λ l. get_or l i 0) written
      ∙ get_or-slice last.byte 0 512 i h
      ∙ ap last.byte (omega arith) in
    let below : (i : ℕ) → i < 510 → byte i ≡ b.byte i =
      λ i h. at i (omega arith) ∙ overlay_outside 510 (0x55 ∷ 0xaa ∷ []) b.byte i (inl h) in
    record {
      code = λ i h. below i (omega arith) ∙ w.before i (omega arith);
      entries = HasEntries-ext b.byte byte 0 ps (λ i q r. below i (omega arith)) w.entries;
      unused = λ i h k. below i k ∙ w.behind i (omega arith);
      signature =
          slice_ext byte last.byte 510 510 2 (λ i h. at (510 + i) (omega arith))
          ∙ slice-overlay_at 510 (0x55 ∷ 0xaa ∷ []) b.byte 2 refl;
    }
