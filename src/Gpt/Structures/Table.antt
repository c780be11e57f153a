-- ===== src/Gpt/Structures/Table.antt =====
-- The loop of `_partition_entries`.
use rules_ostest.Bytes.Overlay.{length-slice}
use mathlib.Core.Path.{subst, ap₂}
use rules_ostest.Base.{
  ℕ, ◌+◌, ◌-◌, ◌*◌, ◌≤◌, ◌<◌, ◌≡◌, refl, sym, ap, ◌∙◌, inl, inr, List, [], ◌∷◌, ◌++◌, arith, length,
  replicate, All, ok-injective, bind-eq-ok, ok,
}
use rules_ostest.Bytes.{Bytes, Buffer, slice, bytearray}
use rules_ostest.Bytes.Slices.{slice_split, slice_zeros, slice_ext, slice_shift}
use rules_ostest.Disk.{Host}
use rules_ostest.Gpt.{Partition}
use rules_ostest.Gpt.Structures.{write_entry, write_entries, partition_entries}
use rules_ostest.Gpt.Structures.Entries.{table, HasGuids, write_entry-IsWritten}

record IsFilled (host : Host) (index : ℕ) (ps : List Partition) (b b' : Buffer) : Type 0 where
  size_kept : b'.size ≡ b.size
  before : (i : ℕ) → i < index * 128 → b'.byte i ≡ b.byte i
  inside : slice b'.byte (index * 128) (length ps * 128) ≡ table host ps
  behind : (i : ℕ) → (index + length ps) * 128 ≤ i → b'.byte i ≡ 0

write_entries-IsFilled :
    (host : Host) (index : ℕ) (ps : List Partition) (b b' : Buffer)
    → All HasGuids ps
    → ((i : ℕ) → index * 128 ≤ i → b.byte i ≡ 0)
    → write_entries host index ps b ≡ ok b'
    → IsFilled host index ps b b'
unfolding write_entries
write_entries-IsFilled host index [] b b' g zeros e =
    subst (IsFilled host index [] b) (ok-injective e) (record {
      size_kept = refl;
      before = λ i p. refl;
      inside = refl;
      behind = λ i p. zeros i (omega arith);
    })
write_entries-IsFilled host index (p ∷ ps) b b' (g, gs) zeros e₀ =
    let (b₁, wrote, e₁) = bind-eq-ok (write_entry host index p b) _ e₀ in
    let w = write_entry-IsWritten host index p b b₁ g wrote in
    let ih =
      write_entries-IsFilled host (index + 1) ps b₁ b' gs
        (λ i q. w.outside i (inr (omega arith)) ∙ zeros i (omega arith)) e₁ in
    record {
      size_kept = ih.size_kept ∙ w.size_kept;
      before = λ i q. ih.before i (omega arith) ∙ w.outside i (inl q);
      inside =
          ap (slice b'.byte (index * 128)) (omega arith)
          ∙ slice_split b'.byte (index * 128) 128 (length ps * 128)
          ∙ ap₂ ◌++◌
              (slice_ext b'.byte b₁.byte _ _ 128 (λ i q. ih.before (index * 128 + i) (omega arith))
                ∙ w.inside (λ i q. zeros (index * 128 + i) (omega arith)))
              (slice_shift b'.byte _ _ _ (omega arith) ∙ ih.inside);
      behind = λ i q. ih.behind i (omega arith);
    }

-- For at most 128 partitions whose GUIDs have 16 bytes, the bytes that `partition_entries` makes
-- are the entries of the partitions in order, then zeros up to 16384 bytes.
pub partition_entries-table :
    (host : Host) (ps : List Partition) (entries : Bytes)
    → All HasGuids ps
    → length ps ≤ 128
    → partition_entries host ps ≡ ok entries
    → entries ≡ table host ps ++ replicate (16384 - length ps * 128) 0
unfolding partition_entries
partition_entries-table host ps entries g few e₀ =
    let (b, wrote, e₁) = bind-eq-ok (write_entries host 0 ps (bytearray 16384)) _ e₀ in
    let f = write_entries-IsFilled host 0 ps (bytearray 16384) b g (λ i q. refl) wrote in
    let e : b.size ≡ length ps * 128 + (16384 - length ps * 128) = omega (arith, f.size_kept) in
    sym (ok-injective e₁)
    ∙ ap (slice b.byte 0) e
    ∙ slice_split b.byte 0 (length ps * 128) (16384 - length ps * 128)
    ∙ ap₂ ◌++◌ f.inside (
        slice_zeros b.byte (0 + length ps * 128) (16384 - length ps * 128)
          (λ i q. f.behind (0 + length ps * 128 + i) (omega arith)))

size-write_entry :
    (host : Host) (index : ℕ) (p : Partition) (b b' : Buffer)
    → write_entry host index p b ≡ ok b'
    → b'.size ≡ b.size
unfolding write_entry
size-write_entry host index p b b' e = ground arith

size-write_entries :
    (host : Host) (index : ℕ) (ps : List Partition) (b b' : Buffer)
    → write_entries host index ps b ≡ ok b'
    → b'.size ≡ b.size
unfolding write_entries
size-write_entries host index [] b b' e = ap (λ c. c.size) (sym (ok-injective e))
size-write_entries host index (p ∷ ps) b b' e =
    let (b₁, wrote, e₁) = bind-eq-ok (write_entry host index p b) _ e in
    size-write_entries host (index + 1) ps b₁ b' e₁ ∙ size-write_entry host index p b b₁ wrote

-- The table is 32 sectors, whatever it holds.
pub length-partition_entries :
    (host : Host) (ps : List Partition) (entries : Bytes)
    → partition_entries host ps ≡ ok entries
    → length entries ≡ 16384
unfolding partition_entries
length-partition_entries host ps entries e₀ =
    let (b, wrote, e₁) = bind-eq-ok (write_entries host 0 ps (bytearray 16384)) _ e₀ in
    ap length (sym (ok-injective e₁))
    ∙ length-slice b.byte 0 b.size
    ∙ size-write_entries host 0 ps (bytearray 16384) b wrote
