-- ===== src/Raw/Blobs.antt =====
-- The check and the loop of `create_raw_image` over the sorted blobs.
use mathlib.Core.Path.{subst}
use rules_ostest.Files.Laws.{copy-eq-write, size-write, write_elsewhere, write_inside}
use rules_ostest.Files.{File, copy, seek}
use rules_ostest.Raw.{check_overlaps, write_blobs, Blob, overlapping}
use rules_ostest.Bytes.{slice}
use rules_ostest.Base.{
  ℕ, ◌+◌, ◌≤◌, ◌≡◌, refl, sym, ap, ◌∙◌, ◌⊎◌, inl, List, [], ◌∷◌, arith, ltb, length, take, All,
  refuse-eq-ok, ok,
}

abbrev pub Valid : ℕ → Blob → Type 0
Valid total b = (b.end ≡ b.offset + length b.bytes) × (b.end ≤ total)

-- Each blob starts at `next` or behind it, and the later ones at its end or behind it.
abbrev pub IsChained : ℕ → List Blob → Type 0
IsChained next [] = Unit
IsChained next (b ∷ blobs) = (next ≤ b.offset) × IsChained b.end blobs

-- The bytes from `start` to `stop` are in no blob.
abbrev IsElsewhere : ℕ → ℕ → List Blob → Type 0
IsElsewhere start n blobs =
    All (λ b. (start + n ≤ b.offset) ⊎ (b.offset + length b.bytes ≤ start)) blobs

abbrev pub IsHeld : File → Blob → Type 0
IsHeld f b = slice f.byte b.offset (length b.bytes) ≡ b.bytes

pub check_overlaps-IsChained :
    (next : ℕ) (blobs : List Blob)
    → check_overlaps blobs ≡ ok tt
    → All (λ b. next ≤ b.offset) (take 1 blobs)
    → IsChained next blobs
unfolding check_overlaps
check_overlaps-IsChained next [] h k = tt
check_overlaps-IsChained next (b ∷ []) h k = (k.0, tt)
check_overlaps-IsChained next (b ∷ c ∷ blobs) e₀ k =
    let (apart, e₁) = refuse-eq-ok (ltb c.offset b.end) overlapping _ e₀ in
    (k.0, check_overlaps-IsChained b.end (c ∷ blobs) e₁ (ground (arith, apart), tt))

IsChained→IsElsewhere :
    (total start n next : ℕ) (blobs : List Blob)
    → start + n ≤ next
    → All (Valid total) blobs
    → IsChained next blobs
    → IsElsewhere start n blobs
IsChained→IsElsewhere total start n next [] h v k = tt
IsChained→IsElsewhere total start n next (b ∷ blobs) h (v, vs) (k, ks) =
    (inl (omega arith), IsChained→IsElsewhere total start n b.end blobs (omega (arith, v.0)) vs ks)

write_blobs-elsewhere :
    (start n : ℕ) (blobs : List Blob) (f : File)
    → IsElsewhere start n blobs
    → slice (write_blobs blobs f).byte start n ≡ slice f.byte start n
unfolding write_blobs
write_blobs-elsewhere start n [] f h = refl
write_blobs-elsewhere start n (b ∷ blobs) f (h, hs) =
    write_blobs-elsewhere start n blobs (copy b.bytes (seek b.offset f)) hs
    ∙ ap (λ g. slice g.byte start n) (copy-eq-write b.bytes (seek b.offset f))
    ∙ write_elsewhere b.bytes (seek b.offset f) start n h

pub write_blobs-IsHeld :
    (total next : ℕ) (blobs : List Blob) (f : File)
    → All (Valid total) blobs
    → IsChained next blobs
    → All (IsHeld (write_blobs blobs f)) blobs
unfolding write_blobs
write_blobs-IsHeld total next [] f v k = tt
write_blobs-IsHeld total next (b ∷ blobs) f (v, vs) (k, ks) =
    let g = copy b.bytes (seek b.offset f) in
    let later =
      IsChained→IsElsewhere total b.offset (length b.bytes) b.end blobs (omega (arith, v.0)) vs
        ks in
    (
      write_blobs-elsewhere b.offset (length b.bytes) blobs g later
          ∙ ap (λ g. slice g.byte b.offset (length b.bytes))
              (copy-eq-write b.bytes (seek b.offset f))
          ∙ write_inside b.bytes (seek b.offset f) (length b.bytes) refl,
      write_blobs-IsHeld total b.end blobs g vs ks,
    )

pub size-write_blobs :
    (blobs : List Blob) (f : File) → All (Valid f.size) blobs → (write_blobs blobs f).size ≡ f.size
unfolding write_blobs
size-write_blobs [] f v = refl
size-write_blobs (b ∷ blobs) f (v, vs) =
    let g = copy b.bytes (seek b.offset f) in
    let same : g.size ≡ f.size =
      ap (λ h. h.size) (copy-eq-write b.bytes (seek b.offset f))
      ∙ size-write b.bytes (seek b.offset f) (omega (arith, v.0, v.1)) in
    size-write_blobs blobs g (subst (λ n. All (Valid n) blobs) (sym same) vs) ∙ same
