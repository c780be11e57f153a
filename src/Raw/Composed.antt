-- ===== src/Raw/Composed.antt =====
-- What a raw image holds.
use rules_ostest.Raw.Blobs.{
  Valid, IsHeld, check_overlaps-IsChained, write_blobs-IsHeld, size-write_blobs,
}
use rules_ostest.Base.Int.{ℤ, to_ℕ, is_not_positive}
use rules_ostest.Companion.Ends.{either_branch}
use rules_ostest.Bytes.{Bytes, slice}
use rules_ostest.Text.{Text}
use rules_ostest.Files.{File, truncate, fresh}
use rules_ostest.Raw.{
  RawHost, Blob, insert_blob, sort_blobs, check_overlaps, write_blobs, make_blob, parse_offset,
  blob_before, not_a_file, beyond_image, make_blobs, create_raw_image, bad_size,
}
use mathlib.Core.Path.{subst}
use rules_ostest.Base.{
  ℕ, ◌+◌, ◌*◌, ◌≤◌, String, ◌≡◌, refl, Option, none, some, List, [], ◌∷◌, arith, ltb, length, take,
  All, ◌>>=◌, ◌>>◌, refuse, ok-injective, bind-eq-ok, refuse-eq-ok, ok, err,
}

module _ (host : RawHost) where
  insert_blob-All :
      (P : Blob → Type 0) (b : Blob) (blobs : List Blob)
      → P b
      → All P blobs
      → All P (insert_blob host b blobs)
  insert_blob-All P b [] h hs = (h, tt)
  insert_blob-All P b (a ∷ blobs) h (k, ks) =
      either_branch (All P) (blob_before host a b) (λ _. (k, insert_blob-All P b blobs h ks))
        (λ _. (h, (k, ks)))

  sort_blobs-All :
      (P : Blob → Type 0) (blobs : List Blob) → All P blobs → All P (sort_blobs host blobs)
  sort_blobs-All P [] h = tt
  sort_blobs-All P (b ∷ blobs) (h, hs) =
      insert_blob-All P b (sort_blobs host blobs) h (sort_blobs-All P blobs hs)

  All-insert_blob :
      (P : Blob → Type 0) (b : Blob) (blobs : List Blob)
      → All P (insert_blob host b blobs)
      → P b × All P blobs
  All-insert_blob P b [] = λ h. h
  All-insert_blob P b (a ∷ blobs) =
      either_branch (λ l. All P l → P b × All P (a ∷ blobs)) (blob_before host a b)
        (λ _ h. let (p, ps) = All-insert_blob P b blobs h.1 in (p, (h.0, ps))) (λ _ h. h)

  All-sort_blobs :
      (P : Blob → Type 0) (blobs : List Blob) → All P (sort_blobs host blobs) → All P blobs
  All-sort_blobs P [] h = tt
  All-sort_blobs P (b ∷ blobs) h =
      let (p, ps) = All-insert_blob P b (sort_blobs host blobs) h in (p, All-sort_blobs P blobs ps)

  -- The source of an entry is at its offset.
  pub record IsPlaced (total : ℕ) (f : File) (entry : String × Text) : Type 0 where
    pub offset : ℕ
    pub bytes : Bytes
    pub opens : host.contents entry.0 ≡ some bytes
    pub parses : parse_offset host entry.1 ≡ ok offset
    pub fits : offset + length bytes ≤ total
    pub stored : slice f.byte offset (length bytes) ≡ bytes

  -- What a blob keeps of its entry.
  record IsOf (total : ℕ) (entry : String × Text) (b : Blob) : Type 0 where
    valid : Valid total b
    opens : host.contents entry.0 ≡ some b.bytes
    parses : parse_offset host entry.1 ≡ ok b.offset

  make_blob-IsOf :
      (total : ℕ) (source : String) (text : Text) (b : Blob)
      → make_blob host total source text ≡ ok b
      → IsOf total (source, text) b
  unfolding make_blob
  make_blob-IsOf total source text b h = made (host.contents source) refl h
    where
      made :
          (o : Option Bytes)
          → host.contents source ≡ o
          → elim o [
            | none ↦ err not_a_file
            | some bytes ↦ (do
              offset ← parse_offset host text
              refuse (ltb total (offset + length bytes)) beyond_image
              ok (record {
                offset = offset;
                end = offset + length bytes;
                source = source;
                bytes = bytes;
              }))
          ]
            ≡ ok b
          → IsOf total (source, text) b
      made none o e = cc
      made (some bytes) o e₀ =
          let (offset, parsed, e₁) = bind-eq-ok (parse_offset host text) _ e₀ in
          let (fits, e₂) = refuse-eq-ok (ltb total (offset + length bytes)) beyond_image _ e₁ in
          subst (IsOf total (source, text)) (ok-injective e₂)
            (record { valid = (refl, ground (arith, fits)); opens = o; parses = parsed })

  abbrev AreOf : ℕ → List (String × Text) → List Blob → Type 0
  AreOf total [] [] = Unit
  AreOf total [] (b ∷ blobs) = ⊥
  AreOf total (entry ∷ entries) [] = ⊥
  AreOf total (entry ∷ entries) (b ∷ blobs) = IsOf total entry b × AreOf total entries blobs

  make_blobs-AreOf :
      (total : ℕ) (entries : List (String × Text)) (blobs : List Blob)
      → make_blobs host total entries ≡ ok blobs
      → AreOf total entries blobs
  unfolding make_blobs
  make_blobs-AreOf total [] blobs h = subst (AreOf total []) (ok-injective h) tt
  make_blobs-AreOf total ((source, text) ∷ entries) blobs e₀ =
      let (b, made, e₁) = bind-eq-ok (make_blob host total source text) _ e₀ in
      let (more, rest, e₂) = bind-eq-ok (make_blobs host total entries) _ e₁ in
      subst (AreOf total ((source, text) ∷ entries)) (ok-injective e₂)
        (make_blob-IsOf total source text b made, make_blobs-AreOf total entries more rest)

  AreOf-Valid :
      (total : ℕ) (entries : List (String × Text)) (blobs : List Blob)
      → AreOf total entries blobs
      → All (Valid total) blobs
  AreOf-Valid total [] [] h = tt
  AreOf-Valid total [] (b ∷ blobs) h = absurd h
  AreOf-Valid total (entry ∷ entries) [] h = absurd h
  AreOf-Valid total (entry ∷ entries) (b ∷ blobs) (h, hs) =
      (h.valid, AreOf-Valid total entries blobs hs)

  AreOf-IsPlaced :
      (total : ℕ) (f : File) (entries : List (String × Text)) (blobs : List Blob)
      → AreOf total entries blobs
      → All (IsHeld f) blobs
      → All (IsPlaced total f) entries
  AreOf-IsPlaced total f [] [] h k = tt
  AreOf-IsPlaced total f [] (b ∷ blobs) h k = absurd h
  AreOf-IsPlaced total f (entry ∷ entries) [] h k = absurd h
  AreOf-IsPlaced total f (entry ∷ entries) (b ∷ blobs) (h, hs) (k, ks) = (
    record {
      offset = b.offset;
      bytes = b.bytes;
      opens = h.opens;
      parses = h.parses;
      fits = omega (arith, h.valid.0, h.valid.1);
      stored = k;
    },
    AreOf-IsPlaced total f entries blobs hs ks,
  )

  -- A raw image that is made without an error has `size_mb` MiB and holds the whole source of
  -- every entry at the offset that the entry's text stands for, within the image.
  pub create_raw_image-IsPlaced :
      (entries : List (String × Text)) (size_mb : ℤ) (f : File)
      → create_raw_image host entries size_mb ≡ ok f
      → (f.size ≡ to_ℕ size_mb * 1024 * 1024)
        × All (IsPlaced (to_ℕ size_mb * 1024 * 1024) f) entries
  unfolding create_raw_image
  create_raw_image-IsPlaced entries size_mb f e₀ =
      let total = to_ℕ size_mb * 1024 * 1024 in
      let (_, e₁) = refuse-eq-ok (is_not_positive size_mb) bad_size _ e₀ in
      let (blobs, made, e₂) = bind-eq-ok (make_blobs host total entries) _ e₁ in
      let (_, apart, e₃) = bind-eq-ok (check_overlaps (sort_blobs host blobs)) _ e₂ in
      let of_entries = make_blobs-AreOf total entries blobs made in
      let sorted = sort_blobs host blobs in
      let valid = sort_blobs-All (Valid total) blobs (AreOf-Valid total entries blobs of_entries) in
      let start = truncate total fresh in
      let chained = check_overlaps-IsChained 0 sorted apart (from_zero (take 1 sorted)) in
      let held =
        All-sort_blobs (IsHeld (write_blobs sorted start)) blobs
          (write_blobs-IsHeld total 0 sorted start valid chained) in
      subst (λ g. (g.size ≡ total) × All (IsPlaced total g) entries) (ok-injective e₃)
        (
          size-write_blobs sorted start valid,
          AreOf-IsPlaced total (write_blobs sorted start) entries blobs of_entries held,
        )
    where
      from_zero : (blobs : List Blob) → All (λ b. 0 ≤ b.offset) blobs
      from_zero [] = tt
      from_zero (b ∷ blobs) = (omega arith, from_zero blobs)
