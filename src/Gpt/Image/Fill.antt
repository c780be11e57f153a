-- ===== src/Gpt/Image/Fill.antt =====
-- The loop of `create_gpt_image` that fills the partitions.
use mathlib.Core.Path.{subst}
use rules_ostest.Base.{
  ℕ, ◌+◌, ◌*◌, ◌≤◌, ◌<◌, ◌≡◌, refl, ◌∙◌, ◌⊎◌, inl, inr, List, [], ◌∷◌, arith, length, All,
  ok-injective, bind-eq-ok, ok,
}
use rules_ostest.Bytes.{Bytes, slice}
use rules_ostest.Bytes.Slices.{slice_ext}
use rules_ostest.Files.{File}
use rules_ostest.Disk.{Host, open_image, place}
use rules_ostest.Disk.Place.{embedded, place-Placed}
use rules_ostest.Disk.Measure.{logical_size-open_image}
use rules_ostest.Gpt.{Partition}
use rules_ostest.Gpt.Layout.Order.{IsLaidOut}
use rules_ostest.Gpt.Image.{write_partitions}

-- The region of a partition holds its image, patched if that was asked for.
pub record Holds (host : Host) (f : File) (p : Partition) : Type 0 where
  pub image : Bytes
  pub opens : open_image host p.image p.image_compression ≡ ok image
  pub whole : length image ≡ p.image_size
  pub stored :
      slice f.byte (p.start_lba * 512) (length image)
      ≡ embedded p.start_lba p.patch_fat_hidden_sectors image

-- Offset `i` lies in no partition.
abbrev pub IsGap : List Partition → ℕ → Type 0
IsGap ps i = All (λ p. (i < p.start_lba * 512) ⊎ ((p.end_lba + 1) * 512 ≤ i)) ps

pub record IsFilled (host : Host) (last : ℕ) (ps : List Partition) (f f' : File) : Type 0 where
  pub size_kept : (last + 1) * 512 ≤ f.size → f'.size ≡ f.size
  pub gaps : (i : ℕ) → IsGap ps i → f'.byte i ≡ f.byte i
  pub held : All (Holds host f') ps

pub before-IsGap :
    (host : Host) (first last cursor : ℕ) (ps : List Partition) (i : ℕ)
    → IsLaidOut host first last cursor ps
    → i < cursor * 512
    → IsGap ps i
before-IsGap host first last cursor [] i laid h = tt
before-IsGap host first last cursor (p ∷ ps) i (placed, laid) h = (
  inl (omega (arith, placed.behind_cursor)),
  before-IsGap host first last (p.end_lba + 1) ps i laid
      (omega (arith, placed.behind_cursor, placed.end_is)),
)

pub after-IsGap :
    (host : Host) (first last cursor : ℕ) (ps : List Partition) (i : ℕ)
    → IsLaidOut host first last cursor ps
    → (last + 1) * 512 ≤ i
    → IsGap ps i
after-IsGap host first last cursor [] i laid h = tt
after-IsGap host first last cursor (p ∷ ps) i (placed, laid) h =
    (inr (omega (arith, placed.to_last)), after-IsGap host first last (p.end_lba + 1) ps i laid h)

pub write_partitions-IsFilled :
    (host : Host) (first last cursor : ℕ) (ps : List Partition) (f f' : File)
    → IsLaidOut host first last cursor ps
    → write_partitions host ps f ≡ ok f'
    → IsFilled host last ps f f'
unfolding write_partitions
write_partitions-IsFilled host first last cursor [] f f' laid e =
    subst (IsFilled host last [] f) (ok-injective e)
      (record { size_kept = λ _. refl; gaps = λ i _. refl; held = tt })
write_partitions-IsFilled host first last cursor (p ∷ ps) f f' (placed, laid) e₀ =
    let (f₁, done, e₁) =
      bind-eq-ok
        (place host p.image p.image_compression p.image_size p.start_lba p.patch_fat_hidden_sectors
          f)
        _ e₀ in
    let (image, opens, whole) =
      logical_size-open_image host p.image p.image_compression p.image_size placed.measured in
    let put =
      place-Placed host p.image p.image_compression p.image_size p.start_lba
        p.patch_fat_hidden_sectors image f f₁ opens whole
        (omega (arith, placed.has_sectors, placed.whole_sectors)) done in
    let ih = write_partitions-IsFilled host first last (p.end_lba + 1) ps f₁ f' laid e₁ in
    let ends : p.start_lba * 512 + length image ≡ (p.end_lba + 1) * 512 =
      omega (arith, whole, placed.end_is, placed.whole_sectors) in
    record {
      size_kept = λ r.
          let kept = put.size_kept (omega (arith, ends, placed.to_last)) in
          ih.size_kept (rw kept r) ∙ kept;
      gaps = λ i g. ih.gaps i g.1 ∙ put.outside i (omega (arith, g.0, ends));
      held = (
        record {
          image = image;
          opens = opens;
          whole = whole;
          stored =
              slice_ext f'.byte f₁.byte _ _ (length image) (λ i q.
                ih.gaps (p.start_lba * 512 + i)
                  (before-IsGap host first last (p.end_lba + 1) ps _ laid (omega (arith, ends))))
              ∙ put.inside;
        },
        ih.held,
      );
    }
