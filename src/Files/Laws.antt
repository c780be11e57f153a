-- ===== src/Files/Laws.antt =====
-- The loop that copies by chunks, and single writes to a file.
use rules_ostest.Bytes.Slices.{slice-overlay_at, slice-overlay_outside}
use rules_ostest.Base.{
  ℕ, zero, suc, ◌+◌, ◌≤◌, ◌<◌, ◌≡◌, refl, sym, ap, ◌∙◌, ◌⊎◌, [], ◌∷◌, ◌++◌, arith, length, take,
  drop, length-append, take-append-drop, length-drop,
}
use rules_ostest.Bytes.{Bytes, slice}
use rules_ostest.Bytes.Overlay.{overlay-nil, overlay-append, overlay_outside}
use rules_ostest.Files.{File, write, copy_loop, copy, chunk_size}

write-nil : (f : File) → write [] f ≡ f
unfolding write
write-nil f = λ i. record { size = f.size; byte = overlay-nil f.pos f.byte i; pos = pos-eq i }
  where
    pos-eq : f.pos + 0 ≡ f.pos
    pos-eq = omega arith

write-append : (xs bs : Bytes) (f : File) → write bs (write xs f) ≡ write (xs ++ bs) f
unfolding write
write-append xs bs f =
    λ i. record { size = sizes i; byte = overlay-append f.pos xs bs f.byte i; pos = ends i }
  where
    sizes : (write bs (write xs f)).size ≡ (write (xs ++ bs) f).size
    sizes = ground (arith, length-append xs bs)

    ends : (write bs (write xs f)).pos ≡ (write (xs ++ bs) f).pos
    ends = omega (arith, length-append xs bs)

copy_loop-write :
    (fuel n : ℕ) (source : Bytes) (f : File)
    → 0 < n
    → length source < fuel
    → copy_loop fuel n source f ≡ write source f
unfolding copy_loop
copy_loop-write zero n source f p h = absurd (omega arith)
copy_loop-write (suc fuel) (suc n) [] f p h = sym (write-nil f)
copy_loop-write (suc fuel) (suc n) (b ∷ source) f p h =
    copy_loop-write fuel (suc n) (drop n source) (write (b ∷ take n source) f) p
      (omega (arith, length-drop n source))
    ∙ write-append (b ∷ take n source) (drop n source) f
    ∙ ap (λ s. write s f) (take-append-drop (suc n) (b ∷ source))
copy_loop-write (suc fuel) zero source f p h = absurd (omega arith)

-- Copying by chunks of 1 MiB writes what one write of the whole source would.
pub copy-eq-write : (source : Bytes) (f : File) → copy source f ≡ write source f
unfolding copy
copy-eq-write source f =
    copy_loop-write (length source + 1) chunk_size source f (omega arith) (omega arith)

-- The effect of one write, seen by later reads.
module _ (bs : Bytes) (f : File) where
  pub write_inside : (n : ℕ) → length bs ≡ n → slice (write bs f).byte f.pos n ≡ bs
  unfolding write
  write_inside n e = slice-overlay_at f.pos bs f.byte n e

  pub write_outside :
      (i : ℕ) → (i < f.pos) ⊎ (f.pos + length bs ≤ i) → (write bs f).byte i ≡ f.byte i
  unfolding write
  write_outside i h = overlay_outside f.pos bs f.byte i h

  pub write_elsewhere :
      (t n : ℕ)
      → (t + n ≤ f.pos) ⊎ (f.pos + length bs ≤ t)
      → slice (write bs f).byte t n ≡ slice f.byte t n
  unfolding write
  write_elsewhere t n h = slice-overlay_outside f.pos bs f.byte t n h

  pub pos-write : (write bs f).pos ≡ f.pos + length bs
  unfolding write
  pos-write = refl

  pub size-write : f.pos + length bs ≤ f.size → (write bs f).size ≡ f.size
  unfolding write
  size-write h = ground arith
