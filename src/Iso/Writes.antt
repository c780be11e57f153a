-- ===== src/Iso/Writes.antt =====
-- The loop of `create_iso` over the sectors.
use rules_ostest.Files.Laws.{size-write, write_elsewhere, write_inside}
use rules_ostest.Files.{File, write_at, seek}
use rules_ostest.Bytes.{Bytes, slice}
use rules_ostest.Iso.{write_sectors}
use rules_ostest.Base.{
  ℕ, ◌+◌, ◌*◌, ◌≤◌, ◌≡◌, refl, ◌∙◌, ◌⊎◌, inl, List, [], ◌∷◌, arith, length, All,
}

-- A sector that no entry of the loop writes on.
abbrev pub IsElsewhere : ℕ → ℕ → List (ℕ × Bytes) → Type 0
IsElsewhere start n ws = All (λ w. (start + n ≤ w.0 * 2048) ⊎ (w.0 * 2048 + length w.1 ≤ start)) ws

write_sectors-elsewhere :
    (start n : ℕ) (ws : List (ℕ × Bytes)) (f : File)
    → IsElsewhere start n ws
    → slice (write_sectors ws f).byte start n ≡ slice f.byte start n
unfolding write_sectors
write_sectors-elsewhere start n [] f h = refl
write_sectors-elsewhere start n ((sector, bytes) ∷ ws) f (h, hs) =
    write_sectors-elsewhere start n ws (write_at (sector * 2048) bytes f) hs
    ∙ write_elsewhere bytes (seek (sector * 2048) f) start n h

-- Each entry of the loop is clear of the later ones.
abbrev pub AreApart : List (ℕ × Bytes) → Type 0
AreApart [] = Unit
AreApart ((sector, bytes) ∷ ws) = IsElsewhere (sector * 2048) (length bytes) ws × AreApart ws

-- Each entry starts at `next` or behind it, and the later ones behind its end.
abbrev pub IsSorted : ℕ → List (ℕ × Bytes) → Type 0
IsSorted next [] = Unit
IsSorted next ((sector, bytes) ∷ ws) =
    (next ≤ sector * 2048) × IsSorted (sector * 2048 + length bytes) ws

IsSorted→IsElsewhere :
    (start n next : ℕ) (ws : List (ℕ × Bytes))
    → start + n ≤ next
    → IsSorted next ws
    → IsElsewhere start n ws
IsSorted→IsElsewhere start n next [] h k = tt
IsSorted→IsElsewhere start n next ((sector, bytes) ∷ ws) h (k, ks) = (
  inl (omega arith),
  IsSorted→IsElsewhere start n (sector * 2048 + length bytes) ws (omega arith) ks,
)

pub IsSorted→AreApart : (next : ℕ) (ws : List (ℕ × Bytes)) → IsSorted next ws → AreApart ws
IsSorted→AreApart next [] h = tt
IsSorted→AreApart next ((sector, bytes) ∷ ws) (h, hs) =
    let end = sector * 2048 + length bytes in
    (
      IsSorted→IsElsewhere (sector * 2048) (length bytes) end ws (omega arith) hs,
      IsSorted→AreApart end ws hs,
    )

abbrev pub IsWritten : File → ℕ × Bytes → Type 0
IsWritten f w = slice f.byte (w.0 * 2048) (length w.1) ≡ w.1

pub write_sectors-IsWritten :
    (ws : List (ℕ × Bytes)) (f : File) → AreApart ws → All (IsWritten (write_sectors ws f)) ws
unfolding write_sectors
write_sectors-IsWritten [] f h = tt
write_sectors-IsWritten ((sector, bytes) ∷ ws) f (h, hs) = (
  write_sectors-elsewhere (sector * 2048) (length bytes) ws (write_at (sector * 2048) bytes f) h
      ∙ write_inside bytes (seek (sector * 2048) f) (length bytes) refl,
  write_sectors-IsWritten ws (write_at (sector * 2048) bytes f) hs,
)

pub size-write_sectors :
    (ws : List (ℕ × Bytes)) (f : File)
    → All (λ w. w.0 * 2048 + length w.1 ≤ f.size) ws
    → (write_sectors ws f).size ≡ f.size
unfolding write_sectors
size-write_sectors [] f h = refl
size-write_sectors ((sector, bytes) ∷ ws) f (h, hs) =
    let same = size-write bytes (seek (sector * 2048) f) h in
    size-write_sectors ws (write_at (sector * 2048) bytes f)
      (All-size ws f (write_at (sector * 2048) bytes f) same hs)
    ∙ same
  where
    All-size :
        (ws : List (ℕ × Bytes)) (f g : File)
        → g.size ≡ f.size
        → All (λ w. w.0 * 2048 + length w.1 ≤ f.size) ws
        → All (λ w. w.0 * 2048 + length w.1 ≤ g.size) ws
    All-size [] f g e h = tt
    All-size (w ∷ ws) f g e (h, hs) = (omega (arith, e), All-size ws f g e hs)
