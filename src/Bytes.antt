-- ===== src/Bytes.antt =====
-- Bytes, the integers that `struct` packs, and Python's `bytearray`.
-- A buffer is its size and the byte at each offset, so that a byte of a disk is read without
-- a list of the whole disk.
pub mod Overlay
pub mod Slices
use rules_ostest.Base.{
  ℕ, zero, suc, ◌+◌, ◌-◌, ◌*◌, ◌/◌, ◌%◌, ◌^◌, ◌&&◌, List, [], ◌∷◌, ◌++◌, ltb, leb, if◌then◌else◌,
  length, get_or, replicate, Result, ok, err,
}

abbrev pub Bytes : Type 0
Bytes = List ℕ

-- The `w` low bytes of `v`, the lowest first.
abbrev pub to_le : ℕ → ℕ → Bytes
to_le zero v = []
to_le (suc w) v = v % 256 ∷ to_le w (v / 256)

-- The number that bytes stand for, the lowest first.
abbrev pub from_le : Bytes → ℕ
from_le [] = 0
from_le (b ∷ bs) = b + 256 * from_le bs

-- `struct.pack("<…", v)` for an unsigned field of `w` bytes; `e` is `struct.error`.
unfoldable pub pack_le : {E : Type 0} → E → ℕ → ℕ → Result E Bytes
pack_le e w v = if ltb v (256 ^ w) then ok (to_le w v) else err e

-- `bytes.ljust(w, fill)`
abbrev pub ljust : ℕ → ℕ → Bytes → Bytes
ljust w fill bs = bs ++ replicate (w - length bs) fill

-- The bytes at `start`, `start + 1`, …, of which there are `n`.
abbrev pub slice : (ℕ → ℕ) → ℕ → ℕ → Bytes
slice byte start zero = []
slice byte start (suc n) = byte start ∷ slice byte (start + 1) n

-- `bs` written over the bytes from `start` on.
unfoldable pub overlay : ℕ → Bytes → (ℕ → ℕ) → ℕ → ℕ
overlay start bs byte i =
    if leb start i && ltb i (start + length bs) then get_or bs (i - start) 0 else byte i

pub record Buffer : Type 0 where
  pub size : ℕ
  pub byte : ℕ → ℕ

-- `bytearray(n)`
abbrev pub bytearray : ℕ → Buffer
bytearray n = record { size = n; byte = λ _. 0 }

-- `buffer[start:start + len(bs)] = bs` and `struct.pack_into`, within the buffer.
abbrev pub put : ℕ → Bytes → Buffer → Buffer
put start bs b = record b { byte = overlay start bs b.byte }

-- `bytes(buffer)`
abbrev pub to_bytes : Buffer → Bytes
to_bytes b = slice b.byte 0 b.size
