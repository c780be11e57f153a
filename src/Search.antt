-- ===== src/Search.antt =====
-- `bytes.find` and the slices that the serial matcher takes of its buffers.
pub mod Overlap
pub mod Order
use mathlib.Core.Option
use rules_ostest.Base.{
  ℕ, suc, ◌-◌, Bool, true, false, ◌&&◌, Option, none, some, [], ◌∷◌, ◌==◌, if◌then◌else◌, length,
  drop,
}
use rules_ostest.Bytes.{Bytes}

-- `buffer.startswith(marker)`
unfoldable pub starts_with : Bytes → Bytes → Bool
starts_with [] buffer = true
starts_with (m ∷ marker) [] = false
starts_with (m ∷ marker) (b ∷ buffer) = m == b && starts_with marker buffer

-- `buffer.find(marker)`: the first position, `none` for -1.
unfoldable pub find : Bytes → Bytes → Option ℕ
unfolding starts_with
find marker [] = if starts_with marker [] then some 0 else none
find marker (b ∷ buffer) =
    let later = Option.map suc (find marker buffer) in
    if starts_with marker (b ∷ buffer) then some 0 else later

-- `buffer[-n:]` for a positive `n`, and `b""` for 0.
abbrev pub last : ℕ → Bytes → Bytes
last n buffer = drop (length buffer - n) buffer
