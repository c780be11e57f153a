-- ===== src/Files.antt =====
-- A binary file that is open for writing: its contents and the stream position.
pub mod Laws
use rules_ostest.Base.{
  ℕ, zero, suc, ◌+◌, ◌-◌, ◌*◌, min, max, ltb, if◌then◌else◌, length, is_empty, take, drop,
}
use rules_ostest.Bytes.{Bytes, slice, overlay}

pub record File : Type 0 where
  pub size : ℕ
  pub byte : ℕ → ℕ
  pub pos : ℕ

-- `path.open("wb")`
abbrev pub fresh : File
fresh = record { size = 0; byte = λ _. 0; pos = 0 }

-- `output.truncate(n)`
abbrev pub truncate : ℕ → File → File
truncate n f = record f { size = n; byte = λ i. if ltb i n then f.byte i else 0 }

-- `output.seek(n)`
abbrev pub seek : ℕ → File → File
seek n f = record f { pos = n }

-- `output.write(bs)`: past the end the file grows, and writing nothing changes nothing.
unfoldable pub write : Bytes → File → File
write bs f = record {
  size = if is_empty bs then f.size else max f.size (f.pos + length bs);
  byte = overlay f.pos bs f.byte;
  pos = f.pos + length bs;
}

abbrev available : ℕ → File → ℕ
available n f = min n (f.size - f.pos)

-- `output.read(n)`
abbrev pub read : ℕ → File → Bytes × File
read n f = (slice f.byte f.pos (available n f), record f { pos = f.pos + available n f })

-- `while chunk := source.read(n): output.write(chunk)` over what is left of `source`.
-- A round reads at least one byte, so the length of `source` and one more are enough fuel.
copy_loop : ℕ → ℕ → Bytes → File → File
copy_loop zero n source f = f
copy_loop (suc fuel) n source f =
    let chunk = take n source in
    let rest = copy_loop fuel n (drop n source) (write chunk f) in
    if is_empty chunk then f else rest

abbrev pub chunk_size : ℕ
chunk_size = 1024 * 1024

unfoldable pub copy : Bytes → File → File
unfolding copy_loop
copy source f = copy_loop (length source + 1) chunk_size source f

-- `output.seek(offset); output.write(bs)`
abbrev pub write_at : ℕ → Bytes → File → File
write_at offset bs f = write bs (seek offset f)
