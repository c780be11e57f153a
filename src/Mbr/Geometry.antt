-- ===== src/Mbr/Geometry.antt =====
-- The cylinders, heads and sectors of `_chs`.
use rules_ostest.Base.{ℕ, ◌+◌, ◌-◌, ◌*◌, ◌/◌, ◌%◌, ◌<◌, ◌≡◌, arith, length, get_or, All}
use rules_ostest.Mbr.{chs}
use rules_ostest.Bytes.{Bytes}

-- The LBA of three bytes, with 63 sectors a track and 255 heads.
abbrev pub lba_of : Bytes → ℕ
lba_of bytes =
    let head = get_or bytes 0 0 in
    let sector = get_or bytes 1 0 % 64 in
    let cylinder = get_or bytes 1 0 / 64 * 256 + get_or bytes 2 0 in
    (cylinder * 255 + head) * 63 + sector - 1

-- The cylinder, head and sector of an LBA below 1024 cylinders of 255 heads and 63 sectors read
-- back as that LBA.
pub lba_of-chs : (lba : ℕ) → lba < 1024 * 255 * 63 → lba_of (chs lba) ≡ lba
unfolding chs
lba_of-chs lba h = ground arith

pub chs-fits : (lba : ℕ) → (length (chs lba) ≡ 3) × All (λ b. b < 256) (chs lba)
unfolding chs
chs-fits lba = ground arith
