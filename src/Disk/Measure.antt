-- ===== src/Disk/Measure.antt =====
-- `_logical_size` beside `_copy_file`.
use rules_ostest.Base.{
  ℕ, zero, suc, ◌+◌, ◌<◌, String, ◌≡◌, [], ◌∷◌, arith, length, take, drop, length-take, length-drop,
  ok-injective, bind-eq-ok, ok,
}
use rules_ostest.Bytes.{Bytes}
use rules_ostest.Files.{chunk_size}
use rules_ostest.Disk.{
  Host, Compression, gzip, plain, count_loop, open_image, open_plain, logical_size,
}

count_loop-length :
    (fuel n : ℕ) (source : Bytes) (size : ℕ)
    → 0 < n
    → length source < fuel
    → count_loop fuel n source size ≡ size + length source
unfolding count_loop
count_loop-length zero n source size p h = absurd (omega arith)
count_loop-length (suc fuel) zero source size p h = absurd (omega arith)
count_loop-length (suc fuel) (suc n) [] size p h = omega arith
count_loop-length (suc fuel) (suc n) (b ∷ source) size p h = omega (
  arith,
  count_loop-length fuel (suc n) (drop n source) (size + suc (length (take n source))) p
      (omega (arith, length-drop n source)),
  length-take n source,
  length-drop n source,
)

-- An image whose size was found, by chunks or from the file system, can be opened, and what it
-- holds has that size.
pub logical_size-open_image :
    (host : Host) (source : String) (c : Compression) (size : ℕ)
    → logical_size host source c ≡ ok size
    → (image : Bytes) × (open_image host source c ≡ ok image) × (length image ≡ size)
unfolding logical_size
logical_size-open_image host source plain size e₀ =
    let (image, opened, e₁) = bind-eq-ok (open_plain host source) _ e₀ in
    (image, opened, ok-injective e₁)
logical_size-open_image host source gzip size e₀ =
    let (image, opened, e₁) = bind-eq-ok (open_image host source gzip) _ e₀ in
    (
      image,
      opened,
      omega (
        arith,
        ok-injective e₁,
        count_loop-length (length image + 1) chunk_size image 0 (omega arith) (omega arith),
      ),
    )
