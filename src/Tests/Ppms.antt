-- ===== src/Tests/Ppms.antt =====
-- A P6 image of two pixels.
use rules_ostest.Base.{◌≡◌, refl, [], ◌∷◌, result_or, eq-ok_of_is_ok, ok}
use rules_ostest.Base.Int.{pos}
use rules_ostest.Bytes.{Bytes}
use rules_ostest.Ppm.{
  read_tokens, read_sizes, PpmInfo, p3, validate_ppm_distinct_pixels, bounded_source_bytes,
  ppm_token, skip_ppm_space_and_comments, split_token, read_magic, ppm_integer, digits_value,
  read_raster, raster_start, narrow_raster, observe,
}
use rules_ostest.Ppm.Accepted.{IsAccepted, validate_ppm_distinct_pixels-IsAccepted}

-- "P6 2 1 #c" and "255" on two lines, then the raster.
abbrev source : Bytes
source =
    0x50 ∷ 0x36 ∷ 0x20 ∷ 0x32 ∷ 0x20 ∷ 0x31 ∷ 0x20 ∷ 0x23 ∷ 0x63 ∷ 0x0a ∷ 0x32 ∷ 0x35 ∷ 0x35 ∷ 0x0a
    ∷ 1 ∷ 2 ∷ 3 ∷ 4 ∷ 5 ∷ 6 ∷ []

abbrev no_info : PpmInfo
no_info = record {
  format = p3;
  width = 0;
  height = 0;
  max_value = 0;
  pixel_count = 0;
  distinct_pixels = 0;
}

abbrev info : PpmInfo
info = result_or no_info (validate_ppm_distinct_pixels source (pos 2) (pos 64) (pos 16))

accepted : validate_ppm_distinct_pixels source (pos 2) (pos 64) (pos 16) ≡ ok info
unfolding validate_ppm_distinct_pixels read_tokens read_sizes bounded_source_bytes ppm_token
    skip_ppm_space_and_comments split_token read_magic ppm_integer digits_value read_raster
    raster_start narrow_raster observe
accepted =
    eq-ok_of_is_ok (validate_ppm_distinct_pixels source (pos 2) (pos 64) (pos 16)) no_info refl

validate_ppm_distinct_pixels-IsAccepted_example : IsAccepted source 2 64 16 info
validate_ppm_distinct_pixels-IsAccepted_example =
    validate_ppm_distinct_pixels-IsAccepted source (pos 2) (pos 64) (pos 16) info accepted
