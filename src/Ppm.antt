-- ===== src/Ppm.antt =====
-- ostest/private/qemu_runner_support.py: `validate_ppm_distinct_pixels` and its helpers.
-- A position in the data is the bytes from there on.
pub mod Header
pub mod Raster
pub mod Colors
pub mod Accepted
use rules_ostest.Base.{
  ℕ, zero, suc, ◌+◌, ◌-◌, ◌*◌, Bool, false, not, ◌&&◌, ◌||◌, Option, none, some, List, [], ◌∷◌,
  ◌++◌, ltb, leb, ◌==◌, if◌then◌else◌, length, is_empty, get_or, drop, ◌>>=◌, ◌>>◌, guard, refuse,
  Result, ok, err,
}
use rules_ostest.Base.Int.{ℤ, is_not_positive, to_ℕ}
use rules_ostest.Bytes.{Bytes}

pub data PpmError : Type 0 where
  bad_limit too_many_bytes ended_early not_an_integer unsupported_magic : PpmError
  empty_image bad_maximum too_many_pixels no_raster_whitespace wrong_raster_size : PpmError
  above_maximum too_many_samples too_few_colors : PpmError

pub data Magic : Type 0 where
  p3 p6 : Magic

pub record PpmInfo : Type 0 where
  pub format : Magic
  pub width : ℕ
  pub height : ℕ
  pub max_value : ℕ
  pub pixel_count : ℕ
  pub distinct_pixels : ℕ

-- `_PPM_WHITESPACE`
abbrev pub is_space : ℕ → Bool
is_space b = b == 0x20 || (leb 9 b && leb b 13)

-- `_bounded_source_bytes` for bytes; a file is read up to one byte more than the limit.
unfoldable pub bounded_source_bytes : Bytes → ℤ → Result PpmError Bytes
bounded_source_bytes source max_file_bytes = do
  refuse (is_not_positive max_file_bytes) bad_limit
  refuse (ltb (to_ℕ max_file_bytes) (length source)) too_many_bytes
  ok source

-- Whether the next byte stands in a comment: from `#` to the end of the line.
abbrev in_comment_next : Bool → ℕ → Bool
in_comment_next in_comment b = if in_comment then not (b == 0x0a) else b == 0x23

-- `_skip_ppm_space_and_comments`, both loops in one: the first argument is false in the loop over
-- spaces and true in the search for the end of a comment.
unfoldable pub skip_ppm_space_and_comments : Bool → Bytes → Bytes
skip_ppm_space_and_comments in_comment [] = []
skip_ppm_space_and_comments in_comment (b ∷ bs) =
    let rest = skip_ppm_space_and_comments (in_comment_next in_comment b) bs in
    if not in_comment && not (is_space b) && not (b == 0x23) then b ∷ bs else rest

-- The loop that ends a token.
unfoldable pub split_token : Bytes → Bytes × Bytes
split_token [] = ([], [])
split_token (b ∷ bs) =
    let (token, rest) = split_token bs in
    if not (is_space b) && not (b == 0x23) then (b ∷ token, rest) else ([], b ∷ bs)

unfoldable pub ppm_token : Bytes → Result PpmError (Bytes × Bytes)
unfolding skip_ppm_space_and_comments split_token
ppm_token contents =
    let (token, rest) = split_token (skip_ppm_space_and_comments false contents) in
    do refuse (is_empty token) ended_early; ok (token, rest)

-- The loop of `int`; the interpreter's limit on the number of digits is left out.
unfoldable pub digits_value : ℕ → Bytes → Option ℕ
digits_value value [] = some value
digits_value value (b ∷ bs) =
    let rest = digits_value (value * 10 + (b - 0x30)) bs in
    if ltb b 0x30 || ltb 0x39 b then none else rest

unfoldable pub ppm_integer : Bytes → Result PpmError ℕ
unfolding digits_value
ppm_integer token =
    if is_empty token
    then err not_an_integer
    else elim (digits_value 0 token) [ none ↦ err not_an_integer | some value ↦ ok value ]

pub record Pixel : Type 0 where
  pub red : ℕ
  pub green : ℕ
  pub blue : ℕ

abbrev pub same_pixel : Pixel → Pixel → Bool
same_pixel a b = a.red == b.red && a.green == b.green && a.blue == b.blue

abbrev pub is_member : Pixel → List Pixel → Bool
is_member p [] = false
is_member p (q ∷ qs) = same_pixel p q || is_member p qs

-- `observe`: the set of colors grows up to the size that is asked for.
unfoldable pub observe : ℕ → Pixel → List Pixel → List Pixel
observe min_distinct p distinct =
    if ltb (length distinct) min_distinct && not (is_member p distinct)
    then p ∷ distinct
    else distinct

abbrev pub exceeds : ℕ → Pixel → Bool
exceeds maximum p = ltb maximum p.red || ltb maximum p.green || ltb maximum p.blue

-- The loop over the raster of a P6 image with one byte for a sample.
unfoldable pub narrow_raster : ℕ → ℕ → Bytes → List Pixel → Result PpmError (List Pixel)
narrow_raster maximum min_distinct (r ∷ g ∷ b ∷ raster) distinct =
    let pixel : Pixel = record { red = r; green = g; blue = b } in
    do
      refuse (exceeds maximum pixel) above_maximum
      narrow_raster maximum min_distinct raster (observe min_distinct pixel distinct)
narrow_raster maximum min_distinct _ distinct = ok distinct

-- The loop over the raster of a P6 image with two bytes for a sample, the high one first.
unfoldable pub wide_raster : ℕ → ℕ → Bytes → List Pixel → Result PpmError (List Pixel)
wide_raster maximum min_distinct (r₁ ∷ r₀ ∷ g₁ ∷ g₀ ∷ b₁ ∷ b₀ ∷ raster) distinct =
    let pixel : Pixel = record {
      red = r₁ * 256 + r₀;
      green = g₁ * 256 + g₀;
      blue = b₁ * 256 + b₀;
    } in
    do
      refuse (exceeds maximum pixel) above_maximum
      wide_raster maximum min_distinct raster (observe min_distinct pixel distinct)
wide_raster maximum min_distinct _ distinct = ok distinct

-- `samples.append(sample)` and, at three samples, `observe` and `samples.clear()`.
unfoldable pub collect : ℕ → List ℕ → ℕ → List Pixel → List ℕ × List Pixel
unfolding observe
collect min_distinct (r ∷ g ∷ []) sample distinct =
    ([], observe min_distinct (record { red = r; green = g; blue = sample }) distinct)
collect min_distinct samples sample distinct = (samples ++ (sample ∷ []), distinct)

-- The loop over the samples of a P3 image, of which `count` are left.
unfoldable pub read_samples :
    ℕ → ℕ → ℕ → List ℕ → List Pixel → Bytes → Result PpmError (List Pixel × Bytes)
unfolding ppm_token ppm_integer collect
read_samples zero maximum min_distinct samples distinct contents = ok (distinct, contents)
read_samples (suc count) maximum min_distinct samples distinct contents = do
  read ← ppm_token contents
  sample ← ppm_integer read.0
  refuse (ltb maximum sample) above_maximum
  let next = collect min_distinct samples sample distinct
  read_samples count maximum min_distinct next.0 next.1 read.1

-- `magic not in (b"P3", b"P6")`
unfoldable pub read_magic : Bytes → Result PpmError Magic
read_magic (p ∷ n ∷ []) =
    if p == 0x50 && n == 0x33
    then ok p3
    else if p == 0x50 && n == 0x36
    then ok p6
    else err unsupported_magic
read_magic _ = err unsupported_magic

-- Behind the single white space that ends the header, `\r\n` counting as one.
unfoldable pub raster_start : Bytes → Result PpmError Bytes
raster_start [] = err no_raster_whitespace
raster_start (b ∷ bs) = do
  guard (is_space b) no_raster_whitespace
  ok (if b == 0x0d && get_or bs 0 0 == 0x0a then drop 1 bs else bs)

-- The colors of the raster, by the magic.
unfoldable pub read_raster : Magic → ℕ → ℕ → ℕ → Bytes → Result PpmError (List Pixel)
unfolding raster_start narrow_raster wide_raster read_samples
read_raster p6 pixel_count maximum min_distinct contents = do
  raster ← raster_start contents
  guard (length raster == pixel_count * 3 * (if ltb maximum 256 then 1 else 2)) wrong_raster_size
  if ltb maximum 256
      then narrow_raster maximum min_distinct raster []
      else wide_raster maximum min_distinct raster []
read_raster p3 pixel_count maximum min_distinct contents = do
  read ← read_samples (pixel_count * 3) maximum min_distinct [] [] contents
  guard (is_empty (skip_ppm_space_and_comments false read.1)) too_many_samples
  ok read.0

-- The four tokens of the header, and what is behind them.
pub record Tokens : Type 0 where
  pub format : Magic
  pub width_token : Bytes
  pub height_token : Bytes
  pub maximum_token : Bytes
  pub after : Bytes

unfoldable pub read_tokens : Bytes → Result PpmError Tokens
unfolding ppm_token read_magic
read_tokens contents = do
  magic_read ← ppm_token contents
  magic ← read_magic magic_read.0
  width_read ← ppm_token magic_read.1
  height_read ← ppm_token width_read.1
  maximum_read ← ppm_token height_read.1
  ok (record {
    format = magic;
    width_token = width_read.0;
    height_token = height_read.0;
    maximum_token = maximum_read.0;
    after = maximum_read.1;
  })

pub record Sizes : Type 0 where
  pub width : ℕ
  pub height : ℕ
  pub maximum : ℕ

-- The numbers of the header and the checks on them.
unfoldable pub read_sizes : ℕ → Tokens → Result PpmError Sizes
unfolding ppm_integer
read_sizes max_pixels t = do
  width ← ppm_integer t.width_token
  height ← ppm_integer t.height_token
  maximum ← ppm_integer t.maximum_token
  refuse (width == 0 || height == 0) empty_image
  refuse (maximum == 0 || ltb 65535 maximum) bad_maximum
  refuse (ltb max_pixels width || ltb max_pixels height || ltb max_pixels (width * height))
      too_many_pixels
  ok (record { width = width; height = height; maximum = maximum })

unfoldable pub validate_ppm_distinct_pixels : Bytes → ℤ → ℤ → ℤ → Result PpmError PpmInfo
unfolding bounded_source_bytes read_tokens read_sizes read_raster
validate_ppm_distinct_pixels source min_distinct_pixels max_file_bytes max_pixels = do
  refuse (is_not_positive min_distinct_pixels) bad_limit
  refuse (is_not_positive max_pixels) bad_limit
  contents ← bounded_source_bytes source max_file_bytes
  tokens ← read_tokens contents
  sizes ← read_sizes (to_ℕ max_pixels) tokens
  let pixel_count = sizes.width * sizes.height
  distinct ←
      read_raster tokens.format pixel_count sizes.maximum (to_ℕ min_distinct_pixels) tokens.after
  refuse (ltb (length distinct) (to_ℕ min_distinct_pixels)) too_few_colors
  ok (record {
    format = tokens.format;
    width = sizes.width;
    height = sizes.height;
    max_value = sizes.maximum;
    pixel_count = pixel_count;
    distinct_pixels = length distinct;
  })
