-- ===== src/Ppm/Accepted.antt =====
-- The images that `validate_ppm_distinct_pixels` accepts.
use rules_ostest.Base.{
  ℕ, ◌*◌, ◌≤◌, ◌<◌, ◌≡◌, refl, sym, ap, ◌∙◌, Bool, true, false, ◌&&◌, ◌||◌, List, [], ◌∷◌, arith,
  ltb, ◌==◌, if◌then◌else◌, if-cases, length, ok-injective, bind-eq-ok, refuse-eq-ok, Result, ok,
  err,
}
use rules_ostest.Base.Int.{ℤ, is_not_positive, to_ℕ}
use rules_ostest.Bytes.{Bytes}
use rules_ostest.Ppm.{
  Tokens, Sizes, read_tokens, read_sizes, read_magic, PpmInfo, Pixel, Magic, p3, p6, read_raster,
  validate_ppm_distinct_pixels, ppm_token, ppm_integer, bounded_source_bytes, unsupported_magic,
  PpmError, bad_limit, too_many_bytes, empty_image, bad_maximum, too_many_pixels, too_few_colors,
}
use rules_ostest.Ppm.Header.{eq-true, IsToken, IsNumber, ppm_token-IsToken, ppm_integer-IsNumber}
use rules_ostest.Ppm.Raster.{both, AreWritten, HasSamples, read_raster-HasSamples}
use rules_ostest.Ppm.Colors.{NoRepeats, read_raster-IsColors}
use mathlib.Core.Path.{subst, ap₂}

abbrev is_p6 : Magic → Bool
is_p6 p3 = false
is_p6 p6 = true

ltb-false : (a b : ℕ) → ltb a b ≡ false → b ≤ a
ltb-false a b h = ground arith

-- The header of an image: its magic and three numbers, each a token, and what is behind them.
pub record HasHeader (source after : Bytes) (format : Magic) (width height maximum : ℕ)
    : Type 0 where
  pub magic_token : Bytes
  pub after_magic : Bytes
  pub magic_first : IsToken source magic_token after_magic
  pub magic_bytes : magic_token ≡ 0x50 ∷ (if is_p6 format then 0x36 else 0x33) ∷ []
  pub numbers : AreWritten (width ∷ height ∷ maximum ∷ []) after_magic after

-- The image that was accepted: its header, the samples behind it, and its colors.
pub record IsAccepted (source : Bytes) (min_distinct max_bytes max_pixels : ℕ) (info : PpmInfo)
    : Type 0 where
  pub bytes_bound : length source ≤ max_bytes
  pub width_pos : 0 < info.width
  pub height_pos : 0 < info.height
  pub maximum_pos : 0 < info.max_value
  pub maximum_bound : info.max_value ≤ 65535
  pub count_is : info.pixel_count ≡ info.width * info.height
  pub count_bound : info.pixel_count ≤ max_pixels
  pub after : Bytes
  pub header : HasHeader source after info.format info.width info.height info.max_value
  pub colors : List Pixel
  pub has_samples : HasSamples info.format info.max_value info.pixel_count after colors
  pub no_repeats : NoRepeats colors
  pub all_found : length colors ≡ min_distinct
  pub distinct_is : info.distinct_pixels ≡ min_distinct

abbrev bytes_of_magic : Magic → Bytes
bytes_of_magic format = 0x50 ∷ (if is_p6 format then 0x36 else 0x33) ∷ []

magic_is : (p n d : ℕ) → (p == 0x50 && n == d) ≡ true → p ∷ n ∷ [] ≡ 0x50 ∷ d ∷ []
magic_is p n d h =
    let (is_p, is_d) = both (p == 0x50) (n == d) h in
    ap₂ (λ a b. a ∷ b ∷ []) (eq-true p 0x50 is_p) (eq-true n d is_d)

read_magic-bytes :
    (token : Bytes) (format : Magic)
    → read_magic token ≡ ok format
    → token ≡ 0x50 ∷ (if is_p6 format then 0x36 else 0x33) ∷ []
unfolding read_magic
read_magic-bytes [] format e = cc
read_magic-bytes (p ∷ []) format e = cc
read_magic-bytes (p ∷ n ∷ m ∷ more) format e = cc
read_magic-bytes (p ∷ n ∷ []) format e =
    if-cases {A = Result PpmError Magic}
      (λ r. r ≡ ok format → p ∷ n ∷ [] ≡ 0x50 ∷ (if is_p6 format then 0x36 else 0x33) ∷ [])
      (p == 0x50 && n == 0x33) (ok p3)
      (if p == 0x50 && n == 0x36 then ok p6 else err unsupported_magic)
      (λ h f. magic_is p n 0x33 h ∙ ap bytes_of_magic (ok-injective f))
      (λ _.
        if-cases {A = Result PpmError Magic}
          (λ r. r ≡ ok format → p ∷ n ∷ [] ≡ 0x50 ∷ (if is_p6 format then 0x36 else 0x33) ∷ [])
          (p == 0x50 && n == 0x36) (ok p6) (err unsupported_magic)
          (λ h f. magic_is p n 0x36 h ∙ ap bytes_of_magic (ok-injective f)) (λ _ f. cc))
      e

eq_of_le_le : (a b : ℕ) → a ≤ b → b ≤ a → a ≡ b
eq_of_le_le a b h h' = omega arith

eq-zero-false : (a b : ℕ) → (a == 0 || b == 0) ≡ false → (0 < a) × (0 < b)
eq-zero-false a b h = ground arith

maximum_fits : (a : ℕ) → (a == 0 || ltb 65535 a) ≡ false → (0 < a) × (a ≤ 65535)
maximum_fits a h = ground arith

third-false : (a b : Bool) (l c : ℕ) → (a || b || ltb l c) ≡ false → c ≤ l
third-false a b l c h = ground arith

record HasSizes (limit : ℕ) (t : Tokens) (s : Sizes) : Type 0 where
  width_pos : 0 < s.width
  height_pos : 0 < s.height
  maximum_pos : 0 < s.maximum
  maximum_bound : s.maximum ≤ 65535
  count_bound : s.width * s.height ≤ limit
  width_is : IsNumber t.width_token s.width
  height_is : IsNumber t.height_token s.height
  maximum_is : IsNumber t.maximum_token s.maximum

read_sizes-HasSizes :
    (limit : ℕ) (t : Tokens) (s : Sizes) → read_sizes limit t ≡ ok s → HasSizes limit t s
unfolding read_sizes
read_sizes-HasSizes limit t s e₀ =
    let (width, width_read, e₁) = bind-eq-ok (ppm_integer t.width_token) _ e₀ in
    let (height, height_read, e₂) = bind-eq-ok (ppm_integer t.height_token) _ e₁ in
    let (maximum, maximum_read, e₃) = bind-eq-ok (ppm_integer t.maximum_token) _ e₂ in
    let (sizes, e₄) = refuse-eq-ok (width == 0 || height == 0) empty_image _ e₃ in
    let (maxima, e₅) = refuse-eq-ok (maximum == 0 || ltb 65535 maximum) bad_maximum _ e₄ in
    let (pixels, e₆) =
      refuse-eq-ok (ltb limit width || ltb limit height || ltb limit (width * height))
        too_many_pixels _ e₅ in
    subst (HasSizes limit t) (ok-injective e₆) (record {
      width_pos = (eq-zero-false width height sizes).0;
      height_pos = (eq-zero-false width height sizes).1;
      maximum_pos = (maximum_fits maximum maxima).0;
      maximum_bound = (maximum_fits maximum maxima).1;
      count_bound = third-false (ltb limit width) (ltb limit height) limit (width * height) pixels;
      width_is = ppm_integer-IsNumber t.width_token width width_read;
      height_is = ppm_integer-IsNumber t.height_token height height_read;
      maximum_is = ppm_integer-IsNumber t.maximum_token maximum maximum_read;
    })

read_tokens-HasHeader :
    (source : Bytes) (t : Tokens) (limit : ℕ) (s : Sizes)
    → read_tokens source ≡ ok t
    → HasSizes limit t s
    → HasHeader source t.after t.format s.width s.height s.maximum
unfolding read_tokens
read_tokens-HasHeader source t limit s e₀ =
    let (magic_read, r₀, e₁) = bind-eq-ok (ppm_token source) _ e₀ in
    let (magic, known, e₂) = bind-eq-ok (read_magic magic_read.0) _ e₁ in
    let (width_read, r₁, e₃) = bind-eq-ok (ppm_token magic_read.1) _ e₂ in
    let (height_read, r₂, e₄) = bind-eq-ok (ppm_token width_read.1) _ e₃ in
    let (maximum_read, r₃, e₅) = bind-eq-ok (ppm_token height_read.1) _ e₄ in
    subst (λ u. HasSizes limit u s → HasHeader source u.after u.format s.width s.height s.maximum)
      (ok-injective e₅)
      (λ h. record {
        magic_token = magic_read.0;
        after_magic = magic_read.1;
        magic_first = ppm_token-IsToken source magic_read r₀;
        magic_bytes = read_magic-bytes magic_read.0 magic known;
        numbers = (
          width_read.0,
          width_read.1,
          ppm_token-IsToken magic_read.1 width_read r₁,
          h.width_is,
          (
            height_read.0,
            height_read.1,
            ppm_token-IsToken width_read.1 height_read r₂,
            h.height_is,
            (
              maximum_read.0,
              maximum_read.1,
              ppm_token-IsToken height_read.1 maximum_read r₃,
              h.maximum_is,
              refl,
            ),
          ),
        );
      })

bounded_source_bytes-same :
    (source : Bytes) (max_bytes : ℤ) (contents : Bytes)
    → bounded_source_bytes source max_bytes ≡ ok contents
    → source ≡ contents
unfolding bounded_source_bytes
bounded_source_bytes-same source max_bytes contents e₀ =
    let (_, e₁) = refuse-eq-ok (is_not_positive max_bytes) bad_limit _ e₀ in
    let (_, e₂) = refuse-eq-ok (ltb (to_ℕ max_bytes) (length source)) too_many_bytes _ e₁ in
    ok-injective e₂

length-bounded_source_bytes :
    (source : Bytes) (max_bytes : ℤ) (contents : Bytes)
    → bounded_source_bytes source max_bytes ≡ ok contents
    → length source ≤ to_ℕ max_bytes
unfolding bounded_source_bytes
length-bounded_source_bytes source max_bytes contents e₀ =
    let (_, e₁) = refuse-eq-ok (is_not_positive max_bytes) bad_limit _ e₀ in
    let (few, _) = refuse-eq-ok (ltb (to_ℕ max_bytes) (length source)) too_many_bytes _ e₁ in
    ltb-false (to_ℕ max_bytes) (length source) few

-- An image that is accepted starts, behind space and comments, with its magic, and then has as
-- three decimal numbers the width, the height and the maximum that are reported; the first two
-- are positive, the maximum is from 1 to 65535, and there are as many pixels as width times
-- height says and no more than the limit. Behind that it has exactly three samples for each
-- pixel, as the format writes them, none above the maximum and nothing but space and comments
-- behind those of a P3 image; and the colors found, as many as were asked for, which is also the
-- number reported, are pixels of these samples, no two of them the same.
pub validate_ppm_distinct_pixels-IsAccepted :
    (source : Bytes) (min_distinct max_bytes max_pixels : ℤ) (info : PpmInfo)
    → validate_ppm_distinct_pixels source min_distinct max_bytes max_pixels ≡ ok info
    → IsAccepted source (to_ℕ min_distinct) (to_ℕ max_bytes) (to_ℕ max_pixels) info
unfolding validate_ppm_distinct_pixels
validate_ppm_distinct_pixels-IsAccepted source min_distinct max_bytes max_pixels info e₀ =
    let n = to_ℕ min_distinct in
    let (_, e₁) = refuse-eq-ok (is_not_positive min_distinct) bad_limit _ e₀ in
    let (_, e₂) = refuse-eq-ok (is_not_positive max_pixels) bad_limit _ e₁ in
    let (contents, bounded, e₃) = bind-eq-ok (bounded_source_bytes source max_bytes) _ e₂ in
    let (t, tokens_read, e₄) = bind-eq-ok (read_tokens contents) _ e₃ in
    let (s, sized, e₅) = bind-eq-ok (read_sizes (to_ℕ max_pixels) t) _ e₄ in
    let (colors, read, e₆) =
      bind-eq-ok (read_raster t.format (s.width * s.height) s.maximum n t.after) _ e₅ in
    let (enough, e₇) = refuse-eq-ok (ltb (length colors) n) too_few_colors _ e₆ in
    let c = read_raster-IsColors t.format (s.width * s.height) s.maximum n t.after colors read in
    let exactly = eq_of_le_le (length colors) n c.few (ltb-false (length colors) n enough) in
    let h = read_sizes-HasSizes (to_ℕ max_pixels) t s sized in
    subst (IsAccepted source n (to_ℕ max_bytes) (to_ℕ max_pixels)) (ok-injective e₇) (record {
      bytes_bound = length-bounded_source_bytes source max_bytes contents bounded;
      width_pos = h.width_pos;
      height_pos = h.height_pos;
      maximum_pos = h.maximum_pos;
      maximum_bound = h.maximum_bound;
      count_is = refl;
      count_bound = h.count_bound;
      after = t.after;
      header =
          subst (λ b. HasHeader b t.after t.format s.width s.height s.maximum)
            (sym (bounded_source_bytes-same source max_bytes contents bounded))
            (read_tokens-HasHeader contents t (to_ℕ max_pixels) s tokens_read h);
      colors = colors;
      has_samples =
          read_raster-HasSamples t.format (s.width * s.height) s.maximum n t.after colors read;
      no_repeats = c.no_repeats;
      all_found = exactly;
      distinct_is = exactly;
    })
