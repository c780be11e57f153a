-- ===== src/Ppm/Raster.antt =====
-- The samples of an image and its pixels, and what the loops over the raster read of them.
use rules_ostest.Ppm.{
  Magic, p3, p6, Pixel, is_space, is_member, observe, exceeds, narrow_raster, wide_raster,
  above_maximum, collect, read_samples, raster_start, read_raster, ppm_token, no_raster_whitespace,
  wrong_raster_size, ppm_integer, skip_ppm_space_and_comments, too_many_samples,
}
use rules_ostest.Ppm.Header.{
  eq-true, IsGap, IsToken, IsNumber, ppm_token-IsToken, ppm_integer-IsNumber, skip-Skipped,
}
use rules_ostest.Bytes.{Bytes}
use mathlib.Core.Path.{subst, ap₂}
use mathlib.Core.List.{Mem, append-nil}
use rules_ostest.Base.{
  ℕ, zero, suc, ◌+◌, ◌*◌, ◌≤◌, ◌<◌, ◌≡◌, refl, sym, ap, ◌∙◌, ◌⊎◌, inl, inr, Bool, true, false, not,
  ◌&&◌, ◌||◌, List, [], ◌∷◌, ◌++◌, arith, ltb, ◌==◌, if◌then◌else◌, if-cases, length, is_empty,
  get_or, drop, All, All-Mem, ◌>>◌, refuse, ok-injective, bind-eq-ok, guard-eq-ok, refuse-eq-ok, ok,
}

-- The pixels that samples stand for.
abbrev pub pixels : List ℕ → List Pixel
pixels (r ∷ g ∷ b ∷ samples) = record { red = r; green = g; blue = b } ∷ pixels samples
pixels _ = []

-- Two bytes for a sample, the high one first.
abbrev pub words : Bytes → List ℕ
words (h ∷ l ∷ bytes) = (h * 256 + l) ∷ words bytes
words _ = []

-- Samples as decimal numbers.
abbrev pub AreWritten : List ℕ → Bytes → Bytes → Type 0
AreWritten [] before after = before ≡ after
AreWritten (s ∷ samples) before after =
    (token : Bytes) × (next : Bytes) × IsToken before token next
    × IsNumber token s
    × AreWritten samples next after

-- The white space in front of the bytes of a P6 image.
abbrev pub IsMark : Bytes → Type 0
IsMark mark = ((b : ℕ) × (is_space b ≡ true) × (mark ≡ b ∷ [])) ⊎ (mark ≡ 0x0d ∷ 0x0a ∷ [])

-- The samples that an image has behind its header.
abbrev pub IsRaster : Magic → ℕ → List ℕ → Bytes → Type 0
IsRaster p6 maximum samples after =
    (mark : Bytes) × (raster : Bytes) × IsMark mark
    × (after ≡ mark ++ raster)
    × (((maximum < 256) × (samples ≡ raster))
        ⊎ ((256 ≤ maximum) × (samples ≡ words raster) × (length raster ≡ length samples * 2)))
IsRaster p3 maximum samples after =
    (rest : Bytes) × AreWritten samples after rest × ((closed : Bool) × IsGap closed false rest)

-- What a loop over samples has read: no sample is above the maximum, and the colors that it adds
-- are pixels.
record IsRead (maximum : ℕ) (samples : List ℕ) (all : List Pixel) (ps qs : List Pixel)
    : Type 1 where
  in_range : All (λ s. s ≤ maximum) samples
  from_pixels : (P : Pixel → Type 0) → All P all → All P ps → All P qs

observe-All :
    (P : Pixel → Type 0) (n : ℕ) (p : Pixel) (ps : List Pixel)
    → P p
    → All P ps
    → All P (observe n p ps)
unfolding observe
observe-All P n p ps h k =
    if-cases (All P) (ltb (length ps) n && not (is_member p ps)) (p ∷ ps) ps (λ _. (h, k)) (λ _. k)

within :
    (maximum r g b : ℕ)
    → (ltb maximum r || ltb maximum g || ltb maximum b) ≡ false
    → (r ≤ maximum) × (g ≤ maximum) × (b ≤ maximum)
within maximum r g b h = ground arith

narrow_raster-IsRead :
    (maximum n count : ℕ) (raster : Bytes) (ps qs : List Pixel)
    → length raster ≡ count * 3
    → narrow_raster maximum n raster ps ≡ ok qs
    → IsRead maximum raster (pixels raster) ps qs
unfolding narrow_raster
narrow_raster-IsRead maximum n zero (r ∷ g ∷ b ∷ raster) ps qs size e = absurd (omega (arith, size))
narrow_raster-IsRead maximum n (suc count) (r ∷ g ∷ b ∷ raster) ps qs size e =
    let pixel : Pixel = record { red = r; green = g; blue = b } in
    let (fits, rest) = refuse-eq-ok (exceeds maximum pixel) above_maximum _ e in
    let v =
      narrow_raster-IsRead maximum n count raster (observe n pixel ps) qs (omega (arith, size))
        rest in
    let (red, green, blue) = within maximum r g b fits in
    record {
      in_range = (red, (green, (blue, v.in_range)));
      from_pixels = λ P (h, hs) k. v.from_pixels P hs (observe-All P n pixel ps h k);
    }
narrow_raster-IsRead maximum n count [] ps qs size e = record {
  in_range = tt;
  from_pixels = λ P h k. subst (All P) (ok-injective e) k;
}
narrow_raster-IsRead maximum n count (r ∷ []) ps qs size e = absurd (omega (arith, size))
narrow_raster-IsRead maximum n count (r ∷ g ∷ []) ps qs size e = absurd (omega (arith, size))

wide-narrow :
    (maximum n : ℕ) (raster : Bytes) (ps : List Pixel)
    → wide_raster maximum n raster ps ≡ narrow_raster maximum n (words raster) ps
unfolding wide_raster narrow_raster
wide-narrow maximum n (r₁ ∷ r₀ ∷ g₁ ∷ g₀ ∷ b₁ ∷ b₀ ∷ raster) ps =
    let pixel : Pixel = record {
      red = r₁ * 256 + r₀;
      green = g₁ * 256 + g₀;
      blue = b₁ * 256 + b₀;
    } in
    ap (λ r. refuse (exceeds maximum pixel) above_maximum >> r)
      (wide-narrow maximum n raster (observe n pixel ps))
wide-narrow maximum n [] ps = refl
wide-narrow maximum n (a₁ ∷ []) ps = refl
wide-narrow maximum n (a₁ ∷ a₂ ∷ []) ps = refl
wide-narrow maximum n (a₁ ∷ a₂ ∷ a₃ ∷ []) ps = refl
wide-narrow maximum n (a₁ ∷ a₂ ∷ a₃ ∷ a₄ ∷ []) ps = refl
wide-narrow maximum n (a₁ ∷ a₂ ∷ a₃ ∷ a₄ ∷ a₅ ∷ []) ps = refl

length-words : (n : ℕ) (bytes : Bytes) → length bytes ≡ n * 2 → length (words bytes) ≡ n
length-words zero [] h = refl
length-words (suc n) [] h = absurd (omega (arith, h))
length-words n (b ∷ []) h = absurd (omega (arith, h))
length-words zero (h ∷ l ∷ bytes) e = absurd (omega (arith, e))
length-words (suc n) (h ∷ l ∷ bytes) e = ap suc (length-words n bytes (omega (arith, e)))

-- The samples that stand in front of the one that is read next.
abbrev IsOpen : List ℕ → Type 0
IsOpen samples = length samples < 3

fits_maximum : (maximum s : ℕ) → ltb maximum s ≡ false → s ≤ maximum
fits_maximum maximum s h = ground arith

collect-IsOpen :
    (n : ℕ) (samples : List ℕ) (s : ℕ) (ps : List Pixel)
    → IsOpen samples
    → IsOpen (collect n samples s ps).0
unfolding collect
collect-IsOpen n [] s ps h = omega arith
collect-IsOpen n (r ∷ []) s ps h = omega arith
collect-IsOpen n (r ∷ g ∷ []) s ps h = omega arith
collect-IsOpen n (r ∷ g ∷ b ∷ more) s ps h = absurd (omega (arith, h))

-- A sample that is collected: its pixel is among the colors, or it waits for the others.
collect-All :
    (P : Pixel → Type 0) (n : ℕ) (samples : List ℕ) (s : ℕ) (later : List ℕ) (ps : List Pixel)
    → IsOpen samples
    → All P (pixels (samples ++ (s ∷ later)))
    → All P ps
    → All P (pixels ((collect n samples s ps).0 ++ later)) × All P (collect n samples s ps).1
unfolding collect
collect-All P n [] s later ps o h k = (h, k)
collect-All P n (r ∷ []) s later ps o h k = (h, k)
collect-All P n (r ∷ g ∷ []) s later ps o (h, hs) k = (hs, observe-All P n _ ps h k)
collect-All P n (r ∷ g ∷ b ∷ more) s later ps o h k = absurd (omega (arith, o))

record AreSamples (maximum count : ℕ) (before : List ℕ) (contents after : Bytes)
    (ps qs : List Pixel) : Type 1 where
  samples : List ℕ
  counted : length samples ≡ count
  written : AreWritten samples contents after
  read : IsRead maximum samples (pixels (before ++ samples)) ps qs

read_samples-AreSamples :
    (count maximum n : ℕ) (before : List ℕ) (ps : List Pixel) (contents : Bytes)
    (read : List Pixel × Bytes)
    → IsOpen before
    → read_samples count maximum n before ps contents ≡ ok read
    → AreSamples maximum count before contents read.1 ps read.0
unfolding read_samples
read_samples-AreSamples zero maximum n before ps contents read o e =
    subst (λ r. AreSamples maximum 0 before contents r.1 ps r.0) (ok-injective e)
      (record {
        samples = [];
        counted = refl;
        written = refl;
        read = record { in_range = tt; from_pixels = λ P h k. k };
      })
read_samples-AreSamples (suc count) maximum n before ps contents read o e₀ =
    let (token, is_token, e₁) = bind-eq-ok (ppm_token contents) _ e₀ in
    let (sample, is_number, e₂) = bind-eq-ok (ppm_integer token.0) _ e₁ in
    let (fits, e₃) = refuse-eq-ok (ltb maximum sample) above_maximum _ e₂ in
    let next = collect n before sample ps in
    let v =
      read_samples-AreSamples count maximum n next.0 next.1 token.1 read
        (collect-IsOpen n before sample ps o) e₃ in
    record {
      samples = sample ∷ v.samples;
      counted = ap suc v.counted;
      written = (
        token.0,
        token.1,
        ppm_token-IsToken contents token is_token,
        ppm_integer-IsNumber token.0 sample is_number,
        v.written,
      );
      read = record {
        in_range = (fits_maximum maximum sample fits, v.read.in_range);
        from_pixels = λ P h k.
            let (hs, ks) = collect-All P n before sample v.samples ps o h k in
            v.read.from_pixels P hs ks;
      };
    }

-- The samples of an image behind its header, and the colors found in them.
pub record HasSamples (format : Magic) (maximum count : ℕ) (after : Bytes) (colors : List Pixel)
    : Type 0 where
  pub samples : List ℕ
  pub counted : length samples ≡ count * 3
  pub in_range : All (λ s. s ≤ maximum) samples
  pub raster : IsRaster format maximum samples after
  pub colors_found : All (λ p. Mem p (pixels samples)) colors

pub both : (a b : Bool) → (a && b) ≡ true → (a ≡ true) × (b ≡ true)
both true b h = (refl, h)
both false b h = cc

crlf :
    (b : ℕ) (bs : Bytes)
    → (b == 0x0d && get_or bs 0 0 == 0x0a) ≡ true
    → b ∷ bs ≡ 0x0d ∷ 0x0a ∷ drop 1 bs
crlf b [] h = absurd (ground arith)
crlf b (c ∷ cs) h =
    let (is_b, is_c) = both (b == 0x0d) (c == 0x0a) h in
    ap₂ (λ x y. x ∷ y ∷ cs) (eq-true b 0x0d is_b) (eq-true c 0x0a is_c)

raster_start-IsMark :
    (contents raster : Bytes)
    → raster_start contents ≡ ok raster
    → (mark : Bytes) × IsMark mark × (contents ≡ mark ++ raster)
unfolding raster_start
raster_start-IsMark [] raster e = cc
raster_start-IsMark (b ∷ bs) raster e₀ =
    let (is_mark, e₁) = guard-eq-ok (is_space b) no_raster_whitespace _ e₀ in
    if-cases {A = Bytes}
      (λ r. r ≡ raster → (mark : Bytes) × IsMark mark × (b ∷ bs ≡ mark ++ raster))
      (b == 0x0d && get_or bs 0 0 == 0x0a) (drop 1 bs) bs
      (λ h e. (0x0d ∷ 0x0a ∷ [], inr refl, crlf b bs h ∙ ap (λ r. 0x0d ∷ 0x0a ∷ r) e))
      (λ _ e. (b ∷ [], inl (b, is_mark, refl), ap (b ∷◌) e)) (ok-injective e₁)

narrow-HasSamples :
    (maximum n count : ℕ) (samples : List ℕ) (after : Bytes) (colors : List Pixel)
    → length samples ≡ count * 3
    → narrow_raster maximum n samples [] ≡ ok colors
    → IsRaster p6 maximum samples after
    → HasSamples p6 maximum count after colors
narrow-HasSamples maximum n count samples after colors size e raster =
    let v = narrow_raster-IsRead maximum n count samples [] colors size e in
    record {
      samples = samples;
      counted = size;
      in_range = v.in_range;
      raster = raster;
      colors_found =
          v.from_pixels (λ p. Mem p (pixels samples))
            (All-Mem (λ p. Mem p (pixels samples)) (pixels samples) (λ p h. h)) tt;
    }

by_width :
    (maximum n count : ℕ) (test : Bool) (mark raster after : Bytes) (colors : List Pixel)
    → IsMark mark
    → after ≡ mark ++ raster
    → ltb maximum 256 ≡ test
    → (length raster == count * 3 * (if test then 1 else 2)) ≡ true
    → (if test then narrow_raster maximum n raster [] else wide_raster maximum n raster [])
      ≡ ok colors
    → HasSamples p6 maximum count after colors
by_width maximum n count true mark raster after colors is_mark split narrow size e =
    let sized = eq-true (length raster) (count * 3 * 1) size in
    narrow-HasSamples maximum n count raster after colors (omega (arith, sized)) e
      (mark, raster, is_mark, split, inl (ground arith, refl))
by_width maximum n count false mark raster after colors is_mark split wide size e =
    let sized = eq-true (length raster) (count * 3 * 2) size in
    let counted = length-words (count * 3) raster sized in
    narrow-HasSamples maximum n count (words raster) after colors counted
      (sym (wide-narrow maximum n raster []) ∙ e)
      (
        mark,
        raster,
        is_mark,
        split,
        inr (ground arith, refl, sized ∙ ap (λ l. l * 2) (sym counted)),
      )

empty_nil : (l : Bytes) → is_empty l ≡ true → l ≡ []
empty_nil [] h = refl
empty_nil (b ∷ bs) h = cc

pub read_raster-HasSamples :
    (magic : Magic) (count maximum n : ℕ) (bytes : Bytes) (ps : List Pixel)
    → read_raster magic count maximum n bytes ≡ ok ps
    → HasSamples magic maximum count bytes ps
unfolding read_raster
read_raster-HasSamples p6 count maximum n bytes ps e₀ =
    let (raster, started, e₁) = bind-eq-ok (raster_start bytes) _ e₀ in
    let (mark, is_mark, split) = raster_start-IsMark bytes raster started in
    let (size, e₂) =
      guard-eq-ok (length raster == count * 3 * (if ltb maximum 256 then 1 else 2))
        wrong_raster_size _ e₁ in
    by_width maximum n count (ltb maximum 256) mark raster bytes ps is_mark split refl size e₂
read_raster-HasSamples p3 count maximum n bytes ps e₀ =
    let (read, done, e₁) = bind-eq-ok (read_samples (count * 3) maximum n [] [] bytes) _ e₀ in
    let (nothing_left, e₂) =
      guard-eq-ok (is_empty (skip_ppm_space_and_comments false read.1)) too_many_samples _ e₁ in
    let v = read_samples-AreSamples (count * 3) maximum n [] [] bytes read (omega arith) done in
    let left = skip_ppm_space_and_comments false read.1 in
    let (gap, skipped, split) = skip-Skipped false read.1 left refl in
    let no_more = split ∙ ap (gap ++◌) (empty_nil left nothing_left) ∙ append-nil gap in
    subst (HasSamples p3 maximum count bytes) (ok-injective e₂) (record {
      samples = v.samples;
      counted = v.counted;
      in_range = v.read.in_range;
      raster = (
        read.1,
        v.written,
        (not (is_empty left), subst (IsGap (not (is_empty left)) false) (sym no_more) skipped),
      );
      colors_found =
          v.read.from_pixels (λ p. Mem p (pixels v.samples))
            (All-Mem (λ p. Mem p (pixels v.samples)) (pixels v.samples) (λ p h. h)) tt;
    })
