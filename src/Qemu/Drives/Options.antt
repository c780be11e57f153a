-- ===== src/Qemu/Drives/Options.antt =====
-- The options of a drive, as QEMU reads them: a comma ends an option, two commas stand for one.
use rules_ostest.Qemu.{raw_image, qcow2}
use rules_ostest.Qemu.{QemuMedia, ImageFormat, number}
use rules_ostest.Qemu.Drives.{
  qemu_keyval_path, join_options, flag, drive_options, drive_id, format_name, drive_flags, is_cdrom,
}
use rules_ostest.Text.{Text, decimal_text, codes}
use mathlib.Core.List.{append-nil}
use mathlib.Core.Path.{ap₂, subst}
use rules_ostest.Base.{
  ℕ, zero, suc, ◌+◌, ◌/◌, ◌%◌, ◌≡◌, refl, sym, ap, ◌∙◌, inl, inr, Bool, true, false, not, ◌&&◌,
  List, [], ◌∷◌, ◌++◌, map, arith, ltb, ◌==◌, Bool-cases, All,
}

-- One more character of the first option.
abbrev pub push : ℕ → List Text → List Text
push c [] = (c ∷ []) ∷ []
push c (option ∷ options) = (c ∷ option) ∷ options

-- QEMU's syntax of options.
abbrev pub read_options : Text → List Text
read_options [] = [] ∷ []
read_options (c ∷ []) = elim (c == 0x2c) [ true ↦ [] ∷ [] ∷ [] | false ↦ (c ∷ []) ∷ [] ]
read_options (c ∷ d ∷ cs) = elim (c == 0x2c) [
  | true ↦ elim (d == 0x2c) [ true ↦ push c (read_options cs) | false ↦ [] ∷ read_options (d ∷ cs) ]
  | false ↦ push c (read_options (d ∷ cs))
]

-- No comma in it.
abbrev pub is_plain : Text → Bool
is_plain [] = true
is_plain (c ∷ cs) = not (c == 0x2c) && is_plain cs

-- An option starts with a character that is no comma.
abbrev pub is_option : Text → Bool
is_option [] = false
is_option (c ∷ cs) = not (c == 0x2c)

read-plain :
    (c : ℕ) (s : Text) → (c == 0x2c) ≡ false → read_options (c ∷ s) ≡ push c (read_options s)
read-plain c [] h = rw (h, read_options) refl
read-plain c (d ∷ s) h = rw (h, read_options) refl

read-doubled :
    (c : ℕ) (s : Text) → (c == 0x2c) ≡ true → read_options (c ∷ c ∷ s) ≡ push c (read_options s)
read-doubled c s h = rw (h, read_options) (rw h refl)

read-separator : (s : Text) → is_option s ≡ true → read_options (0x2c ∷ s) ≡ [] ∷ read_options s
read-separator [] h = cc
read-separator (d ∷ s) h = rw (not-eq-true (d == 0x2c) h, read_options) refl
  where
    not-eq-true : (b : Bool) → not b ≡ true → b ≡ false
    not-eq-true b k = ground arith

prepend : Text → List Text → List Text
prepend [] options = options
prepend (c ∷ cs) options = push c (prepend cs options)

prepend-first : (x : Text) (options : List Text) → prepend x ([] ∷ options) ≡ x ∷ options
unfolding prepend
prepend-first [] options = refl
prepend-first (c ∷ cs) options = ap (push c) (prepend-first cs options)

-- A text with its commas doubled reads as itself.
read-escaped :
    (x rest : Text) → read_options (qemu_keyval_path x ++ rest) ≡ prepend x (read_options rest)
unfolding qemu_keyval_path prepend
read-escaped [] rest = refl
read-escaped (c ∷ cs) rest = elim (Bool-cases (c == 0x2c)) [
  | inl h ↦
      rw h (read-doubled c (qemu_keyval_path cs ++ rest) h ∙ ap (push c) (read-escaped cs rest))
  | inr h ↦ rw h (read-plain c (qemu_keyval_path cs ++ rest) h ∙ ap (push c) (read-escaped cs rest))
]

is_option-escaped :
    (x rest : Text) → is_option x ≡ true → is_option (qemu_keyval_path x ++ rest) ≡ true
unfolding qemu_keyval_path
is_option-escaped [] rest h = cc
is_option-escaped (c ∷ cs) rest h = elim (Bool-cases (c == 0x2c)) [
  | inl e ↦ ground arith
  | inr e ↦ rw e h
]

is_option-joined :
    (x : Text) (xs : List Text)
    → is_option x ≡ true
    → is_option (join_options (map qemu_keyval_path (x ∷ xs))) ≡ true
unfolding join_options
is_option-joined x [] h =
    subst (λ s. is_option s ≡ true) (append-nil (qemu_keyval_path x)) (is_option-escaped x [] h)
is_option-joined x (y ∷ ys) h = is_option-escaped x _ h

-- Joined options read as they were before their commas were doubled.
pub read-joined :
    (x : Text) (xs : List Text)
    → All (λ s. is_option s ≡ true) xs
    → read_options (join_options (map qemu_keyval_path (x ∷ xs))) ≡ x ∷ xs
unfolding join_options
read-joined x [] h =
    ap read_options (sym (append-nil (qemu_keyval_path x))) ∙ read-escaped x [] ∙ prepend-first x []
read-joined x (y ∷ ys) (h, hs) =
    let later = join_options (map qemu_keyval_path (y ∷ ys)) in
    read-escaped x (0x2c ∷ later)
    ∙ ap (prepend x)
        (read-separator later (is_option-joined y ys h) ∙ ap ([] ∷◌) (read-joined y ys hs))
    ∙ prepend-first x (y ∷ ys)

pub escaped-plain : (s : Text) → is_plain s ≡ true → qemu_keyval_path s ≡ s
unfolding qemu_keyval_path
escaped-plain [] h = refl
escaped-plain (c ∷ cs) h = elim (Bool-cases (c == 0x2c)) [
  | inl e ↦ ground arith
  | inr e ↦ rw e (ap (◌∷◌ c) (escaped-plain cs (ground arith)))
]

escaped-append : (a b : Text) → qemu_keyval_path (a ++ b) ≡ qemu_keyval_path a ++ qemu_keyval_path b
unfolding qemu_keyval_path
escaped-append [] b = refl
escaped-append (c ∷ cs) b = elim (Bool-cases (c == 0x2c)) [
  | inl e ↦ rw e (ap (λ l. c ∷ c ∷ l) (escaped-append cs b))
  | inr e ↦ rw e (ap (◌∷◌ c) (escaped-append cs b))
]

is_plain-append : (a b : Text) → is_plain a ≡ true → is_plain b ≡ true → is_plain (a ++ b) ≡ true
is_plain-append [] b h k = k
is_plain-append (c ∷ cs) b h k = ground (arith, is_plain-append cs b)

decimal_text-plain : (fuel n : ℕ) → is_plain (decimal_text fuel n) ≡ true
decimal_text-plain zero n = refl
decimal_text-plain (suc fuel) n = elim (Bool-cases (ltb n 10)) [
  | inl e ↦ rw e (ground arith)
  | inr e ↦ rw e (
      is_plain-append (decimal_text fuel (n / 10)) ((0x30 + n % 10) ∷ [])
        (decimal_text-plain fuel (n / 10)) (ground arith))
]

-- The options of a drive, its file by the path itself.
abbrev pub told_options : ℕ → QemuMedia → List Text
told_options index m =
    codes "if=none"
    ∷ (codes "id=" ++ drive_id index)
    ∷ (codes "format=" ++ format_name m.image_format)
    ∷ (codes "file=" ++ m.path)
    ∷ drive_flags m

flag-plain :
    (test : Bool) (s : Text) (rest : List Text)
    → is_plain s ≡ true
    → map qemu_keyval_path rest ≡ rest
    → map qemu_keyval_path (flag test s ++ rest) ≡ flag test s ++ rest
flag-plain true s rest h k = ap₂ (◌∷◌) (escaped-plain s h) k
flag-plain false s rest h k = k

flag-option :
    (test : Bool) (s : Text) (rest : List Text)
    → is_option s ≡ true
    → All (λ o. is_option o ≡ true) rest
    → All (λ o. is_option o ≡ true) (flag test s ++ rest)
flag-option true s rest h k = (h, k)
flag-option false s rest h k = k

format-plain : (f : ImageFormat) → is_plain (codes "format=" ++ format_name f) ≡ true
format-plain raw_image = refl
format-plain qcow2 = refl

flags-option : (m : QemuMedia) → All (λ o. is_option o ≡ true) (drive_flags m)
flags-option m =
    flag-option (is_cdrom m.interface) (codes "media=cdrom") _ refl
      (flag-option m.readonly (codes "readonly=on") _ refl (one (m.snapshot && not m.readonly)))
  where
    one : (test : Bool) → All (λ o. is_option o ≡ true) (flag test (codes "snapshot=on"))
    one true = (refl, tt)
    one false = tt

last_options :
    (m : QemuMedia)
    → map qemu_keyval_path ((codes "file=" ++ m.path) ∷ drive_flags m)
      ≡ (codes "file=" ++ qemu_keyval_path m.path) ∷ drive_flags m
unfolding qemu_keyval_path
last_options m = ap₂ (◌∷◌) refl (
    flag-plain (is_cdrom m.interface) (codes "media=cdrom") _ refl
      (flag-plain m.readonly (codes "readonly=on") _ refl (one (m.snapshot && not m.readonly))))
  where
    one :
        (test : Bool)
        → map qemu_keyval_path (flag test (codes "snapshot=on")) ≡ flag test (codes "snapshot=on")
    one true = refl
    one false = refl

-- The `-drive` argument of a medium, read as QEMU reads options (a comma ends an option and two
-- commas stand for one), gives back every option, with the path of the medium as the file
-- whatever commas it has.
pub drive_options-read :
    (index : ℕ) (m : QemuMedia)
    → read_options (join_options (drive_options index m)) ≡ told_options index m
unfolding drive_options
drive_options-read index m =
    let id = codes "id=" ++ drive_id index in
    let format = codes "format=" ++ format_name m.image_format in
    let rest = (codes "file=" ++ m.path) ∷ drive_flags m in
    let same : drive_options index m ≡ map qemu_keyval_path (codes "if=none" ∷ id ∷ format ∷ rest) =
      ap₂
        (λ i f.
          codes "if=none" ∷ i ∷ f ∷ (codes "file=" ++ qemu_keyval_path m.path) ∷ drive_flags m)
        (sym (
          escaped-plain id (
            is_plain-append (codes "id=ostest_media") (number index) refl
              (decimal_text-plain (index + 1) index))))
        (sym (escaped-plain format (format-plain m.image_format)))
      ∙ ap (λ l. codes "if=none" ∷ qemu_keyval_path id ∷ qemu_keyval_path format ∷ l)
          (sym (last_options m)) in
    ap (λ l. read_options (join_options l)) same
    ∙ read-joined (codes "if=none") (id ∷ format ∷ rest) (refl, (refl, (refl, flags-option m)))
