-- ===== src/Tests/Raws.antt =====
-- A raw image of two blobs, which are given in the other order.
use rules_ostest.Bytes.{overlay}
use rules_ostest.Raw.Composed.{IsPlaced, create_raw_image-IsPlaced}
use rules_ostest.Base.Int.{pos}
use rules_ostest.Files.{File, fresh, copy, write}
use rules_ostest.Text.{Text}
use rules_ostest.Raw.{
  create_raw_image, RawHost, make_blobs, make_blob, parse_offset, check_overlaps, write_blobs,
}
use rules_ostest.Base.{
  String, ◌≡◌, refl, false, some, List, [], ◌∷◌, ◌==◌, All, result_or, eq-ok_of_is_ok, ok,
}

abbrev raw_host : RawHost
raw_host = record {
  contents = λ path. some (1 ∷ 2 ∷ 3 ∷ []);
  matches_letter = λ p c. p == c;
  lower = λ text. text;
  path_before = λ p q. false;
}

-- "1kib" and "16"
abbrev blobs : List (String × Text)
blobs = ("late.bin", 0x31 ∷ 0x6b ∷ 0x69 ∷ 0x62 ∷ []) ∷ ("early.bin", 0x31 ∷ 0x36 ∷ []) ∷ []

abbrev raw_disk : File
raw_disk = result_or fresh (create_raw_image raw_host blobs (pos 1))

raw_made : create_raw_image raw_host blobs (pos 1) ≡ ok raw_disk
unfolding create_raw_image make_blobs make_blob parse_offset check_overlaps write_blobs copy write
    overlay
raw_made = eq-ok_of_is_ok (create_raw_image raw_host blobs (pos 1)) fresh refl

create_raw_image-IsPlaced_example :
    (raw_disk.size ≡ 1048576) × All (IsPlaced raw_host 1048576 raw_disk) blobs
create_raw_image-IsPlaced_example =
    create_raw_image-IsPlaced raw_host blobs (pos 1) raw_disk raw_made
