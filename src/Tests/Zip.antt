-- ===== src/Tests/Zip.antt =====
-- The zip writer's checksum, names, records and time stamp at concrete inputs.
use k_quickshare.Zip.Crc.{crc_shift, crc_rounds, crc_table, crc_update, crc_of_blob}
use k_quickshare.Zip.Crc.Bitwise.{crc_bitwise, crc_update-crc_bitwise}
use k_quickshare.Zip.Crc.Sliced.{crc_of_blob-eq}
use k_quickshare.Zip.Names.{
  unique_names, names_from, place_name, zip_name, free_number, candidate, stem_of, ext_of, is_seen,
}
use k_quickshare.Zip.Names.Distinct.{AreDistinct, unique_names-AreDistinct}
use k_quickshare.Json.{Text, codes}
use k_quickshare.Json.Write.{decimal}
use k_quickshare.Zip.Archive.{max32, build_from, local_record, central_record, end_record, fill}
use k_quickshare.Zip.Archive.Layout.{archive_of, local_part, directory, build_from-archive_of}
use k_quickshare.Zip.Stamp.{DosStamp, Date}
use k_quickshare.Base.{
  ok, err, zip_too_large, if◌then◌else◌, leb, List, length, arith, ◌∷◌, [], some, refl, ◌≡◌,
  bit_xor, ◌+◌, AreBytes, Bytes,
}

abbrev digits : Bytes
digits = 49 ∷ 50 ∷ 51 ∷ 52 ∷ 53 ∷ 54 ∷ 55 ∷ 56 ∷ 57 ∷ []

digits-AreBytes : AreBytes digits
digits-AreBytes = omega arith

-- The check value of CRC-32.
check_value : crc_of_blob digits ≡ some 0xcbf43926
unfolding crc_of_blob crc_update crc_table crc_rounds crc_shift
check_value = refl

crc_update-crc_bitwise_example : crc_update 0xffffffff digits ≡ crc_bitwise 0xffffffff digits
crc_update-crc_bitwise_example = crc_update-crc_bitwise digits 0xffffffff digits-AreBytes

crc_of_blob-eq_example :
    crc_of_blob digits ≡ some (bit_xor (crc_update 0xffffffff digits) 0xffffffff)
crc_of_blob-eq_example = crc_of_blob-eq digits

abbrev noon : Date
noon = record { year = 2024; month = 1; day = 29; hours = 12; minutes = 30; seconds = 59 }

abbrev three_scans : List Text
three_scans = codes "scan.pdf" ∷ codes "scan (2).pdf" ∷ codes "scan.pdf" ∷ codes "..a//b" ∷ []

-- The second `scan.pdf` passes over a number that is taken.
three_scans_named :
    unique_names three_scans
    ≡ some (codes "scan.pdf" ∷ codes "scan (2).pdf" ∷ codes "scan (3).pdf" ∷ codes "a_b" ∷ [])
unfolding unique_names names_from place_name zip_name free_number candidate stem_of ext_of is_seen
    decimal
three_scans_named = refl

unique_names-AreDistinct_example :
    (names : List Text) × (unique_names three_scans ≡ some names)
    × (length names ≡ 4)
    × AreDistinct names
unique_names-AreDistinct_example = unique_names-AreDistinct three_scans

abbrev two_items : List (Bytes × Bytes)
two_items = (codes "a", digits) ∷ (codes "b.txt", []) ∷ []

abbrev stamp : DosStamp
stamp = record { time = 25566; date = 22621 }

build_from-archive_of_example :
    build_from stamp two_items (record { parts = []; central = []; offset = 0 }) ≡ (
      if leb (length (archive_of stamp two_items)) max32
      then ok (archive_of stamp two_items)
      else err zip_too_large)
build_from-archive_of_example = build_from-archive_of stamp two_items

-- Two local records, nine bytes of content, two records of the directory and the end record.
archive_size : length (archive_of stamp two_items) ≡ (31 + 9) + 35 + (47 + 51) + 22
unfolding local_part directory local_record central_record end_record fill
archive_size = refl
