-- ===== src/Layout/Tests.antt =====
-- A bundle of one manifest section, and the theorems about layouts at it.
use sidequests.Common.{ℕ, ◌≤◌, ◌≡◌, refl, List, [], ◌∷◌, ◌++◌, replicate, arith, All, length}
use sidequests.Common.Sort.{AllPairs, sort}
use sidequests.Error.{ok}
use sidequests.Wire.{slice, u8_at, u16_at, u32_at, u64_at, all_zero, all_zero_bytes, from_le}
use sidequests.Header.{Header, IsValid, check_file_len, table_range}
use sidequests.Kinds.{
  container, manifest, plain, raw, contains, validate_flags, kind_from_u16, enc_from_u8,
  comp_from_u8, rules_of, kind_to_u16,
}
use sidequests.Section.{
  SectionRecord, check_kind, check_codec, check_extent, check_lengths, check_chunking, check_index,
  parse_with,
}
use sidequests.Section.Fields.{Checked}
use sidequests.Section.RoundTrip.{Fits}
use sidequests.Layout.{
  Range, validate_layout, collect_ranges, stored_range, index_range, table_ranges, check_overlaps,
  check_padding, check_names, range_le, count_manifests, parse_table_with,
}
use sidequests.Layout.Disjoint.{IsDisjoint, IsInside, regions, validate_layout-IsDisjoint}

abbrev bundle_header : Header
bundle_header = record {
  version_major = 0;
  version_minor = 3;
  suite_id = 1;
  flags = 0;
  section_table_count = 1;
  section_table_off = 64;
  footer_off = 203;
  feat_incompat = 0;
  feat_ro_compat = 1;
}

-- Three bytes of manifest behind eight bytes of padding. (`validate_layout` leaves the alignment of a
-- payload to the record's own tests.)
abbrev bundle_record : SectionRecord
bundle_record = record {
  kind = manifest;
  name_id = 0;
  flags = 0;
  enc = plain;
  comp = raw;
  offset = 200;
  len_stored = 3;
  len_plain = 3;
  chunk_size = 0;
  chunk_index_off = 0;
  root = replicate 32 7;
}

abbrev bundle_records : List SectionRecord
bundle_records = bundle_record ∷ []

-- The header and the table are filled with 1 here: only the padding and the length are looked at.
abbrev bundle_file : List ℕ
bundle_file = replicate 192 1 ++ (replicate 8 0 ++ (5 ∷ 6 ∷ 7 ∷ replicate 56 1))

bundle_valid : validate_layout bundle_records bundle_header bundle_file ≡ ok tt
unfolding validate_layout check_file_len table_range check_names sort collect_ranges stored_range
    index_range table_ranges check_overlaps check_padding range_le count_manifests rules_of contains
    slice
bundle_valid = refl

header-IsValid : IsValid bundle_header
header-IsValid = omega arith

validate_layout-IsDisjoint_example :
    (rs : List Range) × (regions bundle_records bundle_header bundle_file ≡ ok rs)
    × AllPairs IsDisjoint rs
    × All (IsInside 203) rs
    × (203 ≤ length bundle_file)
validate_layout-IsDisjoint_example =
    validate_layout-IsDisjoint bundle_records bundle_header bundle_file header-IsValid bundle_valid

under_container : rules_of bundle_header ≡ container
unfolding rules_of
under_container = refl

-- The record that `table_file` holds, aligned as a record must be.
abbrev aligned_record : SectionRecord
aligned_record = record bundle_record { offset = 4096 }

abbrev table_file : List ℕ
table_file =
    1
    ∷ 0
    ∷ 0
    ∷ 0
    ∷ 0
    ∷ 0
    ∷ 0
    ∷ 0
    ∷ 0
    ∷ 16
    ∷ 0
    ∷ 0
    ∷ 0
    ∷ 0
    ∷ 0
    ∷ 0
    ∷ 3
    ∷ 0
    ∷ 0
    ∷ 0
    ∷ 0
    ∷ 0
    ∷ 0
    ∷ 0
    ∷ 3
    ∷ 0
    ∷ 0
    ∷ 0
    ∷ 0
    ∷ 0
    ∷ 0
    ∷ 0
    ∷ (replicate 16 0 ++ (replicate 32 7 ++ (replicate 48 0 ++ 9 ∷ [])))

table_reads : parse_table_with table_file 1 container ≡ ok (aligned_record ∷ [])
unfolding parse_table_with parse_with slice u8_at u16_at u32_at u64_at all_zero all_zero_bytes
    from_le contains validate_flags kind_from_u16 enc_from_u8 comp_from_u8 check_kind check_codec
    check_extent check_lengths check_chunking check_index
table_reads = refl

aligned-Checked : Checked container aligned_record
unfolding contains validate_flags kind_from_u16 kind_to_u16 check_kind check_codec check_extent
    check_lengths check_chunking check_index
aligned-Checked = record {
  flags = refl;
  kind_known = refl;
  kind = refl;
  codec = refl;
  extent = refl;
  lengths = refl;
  chunking = refl;
}

aligned-Fits : Fits aligned_record
unfolding kind_to_u16
aligned-Fits = omega arith
