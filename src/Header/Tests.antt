-- ===== src/Header/Tests.antt =====
-- A small header, and the theorems about headers at it.
use sidequests.Common.{ℕ, ◌≡◌, refl, List, [], ◌∷◌, ◌++◌, drop, arith}
use sidequests.Error.{ok}
use sidequests.Wire.{slice, u16_at, u32_at, u64_at, all_zero, all_zero_bytes, bytes_eq, from_le}
use sidequests.Format.{header_len}
use sidequests.Header.{Header, IsValid, parse, to_bytes, table_end_of}
use sidequests.Header.RoundTrip.{to_bytes-parse, parse-to_bytes}
use mathlib.Core.Option

abbrev small : Header
small = record {
  version_major = 0;
  version_minor = 3;
  suite_id = 1;
  flags = 0;
  section_table_count = 1;
  section_table_off = 64;
  footer_off = 4099;
  feat_incompat = 0;
  feat_ro_compat = 1;
}

abbrev small_bytes : List ℕ
small_bytes =
    0x89 ∷ 0x43 ∷ 0x54 ∷ 0x46 ∷ 0x0d ∷ 0x0a ∷ 0x1a ∷ 0x0a ∷ 0 ∷ 0 ∷ 3 ∷ 0 ∷ 64 ∷ 0 ∷ 0 ∷ 0 ∷ 1 ∷ 0
    ∷ 0 ∷ 0 ∷ 1 ∷ 0 ∷ 0 ∷ 0 ∷ 64 ∷ 0 ∷ 0 ∷ 0 ∷ 0 ∷ 0 ∷ 0 ∷ 0 ∷ 3 ∷ 16 ∷ 0 ∷ 0 ∷ 0 ∷ 0 ∷ 0 ∷ 0 ∷ 0
    ∷ 0 ∷ 0 ∷ 0 ∷ 1 ∷ 0 ∷ 0 ∷ 0 ∷ 0 ∷ 0 ∷ 0 ∷ 0 ∷ 0 ∷ 0 ∷ 0 ∷ 0 ∷ 0 ∷ 0 ∷ 0 ∷ 0 ∷ 0 ∷ 0 ∷ 0 ∷ 0 ∷ []

small_writes : to_bytes small ≡ small_bytes
unfolding to_bytes
small_writes = refl

small_reads : parse small_bytes ≡ ok small
unfolding parse table_end_of Option.bind slice u16_at u32_at u64_at all_zero all_zero_bytes bytes_eq
    from_le
small_reads = refl

small-IsValid : IsValid small
small-IsValid = omega arith

to_bytes-parse_example : to_bytes small ++ drop header_len small_bytes ≡ small_bytes
to_bytes-parse_example = to_bytes-parse small_bytes small (omega arith) small_reads

parse-to_bytes_example : parse (to_bytes small ++ 7 ∷ []) ≡ ok small
parse-to_bytes_example = parse-to_bytes small (7 ∷ []) small-IsValid
