-- ===== src/Section/Tests.antt =====
-- Three section records, and the theorems about records at them.
use sidequests.Common.{
  ℕ, ◌≤◌, ◌≡◌, ◌≢◌, refl, List, [], ◌∷◌, ◌++◌, drop, replicate, arith, true, false,
}
use sidequests.Error.{ok}
use sidequests.Wire.{slice, u8_at, u16_at, u32_at, u64_at, all_zero, all_zero_bytes, from_le}
use sidequests.Format.{header_len, section_record_len}
use sidequests.Chunk.{chunk_count, div_ceil, is_power_of_two}
use sidequests.Kinds.{
  container, legacy, manifest, solver, unknown, plain, aead_stream, raw, is_sealed,
  is_player_visible, is_external, contains, validate_flags, kind_from_u16, kind_to_u16, enc_from_u8,
  comp_from_u8,
}
use sidequests.Section.{
  SectionRecord, check_kind, check_codec, check_extent, check_lengths, check_chunking, check_index,
  parse_with, parse, to_bytes,
}
use sidequests.Section.Fields.{Checked}
use sidequests.Section.RoundTrip.{Fits, to_bytes-parse_with, parse_with-to_bytes}
use sidequests.Section.Rules.{sealed_kinds_protected}

abbrev pub manifest_record : SectionRecord
manifest_record = record {
  kind = manifest;
  name_id = 0;
  flags = 0;
  enc = plain;
  comp = raw;
  offset = 4096;
  len_stored = 3;
  len_plain = 3;
  chunk_size = 0;
  chunk_index_off = 0;
  root = replicate 32 7;
}

-- A sealed solver in three encrypted chunks, with an index.
abbrev solver_record : SectionRecord
solver_record = record {
  kind = solver;
  name_id = 1;
  flags = 1;
  enc = aead_stream;
  comp = raw;
  offset = 8192;
  len_stored = 9048;
  len_plain = 9000;
  chunk_size = 4096;
  chunk_index_off = 192;
  root = replicate 32 9;
}

-- A kind of some later version, marked OPTIONAL.
abbrev future_record : SectionRecord
future_record = record {
  kind = unknown 300;
  name_id = 2;
  flags = 8;
  enc = plain;
  comp = raw;
  offset = 4096;
  len_stored = 0;
  len_plain = 0;
  chunk_size = 0;
  chunk_index_off = 0;
  root = replicate 32 1;
}

abbrev record_bytes : List ℕ → List ℕ → ℕ → List ℕ
record_bytes fields chunking root = fields ++ (chunking ++ (replicate 32 root ++ replicate 48 0))

abbrev manifest_bytes : List ℕ
manifest_bytes =
    record_bytes
      (1 ∷ 0 ∷ 0 ∷ 0 ∷ 0 ∷ 0 ∷ 0 ∷ 0 ∷ 0 ∷ 16 ∷ 0 ∷ 0 ∷ 0 ∷ 0 ∷ 0 ∷ 0 ∷ 3 ∷ 0 ∷ 0 ∷ 0 ∷ 0 ∷ 0 ∷ 0
        ∷ 0 ∷ 3 ∷ 0 ∷ 0 ∷ 0 ∷ 0 ∷ 0 ∷ 0 ∷ 0 ∷ [])
      (replicate 16 0) 7

abbrev solver_bytes : List ℕ
solver_bytes =
    record_bytes
      (4 ∷ 0 ∷ 1 ∷ 0 ∷ 1 ∷ 0 ∷ 1 ∷ 0 ∷ 0 ∷ 32 ∷ 0 ∷ 0 ∷ 0 ∷ 0 ∷ 0 ∷ 0 ∷ 0x58 ∷ 0x23 ∷ 0 ∷ 0 ∷ 0 ∷ 0
        ∷ 0 ∷ 0 ∷ 0x28 ∷ 0x23 ∷ 0 ∷ 0 ∷ 0 ∷ 0 ∷ 0 ∷ 0 ∷ [])
      (0 ∷ 16 ∷ 0 ∷ 0 ∷ 0 ∷ 0 ∷ 0 ∷ 0 ∷ 192 ∷ 0 ∷ 0 ∷ 0 ∷ 0 ∷ 0 ∷ 0 ∷ 0 ∷ []) 9

abbrev future_bytes : List ℕ
future_bytes =
    record_bytes
      (0x2c ∷ 1 ∷ 2 ∷ 0 ∷ 8 ∷ 0 ∷ 0 ∷ 0 ∷ 0 ∷ 16 ∷ 0 ∷ 0 ∷ 0 ∷ 0 ∷ 0 ∷ 0 ∷ replicate 16 0)
      (replicate 16 0) 1

manifest_reads : parse manifest_bytes ≡ ok manifest_record
unfolding parse slice u8_at u16_at u32_at u64_at all_zero all_zero_bytes from_le contains
    validate_flags kind_from_u16 enc_from_u8 comp_from_u8 check_kind check_codec check_extent
    check_lengths check_chunking check_index
manifest_reads = refl

solver_reads : parse solver_bytes ≡ ok solver_record
unfolding parse slice u8_at u16_at u32_at u64_at all_zero all_zero_bytes from_le contains
    validate_flags kind_from_u16 enc_from_u8 comp_from_u8 check_kind check_codec check_extent
    check_lengths check_chunking check_index chunk_count div_ceil is_power_of_two
solver_reads = refl

future_reads : parse_with future_bytes legacy ≡ ok future_record
unfolding parse slice u8_at u16_at u32_at u64_at all_zero all_zero_bytes from_le contains
    validate_flags kind_from_u16 enc_from_u8 comp_from_u8 check_kind check_codec check_extent
    check_lengths check_chunking check_index
future_reads = refl

solver-Checked : Checked container solver_record
unfolding contains validate_flags kind_from_u16 kind_to_u16 check_kind check_codec check_extent
    check_lengths check_chunking check_index chunk_count div_ceil is_power_of_two
solver-Checked = record {
  flags = refl;
  kind_known = refl;
  kind = refl;
  codec = refl;
  extent = refl;
  lengths = refl;
  chunking = refl;
}

solver-Fits : Fits solver_record
unfolding kind_to_u16
solver-Fits = omega arith

to_bytes-parse_with_example :
    to_bytes solver_record ++ drop section_record_len solver_bytes ≡ solver_bytes
unfolding parse
to_bytes-parse_with_example =
    to_bytes-parse_with solver_bytes container solver_record (omega arith) solver_reads

parse_with-to_bytes_example :
    parse_with (to_bytes solver_record ++ 1 ∷ []) container ≡ ok solver_record
parse_with-to_bytes_example =
    parse_with-to_bytes solver_record container (1 ∷ []) solver-Fits solver-Checked

sealed_kinds_protected_example :
    (is_sealed solver_record.flags ≡ true)
    × (solver_record.enc ≡ aead_stream)
    × (is_player_visible solver_record.flags ≡ false)
    × (is_external solver_record.flags ≡ false)
    × (header_len ≤ solver_record.offset)
    × (solver_record.chunk_size ≢ 0)
sealed_kinds_protected_example = sealed_kinds_protected solver_bytes solver_record solver_reads refl
