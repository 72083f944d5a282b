-- ===== src/Section.antt =====
-- ctf-format/crates/ctf-format/src/section.rs: the 128-byte section record.
pub mod Fields
pub mod RoundTrip
pub mod Rules
mod Tests
use sidequests.Common.{
  ℕ, suc, zero, ◌+◌, ◌*◌, ◌%◌, ◌≤◌, ◌<◌, ◌≡◌, List, [], ◌∷◌, Bool, true, false, not, ◌&&◌, ◌||◌,
  Option, none, some, length, replicate, ltb, leb, ◌==◌, if◌then◌else◌,
}
use sidequests.Common.Bits.{pow2}
use sidequests.Error.{
  Error, Result, ok, err, ◌>>=◌, ◌>>◌, refuse_if, ok_or, truncated, reserved_not_zero, inconsistent,
  bad_offset, misaligned, length_overflow, bad_chunk_size,
}
use sidequests.Wire.{slice, u8_at, u16_at, u32_at, u64_at, all_zero, put, to_le}
use sidequests.Format.{
  header_len, section_record_len, payload_align, table_align, min_chunk_size, max_chunk_size,
  checked_add,
}
use sidequests.Footer.{root_len}
use sidequests.Chunk.{chunk_count, is_power_of_two, bad_chunk_size_of}
use sidequests.Kinds.{
  SectionKind, Encryption, Compression, RuleSet, contains, is_sealed, is_player_visible,
  is_external, validate_flags, kind_from_u16, kind_to_u16, is_manifest, must_be_sealed, enc_from_u8,
  enc_to_u8, is_plain, comp_from_u8, comp_to_u8, is_raw, is_container, container,
}

pub record SectionRecord : Type 0 where
  pub kind : SectionKind
  pub name_id : ℕ
  pub flags : ℕ
  pub enc : Encryption
  pub comp : Compression
  pub offset : ℕ
  pub len_stored : ℕ
  pub len_plain : ℕ
  pub chunk_size : ℕ
  pub chunk_index_off : ℕ
  pub root : List ℕ

-- Which kinds may carry which flags.
unfoldable pub check_kind : SectionKind → ℕ → Result (Unit {0})
check_kind kind flags = do
  refuse_if (must_be_sealed kind && not (is_sealed flags))
      (inconsistent "solver, writeup and progress sections must be SEALED")
  refuse_if (is_manifest kind && is_sealed flags)
      (inconsistent "manifest section must not be SEALED")
  refuse_if (is_manifest kind && is_player_visible flags)
      (inconsistent "manifest section must not be PLAYER_VISIBLE")
  refuse_if (is_manifest kind && is_external flags)
      (inconsistent "manifest section must not be EXTERNAL")
  ok tt

-- R20 and R21, which only a file that declares `CONTAINER_V1` is held to.
unfoldable pub check_codec :
    RuleSet → SectionKind → ℕ → Encryption → Compression → Result (Unit {0})
check_codec rules kind flags enc comp = do
  refuse_if (is_container rules && (is_manifest kind && (not (is_plain enc) || not (is_raw comp))))
      (inconsistent "manifest section must be neither encrypted nor compressed")
  refuse_if (is_container rules && (is_sealed flags && is_plain enc))
      (inconsistent "SEALED section must be encrypted")
  ok tt

-- Where the stored bytes may lie.
unfoldable pub check_extent : ℕ → ℕ → ℕ → Result (Unit {0})
check_extent flags offset len_stored =
    if is_external flags
    then (do
      refuse_if (not (offset == 0) || not (len_stored == 0))
          (inconsistent "EXTERNAL section must have offset and len_stored of 0")
      ok tt)
    else (do
      refuse_if (ltb offset header_len) (bad_offset "section.offset" offset)
      refuse_if (not (offset % payload_align == 0))
          (misaligned "section.offset" offset payload_align)
      end ← ok_or (checked_add offset len_stored) (length_overflow "section range")
      ok tt)

-- R22, and the two lengths of a section that no codec touches.
unfoldable pub check_lengths :
    RuleSet → ℕ → Encryption → Compression → (len_stored len_plain : ℕ) → Result (Unit {0})
check_lengths rules flags enc comp len_stored len_plain = do
  refuse_if (is_container rules && (is_external flags && (not (is_plain enc) || not (is_raw comp))))
      (inconsistent "EXTERNAL section must be neither encrypted nor compressed")
  refuse_if
      (is_plain enc && (is_raw comp && (not (is_external flags) && not (len_stored == len_plain))))
      (inconsistent "unencrypted, uncompressed section has len_stored != len_plain")
  ok tt

-- The chunk size, and the chunk index where there is one.
unfoldable pub check_index : (len_plain chunk_size chunk_index_off : ℕ) → Result (Unit {0})
check_index len_plain chunk_size chunk_index_off = if chunk_index_off == 0 then ok tt else (do
  refuse_if (chunk_size == 0) (inconsistent "chunk_index_off set on a single-chunk section")
  refuse_if (ltb chunk_index_off header_len) (bad_offset "section.chunk_index_off" chunk_index_off)
  refuse_if (not (chunk_index_off % table_align == 0))
      (misaligned "section.chunk_index_off" chunk_index_off table_align)
  count ← chunk_count len_plain chunk_size
  refuse_if (ltb count 2) (inconsistent "chunk index on a section of fewer than two chunks")
  ok tt)

unfoldable pub check_chunking :
    Encryption → (len_plain chunk_size chunk_index_off : ℕ) → Result (Unit {0})
check_chunking enc len_plain chunk_size chunk_index_off = do
  refuse_if (not (chunk_size == 0) && bad_chunk_size_of chunk_size) (bad_chunk_size chunk_size)
  refuse_if (not (is_plain enc) && chunk_size == 0)
      (inconsistent "AEAD-STREAM section requires a non-zero chunk_size")
  check_index len_plain chunk_size chunk_index_off

unfoldable pub parse_with : List ℕ → RuleSet → Result SectionRecord
parse_with b rules = do
  let trunc = truncated section_record_len (length b)
  refuse_if (ltb (length b) section_record_len) trunc
  reserved_a ← ok_or (all_zero b 36 4) trunc
  refuse_if (not reserved_a) (reserved_not_zero "section")
  reserved_b ← ok_or (all_zero b 80 48) trunc
  refuse_if (not reserved_b) (reserved_not_zero "section")
  flags ← ok_or (u16_at b 4) trunc
  validate_flags flags
  discriminant ← ok_or (u16_at b 0) trunc
  kind ← kind_from_u16 discriminant flags
  check_kind kind flags
  enc_byte ← ok_or (u8_at b 6) trunc
  enc ← enc_from_u8 enc_byte
  comp_byte ← ok_or (u8_at b 7) trunc
  comp ← comp_from_u8 comp_byte
  check_codec rules kind flags enc comp
  offset ← ok_or (u64_at b 8) trunc
  len_stored ← ok_or (u64_at b 16) trunc
  len_plain ← ok_or (u64_at b 24) trunc
  chunk_size ← ok_or (u32_at b 32) trunc
  chunk_index_off ← ok_or (u64_at b 40) trunc
  check_extent flags offset len_stored
  check_lengths rules flags enc comp len_stored len_plain
  check_chunking enc len_plain chunk_size chunk_index_off
  root ← ok_or (slice b 48 root_len) trunc
  name_id ← ok_or (u16_at b 2) trunc
  ok (record {
    kind = kind;
    name_id = name_id;
    flags = flags;
    enc = enc;
    comp = comp;
    offset = offset;
    len_stored = len_stored;
    len_plain = len_plain;
    chunk_size = chunk_size;
    chunk_index_off = chunk_index_off;
    root = root;
  })

unfoldable pub parse : List ℕ → Result SectionRecord
unfolding parse_with
parse b = parse_with b container

unfoldable pub to_bytes : SectionRecord → List ℕ
unfolding put to_le slice kind_to_u16 enc_to_u8 comp_to_u8
to_bytes r =
    let zeros : List ℕ = replicate section_record_len 0 in
    let b0 = put 0 (to_le 2 (kind_to_u16 r.kind)) zeros in
    let b1 = put 2 (to_le 2 r.name_id) b0 in
    let b2 = put 4 (to_le 2 r.flags) b1 in
    let b3 = put 6 (enc_to_u8 r.enc ∷ []) b2 in
    let b4 = put 7 (comp_to_u8 r.comp ∷ []) b3 in
    let b5 = put 8 (to_le 8 r.offset) b4 in
    let b6 = put 16 (to_le 8 r.len_stored) b5 in
    let b7 = put 24 (to_le 8 r.len_plain) b6 in
    let b8 = put 32 (to_le 4 r.chunk_size) b7 in
    let b9 = put 40 (to_le 8 r.chunk_index_off) b8 in put 48 r.root b9
