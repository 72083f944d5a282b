-- ===== src/Section/Fields.antt =====
-- What `SectionRecord::parse_with` has read and tested when it accepts a record.
use sidequests.Common.{ℕ, ◌≤◌, ◌≡◌, refl, List, length, true, some, arith, inl, inr, Option-cases}
use sidequests.Error.{ok}
use sidequests.Wire.{slice, u8_at, u16_at, u32_at, u64_at, all_zero}
use sidequests.Format.{section_record_len}
use sidequests.Footer.{root_len}
use sidequests.Kinds.{
  RuleSet, Encryption, Compression, plain, aead_stream, raw, zstd, validate_flags, kind_from_u16,
  kind_to_u16, enc_from_u8, enc_to_u8, comp_from_u8, comp_to_u8, SectionKind,
}
use sidequests.Section.{
  SectionRecord, check_kind, check_codec, check_extent, check_lengths, check_chunking, parse_with,
}

pub record Read (b : List ℕ) (r : SectionRecord) : Type 0 where
  pub kind_at : u16_at b 0 ≡ some (kind_to_u16 r.kind)
  pub name_at : u16_at b 2 ≡ some r.name_id
  pub flags_at : u16_at b 4 ≡ some r.flags
  pub enc_at : u8_at b 6 ≡ some (enc_to_u8 r.enc)
  pub comp_at : u8_at b 7 ≡ some (comp_to_u8 r.comp)
  pub offset_at : u64_at b 8 ≡ some r.offset
  pub stored_at : u64_at b 16 ≡ some r.len_stored
  pub plain_at : u64_at b 24 ≡ some r.len_plain
  pub chunk_at : u32_at b 32 ≡ some r.chunk_size
  pub reserved_a : all_zero b 36 4 ≡ some true
  pub index_at : u64_at b 40 ≡ some r.chunk_index_off
  pub root_at : slice b 48 root_len ≡ some r.root
  pub reserved_b : all_zero b 80 48 ≡ some true

-- The tests, each on the fields that it looks at.
pub record Checked (rules : RuleSet) (r : SectionRecord) : Type 0 where
  pub flags : validate_flags r.flags ≡ ok tt
  pub kind_known : kind_from_u16 (kind_to_u16 r.kind) r.flags ≡ ok r.kind
  pub kind : check_kind r.kind r.flags ≡ ok tt
  pub codec : check_codec rules r.kind r.flags r.enc r.comp ≡ ok tt
  pub extent : check_extent r.flags r.offset r.len_stored ≡ ok tt
  pub lengths : check_lengths rules r.flags r.enc r.comp r.len_stored r.len_plain ≡ ok tt
  pub chunking : check_chunking r.enc r.len_plain r.chunk_size r.chunk_index_off ≡ ok tt

pub enc_from_u8-to : (v : ℕ) (e : Encryption) → enc_from_u8 v ≡ ok e → v ≡ enc_to_u8 e
unfolding enc_from_u8 enc_to_u8
enc_from_u8-to v e h = ground arith

pub comp_from_u8-to : (v : ℕ) (c : Compression) → comp_from_u8 v ≡ ok c → v ≡ comp_to_u8 c
unfolding comp_from_u8 comp_to_u8
comp_from_u8-to v c h = ground arith

pub enc_from_u8-of : (e : Encryption) → enc_from_u8 (enc_to_u8 e) ≡ ok e
unfolding enc_from_u8 enc_to_u8
enc_from_u8-of plain = refl
enc_from_u8-of aead_stream = refl

pub comp_from_u8-of : (c : Compression) → comp_from_u8 (comp_to_u8 c) ≡ ok c
unfolding comp_from_u8 comp_to_u8
comp_from_u8-of raw = refl
comp_from_u8-of zstd = refl

pub kind_from_u16-to :
    (v flags : ℕ) (k : SectionKind) → kind_from_u16 v flags ≡ ok k → v ≡ kind_to_u16 k
unfolding kind_from_u16 kind_to_u16
kind_from_u16-to v flags k h = ground arith

module _ (b : List ℕ) (rules : RuleSet) (r : SectionRecord)
    (accepted : parse_with b rules ≡ ok r) where
  parse-kind : (k : ℕ) × (u16_at b 0 ≡ some k) × (kind_from_u16 k r.flags ≡ ok r.kind)
  unfolding parse_with
  parse-kind = elim (Option-cases (u16_at b 0)) [
    | inl missing ↦ absurd (ground arith)
    | inr (k, at) ↦ (k, at, ground arith)
  ]

  parse-enc : (e : ℕ) × (u8_at b 6 ≡ some e) × (enc_from_u8 e ≡ ok r.enc)
  unfolding parse_with
  parse-enc = elim (Option-cases (u8_at b 6)) [
    | inl missing ↦ absurd (ground arith)
    | inr (e, at) ↦ (e, at, ground arith)
  ]

  parse-comp : (c : ℕ) × (u8_at b 7 ≡ some c) × (comp_from_u8 c ≡ ok r.comp)
  unfolding parse_with
  parse-comp = elim (Option-cases (u8_at b 7)) [
    | inl missing ↦ absurd (ground arith)
    | inr (c, at) ↦ (c, at, ground arith)
  ]

  pub parse-length : section_record_len ≤ length b
  unfolding parse_with
  parse-length = ground arith

  pub parse-Read : Read b r
  unfolding parse_with
  parse-Read =
      let (k, k_at, kind) = parse-kind in
      let (e, e_at, enc) = parse-enc in
      let (c, c_at, comp) = parse-comp in
      record {
        kind_at = rw (← kind_from_u16-to k r.flags r.kind kind) k_at;
        name_at = ground arith;
        flags_at = ground arith;
        enc_at = rw (← enc_from_u8-to e r.enc enc) e_at;
        comp_at = rw (← comp_from_u8-to c r.comp comp) c_at;
        offset_at = ground arith;
        stored_at = ground arith;
        plain_at = ground arith;
        chunk_at = ground arith;
        reserved_a = ground arith;
        index_at = ground arith;
        root_at = ground arith;
        reserved_b = ground arith;
      }

  pub parse-Checked : Checked rules r
  unfolding parse_with
  parse-Checked =
      let (k, k_at, kind) = parse-kind in
      record {
        flags = ground arith;
        kind_known = rw (← kind_from_u16-to k r.flags r.kind kind) kind;
        kind = ground arith;
        codec = ground arith;
        extent = ground arith;
        lengths = ground arith;
        chunking = ground arith;
      }
