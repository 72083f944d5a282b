-- ===== src/Section/RoundTrip.antt =====
-- `SectionRecord::parse_with` and `SectionRecord::to_bytes` are inverse to each other.
use sidequests.Common.{
  ℕ, ◌+◌, ◌<◌, ◌≤◌, ◌≡◌, refl, sym, ◌∙◌, List, [], ◌∷◌, ◌++◌, length, drop, All, replicate, some,
  arith, ap, append_assoc, length-append, take-append, drop-append,
}
use sidequests.Error.{ok}
use sidequests.Wire.{
  IsByte, u8_at, u16_at, u32_at, u64_at, all_zero, to_le, uint_at-eq-some, all_zero-eq-true,
  all_zero_bytes, drop-slice, field_then, uint_at-some, slice-some, u8_at-eq-some, length-slice,
}
use sidequests.Format.{section_record_len, u16_mod, u32_mod, u64_mod}
use sidequests.Footer.{root_len}
use sidequests.Kinds.{RuleSet, kind_to_u16, enc_to_u8, comp_to_u8}
use sidequests.Section.{SectionRecord, parse_with, to_bytes}
use sidequests.Section.Fields.{enc_from_u8-of, comp_from_u8-of, Read, Checked, parse-Read}

-- The fields fit their places in the record.
pub record Fits (r : SectionRecord) : Type 0 where
  pub kind : kind_to_u16 r.kind < u16_mod
  pub name : r.name_id < u16_mod
  pub flags : r.flags < u16_mod
  pub offset : r.offset < u64_mod
  pub stored : r.len_stored < u64_mod
  pub plain : r.len_plain < u64_mod
  pub chunk : r.chunk_size < u32_mod
  pub index : r.chunk_index_off < u64_mod
  pub root : length r.root ≡ root_len

-- The fields of a record, in the order in which they stand in the file.
abbrev layout : SectionRecord → List ℕ → List ℕ
layout r rest =
    to_le 2 (kind_to_u16 r.kind)
    ++ (to_le 2 r.name_id
        ++ (to_le 2 r.flags
            ++ (enc_to_u8 r.enc
                ∷ comp_to_u8 r.comp
                ∷ (to_le 8 r.offset
                    ++ (to_le 8 r.len_stored
                        ++ (to_le 8 r.len_plain
                            ++ (to_le 4 r.chunk_size
                                ++ (replicate 4 0
                                    ++ (to_le 8 r.chunk_index_off
                                        ++ (r.root ++ (replicate 48 0 ++ rest)))))))))))

Read-layout : (b : List ℕ) (r : SectionRecord) → All IsByte b → Read b r → b ≡ layout r (drop 128 b)
unfolding u16_at u32_at u64_at
Read-layout b r bytes f =
    field_then (to_le 2 (kind_to_u16 r.kind)) (uint_at-eq-some b 0 2 bytes f.kind_at).0 (
      field_then (to_le 2 r.name_id) (uint_at-eq-some b 2 2 bytes f.name_at).0 (
        field_then (to_le 2 r.flags) (uint_at-eq-some b 4 2 bytes f.flags_at).0 (
          field_then (enc_to_u8 r.enc ∷ []) (u8_at-eq-some b 6 f.enc_at) (
            field_then (comp_to_u8 r.comp ∷ []) (u8_at-eq-some b 7 f.comp_at) (
              field_then (to_le 8 r.offset) (uint_at-eq-some b 8 8 bytes f.offset_at).0 (
                field_then (to_le 8 r.len_stored) (uint_at-eq-some b 16 8 bytes f.stored_at).0 (
                  field_then (to_le 8 r.len_plain) (uint_at-eq-some b 24 8 bytes f.plain_at).0 (
                    field_then (to_le 4 r.chunk_size) (uint_at-eq-some b 32 4 bytes f.chunk_at).0 (
                      field_then (replicate 4 0) (all_zero-eq-true b 36 4 f.reserved_a) (
                        field_then (to_le 8 r.chunk_index_off)
                          (uint_at-eq-some b 40 8 bytes f.index_at).0
                          (field_then r.root (drop-slice b 48 root_len f.root_at)
                            (all_zero-eq-true b 80 48 f.reserved_b))))))))))))

-- A parsed record fits.
pub parse-Fits :
    (b : List ℕ) (rules : RuleSet) (r : SectionRecord)
    → All IsByte b
    → parse_with b rules ≡ ok r
    → Fits r
unfolding u16_at u32_at u64_at
parse-Fits b rules r bytes e =
    let f = parse-Read b rules r e in
    record {
      kind = (uint_at-eq-some b 0 2 bytes f.kind_at).1;
      name = (uint_at-eq-some b 2 2 bytes f.name_at).1;
      flags = (uint_at-eq-some b 4 2 bytes f.flags_at).1;
      offset = (uint_at-eq-some b 8 8 bytes f.offset_at).1;
      stored = (uint_at-eq-some b 16 8 bytes f.stored_at).1;
      plain = (uint_at-eq-some b 24 8 bytes f.plain_at).1;
      chunk = (uint_at-eq-some b 32 4 bytes f.chunk_at).1;
      index = (uint_at-eq-some b 40 8 bytes f.index_at).1;
      root = length-slice b 48 root_len f.root_at;
    }

-- Where the root has its 32 bytes, the buffer is filled field by field.
to_bytes-layout : (r : SectionRecord) → length r.root ≡ root_len → to_bytes r ≡ layout r []
unfolding to_bytes
to_bytes-layout r len = rw len refl

layout-append : (r : SectionRecord) (xs ys : List ℕ) → layout r xs ++ ys ≡ layout r (xs ++ ys)
unfolding to_le
layout-append r xs ys = simp append_assoc

length-layout :
    (r : SectionRecord) (rest : List ℕ)
    → length r.root ≡ root_len
    → length (layout r rest) ≡ length rest + 128
unfolding to_le
length-layout r rest len = omega (arith, length-append r.root (replicate 48 0 ++ rest))

-- Writing an accepted record gives back the 128 bytes that it was read from, whatever follows.
pub to_bytes-parse_with :
    (b : List ℕ) (rules : RuleSet) (r : SectionRecord)
    → All IsByte b
    → parse_with b rules ≡ ok r
    → to_bytes r ++ drop section_record_len b ≡ b
to_bytes-parse_with b rules r bytes e =
    let f = parse-Fits b rules r bytes e in
    rw (to_bytes-layout r f.root, layout-append)
      (sym (Read-layout b r bytes (parse-Read b rules r e)))

layout-Read : (r : SectionRecord) (rest : List ℕ) → Fits r → Read (layout r rest) r
unfolding u8_at u16_at u32_at u64_at all_zero all_zero_bytes to_le
layout-Read r rest v =
    let b = layout r rest in
    let len : 128 ≤ length b = omega (arith, length-layout r rest v.root) in
    record {
      kind_at = uint_at-some b 0 2 (omega arith) refl v.kind;
      name_at = uint_at-some b 2 2 (omega arith) refl v.name;
      flags_at = uint_at-some b 4 2 (omega arith) refl v.flags;
      enc_at = refl;
      comp_at = refl;
      offset_at = uint_at-some b 8 8 (omega arith) refl v.offset;
      stored_at = uint_at-some b 16 8 (omega arith) refl v.stored;
      plain_at = uint_at-some b 24 8 (omega arith) refl v.plain;
      chunk_at = uint_at-some b 32 4 (omega arith) refl v.chunk;
      reserved_a = rw (slice-some b 36 4 (omega arith)) refl;
      index_at = uint_at-some b 40 8 (omega arith) refl v.index;
      root_at = slice-some b 48 32 (omega arith) ∙ ap some (take-append r.root _ v.root);
      reserved_b =
          rw (slice-some b 80 48 (omega arith))
            (rw (drop-append r.root (replicate 48 0 ++ rest) v.root) refl);
    }

pub Read-parse :
    (b : List ℕ) (rules : RuleSet) (r : SectionRecord)
    → section_record_len ≤ length b
    → Read b r
    → Checked rules r
    → parse_with b rules ≡ ok r
unfolding parse_with
Read-parse b rules r len f c = ground (arith, enc_from_u8-of r.enc, comp_from_u8-of r.comp)

-- A record whose fields fit their widths and that passes the tests of a rule set is read back from the bytes that it is written to.
pub parse_with-to_bytes :
    (r : SectionRecord) (rules : RuleSet) (rest : List ℕ)
    → Fits r
    → Checked rules r
    → parse_with (to_bytes r ++ rest) rules ≡ ok r
parse_with-to_bytes r rules rest v c =
    rw (to_bytes-layout r v.root, layout-append)
      (Read-parse (layout r rest) rules r (omega (arith, length-layout r rest v.root))
        (layout-Read r rest v) c)

pub length-to_bytes :
    (r : SectionRecord) → length r.root ≡ root_len → length (to_bytes r) ≡ section_record_len
length-to_bytes r len = rw (to_bytes-layout r len) (omega (arith, length-layout r [] len))
