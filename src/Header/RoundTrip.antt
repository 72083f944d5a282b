-- ===== src/Header/RoundTrip.antt =====
-- `Header::parse` and `Header::to_bytes` are inverse to each other.
use sidequests.Common.{
  ℕ, ◌+◌, ◌≤◌, ◌≡◌, refl, sym, ◌∙◌, List, [], ◌++◌, length, drop, All, replicate, arith,
}
use sidequests.Common.Bits.{bit_and-ones}
use sidequests.Error.{ok}
use sidequests.Wire.{
  IsByte, u16_at, u32_at, u64_at, all_zero, to_le, bytes_eq_refl, uint_at-eq-some, all_zero-eq-true,
  all_zero_bytes, drop-slice, field_then, uint_at-some, slice-some,
}
use sidequests.Format.{magic, header_len}
use sidequests.Header.{Header, IsValid, parse, to_bytes, table_end_of-eq-ok, table_end_of-ok}
use sidequests.Header.Fields.{Read, parse-Read, parse-Tested, parse-table_end}

-- The fields of a header, in the order in which they stand in the file.
abbrev layout : Header → List ℕ → List ℕ
layout h rest =
    magic
    ++ (to_le 2 h.version_major
        ++ (to_le 2 h.version_minor
            ++ (to_le 4 header_len
                ++ (to_le 2 h.suite_id
                    ++ (to_le 2 h.flags
                        ++ (to_le 4 h.section_table_count
                            ++ (to_le 8 h.section_table_off
                                ++ (to_le 8 h.footer_off
                                    ++ (to_le 4 h.feat_incompat
                                        ++ (to_le 4 h.feat_ro_compat
                                            ++ (replicate 16 0 ++ rest)))))))))))

to_bytes-layout : (h : Header) → to_bytes h ≡ layout h []
unfolding to_bytes
to_bytes-layout h = refl

-- The bytes that a header was read from.
Read-layout : (b : List ℕ) (h : Header) → All IsByte b → Read b h → b ≡ layout h (drop 64 b)
unfolding u16_at u32_at u64_at
Read-layout b h bytes r = field_then magic (drop-slice b 0 8 r.magic_at) (
    field_then (to_le 2 h.version_major) (uint_at-eq-some b 8 2 bytes r.major_at).0 (
      field_then (to_le 2 h.version_minor) (uint_at-eq-some b 10 2 bytes r.minor_at).0 (
        field_then (to_le 4 header_len) (uint_at-eq-some b 12 4 bytes r.len_at).0 (
          field_then (to_le 2 h.suite_id) (uint_at-eq-some b 16 2 bytes r.suite_at).0 (
            field_then (to_le 2 h.flags) (uint_at-eq-some b 18 2 bytes r.flags_at).0 (
              field_then (to_le 4 h.section_table_count) (uint_at-eq-some b 20 4 bytes r.count_at).0
                (field_then (to_le 8 h.section_table_off) (uint_at-eq-some b 24 8 bytes r.off_at).0
                  (field_then (to_le 8 h.footer_off) (uint_at-eq-some b 32 8 bytes r.footer_at).0 (
                    field_then (to_le 4 h.feat_incompat)
                      (uint_at-eq-some b 40 4 bytes r.incompat_at).0
                      (field_then (to_le 4 h.feat_ro_compat)
                        (uint_at-eq-some b 44 4 bytes r.ro_compat_at).0
                        (all_zero-eq-true b 48 16 r.reserved_at)))))))))))

layout-append : (h : Header) (xs ys : List ℕ) → layout h xs ++ ys ≡ layout h (xs ++ ys)
unfolding to_le
layout-append h xs ys = refl

length-layout : (h : Header) (rest : List ℕ) → length (layout h rest) ≡ length rest + 64
unfolding to_le
length-layout h rest = omega arith

-- Writing an accepted header gives back the 64 bytes that it was read from, whatever follows them.
pub to_bytes-parse :
    (b : List ℕ) (h : Header) → All IsByte b → parse b ≡ ok h → to_bytes h ++ drop header_len b ≡ b
to_bytes-parse b h bytes e =
    rw (to_bytes-layout, layout-append) (sym (Read-layout b h bytes (parse-Read b h e)))

pub length-to_bytes : (h : Header) → length (to_bytes h) ≡ 64
length-to_bytes h = rw to_bytes-layout (length-layout h [])

-- Every accepted header is valid.
pub parse-IsValid : (b : List ℕ) (h : Header) → All IsByte b → parse b ≡ ok h → IsValid h
unfolding u16_at u32_at u64_at
parse-IsValid b h bytes e =
    let r = parse-Read b h e in
    let t = parse-Tested b h e in
    let (end, fits, before) = parse-table_end b h e in
    let (sum, wraps) = table_end_of-eq-ok h.section_table_off h.section_table_count fits in
    record {
      major = t.major;
      minor = (uint_at-eq-some b 10 2 bytes r.minor_at).1;
      suite = (uint_at-eq-some b 16 2 bytes r.suite_at).1;
      flags =
          sym (bit_and-ones 16 h.flags (uint_at-eq-some b 18 2 bytes r.flags_at).1) ∙ t.no_flags;
      incompat =
          sym (bit_and-ones 32 h.feat_incompat (uint_at-eq-some b 40 4 bytes r.incompat_at).1)
          ∙ t.no_incompat;
      ro_compat = (uint_at-eq-some b 44 4 bytes r.ro_compat_at).1;
      count = t.count;
      off = t.off;
      aligned = t.aligned;
      footer = (uint_at-eq-some b 32 8 bytes r.footer_at).1;
      before_footer = omega arith;
    }

layout-Read : (h : Header) (rest : List ℕ) → IsValid h → Read (layout h rest) h
unfolding u16_at u32_at u64_at all_zero all_zero_bytes to_le
layout-Read h rest v =
    let b = layout h rest in
    let len : 64 ≤ length b = omega (arith, length-layout h rest) in
    record {
      magic_at = slice-some b 0 8 (omega arith);
      major_at = uint_at-some b 8 2 (omega arith) refl (omega arith);
      minor_at = uint_at-some b 10 2 (omega arith) refl v.minor;
      len_at = uint_at-some b 12 4 (omega arith) refl (omega arith);
      suite_at = uint_at-some b 16 2 (omega arith) refl v.suite;
      flags_at = uint_at-some b 18 2 (omega arith) refl (omega arith);
      count_at = uint_at-some b 20 4 (omega arith) refl (omega arith);
      off_at = uint_at-some b 24 8 (omega arith) refl (omega arith);
      footer_at = uint_at-some b 32 8 (omega arith) refl v.footer;
      incompat_at = uint_at-some b 40 4 (omega arith) refl (omega arith);
      ro_compat_at = uint_at-some b 44 4 (omega arith) refl v.ro_compat;
      reserved_at = rw (slice-some b 48 16 (omega arith)) refl;
    }

-- The tests pass on a valid header, so what was read is what is returned.
Read-parse :
    (b : List ℕ) (h : Header) → header_len ≤ length b → Read b h → IsValid h → parse b ≡ ok h
unfolding parse
Read-parse b h len r v =
    ground (arith, bytes_eq_refl magic, table_end_of-ok h.section_table_off h.section_table_count)

-- A valid header is read back from the bytes that it is written to, whatever follows them.
pub parse-to_bytes : (h : Header) (rest : List ℕ) → IsValid h → parse (to_bytes h ++ rest) ≡ ok h
parse-to_bytes h rest v =
    rw (to_bytes-layout, layout-append)
      (Read-parse (layout h rest) h (omega (arith, length-layout h rest)) (layout-Read h rest v) v)
