-- ===== src/Header.antt =====
-- ctf-format/crates/ctf-format/src/header.rs: the 64-byte file header.
pub mod Fields
pub mod RoundTrip
mod Tests
use mathlib.Core.Option
use sidequests.Common.{
  ℕ, ◌+◌, ◌*◌, ◌%◌, ◌≤◌, ◌<◌, ◌≡◌, String, List, [], ◌∷◌, Bool, true, false, not, Option, none,
  some, arith, length, replicate, ltb, ◌==◌, if◌then◌else◌,
}
use sidequests.Error.{
  Error, Result, ok, err, ◌>>=◌, ◌>>◌, refuse_if, ok_or, truncated, bad_magic, unsupported_version,
  bad_header_len, unsupported_feature, reserved_not_zero, unknown_flag_bits, too_many_sections,
  bad_offset, misaligned, length_overflow, exceeds_file,
}
use sidequests.Wire.{slice, u16_at, u32_at, u64_at, all_zero, put, to_le, bytes_eq}
use sidequests.Format.{
  magic, supported_major, supported_incompat, supported_ro_compat, header_len, section_record_len,
  table_align, max_sections, u16_mod, u32_mod, u64_mod, checked_add, checked_mul, and_not_u16,
  and_not_u32,
}

abbrev known_header_flags : ℕ
known_header_flags = 0

pub record Header : Type 0 where
  pub version_major : ℕ
  pub version_minor : ℕ
  pub suite_id : ℕ
  pub flags : ℕ
  pub section_table_count : ℕ
  pub section_table_off : ℕ
  pub footer_off : ℕ
  pub feat_incompat : ℕ
  pub feat_ro_compat : ℕ

-- off + count * 128, checked. `count` is a `u32`, so only the sum can overflow.
unfoldable pub table_end_of : ℕ → ℕ → Result ℕ
unfolding Option.bind
table_end_of off count =
    ok_or (Option.bind (checked_mul count section_record_len) (λ len. checked_add off len))
      (length_overflow "header.section_table")

pub table_end_of-eq-ok :
    (off count : ℕ) {end : ℕ}
    → table_end_of off count ≡ ok end
    → (end ≡ off + count * section_record_len) × (end < u64_mod)
unfolding table_end_of
table_end_of-eq-ok off count e = ground arith

pub table_end_of-ok :
    (off count : ℕ)
    → off + count * section_record_len < u64_mod
    → table_end_of off count ≡ ok (off + count * section_record_len)
unfolding table_end_of
table_end_of-ok off count h = ground arith

unfoldable pub parse : List ℕ → Result Header
parse b = do
  let trunc = truncated header_len (length b)
  refuse_if (ltb (length b) header_len) trunc
  found ← ok_or (slice b 0 8) trunc
  refuse_if (not (bytes_eq found magic)) bad_magic
  major ← ok_or (u16_at b 8) trunc
  minor ← ok_or (u16_at b 10) trunc
  refuse_if (not (major == supported_major)) (unsupported_version major minor)
  len ← ok_or (u32_at b 12) trunc
  refuse_if (not (len == header_len)) (bad_header_len len)
  incompat ← ok_or (u32_at b 40) trunc
  refuse_if (not (and_not_u32 incompat supported_incompat == 0))
      (unsupported_feature "incompat" (and_not_u32 incompat supported_incompat))
  ro_compat ← ok_or (u32_at b 44) trunc
  reserved ← ok_or (all_zero b 48 16) trunc
  refuse_if (not reserved) (reserved_not_zero "header")
  flags ← ok_or (u16_at b 18) trunc
  refuse_if (not (and_not_u16 flags known_header_flags == 0))
      (unknown_flag_bits "header.flags" (and_not_u16 flags known_header_flags))
  count ← ok_or (u32_at b 20) trunc
  refuse_if (ltb max_sections count) (too_many_sections count max_sections)
  table_off ← ok_or (u64_at b 24) trunc
  refuse_if (ltb table_off header_len) (bad_offset "header.section_table_off" table_off)
  refuse_if (not (table_off % table_align == 0))
      (misaligned "header.section_table_off" table_off table_align)
  footer_off ← ok_or (u64_at b 32) trunc
  table_end ← table_end_of table_off count
  refuse_if (ltb footer_off table_end) (bad_offset "header.footer_off" footer_off)
  suite_id ← ok_or (u16_at b 16) trunc
  ok (record {
    version_major = major;
    version_minor = minor;
    suite_id = suite_id;
    flags = flags;
    section_table_count = count;
    section_table_off = table_off;
    footer_off = footer_off;
    feat_incompat = incompat;
    feat_ro_compat = ro_compat;
  })

unfoldable pub may_rewrite : Header → Bool
may_rewrite h = and_not_u32 h.feat_ro_compat supported_ro_compat == 0

unfoldable pub table_range : Header → Result (ℕ × ℕ)
table_range h = do
  end ← table_end_of h.section_table_off h.section_table_count
  ok (h.section_table_off, end)

unfoldable pub check_file_len : Header → ℕ → Result (Unit {0})
unfolding table_range table_end_of
check_file_len h file_len = do
  (start, table_end) ← table_range h
  refuse_if (ltb file_len table_end) (exceeds_file "section table" table_end file_len)
  refuse_if (ltb file_len h.footer_off) (exceeds_file "footer" h.footer_off file_len)
  ok tt

unfoldable pub to_bytes : Header → List ℕ
unfolding put to_le slice
to_bytes h =
    let zeros : List ℕ = replicate header_len 0 in
    let b0 = put 0 magic zeros in
    let b1 = put 8 (to_le 2 h.version_major) b0 in
    let b2 = put 10 (to_le 2 h.version_minor) b1 in
    let b3 = put 12 (to_le 4 header_len) b2 in
    let b4 = put 16 (to_le 2 h.suite_id) b3 in
    let b5 = put 18 (to_le 2 h.flags) b4 in
    let b6 = put 20 (to_le 4 h.section_table_count) b5 in
    let b7 = put 24 (to_le 8 h.section_table_off) b6 in
    let b8 = put 32 (to_le 8 h.footer_off) b7 in
    let b9 = put 40 (to_le 4 h.feat_incompat) b8 in put 44 (to_le 4 h.feat_ro_compat) b9

-- What an accepted header promises the rest of the reader.
pub record IsValid (h : Header) : Type 0 where
  pub major : h.version_major ≡ supported_major
  pub minor : h.version_minor < u16_mod
  pub suite : h.suite_id < u16_mod
  pub flags : h.flags ≡ 0
  pub incompat : h.feat_incompat ≡ 0
  pub ro_compat : h.feat_ro_compat < u32_mod
  pub count : h.section_table_count ≤ max_sections
  pub off : header_len ≤ h.section_table_off
  pub aligned : h.section_table_off % table_align ≡ 0
  pub footer : h.footer_off < u64_mod
  pub before_footer :
      h.section_table_off + h.section_table_count * section_record_len ≤ h.footer_off
