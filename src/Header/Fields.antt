-- ===== src/Header/Fields.antt =====
-- What `Header::parse` has read and tested when it accepts a header.
use sidequests.Common.{
  ℕ, ◌%◌, ◌≤◌, ◌≡◌, List, length, true, some, arith, bit_and, Option-cases, inl, inr,
}
use sidequests.Error.{ok, Result-cases}
use sidequests.Wire.{slice, u16_at, u32_at, u64_at, all_zero, bytes_eq→eq}
use sidequests.Format.{magic, header_len, table_align, max_sections}
use sidequests.Header.{Header, parse, table_end_of}

pub record Read (b : List ℕ) (h : Header) : Type 0 where
  pub magic_at : slice b 0 8 ≡ some magic
  pub major_at : u16_at b 8 ≡ some h.version_major
  pub minor_at : u16_at b 10 ≡ some h.version_minor
  pub len_at : u32_at b 12 ≡ some header_len
  pub suite_at : u16_at b 16 ≡ some h.suite_id
  pub flags_at : u16_at b 18 ≡ some h.flags
  pub count_at : u32_at b 20 ≡ some h.section_table_count
  pub off_at : u64_at b 24 ≡ some h.section_table_off
  pub footer_at : u64_at b 32 ≡ some h.footer_off
  pub incompat_at : u32_at b 40 ≡ some h.feat_incompat
  pub ro_compat_at : u32_at b 44 ≡ some h.feat_ro_compat
  pub reserved_at : all_zero b 48 16 ≡ some true

pub record Tested (h : Header) : Type 0 where
  pub major : h.version_major ≡ 0
  pub no_incompat : bit_and h.feat_incompat 0xffff_ffff ≡ 0
  pub no_flags : bit_and h.flags 0xffff ≡ 0
  pub count : h.section_table_count ≤ max_sections
  pub off : header_len ≤ h.section_table_off
  pub aligned : h.section_table_off % table_align ≡ 0

pub parse-Read : (b : List ℕ) (h : Header) → parse b ≡ ok h → Read b h
unfolding parse
parse-Read b h e = elim (Option-cases (slice b 0 8)) [
  | inl missing ↦ absurd (ground arith)
  | inr (s, found) ↦ ground (arith, bytes_eq→eq s magic)
]

pub parse-Tested : (b : List ℕ) (h : Header) → parse b ≡ ok h → Tested h
unfolding parse
parse-Tested b h e = ground arith

pub parse-table_end :
    (b : List ℕ) (h : Header)
    → parse b ≡ ok h
    → (end : ℕ) × (table_end_of h.section_table_off h.section_table_count ≡ ok end)
      × (end ≤ h.footer_off)
unfolding parse
parse-table_end b h e =
    elim (Result-cases (table_end_of h.section_table_off h.section_table_count)) [
      | inl (end, fits) ↦ (end, fits, ground arith)
      | inr (x, overflow) ↦ absurd (ground arith)
    ]

pub parse-length : (b : List ℕ) (h : Header) → parse b ≡ ok h → header_len ≤ length b
unfolding parse
parse-length b h e = ground arith
