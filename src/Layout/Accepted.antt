-- ===== src/Layout/Accepted.antt =====
-- What `validate_layout` has computed and tested when it accepts.
use sidequests.Common.{ℕ, ◌≡◌, inl, inr, List, ◌++◌, length, true, arith}
use sidequests.Common.Sort.{sort}
use sidequests.Error.{ok, Result-cases}
use sidequests.Header.{Header, check_file_len, table_range}
use sidequests.Kinds.{is_container, rules_of}
use sidequests.Section.{SectionRecord}
use sidequests.Layout.{
  Range, collect_ranges, table_ranges, check_overlaps, check_padding, check_names, range_le,
  validate_layout, count_manifests,
}

pub record Accepted (records : List SectionRecord) (header : Header) (file : List ℕ) : Type 0 where
  pub start : ℕ
  pub end : ℕ
  pub owned : List Range
  pub file_checked : check_file_len header (length file) ≡ ok tt
  pub table_at : table_range header ≡ ok (start, end)
  pub one_manifest : count_manifests records ≡ 1
  pub names : check_names records ≡ ok tt
  pub collected : collect_ranges header.footer_off (length file) records ≡ ok owned
  pub overlaps : check_overlaps (sort range_le (owned ++ table_ranges start end)) ≡ ok tt
  pub padding :
      is_container (rules_of header) ≡ true
      → check_padding file header (sort range_le (owned ++ table_ranges start end)) ≡ ok tt

pub validate_layout-Accepted :
    (records : List SectionRecord) (header : Header) (file : List ℕ)
    → validate_layout records header file ≡ ok tt
    → Accepted records header file
unfolding validate_layout
validate_layout-Accepted records header file e = elim (Result-cases (table_range header)) [
  | inl ((start, end), at) ↦
      elim (Result-cases (collect_ranges header.footer_off (length file) records)) [
        | inl (owned, found) ↦ record {
          start = start;
          end = end;
          owned = owned;
          file_checked = ground arith;
          table_at = at;
          one_manifest = ground arith;
          names = ground arith;
          collected = found;
          overlaps = ground arith;
          padding = ground arith;
        }
        | inr (x, bad) ↦ absurd (ground arith)
      ]
  | inr (x, bad) ↦ absurd (ground arith)
]
