-- ===== src/Layout.antt =====
-- ctf-format/crates/ctf-format/src/section.rs: the section table, and what holds of a whole table.
mod Accepted
pub mod Disjoint
pub mod Padding
pub mod Names
pub mod Table
mod Tests
use sidequests.Common.{
  ℕ, zero, suc, ◌+◌, ◌-◌, ◌*◌, ◌≡◌, String, List, [], ◌∷◌, ◌++◌, map, Bool, true, false, not, ◌&&◌,
  ◌||◌, Option, none, some, length, max, ltb, leb, ◌==◌, if◌then◌else◌,
}
use sidequests.Common.Sort.{sort}
use sidequests.Error.{
  Error, Result, ok, err, ◌>>=◌, ◌>>◌, refuse_if, ok_or, truncated, length_overflow, manifest_count,
  duplicate_section_name, exceeds_file, padding_not_zero, overlaps_section_table,
  overlapping_sections, inconsistent,
}
use sidequests.Wire.{slice}
use sidequests.Format.{header_len, section_record_len, checked_add, checked_mul, saturating_add}
use sidequests.Header.{Header, check_file_len, table_range}
use sidequests.Chunk.{index_len}
use sidequests.Kinds.{SectionKind, RuleSet, is_external, is_manifest, is_container, rules_of}
use sidequests.Section.{SectionRecord, parse_with}

-- The records `i`, `i + 1`, …, of which `n` are left to parse.
unfoldable pub parse_records : List ℕ → RuleSet → (need i n : ℕ) → Result (List SectionRecord)
parse_records b rules need i zero = ok []
parse_records b rules need i (suc n) = do
  bytes ← ok_or (slice b (i * section_record_len) section_record_len) (truncated need (length b))
  record_i ← parse_with bytes rules
  rest ← parse_records b rules need (suc i) n
  ok (record_i ∷ rest)

unfoldable pub parse_table_with : List ℕ → ℕ → RuleSet → Result (List SectionRecord)
unfolding parse_records
parse_table_with b count rules = do
  need ← ok_or (checked_mul count section_record_len) (length_overflow "section table")
  refuse_if (ltb (length b) need) (truncated need (length b))
  parse_records b rules need 0 count

-- What owns a range of bytes.
pub data Region : Type 0 where
  table : Region
  payload : (name_id : ℕ) → Region
  index : (name_id : ℕ) → Region

-- The derived order: the table, then the payloads, then the indices.
abbrev pub region_le : Region → Region → Bool
region_le table _ = true
region_le (payload a) table = false
region_le (payload a) (payload b) = leb a b
region_le (payload a) (index b) = true
region_le (index a) (index b) = leb a b
region_le (index a) _ = false

pub record Range : Type 0 where
  pub start : ℕ
  pub end : ℕ
  pub region : Region

-- The order of the tuples `(start, end, region)`.
unfoldable pub range_le : Range → Range → Bool
range_le a b =
    ltb a.start b.start
    || (a.start == b.start && (ltb a.end b.end || (a.end == b.end && region_le a.region b.region)))

unfoldable pub stored_range : SectionRecord → Option (ℕ × ℕ)
stored_range r =
    if is_external r.flags then none else some (r.offset, saturating_add r.offset r.len_stored)

unfoldable pub index_range : SectionRecord → Result (Option (ℕ × ℕ))
index_range r = if r.chunk_index_off == 0 then ok none else (do
  len ← index_len r.len_plain r.chunk_size
  end ← ok_or (checked_add r.chunk_index_off len) (length_overflow "chunk index")
  ok (some (r.chunk_index_off, end)))

-- The payload of one record, where it owns bytes.
unfoldable pub payload_ranges :
    (footer_off file_len name_id : ℕ) → Option (ℕ × ℕ) → Result (List Range)
payload_ranges footer_off file_len name_id none = ok []
payload_ranges footer_off file_len name_id (some (start, end)) = do
  refuse_if (ltb footer_off end) (exceeds_file "section payload beyond footer_off" end file_len)
  ok (
      if ltb start end
      then record { start = start; end = end; region = payload name_id } ∷ []
      else [])

unfoldable pub index_ranges :
    (footer_off file_len name_id : ℕ) → Option (ℕ × ℕ) → Result (List Range)
index_ranges footer_off file_len name_id none = ok []
index_ranges footer_off file_len name_id (some (start, end)) = do
  refuse_if (ltb footer_off end) (exceeds_file "chunk index beyond footer_off" end file_len)
  ok (record { start = start; end = end; region = index name_id } ∷ [])

-- The ranges that the records own, in the order of the records.
unfoldable pub collect_ranges : (footer_off file_len : ℕ) → List SectionRecord → Result (List Range)
unfolding payload_ranges index_ranges
collect_ranges footer_off file_len [] = ok []
collect_ranges footer_off file_len (r ∷ rs) = do
  stored ← payload_ranges footer_off file_len r.name_id (stored_range r)
  found ← index_range r
  indexed ← index_ranges footer_off file_len r.name_id found
  rest ← collect_ranges footer_off file_len rs
  ok (stored ++ (indexed ++ rest))

unfoldable pub table_ranges : (start end : ℕ) → List Range
table_ranges start end =
    if ltb start end then record { start = start; end = end; region = table } ∷ [] else []

unfoldable pub overlap_error : Region → Region → Error
overlap_error table (payload n) = overlaps_section_table n
overlap_error table (index n) = overlaps_section_table n
overlap_error (payload n) table = overlaps_section_table n
overlap_error (index n) table = overlaps_section_table n
overlap_error (payload x) (index y) =
    if x == y
    then inconsistent "a section's chunk index overlaps its own payload"
    else overlapping_sections x y
overlap_error (index x) (payload y) =
    if x == y
    then inconsistent "a section's chunk index overlaps its own payload"
    else overlapping_sections x y
overlap_error (payload a) (payload b) = overlapping_sections a b
overlap_error (index a) (index b) = overlapping_sections a b
overlap_error table table = inconsistent "section table listed twice in layout validation"

-- `for w in ranges.windows(2)`
unfoldable pub check_overlaps : List Range → Result (Unit {0})
unfolding overlap_error
check_overlaps [] = ok tt
check_overlaps (a ∷ []) = ok tt
check_overlaps (a ∷ (b ∷ rest)) = do
  refuse_if (ltb b.start a.end) (overlap_error a.region b.region)
  check_overlaps (b ∷ rest)

-- `iter().position(|&b| b != 0)`
unfoldable pub first_nonzero : ℕ → List ℕ → Option ℕ
first_nonzero i [] = none
first_nonzero i (x ∷ xs) = let rest = first_nonzero (suc i) xs in if x == 0 then rest else some i

unfoldable pub check_zero : List ℕ → (start end : ℕ) → Result (Unit {0})
unfolding first_nonzero
check_zero file start end = do
  bytes ← ok_or (slice file start (end - start)) (exceeds_file "padding" end (length file))
  elim (first_nonzero 0 bytes) [
    | some i ↦ err (padding_not_zero (saturating_add start i))
    | none ↦ ok tt
  ]

-- The loop of `check_padding` from `cursor` on, and the gap before the footer.
unfoldable pub check_gaps : List ℕ → (footer_off cursor : ℕ) → List Range → Result (Unit {0})
unfolding check_zero
check_gaps file footer_off cursor [] =
    if ltb cursor footer_off then check_zero file cursor footer_off else ok tt
check_gaps file footer_off cursor (r ∷ rs) = do
  if ltb cursor r.start then check_zero file cursor r.start else ok tt
  check_gaps file footer_off (max cursor r.end) rs

unfoldable pub check_padding : List ℕ → Header → List Range → Result (Unit {0})
unfolding check_gaps
check_padding file header ranges = check_gaps file header.footer_off header_len ranges

-- `names.windows(2).find(|w| w.first() == w.get(1))`
unfoldable pub first_repeat : List ℕ → Option ℕ
first_repeat [] = none
first_repeat (a ∷ []) = none
first_repeat (a ∷ (b ∷ rest)) =
    let later = first_repeat (b ∷ rest) in if a == b then some a else later

unfoldable pub count_manifests : List SectionRecord → ℕ
count_manifests [] = 0
count_manifests (r ∷ rs) = let n = count_manifests rs in if is_manifest r.kind then suc n else n

unfoldable pub check_names : List SectionRecord → Result (Unit {0})
unfolding first_repeat
check_names records = elim (first_repeat (sort leb (map (λ r. r.name_id) records))) [
  | some name_id ↦ err (duplicate_section_name name_id)
  | none ↦ ok tt
]

unfoldable pub validate_layout : List SectionRecord → Header → List ℕ → Result (Unit {0})
unfolding check_names
validate_layout records header file = do
  let file_len = length file
  check_file_len header file_len
  (table_start, table_end) ← table_range header
  refuse_if (not (count_manifests records == 1)) (manifest_count (count_manifests records))
  check_names records
  owned ← collect_ranges header.footer_off file_len records
  let ranges = sort range_le (owned ++ table_ranges table_start table_end)
  check_overlaps ranges
  if is_container (rules_of header) then check_padding file header ranges else ok tt
