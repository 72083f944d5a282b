-- ===== src/Layout/Table.antt =====
-- `parse_table_with` reads the table that is the concatenation of the records' bytes.
use native.Mathlib.Nat.{add-zero, zero-add}
use sidequests.Common.{
  ℕ, zero, suc, ◌+◌, ◌*◌, ◌<◌, ◌≤◌, ◌≡◌, refl, sym, ap, ◌∙◌, inl, inr, List, [], ◌∷◌, ◌++◌, length,
  length-append, take-append, drop-append, empty_of_length, drop-drop, take, drop, length-drop,
  append_assoc, append-nil, some, Option-cases, arith, All,
}
use sidequests.Error.{ok, Result-cases}
use sidequests.Wire.{IsByte, slice, slice-some, slice-IsByte, drop-slice, length-slice}
use sidequests.Format.{section_record_len, u64_mod}
use sidequests.Kinds.{RuleSet}
use sidequests.Section.{SectionRecord, parse_with, to_bytes}
use sidequests.Section.Fields.{Checked}
use sidequests.Section.RoundTrip.{Fits, to_bytes-parse_with, parse_with-to_bytes, length-to_bytes}
use sidequests.Layout.{parse_records, parse_table_with}

-- The section table that a writer emits.
unfoldable pub table_bytes : List SectionRecord → List ℕ
table_bytes [] = []
table_bytes (r ∷ rs) = to_bytes r ++ table_bytes rs

-- A record that was parsed from exactly 128 bytes is written as them.
exact_bytes :
    (s : List ℕ) (rules : RuleSet) (r : SectionRecord)
    → All IsByte s
    → length s ≡ section_record_len
    → parse_with s rules ≡ ok r
    → to_bytes r ≡ s
exact_bytes s rules r bytes len e =
    let nothing : drop section_record_len s ≡ [] =
      empty_of_length _ (omega (arith, length-drop section_record_len s)) in
    sym (append-nil (to_bytes r)) ∙ rw nothing at (to_bytes-parse_with s rules r bytes e)

module _ (b : List ℕ) (rules : RuleSet) (need : ℕ) where
  -- The bytes from one record's start, given those from the next record's start.
  add_record :
      (n i : ℕ) (s : List ℕ) (r : SectionRecord) (rest : List SectionRecord)
      → All IsByte b
      → slice b (i * section_record_len) section_record_len ≡ some s
      → parse_with s rules ≡ ok r
      → drop (suc i * section_record_len) b
        ≡ table_bytes rest ++ drop ((suc i + n) * section_record_len) b
      → drop (i * section_record_len) b
        ≡ table_bytes (r ∷ rest) ++ drop ((i + suc n) * section_record_len) b
  unfolding table_bytes
  add_record n i s r rest bytes found parsed later =
      let next : i * section_record_len + section_record_len ≡ suc i * section_record_len =
        omega arith in
      let end : (suc i + n) * section_record_len ≡ (i + suc n) * section_record_len = omega arith in
      let written : to_bytes r ≡ s =
        exact_bytes s rules r (slice-IsByte b _ _ bytes found) (length-slice b _ _ found) parsed in
      rw (append_assoc, written, ← end, ← later, ← next) (drop-slice b _ _ found)

  parse_records-bytes :
      (n i : ℕ) (rs : List SectionRecord)
      → All IsByte b
      → parse_records b rules need i n ≡ ok rs
      → (length rs ≡ n)
        × (drop (i * section_record_len) b
            ≡ table_bytes rs ++ drop ((i + n) * section_record_len) b)
  unfolding parse_records table_bytes
  parse_records-bytes zero i rs bytes e =
      let same : [] ≡ rs = ground arith in rw (← same) (refl, rw add-zero refl)
  parse_records-bytes (suc n) i rs bytes e =
      elim (Option-cases (slice b (i * section_record_len) section_record_len)) [
        | inl missing ↦ absurd (ground arith)
        | inr (s, found) ↦ elim (Result-cases (parse_with s rules)) [
          | inl (r, parsed) ↦ elim (Result-cases (parse_records b rules need (suc i) n)) [
            | inl (rest, later) ↦
                let same : r ∷ rest ≡ rs = ground arith in
                let (count, tail) = parse_records-bytes n (suc i) rest bytes later in
                rw (← same) (omega (arith, count), add_record n i s r rest bytes found parsed tail)
            | inr (x, bad) ↦ absurd (ground arith)
          ]
          | inr (x, bad) ↦ absurd (ground arith)
        ]
      ]

-- Every accepted table has the number of records that was asked for, and writing these records gives
-- back the bytes that they were read from.
pub parse_table_with-bytes :
    (b : List ℕ) (count : ℕ) (rules : RuleSet) (rs : List SectionRecord)
    → All IsByte b
    → parse_table_with b count rules ≡ ok rs
    → (length rs ≡ count) × (table_bytes rs ++ drop (count * section_record_len) b ≡ b)
unfolding parse_table_with
parse_table_with-bytes b count rules rs bytes e =
    let need = count * section_record_len in
    let records : parse_records b rules need 0 count ≡ ok rs = ground arith in
    let (n, written) = parse_records-bytes b rules need count 0 rs bytes records in
    (n, sym (rw zero-add at written))

-- The records that a table is built from are valid for the reader.
abbrev IsReadable : RuleSet → SectionRecord → Type 0
IsReadable rules r = Fits r × Checked rules r

module _ (b rest : List ℕ) (rules : RuleSet) (need : ℕ) where
  parse_records-table_bytes :
      (rs : List SectionRecord) (i : ℕ)
      → All (IsReadable rules) rs
      → drop (i * section_record_len) b ≡ table_bytes rs ++ rest
      → (i + length rs) * section_record_len ≤ length b
      → parse_records b rules need i (length rs) ≡ ok rs
  unfolding parse_records table_bytes
  parse_records-table_bytes [] i h e fits = refl
  parse_records-table_bytes (r ∷ rs) i ((f, c), h) e fits =
      let len = length-to_bytes r f.root in
      let after : drop (i * section_record_len) b ≡ to_bytes r ++ (table_bytes rs ++ rest) =
        e ∙ append_assoc (to_bytes r) (table_bytes rs) rest in
      let found = slice-some b (i * section_record_len) section_record_len (omega arith) in
      let front : take section_record_len (drop (i * section_record_len) b) ≡ to_bytes r =
        ap (take section_record_len) after ∙ take-append (to_bytes r) _ len in
      let parsed : parse_with (to_bytes r) rules ≡ ok r =
        rw append-nil at (parse_with-to_bytes r rules [] f c) in
      let next : suc i * section_record_len ≡ i * section_record_len + section_record_len =
        omega arith in
      let back : drop (suc i * section_record_len) b ≡ table_bytes rs ++ rest =
        rw (next, ← drop-drop (i * section_record_len) section_record_len b)
          (ap (drop section_record_len) after ∙ drop-append (to_bytes r) _ len) in
      let later = parse_records-table_bytes rs (suc i) h back (omega arith) in
      rw (found, front, parsed, later) refl

length-table_bytes :
    (rules : RuleSet) (rs : List SectionRecord)
    → All (IsReadable rules) rs
    → length (table_bytes rs) ≡ length rs * section_record_len
unfolding table_bytes
length-table_bytes rules [] h = refl
length-table_bytes rules (r ∷ rs) ((f, c), h) = omega (
  arith,
  length-append (to_bytes r) (table_bytes rs),
  length-to_bytes r f.root,
  length-table_bytes rules rs h,
)

-- The bytes of readable records are parsed back to these records, whatever follows.
parse_table_with-table_bytes :
    (rs : List SectionRecord) (rules : RuleSet) (rest : List ℕ)
    → All (IsReadable rules) rs
    → length rs * section_record_len < u64_mod
    → parse_table_with (table_bytes rs ++ rest) (length rs) rules ≡ ok rs
unfolding parse_table_with
parse_table_with-table_bytes rs rules rest h small =
    let b = table_bytes rs ++ rest in
    let len : length b ≡ length rs * section_record_len + length rest =
      omega (arith, length-append (table_bytes rs) rest, length-table_bytes rules rs h) in
    ground (
      arith,
      len,
      parse_records-table_bytes b rest rules (length rs * section_record_len) rs 0 h refl
          (omega arith),
    )
