-- ===== src/Bundle/Committed.antt =====
-- The footer's root commits to the header and the records that the reader hands on.
use sidequests.Common.{
  ℕ, String, ◌+◌, ◌-◌, ◌*◌, ◌≤◌, ◌≡◌, sym, ap, ◌∙◌, List, [], ◌++◌, append-nil, length, take, drop,
  take-append, length-take, length-drop, All, All-take, All-drop, Bool-cases, inl, inr, ◌&&◌, leb,
  empty_of_length, arith,
}
use sidequests.Error.{ok, bind-ok}
use sidequests.Wire.{IsByte}
use sidequests.Format.{header_len, section_record_len}
use sidequests.Header.{Header, table_end_of, table_range, table_end_of-eq-ok}
use sidequests.Header
use sidequests.Header.RoundTrip.{to_bytes-parse, length-to_bytes}
use sidequests.Kinds.{container}
use sidequests.Section.{SectionRecord}
use sidequests.Layout.Table.{table_bytes, parse_table_with-bytes}
use sidequests.Footer.{commitment_root}
use sidequests.Chunk.Index.{range}
use sidequests.Compress.{Zstd}
use sidequests.Crypto.Crates.{Crates}
use sidequests.Bundle.{Bundle, file_slice, parse}
use sidequests.Bundle.Parsed.{TableRead, parse-IsParsed}

-- A slice that was given lies in the file.
pub file_slice-eq-ok :
    (file : List ℕ) (start end : ℕ) (what : String) (s : List ℕ)
    → file_slice file start end what ≡ ok s
    → (start ≤ end) × (end ≤ length file) × (s ≡ take (end - start) (drop start file))
unfolding file_slice range
file_slice-eq-ok file start end what s e =
    elim (Bool-cases (leb start end && leb end (length file))) [
      | inl within ↦ (ground arith, ground arith, ground arith)
      | inr outside ↦ absurd (ground arith)
    ]

table_range-eq-ok :
    (h : Header) (s t : ℕ)
    → table_range h ≡ ok (s, t)
    → (s ≡ h.section_table_off) × (t ≡ s + h.section_table_count * section_record_len)
unfolding table_range
table_range-eq-ok h s t e =
    let (end, end_is, pair) =
      bind-ok (table_end_of h.section_table_off h.section_table_count) _ (s, t) e in
    let (sum, small) = table_end_of-eq-ok h.section_table_off h.section_table_count end_is in
    (ground arith, ground arith)

header_bytes-are :
    (file bytes : List ℕ) (h : Header)
    → All IsByte file
    → Header.parse file ≡ ok h
    → file_slice file 0 header_len "header" ≡ ok bytes
    → bytes ≡ Header.to_bytes h
header_bytes-are file bytes h file_bytes read slice =
    let (_, _, bytes_are) = file_slice-eq-ok file 0 header_len "header" bytes slice in
    let whole = to_bytes-parse file h file_bytes read in
    let front = take-append (Header.to_bytes h) (drop header_len file) (length-to_bytes h) in
    bytes_are ∙ (ap (take 64) (sym whole) ∙ front)

table_bytes-are :
    (file bytes : List ℕ) (h : Header) (rs : List SectionRecord)
    → All IsByte file
    → TableRead file h bytes rs
    → bytes ≡ table_bytes rs
table_bytes-are file bytes h rs file_bytes t =
    let (start, end) = table_range-eq-ok h t.table_start t.table_end t.placed in
    let (order, within, bytes_are) =
      file_slice-eq-ok file t.table_start t.table_end "section table" bytes t.bytes_are in
    let n = t.table_end - t.table_start in
    let bytes_bytes : All IsByte bytes = rw bytes_are (
      All-take IsByte n (drop t.table_start file)
        (All-drop IsByte t.table_start file file_bytes)) in
    let long : length bytes ≡ h.section_table_count * section_record_len =
      rw bytes_are
        (omega (arith, length-take n (drop t.table_start file), length-drop t.table_start file)) in
    let (_, whole) =
      parse_table_with-bytes bytes h.section_table_count container rs bytes_bytes t.read in
    let k = h.section_table_count * section_record_len in
    let nothing : drop k bytes ≡ [] =
      empty_of_length (drop k bytes) (omega (arith, length-drop k bytes)) in
    sym whole ∙ (ap (λ (x : List ℕ). table_bytes rs ++ x) nothing ∙ append-nil (table_bytes rs))

-- The root in the footer of a bundle that is accepted is the commitment over the header and the section
-- records that the reader hands on: their bytes, written again, are what the root was computed of.
pub parse-commitment_root :
    (c : Crates) (zstd : Zstd) (file : List ℕ) (b : Bundle)
    → All IsByte file
    → parse c zstd file ≡ ok b
    → commitment_root c.blake3 (Header.to_bytes b.header) (table_bytes b.sections) ≡ b.footer.root
parse-commitment_root c zstd file b file_bytes e =
    let p = parse-IsParsed c zstd file b e in
    let f = p.footer_read in
    let h_are =
      header_bytes-are file f.header_bytes b.header file_bytes p.header_read.read f.header_is in
    let t_are = table_bytes-are file p.table_bytes b.header b.sections file_bytes p.table_read in
    rw (← h_are, ← t_are) f.committed
