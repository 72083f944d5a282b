-- ===== src/Chunk/IndexBytes.antt =====
-- `ChunkIndex::parse` and `ChunkIndex::to_bytes` are inverse to each other.
use sidequests.Common.{
  ℕ, zero, suc, ◌+◌, ◌*◌, ◌/◌, ◌≤◌, ◌<◌, ◌≡◌, refl, sym, ap, ◌∙◌, List, [], ◌∷◌, ◌++◌, length, drop,
  length-drop, length-append, append-nil, append_assoc, All, arith, Option-cases, inl, inr,
  empty_of_length,
}
use sidequests.Error.{ok, Result-cases}
use sidequests.Wire.{slice, drop-slice, length-slice, slice-of_drop, drop_then}
use sidequests.Format.{u64_mod}
use sidequests.Chunk.{entry_len}
use sidequests.Chunk.Tree.{ChainingValue}
use sidequests.Chunk.Index.{ChunkIndex, parse_entries, parse_index, concat, index_to_bytes}

abbrev pub IsValue : ChainingValue → Type 0
IsValue cv = length cv ≡ entry_len

-- An index that can stand in a file.
pub record IsIndex (index : ChunkIndex) : Type 0 where
  pub values : All IsValue index.cvs
  pub two : 2 ≤ length index.cvs
  pub fits : length index.cvs * entry_len < u64_mod

parse_entries-eq-ok :
    (b : List ℕ) (need n i : ℕ) (cvs : List ChainingValue)
    → parse_entries b need n i ≡ ok cvs
    → (length cvs ≡ n)
      × All IsValue cvs
      × (drop (i * entry_len) b ≡ concat cvs ++ drop ((n + i) * entry_len) b)
unfolding parse_entries concat
parse_entries-eq-ok b need zero i cvs e =
    let none_left : [] ≡ cvs = ground arith in
    let same : (0 + i) * entry_len ≡ i * entry_len = omega arith in
    rw (← none_left, same) (refl, tt, refl)
parse_entries-eq-ok b need (suc n) i cvs e =
    elim (Option-cases (slice b (i * entry_len) entry_len)) [
      | inl missing ↦ absurd (ground arith)
      | inr (cv, found) ↦ elim (Result-cases (parse_entries b need n (suc i))) [
        | inl (rest, later) ↦
            let all : cv ∷ rest ≡ cvs = ground arith in
            let (count, values, split) = parse_entries-eq-ok b need n (suc i) rest later in
            let first = drop-slice b (i * entry_len) entry_len found in
            let next : i * entry_len + entry_len ≡ suc i * entry_len = omega arith in
            let last : (n + suc i) * entry_len ≡ (suc n + i) * entry_len = omega arith in
            rw (← all) (
              ap suc count,
              (length-slice b (i * entry_len) entry_len found, values),
              rw (append_assoc, ← last, ← split) (rw next at first),
            )
        | inr (x, bad) ↦ absurd (ground arith)
      ]
    ]

length-concat :
    (cvs : List ChainingValue) → All IsValue cvs → length (concat cvs) ≡ length cvs * entry_len
unfolding concat
length-concat [] h = refl
length-concat (cv ∷ cvs) (p, h) = omega (arith, length-append cv (concat cvs), length-concat cvs h)

parse_entries-ok :
    (b : List ℕ) (need i : ℕ) (cvs : List ChainingValue) (post : List ℕ)
    → All IsValue cvs
    → drop (i * entry_len) b ≡ concat cvs ++ post
    → (length cvs + i) * entry_len ≤ length b
    → parse_entries b need (length cvs) i ≡ ok cvs
unfolding parse_entries concat
parse_entries-ok b need i [] post h e fits = refl
parse_entries-ok b need i (cv ∷ cvs) post (p, h) e fits =
    let next : i * entry_len + entry_len ≡ suc i * entry_len = omega arith in
    let e' : drop (i * entry_len) b ≡ cv ++ (concat cvs ++ post) = rw append_assoc at e in
    let found =
      slice-of_drop b (i * entry_len) entry_len cv (concat cvs ++ post) (omega arith) e' p in
    let seam = rw next at (drop_then b (i * entry_len) entry_len cv (concat cvs ++ post) e' p) in
    rw (found, parse_entries-ok b need (suc i) cvs post h seam (omega arith)) refl

-- Writing an accepted index gives back the bytes, and it has as many entries as the section's lengths
-- ask for.
index_to_bytes-parse_index :
    (b : List ℕ) (count : ℕ) (index : ChunkIndex)
    → parse_index b count ≡ ok index
    → IsIndex index × (length index.cvs ≡ count) × (index_to_bytes index ≡ b)
unfolding parse_index index_to_bytes
index_to_bytes-parse_index b count index e =
    elim (Result-cases (parse_entries b (count * entry_len) (count * entry_len / entry_len) 0)) [
      | inl (cvs, read) ↦
          let two : 2 ≤ count = ground arith in
          let fits : count * entry_len < u64_mod = ground arith in
          let size : length b ≡ count * entry_len = ground arith in
          let all : record { cvs = cvs } ≡ index = ground arith in
          let (count_is, values, split) =
            parse_entries-eq-ok b (count * entry_len) (count * entry_len / entry_len) 0 cvs read in
          let divided : count * entry_len / entry_len ≡ count = omega arith in
          let len : length cvs ≡ count = count_is ∙ divided in
          let nothing : drop ((count * entry_len / entry_len + 0) * entry_len) b ≡ [] =
            empty_of_length _
              (omega (arith, length-drop ((count * entry_len / entry_len + 0) * entry_len) b)) in
          rw (← all) (
            record { values = values; two = rw len two; fits = rw len fits },
            len,
            sym (split ∙ rw (nothing, append-nil) refl),
          )
      | inr (x, bad) ↦ absurd (ground arith)
    ]

-- An index that can stand in a file is read back from the bytes that it is written to.
parse_index-index_to_bytes :
    (index : ChunkIndex)
    → IsIndex index
    → parse_index (index_to_bytes index) (length index.cvs) ≡ ok index
unfolding parse_index index_to_bytes
parse_index-index_to_bytes index h =
    let cvs = index.cvs in
    let size = length-concat cvs h.values in
    let two = h.two in
    let fits = h.fits in
    let divided : length cvs * entry_len / entry_len ≡ length cvs = omega arith in
    let read =
      parse_entries-ok (concat cvs) (length cvs * entry_len) 0 cvs [] h.values (rw append-nil refl)
        (omega arith) in
    let read' : parse_entries (concat cvs) (length cvs * entry_len)
          (length cvs * entry_len / entry_len) 0
        ≡ ok cvs =
      rw divided read in
    ground arith
