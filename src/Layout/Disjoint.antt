-- ===== src/Layout/Disjoint.antt =====
-- A layout that `validate_layout` accepts keeps its regions apart and before the footer.
use sidequests.Common.{
  ℕ, ◌+◌, ◌≤◌, ◌≡◌, ◌⊎◌, inl, inr, refl, List, [], ◌∷◌, ◌++◌, length, All, All-append, Option, none,
  some, arith, Bool-cases, ltb, ◌==◌,
}
use native.Mathlib.Nat.{le-add_right}
use sidequests.Common.Sort.{AllPairs, sort, AllPairs-sort, sort-All}
use sidequests.Error.{
  Result, ok, ◌>>=◌, Ensures, Ensures-ok, Ensures-bind, Ensures-refuse_if, Result-cases,
}
use sidequests.Format.{u64_mod}
use sidequests.Header.{
  Header, IsValid, check_file_len, table_range, table_end_of, table_end_of-eq-ok,
}
use sidequests.Chunk.{index_len}
use sidequests.Section.{SectionRecord}
use sidequests.Layout.Accepted.{validate_layout-Accepted}
use sidequests.Layout.{
  Range, stored_range, index_range, payload_ranges, index_ranges, collect_ranges, table_ranges,
  check_overlaps, range_le, validate_layout,
}

abbrev pub IsDisjoint : Range → Range → Type 0
IsDisjoint a b = (a.end ≤ b.start) ⊎ (b.end ≤ a.start)

IsDisjoint-symm : (a b : Range) → IsDisjoint a b → IsDisjoint b a
IsDisjoint-symm a b (inl h) = inr h
IsDisjoint-symm a b (inr h) = inl h

abbrev IsOrdered : Range → Type 0
IsOrdered r = r.start ≤ r.end

-- Every region of a bundle: what the records own, and the section table.
unfoldable pub regions : List SectionRecord → Header → List ℕ → Result (List Range)
regions records header file = do
  (start, end) ← table_range header
  owned ← collect_ranges header.footer_off (length file) records
  ok (owned ++ table_ranges start end)

abbrev StartsAfter : ℕ → List Range → Type 0
StartsAfter x [] = Unit
StartsAfter x (b ∷ bs) = x ≤ b.start

-- Neighbours in order put every later range behind.
All-ahead :
    (x : ℕ) (rs : List Range)
    → check_overlaps rs ≡ ok tt
    → All IsOrdered rs
    → StartsAfter x rs
    → All (λ b. x ≤ b.start) rs
unfolding check_overlaps
All-ahead x [] e h s = tt
All-ahead x (b ∷ []) e h s = (s, tt)
All-ahead x (b ∷ (c ∷ cs)) e h s = (s, All-ahead x (c ∷ cs) (ground arith) h.1 (ground arith))

All-IsDisjoint :
    (a : Range) (rs : List Range) → All (λ b. a.end ≤ b.start) rs → All (IsDisjoint a) rs
All-IsDisjoint a [] h = tt
All-IsDisjoint a (b ∷ bs) h = (inl h.0, All-IsDisjoint a bs h.1)

check_overlaps-IsDisjoint :
    (rs : List Range) → check_overlaps rs ≡ ok tt → All IsOrdered rs → AllPairs IsDisjoint rs
unfolding check_overlaps
check_overlaps-IsDisjoint [] e h = tt
check_overlaps-IsDisjoint (a ∷ []) e h = (tt, tt)
check_overlaps-IsDisjoint (a ∷ (b ∷ bs)) e h =
    let rest : check_overlaps (b ∷ bs) ≡ ok tt = ground arith in
    (
      All-IsDisjoint a (b ∷ bs) (All-ahead a.end (b ∷ bs) rest h.1 (ground arith)),
      check_overlaps-IsDisjoint (b ∷ bs) rest h.1,
    )

-- A range that a section owns is the right way round and ends before the footer.
abbrev pub IsInside : ℕ → Range → Type 0
IsInside footer_off r = (r.start ≤ r.end) × (r.end ≤ footer_off)

-- An index range is the right way round: its end was computed without overflow.
abbrev IsOrderedPair : Option (ℕ × ℕ) → Type 0
IsOrderedPair none = Unit
IsOrderedPair (some (s, t)) = s ≤ t

module _ (footer_off file_len name_id : ℕ) where
  payload_ranges-IsInside :
      (o : Option (ℕ × ℕ))
      → Ensures (All (IsInside footer_off)) (payload_ranges footer_off file_len name_id o)
  unfolding payload_ranges
  payload_ranges-IsInside none = tt
  payload_ranges-IsInside (some (s, t)) = Ensures-refuse_if _ (ltb footer_off t) _ _ (λ fits.
      elim (Bool-cases (ltb s t)) [
        | inl some_bytes ↦ rw some_bytes ((ground arith, ground arith), tt)
        | inr empty ↦ rw empty tt
      ])

  index_ranges-IsInside :
      (o : Option (ℕ × ℕ))
      → IsOrderedPair o
      → Ensures (All (IsInside footer_off)) (index_ranges footer_off file_len name_id o)
  unfolding index_ranges
  index_ranges-IsInside none h = tt
  index_ranges-IsInside (some (s, t)) h =
      Ensures-refuse_if _ (ltb footer_off t) _ _ (λ fits. ((h, ground arith), tt))

index_range-ordered : (r : SectionRecord) → Ensures IsOrderedPair (index_range r)
unfolding index_range
index_range-ordered r = elim (Bool-cases (r.chunk_index_off == 0)) [
  | inl no_index ↦ rw no_index tt
  | inr has_index ↦ rw has_index (elim (Result-cases (index_len r.len_plain r.chunk_size)) [
    | inl (len, known) ↦ rw known (elim (Bool-cases (ltb (r.chunk_index_off + len) u64_mod)) [
      | inl fits ↦ rw fits (le-add_right r.chunk_index_off len)
      | inr wraps ↦ rw wraps tt
    ])
    | inr (e, unknown_len) ↦ rw unknown_len tt
  ])
]

collect_ranges-IsInside :
    (footer_off file_len : ℕ) (records : List SectionRecord)
    → Ensures (All (IsInside footer_off)) (collect_ranges footer_off file_len records)
unfolding collect_ranges
collect_ranges-IsInside f l [] = tt
collect_ranges-IsInside f l (r ∷ rs) =
    Ensures-bind (All (IsInside f)) _ (payload_ranges f l r.name_id (stored_range r)) _
      (payload_ranges-IsInside f l r.name_id (stored_range r))
      (λ stored stored_in.
        Ensures-bind IsOrderedPair _ (index_range r) _ (index_range-ordered r) (λ found ordered.
          Ensures-bind (All (IsInside f)) _ (index_ranges f l r.name_id found) _
            (index_ranges-IsInside f l r.name_id found ordered)
            (λ indexed indexed_in.
              Ensures-bind (All (IsInside f)) _ (collect_ranges f l rs) _
                (collect_ranges-IsInside f l rs)
                (λ rest rest_in.
                  All-append (IsInside f) stored (indexed ++ rest) stored_in
                    (All-append (IsInside f) indexed rest indexed_in rest_in)))))

table_ranges-IsInside :
    (footer_off s t : ℕ) → t ≤ footer_off → All (IsInside footer_off) (table_ranges s t)
unfolding table_ranges
table_ranges-IsInside f s t h = elim (Bool-cases (ltb s t)) [
  | inl some_bytes ↦ rw some_bytes ((ground arith, h), tt)
  | inr empty ↦ rw empty tt
]

All-weaken {ℓ} :
    {A : Type ℓ} (P Q : A → Type 0) (xs : List A) → ((a : A) → P a → Q a) → All P xs → All Q xs
All-weaken P Q [] f h = tt
All-weaken P Q (x ∷ xs) f h = (f x h.0, All-weaken P Q xs f h.1)

check_file_len-footer :
    (header : Header) (n : ℕ) → check_file_len header n ≡ ok tt → header.footer_off ≤ n
unfolding check_file_len
check_file_len-footer header n e = ground arith

table_range-footer :
    (header : Header) (start end : ℕ)
    → IsValid header
    → table_range header ≡ ok (start, end)
    → end ≤ header.footer_off
unfolding table_range
table_range-footer header start end v e =
    elim (Result-cases (table_end_of header.section_table_off header.section_table_count)) [
      | inl (t, at) ↦ ground (
        arith,
        v.before_footer,
        table_end_of-eq-ok header.section_table_off header.section_table_count at,
      )
      | inr (x, bad) ↦ absurd (ground arith)
    ]

-- In a layout that is accepted with a valid header no two regions share a byte, where the regions are
-- the stored bytes of the inline sections, the chunk indices and the section table; and every region
-- ends before the footer, which starts inside the file.
pub validate_layout-IsDisjoint :
    (records : List SectionRecord) (header : Header) (file : List ℕ)
    → IsValid header
    → validate_layout records header file ≡ ok tt
    → (rs : List Range) × (regions records header file ≡ ok rs)
      × AllPairs IsDisjoint rs
      × All (IsInside header.footer_off) rs
      × (header.footer_off ≤ length file)
unfolding regions
validate_layout-IsDisjoint records header file v e =
    let a = validate_layout-Accepted records header file e in
    let rs : List Range = a.owned ++ table_ranges a.start a.end in
    let inside : All (IsInside header.footer_off) rs =
      All-append (IsInside header.footer_off) a.owned (table_ranges a.start a.end)
        (Ensures-ok _ _ (collect_ranges-IsInside header.footer_off (length file) records)
          a.collected)
        (table_ranges-IsInside header.footer_off a.start a.end
          (table_range-footer header a.start a.end v a.table_at)) in
    let ordered : All IsOrdered (sort range_le rs) =
      sort-All range_le IsOrdered rs
        (All-weaken (IsInside header.footer_off) IsOrdered rs (λ r h. h.0) inside) in
    (
      rs,
      rw (a.table_at, a.collected) refl,
      AllPairs-sort range_le IsDisjoint IsDisjoint-symm rs
          (check_overlaps-IsDisjoint (sort range_le rs) a.overlaps ordered),
      inside,
      check_file_len-footer header (length file) a.file_checked,
    )
