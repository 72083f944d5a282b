-- ===== src/Layout/Padding.antt =====
-- In an accepted layout every byte that no region owns is zero.
use sidequests.Common.{
  ℕ, zero, suc, ◌+◌, ◌-◌, ◌<◌, ◌≤◌, ◌≡◌, ◌⊎◌, inl, inr, refl, List, [], ◌∷◌, ◌++◌, length, ◌∙◌, max,
  none, some, arith, Option-cases,
}
use sidequests.Common.Sort.{Any, sort, Any-sort}
use sidequests.Error.{ok, err, padding_not_zero}
use sidequests.Wire.{slice, slice-u8_at, length-slice, u8_at}
use sidequests.Format.{header_len, saturating_add}
use native.Mathlib.Decide.{dec_lt}
use sidequests.Header.{Header}
use sidequests.Kinds.{container, rules_of}
use sidequests.Section.{SectionRecord}
use sidequests.Layout.{
  Range, first_nonzero, check_zero, check_gaps, check_padding, range_le, table_ranges,
  validate_layout,
}
use sidequests.Layout.Accepted.{validate_layout-Accepted}
use sidequests.Layout.Disjoint.{regions}

abbrev pub Covers : ℕ → Range → Type 0
Covers p r = (r.start ≤ p) × (p < r.end)

first_nonzero-none :
    (k : ℕ) (xs : List ℕ) (i : ℕ) → first_nonzero k xs ≡ none → i < length xs → u8_at xs i ≡ some 0
unfolding first_nonzero u8_at
first_nonzero-none k [] i e h = absurd (omega arith)
first_nonzero-none k (x ∷ xs) zero e h = ground arith
first_nonzero-none k (x ∷ xs) (suc i) e h =
    first_nonzero-none (suc k) xs i (ground arith) (omega arith)

no_position :
    (bytes : List ℕ) (start : ℕ)
    → elim (first_nonzero 0 bytes) [
      | some i ↦ err (padding_not_zero (saturating_add start i))
      | none ↦ ok tt
    ]
      ≡ ok (tt {0})
    → first_nonzero 0 bytes ≡ none
no_position bytes start h = ground arith

check_zero_sound :
    (file : List ℕ) (start end p : ℕ)
    → check_zero file start end ≡ ok tt
    → start ≤ p
    → p < end
    → u8_at file p ≡ some 0
unfolding check_zero
check_zero_sound file start end p e lo hi = elim (Option-cases (slice file start (end - start))) [
  | inl missing ↦ absurd (ground arith)
  | inr (bytes, found) ↦
      let at = slice-u8_at file start (end - start) (p - start) found (omega arith) in
      let back : start + (p - start) ≡ p = omega arith in
      let zeros : first_nonzero 0 bytes ≡ none =
        no_position bytes start (rw (found, check_zero) at e) in
      rw back at at
      ∙ first_nonzero-none 0 bytes (p - start) zeros
          (omega (arith, length-slice file start (end - start) found))
]

check_gaps_sound :
    (file : List ℕ) (footer_off cursor : ℕ) (rs : List Range) (p : ℕ)
    → check_gaps file footer_off cursor rs ≡ ok tt
    → cursor ≤ p
    → p < footer_off
    → Any (Covers p) rs ⊎ (u8_at file p ≡ some 0)
unfolding check_gaps
check_gaps_sound file f cursor [] p e lo hi =
    inr (check_zero_sound file cursor f p (ground arith) lo hi)
check_gaps_sound file f cursor (r ∷ rs) p e lo hi = elim (dec_lt p r.start) [
  | yes before ↦ inr (check_zero_sound file cursor r.start p (ground arith) lo before)
  | no reached ↦ elim (dec_lt p r.end) [
    | yes inside ↦ inl (inl (omega arith, inside))
    | no passed ↦
        later (check_gaps_sound file f (max cursor r.end) rs p (ground arith) (omega arith) hi)
  ]
]
  where
    later :
        Any (Covers p) rs ⊎ (u8_at file p ≡ some 0)
        → Any (Covers p) (r ∷ rs) ⊎ (u8_at file p ≡ some 0)
    later (inl c) = inl (inr c)
    later (inr z) = inr z

-- In a layout that is accepted under the container rules, every byte between the header and the
-- footer belongs to a region or is zero.
pub validate_layout-padding :
    (records : List SectionRecord) (header : Header) (file : List ℕ) (p : ℕ)
    → rules_of header ≡ container
    → validate_layout records header file ≡ ok tt
    → header_len ≤ p
    → p < header.footer_off
    → (rs : List Range) × (regions records header file ≡ ok rs)
      × (Any (Covers p) rs ⊎ (u8_at file p ≡ some 0))
unfolding regions check_padding
validate_layout-padding records header file p rules e lo hi =
    let a = validate_layout-Accepted records header file e in
    let rs : List Range = a.owned ++ table_ranges a.start a.end in
    let padded = a.padding (rw rules refl) in
    (
      rs,
      rw (a.table_at, a.collected) refl,
      unsorted rs
          (check_gaps_sound file header.footer_off header_len (sort range_le rs) p padded lo hi),
    )
  where
    unsorted :
        (rs : List Range)
        → Any (Covers p) (sort range_le rs) ⊎ (u8_at file p ≡ some 0)
        → Any (Covers p) rs ⊎ (u8_at file p ≡ some 0)
    unsorted rs (inl c) = inl (Any-sort range_le (Covers p) rs c)
    unsorted rs (inr z) = inr z
