-- ===== src/Abi/RoundTrip.antt =====
-- What the decoders accept is what the encoders write.
use sidequests.Common.{
  ℕ, zero, suc, ◌+◌, ◌≤◌, ◌<◌, ◌≡◌, refl, sym, ap, ◌∙◌, inl, inr, List, [], ◌∷◌, ◌++◌, append_assoc,
  append-nil, length, drop, All, All-drop, false, Option-cases, arith, empty_of_length, ==→eq,
}
use sidequests.Outcome.{ok, Outcome-cases}
use sidequests.Wire.{IsByte, slice, u32_at, to_le, uint_at-eq-some, drop-slice, length-slice}
use sidequests.Abi.{
  Output, read_u32, read_bytes, read_output, read_outputs, read_block, decode_artifacts, put_block,
  put_outputs, encode_artifacts, is_name_of, max_outputs, max_output_name_len,
}

read_u32-eq-ok :
    (b : List ℕ) (n : ℕ) (r : List ℕ)
    → All IsByte b
    → read_u32 b ≡ ok (n, r)
    → (b ≡ to_le 4 n ++ r) × All IsByte r
unfolding read_u32 u32_at
read_u32-eq-ok b n r bytes e = elim (Option-cases (u32_at b 0)) [
  | inl missing ↦ absurd (ground arith)
  | inr (m, found) ↦
      let same : m ≡ n = ground arith in
      let rest : drop 4 b ≡ r = ground arith in
      rw (← same, ← rest) ((uint_at-eq-some b 0 4 bytes found).0, All-drop IsByte 4 b bytes)
]

read_bytes-eq-ok :
    (n : ℕ) (b s r : List ℕ)
    → All IsByte b
    → read_bytes n b ≡ ok (s, r)
    → (b ≡ s ++ r) × (length s ≡ n) × All IsByte r
unfolding read_bytes
read_bytes-eq-ok n b s r bytes e = elim (Option-cases (slice b 0 n)) [
  | inl missing ↦ absurd (ground arith)
  | inr (t, found) ↦
      let same : t ≡ s = ground arith in
      let rest : drop n b ≡ r = ground arith in
      let start : 0 + n ≡ n = omega arith in
      rw (← same, ← rest)
        (rw start at (drop-slice b 0 n found), length-slice b 0 n found, All-drop IsByte n b bytes)
]

-- An output that the loop accepts, behind outputs with `names` and `total` bytes.
pub record IsAccepted (most : ℕ) (names : List (List ℕ)) (total : ℕ) (o : Output) : Type 0 where
  pub some_name : 0 < length o.name
  pub short_name : length o.name ≤ max_output_name_len
  pub new_name : is_name_of o.name names ≡ false
  pub fits : total + length o.bytes ≤ most

read_output-eq-ok :
    (most : ℕ) (names : List (List ℕ)) (total : ℕ) (b : List ℕ) (o : Output) (r : List ℕ)
    → All IsByte b
    → read_output most names total b ≡ ok (o, r)
    → IsAccepted most names total o
      × (b ≡ put_block o.name ++ (put_block o.bytes ++ r))
      × All IsByte r
unfolding read_output put_block
read_output-eq-ok most names total b o r bytes e = elim (Outcome-cases (read_u32 b)) [
  | inl ((name_len, b1), first) ↦ elim (Outcome-cases (read_bytes name_len b1)) [
    | inl ((name, b2), second) ↦ elim (Outcome-cases (read_u32 b2)) [
      | inl ((data_len, b3), third) ↦ elim (Outcome-cases (read_bytes data_len b3)) [
        | inl ((content, b4), fourth) ↦
            let (e1, h1) = read_u32-eq-ok b name_len b1 bytes first in
            let (e2, n2, h2) = read_bytes-eq-ok name_len b1 name b2 h1 second in
            let (e3, h3) = read_u32-eq-ok b2 data_len b3 h2 third in
            let (e4, n4, h4) = read_bytes-eq-ok data_len b3 content b4 h3 fourth in
            let whole : record { name = name; bytes = content } ≡ o = ground arith in
            let rest : b4 ≡ r = ground arith in
            rw (← whole, ← rest)
              (
                record {
                  some_name = rw n2 (ground arith);
                  short_name = rw n2 (ground arith);
                  new_name = ground arith;
                  fits = rw n4 (ground arith);
                },
                rw (append_assoc, append_assoc, n2, n4, ← e4, ← e3, ← e2) e1,
                h4,
              )
        | inr (x, bad) ↦ absurd (ground arith)
      ]
      | inr (x, bad) ↦ absurd (ground arith)
    ]
    | inr (x, bad) ↦ absurd (ground arith)
  ]
  | inr (x, bad) ↦ absurd (ground arith)
]

-- Outputs that the loop accepts one after the other.
abbrev pub AllAccepted : ℕ → List (List ℕ) → ℕ → List Output → Type 0
AllAccepted most names total [] = Unit
AllAccepted most names total (o ∷ os) =
    IsAccepted most names total o × AllAccepted most (o.name ∷ names) (total + length o.bytes) os

read_outputs-eq-ok :
    (most count : ℕ) (names : List (List ℕ)) (total : ℕ) (b : List ℕ) (os : List Output)
    (r : List ℕ)
    → All IsByte b
    → read_outputs most count names total b ≡ ok (os, r)
    → AllAccepted most names total os
      × (length os ≡ count)
      × (b ≡ put_outputs os ++ r)
      × All IsByte r
unfolding read_outputs put_outputs
read_outputs-eq-ok most zero names total b os r bytes e =
    let none_left : [] ≡ os = ground arith in
    let rest : b ≡ r = ground arith in rw (← none_left, ← rest) (tt, refl, refl, bytes)
read_outputs-eq-ok most (suc count) names total b os r bytes e =
    elim (Outcome-cases (read_output most names total b)) [
      | inl ((o, b1), first) ↦
          elim (Outcome-cases
            (read_outputs most count (o.name ∷ names) (total + length o.bytes) b1)) [
              | inl ((os', b2), later) ↦
                  let (accepted, e1, h1) = read_output-eq-ok most names total b o b1 bytes first in
                  let (all, count_is, e2, h2) =
                    read_outputs-eq-ok most count (o.name ∷ names) (total + length o.bytes) b1 os'
                      b2 h1 later in
                  let whole : o ∷ os' ≡ os = ground arith in
                  let rest : b2 ≡ r = ground arith in
                  rw (← whole, ← rest)
                    ((accepted, all), ap suc count_is, rw (append_assoc, append_assoc, ← e2) e1, h2)
              | inr (x, bad) ↦ absurd (ground arith)
            ]
      | inr (x, bad) ↦ absurd (ground arith)
    ]

-- What a decoder has tested of the outputs of a block: there are at most 1024, each has a name of 1 to
-- 255 bytes that no output before it has, and their data adds up to at most the cap.
pub record IsBlock (most : ℕ) (os : List Output) : Type 0 where
  pub count : length os ≤ max_outputs
  pub accepted : AllAccepted most [] 0 os

read_block-eq-ok :
    (most : ℕ) (b : List ℕ) (os : List Output) (r : List ℕ)
    → All IsByte b
    → read_block most b ≡ ok (os, r)
    → IsBlock most os × (b ≡ encode_artifacts os ++ r) × All IsByte r
unfolding read_block encode_artifacts
read_block-eq-ok most b os r bytes e = elim (Outcome-cases (read_u32 b)) [
  | inl ((count, b1), first) ↦ elim (Outcome-cases (read_outputs most count [] 0 b1)) [
    | inl ((os', b2), later) ↦
        let (e1, h1) = read_u32-eq-ok b count b1 bytes first in
        let (all, count_is, e2, h2) = read_outputs-eq-ok most count [] 0 b1 os' b2 h1 later in
        let whole : os' ≡ os = ground arith in
        let rest : b2 ≡ r = ground arith in
        rw (← whole, ← rest)
          (
            record { count = rw count_is (ground arith); accepted = all },
            rw (append_assoc, count_is, ← e2) e1,
            h2,
          )
    | inr (x, bad) ↦ absurd (ground arith)
  ]
  | inr (x, bad) ↦ absurd (ground arith)
]

-- An accepted artifact block is the encoding of the outputs that it decodes to, and these have passed
-- every test of a block.
pub encode-decode_artifacts :
    (b : List ℕ) (most : ℕ) (os : List Output)
    → All IsByte b
    → decode_artifacts b most ≡ ok os
    → IsBlock most os × (encode_artifacts os ≡ b)
unfolding decode_artifacts
encode-decode_artifacts b most os bytes e = elim (Outcome-cases (read_block most b)) [
  | inl ((os', rest), read) ↦
      let (block, split, h) = read_block-eq-ok most b os' rest bytes read in
      let whole : os' ≡ os = ground arith in
      let nothing : rest ≡ [] = empty_of_length rest (==→eq (length rest) 0 (ground arith)) in
      rw (← whole) (block, sym (split ∙ rw (nothing, append-nil) refl))
  | inr (x, bad) ↦ absurd (ground arith)
]
