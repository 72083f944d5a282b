-- ===== src/Cbor/Canonical.antt =====
-- What the decoder accepts is what the encoder writes: one encoding for each value.
use sidequests.Common.{
  ℕ, zero, suc, ◌<◌, ◌≡◌, refl, inl, inr, List, [], ◌++◌, append_assoc, append-nil, length, All,
  All-append_inv, true, false, none, arith, Bool-cases, ◌==◌, ==→eq, empty_of_length,
}
use sidequests.Error.{ok, Result-cases}
use sidequests.Wire.{IsByte}
use sidequests.Cbor.{
  Value, uint, nint, bytes, text, array, map, bool, null, put_head, encode_into, encode, Decoder,
  take_bytes, head, items, entries, body, value, decode, max_depth,
}
use sidequests.Cbor.Head.{head-eq-ok, take_bytes-eq-ok}
use sidequests.Cbor.Loops.{Reads, items-eq-ok, map-eq-ok}

-- Behind a head, the encoding of what `body` read is the head and the bytes that it took.
abbrev Continues : ℕ → ℕ → ℕ → List ℕ → Value → List ℕ → Type 0
Continues k major arg b v rest =
    (out : List ℕ) × (encode_into v (suc k) ≡ ok (put_head major arg ++ out))
    × (b ≡ out ++ rest)
    × All IsByte rest

-- A value that is its head alone.
head_alone :
    (k major arg : ℕ) (b : List ℕ) (v w : Value) (rest : List ℕ)
    → All IsByte b
    → encode_into w (suc k) ≡ ok (put_head major arg)
    → w ≡ v
    → b ≡ rest
    → Continues k major arg b v rest
head_alone k major arg b v w rest b_bytes written value_is rest_is =
    ([], rw (← value_is, append-nil) written, rest_is, rw (← rest_is) b_bytes)

-- A value that is its head and `arg` bytes.
head_and_bytes :
    (k major arg : ℕ) (b s r : List ℕ) (v w : Value) (rest : List ℕ)
    → All IsByte b
    → take_bytes arg b ≡ ok (s, r)
    → encode_into w (suc k) ≡ ok (put_head major (length s) ++ s)
    → w ≡ v
    → r ≡ rest
    → Continues k major arg b v rest
head_and_bytes k major arg b s r v w rest b_bytes took written value_is rest_is =
    let (split, len) = take_bytes-eq-ok arg b s r took in
    (
      s,
      rw (← value_is) (rw len at written),
      rw (← rest_is) split,
      rw (← rest_is) (All-append_inv IsByte s r (rw split at b_bytes)).1,
    )

-- No head has a major type above 7, and `body` would refuse it.
body_tag :
    (item : Decoder Value) (major arg : ℕ) (b : List ℕ) (v : Value) (rest : List ℕ)
    → 7 < major
    → body item major arg b ≡ ok (v, rest)
    → ⊥
unfolding body
body_tag item major arg b v rest h e = ground arith

module _ (k : ℕ) (reads : Reads k) where
  body-eq-ok :
      (major arg : ℕ) (b : List ℕ) (v : Value) (rest : List ℕ)
      → All IsByte b
      → body (value k) major arg b ≡ ok (v, rest)
      → Continues k major arg b v rest
  unfolding body encode_into
  body-eq-ok zero arg b v rest b_bytes e =
      head_alone k 0 arg b v (uint arg) rest b_bytes refl (ground arith) (ground arith)
  body-eq-ok (suc zero) arg b v rest b_bytes e =
      head_alone k 1 arg b v (nint arg) rest b_bytes refl (ground arith) (ground arith)
  body-eq-ok (suc (suc zero)) arg b v rest b_bytes e = elim (Result-cases (take_bytes arg b)) [
    | inl ((s, r), took) ↦
        head_and_bytes k 2 arg b s r v (bytes s) rest b_bytes took refl (ground arith)
          (ground arith)
    | inr (x, bad) ↦ absurd (ground arith)
  ]
  body-eq-ok (suc (suc (suc zero))) arg b v rest b_bytes e =
      elim (Result-cases (take_bytes arg b)) [
        | inl ((s, r), took) ↦
            head_and_bytes k 3 arg b s r v (text s) rest b_bytes took refl (ground arith)
              (ground arith)
        | inr (x, bad) ↦ absurd (ground arith)
      ]
  body-eq-ok (suc (suc (suc (suc zero)))) arg b v rest b_bytes e =
      elim (Result-cases (items (value k) arg b)) [
        | inl ((vs, r), read) ↦
            let (out, written, count, split, r_bytes) =
              items-eq-ok k reads arg b vs r b_bytes read in
            let value_is : array vs ≡ v = ground arith in
            let rest_is : r ≡ rest = ground arith in
            rw (← value_is, ← rest_is) (out, rw (written, count) refl, split, r_bytes)
        | inr (x, bad) ↦ absurd (ground arith)
      ]
  body-eq-ok (suc (suc (suc (suc (suc zero))))) arg b v rest b_bytes e =
      elim (Result-cases (entries (value k) none arg b)) [
        | inl ((es, r), read) ↦
            let value_is : map es ≡ v = ground arith in
            let rest_is : r ≡ rest = ground arith in
            rw (← value_is, ← rest_is) (map-eq-ok k reads arg b es r b_bytes read)
        | inr (x, bad) ↦ absurd (ground arith)
      ]
  body-eq-ok (suc (suc (suc (suc (suc (suc zero)))))) arg b v rest b_bytes e = absurd (ground arith)
  body-eq-ok (suc (suc (suc (suc (suc (suc (suc zero))))))) arg b v rest b_bytes e =
      elim (Bool-cases (arg == 20)) [
        | inl is_false ↦ rw (==→eq arg 20 is_false) (
            head_alone k 7 20 b v (bool false) rest b_bytes (unfold put_head in refl) (ground arith)
              (ground arith))
        | inr not_false ↦ elim (Bool-cases (arg == 21)) [
          | inl is_true ↦ rw (==→eq arg 21 is_true) (
              head_alone k 7 21 b v (bool true) rest b_bytes (unfold put_head in refl)
                (ground arith) (ground arith))
          | inr not_true ↦ elim (Bool-cases (arg == 22)) [
            | inl is_null ↦ rw (==→eq arg 22 is_null) (
                head_alone k 7 22 b v null rest b_bytes (unfold put_head in refl) (ground arith)
                  (ground arith))
            | inr other ↦ absurd (ground arith)
          ]
        ]
      ]
  body-eq-ok (suc (suc (suc (suc (suc (suc (suc (suc major)))))))) arg b v rest b_bytes e = absurd (
      body_tag (value k) (suc (suc (suc (suc (suc (suc (suc (suc major)))))))) arg b v rest
        (omega arith) e)

value-Reads : (k : ℕ) → Reads k
unfolding value
value-Reads zero b v rest b_bytes e = cc
value-Reads (suc k) b v rest b_bytes e = elim (Result-cases (head b)) [
  | inl (((major, arg), r), read) ↦
      let (split, small, bound, r_bytes) = head-eq-ok b major arg r b_bytes read in
      let (out, written, split', rest_bytes) =
        body-eq-ok k (value-Reads k) major arg r v rest r_bytes (rw read at e) in
      (put_head major arg ++ out, written, rw (append_assoc, ← split') split, rest_bytes)
  | inr (x, bad) ↦ absurd (ground arith)
]

-- An accepted byte string is the encoding of the value that it decodes to: decoding accepts only
-- canonical input.
pub encode-decode : (b : List ℕ) (v : Value) → All IsByte b → decode b ≡ ok v → encode v ≡ ok b
unfolding decode encode
encode-decode b v b_bytes e = elim (Result-cases (value (suc max_depth) b)) [
  | inl ((w, rest), read) ↦
      let (out, written, split, rest_bytes) = value-Reads (suc max_depth) b w rest b_bytes read in
      let value_is : w ≡ v = ground arith in
      let nothing : rest ≡ [] = empty_of_length rest (==→eq (length rest) 0 (ground arith)) in
      rw (← value_is, split, nothing, append-nil) written
  | inr (x, bad) ↦ absurd (ground arith)
]

-- Two byte strings that decode to the same value are the same.
pub decode_injective :
    (b c : List ℕ) (v : Value)
    → All IsByte b
    → All IsByte c
    → decode b ≡ ok v
    → decode c ≡ ok v
    → b ≡ c
decode_injective b c v b_bytes c_bytes e f =
    cc (encode-decode b v b_bytes e, encode-decode c v c_bytes f)
