-- ===== src/Cbor/Decodes.antt =====
-- A canonical value is read back from its encoding.
use sidequests.Common.{
  ℕ, zero, suc, ◌<◌, ◌≡◌, refl, List, [], ◌∷◌, ◌++◌, append_assoc, append-nil, length, true, false,
  none, inl, inr, arith,
}
use sidequests.Common.Sort.{sort, sort-IsSorted}
use sidequests.Error.{Error, ok, err, Result-cases}
use sidequests.Format.{u64_mod}
use sidequests.Cbor.{
  Value, Values, Entries, uint, nint, bytes, text, array, map, bool, null, count_values,
  count_entries, put_head, Encoded, key_le, write_entries, write_map, encode_into, encode_items,
  encode, Decoder, items, entries, body, value, decode, max_depth,
}
use sidequests.Cbor.PutHead.{head-put_head, take_bytes-append}
use sidequests.Cbor.CanonicalValue.{
  IsCanonical, Ascending, Ascending-distinct, Restores, items-encode_items, entries-encode_entries,
}

value-of_body :
    (k major arg : ℕ) (v : Value) (out rest : List ℕ)
    → major < 8
    → arg < u64_mod
    → body (value k) major arg (out ++ rest) ≡ ok (v, rest)
    → value (suc k) ((put_head major arg ++ out) ++ rest) ≡ ok (v, rest)
unfolding value
value-of_body k major arg v out rest hm ha read =
    rw (append_assoc, head-put_head major arg (out ++ rest) hm ha) read

ok_injective : {a b : List ℕ} → ok a ≡ ok b → a ≡ b
ok_injective h = cc

err-ok : {x : Error} {a : List ℕ} → err x ≡ ok a → ⊥
err-ok h = cc

-- The bytes of a map of encoded entries in order.
write_map-eq-ok :
    (n : ℕ) (encoded : List Encoded) (out : List ℕ)
    → Ascending none encoded
    → write_map n encoded ≡ ok out
    → (inner : List ℕ) × (write_entries encoded ≡ ok inner) × (put_head 5 n ++ inner ≡ out)
unfolding write_map
write_map-eq-ok n encoded out asc e =
    let (sorted, distinct) = Ascending-distinct none encoded asc in
    let same : sort key_le encoded ≡ encoded = sort-IsSorted key_le encoded sorted in
    elim (Result-cases (write_entries encoded)) [
      | inl (inner, w) ↦ (inner, w, ok_injective (rw (same, distinct, w) at e))
      | inr (x, bad) ↦ absurd (err-ok (rw (same, distinct, bad) at e))
    ]

body-array :
    (item : Decoder Value) (n : ℕ) (b : List ℕ) (vs : Values) (rest : List ℕ)
    → items item n b ≡ ok (vs, rest)
    → body item 4 n b ≡ ok (array vs, rest)
unfolding body
body-array item n b vs rest read = rw read refl

body-map :
    (item : Decoder Value) (n : ℕ) (b : List ℕ) (es : Entries) (rest : List ℕ)
    → entries item none n b ≡ ok (es, rest)
    → body item 5 n b ≡ ok (map es, rest)
unfolding body
body-map item n b es rest read = rw read refl

value-Restores : (k : ℕ) → Restores k
unfolding encode_into IsCanonical
value-Restores zero (uint n) out rest h e = cc
value-Restores zero (nint n) out rest h e = cc
value-Restores zero (bytes s) out rest h e = cc
value-Restores zero (text s) out rest h e = cc
value-Restores zero (array vs) out rest h e = cc
value-Restores zero (map es) out rest h e = cc
value-Restores zero (bool b) out rest h e = cc
value-Restores zero null out rest h e = cc
value-Restores (suc k) (uint n) out rest h e =
    let written : put_head 0 n ≡ out = ground arith in
    rw (← written) (
      rw append-nil at (value-of_body k 0 n (uint n) [] rest (omega arith) h (unfold body in refl)))
value-Restores (suc k) (nint n) out rest h e =
    let written : put_head 1 n ≡ out = ground arith in
    rw (← written) (
      rw append-nil at (value-of_body k 1 n (nint n) [] rest (omega arith) h (unfold body in refl)))
value-Restores (suc k) (bytes s) out rest h e =
    let written : put_head 2 (length s) ++ s ≡ out = ground arith in
    rw (← written) (
      value-of_body k 2 (length s) (bytes s) s rest (omega arith) h
        (unfold body in rw (take_bytes-append (length s) s rest refl) refl))
value-Restores (suc k) (text s) out rest (h, utf8) e =
    let written : put_head 3 (length s) ++ s ≡ out = ground arith in
    let took = take_bytes-append (length s) s rest refl in
    rw (← written) (
      value-of_body k 3 (length s) (text s) s rest (omega arith) h
        (unfold body in rw (took, utf8) refl))
value-Restores (suc k) (array vs) out rest (h, hs) e = elim (Result-cases (encode_items vs k)) [
  | inl (inner, e1) ↦
      let written : put_head 4 (count_values vs) ++ inner ≡ out = ground arith in
      let read = items-encode_items k (value-Restores k) vs inner rest hs e1 in
      rw (← written) (
        value-of_body k 4 (count_values vs) (array vs) inner rest (omega arith) h
          (body-array (value k) (count_values vs) (inner ++ rest) vs rest read))
  | inr (x, bad) ↦ absurd (ground arith)
]
value-Restores (suc k) (map es) out rest (h, hs, (encoded, e1, asc)) e =
    let (inner, w, written) = write_map-eq-ok (count_entries es) encoded out asc (rw e1 at e) in
    let read = entries-encode_entries k (value-Restores k) none es encoded inner rest hs e1 asc w in
    rw (← written) (
      value-of_body k 5 (count_entries es) (map es) inner rest (omega arith) h
        (body-map (value k) (count_entries es) (inner ++ rest) es rest read))
value-Restores (suc k) (bool true) out rest h e =
    let written : 0xf5 ∷ [] ≡ out = ground arith in
    rw (← written) (
      unfold put_head in
      value-of_body k 7 21 (bool true) [] rest (omega arith) (omega arith) (unfold body in refl))
value-Restores (suc k) (bool false) out rest h e =
    let written : 0xf4 ∷ [] ≡ out = ground arith in
    rw (← written) (
      unfold put_head in
      value-of_body k 7 20 (bool false) [] rest (omega arith) (omega arith) (unfold body in refl))
value-Restores (suc k) null out rest h e =
    let written : 0xf6 ∷ [] ≡ out = ground arith in
    rw (← written) (
      unfold put_head in
      value-of_body k 7 22 null [] rest (omega arith) (omega arith) (unfold body in refl))

-- A canonical value that is encoded is read back from its encoding.
pub decode-encode :
    (v : Value) (b : List ℕ) → IsCanonical (suc max_depth) v → encode v ≡ ok b → decode b ≡ ok v
unfolding decode encode
decode-encode v b h e =
    let read = rw append-nil at (value-Restores (suc max_depth) v b [] h e) in rw read refl
