-- ===== src/Cbor/Loops.antt =====
-- The loops of the decoder over the items of an array and the entries of a map: what they took is
-- what the encoder writes.
use sidequests.Common.{
  ℕ, zero, suc, ◌+◌, ◌-◌, ◌≡◌, refl, ap, ◌∙◌, inl, inr, List, [], ◌∷◌, ◌++◌, append_assoc, length,
  length-append, take, take-append, All, true, false, Option, none, some, arith,
}
use sidequests.Common.Sort.{IsSorted, sort, sort-IsSorted}
use sidequests.Error.{Result, ok, ◌>>=◌, Result-cases}
use sidequests.Wire.{IsByte}
use sidequests.Cbor.{
  Value, Values, Entries, map, nil, cons, end, entry, count_values, count_entries, put_head,
  bytes_lt, Encoded, key_le, has_duplicate, write_entries, write_map, encode_into, encode_items,
  encode_entries, Decoder, items, check_order, entries, value,
}
use sidequests.Cbor.Order.{bytes_lt_asymm, bytes_lt-ne}

-- Reading a value at `k` levels takes exactly the bytes that writing it gives.
abbrev pub Reads : ℕ → Type 0
Reads k =
    (b : List ℕ) (v : Value) (rest : List ℕ)
    → All IsByte b
    → value k b ≡ ok (v, rest)
    → (out : List ℕ) × (encode_into v k ≡ ok out) × (b ≡ out ++ rest) × All IsByte rest

module _ (k : ℕ) (reads : Reads k) where
  pub items-eq-ok :
      (n : ℕ) (b : List ℕ) (vs : Values) (rest : List ℕ)
      → All IsByte b
      → items (value k) n b ≡ ok (vs, rest)
      → (out : List ℕ) × (encode_items vs k ≡ ok out)
        × (count_values vs ≡ n)
        × (b ≡ out ++ rest)
        × All IsByte rest
  unfolding items encode_into count_values
  items-eq-ok zero b vs rest b_bytes e =
      let none_left : nil ≡ vs = ground arith in
      let same : b ≡ rest = ground arith in
      rw (← none_left) ([], refl, refl, same, rw (← same) b_bytes)
  items-eq-ok (suc n) b vs rest b_bytes e = elim (Result-cases (value k b)) [
    | inl ((v, r), first) ↦
        let (out, written, split, r_bytes) = reads b v r b_bytes first in
        elim (Result-cases (items (value k) n r)) [
          | inl ((ws, r'), later) ↦
              let (out', written', count, split', r'_bytes) = items-eq-ok n r ws r' r_bytes later in
              let all : cons v ws ≡ vs = ground arith in
              let same : r' ≡ rest = ground arith in
              rw (← all, ← same)
                (
                  out ++ out',
                  rw (written, written') refl,
                  ap suc count,
                  rw (append_assoc, ← split') split,
                  r'_bytes,
                )
          | inr (x, bad) ↦ absurd (ground arith)
        ]
    | inr (x, bad) ↦ absurd (ground arith)
  ]

-- Encoded entries that are ready to be written: in strict order, behind the key before them.
abbrev Follows : Option (List ℕ) → List Encoded → Type 0
Follows none encoded = Unit
Follows (some prev) [] = Unit
Follows (some prev) (e ∷ es) = bytes_lt prev e.0 ≡ true

record IsReady (prev : Option (List ℕ)) (encoded : List Encoded) (out : List ℕ) : Type 0 where
  follows : Follows prev encoded
  sorted : IsSorted key_le encoded
  distinct : has_duplicate encoded ≡ false
  written : write_entries encoded ≡ ok out

check_order-Follows :
    (prev : Option (List ℕ)) (e : Encoded) (es : List Encoded)
    → check_order prev e.0 ≡ ok tt
    → Follows prev (e ∷ es)
unfolding check_order
check_order-Follows none e es h = tt
check_order-Follows (some p) e es h = ground arith

-- One more entry in front of ready ones.
cons-IsReady :
    (prev : Option (List ℕ)) (kb vb : List ℕ) (v : Result (List ℕ)) (es : List Encoded)
    (out : List ℕ)
    → check_order prev kb ≡ ok tt
    → v ≡ ok vb
    → IsReady (some kb) es out
    → IsReady prev ((kb, v) ∷ es) (kb ++ (vb ++ out))
unfolding write_entries has_duplicate key_le
cons-IsReady prev kb vb v [] out order val ready = record {
  follows = check_order-Follows prev (kb, v) [] order;
  sorted = tt;
  distinct = refl;
  written = rw val (ap (λ (w : Result (List ℕ)). w >>= λ o. ok (kb ++ (vb ++ o))) ready.written);
}
cons-IsReady prev kb vb v (e ∷ es) out order val ready = record {
  follows = check_order-Follows prev (kb, v) (e ∷ es) order;
  sorted = (rw (bytes_lt_asymm kb e.0 ready.follows) refl, ready.sorted);
  distinct = rw (bytes_lt-ne kb e.0 ready.follows) ready.distinct;
  written = rw val (ap (λ (w : Result (List ℕ)). w >>= λ o. ok (kb ++ (vb ++ o))) ready.written);
}

-- The key's bytes, as the decoder cuts them from its input.
pub key_bytes_lem : (b out rest : List ℕ) → b ≡ out ++ rest → take (length b - length rest) b ≡ out
key_bytes_lem b out rest split =
    let len : length b ≡ length out + length rest = rw split (length-append out rest) in
    let cut : length b - length rest ≡ length out = omega (arith, len) in
    rw (cut, split) (take-append out rest refl)

nil-IsReady : (prev : Option (List ℕ)) → IsReady prev [] []
unfolding has_duplicate write_entries
nil-IsReady none = record { follows = tt; sorted = tt; distinct = refl; written = refl }
nil-IsReady (some p) = record { follows = tt; sorted = tt; distinct = refl; written = refl }

-- The steps of one round of the loop over a map's entries.
entries-suc :
    (item : Decoder Value) (prev : Option (List ℕ)) (n : ℕ) (b : List ℕ) (es : Entries)
    (rest : List ℕ)
    → entries item prev (suc n) b ≡ ok (es, rest)
    → (key : Value) × (r : List ℕ) × (v : Value) × (r' : List ℕ) × (fs : Entries) × (item b
        ≡ ok (key, r))
      × (check_order prev (take (length b - length r) b) ≡ ok tt)
      × (item r ≡ ok (v, r'))
      × (entries item (some (take (length b - length r) b)) n r' ≡ ok (fs, rest))
      × (entry key v fs ≡ es)
unfolding entries
entries-suc item prev n b es rest e = elim (Result-cases (item b)) [
  | inl ((key, r), first) ↦ elim (Result-cases (item r)) [
    | inl ((v, r'), second) ↦
        elim (Result-cases (entries item (some (take (length b - length r) b)) n r')) [
          | inl ((fs, r''), later) ↦
              (key, r, v, r', fs, first, ground arith, second, ground arith, ground arith)
          | inr (x, bad) ↦ absurd (ground arith)
        ]
    | inr (x, bad) ↦ absurd (ground arith)
  ]
  | inr (x, bad) ↦ absurd (ground arith)
]

module _ (k : ℕ) (reads : Reads k) where
  entries-eq-ok :
      (prev : Option (List ℕ)) (n : ℕ) (b : List ℕ) (es : Entries) (rest : List ℕ)
      → All IsByte b
      → entries (value k) prev n b ≡ ok (es, rest)
      → (encoded : List Encoded) × (out : List ℕ) × (encode_entries es k ≡ ok encoded)
        × IsReady prev encoded out
        × (count_entries es ≡ n)
        × (b ≡ out ++ rest)
        × All IsByte rest
  unfolding entries encode_into count_entries
  entries-eq-ok prev zero b es rest b_bytes e =
      let none_left : end ≡ es = ground arith in
      let same : b ≡ rest = ground arith in
      rw (← none_left) ([], [], refl, nil-IsReady prev, refl, same, rw (← same) b_bytes)
  entries-eq-ok prev (suc n) b es rest b_bytes e =
      let (key, r, v, r', fs, key_read, order, v_read, later, all) =
        entries-suc (value k) prev n b es rest e in
      let (kb, key_out, split, r_bytes) = reads b key r b_bytes key_read in
      let cut : take (length b - length r) b ≡ kb = key_bytes_lem b kb r split in
      let (vb, v_out, split', r'_bytes) = reads r v r' r_bytes v_read in
      let (encoded, out, rest_out, ready, count, split'', rest_bytes) =
        entries-eq-ok (some kb) n r' fs rest r'_bytes (rw cut at later) in
      rw (← all) (
        (kb, encode_into v k) ∷ encoded,
        kb ++ (vb ++ out),
        rw (key_out, rest_out) refl,
        cons-IsReady prev kb vb (encode_into v k) encoded out (rw cut at order) v_out ready,
        ap suc count,
        split ∙ rw (append_assoc, append_assoc, ← split'') (ap (λ (t : List ℕ). kb ++ t) split'),
        rest_bytes,
      )

  pub map-eq-ok :
      (n : ℕ) (b : List ℕ) (es : Entries) (rest : List ℕ)
      → All IsByte b
      → entries (value k) none n b ≡ ok (es, rest)
      → (out : List ℕ) × (encode_into (map es) (suc k) ≡ ok (put_head 5 n ++ out))
        × (b ≡ out ++ rest)
        × All IsByte rest
  unfolding encode_into write_map
  map-eq-ok n b es rest b_bytes e =
      let (encoded, out, all_out, ready, count, split, rest_bytes) =
        entries-eq-ok none n b es rest b_bytes e in
      let sorted : sort key_le encoded ≡ encoded = sort-IsSorted key_le encoded ready.sorted in
      (out, rw (all_out, sorted, ready.distinct, ready.written, count) refl, split, rest_bytes)
