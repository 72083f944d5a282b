-- ===== src/Cbor/CanonicalValue.antt =====
-- Canonical values, and the loops of the decoder over what is written of them.
use sidequests.Common.{
  ℕ, zero, suc, ◌<◌, ◌≡◌, refl, sym, subst, List, [], ◌∷◌, ◌++◌, append_assoc, length, true, false,
  Option, none, some, inl, inr, arith,
}
use sidequests.Common.Sort.{IsSorted}
use sidequests.Error.{ok, Result-cases}
use sidequests.Utf8.{is_utf8}
use sidequests.Format.{u64_mod}
use sidequests.Cbor.{
  Value, Values, Entries, uint, nint, bytes, text, array, map, bool, null, nil, cons, end, entry,
  count_values, count_entries, bytes_lt, Encoded, key_le, has_duplicate, write_entries, encode_into,
  encode_items, encode_entries, items, check_order, entries, value,
}
use sidequests.Cbor.Order.{bytes_lt_asymm, bytes_lt-ne}
use sidequests.Cbor.Loops.{key_bytes_lem}

-- The keys of encoded entries are in strict order, behind the key before them.
abbrev pub Ascending : Option (List ℕ) → List Encoded → Type 0
Ascending prev [] = Unit
Ascending none (e ∷ es) = Ascending (some e.0) es
Ascending (some p) (e ∷ es) = (bytes_lt p e.0 ≡ true) × Ascending (some e.0) es

unfoldable mutual
  -- Numbers and lengths fit in 64 bits, a text is UTF-8, and the entries of a map are in the order of
  -- their encoded keys, with no key twice.
  pub IsCanonical : ℕ → Value → Type 0
  IsCanonical k (uint n) = n < u64_mod
  IsCanonical k (nint n) = n < u64_mod
  IsCanonical k (bytes s) = length s < u64_mod
  IsCanonical k (text s) = (length s < u64_mod) × (is_utf8 s ≡ true)
  IsCanonical zero (array vs) = Unit
  IsCanonical (suc k) (array vs) = (count_values vs < u64_mod) × AreCanonical k vs
  IsCanonical zero (map es) = Unit
  IsCanonical (suc k) (map es) =
      (count_entries es < u64_mod)
      × HaveCanonical k es
      × ((encoded : List Encoded) × (encode_entries es k ≡ ok encoded) × Ascending none encoded)
  IsCanonical k (bool b) = Unit
  IsCanonical k null = Unit

  pub AreCanonical : ℕ → Values → Type 0
  AreCanonical k nil = Unit
  AreCanonical k (cons v vs) = IsCanonical k v × AreCanonical k vs

  pub HaveCanonical : ℕ → Entries → Type 0
  HaveCanonical k end = Unit
  HaveCanonical k (entry key v es) = IsCanonical k key × IsCanonical k v × HaveCanonical k es

pub Ascending-distinct :
    (prev : Option (List ℕ)) (es : List Encoded)
    → Ascending prev es
    → IsSorted key_le es × (has_duplicate es ≡ false)
unfolding has_duplicate key_le
Ascending-distinct prev [] h = (tt, refl)
Ascending-distinct prev (e ∷ []) h = (tt, refl)
Ascending-distinct none (e ∷ (f ∷ es)) (lt, h) =
    let (sorted, distinct) = Ascending-distinct (some e.0) (f ∷ es) (lt, h) in
    ((rw (bytes_lt_asymm e.0 f.0 lt) refl, sorted), rw (bytes_lt-ne e.0 f.0 lt) distinct)
Ascending-distinct (some p) (e ∷ (f ∷ es)) (ahead, (lt, h)) =
    let (sorted, distinct) = Ascending-distinct (some e.0) (f ∷ es) (lt, h) in
    ((rw (bytes_lt_asymm e.0 f.0 lt) refl, sorted), rw (bytes_lt-ne e.0 f.0 lt) distinct)

-- Reading at `k` levels what is written of a canonical value gives the value back.
abbrev pub Restores : ℕ → Type 0
Restores k =
    (v : Value) (out rest : List ℕ)
    → IsCanonical k v
    → encode_into v k ≡ ok out
    → value k (out ++ rest) ≡ ok (v, rest)

Ascending-check_order :
    (prev : Option (List ℕ)) (e : Encoded) (es : List Encoded)
    → Ascending prev (e ∷ es)
    → (check_order prev e.0 ≡ ok tt) × Ascending (some e.0) es
unfolding check_order
Ascending-check_order none e es h = (refl, h)
Ascending-check_order (some p) e es (lt, h) = (rw lt refl, h)

module _ (k : ℕ) (restores : Restores k) where
  pub items-encode_items :
      (vs : Values) (out rest : List ℕ)
      → AreCanonical k vs
      → encode_items vs k ≡ ok out
      → items (value k) (count_values vs) (out ++ rest) ≡ ok (vs, rest)
  unfolding AreCanonical encode_items count_values items
  items-encode_items nil out rest h e = let empty : [] ≡ out = ground arith in rw (← empty) refl
  items-encode_items (cons v vs) out rest (h, hs) e = elim (Result-cases (encode_into v k)) [
    | inl (first, e1) ↦ elim (Result-cases (encode_items vs k)) [
      | inl (others, e2) ↦
          let whole : first ++ others ≡ out = ground arith in
          rw (← whole, append_assoc, restores v first (others ++ rest) h e1)
            (rw (items-encode_items vs others rest hs e2) refl)
      | inr (x, bad) ↦ absurd (ground arith)
    ]
    | inr (x, bad) ↦ absurd (ground arith)
  ]

  -- One entry in front of those that `later` reads back.
  entries-entry :
      (prev : Option (List ℕ)) (key v : Value) (es : Entries) (kb : List ℕ) (others : List Encoded)
      (out rest : List ℕ)
      → IsCanonical k key
      → IsCanonical k v
      → encode_into key k ≡ ok kb
      → check_order prev kb ≡ ok tt
      → write_entries ((kb, encode_into v k) ∷ others) ≡ ok out
      → ((out' : List ℕ)
          → write_entries others ≡ ok out'
          → entries (value k) (some kb) (count_entries es) (out' ++ rest) ≡ ok (es, rest))
      → entries (value k) prev (count_entries (entry key v es)) (out ++ rest)
        ≡ ok (entry key v es, rest)
  unfolding count_entries write_entries entries
  entries-entry prev key v es kb others out rest hk hv e1 order w later =
      elim (Result-cases (encode_into v k)) [
        | inl (vb, e3) ↦ elim (Result-cases (write_entries others)) [
          | inl (out', e4) ↦
              let whole : kb ++ (vb ++ out') ≡ out = ground arith in
              let tail = vb ++ (out' ++ rest) in
              let key_read = restores key kb tail hk e1 in
              let value_read = restores v vb (out' ++ rest) hv e3 in
              let cut = key_bytes_lem (kb ++ tail) kb tail refl in
              rw
                (
                  ← whole,
                  append_assoc,
                  append_assoc,
                  key_read,
                  cut,
                  order,
                  value_read,
                  later out' e4,
                )
                refl
          | inr (x, bad) ↦ absurd (ground arith)
        ]
        | inr (x, bad) ↦ absurd (ground arith)
      ]

  pub entries-encode_entries :
      (prev : Option (List ℕ)) (es : Entries) (encoded : List Encoded) (out rest : List ℕ)
      → HaveCanonical k es
      → encode_entries es k ≡ ok encoded
      → Ascending prev encoded
      → write_entries encoded ≡ ok out
      → entries (value k) prev (count_entries es) (out ++ rest) ≡ ok (es, rest)
  unfolding HaveCanonical encode_entries count_entries write_entries entries
  entries-encode_entries prev end encoded out rest h e asc w =
      let none_left : [] ≡ encoded = ground arith in
      let empty : [] ≡ out = ground arith in rw (← empty) refl
  entries-encode_entries prev (entry key v es) encoded out rest (hk, hv, hs) e asc w =
      elim (Result-cases (encode_into key k)) [
        | inl (kb, e1) ↦ elim (Result-cases (encode_entries es k)) [
          | inl (others, e2) ↦
              let encoded_is : (kb, encode_into v k) ∷ others ≡ encoded = ground arith in
              let (order, ahead) =
                Ascending-check_order prev (kb, encode_into v k) others
                  (subst (Ascending prev) (sym encoded_is) asc) in
              entries-entry prev key v es kb others out rest hk hv e1 order
                (subst (λ x. write_entries x ≡ ok out) (sym encoded_is) w)
                (λ out' w'. entries-encode_entries (some kb) es others out' rest hs e2 ahead w')
          | inr (x, bad) ↦ absurd (ground arith)
        ]
        | inr (x, bad) ↦ absurd (ground arith)
      ]
