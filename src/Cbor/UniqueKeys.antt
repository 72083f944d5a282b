-- ===== src/Cbor/UniqueKeys.antt =====
-- What the encoder accepts of a map: its keys encode to different bytes, and its values are encoded
-- one level down.
use sidequests.Common.{
  ℕ, suc, ◌≡◌, ◌≢◌, refl, subst, List, [], ◌∷◌, All, true, false, some, inl, inr, Bool-cases, arith,
}
use sidequests.Common.Sort.{AllPairs, sort, All-sort}
use sidequests.Error.{ok, Result-cases}
use sidequests.Wire.{bytes_eq, bytes_eq_refl}
use sidequests.Cbor.{
  Value, Entries, uint, nint, bytes, text, array, map, bool, null, end, entry, count_entries,
  Encoded, key_le, has_duplicate, write_entries, write_map, encode_into, encode_entries,
}
use sidequests.Cbor.Distinct.{NeighboursDiffer, Differ, distinct_of_sort}
use sidequests.Cbor.Access.{is_key, find_key, get}

abbrev encoded_key : Encoded → List ℕ
encoded_key e = e.0

abbrev IsWritten : Encoded → Type 0
IsWritten e = (vb : List ℕ) × (e.1 ≡ ok vb)

write_entries-IsWritten :
    (es : List Encoded) (out : List ℕ) → write_entries es ≡ ok out → All IsWritten es
unfolding write_entries
write_entries-IsWritten [] out e = tt
write_entries-IsWritten ((kb, v) ∷ es) out e = elim (Result-cases v) [
  | inl (vb, e1) ↦ elim (Result-cases (write_entries es)) [
    | inl (rest, e2) ↦ ((vb, e1), write_entries-IsWritten es rest e2)
    | inr (x, bad) ↦ absurd (ground arith)
  ]
  | inr (x, bad) ↦ absurd (ground arith)
]

has_duplicate-false :
    (es : List Encoded) → has_duplicate es ≡ false → NeighboursDiffer encoded_key es
unfolding has_duplicate
has_duplicate-false [] e = tt
has_duplicate-false (a ∷ []) e = tt
has_duplicate-false (a ∷ (b ∷ es)) e = (ground arith, has_duplicate-false (b ∷ es) (ground arith))

write_map_unique :
    (n : ℕ) (es : List Encoded) (out : List ℕ)
    → write_map n es ≡ ok out
    → AllPairs (Differ encoded_key) es × All IsWritten es
unfolding write_map
write_map_unique n es out e = elim (Bool-cases (has_duplicate (sort key_le es))) [
  | inl twice ↦ absurd (ground arith)
  | inr once ↦ elim (Result-cases (write_entries (sort key_le es))) [
    | inr (x, bad) ↦ absurd (ground arith)
    | inl (inner, w) ↦ (
      unfold key_le in
          (distinct_of_sort encoded_key es (has_duplicate-false (sort key_le es) once)),
      All-sort key_le IsWritten es (write_entries-IsWritten (sort key_le es) inner w),
    )
  ]
]

-- The entries with their encodings, one for one.
abbrev Encodes : ℕ → Entries → List Encoded → Type 0
Encodes k end [] = Unit
Encodes k (entry key v es) (e ∷ encoded) =
    (encode_into key k ≡ ok e.0) × (e.1 ≡ encode_into v k) × Encodes k es encoded
Encodes k end (e ∷ encoded) = ⊥
Encodes k (entry key v es) [] = ⊥

encode_entries-Encodes :
    (k : ℕ) (es : Entries) (encoded : List Encoded)
    → encode_entries es k ≡ ok encoded
    → Encodes k es encoded
unfolding encode_entries
encode_entries-Encodes k end encoded e =
    let empty : [] ≡ encoded = ground arith in subst (Encodes k end) empty tt
encode_entries-Encodes k (entry key v es) encoded e = elim (Result-cases (encode_into key k)) [
  | inr (x, bad) ↦ absurd (ground arith)
  | inl (kb, e1) ↦ elim (Result-cases (encode_entries es k)) [
    | inr (x, bad) ↦ absurd (ground arith)
    | inl (others, e2) ↦
        let whole : (kb, encode_into v k) ∷ others ≡ encoded = ground arith in
        subst (Encodes k (entry key v es)) whole (e1, refl, encode_entries-Encodes k es others e2)
  ]
]

-- A key is not among those of the entries.
abbrev pub KeyMissing : Value → Entries → Type 0
KeyMissing key end = Unit
KeyMissing key (entry key' v es) = (key ≢ key') × KeyMissing key es

abbrev pub UniqueKeys : Entries → Type 0
UniqueKeys end = Unit
UniqueKeys (entry key v es) = KeyMissing key es × UniqueKeys es

-- Every value is written at the level.
abbrev pub ValuesWritten : ℕ → Entries → Type 0
ValuesWritten k end = Unit
ValuesWritten k (entry key v es) = ((vb : List ℕ) × (encode_into v k ≡ ok vb)) × ValuesWritten k es

Encodes-KeyMissing :
    (k : ℕ) (key : Value) (e : Encoded) (es : Entries) (encoded : List Encoded)
    → encode_into key k ≡ ok e.0
    → Encodes k es encoded
    → All (Differ encoded_key e) encoded
    → KeyMissing key es
Encodes-KeyMissing k key e end [] h c d = tt
Encodes-KeyMissing k key e (entry key' v es) (f ∷ encoded) h (c1, c2, c) (d, ds) =
    (λ same. absurd (clash same), Encodes-KeyMissing k key e es encoded h c ds)
  where
    clash : key ≡ key' → ⊥
    clash same =
        let equal : e.0 ≡ f.0 = cc in
        let equal' : bytes_eq e.0 f.0 ≡ true = rw equal (bytes_eq_refl f.0) in cc
Encodes-KeyMissing k key e end (f ∷ encoded) h c d = absurd c
Encodes-KeyMissing k key e (entry key' v es) [] h c d = absurd c

Encodes-unique :
    (k : ℕ) (es : Entries) (encoded : List Encoded)
    → Encodes k es encoded
    → AllPairs (Differ encoded_key) encoded
    → All IsWritten encoded
    → UniqueKeys es × ValuesWritten k es
Encodes-unique k end [] c d w = (tt, tt)
Encodes-unique k (entry key v es) (e ∷ encoded) (c1, c2, c) (d, ds) ((vb, w), ws) =
    let (unique, written) = Encodes-unique k es encoded c ds ws in
    ((Encodes-KeyMissing k key e es encoded c1 c d, unique), ((vb, cc), written))
Encodes-unique k end (f ∷ encoded) c d w = absurd c
Encodes-unique k (entry key' v es) [] c d w = absurd c

-- A map that is encoded has no key twice, and each of its values is encoded one level down.
pub encode_into-UniqueKeys :
    (k : ℕ) (es : Entries) (out : List ℕ)
    → encode_into (map es) (suc k) ≡ ok out
    → UniqueKeys es × ValuesWritten k es
unfolding encode_into
encode_into-UniqueKeys k es out e = elim (Result-cases (encode_entries es k)) [
  | inr (x, bad) ↦ absurd (ground arith)
  | inl (encoded, e1) ↦
      let (d, w) = write_map_unique (count_entries es) encoded out (ground arith) in
      Encodes-unique k es encoded (encode_entries-Encodes k es encoded e1) d w
]

find_key-written :
    (k : ℕ) (key : List ℕ) (es : Entries) (v : Value)
    → find_key key es ≡ some v
    → ValuesWritten k es
    → (vb : List ℕ) × (encode_into v k ≡ ok vb)
unfolding find_key
find_key-written k key end v e w = cc
find_key-written k key (entry key' v' es) v e ((vb, w), ws) = elim (Bool-cases (is_key key key')) [
  | inl here ↦ let same : v' ≡ v = ground arith in (vb, cc)
  | inr later ↦ find_key-written k key es v (ground arith) ws
]

-- What `get` finds in a map that is encoded is encoded one level down.
pub get-written :
    (k : ℕ) (key : List ℕ) (v w : Value) (out : List ℕ)
    → get key v ≡ some w
    → encode_into v (suc k) ≡ ok out
    → (out' : List ℕ) × (encode_into w k ≡ ok out')
unfolding get
get-written k key (map es) w out e h =
    find_key-written k key es w e (encode_into-UniqueKeys k es out h).1
get-written k key (uint n) w out e h = cc
get-written k key (nint n) w out e h = cc
get-written k key (bytes b) w out e h = cc
get-written k key (text t) w out e h = cc
get-written k key (array vs) w out e h = cc
get-written k key (bool b) w out e h = cc
get-written k key null w out e h = cc
