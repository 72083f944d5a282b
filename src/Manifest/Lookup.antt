-- ===== src/Manifest/Lookup.antt =====
-- In a canonical manifest no section has two entries in the `external` map, so the first entry, which
-- `Manifest::external` reads, is the one that `validate_against` compares.
use sidequests.Common.{
  ℕ, suc, ◌≡◌, ◌≢◌, refl, List, ◌∷◌, All, true, false, none, some, Option-cases, inl, inr,
  Bool-cases, ◌==◌, ==→eq, arith,
}
use sidequests.Error.{ok}
use sidequests.Wire.{IsByte}
use sidequests.Cbor.{
  Value, Entries, uint, nint, bytes, text, array, map, bool, null, end, entry, max_depth, encode,
  encode_into,
}
use sidequests.Cbor
use sidequests.Cbor.Canonical.{encode-decode}
use sidequests.Cbor.Access.{get, as_uint, as_map, pairs}
use sidequests.Cbor.UniqueKeys.{KeyMissing, UniqueKeys, encode_into-UniqueKeys, get-written}
use sidequests.Manifest.Decode.{get_map}
use sidequests.Manifest.Readers.{is_id, find_id}
use sidequests.Manifest.Against.{declare, declared, or_here, lookup}

as_uint-eq-some : (v : Value) (n : ℕ) → as_uint v ≡ some n → v ≡ uint n
unfolding as_uint
as_uint-eq-some (uint m) n e = ground arith
as_uint-eq-some (nint m) n e = cc
as_uint-eq-some (bytes b) n e = cc
as_uint-eq-some (text t) n e = cc
as_uint-eq-some (array vs) n e = cc
as_uint-eq-some (map es) n e = cc
as_uint-eq-some (bool b) n e = cc
as_uint-eq-some null n e = cc

lookup-skip :
    (id : ℕ) (k v : Value) (es : List (Value × Value))
    → ((n : ℕ) → as_uint k ≡ some n → n ≢ id)
    → lookup id (declared ((k, v) ∷ es)) ≡ lookup id (declared es)
unfolding lookup declared declare
lookup-skip id k v es h = elim (Option-cases (as_uint k)) [
  | inl no_id ↦ rw no_id refl
  | inr (n, e) ↦ elim (Bool-cases (n == id)) [
    | inl same ↦ absurd (h n e (==→eq n id same))
    | inr other ↦ elim (Option-cases (lookup id (declared es))) [
      | inl missing ↦ unfold or_here in rw (e, other, missing) refl
      | inr (w, found) ↦ unfold or_here in rw (e, other, found) refl
    ]
  ]
]

find_id-skip :
    (id : ℕ) (k v : Value) (es : List (Value × Value))
    → ((n : ℕ) → as_uint k ≡ some n → n ≢ id)
    → find_id id ((k, v) ∷ es) ≡ find_id id es
unfolding find_id is_id
find_id-skip id k v es h = elim (Option-cases (as_uint k)) [
  | inl no_id ↦ rw no_id refl
  | inr (n, e) ↦ elim (Bool-cases (n == id)) [
    | inl same ↦ absurd (h n e (==→eq n id same))
    | inr other ↦ rw (e, other) refl
  ]
]

lookup-here :
    (id : ℕ) (v : Value) (es : List (Value × Value))
    → lookup id (declared es) ≡ none
    → lookup id (declared ((uint id, v) ∷ es)) ≡ some v
unfolding lookup declared declare as_uint or_here
lookup-here id v es e = let same : (id == id) ≡ true = ground arith in rw (same, e) refl

find_id-here :
    (id : ℕ) (v : Value) (es : List (Value × Value)) → find_id id ((uint id, v) ∷ es) ≡ some v
unfolding find_id is_id as_uint
find_id-here id v es = let same : (id == id) ≡ true = ground arith in rw same refl

missing-lookup :
    (id : ℕ) (es : Entries) → KeyMissing (uint id) es → lookup id (declared (pairs es)) ≡ none
unfolding pairs
missing-lookup id end h = unfold lookup declared in refl
missing-lookup id (entry k v es) (h, hs) =
    let skip =
      lookup-skip id k v (pairs es) (λ n e same. h (rw (as_uint-eq-some k n e, same) refl)) in
    rw skip (missing-lookup id es hs)

other_id :
    (k : Value) (m n id : ℕ) → as_uint k ≡ some m → as_uint k ≡ some n → (n == id) ≡ false → m ≢ id
other_id k m n id e f differ same = let equal : m ≡ n = cc in absurd (ground arith)

-- The last entry of a section is the first.
pub lookup-find_id :
    (id : ℕ) (es : Entries)
    → UniqueKeys es
    → lookup id (declared (pairs es)) ≡ find_id id (pairs es)
unfolding pairs
lookup-find_id id end h = unfold lookup declared find_id in refl
lookup-find_id id (entry k v es) (h, hs) = elim (Option-cases (as_uint k)) [
  | inl no_id ↦
      let other : (n : ℕ) → as_uint k ≡ some n → n ≢ id = λ n e. absurd (cc) in
      rw (lookup-skip id k v (pairs es) other, find_id-skip id k v (pairs es) other)
        (lookup-find_id id es hs)
  | inr (n, e) ↦ elim (Bool-cases (n == id)) [
    | inl same ↦
        let key_is : k ≡ uint id = rw (as_uint-eq-some k n e, ==→eq n id same) refl in
        let missing = missing-lookup id es (rw key_is at h) in
        rw (key_is, lookup-here id v (pairs es) missing, find_id-here id v (pairs es)) refl
    | inr differ ↦
        let other : (m : ℕ) → as_uint k ≡ some m → m ≢ id = λ m e'. other_id k m n id e' e differ in
        rw (lookup-skip id k v (pairs es) other, find_id-skip id k v (pairs es) other)
          (lookup-find_id id es hs)
  ]
]

as_map-eq-some :
    (v : Value) (l : List (Value × Value))
    → as_map v ≡ some l
    → (es : Entries) × (v ≡ map es) × (l ≡ pairs es)
unfolding as_map
as_map-eq-some (map es) l e = (es, refl, ground arith)
as_map-eq-some (uint m) l e = cc
as_map-eq-some (nint m) l e = cc
as_map-eq-some (bytes b) l e = cc
as_map-eq-some (text t) l e = cc
as_map-eq-some (array vs) l e = cc
as_map-eq-some (bool b) l e = cc
as_map-eq-some null l e = cc

-- The entries of a map inside a decoded map have different keys.
pub get_map-UniqueKeys :
    (b : List ℕ) (v : Value) (key : List ℕ) (l : List (Value × Value))
    → All IsByte b
    → Cbor.decode b ≡ ok v
    → get_map key v ≡ some l
    → (es : Entries) × (l ≡ pairs es) × UniqueKeys es
unfolding get_map
get_map-UniqueKeys b v key l b_bytes e given = elim (Option-cases (get key v)) [
  | inl missing ↦ absurd (ground arith)
  | inr (w, found) ↦
      let (es, w_is, l_is) = as_map-eq-some w l (ground arith) in
      let written : encode_into v (suc max_depth) ≡ ok b =
        unfold encode in encode-decode b v b_bytes e in
      let (out, below) = get-written max_depth key v w b found written in
      (es, l_is, (encode_into-UniqueKeys 15 es out (rw w_is at below)).0)
]
