-- ===== src/Manifest/Crit.antt =====
-- `crit`, and the bytes of a manifest that is written again.
use sidequests.Common.{
  ℕ, suc, ◌≡◌, List, [], ◌∷◌, All, true, Option, some, Option-cases, inl, inr, Bool-cases, arith,
}
use sidequests.Common.Sort.{Any}
use sidequests.Error.{ok}
use sidequests.Wire.{IsByte, bytes_eq, bytes_eq→eq}
use sidequests.Cbor.{Value}
use sidequests.Cbor.Access.{get, as_text, as_array}
use sidequests.Cbor.Canonical.{encode-decode}
use sidequests.Manifest.Keys.{crit_key, known_keys}
use sidequests.Manifest.Decode.{
  Manifest, is_among, check_crit_items, check_crit, if_given, decode, encode,
}
use sidequests.Manifest.Accepted.{check_schema-IsChecked, decode-eq-ok}

is_among-Any :
    (key : List ℕ) (keys : List (List ℕ)) → is_among key keys ≡ true → Any (λ k. k ≡ key) keys
unfolding is_among
is_among-Any key [] e = cc
is_among-Any key (k ∷ ks) e = elim (Bool-cases (bytes_eq k key)) [
  | inl here ↦ inl (bytes_eq→eq k key here)
  | inr later ↦ inr (is_among-Any key ks (rw later at e))
]

-- A key that this build implements and that the manifest has.
abbrev pub IsUnderstood : Value → Value → Type 0
IsUnderstood value item =
    (key : List ℕ) × (as_text item ≡ some key)
    × Any (λ k. k ≡ key) known_keys
    × ((v : Value) × (get key value ≡ some v))

check_crit_items-All :
    (value : Value) (i : ℕ) (items : List Value)
    → check_crit_items value i items ≡ ok tt
    → All (IsUnderstood value) items
unfolding check_crit_items
check_crit_items-All value i [] e = tt
check_crit_items-All value i (item ∷ rest) e = elim (Option-cases (as_text item)) [
  | inl missing ↦ absurd (ground arith)
  | inr (key, e1) ↦ elim (Bool-cases (is_among key known_keys)) [
    | inr unknown ↦ absurd (ground arith)
    | inl known ↦ elim (Option-cases (get key value)) [
      | inl absent ↦ absurd (ground arith)
      | inr (v, present) ↦ (
        (key, e1, is_among-Any key known_keys known, (v, present)),
        check_crit_items-All value (suc i) rest (ground arith),
      )
    ]
  ]
]

crit-IsUnderstood :
    (value crit : Value)
    → check_crit value crit ≡ ok tt
    → (items : List Value) × (as_array crit ≡ some items) × All (IsUnderstood value) items
unfolding check_crit
crit-IsUnderstood value crit e = elim (Option-cases (as_array crit)) [
  | inl missing ↦ absurd (ground arith)
  | inr (items, e1) ↦ (items, e1, check_crit_items-All value 0 items (ground arith))
]

given_crit :
    (value crit : Value) (o : Option Value)
    → o ≡ some crit
    → if_given o (check_crit value) ≡ ok tt
    → check_crit value crit ≡ ok tt
unfolding if_given
given_crit value crit o e h = rw e at h

-- Every entry of a decoded manifest's `crit` is a key that this build implements and that the manifest
-- has.
pub decode-crit :
    (b : List ℕ) (m : Manifest) (crit : Value)
    → decode b ≡ ok m
    → get crit_key m.value ≡ some crit
    → (items : List Value) × (as_array crit ≡ some items) × All (IsUnderstood m.value) items
decode-crit b m crit e given =
    let c = check_schema-IsChecked m.value (decode-eq-ok b m e).1 in
    crit-IsUnderstood m.value crit
      (given_crit m.value crit (get crit_key m.value) given c.crit_checked)

-- Writing a decoded manifest gives the bytes it was decoded from, with the keys that the build does not
-- name.
pub decode-encode_manifest :
    (b : List ℕ) (m : Manifest) → All IsByte b → decode b ≡ ok m → encode m ≡ ok b
unfolding encode
decode-encode_manifest b m b_bytes e = encode-decode b m.value b_bytes (decode-eq-ok b m e).0
