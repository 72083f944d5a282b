-- ===== src/Manifest/NameTable.antt =====
-- The identity and the name table of a decoded manifest.
use sidequests.Common.{
  ℕ, zero, suc, ◌≤◌, ◌<◌, ◌≡◌, ◌≢◌, refl, ap, subst, inl, inr, List, [], ◌∷◌, All, length, map,
  true, false, none, some, Option-cases, arith,
}
use sidequests.Common.Sort.{AllPairs}
use sidequests.Error.{ok, Result-cases}
use sidequests.Wire.{bytes_eq, bytes_eq_refl}
use sidequests.Cbor.{Value}
use sidequests.Cbor.Access.{and_then, as_text}
use sidequests.Manifest.Keys.{names_key, max_names}
use sidequests.Manifest.Shape.{check_name}
use sidequests.Manifest.Decode.{
  Manifest, get_array, Seen, collect_names, refuse_some, check_names, check_schema, decode,
}
use sidequests.Manifest.Readers.{spec, id, names, name_of, texts, item_at}
use sidequests.Manifest.Names.{IsId, IsName, check_id-IsId, check_name-IsName}
use sidequests.Manifest.Distinct.{text_of, refuse_repeated-distinct}
use sidequests.Manifest.Accepted.{check_schema-IsChecked, decode-eq-ok}

record Collected (list : List Value) (seen : Seen) : Type 0 where
  texts_are : texts list ≡ map text_of seen
  as_many : length (map text_of seen) ≡ length list
  well_named : All IsName (map text_of seen)
  all_text : All (λ v. (t : List ℕ) × (as_text v ≡ some t)) list

collect_names-step :
    (i : ℕ) (v : Value) (vs : List Value) (n : List ℕ) (seen seen' : Seen)
    → as_text v ≡ some n
    → check_name n ≡ none
    → Collected vs seen'
    → (i, n) ∷ seen' ≡ seen
    → Collected (v ∷ vs) seen
unfolding texts
collect_names-step i v vs n seen seen' e1 e2 c e = subst (Collected (v ∷ vs)) e (record {
  texts_are = rw (e1, c.texts_are) refl;
  as_many = ap suc c.as_many;
  well_named = (check_name-IsName n e2, c.well_named);
  all_text = ((n, e1), c.all_text);
})

collect_names-Collected :
    (i : ℕ) (list : List Value) (seen : Seen) → collect_names i list ≡ ok seen → Collected list seen
unfolding collect_names refuse_some
collect_names-Collected i [] seen e =
    let empty : [] ≡ seen = ground arith in
    subst (Collected []) empty
      (record { texts_are = unfold texts in refl; as_many = refl; well_named = tt; all_text = tt })
collect_names-Collected i (v ∷ vs) seen e = elim (Option-cases (as_text v)) [
  | inl missing ↦ absurd (ground arith)
  | inr (n, e1) ↦ elim (Option-cases (check_name n)) [
    | inr (what, bad) ↦ absurd (ground arith)
    | inl fine ↦ elim (Result-cases (collect_names (suc i) vs)) [
      | inr (x, bad) ↦ absurd (ground arith)
      | inl (seen', later) ↦
          collect_names-step i v vs n seen seen' e1 fine
            (collect_names-Collected (suc i) vs seen' later) (ground arith)
    ]
  ]
]

texts_differ :
    (a : ℕ × List ℕ) (s : Seen)
    → All (λ b. bytes_eq a.1 b.1 ≡ false) s
    → All (λ t. a.1 ≢ t) (map text_of s)
texts_differ a [] h = tt
texts_differ a (b ∷ s) (h, hs) = (λ same. absurd (is_not same), texts_differ a s hs)
  where
    is_not : a.1 ≡ b.1 → ⊥
    is_not same = let equal : bytes_eq a.1 b.1 ≡ true = rw same (bytes_eq_refl b.1) in cc

pub texts-distinct :
    (s : Seen) → AllPairs (λ a b. bytes_eq a.1 b.1 ≡ false) s → AllPairs ◌≢◌ (map text_of s)
texts-distinct [] h = tt
texts-distinct (a ∷ s) (h, hs) = (texts_differ a s h, texts-distinct s hs)

-- The texts of a checked name table.
record IsTable (list : List Value) : Type 0 where
  count : length (texts list) ≡ length list
  bounded : length list ≤ max_names
  well_named : All IsName (texts list)
  distinct : AllPairs ◌≢◌ (texts list)
  all_text : All (λ v. (t : List ℕ) × (as_text v ≡ some t)) list

check_names-IsTable : (list : List Value) → check_names list ≡ ok tt → IsTable list
unfolding check_names
check_names-IsTable list e = elim (Result-cases (collect_names 0 list)) [
  | inr (x, bad) ↦ absurd (ground arith)
  | inl (seen, collected) ↦
      let c = collect_names-Collected 0 list seen collected in
      let unique = refuse_repeated-distinct "`names` contains a duplicate" seen (ground arith) in
      record {
        count = rw c.texts_are c.as_many;
        bounded = ground arith;
        well_named = rw c.texts_are c.well_named;
        distinct = rw c.texts_are (texts-distinct seen unique);
        all_text = c.all_text;
      }
]

names-are :
    (m : Manifest) (list : List Value)
    → get_array names_key m.value ≡ some list
    → names m ≡ texts list
unfolding names
names-are m list e = ground arith

check_schema-IsTable :
    (m : Manifest)
    → check_schema m.value ≡ ok tt
    → (list : List Value) × (get_array names_key m.value ≡ some list) × IsTable list
check_schema-IsTable m e =
    let c = check_schema-IsChecked m.value e in
    (c.names, c.names_are, check_names-IsTable c.names c.names_checked)

-- A decoded manifest has a schema version of at least 1 and an identifier of the documented shape; its
-- name table has at most 65,536 entries, each of them a legal file name, and no two the same.
pub decode-names :
    (b : List ℕ) (m : Manifest)
    → decode b ≡ ok m
    → (1 ≤ spec m)
      × IsId (id m)
      × (length (names m) ≤ 65_536)
      × All IsName (names m)
      × AllPairs ◌≢◌ (names m)
decode-names b m e =
    let (read, checked) = decode-eq-ok b m e in
    let c = check_schema-IsChecked m.value checked in
    let t = check_names-IsTable c.names c.names_checked in
    let names_are = names-are m c.names c.names_are in
    (
      unfold spec in rw c.spec_is c.spec_from_1,
      unfold id in rw c.id_is (check_id-IsId c.id c.id_checked),
      rw (names_are, t.count) t.bounded,
      rw names_are t.well_named,
      rw names_are t.distinct,
    )

item_at-text :
    (list : List Value)
    → All (λ v. (t : List ℕ) × (as_text v ≡ some t)) list
    → (i : ℕ) → i < length list
    → (t : List ℕ) × (and_then (item_at i list) as_text ≡ some t)
unfolding item_at
item_at-text [] h i lt = absurd (omega arith)
item_at-text (v ∷ vs) h zero lt = h.0
item_at-text (v ∷ vs) h (suc i) lt = item_at-text vs h.1 i (omega arith)

-- In a decoded manifest every `name_id` below the size of the name table has a name.
pub name_of-within :
    (b : List ℕ) (m : Manifest)
    → decode b ≡ ok m
    → (i : ℕ) → i < length (names m)
    → (t : List ℕ) × (name_of i m ≡ some t)
name_of-within b m e i lt =
    let (list, list_is, table) = check_schema-IsTable m (decode-eq-ok b m e).1 in
    let within : i < length list = rw (← table.count, ← names-are m list list_is) lt in
    unfold name_of in rw list_is (item_at-text list table.all_text i within)
