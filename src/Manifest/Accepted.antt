-- ===== src/Manifest/Accepted.antt =====
-- What the schema checks of `Manifest::decode` guarantee of the value.
use sidequests.Common.{ℕ, ◌≤◌, ◌≡◌, inl, inr, List, some, Option-cases, arith}
use sidequests.Error.{ok, Result-cases}
use sidequests.Cbor.{Value}
use sidequests.Cbor
use sidequests.Cbor.Access.{get, as_map}
use sidequests.Manifest.Keys.{
  spec_key, crit_key, id_key, name_key, names_key, paths_key, external_key,
}
use sidequests.Manifest.Shape.{check_id}
use sidequests.Manifest.Decode.{
  Manifest, get_uint, get_text, get_array, check_names, check_paths, check_crit, check_external,
  if_given, check_schema, decode,
}

-- The parts of an accepted value, with the check that each of them passed.
pub record IsChecked (v : Value) : Type 0 where
  pub entries : List (Value × Value)
  pub entries_are : as_map v ≡ some entries
  pub spec : ℕ
  pub spec_is : get_uint spec_key v ≡ some spec
  pub spec_from_1 : 1 ≤ spec
  pub crit_checked : if_given (get crit_key v) (check_crit v) ≡ ok tt
  pub id : List ℕ
  pub id_is : get_text id_key v ≡ some id
  pub id_checked : check_id id ≡ ok tt
  pub name : List ℕ
  pub name_is : get_text name_key v ≡ some name
  pub names : List Value
  pub names_are : get_array names_key v ≡ some names
  pub names_checked : check_names names ≡ ok tt
  pub paths_checked : if_given (get paths_key v) check_paths ≡ ok tt
  pub external_checked : if_given (get external_key v) check_external ≡ ok tt

pub check_schema-IsChecked : (v : Value) → check_schema v ≡ ok tt → IsChecked v
unfolding check_schema
check_schema-IsChecked v e = elim (Option-cases (as_map v)) [
  | inl none_1 ↦ absurd (ground arith)
  | inr (entries, e1) ↦ elim (Option-cases (get_uint spec_key v)) [
    | inl none_2 ↦ absurd (ground arith)
    | inr (spec, e2) ↦ elim (Option-cases (get_text id_key v)) [
      | inl none_3 ↦ absurd (ground arith)
      | inr (id, e3) ↦ elim (Option-cases (get_text name_key v)) [
        | inl none_4 ↦ absurd (ground arith)
        | inr (name, e4) ↦ elim (Option-cases (get_array names_key v)) [
          | inl none_5 ↦ absurd (ground arith)
          | inr (names, e5) ↦ record {
            entries = entries;
            entries_are = e1;
            spec = spec;
            spec_is = e2;
            spec_from_1 = ground arith;
            crit_checked = ground arith;
            id = id;
            id_is = e3;
            id_checked = ground arith;
            name = name;
            name_is = e4;
            names = names;
            names_are = e5;
            names_checked = ground arith;
            paths_checked = ground arith;
            external_checked = ground arith;
          }
        ]
      ]
    ]
  ]
]

pub decode-eq-ok :
    (b : List ℕ) (m : Manifest)
    → decode b ≡ ok m
    → (Cbor.decode b ≡ ok m.value) × (check_schema m.value ≡ ok tt)
unfolding decode
decode-eq-ok b m e = elim (Result-cases (Cbor.decode b)) [
  | inl (v, read) ↦ elim (Result-cases (check_schema v)) [
    | inl (u, checked) ↦ let same : v ≡ m.value = ground arith in rw (← same) (read, checked)
    | inr (x, bad) ↦ absurd (ground arith)
  ]
  | inr (x, bad) ↦ absurd (ground arith)
]
