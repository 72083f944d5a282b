-- ===== src/Manifest/Readers.antt =====
-- The readers of a decoded manifest, `build` and `minimal`, of
-- ctf-format/crates/ctf-format/src/manifest.rs.
use sidequests.Common.{ℕ, zero, suc, List, [], ◌∷◌, Bool, Option, none, some, ◌==◌, if◌then◌else◌}
use sidequests.Error.{Result, ok, err, ◌>>=◌}
use sidequests.Cbor.{Value, Values, Entries, uint, text, array, map, nil, cons, end, entry}
use sidequests.Cbor
use sidequests.Cbor.Access.{and_then, get, as_uint, as_text}
use sidequests.Manifest.Keys.{
  spec_key, id_key, name_key, names_key, version_key, category_key, description_key, paths_key,
  external_key, declaration_keys, manifest_spec,
}
use sidequests.Manifest.Decode.{
  Manifest, External, get_uint, get_text, get_array, get_map, is_among, parse_external, decode,
}

-- `unwrap_or`
abbrev pub unwrap_or {ℓ} : {A : Type ℓ} → A → Option A → A
unwrap_or fallback none = fallback
unwrap_or fallback (some a) = a

unfoldable pub spec : Manifest → ℕ
spec m = unwrap_or 0 (get_uint spec_key m.value)

unfoldable pub declaration : List ℕ → Manifest → Option Value
declaration key m = if is_among key declaration_keys then get key m.value else none

unfoldable pub id : Manifest → List ℕ
id m = unwrap_or [] (get_text id_key m.value)

unfoldable pub name : Manifest → List ℕ
name m = unwrap_or [] (get_text name_key m.value)

unfoldable pub version : Manifest → ℕ
version m = unwrap_or 0 (get_uint version_key m.value)

unfoldable pub category : Manifest → Option (List ℕ)
category m = get_text category_key m.value

unfoldable pub description : Manifest → Option (List ℕ)
description m = get_text description_key m.value

abbrev pub onto_some {ℓ} : {A : Type ℓ} → Option A → List A → List A
onto_some none xs = xs
onto_some (some a) xs = a ∷ xs

-- `filter_map(Value::as_text).collect()`
unfoldable pub texts : List Value → List (List ℕ)
texts [] = []
texts (v ∷ vs) = onto_some (as_text v) (texts vs)

unfoldable pub names : Manifest → List (List ℕ)
unfolding texts
names m = elim (get_array names_key m.value) [ none ↦ [] | some a ↦ texts a ]

-- `get(i)` of a slice.
unfoldable pub item_at {ℓ} : {A : Type ℓ} → ℕ → List A → Option A
item_at i [] = none
item_at zero (x ∷ xs) = some x
item_at (suc i) (x ∷ xs) = item_at i xs

unfoldable pub name_of : ℕ → Manifest → Option (List ℕ)
unfolding item_at
name_of name_id m =
    and_then (and_then (get_array names_key m.value) (λ a. item_at name_id a)) as_text

-- `k.as_uint() == Some(id)`
unfoldable pub is_id : ℕ → Option ℕ → Bool
is_id id none = Bool.false
is_id id (some k) = k == id

unfoldable pub find_id : ℕ → List (Value × Value) → Option Value
unfolding is_id
find_id id [] = none
find_id id ((k, v) ∷ rest) =
    let later = find_id id rest in if is_id id (as_uint k) then some v else later

unfoldable pub path_of : ℕ → Manifest → Option (List ℕ)
unfolding find_id
path_of name_id m =
    and_then (and_then (get_map paths_key m.value) (λ entries. find_id name_id entries)) as_text

-- `Result::ok`
abbrev pub to_option {ℓ} : {A : Type ℓ} → Result A → Option A
to_option (ok a) = some a
to_option (err e) = none

unfoldable pub external : ℕ → Manifest → Option External
unfolding find_id
external name_id m =
    and_then (and_then (get_map external_key m.value) (λ entries. find_id name_id entries))
      λ v. to_option (parse_external v name_id)

unfoldable pub text_values : List (List ℕ) → Values
text_values [] = nil
text_values (n ∷ ns) = cons (text n) (text_values ns)

unfoldable pub build : (id name : List ℕ) → List (List ℕ) → Entries → Result Manifest
unfolding text_values
build id name names extra = do
  b ← Cbor.encode (
      map (
        entry (text spec_key) (uint manifest_spec) (
          entry (text id_key) (text id) (
            entry (text name_key) (text name)
              (entry (text names_key) (array (text_values names)) extra)))))
  decode b

unfoldable pub minimal : (id name : List ℕ) → List (List ℕ) → Result Manifest
minimal id name names = build id name names end
