-- ===== src/Manifest/Decode.antt =====
-- `Manifest::decode`, `encode` and the readers of ctf-format/crates/ctf-format/src/manifest.rs.
use sidequests.Common.{
  ℕ, suc, String, List, [], ◌∷◌, Bool, false, not, ◌||◌, Option, none, some, length, ltb, ◌==◌,
  if◌then◌else◌,
}
use sidequests.Common.Sort.{sort}
use sidequests.Error.{
  Error, Result, ok, err, ◌>>=◌, ◌>>◌, refuse_if, ok_or, manifest, manifest_entry,
}
use sidequests.Wire.{bytes_eq}
use sidequests.Footer.{root_len}
use sidequests.Cbor.{Value, bytes_lt}
use sidequests.Cbor
use sidequests.Cbor.Access.{and_then, is_none, get, as_uint, as_text, as_bytes, as_array, as_map}
use sidequests.Manifest.Keys.{
  spec_key, crit_key, id_key, name_key, category_key, description_key, version_key, names_key,
  paths_key, external_key, size_key, root_key, mirrors_key, known_keys, max_names, max_mirror_len,
}
use sidequests.Manifest.Shape.{check_id, check_name, check_path}

pub record Manifest : Type 0 where
  pub value : Value

pub record External : Type 0 where
  pub size : ℕ
  pub root : List ℕ
  pub mirrors : List (List ℕ)

-- An error of an item of a list, of one of a map, and of both.
abbrev pub at_index : String → ℕ → Error
at_index what i = manifest_entry what (some i) none

abbrev pub at_name : String → ℕ → Error
at_name what id = manifest_entry what none (some id)

abbrev pub at_both : String → (index id : ℕ) → Error
at_both what i id = manifest_entry what (some i) (some id)

-- `value.get(key).and_then(Value::as_…)`
unfoldable pub get_uint : List ℕ → Value → Option ℕ
get_uint key v = and_then (get key v) as_uint

unfoldable pub get_text : List ℕ → Value → Option (List ℕ)
get_text key v = and_then (get key v) as_text

unfoldable pub get_array : List ℕ → Value → Option (List Value)
get_array key v = and_then (get key v) as_array

unfoldable pub get_map : List ℕ → Value → Option (List (Value × Value))
get_map key v = and_then (get key v) as_map

-- `<[u8; ROOT_LEN]>::try_from`
unfoldable pub as_root : List ℕ → Option (List ℕ)
as_root b = if length b == root_len then some b else none

unfoldable pub get_root : Value → Option (List ℕ)
unfolding as_root
get_root v = and_then (and_then (get root_key v) as_bytes) as_root

unfoldable pub parse_mirrors : (name_id index : ℕ) → List Value → Result (List (List ℕ))
parse_mirrors name_id index [] = ok []
parse_mirrors name_id index (m ∷ rest) = do
  s ← ok_or (as_text m) (at_both "an `external` `mirrors` entry is not text" index name_id)
  refuse_if (length s == 0 || ltb max_mirror_len (length s))
      (at_both "an `external` mirror URL is empty or too long" index name_id)
  mirrors ← parse_mirrors name_id (suc index) rest
  ok (s ∷ mirrors)

unfoldable pub parse_external : Value → ℕ → Result External
parse_external v name_id = do
  size ←
      ok_or (get_uint size_key v)
        (at_name "an `external` entry is missing `size`, or it is not an unsigned integer" name_id)
  root ←
      ok_or (get_root v)
        (at_name "an `external` entry is missing `root`, or it is not a 32-byte string" name_id)
  list ←
      ok_or (get_array mirrors_key v)
        (at_name "an `external` entry is missing `mirrors`, or it is not an array" name_id)
  refuse_if (length list == 0) (at_name "an `external` entry has an empty `mirrors` list" name_id)
  mirrors ← parse_mirrors name_id 0 list
  ok (record { size = size; root = root; mirrors = mirrors })

unfoldable pub check_keys : List (Value × Value) → Result (Unit {0})
check_keys [] = ok tt
check_keys ((k, v) ∷ rest) = do
  refuse_if (is_none (as_text k)) (manifest "manifest map key is not text")
  check_keys rest

-- `keys.contains(&key)`
unfoldable pub is_among : List ℕ → List (List ℕ) → Bool
is_among key [] = false
is_among key (k ∷ ks) = bytes_eq k key || is_among key ks

unfoldable pub check_crit_items : Value → ℕ → List Value → Result (Unit {0})
check_crit_items value index [] = ok tt
check_crit_items value index (item ∷ rest) = do
  key ← ok_or (as_text item) (at_index "manifest `crit` entry is not text" index)
  refuse_if (not (is_among key known_keys))
      (at_index "manifest marks a key critical that this build does not implement" index)
  refuse_if (is_none (get key value))
      (at_index "manifest `crit` names a key that is not present" index)
  check_crit_items value (suc index) rest

-- A check of the value of a key, where the key is present.
unfoldable pub if_given : Option Value → (Value → Result (Unit {0})) → Result (Unit {0})
if_given none check = ok tt
if_given (some v) check = check v

unfoldable pub check_crit : Value → Value → Result (Unit {0})
unfolding check_crit_items
check_crit value crit = do
  list ← ok_or (as_array crit) (manifest "manifest `crit` is not an array")
  check_crit_items value 0 list

unfoldable pub check_optional_text : Value → Result (Unit {0})
check_optional_text v =
    refuse_if (is_none (as_text v)) (manifest "manifest `category` or `description` is not text")

unfoldable pub check_version : Value → Result (Unit {0})
check_version v =
    refuse_if (is_none (as_uint v)) (manifest "manifest `version` is not an unsigned integer")

-- `if let Some(what) = check { return Err(error(what)) }`
unfoldable pub refuse_some : Option String → (String → Error) → Result (Unit {0})
refuse_some none error = ok tt
refuse_some (some what) error = err (error what)

-- The texts of a list, each with its position.
abbrev pub Seen : Type 0
Seen = List (ℕ × List ℕ)

unfoldable pub collect_names : ℕ → List Value → Result Seen
unfolding refuse_some
collect_names index [] = ok []
collect_names index (entry ∷ rest) = do
  n ← ok_or (as_text entry) (at_index "a `names` entry is not text" index)
  refuse_some (check_name n) (λ what. at_index what index)
  seen ← collect_names (suc index) rest
  ok ((index, n) ∷ seen)

unfoldable pub collect_paths : ℕ → List (Value × Value) → Result Seen
unfolding refuse_some
collect_paths index [] = ok []
collect_paths index ((k, v) ∷ rest) = do
  id ← ok_or (as_uint k) (at_index "a `paths` key is not an unsigned integer" index)
  refuse_if (ltb 0xffff id) (at_name "a `paths` key is outside the `name_id` space" id)
  p ← ok_or (as_text v) (at_both "a `paths` value is not text" index id)
  refuse_some (check_path p) (λ what. at_both what index id)
  seen ← collect_paths (suc index) rest
  ok ((index, p) ∷ seen)

abbrev pub seen_le : ℕ × List ℕ → ℕ × List ℕ → Bool
seen_le a b = not (bytes_lt b.1 a.1)

-- `windows(2).find(…)`, and the position of the second of the two.
unfoldable pub repeated : Seen → Option ℕ
repeated [] = none
repeated (a ∷ []) = none
repeated (a ∷ (b ∷ rest)) =
    let later = repeated (b ∷ rest) in if bytes_eq a.1 b.1 then some b.0 else later

-- `sort_unstable_by` may put the later of two equal texts first; the stable order is one it may give.
unfoldable pub refuse_repeated : String → Seen → Result (Unit {0})
unfolding repeated
refuse_repeated what seen = elim (repeated (sort seen_le seen)) [
  | none ↦ ok tt
  | some i ↦ err (at_index what i)
]

unfoldable pub check_names : List Value → Result (Unit {0})
check_names names = do
  refuse_if (ltb max_names (length names))
      (manifest "manifest `names` is longer than the `name_id` space")
  seen ← collect_names 0 names
  refuse_repeated "`names` contains a duplicate" seen

unfoldable pub check_paths : Value → Result (Unit {0})
check_paths paths = do
  entries ← ok_or (as_map paths) (manifest "manifest `paths` is not a map")
  seen ← collect_paths 0 entries
  refuse_repeated "`paths` contains a duplicate" seen

unfoldable pub check_external_entries : ℕ → List (Value × Value) → Result (Unit {0})
check_external_entries index [] = ok tt
check_external_entries index ((k, v) ∷ rest) = do
  id ← ok_or (as_uint k) (at_index "an `external` key is not an unsigned integer" index)
  refuse_if (ltb 0xffff id) (at_name "an `external` key is outside the `name_id` space" id)
  ext ← parse_external v id
  check_external_entries (suc index) rest

unfoldable pub check_external : Value → Result (Unit {0})
unfolding check_external_entries
check_external external = do
  entries ← ok_or (as_map external) (manifest "manifest `external` is not a map")
  check_external_entries 0 entries

-- The schema checks of `Manifest::decode`, on the decoded value.
unfoldable pub check_schema : Value → Result (Unit {0})
check_schema value = do
  entries ← ok_or (as_map value) (manifest "manifest is not a CBOR map")
  check_keys entries
  spec ←
      ok_or (get_uint spec_key value)
        (manifest "manifest is missing `spec`, or it is not an unsigned integer")
  refuse_if (spec == 0) (manifest "manifest `spec` must be at least 1")
  if_given (get crit_key value) (check_crit value)
  id ← ok_or (get_text id_key value) (manifest "manifest is missing `id`, or it is not text")
  check_id id
  refuse_if (is_none (get_text name_key value))
      (manifest "manifest is missing `name`, or it is not text")
  if_given (get category_key value) check_optional_text
  if_given (get description_key value) check_optional_text
  if_given (get version_key value) check_version
  names ←
      ok_or (get_array names_key value)
        (manifest "manifest is missing `names`, or it is not an array")
  check_names names
  if_given (get paths_key value) check_paths
  if_given (get external_key value) check_external

unfoldable pub decode : List ℕ → Result Manifest
unfolding check_schema
decode b = do value ← Cbor.decode b; check_schema value; ok (record { value = value })

unfoldable pub encode : Manifest → Result (List ℕ)
encode m = Cbor.encode m.value
