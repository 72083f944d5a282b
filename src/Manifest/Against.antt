-- ===== src/Manifest/Against.antt =====
-- `Manifest::validate_against` of ctf-format/crates/ctf-format/src/manifest.rs: the manifest and the
-- section table must tell the same. A `BTreeSet` is the list of what was inserted, and a `BTreeMap` an
-- association list of which the last entry of a key counts.
use sidequests.Common.{
  ℕ, String, List, [], ◌∷◌, map, Bool, true, false, not, ◌||◌, Option, none, some, length, leb,
  ◌==◌, if◌then◌else◌,
}
use sidequests.Error.{Result, ok, err, ◌>>=◌, ◌>>◌, refuse_if}
use sidequests.Wire.{bytes_eq}
use sidequests.Kinds.{is_external}
use sidequests.Section.{SectionRecord}
use sidequests.Cbor.{Value}
use sidequests.Cbor.Access.{as_uint}
use sidequests.Manifest.Keys.{paths_key, external_key}
use sidequests.Manifest.Decode.{Manifest, External, get_map, at_name, parse_external}
use sidequests.Manifest.Readers.{names, unwrap_or}

-- `BTreeSet::contains`
unfoldable pub is_in : ℕ → List ℕ → Bool
is_in id [] = false
is_in id (x ∷ xs) = x == id || is_in id xs

-- The first loop: every `name_id` has an entry in the name table of `count` names.
unfoldable pub check_named : (count : ℕ) → List SectionRecord → Result (Unit {0})
check_named count [] = ok tt
check_named count (r ∷ rest) = do
  refuse_if (leb count r.name_id)
      (at_name "a section's name_id is past the end of the manifest name table" r.name_id)
  check_named count rest

unfoldable pub section_ids : List SectionRecord → List ℕ
section_ids = map (λ r. r.name_id)

-- `k.as_uint().unwrap_or(u64::MAX)`
unfoldable pub id_of_key : Value → ℕ
id_of_key k = unwrap_or 0xffff_ffff_ffff_ffff (as_uint k)

-- Every key of a map names one of the sections.
unfoldable pub check_covered : (what : String) → List ℕ → List (Value × Value) → Result (Unit {0})
unfolding id_of_key is_in
check_covered what ids [] = ok tt
check_covered what ids ((k, v) ∷ rest) = do
  refuse_if (not (is_in (id_of_key k) ids)) (at_name what (id_of_key k))
  check_covered what ids rest

-- `filter_map(|(k, v)| k.as_uint().map(|id| (id, v))).collect()`
unfoldable pub declare : Option ℕ → Value → List (ℕ × Value) → List (ℕ × Value)
declare none v ds = ds
declare (some id) v ds = (id, v) ∷ ds

unfoldable pub declared : List (Value × Value) → List (ℕ × Value)
unfolding declare
declared [] = []
declared ((k, v) ∷ rest) = declare (as_uint k) v (declared rest)

unfoldable pub or_here : Option Value → (here : Bool) → Value → Option Value
or_here (some later) here v = some later
or_here none true v = some v
or_here none false v = none

-- `BTreeMap::get`
unfoldable pub lookup : ℕ → List (ℕ × Value) → Option Value
unfolding or_here
lookup id [] = none
lookup id ((k, v) ∷ rest) = or_here (lookup id rest) (k == id) v

unfoldable pub external_ids : List SectionRecord → List ℕ
external_ids [] = []
external_ids (r ∷ rest) =
    let others = external_ids rest in if is_external r.flags then r.name_id ∷ others else others

unfoldable pub disagrees : External → SectionRecord → Bool
disagrees ext r = not (ext.size == r.len_plain) || not (bytes_eq ext.root r.root)

-- A section's flag against what is declared for it.
unfoldable pub check_declared : SectionRecord → Bool → Option Value → Result (Unit {0})
unfolding disagrees
check_declared r true none =
    err (at_name "an EXTERNAL section has no entry in the manifest's `external` map" r.name_id)
check_declared r false (some v) =
    err (
      at_name "the manifest declares external metadata for a section that is not EXTERNAL"
        r.name_id)
check_declared r false none = ok tt
check_declared r true (some v) = do
  ext ← parse_external v r.name_id
  refuse_if (disagrees ext r)
      (at_name "external metadata disagrees with the section record" r.name_id)

unfoldable pub check_externals : List (ℕ × Value) → List SectionRecord → Result (Unit {0})
unfolding check_declared lookup
check_externals ds [] = ok tt
check_externals ds (r ∷ rest) = do
  check_declared r (is_external r.flags) (lookup r.name_id ds)
  check_externals ds rest

unfoldable pub validate_against : Manifest → List SectionRecord → Result (Unit {0})
unfolding check_named check_covered section_ids external_ids declared check_externals
validate_against m records = do
  check_named (length (names m)) records
  check_covered "the manifest's `paths` map names a section that does not exist"
      (section_ids records) (unwrap_or [] (get_map paths_key m.value))
  let entries = unwrap_or [] (get_map external_key m.value)
  check_externals (declared entries) records
  check_covered "the manifest's `external` map names a section that does not exist"
      (external_ids records) entries
