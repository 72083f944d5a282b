-- ===== src/Manifest/Agreement.antt =====
-- The checks that `validate_against` has made of a manifest it accepts, one by one.
use sidequests.Common.{
  ℕ, String, ◌<◌, ◌≡◌, refl, List, [], ◌∷◌, All, length, true, false, Option, none, some,
  Option-cases, inl, inr, Bool-cases, ◌==◌, ==→eq, arith,
}
use sidequests.Common.Sort.{Any}
use sidequests.Error.{ok, then-ok, Result-cases}
use sidequests.Wire.{bytes_eq→eq}
use sidequests.Kinds.{is_external}
use sidequests.Section.{SectionRecord}
use sidequests.Cbor.{Value}
use sidequests.Cbor.Access.{and_then, as_uint}
use sidequests.Manifest.Keys.{paths_key, external_key}
use sidequests.Manifest.Decode.{Manifest, External, get_map, parse_external}
use sidequests.Manifest.Readers.{names, external, find_id, is_id, unwrap_or, to_option}
use sidequests.Manifest.Against.{
  is_in, check_named, section_ids, id_of_key, check_covered, declared, lookup, external_ids,
  disagrees, check_declared, check_externals, validate_against,
}

abbrev pub Entry : Type 0
Entry = Value × Value

abbrev pub entries_of : List ℕ → Manifest → List Entry
entries_of key m = unwrap_or [] (get_map key m.value)

pub record Agreed (m : Manifest) (records : List SectionRecord) : Type 0 where
  pub named : check_named (length (names m)) records ≡ ok tt
  pub what_paths : String
  pub paths_covered :
      check_covered what_paths (section_ids records) (entries_of paths_key m) ≡ ok tt
  pub declared_ok : check_externals (declared (entries_of external_key m)) records ≡ ok tt
  pub what_external : String
  pub external_covered :
      check_covered what_external (external_ids records) (entries_of external_key m) ≡ ok tt

pub validate_against-Agreed :
    (m : Manifest) (records : List SectionRecord)
    → validate_against m records ≡ ok tt
    → Agreed m records
unfolding validate_against
validate_against-Agreed m records e =
    let (named, e1) = then-ok _ _ tt e in
    let (paths, e2) = then-ok _ _ tt e1 in
    let (externals, covered) = then-ok _ _ tt e2 in
    record {
      named = named;
      what_paths = _;
      paths_covered = paths;
      declared_ok = externals;
      what_external = _;
      external_covered = covered;
    }

pub check_named-All :
    (count : ℕ) (records : List SectionRecord)
    → check_named count records ≡ ok tt
    → All (λ r. r.name_id < count) records
unfolding check_named
check_named-All count [] e = tt
check_named-All count (r ∷ rest) e = (ground arith, check_named-All count rest (ground arith))

is_id-eq : (i : ℕ) (o : Option ℕ) → is_id i o ≡ true → o ≡ some i
unfolding is_id
is_id-eq i none e = cc
is_id-eq i (some k) e = rw (==→eq k i e) refl

pub check_covered-found :
    (what : String) (ids : List ℕ) (l : List Entry) (i : ℕ) (v : Value)
    → check_covered what ids l ≡ ok tt
    → find_id i l ≡ some v
    → is_in i ids ≡ true
unfolding check_covered find_id
check_covered-found what ids [] i v e found = cc
check_covered-found what ids ((k, w) ∷ rest) i v e found = elim (Bool-cases (is_id i (as_uint k))) [
  | inl here ↦
      let key_is : as_uint k ≡ some i = is_id-eq i (as_uint k) here in
      let id_is : id_of_key k ≡ i = unfold id_of_key in rw key_is refl in
      let known : is_in (id_of_key k) ids ≡ true = ground arith in rw id_is at known
  | inr later ↦ check_covered-found what ids rest i v (ground arith) (ground arith)
]

pub is_in-section :
    (records : List SectionRecord) (i : ℕ)
    → is_in i (section_ids records) ≡ true
    → Any (λ r. r.name_id ≡ i) records
unfolding section_ids is_in
is_in-section [] i e = cc
is_in-section (r ∷ rest) i e = elim (Bool-cases (r.name_id == i)) [
  | inl here ↦ inl (==→eq r.name_id i here)
  | inr later ↦ inr (is_in-section rest i (ground arith))
]

pub is_in-external :
    (records : List SectionRecord) (i : ℕ)
    → is_in i (external_ids records) ≡ true
    → Any (λ r. (r.name_id ≡ i) × (is_external r.flags ≡ true)) records
unfolding external_ids is_in
is_in-external [] i e = cc
is_in-external (r ∷ rest) i e = elim (Bool-cases (is_external r.flags)) [
  | inr inline ↦ inr (is_in-external rest i (rw inline at e))
  | inl outside ↦ elim (Bool-cases (r.name_id == i)) [
    | inl here ↦ inl (==→eq r.name_id i here, outside)
    | inr later ↦ let e' = rw (outside, later) at e in inr (is_in-external rest i e')
  ]
]

pub check_externals-All :
    (ds : List (ℕ × Value)) (records : List SectionRecord)
    → check_externals ds records ≡ ok tt
    → All (λ r. check_declared r (is_external r.flags) (lookup r.name_id ds) ≡ ok tt) records
unfolding check_externals
check_externals-All ds [] e = tt
check_externals-All ds (r ∷ rest) e =
    let (first, later) = then-ok _ _ tt e in (first, check_externals-All ds rest later)

pub external-find_id :
    (i : ℕ) (m : Manifest)
    → external i m
      ≡ and_then (find_id i (entries_of external_key m)) (λ v. to_option (parse_external v i))
unfolding external
external-find_id i m = elim (Option-cases (get_map external_key m.value)) [
  | inl missing ↦ unfold find_id in rw missing refl
  | inr (l, given) ↦ rw given refl
]

-- What an EXTERNAL section's record and its metadata agree on.
abbrev pub MirrorsAgree : Manifest → SectionRecord → Type 0
MirrorsAgree m r =
    (ext : External) × (external r.name_id m ≡ some ext)
    × (ext.size ≡ r.len_plain)
    × (ext.root ≡ r.root)

pub check_declared-external :
    (r : SectionRecord) (o : Option Value)
    → check_declared r true o ≡ ok tt
    → (ext : External) × (and_then o (λ v. to_option (parse_external v r.name_id)) ≡ some ext)
      × (ext.size ≡ r.len_plain)
      × (ext.root ≡ r.root)
unfolding check_declared
check_declared-external r none e = absurd (cc)
check_declared-external r (some v) e = elim (Result-cases (parse_external v r.name_id)) [
  | inr (x, bad) ↦ absurd (ground arith)
  | inl (ext, parsed) ↦
      let agree : disagrees ext r ≡ false = ground arith in
      (
        ext,
        rw parsed refl,
        unfold disagrees in ==→eq ext.size r.len_plain (ground arith),
        unfold disagrees in bytes_eq→eq ext.root r.root (ground arith),
      )
]

pub check_declared-inline :
    (r : SectionRecord) (o : Option Value) → check_declared r false o ≡ ok tt → o ≡ none
unfolding check_declared
check_declared-inline r none e = refl
check_declared-inline r (some v) e = absurd (cc)
