-- ===== src/Manifest/Agrees.antt =====
-- A manifest that `validate_against` accepts for a section table tells the same as the table.
use sidequests.Common.{
  ℕ, ◌<◌, ◌≡◌, refl, List, [], ◌∷◌, All, length, true, false, Option, none, some, Option-cases, inl,
  inr, arith,
}
use sidequests.Common.Sort.{Any}
use sidequests.Error.{ok}
use sidequests.Wire.{IsByte}
use sidequests.Kinds.{is_external}
use sidequests.Section.{SectionRecord}
use sidequests.Cbor.{Value}
use sidequests.Cbor.Access.{and_then, as_text}
use sidequests.Manifest.Keys.{paths_key, external_key}
use sidequests.Manifest.Decode.{Manifest, External, get_map, parse_external, decode}
use sidequests.Manifest.Readers.{names, name_of, path_of, external, find_id, to_option}
use sidequests.Manifest.Against.{
  declared, lookup, check_declared, section_ids, external_ids, validate_against,
}
use sidequests.Manifest.Accepted.{decode-eq-ok}
use sidequests.Manifest.NameTable.{name_of-within}
use sidequests.Manifest.Lookup.{lookup-find_id, get_map-UniqueKeys}
use sidequests.Manifest.Agreement.{
  Entry, entries_of, validate_against-Agreed, check_named-All, check_covered-found, is_in-section,
  is_in-external, check_externals-All, external-find_id, MirrorsAgree, check_declared-external,
  check_declared-inline,
}

lookup-entries :
    (b : List ℕ) (m : Manifest) (i : ℕ)
    → All IsByte b
    → decode b ≡ ok m
    → lookup i (declared (entries_of external_key m)) ≡ find_id i (entries_of external_key m)
lookup-entries b m i b_bytes e = elim (Option-cases (get_map external_key m.value)) [
  | inl missing ↦ rw missing (unfold lookup declared find_id in refl)
  | inr (l, given) ↦
      let (es, l_is, unique) =
        get_map-UniqueKeys b m.value external_key l b_bytes (decode-eq-ok b m e).0 given in
      rw (given, l_is) (lookup-find_id i es unique)
]

-- A record and the manifest agree: the section has a name; an EXTERNAL section has mirrors, of the
-- record's size and root; and no other section has any.
pub record Agrees (m : Manifest) (r : SectionRecord) : Type 0 where
  pub named : (t : List ℕ) × (name_of r.name_id m ≡ some t)
  pub mirrored : is_external r.flags ≡ true → MirrorsAgree m r
  pub unmirrored : is_external r.flags ≡ false → external r.name_id m ≡ none

mirrors-agree :
    (m : Manifest) (r : SectionRecord) (o : Option Value)
    → external r.name_id m ≡ and_then o (λ v. to_option (parse_external v r.name_id))
    → check_declared r (is_external r.flags) o ≡ ok tt
    → is_external r.flags ≡ true
    → MirrorsAgree m r
mirrors-agree m r o reads checked outside =
    let (ext, found, size, root) = check_declared-external r o (rw outside at checked) in
    (ext, rw reads found, size, root)

no_mirrors :
    (m : Manifest) (r : SectionRecord) (o : Option Value)
    → external r.name_id m ≡ and_then o (λ v. to_option (parse_external v r.name_id))
    → check_declared r (is_external r.flags) o ≡ ok tt
    → is_external r.flags ≡ false
    → external r.name_id m ≡ none
no_mirrors m r o reads checked inline =
    let nothing = check_declared-inline r o (rw inline at checked) in rw (reads, nothing) refl

All-Agrees :
    (b : List ℕ) (m : Manifest) (records : List SectionRecord)
    → All IsByte b
    → decode b ≡ ok m
    → All (λ r. r.name_id < length (names m)) records
    → All
        (λ r.
          check_declared r
            (is_external r.flags)
            (lookup r.name_id (declared (entries_of external_key m)))
          ≡ ok tt)
        records
    → All (Agrees m) records
All-Agrees b m [] b_bytes e h k = tt
All-Agrees b m (r ∷ rest) b_bytes e (h, hs) (k, ks) =
    let o = find_id r.name_id (entries_of external_key m) in
    let reads = external-find_id r.name_id m in
    let checked : check_declared r (is_external r.flags) o ≡ ok tt =
      rw (lookup-entries b m r.name_id b_bytes e) at k in
    (
      record {
        named = name_of-within b m e r.name_id h;
        mirrored = mirrors-agree m r o reads checked;
        unmirrored = no_mirrors m r o reads checked;
      },
      All-Agrees b m rest b_bytes e hs ks,
    )

-- Where `validate_against` accepts a decoded manifest for a section table, every section has a name,
-- every EXTERNAL section has mirrors whose size and root are the record's, and no other section has
-- mirrors.
pub validate_against-Agrees :
    (b : List ℕ) (m : Manifest) (records : List SectionRecord)
    → All IsByte b
    → decode b ≡ ok m
    → validate_against m records ≡ ok tt
    → All (Agrees m) records
validate_against-Agrees b m records b_bytes e accepted =
    let a = validate_against-Agreed m records accepted in
    All-Agrees b m records b_bytes e (check_named-All (length (names m)) records a.named)
      (check_externals-All (declared (entries_of external_key m)) records a.declared_ok)

find-entries :
    (m : Manifest) (key : List ℕ) (o : Option (List Entry)) (i : ℕ) {A : Type 0}
    (f : Value → Option A) (a : A)
    → get_map key m.value ≡ o
    → and_then (and_then o (λ l. find_id i l)) f ≡ some a
    → (v : Value) × (find_id i (entries_of key m) ≡ some v)
find-entries m key none i f a e given = absurd (cc)
find-entries m key (some l) i f a e given = elim (Option-cases (find_id i l)) [
  | inl missing ↦ absurd (ground arith)
  | inr (v, found) ↦ (v, rw e found)
]

-- Where `validate_against` accepts a manifest for a section table, every section to which the manifest
-- gives a path is in the table, and every section to which it gives mirrors is an EXTERNAL one there.
validate_against-covered :
    (m : Manifest) (records : List SectionRecord)
    → validate_against m records ≡ ok tt
    → ((i : ℕ) (p : List ℕ) → path_of i m ≡ some p → Any (λ r. r.name_id ≡ i) records)
      × ((i : ℕ) (ext : External)
          → external i m ≡ some ext
          → Any (λ r. (r.name_id ≡ i) × (is_external r.flags ≡ true)) records)
unfolding path_of external
validate_against-covered m records accepted =
    let a = validate_against-Agreed m records accepted in
    (
      λ i p given.
          (let (v, found) =
              find-entries m paths_key (get_map paths_key m.value) i as_text p refl given in
            is_in-section records i (
              check_covered-found a.what_paths (section_ids records) (entries_of paths_key m) i v
                a.paths_covered found)),
      λ i ext given.
          (let (v, found) =
              find-entries m external_key (get_map external_key m.value) i
                (λ v. to_option (parse_external v i)) ext refl given in
            is_in-external records i (
              check_covered-found a.what_external (external_ids records) (entries_of external_key m)
                i v a.external_covered found)),
    )
