-- ===== src/Layout/Names.antt =====
-- In an accepted layout the section names are distinct, and one section is the manifest.
use sidequests.Common.{
  ℕ, ◌<◌, ◌≡◌, ◌≢◌, sym, List, [], ◌∷◌, map, true, false, none, arith, All, leb,
}
use sidequests.Common.Sort.{AllPairs, IsSorted, sort, AllPairs-sort, sort_sorts}
use sidequests.Error.{ok}
use sidequests.Header.{Header}
use sidequests.Section.{SectionRecord}
use sidequests.Layout.{first_repeat, check_names, validate_layout, count_manifests}
use sidequests.Layout.Accepted.{validate_layout-Accepted}

abbrev StartsAbove : ℕ → List ℕ → Type 0
StartsAbove x [] = Unit
StartsAbove x (y ∷ ys) = x < y

All-above : (x : ℕ) (ys : List ℕ) → IsSorted leb ys → StartsAbove x ys → All (λ y. x ≢ y) ys
All-above x [] s h = tt
All-above x (y ∷ []) s h = (omega arith, tt)
All-above x (y ∷ (z ∷ zs)) s h = (omega arith, All-above x (z ∷ zs) s.1 (ground arith))

first_repeat-distinct : (xs : List ℕ) → first_repeat xs ≡ none → IsSorted leb xs → AllPairs ◌≢◌ xs
unfolding first_repeat
first_repeat-distinct [] e s = tt
first_repeat-distinct (x ∷ []) e s = (tt, tt)
first_repeat-distinct (x ∷ (y ∷ ys)) e s =
    (All-above x (y ∷ ys) s.1 (ground arith), first_repeat-distinct (y ∷ ys) (ground arith) s.1)

leb_total : (a b : ℕ) → leb a b ≡ false → leb b a ≡ true
leb_total a b h = ground arith

check_names-distinct :
    (records : List SectionRecord)
    → check_names records ≡ ok tt
    → AllPairs ◌≢◌ (map (λ r. r.name_id) records)
unfolding check_names
check_names-distinct records e =
    let names : List ℕ = map (λ (r : SectionRecord). r.name_id) records in
    AllPairs-sort leb ◌≢◌ (λ a b h k. h (sym k)) names
      (first_repeat-distinct (sort leb names) (ground arith) (sort_sorts leb leb_total names))

-- No two sections of an accepted layout have the same `name_id`, and exactly one is the manifest.
pub validate_layout-names :
    (records : List SectionRecord) (header : Header) (file : List ℕ)
    → validate_layout records header file ≡ ok tt
    → AllPairs ◌≢◌ (map (λ r. r.name_id) records) × (count_manifests records ≡ 1)
validate_layout-names records header file e =
    let a = validate_layout-Accepted records header file e in
    (check_names-distinct records a.names, a.one_manifest)
