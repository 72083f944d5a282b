-- ===== src/Manifest/Paths.antt =====
-- The extraction paths of a decoded manifest.
use sidequests.Common.{
  ℕ, suc, ◌≡◌, ◌≢◌, refl, subst, inl, inr, List, [], ◌∷◌, All, map, Bool-cases, true, false, Option,
  none, some, Option-cases, ◌==◌, ==→eq, ltb, arith,
}
use sidequests.Common.Sort.{AllPairs, Any}
use sidequests.Error.{ok, Result-cases}
use sidequests.Cbor.{Value}
use sidequests.Cbor.Access.{and_then, get, as_uint, as_text, as_map}
use sidequests.Manifest.Keys.{paths_key}
use sidequests.Manifest.Shape.{check_path}
use sidequests.Manifest.Decode.{
  Manifest, get_map, Seen, collect_paths, refuse_some, check_paths, if_given, decode,
}
use sidequests.Manifest.Readers.{is_id, find_id, path_of}
use sidequests.Manifest.Names.{IsPath, check_path-IsPath}
use sidequests.Manifest.Distinct.{text_of, refuse_repeated-distinct}
use sidequests.Manifest.NameTable.{texts-distinct}
use sidequests.Manifest.Accepted.{check_schema-IsChecked, decode-eq-ok}

-- The entries with their paths, one for one.
abbrev Listed : List (Value × Value) → Seen → Type 0
Listed [] [] = Unit
Listed ((k, v) ∷ es) (a ∷ s) =
    ((id : ℕ) × (as_uint k ≡ some id))
    × (as_text v ≡ some (text_of a))
    × IsPath (text_of a)
    × Listed es s
Listed [] (a ∷ s) = ⊥
Listed (e ∷ es) [] = ⊥

collect_paths-Listed :
    (i : ℕ) (entries : List (Value × Value)) (seen : Seen)
    → collect_paths i entries ≡ ok seen
    → Listed entries seen
unfolding collect_paths refuse_some
collect_paths-Listed i [] seen e =
    let empty : [] ≡ seen = ground arith in subst (Listed []) empty tt
collect_paths-Listed i ((k, v) ∷ es) seen e = elim (Option-cases (as_uint k)) [
  | inl missing ↦ absurd (ground arith)
  | inr (id, e1) ↦ elim (Bool-cases (ltb 0xffff id)) [
    | inl large ↦ absurd (ground arith)
    | inr small ↦ elim (Option-cases (as_text v)) [
      | inl missing ↦ absurd (ground arith)
      | inr (p, e2) ↦ elim (Option-cases (check_path p)) [
        | inr (what, bad) ↦ absurd (ground arith)
        | inl fine ↦ elim (Result-cases (collect_paths (suc i) es)) [
          | inr (x, bad) ↦ absurd (ground arith)
          | inl (seen', later) ↦
              let whole : (i, p) ∷ seen' ≡ seen = ground arith in
              subst (Listed ((k, v) ∷ es)) whole (
                (id, e1),
                e2,
                check_path-IsPath p fine,
                collect_paths-Listed (suc i) es seen' later,
              )
        ]
      ]
    ]
  ]
]

abbrev find_path : ℕ → List (Value × Value) → Option (List ℕ)
find_path i es = and_then (find_id i es) as_text

find_path-here :
    (i id : ℕ) (k v : Value) (es : List (Value × Value))
    → as_uint k ≡ some id
    → (id == i) ≡ true
    → find_path i ((k, v) ∷ es) ≡ as_text v
unfolding find_id is_id
find_path-here i id k v es e same = rw (e, same) refl

find_path-later :
    (i id : ℕ) (k v : Value) (es : List (Value × Value))
    → as_uint k ≡ some id
    → (id == i) ≡ false
    → find_path i ((k, v) ∷ es) ≡ find_path i es
unfolding find_id is_id
find_path-later i id k v es e differ = rw (e, differ) refl

-- What is found is one of the paths, and a legal one.
find_path-Any :
    (i : ℕ) (es : List (Value × Value)) (s : Seen) (p : List ℕ)
    → Listed es s
    → find_path i es ≡ some p
    → Any (λ a. text_of a ≡ p) s × IsPath p
find_path-Any i [] [] p h e = absurd (unfold find_id in cc)
find_path-Any i ((k, v) ∷ es) (a ∷ s) p ((id, e1), e2, legal, hs) e = elim (Bool-cases (id == i)) [
  | inl here ↦
      let same : text_of a ≡ p = cc (find_path-here i id k v es e1 here) in
      (inl same, subst IsPath same legal)
  | inr later ↦
      let step = find_path-later i id k v es e1 later in
      let (found, legal') = find_path-Any i es s p hs (cc) in (inr found, legal')
]
find_path-Any i [] (a ∷ s) p h e = absurd h
find_path-Any i (x ∷ es) [] p h e = absurd h

not-Any :
    (t p : List ℕ) (s : Seen)
    → All (λ u. t ≢ u) (map text_of s)
    → t ≡ p
    → Any (λ a. text_of a ≡ p) s
    → ⊥
not-Any t p [] h e found = found
not-Any t p (a ∷ s) (h, hs) e (inl here) = h (cc)
not-Any t p (a ∷ s) (h, hs) e (inr later) = not-Any t p s hs e later

find_path_injective :
    (i j : ℕ) (es : List (Value × Value)) (s : Seen) (p : List ℕ)
    → Listed es s
    → AllPairs ◌≢◌ (map text_of s)
    → find_path i es ≡ some p
    → find_path j es ≡ some p
    → i ≡ j
find_path_injective i j [] [] p h d e f = absurd (unfold find_id in cc)
find_path_injective i j ((k, v) ∷ es) (a ∷ s) p ((id, e1), e2, legal, hs) (d, ds) e f =
    elim (Bool-cases (id == i)) [
      | inl here ↦
          let first : text_of a ≡ p = cc (find_path-here i id k v es e1 here) in
          elim (Bool-cases (id == j)) [
            | inl here' ↦ omega (arith, ==→eq id i here, ==→eq id j here')
            | inr later' ↦
                let step = find_path-later j id k v es e1 later' in
                absurd (not-Any (text_of a) p s d first (find_path-Any j es s p hs (cc)).0)
          ]
      | inr later ↦
          let step = find_path-later i id k v es e1 later in
          elim (Bool-cases (id == j)) [
            | inl here' ↦
                let first : text_of a ≡ p = cc (find_path-here j id k v es e1 here') in
                absurd (not-Any (text_of a) p s d first (find_path-Any i es s p hs (cc)).0)
            | inr later' ↦
                let step' = find_path-later j id k v es e1 later' in
                find_path_injective i j es s p hs ds (cc) (cc)
          ]
    ]
find_path_injective i j [] (a ∷ s) p h d e f = absurd h
find_path_injective i j (x ∷ es) [] p h d e f = absurd h

path_of-eq-some :
    (i : ℕ) (m : Manifest) (p : List ℕ)
    → path_of i m ≡ some p
    → (es : List (Value × Value)) × (get_map paths_key m.value ≡ some es)
      × (find_path i es ≡ some p)
unfolding path_of
path_of-eq-some i m p e = elim (Option-cases (get_map paths_key m.value)) [
  | inl missing ↦ absurd (ground arith)
  | inr (es, given) ↦ (es, given, ground arith)
]

check_paths-Listed :
    (v : Value) (es : List (Value × Value))
    → as_map v ≡ some es
    → check_paths v ≡ ok tt
    → (s : Seen) × Listed es s × AllPairs ◌≢◌ (map text_of s)
unfolding check_paths
check_paths-Listed v es given e = elim (Result-cases (collect_paths 0 es)) [
  | inr (x, bad) ↦ absurd (ground arith)
  | inl (s, collected) ↦
      let unique = refuse_repeated-distinct "`paths` contains a duplicate" s (ground arith) in
      (s, collect_paths-Listed 0 es s collected, texts-distinct s unique)
]

given-Listed :
    (o : Option Value) (es : List (Value × Value))
    → and_then o as_map ≡ some es
    → if_given o check_paths ≡ ok tt
    → (s : Seen) × Listed es s × AllPairs ◌≢◌ (map text_of s)
unfolding if_given
given-Listed none es given e = absurd (cc)
given-Listed (some v) es given e = check_paths-Listed v es given e

-- The paths of a decoded manifest that has them.
decode-Listed :
    (b : List ℕ) (m : Manifest) (es : List (Value × Value))
    → decode b ≡ ok m
    → get_map paths_key m.value ≡ some es
    → (s : Seen) × Listed es s × AllPairs ◌≢◌ (map text_of s)
unfolding get_map
decode-Listed b m es e given =
    given-Listed (get paths_key m.value) es given
      (check_schema-IsChecked m.value (decode-eq-ok b m e).1).paths_checked

-- Every extraction path that a decoded manifest gives is relative and stays below the directory it is
-- extracted to: 1 to 4096 bytes, made of legal names, none of them empty, `.` or `..`, between slashes.
pub path_of-IsPath :
    (b : List ℕ) (m : Manifest) (i : ℕ) (p : List ℕ)
    → decode b ≡ ok m
    → path_of i m ≡ some p
    → IsPath p
path_of-IsPath b m i p e given =
    let (es, es_are, found) = path_of-eq-some i m p given in
    let (s, listed, distinct) = decode-Listed b m es e es_are in
    (find_path-Any i es s p listed found).1

-- Two sections to which a decoded manifest gives the same extraction path are the same section.
pub path_of_injective :
    (b : List ℕ) (m : Manifest) (i j : ℕ) (p : List ℕ)
    → decode b ≡ ok m
    → path_of i m ≡ some p
    → path_of j m ≡ some p
    → i ≡ j
path_of_injective b m i j p e given given' =
    let (es, es_are, found) = path_of-eq-some i m p given in
    let (es', es_are', found') = path_of-eq-some j m p given' in
    let same : es' ≡ es = cc in
    let (s, listed, distinct) = decode-Listed b m es e es_are in
    find_path_injective i j es s p listed distinct found
      (subst (λ x. find_path j x ≡ some p) same found')
