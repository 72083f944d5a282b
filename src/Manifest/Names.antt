-- ===== src/Manifest/Names.antt =====
-- What `check_id`, `check_name` and `check_path` accept.
use sidequests.Common.{
  ℕ, ◌≤◌, ◌≡◌, ◌≢◌, refl, ◌⊎◌, inl, inr, List, [], ◌∷◌, ◌++◌, All, length, Bool-cases, true, false,
  none, ◌==◌, ==→eq, arith,
}
use sidequests.Error.{ok}
use sidequests.Wire.{bytes_eq, bytes_eq_refl}
use sidequests.Manifest.Shape.{
  hyphen, slash, backslash, starts_with, ends_with, is_id_byte, all_id_bytes, is_bad_id, check_id,
  has_bidi_control, is_bad_name_byte, has_bad_name_byte, dot, dot_dot, is_bad_name, check_name,
  onto_first, components, any_bad_name, check_path,
}

-- A lower-case ASCII letter, a digit or a hyphen.
abbrev pub IsIdByte : ℕ → Type 0
IsIdByte c = ((97 ≤ c) × (c ≤ 122)) ⊎ (((48 ≤ c) × (c ≤ 57)) ⊎ (c ≡ hyphen))

pub record IsId (id : List ℕ) : Type 0 where
  pub nonempty : 1 ≤ length id
  pub short : length id ≤ 64
  pub plain : All IsIdByte id
  pub no_hyphen_first : (rest : List ℕ) → id ≢ hyphen ∷ rest
  pub no_hyphen_last : (front : List ℕ) → id ≢ front ++ (hyphen ∷ [])

-- No separator and no control character.
abbrev pub IsNameByte : ℕ → Type 0
IsNameByte c = (c ≢ slash) × (c ≢ backslash) × (32 ≤ c) × (c ≢ 127)

pub record IsName (n : List ℕ) : Type 0 where
  pub nonempty : 1 ≤ length n
  pub short : length n ≤ 255
  pub not_dot : n ≢ dot
  pub not_dot_dot : n ≢ dot_dot
  pub plain : All IsNameByte n
  pub no_bidi : has_bidi_control n ≡ false

-- `join("/")`
unfoldable pub join_slash : List (List ℕ) → List ℕ
join_slash [] = []
join_slash (n ∷ []) = n
join_slash (n ∷ (m ∷ rest)) = n ++ (slash ∷ join_slash (m ∷ rest))

-- A relative path: names between slashes.
pub record IsPath (p : List ℕ) : Type 0 where
  pub parts : List (List ℕ)
  pub whole : p ≡ join_slash parts
  pub names : All IsName parts
  pub nonempty : 1 ≤ length p
  pub short : length p ≤ 4096

all_id_bytes-All : (id : List ℕ) → all_id_bytes id ≡ true → All IsIdByte id
unfolding all_id_bytes is_id_byte
all_id_bytes-All [] e = tt
all_id_bytes-All (c ∷ cs) e = (first c (ground arith), all_id_bytes-All cs (ground arith))
  where
    first : (c : ℕ) → is_id_byte c ≡ true → IsIdByte c
    first c e = ground arith

ends_with-append : (c : ℕ) (front : List ℕ) → ends_with c (front ++ (c ∷ [])) ≡ true
unfolding ends_with
ends_with-append c [] = ground arith
ends_with-append c (x ∷ []) = ends_with-append c []
ends_with-append c (x ∷ (y ∷ ys)) = ends_with-append c (y ∷ ys)

starts_with-cons : (c : ℕ) (rest : List ℕ) → starts_with c (c ∷ rest) ≡ true
unfolding starts_with
starts_with-cons c rest = ground arith

first_refused : (id rest : List ℕ) → check_id id ≡ ok tt → id ≢ hyphen ∷ rest
unfolding is_bad_id check_id
first_refused id rest e h =
    let here : starts_with hyphen id ≡ true = rw h (starts_with-cons hyphen rest) in
    absurd (ground arith)

last_refused : (id front : List ℕ) → check_id id ≡ ok tt → id ≢ front ++ (hyphen ∷ [])
unfolding is_bad_id check_id
last_refused id front e h =
    let here : ends_with hyphen id ≡ true = rw h (ends_with-append hyphen front) in
    absurd (ground arith)

-- `check_id` accepts 1 to 64 bytes of lower-case ASCII, digits and interior hyphens only.
pub check_id-IsId : (id : List ℕ) → check_id id ≡ ok tt → IsId id
check_id-IsId id e = record {
  nonempty = unfold is_bad_id check_id in ground arith;
  short = unfold is_bad_id check_id in ground arith;
  plain = all_id_bytes-All id (unfold is_bad_id check_id in ground arith);
  no_hyphen_first = λ rest. first_refused id rest e;
  no_hyphen_last = λ front. last_refused id front e;
}

plain_bytes : (n : List ℕ) → has_bad_name_byte n ≡ false → All IsNameByte n
unfolding has_bad_name_byte is_bad_name_byte
plain_bytes [] e = tt
plain_bytes (c ∷ cs) e = (first c (ground arith), plain_bytes cs (ground arith))
  where
    first : (c : ℕ) → is_bad_name_byte c ≡ false → IsNameByte c
    first c e = (ground arith, ground arith, ground arith, ground arith)

is_bad_name-IsName : (n : List ℕ) → is_bad_name n ≡ false → IsName n
is_bad_name-IsName n e = record {
  nonempty = unfold is_bad_name in ground arith;
  short = unfold is_bad_name in ground arith;
  not_dot = λ h. absurd (is_not dot h (bytes_eq_refl dot) (unfold is_bad_name in ground arith));
  not_dot_dot =
      λ h. absurd (is_not dot_dot h (bytes_eq_refl dot_dot) (unfold is_bad_name in ground arith));
  plain = plain_bytes n (unfold is_bad_name in ground arith);
  no_bidi = unfold is_bad_name in ground arith;
}
  where
    is_not : (d : List ℕ) → n ≡ d → bytes_eq d d ≡ true → bytes_eq n d ≡ false → ⊥
    is_not d h same differ = let same' : bytes_eq n d ≡ true = rw h same in cc

pub check_name-IsName : (n : List ℕ) → check_name n ≡ none → IsName n
check_name-IsName n e = is_bad_name-IsName n (unfold check_name in ground arith)

join_slash-onto_first :
    (x : ℕ) (ns : List (List ℕ)) → join_slash (onto_first x ns) ≡ x ∷ join_slash ns
unfolding join_slash onto_first
join_slash-onto_first x [] = refl
join_slash-onto_first x (n ∷ []) = refl
join_slash-onto_first x (n ∷ (m ∷ rest)) = refl

join_slash-empty_first :
    (n : List ℕ) (ns : List (List ℕ)) → join_slash ([] ∷ (n ∷ ns)) ≡ slash ∷ join_slash (n ∷ ns)
unfolding join_slash
join_slash-empty_first n ns = refl

components-nonempty : (p : List ℕ) → (n : List ℕ) × (ns : List (List ℕ)) × (components p ≡ n ∷ ns)
unfolding components onto_first
components-nonempty [] = ([], [], refl)
components-nonempty (x ∷ xs) =
    let (n, ns, e) = components-nonempty xs in
    elim (Bool-cases (x == slash)) [
      | inl cut ↦ ([], components xs, rw cut refl)
      | inr kept ↦ (x ∷ n, ns, rw (kept, e) refl)
    ]

join_slash-step :
    (x : ℕ) (xs n : List ℕ) (ns : List (List ℕ))
    → components xs ≡ n ∷ ns
    → join_slash (n ∷ ns) ≡ xs
    → join_slash (components (x ∷ xs)) ≡ x ∷ xs
unfolding components
join_slash-step x xs n ns e rest = elim (Bool-cases (x == slash)) [
  | inl cut ↦ rw (cut, e, join_slash-empty_first n ns, rest, ==→eq x slash cut) refl
  | inr kept ↦ rw (kept, e, join_slash-onto_first x (n ∷ ns), rest) refl
]

-- Splitting at the slashes loses nothing.
pub join_slash-components : (p : List ℕ) → join_slash (components p) ≡ p
join_slash-components [] = unfold join_slash components in refl
join_slash-components (x ∷ xs) =
    let (n, ns, e) = components-nonempty xs in
    join_slash-step x xs n ns e (rw (← e) (join_slash-components xs))

any_bad_name-All : (ns : List (List ℕ)) → any_bad_name ns ≡ false → All IsName ns
unfolding any_bad_name
any_bad_name-All [] e = tt
any_bad_name-All (n ∷ ns) e =
    (check_name-IsName n (ground arith), any_bad_name-All ns (ground arith))

-- An accepted path is relative and stays below the directory it is extracted to: it is made of names,
-- none of which is empty, `.` or `..`, between slashes.
pub check_path-IsPath : (p : List ℕ) → check_path p ≡ none → IsPath p
check_path-IsPath p e = record {
  parts = components p;
  whole = rw (join_slash-components p) refl;
  names = any_bad_name-All (components p) (unfold check_path in ground arith);
  nonempty = unfold check_path in ground arith;
  short = unfold check_path in ground arith;
}
