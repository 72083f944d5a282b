-- ===== src/Manifest/Shape.antt =====
-- What an identifier, a name and a path may be: `check_id`, `check_name` and `check_path` of
-- ctf-format/crates/ctf-format/src/manifest.rs.
use sidequests.Common.{
  ℕ, String, List, [], ◌∷◌, Bool, true, false, not, ◌&&◌, ◌||◌, Option, none, some, length, ltb,
  leb, ◌==◌, if◌then◌else◌,
}
use sidequests.Error.{Result, ok, ◌>>◌, refuse_if, manifest}
use sidequests.Wire.{bytes_eq}
use sidequests.Cbor.Access.{is_none}
use sidequests.Manifest.Keys.{max_id_len, max_name_len, max_path_len}

abbrev pub hyphen : ℕ
hyphen = 45

abbrev pub slash : ℕ
slash = 47

abbrev pub backslash : ℕ
backslash = 92

unfoldable pub starts_with : ℕ → List ℕ → Bool
starts_with c [] = false
starts_with c (x ∷ xs) = x == c

unfoldable pub ends_with : ℕ → List ℕ → Bool
ends_with c [] = false
ends_with c (x ∷ []) = x == c
ends_with c (x ∷ (y ∷ ys)) = ends_with c (y ∷ ys)

unfoldable pub is_id_byte : ℕ → Bool
is_id_byte c = leb 97 c && leb c 122 || (leb 48 c && leb c 57 || c == hyphen)

unfoldable pub all_id_bytes : List ℕ → Bool
unfolding is_id_byte
all_id_bytes [] = true
all_id_bytes (c ∷ cs) = is_id_byte c && all_id_bytes cs

unfoldable pub is_bad_id : List ℕ → Bool
unfolding starts_with ends_with all_id_bytes
is_bad_id id =
    length id == 0
    || (ltb max_id_len (length id)
        || (starts_with hyphen id || (ends_with hyphen id || not (all_id_bytes id))))

unfoldable pub check_id : List ℕ → Result (Unit {0})
unfolding is_bad_id
check_id id = do
  refuse_if (is_bad_id id)
      (manifest "manifest `id` must be 1-64 bytes of lowercase ASCII, digits and interior hyphens")
  ok tt

-- The UTF-8 bytes of U+202A to U+202E and of U+2066 to U+2069.
unfoldable pub is_bidi_control : (a b c : ℕ) → Bool
is_bidi_control a b c =
    a == 0xe2
    && (b == 0x80 && (leb 0xaa c && leb c 0xae) || b == 0x81 && (leb 0xa6 c && leb c 0xa9))

unfoldable pub has_bidi_control : List ℕ → Bool
unfolding is_bidi_control
has_bidi_control (a ∷ (b ∷ (c ∷ rest))) = is_bidi_control a b c || has_bidi_control (b ∷ (c ∷ rest))
has_bidi_control _ = false

unfoldable pub is_bad_name_byte : ℕ → Bool
is_bad_name_byte c = c == slash || (c == backslash || (ltb c 0x20 || c == 0x7f))

unfoldable pub has_bad_name_byte : List ℕ → Bool
unfolding is_bad_name_byte
has_bad_name_byte [] = false
has_bad_name_byte (c ∷ cs) = is_bad_name_byte c || has_bad_name_byte cs

-- "."
abbrev pub dot : List ℕ
dot = 46 ∷ []

-- ".."
abbrev pub dot_dot : List ℕ
dot_dot = 46 ∷ 46 ∷ []

unfoldable pub is_bad_name : List ℕ → Bool
unfolding has_bad_name_byte has_bidi_control
is_bad_name n =
    length n == 0
    || (ltb max_name_len (length n)
        || (bytes_eq n dot || (bytes_eq n dot_dot || (has_bad_name_byte n || has_bidi_control n))))

unfoldable pub check_name : List ℕ → Option String
unfolding is_bad_name
check_name n =
    if is_bad_name n
    then some "name is empty, too long, path-like, or contains a control character"
    else none

-- `x` in front of the first component.
unfoldable pub onto_first : ℕ → List (List ℕ) → List (List ℕ)
onto_first x [] = (x ∷ []) ∷ []
onto_first x (first ∷ rest) = (x ∷ first) ∷ rest

-- `split('/')`
unfoldable pub components : List ℕ → List (List ℕ)
unfolding onto_first
components [] = [] ∷ []
components (x ∷ xs) =
    let rest = components xs in if x == slash then [] ∷ rest else onto_first x rest

unfoldable pub any_bad_name : List (List ℕ) → Bool
unfolding check_name
any_bad_name [] = false
any_bad_name (n ∷ ns) = not (is_none (check_name n)) || any_bad_name ns

unfoldable pub check_path : List ℕ → Option String
unfolding components any_bad_name
check_path p =
    if length p == 0 || ltb max_path_len (length p)
    then some "path is empty or too long"
    else if any_bad_name (components p)
    then some "path component is empty, path-like, too long, or contains a control character"
    else none
