-- ===== src/Cbor/Access.antt =====
-- The readers of a CBOR value: `get` and the `as_…` functions of
-- ctf-format/crates/ctf-format/src/cbor.rs. An array and a map are read as lists.
use sidequests.Common.{ℕ, List, [], ◌∷◌, Bool, true, false, Option, none, some, if◌then◌else◌}
use sidequests.Wire.{bytes_eq}
use sidequests.Cbor.{Value, Values, Entries, uint, bytes, text, array, map, nil, cons, end, entry}

-- `Option::and_then`
abbrev pub and_then {ℓ κ} : {A : Type ℓ} {B : Type κ} → Option A → (A → Option B) → Option B
and_then none f = none
and_then (some a) f = f a

-- `Option::is_none`
abbrev pub is_none {ℓ} : {A : Type ℓ} → Option A → Bool
is_none none = true
is_none (some _) = false

unfoldable pub is_key : List ℕ → Value → Bool
is_key key (text t) = bytes_eq t key
is_key key _ = false

unfoldable pub find_key : List ℕ → Entries → Option Value
unfolding is_key
find_key key end = none
find_key key (entry k v es) = let later = find_key key es in if is_key key k then some v else later

unfoldable pub get : List ℕ → Value → Option Value
unfolding find_key
get key (map es) = find_key key es
get key _ = none

unfoldable pub as_uint : Value → Option ℕ
as_uint (uint n) = some n
as_uint _ = none

unfoldable pub as_text : Value → Option (List ℕ)
as_text (text t) = some t
as_text _ = none

unfoldable pub as_bytes : Value → Option (List ℕ)
as_bytes (bytes v) = some v
as_bytes _ = none

unfoldable pub elements : Values → List Value
elements nil = []
elements (cons v vs) = v ∷ elements vs

unfoldable pub as_array : Value → Option (List Value)
unfolding elements
as_array (array vs) = some (elements vs)
as_array _ = none

unfoldable pub pairs : Entries → List (Value × Value)
pairs end = []
pairs (entry k v es) = (k, v) ∷ pairs es

unfoldable pub as_map : Value → Option (List (Value × Value))
unfolding pairs
as_map (map es) = some (pairs es)
as_map _ = none
