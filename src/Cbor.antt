-- ===== src/Cbor.antt =====
-- ctf-format/crates/ctf-format/src/cbor.rs: the canonical CBOR of the manifest.
-- A decoder state `(b, pos)` is the part of the input that is still unread; `pos` is the difference
-- of the lengths. A text is its bytes. `levels` is MAX_DEPTH + 1 less the depth, so it is 0 exactly
-- where the source finds the nesting too deep.
pub mod Head
pub mod Order
pub mod Loops
pub mod Canonical
pub mod PutHead
pub mod CanonicalValue
pub mod Decodes
pub mod Access
pub mod Distinct
pub mod UniqueKeys
mod Tests
use sidequests.Common.{
  ℕ, zero, suc, ◌+◌, ◌-◌, ◌*◌, ◌/◌, ◌≡◌, List, [], ◌∷◌, ◌++◌, Bool, true, false, not, Option, none,
  some, length, take, drop, ltb, leb, ◌==◌, if◌then◌else◌, bit_and, bit_or,
}
use sidequests.Common.Sort.{sort}
use sidequests.Error.{
  Error, Result, ok, err, ◌>>=◌, ◌>>◌, refuse_if, cbor_truncated, cbor_trailing, cbor_not_shortest,
  cbor_unsupported, cbor_duplicate_key, cbor_unsorted_keys, cbor_bad_utf8, cbor_too_deep,
}
use sidequests.Wire.{bytes_eq, from_be, to_be}
use sidequests.Utf8.{is_utf8}

abbrev pub max_depth : ℕ
max_depth = 16

mutual
  pub data Value : Type 0 where
    uint : ℕ → Value
    nint : ℕ → Value
    bytes : List ℕ → Value
    text : List ℕ → Value
    array : Values → Value
    map : Entries → Value
    bool : Bool → Value
    null : Value

  pub data Values : Type 0 where
    nil : Values
    cons : Value → Values → Values

  pub data Entries : Type 0 where
    end : Entries
    entry : Value → Value → Entries → Entries

unfoldable pub count_values : Values → ℕ
count_values nil = 0
count_values (cons v vs) = suc (count_values vs)

unfoldable pub count_entries : Entries → ℕ
count_entries end = 0
count_entries (entry k v es) = suc (count_entries es)

-- `major << 5 | arg`, with as many bytes of `arg` behind it as its size asks for.
unfoldable pub put_head : ℕ → ℕ → List ℕ
unfolding to_be
put_head major arg =
    let m = major * 32 in
    if leb arg 23
    then bit_or m arg ∷ []
    else if leb arg 0xff
    then bit_or m 24 ∷ to_be 1 arg
    else if leb arg 0xffff
    then bit_or m 25 ∷ to_be 2 arg
    else if leb arg 0xffff_ffff
    then bit_or m 26 ∷ to_be 4 arg
    else bit_or m 27 ∷ to_be 8 arg

-- The order of byte strings, `Vec<u8>`'s `cmp`.
unfoldable pub bytes_lt : List ℕ → List ℕ → Bool
bytes_lt _ [] = false
bytes_lt [] (y ∷ ys) = true
bytes_lt (x ∷ xs) (y ∷ ys) =
    let rest = bytes_lt xs ys in if ltb x y then true else if x == y then rest else false

-- A map entry in the encoder: the encoded key, and what encoding the value gives.
abbrev pub Encoded : Type 0
Encoded = List ℕ × Result (List ℕ)

unfoldable pub key_le : Encoded → Encoded → Bool
key_le a b = not (bytes_lt b.0 a.0)

-- `encoded.windows(2).any(…)`
unfoldable pub has_duplicate : List Encoded → Bool
has_duplicate [] = false
has_duplicate (a ∷ []) = false
has_duplicate (a ∷ (b ∷ rest)) =
    let later = has_duplicate (b ∷ rest) in if bytes_eq a.0 b.0 then true else later

unfoldable pub write_entries : List Encoded → Result (List ℕ)
write_entries [] = ok []
write_entries ((kb, v) ∷ rest) = do vb ← v; out ← write_entries rest; ok (kb ++ (vb ++ out))

unfoldable pub write_map : ℕ → List Encoded → Result (List ℕ)
unfolding key_le has_duplicate write_entries
write_map n encoded = do
  let sorted = sort key_le encoded
  refuse_if (has_duplicate sorted) cbor_duplicate_key
  out ← write_entries sorted
  ok (put_head 5 n ++ out)

unfoldable mutual
  pub encode_into : Value → ℕ → Result (List ℕ)
  encode_into (uint n) zero = err (cbor_too_deep max_depth)
  encode_into (uint n) (suc k) = ok (put_head 0 n)
  encode_into (nint n) zero = err (cbor_too_deep max_depth)
  encode_into (nint n) (suc k) = ok (put_head 1 n)
  encode_into (bytes v) zero = err (cbor_too_deep max_depth)
  encode_into (bytes v) (suc k) = ok (put_head 2 (length v) ++ v)
  encode_into (text t) zero = err (cbor_too_deep max_depth)
  encode_into (text t) (suc k) = ok (put_head 3 (length t) ++ t)
  encode_into (array vs) zero = err (cbor_too_deep max_depth)
  encode_into (array vs) (suc k) = do
    out ← encode_items vs k
    ok (put_head 4 (count_values vs) ++ out)
  encode_into (map es) zero = err (cbor_too_deep max_depth)
  encode_into (map es) (suc k) = do
    encoded ← encode_entries es k
    write_map (count_entries es) encoded
  encode_into (bool b) zero = err (cbor_too_deep max_depth)
  encode_into (bool b) (suc k) = ok ((if b then 0xf5 else 0xf4) ∷ [])
  encode_into null zero = err (cbor_too_deep max_depth)
  encode_into null (suc k) = ok (0xf6 ∷ [])

  pub encode_items : Values → ℕ → Result (List ℕ)
  encode_items nil k = ok []
  encode_items (cons v vs) k = do out ← encode_into v k; rest ← encode_items vs k; ok (out ++ rest)

  pub encode_entries : Entries → ℕ → Result (List Encoded)
  encode_entries end k = ok []
  encode_entries (entry key v es) k = do
    kb ← encode_into key k
    rest ← encode_entries es k
    ok ((kb, encode_into v k) ∷ rest)

unfoldable pub encode : Value → Result (List ℕ)
unfolding encode_into
encode v = encode_into v (suc max_depth)

-- A decoder step: what it read, and what is left unread.
abbrev pub Decoder : Type 0 → Type 0
Decoder A = List ℕ → Result (A × List ℕ)

unfoldable pub byte : Decoder ℕ
byte [] = err cbor_truncated
byte (x ∷ rest) = ok (x, rest)

unfoldable pub take_bytes : ℕ → Decoder (List ℕ)
take_bytes n b = if leb n (length b) then ok (take n b, drop n b) else err cbor_truncated

-- An argument of `width` bytes behind the initial byte, which must exceed `least`.
unfoldable pub wide_argument : (width least : ℕ) → Decoder ℕ
wide_argument width least b = do
  (s, rest) ← take_bytes width b
  refuse_if (leb (from_be s) least) cbor_not_shortest
  ok (from_be s, rest)

unfoldable pub argument : ℕ → Decoder ℕ
unfolding byte take_bytes wide_argument
argument ai b =
    if leb ai 23
    then ok (ai, b)
    else if ai == 24
    then (do (v, rest) ← byte b; refuse_if (ltb v 24) cbor_not_shortest; ok (v, rest))
    else if ai == 25
    then wide_argument 2 0xff b
    else if ai == 26
    then wide_argument 4 0xffff b
    else if ai == 27
    then wide_argument 8 0xffff_ffff b
    else err (cbor_unsupported "additional-information value (indefinite length or reserved)")

unfoldable pub head : Decoder (ℕ × ℕ)
unfolding argument
head b = do
  (ib, rest) ← byte b
  (arg, rest') ← argument (bit_and ib 0x1f) rest
  ok ((ib / 32, arg), rest')

-- `for _ in 0..arg { items.push(self.value(depth + 1)?) }`
unfoldable pub items : Decoder Value → ℕ → Decoder Values
items item zero b = ok (nil, b)
items item (suc n) b = do (v, rest) ← item b; (vs, rest') ← items item n rest; ok (cons v vs, rest')

-- A key must come strictly after the one before it.
unfoldable pub check_order : Option (List ℕ) → List ℕ → Result (Unit {0})
check_order none key = ok tt
check_order (some prev) key =
    if bytes_lt prev key
    then ok tt
    else if bytes_eq key prev
    then err cbor_duplicate_key
    else err cbor_unsorted_keys

unfoldable pub entries : Decoder Value → Option (List ℕ) → ℕ → Decoder Entries
unfolding check_order
entries item prev zero b = ok (end, b)
entries item prev (suc n) b = do
  (k, rest) ← item b
  let key_bytes = take (length b - length rest) b
  check_order prev key_bytes
  (v, rest') ← item rest
  (es, rest'') ← entries item (some key_bytes) n rest'
  ok (entry k v es, rest'')

-- What follows a head.
unfoldable pub body : Decoder Value → (major arg : ℕ) → Decoder Value
unfolding items entries
body item major arg b =
    if major == 0
    then ok (uint arg, b)
    else if major == 1
    then ok (nint arg, b)
    else if major == 2
    then (do (s, rest) ← take_bytes arg b; ok (bytes s, rest))
    else if major == 3
    then (do
      (s, rest) ← take_bytes arg b
      refuse_if (not (is_utf8 s)) cbor_bad_utf8
      ok (text s, rest))
    else if major == 4
    then (do (vs, rest) ← items item arg b; ok (array vs, rest))
    else if major == 5
    then (do (es, rest) ← entries item none arg b; ok (map es, rest))
    else if major == 7
    then (if arg == 20
        then ok (bool false, b)
        else if arg == 21
        then ok (bool true, b)
        else if arg == 22
        then ok (null, b)
        else err (cbor_unsupported "major type 7 value (undefined, float, or simple-value escape)"))
    else err (cbor_unsupported "tag")

unfoldable pub value : ℕ → Decoder Value
unfolding head body
value zero b = err (cbor_too_deep max_depth)
value (suc k) b = do ((major, arg), rest) ← head b; body (value k) major arg rest

unfoldable pub decode : List ℕ → Result Value
unfolding value
decode b = do
  (v, rest) ← value (suc max_depth) b
  refuse_if (not (length rest == 0)) (cbor_trailing (length b - length rest) (length b))
  ok v
