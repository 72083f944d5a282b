-- ===== src/Cbor/Tests.antt =====
-- A small map with an array in it, and the theorems about CBOR at it.
use sidequests.Common.{suc, ℕ, ◌≡◌, refl, List, [], ◌∷◌, arith, true}
use sidequests.Error.{ok}
use sidequests.Wire.{from_be}
use sidequests.Utf8.{is_utf8, is_utf8_from}
use sidequests.Cbor.{
  Value, uint, text, array, map, bool, nil, cons, end, entry, decode, encode, value, head, body,
  byte, argument, take_bytes, wide_argument, items, entries, check_order, bytes_lt,
}
use sidequests.Cbor.Canonical.{encode-decode}
use sidequests.Cbor.CanonicalValue.{IsCanonical}
use sidequests.Cbor.Decodes.{decode-encode}
use sidequests.Utf8.{lead_byte}
use sidequests.Wire.{to_be, to_le}
use sidequests.Cbor.{Encoded, encode_into, put_head, count_values, count_entries, max_depth}

-- {"a": [1, true], "b": 24}
abbrev small : Value
small = map (
    entry (text (0x61 ∷ [])) (array (cons (uint 1) (cons (bool true) nil)))
      (entry (text (0x62 ∷ [])) (uint 24) end))

abbrev small_bytes : List ℕ
small_bytes = 0xa2 ∷ 0x61 ∷ 0x61 ∷ 0x82 ∷ 0x01 ∷ 0xf5 ∷ 0x61 ∷ 0x62 ∷ 0x18 ∷ 0x18 ∷ []

small_reads : decode small_bytes ≡ ok small
unfolding decode value head body byte argument take_bytes wide_argument items entries check_order
    bytes_lt is_utf8 is_utf8_from from_be
small_reads = refl

encode-decode_example : encode small ≡ ok small_bytes
encode-decode_example = encode-decode small_bytes small (omega arith) small_reads

small_encoded : List Encoded
small_encoded =
    (0x61 ∷ 0x61 ∷ [], ok (0x82 ∷ 0x01 ∷ 0xf5 ∷ []))
    ∷ (0x61 ∷ 0x62 ∷ [], ok (0x18 ∷ 0x18 ∷ []))
    ∷ []

small-IsCanonical : IsCanonical (suc max_depth) small
unfolding IsCanonical encode_into put_head count_values count_entries is_utf8 is_utf8_from lead_byte
    bytes_lt to_be to_le small_encoded
small-IsCanonical = (
  omega arith,
  (
    (omega arith, refl),
    (omega arith, (omega arith, (tt, tt))),
    ((omega arith, refl), omega arith, tt),
  ),
  (small_encoded, refl, (refl, tt)),
)

small_written : encode small ≡ ok small_bytes
small_written = encode-decode small_bytes small (omega arith) small_reads

decode-encode_example : decode small_bytes ≡ ok small
decode-encode_example = decode-encode small small_bytes small-IsCanonical small_written
