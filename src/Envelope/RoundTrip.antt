-- ===== src/Envelope/RoundTrip.antt =====
-- An envelope is read back from its bytes, whose entries the encoder puts in canonical order.
use sidequests.Common.{
  ℕ, suc, ◌<◌, ◌≡◌, refl, sym, ◌∙◌, List, length, true, ltb-false_of_le, arith, inl, inr,
}
use sidequests.Common.Sort.{sort, insert}
use sidequests.Error.{Result, Error}
use sidequests.Error
use sidequests.Outcome.{ok}
use sidequests.Wire.{bytes_eq}
use sidequests.Format.{u16_mod, u64_mod}
use sidequests.Utf8.{is_utf8}
use sidequests.Cbor.{
  Value, uint, text, bytes, map, entry, end, put_head, bytes_lt, key_le, has_duplicate, write_map,
  encode_into, encode, count_entries,
}
use sidequests.Cbor.Access.{as_uint, as_text, as_bytes, as_map, pairs}
use sidequests.Cbor.CanonicalValue.{IsCanonical}
use sidequests.Cbor.Decodes.{decode-encode}
use sidequests.Envelope.{
  Envelope, name_id_key, context_key, ct_key, wrapped_key, to_cbor, as_u16, read_name_id,
  read_context, read_ct, or_error, read_wrapped, read_entry, read_entries, from_cbor, to_bytes,
  from_bytes,
}

-- The entries in the order of their encoded keys.
abbrev pub sorted_cbor : Envelope → Value
sorted_cbor e = map (
    entry (text ct_key) (bytes e.ciphertext) (
      entry (text context_key) (text e.context) (
        entry (text name_id_key) (uint e.name_id)
          (entry (text wrapped_key) (bytes e.wrapped) end))))

encode-sorted_cbor : (e : Envelope) → encode (to_cbor e) ≡ encode (sorted_cbor e)
unfolding encode encode_into to_cbor write_map put_head bytes_lt key_le sort insert count_entries
    has_duplicate bytes_eq
encode-sorted_cbor e = refl

pub from_cbor-sorted_cbor : (e : Envelope) → e.name_id < u16_mod → from_cbor (sorted_cbor e) ≡ ok e
unfolding from_cbor read_entries read_entry read_name_id read_context read_ct read_wrapped as_u16
    as_uint as_text as_bytes as_map pairs bytes_eq
from_cbor-sorted_cbor e h = rw (ltb-false_of_le 0xffff e.name_id (omega arith)) refl

-- The fields in the widths that their types give them.
pub record IsTyped (e : Envelope) : Type 0 where
  pub name_id : e.name_id < u16_mod
  pub context : length e.context < u64_mod
  pub utf8 : is_utf8 e.context ≡ true
  pub ciphertext : length e.ciphertext < u64_mod
  pub wrapped : length e.wrapped < u64_mod

-- At every depth that leaves two levels.
pub sorted_cbor-IsCanonical :
    (d : ℕ) (e : Envelope) → IsTyped e → IsCanonical (suc (suc d)) (sorted_cbor e)
unfolding IsCanonical count_entries encode_into put_head bytes_lt is_utf8
sorted_cbor-IsCanonical d e t = (
  omega arith,
  (
    (omega arith, refl),
    t.ciphertext,
    (
      (omega arith, refl),
      (t.context, t.utf8),
      ((omega arith, refl), omega (arith, t.name_id), ((omega arith, refl), t.wrapped, tt)),
    ),
  ),
  (_, refl, (refl, (refl, (refl, tt)))),
)

to_bytes-encode : (e : Envelope) (b : List ℕ) → to_bytes e ≡ ok b → encode (to_cbor e) ≡ Error.ok b
unfolding to_bytes or_error
to_bytes-encode e b h = elim (Error.Result-cases (encode (to_cbor e))) [
  | inl (out, made) ↦ ground arith
  | inr (x, bad) ↦ absurd (ground arith)
]

-- An envelope whose fields have their types' ranges and that is written is read back as it was.
from_bytes-to_bytes :
    (e : Envelope) (b : List ℕ) → IsTyped e → to_bytes e ≡ ok b → from_bytes b ≡ ok e
unfolding from_bytes or_error
from_bytes-to_bytes e b t written =
    let made : encode (sorted_cbor e) ≡ Error.ok b =
      sym (encode-sorted_cbor e) ∙ to_bytes-encode e b written in
    let read = decode-encode (sorted_cbor e) b (sorted_cbor-IsCanonical 15 e t) made in
    rw read (from_cbor-sorted_cbor e t.name_id)
