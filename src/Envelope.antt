-- ===== src/Envelope.antt =====
-- ctf-format/crates/ctf-format/src/envelope.rs: the envelopes that carry a section's content key to a
-- recipient. A `str` is its UTF-8 bytes.
pub mod RoundTrip
pub mod Delivery
mod Tests
use sidequests.Common.{
  ℕ, String, List, [], ◌∷◌, ◌++◌, Bool, true, false, not, Option, none, some, length, replicate,
  ltb, ◌==◌, if◌then◌else◌,
}
use sidequests.Error.{Result}
use sidequests.Outcome.{Outcome, ok, err, ◌>>=◌, ◌>>◌, fail_if, some_or}
use sidequests.Wire.{bytes_eq, to_le}
use sidequests.Cbor.{Value, uint, text, bytes, map, entry, end}
use sidequests.Cbor
use sidequests.Cbor.Access.{as_uint, as_text, as_bytes, as_map}
use sidequests.Crypto.Errors.{SuiteError, Role, primitive, invalid_length}
use sidequests.Crypto.Crates.{Crates}
use sidequests.Crypto.Roles.{KemContext, Draws, Kem, Aead, Checked}
use sidequests.Crypto.Kem.{prefixed, fixed}
use sidequests.Crypto.Registry.{suite, kem_of, aead_of}

-- "ctf/envelope/v1"
abbrev pub envelope_aad_label : List ℕ
envelope_aad_label =
    99 ∷ 116 ∷ 102 ∷ 47 ∷ 101 ∷ 110 ∷ 118 ∷ 101 ∷ 108 ∷ 111 ∷ 112 ∷ 101 ∷ 47 ∷ 118 ∷ 49 ∷ []

-- "name_id"
abbrev pub name_id_key : List ℕ
name_id_key = 110 ∷ 97 ∷ 109 ∷ 101 ∷ 95 ∷ 105 ∷ 100 ∷ []

-- "context"
abbrev pub context_key : List ℕ
context_key = 99 ∷ 111 ∷ 110 ∷ 116 ∷ 101 ∷ 120 ∷ 116 ∷ []

-- "ct"
abbrev pub ct_key : List ℕ
ct_key = 99 ∷ 116 ∷ []

-- "wrapped"
abbrev pub wrapped_key : List ℕ
wrapped_key = 119 ∷ 114 ∷ 97 ∷ 112 ∷ 112 ∷ 101 ∷ 100 ∷ []

abbrev pub content_key_len : ℕ
content_key_len = 32

pub record Envelope : Type 0 where
  pub name_id : ℕ
  pub context : List ℕ
  pub ciphertext : List ℕ
  pub wrapped : List ℕ

unfoldable pub envelope_aad : ℕ → List ℕ → List ℕ
unfolding to_le prefixed
envelope_aad suite_id context = envelope_aad_label ++ (to_le 2 suite_id ++ prefixed context)

abbrev pub malformed : String → SuiteError
malformed reason = primitive Role.kem reason

abbrev pub kem_context : (suite_id version_major : ℕ) → List ℕ → KemContext
kem_context suite_id version_major label = record {
  suite_id = suite_id;
  version_major = version_major;
  label = label;
}

-- `seal`; the draws are those of the encapsulation.
unfoldable pub seal :
    Crates
    → Draws
    → (content_key recipient_public_key : List ℕ) (suite_id version_major name_id : ℕ)
      (context : List ℕ)
    → Checked Envelope
seal c draws content_key recipient_public_key suite_id version_major name_id context = do
  s ← suite c suite_id
  kem ← kem_of s
  aead ← aead_of s
  (ciphertext, kek) ←
      kem.encapsulate draws recipient_public_key (kem_context suite_id version_major context)
  wrapped ← aead.seal kek (replicate aead.nonce_len 0) (envelope_aad suite_id context) content_key
  ok (record { name_id = name_id; context = context; ciphertext = ciphertext; wrapped = wrapped })

-- `Envelope::open`
unfoldable pub open_envelope :
    Crates
    → Envelope
    → (recipient_secret_key : List ℕ) (suite_id version_major : ℕ) (expected_context : List ℕ)
    → Checked (List ℕ)
open_envelope c e recipient_secret_key suite_id version_major expected_context = do
  fail_if (not (bytes_eq e.context expected_context))
      (malformed "envelope context does not match the expected context")
  s ← suite c suite_id
  kem ← kem_of s
  aead ← aead_of s
  fail_if (not (length e.ciphertext == kem.ciphertext_len))
      (invalid_length Role.kem kem.ciphertext_len (length e.ciphertext))
  kek ←
      kem.decapsulate recipient_secret_key e.ciphertext
        (kem_context suite_id version_major e.context)
  plaintext ←
      aead.open_sealed kek (replicate aead.nonce_len 0) (envelope_aad suite_id e.context) e.wrapped
  fixed content_key_len plaintext Role.kem

unfoldable pub to_cbor : Envelope → Value
to_cbor e = map (
    entry (text name_id_key) (uint e.name_id) (
      entry (text context_key) (text e.context) (
        entry (text ct_key) (bytes e.ciphertext) (entry (text wrapped_key) (bytes e.wrapped) end))))

-- The fields read so far.
pub record Fields : Type 0 where
  pub name_id : Option ℕ
  pub context : Option (List ℕ)
  pub ciphertext : Option (List ℕ)
  pub wrapped : Option (List ℕ)

abbrev pub no_fields : Fields
no_fields = record { name_id = none; context = none; ciphertext = none; wrapped = none }

abbrev pub is_some {ℓ} : {A : Type ℓ} → Option A → Bool
is_some none = false
is_some (some _) = true

abbrev pub duplicate : SuiteError
duplicate = malformed "envelope has a duplicate key"

-- `u16::try_from`
unfoldable pub as_u16 : ℕ → Option ℕ
as_u16 n = if ltb 0xffff n then none else some n

unfoldable pub read_name_id : Fields → Value → Checked Fields
unfolding as_u16
read_name_id f value = do
  fail_if (is_some f.name_id) duplicate
  raw ← some_or (as_uint value) (malformed "envelope name_id is not an unsigned integer")
  id ← some_or (as_u16 raw) (malformed "envelope name_id is outside the u16 section identity space")
  ok (record f { name_id = some id })

unfoldable pub read_context : Fields → Value → Checked Fields
read_context f value = do
  fail_if (is_some f.context) duplicate
  t ← some_or (as_text value) (malformed "envelope context is not text")
  ok (record f { context = some t })

unfoldable pub read_ct : Fields → Value → Checked Fields
read_ct f value = do
  fail_if (is_some f.ciphertext) duplicate
  b ← some_or (as_bytes value) (malformed "envelope ct is not bytes")
  ok (record f { ciphertext = some b })

unfoldable pub read_wrapped : Fields → Value → Checked Fields
read_wrapped f value = do
  fail_if (is_some f.wrapped) duplicate
  b ← some_or (as_bytes value) (malformed "envelope wrapped is not bytes")
  ok (record f { wrapped = some b })

-- `match name`
unfoldable pub read_entry : Fields → List ℕ → Value → Checked Fields
unfolding read_name_id read_context read_ct read_wrapped
read_entry f name value =
    if bytes_eq name name_id_key
    then read_name_id f value
    else if bytes_eq name context_key
    then read_context f value
    else if bytes_eq name ct_key
    then read_ct f value
    else if bytes_eq name wrapped_key
    then read_wrapped f value
    else err (malformed "envelope has an unknown map key")

unfoldable pub read_entries : Fields → List (Value × Value) → Checked Fields
unfolding read_entry
read_entries f [] = ok f
read_entries f ((key, value) ∷ rest) = do
  name ← some_or (as_text key) (malformed "envelope map key is not text")
  f' ← read_entry f name value
  read_entries f' rest

unfoldable pub from_cbor : Value → Checked Envelope
unfolding read_entries
from_cbor v = do
  entries ← some_or (as_map v) (malformed "envelope is not a CBOR map")
  f ← read_entries no_fields entries
  name_id ← some_or f.name_id (malformed "envelope is missing name_id")
  context ← some_or f.context (malformed "envelope is missing context")
  ciphertext ← some_or f.ciphertext (malformed "envelope is missing ct")
  wrapped ← some_or f.wrapped (malformed "envelope is missing wrapped")
  ok (record { name_id = name_id; context = context; ciphertext = ciphertext; wrapped = wrapped })

-- `map_err(|_| error)`
unfoldable pub or_error : {A : Type 0} → Result A → SuiteError → Checked A
or_error (Result.ok a) e = ok a
or_error (Result.err _) e = err e

unfoldable pub to_bytes : Envelope → Checked (List ℕ)
unfolding or_error
to_bytes e = or_error (Cbor.encode (to_cbor e)) (malformed "envelope CBOR encoding failed")

unfoldable pub from_bytes : List ℕ → Checked Envelope
unfolding or_error
from_bytes b = do
  value ← or_error (Cbor.decode b) (malformed "envelope is not canonical CBOR")
  from_cbor value
