-- ===== src/Progress.antt =====
-- ctf-format/crates/ctf-format/src/progress.rs: the progress payload that is sealed to a new holder. A `str`
-- is its UTF-8 bytes. What the random source draws for the content key is `drawn`.
pub mod RoundTrip
mod Tests
use sidequests.Common.{
  ℕ, String, List, [], ◌∷◌, ◌++◌, Bool, not, Option, none, some, length, replicate, ◌==◌,
}
use sidequests.Outcome.{ok, err, ◌>>=◌, ◌>>◌, fail_if, some_or}
use sidequests.Wire.{to_le}
use sidequests.Cbor.{Value, bytes, text, map, entry, end}
use sidequests.Cbor
use sidequests.Cbor.Access.{and_then, get, as_bytes, as_map}
use sidequests.Crypto.Errors.{SuiteError, Role, primitive}
use sidequests.Crypto.Crates.{Crates}
use sidequests.Crypto.Roles.{Draws, Aead, Checked}
use sidequests.Crypto.Kem.{prefixed}
use sidequests.Crypto.Registry.{suite, aead_of}
use sidequests.Envelope.{Envelope, ct_key, to_cbor, from_cbor, seal, open_envelope, or_error}

-- "ctf/progress/v1"
abbrev pub progress_aad_label : List ℕ
progress_aad_label =
    99 ∷ 116 ∷ 102 ∷ 47 ∷ 112 ∷ 114 ∷ 111 ∷ 103 ∷ 114 ∷ 101 ∷ 115 ∷ 115 ∷ 47 ∷ 118 ∷ 49 ∷ []

-- "holder"
abbrev pub holder_context : List ℕ
holder_context = 104 ∷ 111 ∷ 108 ∷ 100 ∷ 101 ∷ 114 ∷ []

-- "envelope"
abbrev pub envelope_key : List ℕ
envelope_key = 101 ∷ 110 ∷ 118 ∷ 101 ∷ 108 ∷ 111 ∷ 112 ∷ 101 ∷ []

abbrev pub progress_name_id : ℕ
progress_name_id = 0

abbrev pub malformed_payload : String → SuiteError
malformed_payload reason = primitive Role.aead reason

unfoldable pub progress_aad : ℕ → (challenge subject : List ℕ) → List ℕ
unfolding to_le prefixed
progress_aad suite_id challenge subject =
    progress_aad_label ++ (to_le 2 suite_id ++ (prefixed challenge ++ prefixed subject))

-- `stream::fresh_content_key`
unfoldable pub fresh_content_key : Option (List ℕ) → Checked (List ℕ)
fresh_content_key drawn = some_or drawn (primitive Role.aead "system random source failed")

-- The envelope of the content key, and the ciphertext under it.
unfoldable pub seal_parts :
    Crates
    → Draws
    → (drawn : Option (List ℕ)) → (suite_id version_major : ℕ)
    → (holder_public_key challenge subject plaintext : List ℕ) → Checked (Envelope × List ℕ)
seal_parts c draws drawn suite_id version_major holder_public_key challenge subject plaintext = do
  s ← suite c suite_id
  aead ← aead_of s
  content_key ← fresh_content_key drawn
  fail_if (not (length content_key == 32))
      (malformed_payload "fresh content key is not the frozen 32-byte size")
  envelope ←
      seal c draws content_key holder_public_key suite_id version_major progress_name_id
        holder_context
  ct ←
      aead.seal content_key (replicate aead.nonce_len 0) (progress_aad suite_id challenge subject)
        plaintext
  ok (envelope, ct)

unfoldable pub payload_value : Envelope → List ℕ → Value
payload_value envelope ct =
    map (entry (text envelope_key) (to_cbor envelope) (entry (text ct_key) (bytes ct) end))

unfoldable pub payload_bytes : Envelope × List ℕ → Checked (List ℕ)
payload_bytes (envelope, ct) =
    or_error (Cbor.encode (payload_value envelope ct))
      (malformed_payload "progress payload could not be encoded")

unfoldable pub seal_progress :
    Crates
    → Draws
    → (drawn : Option (List ℕ)) → (suite_id version_major : ℕ)
    → (holder_public_key challenge subject plaintext : List ℕ) → Checked (List ℕ)
seal_progress c draws drawn suite_id version_major holder_public_key challenge subject plaintext =
    seal_parts c draws drawn suite_id version_major holder_public_key challenge subject plaintext
    >>= payload_bytes

-- The envelope and the ciphertext of a payload.
unfoldable pub read_parts : Value → Checked (Envelope × List ℕ)
read_parts value = do
  entries ← some_or (as_map value) (malformed_payload "progress payload is not a CBOR map")
  fail_if (not (length entries == 2))
      (malformed_payload "progress payload does not have exactly `envelope` and `ct`")
  envelope_value ←
      some_or (get envelope_key value) (malformed_payload "progress payload is missing `envelope`")
  ct ←
      some_or (and_then (get ct_key value) as_bytes)
        (malformed_payload "progress payload is missing `ct` or it is not bytes")
  envelope ← from_cbor envelope_value
  fail_if (not (envelope.name_id == progress_name_id))
      (malformed_payload "progress payload envelope does not carry `name_id` 0")
  ok (envelope, ct)

unfoldable pub open_parts :
    Crates
    → (suite_id version_major : ℕ) → (holder_secret_key challenge subject : List ℕ)
    → Envelope × List ℕ
    → Checked (List ℕ)
open_parts c suite_id version_major holder_secret_key challenge subject (envelope, ct) = do
  content_key ← open_envelope c envelope holder_secret_key suite_id version_major holder_context
  s ← suite c suite_id
  aead ← aead_of s
  aead.open_sealed content_key (replicate aead.nonce_len 0)
      (progress_aad suite_id challenge subject) ct

unfoldable pub open_progress :
    Crates
    → (suite_id version_major : ℕ) → (holder_secret_key challenge subject payload : List ℕ)
    → Checked (List ℕ)
open_progress c suite_id version_major holder_secret_key challenge subject payload = do
  value ←
      or_error (Cbor.decode payload) (malformed_payload "progress payload is not canonical CBOR")
  parts ← read_parts value
  open_parts c suite_id version_major holder_secret_key challenge subject parts
