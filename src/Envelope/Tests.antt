-- ===== src/Envelope/Tests.antt =====
-- The theorems about envelopes at small inputs.
use sidequests.Common.{ℕ, ◌≡◌, refl, List, [], ◌∷◌, ◌++◌, replicate, some, arith}
use sidequests.Common.Sort.{sort, insert}
use sidequests.Outcome.{ok}
use sidequests.Wire.{bytes_eq}
use sidequests.Utf8.{is_utf8, is_utf8_from, lead_byte, next_state}
use sidequests.Cbor.{
  put_head, bytes_lt, key_le, has_duplicate, write_entries, write_map, encode_into, count_entries,
}
use sidequests.Cbor
use sidequests.Crypto.Roles.{Draws}
use sidequests.Crypto.Aead.{aes_256_gcm}
use sidequests.Crypto.Kem.{
  x25519_public, x25519_agree, check_mlkem_ek, fixed, hkdf_sha256, combine, combine_salt,
  combine_info, encapsulate, x25519_mlkem768,
}
use sidequests.Crypto.Registry.{suite, find_suite, kem_of, aead_of}
use sidequests.Crypto.Decapsulates.{KeyPair, secret_key, public_key}
use sidequests.Crypto.Samples.{
  sample_crates, sample_crates-IsHybrid, sample_aes-IsAead, sample_chacha-IsAead,
}
use sidequests.Envelope.{Envelope, envelope_aad, seal, open_envelope, to_cbor, or_error, to_bytes}
use sidequests.Envelope.RoundTrip.{IsTyped}
use sidequests.Envelope.Delivery.{open_envelope-seal}

-- The context is "s".
abbrev small_envelope : Envelope
small_envelope = record { name_id = 3; context = 115 ∷ []; ciphertext = 1 ∷ []; wrapped = 2 ∷ [] }

small_envelope-IsTyped : IsTyped small_envelope
unfolding is_utf8 is_utf8_from lead_byte next_state
small_envelope-IsTyped = record {
  name_id = omega arith;
  context = omega arith;
  utf8 = refl;
  ciphertext = omega arith;
  wrapped = omega arith;
}

abbrev envelope_bytes : List ℕ
envelope_bytes =
    164 ∷ 98 ∷ 99 ∷ 116 ∷ 65 ∷ 1 ∷ 103 ∷ 99 ∷ 111 ∷ 110 ∷ 116 ∷ 101 ∷ 120 ∷ 116 ∷ 97 ∷ 115 ∷ 103
    ∷ 110 ∷ 97 ∷ 109 ∷ 101 ∷ 95 ∷ 105 ∷ 100 ∷ 3 ∷ 103 ∷ 119 ∷ 114 ∷ 97 ∷ 112 ∷ 112 ∷ 101 ∷ 100 ∷ 65
    ∷ 2 ∷ []

envelope_written : to_bytes small_envelope ≡ ok envelope_bytes
unfolding to_bytes to_cbor or_error Cbor.encode encode_into put_head bytes_lt key_le has_duplicate
    write_entries write_map count_entries sort insert bytes_eq
envelope_written = refl

sample_pair : KeyPair sample_crates
sample_pair = record {
  x_secret = replicate 32 9;
  x_public = replicate 32 9;
  seed = replicate 64 9;
  is_private = refl;
  is_public = refl;
  x_len = refl;
  seed_len = refl;
  seed_fits = refl;
}

abbrev sample_draws : Draws
sample_draws = record { coins = []; ephemeral = some (replicate 32 8) }

abbrev content_key : List ℕ
content_key = replicate 32 6

abbrev sealed_envelope : Envelope
sealed_envelope = record {
  name_id = 3;
  context = 115 ∷ [];
  ciphertext = replicate 32 9 ++ replicate 1088 0;
  wrapped = 12 ∷ (replicate 12 0 ++ (replicate 16 0 ++ content_key));
}

envelope_sealed :
    seal sample_crates sample_draws content_key
      (public_key sample_crates sample_pair)
      1
      0
      3
      (115 ∷ [])
    ≡ ok sealed_envelope
unfolding seal suite find_suite kem_of aead_of x25519_mlkem768 encapsulate check_mlkem_ek
    x25519_public x25519_agree fixed combine combine_salt combine_info hkdf_sha256 aes_256_gcm
    envelope_aad sample_pair
envelope_sealed = refl

open_envelope-seal_example :
    open_envelope sample_crates sealed_envelope
      (secret_key sample_crates sample_pair)
      1
      0
      (115 ∷ [])
    ≡ ok content_key
open_envelope-seal_example =
    open_envelope-seal sample_crates sample_pair sample_draws content_key 1 0 3 (115 ∷ [])
      sealed_envelope sample_crates-IsHybrid sample_aes-IsAead sample_chacha-IsAead refl
      envelope_sealed
