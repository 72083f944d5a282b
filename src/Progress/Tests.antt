-- ===== src/Progress/Tests.antt =====
-- A progress payload under a sample of the crates; and the theorem about payloads at it.
use sidequests.Common.{ℕ, ◌≡◌, refl, List, [], ◌∷◌, ◌++◌, some, replicate, arith}
use sidequests.Outcome.{ok}
use sidequests.Wire.{bytes_eq}
use sidequests.Common.Sort.{sort, insert}
use sidequests.Cbor
use sidequests.Crypto.Roles.{Draws}
use sidequests.Crypto.Aead.{aes_256_gcm}
use sidequests.Crypto.Kem.{
  x25519_public, x25519_agree, check_mlkem_ek, fixed, hkdf_sha256, combine, combine_salt,
  combine_info, encapsulate, x25519_mlkem768,
}
use sidequests.Crypto.Registry.{suite, find_suite, kem_of, aead_of}
use sidequests.Crypto.Decapsulates.{KeyPair, secret_key, public_key}
use sidequests.Crypto.Samples.{
  sample_crates, sample_crates-IsHybrid, sample_aes-IsAead, sample_chacha-IsAead,
}
use sidequests.Envelope.{Envelope, seal, to_cbor, or_error}
use sidequests.Progress.{
  fresh_content_key, seal_parts, payload_value, payload_bytes, seal_progress, open_progress,
  holder_context,
}
use sidequests.Progress.RoundTrip.{open_progress-seal_progress}

sample_pair : KeyPair sample_crates
sample_pair = record {
  x_secret = replicate 32 9;
  x_public = replicate 32 9;
  seed = replicate 64 9;
  is_private = refl;
  is_public = refl;
  x_len = refl;
  seed_len = refl;
  seed_fits = refl;
}

abbrev sample_draws : Draws
sample_draws = record { coins = []; ephemeral = some (replicate 32 8) }

abbrev content_key : List ℕ
content_key = replicate 32 6

abbrev sealed_envelope : Envelope
sealed_envelope = record {
  name_id = 0;
  context = holder_context;
  ciphertext = replicate 32 9 ++ replicate 1088 0;
  wrapped = 12 ∷ (replicate 12 0 ++ (replicate 16 0 ++ content_key));
}

-- The stage "2" that the subject "s" has earned in the challenge "c".
abbrev sealed_stage : List ℕ
sealed_stage = 12 ∷ (replicate 12 0 ++ (replicate 16 0 ++ (50 ∷ [])))

parts_sealed :
    seal_parts sample_crates sample_draws
      (some content_key)
      1
      0
      (public_key sample_crates sample_pair)
      (99 ∷ [])
      (115 ∷ [])
      (50 ∷ [])
    ≡ ok (sealed_envelope, sealed_stage)
unfolding seal_parts fresh_content_key seal suite find_suite kem_of aead_of x25519_mlkem768
    encapsulate check_mlkem_ek x25519_public x25519_agree fixed combine combine_salt combine_info
    hkdf_sha256 aes_256_gcm sample_pair
parts_sealed = refl

abbrev head_bytes : List ℕ
head_bytes =
    162 ∷ 98 ∷ 99 ∷ 116 ∷ 88 ∷ 30 ∷ 12 ∷ 0 ∷ 0 ∷ 0 ∷ 0 ∷ 0 ∷ 0 ∷ 0 ∷ 0 ∷ 0 ∷ 0 ∷ 0 ∷ 0 ∷ 0 ∷ 0 ∷ 0
    ∷ 0 ∷ 0 ∷ 0 ∷ 0 ∷ 0 ∷ 0 ∷ 0 ∷ 0 ∷ 0 ∷ 0 ∷ 0 ∷ 0 ∷ 0 ∷ 50 ∷ 104 ∷ 101 ∷ 110 ∷ 118 ∷ 101 ∷ 108
    ∷ 111 ∷ 112 ∷ 101 ∷ 164 ∷ 98 ∷ 99 ∷ 116 ∷ 89 ∷ 4 ∷ 96 ∷ []

abbrev tail_bytes : List ℕ
tail_bytes =
    103 ∷ 99 ∷ 111 ∷ 110 ∷ 116 ∷ 101 ∷ 120 ∷ 116 ∷ 102 ∷ 104 ∷ 111 ∷ 108 ∷ 100 ∷ 101 ∷ 114 ∷ 103
    ∷ 110 ∷ 97 ∷ 109 ∷ 101 ∷ 95 ∷ 105 ∷ 100 ∷ 0 ∷ 103 ∷ 119 ∷ 114 ∷ 97 ∷ 112 ∷ 112 ∷ 101 ∷ 100 ∷ 88
    ∷ 61 ∷ 12 ∷ 0 ∷ 0 ∷ 0 ∷ 0 ∷ 0 ∷ 0 ∷ 0 ∷ 0 ∷ 0 ∷ 0 ∷ 0 ∷ 0 ∷ 0 ∷ 0 ∷ 0 ∷ 0 ∷ 0 ∷ 0 ∷ 0 ∷ 0 ∷ 0
    ∷ 0 ∷ 0 ∷ 0 ∷ 0 ∷ 0 ∷ 0 ∷ 0 ∷ 6 ∷ 6 ∷ 6 ∷ 6 ∷ 6 ∷ 6 ∷ 6 ∷ 6 ∷ 6 ∷ 6 ∷ 6 ∷ 6 ∷ 6 ∷ 6 ∷ 6 ∷ 6 ∷ 6
    ∷ 6 ∷ 6 ∷ 6 ∷ 6 ∷ 6 ∷ 6 ∷ 6 ∷ 6 ∷ 6 ∷ 6 ∷ 6 ∷ 6 ∷ 6 ∷ 6 ∷ 6 ∷ []

abbrev payload : List ℕ
payload = head_bytes ++ (replicate 32 9 ++ (replicate 1088 0 ++ tail_bytes))

payload_written : payload_bytes (sealed_envelope, sealed_stage) ≡ ok payload
unfolding payload_bytes payload_value to_cbor or_error Cbor.encode Cbor.encode_into Cbor.put_head
    Cbor.bytes_lt Cbor.key_le Cbor.has_duplicate Cbor.write_entries Cbor.write_map
    Cbor.count_entries sort insert bytes_eq
payload_written = refl

progress_sealed :
    seal_progress sample_crates sample_draws
      (some content_key)
      1
      0
      (public_key sample_crates sample_pair)
      (99 ∷ [])
      (115 ∷ [])
      (50 ∷ [])
    ≡ ok payload
unfolding seal_progress
progress_sealed = rw (parts_sealed, payload_written) refl

open_progress-seal_progress_example :
    open_progress sample_crates 1 0
      (secret_key sample_crates sample_pair)
      (99 ∷ [])
      (115 ∷ [])
      payload
    ≡ ok (50 ∷ [])
open_progress-seal_progress_example =
    open_progress-seal_progress sample_crates sample_pair sample_draws (some content_key) 1 0
      (99 ∷ []) (115 ∷ []) (50 ∷ []) sealed_envelope sealed_stage payload sample_crates-IsHybrid
      sample_aes-IsAead sample_chacha-IsAead parts_sealed (omega arith) (omega arith)
      progress_sealed
