-- ===== src/Crypto/Tests.antt =====
-- The theorems about sections that are sealed chunk by chunk, and about signatures, at small inputs.
use sidequests.Common.{ℕ, ◌≡◌, refl, List, [], ◌∷◌, ◌++◌, true, replicate, arith}
use sidequests.Outcome.{ok, err}
use sidequests.Wire.{to_le, to_be}
use sidequests.Chunk.{is_power_of_two, is_pow2_below, div_ceil}
use sidequests.Footer.{Footer, checked_sub}
use sidequests.Crypto.Errors.{SuiteError}
use sidequests.Crypto.Roles.{HybridPublicKey}
use sidequests.Crypto.Sign.{
  classical_verify, ml_dsa_verify, check_lengths, verify_two, ed25519_mldsa65,
}
use sidequests.Crypto.Registry.{suite, find_suite, signature_of, verified, verify_footer}
use sidequests.Crypto.Verified.{FooterVerified, verify_footer-verified}
use sidequests.Crypto.Stream.{
  Session, session, check_key, nonce_prefix, validate_chunk_size, stream_chunk_count, chunk_nonce,
  chunk_aad, seal_frame, seal_frames, cut_chunks, seal_chunked_frames, seal_chunked, open_chunked,
  open_chunked_frames, open_frames,
}
use sidequests.Crypto.Stream.RoundTrip.{open_chunked-seal_chunked}
use sidequests.Crypto.Stream.Nonces.{Place, chunk_nonce-separates}
use sidequests.Crypto.Stream.Cut.{seal_front, open_chunked_frames-cut}
use sidequests.Crypto.Stream.Fuel.{open_frames_fuel}
use sidequests.Crypto.Samples.{
  sample_aead, sample_aead-IsAead, sample_aead-IsBinding, sample_crates,
}

abbrev sample_key : List ℕ
sample_key = 1 ∷ 2 ∷ []

abbrev sample_plain : List ℕ
sample_plain = 8 ∷ 9 ∷ []

-- Section 3, suite 1, the prefix of its nonces.
abbrev sample_prefix : List ℕ
sample_prefix = 3 ∷ 0 ∷ 0 ∷ []

abbrev one_frame : List ℕ
one_frame =
    27 ∷ 0 ∷ 0 ∷ 0 ∷ 8 ∷ (sample_prefix ++ (0 ∷ 0 ∷ 0 ∷ 0 ∷ 1 ∷ []))
    ++ (replicate 16 0 ++ sample_plain)

sealed : seal_chunked sample_aead sample_key 3 1 4096 sample_plain ≡ ok one_frame
unfolding seal_chunked validate_chunk_size stream_chunk_count cut_chunks seal_chunked_frames
    check_key nonce_prefix seal_frames seal_frame chunk_nonce chunk_aad to_le to_be is_power_of_two
    is_pow2_below div_ceil checked_sub
sealed = refl

open_chunked-seal_chunked_example :
    open_chunked sample_aead sample_key 3 1 4096 2 one_frame ≡ ok sample_plain
open_chunked-seal_chunked_example =
    open_chunked-seal_chunked sample_aead sample_key 3 1 4096 sample_plain one_frame
      sample_aead-IsAead (unfold stream_chunk_count div_ceil in omega arith) sealed

prefix_made : nonce_prefix 3 8 ≡ ok sample_prefix
unfolding nonce_prefix checked_sub to_le
prefix_made = refl

abbrev two_frames : List ℕ
two_frames =
    (26 ∷ 0 ∷ 0 ∷ 0 ∷ 8 ∷ (sample_prefix ++ (0 ∷ 0 ∷ 0 ∷ 0 ∷ 0 ∷ []))
      ++ (replicate 16 0 ++ (8 ∷ [])))
    ++ (26 ∷ 0 ∷ 0 ∷ 0 ∷ 8 ∷ (sample_prefix ++ (0 ∷ 0 ∷ 0 ∷ 1 ∷ 1 ∷ []))
        ++ (replicate 16 0 ++ (9 ∷ [])))

both_sealed :
    seal_chunked_frames sample_aead sample_key 3 1 2 (((8 ∷ []) ∷ []) ++ ((9 ∷ []) ∷ []))
    ≡ ok two_frames
unfolding seal_chunked_frames check_key nonce_prefix seal_frames seal_frame chunk_nonce chunk_aad
    to_le to_be checked_sub
both_sealed = refl

open_chunked_frames-cut_example :
    (first : List ℕ) × (later : List ℕ) × (seal_front
        (session sample_aead sample_key 3 1 2 sample_prefix)
        0
        ((8 ∷ []) ∷ [])
      ≡ ok first)
    × (two_frames ≡ first ++ later)
    × ((bad : SuiteError) × (open_chunked_frames sample_aead sample_key 3 1 2 first ≡ err bad))
open_chunked_frames-cut_example =
    open_chunked_frames-cut sample_aead sample_key 3 1 2 sample_prefix (8 ∷ []) [] (9 ∷ []) []
      two_frames sample_aead-IsAead sample_aead-IsBinding prefix_made both_sealed

abbrev sample_place : Place
sample_place = record { section_id = 3; index = 1; final_chunk = true }

chunk_nonce-separates_example : sample_place ≡ sample_place
chunk_nonce-separates_example =
    chunk_nonce-separates sample_place sample_place 8 sample_prefix sample_prefix
      (record { section = omega arith; chunk = omega arith })
      (record { section = omega arith; chunk = omega arith }) prefix_made prefix_made refl

abbrev sample_session : Session
sample_session = session sample_aead sample_key 3 1 2 sample_prefix

open_frames_fuel_example :
    open_frames sample_session one_frame 31 0 0 ≡ open_frames sample_session one_frame 1000 0 0
open_frames_fuel_example =
    open_frames_fuel sample_session one_frame 31 1000 0 0 (omega arith) (omega arith)

abbrev signed_footer : Footer
signed_footer = record {
  root = replicate 32 7;
  sig_classical = replicate 64 0;
  sig_pq = replicate 3309 0;
  total_len = 9000;
}

abbrev sample_public : HybridPublicKey
sample_public = record { classical = replicate 32 0; pq = replicate 1952 0 }

footer_verifies : verify_footer sample_crates 1 signed_footer sample_public ≡ ok verified
unfolding verify_footer suite find_suite signature_of ed25519_mldsa65 verify_two check_lengths
    classical_verify ml_dsa_verify
footer_verifies = refl

verify_footer-verified_example : FooterVerified sample_crates 1 signed_footer sample_public
verify_footer-verified_example =
    verify_footer-verified sample_crates 1 signed_footer sample_public footer_verifies
