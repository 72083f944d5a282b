-- ===== src/Crypto/Sign.antt =====
-- ctf-format/crates/ctf-format/src/crypto/sign.rs: the hybrid signatures. Key generation, which only
-- draws randomness and calls the crates, is left out.
use sidequests.Common.{ℕ, List, ◌++◌, not, ◌||◌, length, take, drop, ◌==◌}
use sidequests.Outcome.{ok, ◌>>=◌, ◌>>◌, fail_if, some_or}
use sidequests.Crypto.Errors.{SuiteError, Role, invalid_length, invalid_key, verification_failed}
use sidequests.Crypto.Crates.{Crates}
use sidequests.Crypto.Roles.{Signature, HybridPublicKey, HybridSigningKey, HybridSignature, Checked}

abbrev pub ed25519_public_key_len : ℕ
ed25519_public_key_len = 32

abbrev pub ed25519_signature_len : ℕ
ed25519_signature_len = 64

abbrev pub ml_dsa_65_public_key_len : ℕ
ml_dsa_65_public_key_len = 1952

abbrev pub ml_dsa_65_signature_len : ℕ
ml_dsa_65_signature_len = 3309

abbrev pub ml_dsa_65_signing_key_len : ℕ
ml_dsa_65_signing_key_len = 32

abbrev pub slh_dsa_sha2_128s_public_key_len : ℕ
slh_dsa_sha2_128s_public_key_len = 32

abbrev pub slh_dsa_sha2_128s_signature_len : ℕ
slh_dsa_sha2_128s_signature_len = 7856

abbrev pub slh_dsa_sha2_128s_signing_key_len : ℕ
slh_dsa_sha2_128s_signing_key_len = 64

abbrev pub key_error : SuiteError
key_error = invalid_key Role.signature

abbrev pub length_error : (expected got : ℕ) → SuiteError
length_error expected got = invalid_length Role.signature expected got

unfoldable pub classical_sign : Crates → (seed transcript : List ℕ) → Checked (List ℕ)
classical_sign c seed transcript = some_or (c.ed25519_sign seed transcript) key_error

unfoldable pub classical_verify :
    Crates → (public_key transcript signature : List ℕ) → Checked (Unit {0})
classical_verify c public_key transcript signature =
    fail_if (not (c.ed25519_verify public_key transcript signature))
      (verification_failed "classical")

unfoldable pub ml_dsa_sign : Crates → (seed transcript : List ℕ) → Checked (List ℕ)
ml_dsa_sign c seed transcript = some_or (c.ml_dsa_sign seed transcript) key_error

unfoldable pub ml_dsa_verify :
    Crates → (public_key transcript signature : List ℕ) → Checked (Unit {0})
ml_dsa_verify c public_key transcript signature = do
  fail_if (not (c.ml_dsa_key_fits public_key)) key_error
  fail_if (not (c.ml_dsa_decodes signature)) (verification_failed "pq")
  fail_if (not (c.ml_dsa_verify public_key transcript signature)) (verification_failed "pq")

unfoldable pub slh_dsa_sign : Crates → (signing_key transcript : List ℕ) → Checked (List ℕ)
slh_dsa_sign c signing_key transcript = some_or (c.slh_dsa_sign signing_key transcript) key_error

unfoldable pub slh_dsa_verify :
    Crates → (public_key transcript signature : List ℕ) → Checked (Unit {0})
slh_dsa_verify c public_key transcript signature = do
  fail_if (not (c.slh_dsa_key_fits public_key)) (verification_failed "slh-dsa")
  fail_if (not (c.slh_dsa_decodes signature)) (verification_failed "slh-dsa")
  fail_if (not (c.slh_dsa_verify public_key transcript signature)) (verification_failed "slh-dsa")

-- The lengths that both `verify` methods ask of the components and of the keys.
unfoldable pub check_lengths :
    (sig_classical_len sig_pq_len key_classical_len key_pq_len : ℕ)
    → HybridPublicKey
    → HybridSignature
    → Checked (Unit {0})
check_lengths sig_classical_len sig_pq_len key_classical_len key_pq_len public_key sig = do
  fail_if (not (length sig.classical == sig_classical_len))
      (length_error sig_classical_len (length sig.classical))
  fail_if (not (length sig.pq == sig_pq_len)) (length_error sig_pq_len (length sig.pq))
  fail_if
      (not (length public_key.classical == key_classical_len)
        || not (length public_key.pq == key_pq_len))
      key_error

-- `Ed25519MlDsa65`
unfoldable pub sign_two : Crates → List ℕ → HybridSigningKey → Checked HybridSignature
unfolding classical_sign ml_dsa_sign
sign_two c transcript signing_key = do
  classical ← classical_sign c signing_key.classical transcript
  pq ← ml_dsa_sign c signing_key.pq transcript
  ok (record { classical = classical; pq = pq })

unfoldable pub verify_two : Crates → List ℕ → HybridPublicKey → HybridSignature → Checked (Unit {0})
verify_two c transcript public_key sig = do
  check_lengths ed25519_signature_len ml_dsa_65_signature_len ed25519_public_key_len
      ml_dsa_65_public_key_len public_key sig
  classical_verify c public_key.classical transcript sig.classical
  ml_dsa_verify c public_key.pq transcript sig.pq

-- `Ed25519MlDsa65SlhDsa`: the post-quantum component is the two signatures, one behind the other.
unfoldable pub sign_three : Crates → List ℕ → HybridSigningKey → Checked HybridSignature
unfolding classical_sign ml_dsa_sign slh_dsa_sign
sign_three c transcript signing_key = do
  fail_if (not (length signing_key.pq == 96)) key_error
  ml_dsa ← ml_dsa_sign c (take ml_dsa_65_signing_key_len signing_key.pq) transcript
  slh_dsa ← slh_dsa_sign c (drop ml_dsa_65_signing_key_len signing_key.pq) transcript
  classical ← classical_sign c signing_key.classical transcript
  ok (record { classical = classical; pq = ml_dsa ++ slh_dsa })

unfoldable pub verify_three :
    Crates → List ℕ → HybridPublicKey → HybridSignature → Checked (Unit {0})
verify_three c transcript public_key sig = do
  check_lengths ed25519_signature_len 11165 ed25519_public_key_len 1984 public_key sig
  classical_verify c public_key.classical transcript sig.classical
  ml_dsa_verify c (take ml_dsa_65_public_key_len public_key.pq) transcript
      (take ml_dsa_65_signature_len sig.pq)
  slh_dsa_verify c (drop ml_dsa_65_public_key_len public_key.pq) transcript
      (drop ml_dsa_65_signature_len sig.pq)

unfoldable pub ed25519_mldsa65 : Crates → Signature
ed25519_mldsa65 c = record {
  classical_public_key_len = 32;
  classical_signature_len = 64;
  pq_public_key_len = 1952;
  pq_signature_len = 3309;
  sign = sign_two c;
  verify = verify_two c;
}

unfoldable pub ed25519_mldsa65_slhdsa : Crates → Signature
ed25519_mldsa65_slhdsa c = record {
  classical_public_key_len = 32;
  classical_signature_len = 64;
  pq_public_key_len = 1984;
  pq_signature_len = 11165;
  sign = sign_three c;
  verify = verify_three c;
}
