-- ===== src/Crypto/Roles.antt =====
-- ctf-format/crates/ctf-format/src/suite.rs: the traits of the roles, as records of their methods.
use sidequests.Common.{ℕ, List, Option, String}
use sidequests.Outcome.{Outcome}
use sidequests.Crypto.Errors.{SuiteError}

pub record KemContext : Type 0 where
  pub suite_id : ℕ
  pub version_major : ℕ
  pub label : List ℕ

pub record HybridPublicKey : Type 0 where
  pub classical : List ℕ
  pub pq : List ℕ

pub record HybridSigningKey : Type 0 where
  pub classical : List ℕ
  pub pq : List ℕ

pub record HybridSignature : Type 0 where
  pub classical : List ℕ
  pub pq : List ℕ

abbrev pub Checked : Type 0 → Type 0
Checked A = Outcome SuiteError A

pub record Kdf : Type 0 where
  pub derive : (ikm salt info : List ℕ) (out_len : ℕ) → Checked (List ℕ)

-- What an encapsulation draws at random: the coins of ml-kem, and the ephemeral X25519 key, where the
-- system's source of randomness gives one.
pub record Draws : Type 0 where
  pub coins : List ℕ
  pub ephemeral : Option (List ℕ)

pub record Kem : Type 0 where
  pub public_key_len : ℕ
  pub secret_key_len : ℕ
  pub ciphertext_len : ℕ
  pub shared_secret_len : ℕ
  pub encapsulate : Draws → List ℕ → KemContext → Checked (List ℕ × List ℕ)
  pub decapsulate : (secret_key ciphertext : List ℕ) → KemContext → Checked (List ℕ)

pub record Aead : Type 0 where
  pub key_len : ℕ
  pub nonce_len : ℕ
  pub tag_len : ℕ
  pub seal : (key nonce aad plain : List ℕ) → Checked (List ℕ)
  pub open_sealed : (key nonce aad sealed : List ℕ) → Checked (List ℕ)

pub record Signature : Type 0 where
  pub classical_public_key_len : ℕ
  pub classical_signature_len : ℕ
  pub pq_public_key_len : ℕ
  pub pq_signature_len : ℕ
  pub sign : List ℕ → HybridSigningKey → Checked HybridSignature
  pub verify : List ℕ → HybridPublicKey → HybridSignature → Checked (Unit {0})

pub data HashId : Type 0 where
  blake3 : HashId

pub data KdfId : Type 0 where
  hkdf_sha256 : KdfId

pub data KemId : Type 0 where
  x25519_mlkem768 : KemId

pub data AeadId : Type 0 where
  aes_256_gcm xchacha20_poly1305 : AeadId

pub data SignatureId : Type 0 where
  ed25519_mldsa65 ed25519_mldsa65_slhdsa : SignatureId

pub record Suite : Type 0 where
  pub id : ℕ
  pub name : String
  pub hash_id : HashId
  pub kdf_id : KdfId
  pub kem_id : KemId
  pub aead_id : AeadId
  pub signature_id : SignatureId
  pub hash : List ℕ → List ℕ
  pub kdf : Option Kdf
  pub kem : Option Kem
  pub aead : Option Aead
  pub signature : Option Signature
