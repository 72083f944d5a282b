-- ===== src/Crypto/Registry.antt =====
-- ctf-format/crates/ctf-format/src/suite.rs: the registered suites; and `verify_footer` and
-- `sign_footer` of ctf-format/crates/ctf-format/src/crypto/sign.rs.
use sidequests.Common.{ℕ, List, [], ◌∷◌, ◌||◌, Option, none, some, length, ◌==◌, if◌then◌else◌}
use sidequests.Outcome.{ok, ◌>>=◌, ◌>>◌, fail_if, some_or}
use sidequests.Footer.{Footer, sig_input, footer_sig_input}
use sidequests.Crypto.Errors.{Role, unknown_suite, not_implemented, primitive}
use sidequests.Crypto.Crates.{Crates}
use sidequests.Crypto.Roles.{
  Suite, Kdf, Kem, Aead, Signature, HybridPublicKey, HybridSigningKey, HybridSignature, Checked,
  HashId, KdfId, KemId, AeadId, SignatureId,
}
use sidequests.Crypto.Aead.{aes_256_gcm, xchacha20_poly1305}
use sidequests.Crypto.Kem.{hkdf_sha256, x25519_mlkem768}
use sidequests.Crypto.Sign.{ed25519_mldsa65, ed25519_mldsa65_slhdsa}

abbrev pub suite_1 : Crates → Suite
suite_1 c = record {
  id = 1;
  name = "hybrid-aes";
  hash_id = HashId.blake3;
  kdf_id = KdfId.hkdf_sha256;
  kem_id = KemId.x25519_mlkem768;
  aead_id = AeadId.aes_256_gcm;
  signature_id = SignatureId.ed25519_mldsa65;
  hash = c.blake3;
  kdf = some (hkdf_sha256 c);
  kem = some (x25519_mlkem768 c);
  aead = some (aes_256_gcm c);
  signature = some (ed25519_mldsa65 c);
}

abbrev pub suite_2 : Crates → Suite
suite_2 c = record {
  id = 2;
  name = "hybrid-chacha";
  hash_id = HashId.blake3;
  kdf_id = KdfId.hkdf_sha256;
  kem_id = KemId.x25519_mlkem768;
  aead_id = AeadId.xchacha20_poly1305;
  signature_id = SignatureId.ed25519_mldsa65;
  hash = c.blake3;
  kdf = some (hkdf_sha256 c);
  kem = some (x25519_mlkem768 c);
  aead = some (xchacha20_poly1305 c);
  signature = some (ed25519_mldsa65 c);
}

abbrev pub suite_3 : Crates → Suite
suite_3 c = record {
  id = 3;
  name = "hybrid-archive";
  hash_id = HashId.blake3;
  kdf_id = KdfId.hkdf_sha256;
  kem_id = KemId.x25519_mlkem768;
  aead_id = AeadId.aes_256_gcm;
  signature_id = SignatureId.ed25519_mldsa65_slhdsa;
  hash = c.blake3;
  kdf = some (hkdf_sha256 c);
  kem = some (x25519_mlkem768 c);
  aead = some (aes_256_gcm c);
  signature = some (ed25519_mldsa65_slhdsa c);
}

abbrev pub registry : Crates → List Suite
registry c = suite_1 c ∷ suite_2 c ∷ suite_3 c ∷ []

unfoldable pub find_suite : ℕ → List Suite → Option Suite
find_suite id [] = none
find_suite id (s ∷ rest) = let later = find_suite id rest in if s.id == id then some s else later

unfoldable pub suite : Crates → ℕ → Checked Suite
unfolding find_suite
suite c id = some_or (find_suite id (registry c)) (unknown_suite id)

unfoldable pub kdf_of : Suite → Checked Kdf
kdf_of s = some_or s.kdf (not_implemented s.id Role.kdf)

unfoldable pub kem_of : Suite → Checked Kem
kem_of s = some_or s.kem (not_implemented s.id Role.kem)

unfoldable pub aead_of : Suite → Checked Aead
aead_of s = some_or s.aead (not_implemented s.id Role.aead)

unfoldable pub signature_of : Suite → Checked Signature
signature_of s = some_or s.signature (not_implemented s.id Role.signature)

-- `Authentication`, which only a verification makes.
pub data Authentication : Type 0 where
  verified : Authentication

unfoldable pub verify_footer : Crates → ℕ → Footer → HybridPublicKey → Checked Authentication
verify_footer c suite_id footer public_key = do
  fail_if (length footer.sig_classical == 0 || length footer.sig_pq == 0)
      (primitive Role.signature "footer is unsigned; there is nothing to authenticate")
  s ← suite c suite_id
  role ← signature_of s
  role.verify (footer_sig_input footer suite_id) public_key
      (record { classical = footer.sig_classical; pq = footer.sig_pq })
  ok verified

unfoldable pub sign_footer :
    Crates
    → (suite_id : ℕ) (root : List ℕ) (total_len sig_classical_len sig_pq_len : ℕ) → HybridSigningKey
    → Checked HybridSignature
sign_footer c suite_id root total_len sig_classical_len sig_pq_len signing_key = do
  s ← suite c suite_id
  role ← signature_of s
  role.sign (sig_input suite_id sig_classical_len sig_pq_len root total_len) signing_key
