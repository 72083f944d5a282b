-- ===== src/Crypto/Aead.antt =====
-- ctf-format/crates/ctf-format/src/crypto/aead.rs: the two AEADs, over their crates.
use sidequests.Common.{ℕ, List, Bool, not, length, Option}
use sidequests.Outcome.{◌>>◌, fail_if, some_or}
use sidequests.Crypto.Errors.{SuiteError, Role, invalid_length, primitive}
use sidequests.Crypto.Crates.{Crates}
use sidequests.Crypto.Roles.{Aead, Checked}

-- What both AEADs do with a crate's operation: the key and the nonce must fit.
unfoldable pub with_lengths :
    (key_fits nonce_fits : List ℕ → Bool) (key_len nonce_len : ℕ) (failed : SuiteError)
    → ((key nonce aad text : List ℕ) → Option (List ℕ))
    → (key nonce aad text : List ℕ) → Checked (List ℕ)
with_lengths key_fits nonce_fits key_len nonce_len failed operation key nonce aad text = do
  fail_if (not (key_fits key)) (invalid_length Role.aead key_len (length key))
  fail_if (not (nonce_fits nonce)) (invalid_length Role.aead nonce_len (length nonce))
  some_or (operation key nonce aad text) failed

unfoldable pub aes_256_gcm : Crates → Aead
unfolding with_lengths
aes_256_gcm c = record {
  key_len = 32;
  nonce_len = 12;
  tag_len = 16;
  seal =
      with_lengths c.aes_key_fits c.aes_nonce_fits 32 12
        (primitive Role.aead "AES-256-GCM sealing failed") c.aes_seal;
  open_sealed =
      with_lengths c.aes_key_fits c.aes_nonce_fits 32 12
        (primitive Role.aead "AES-256-GCM authentication failed") c.aes_open;
}

unfoldable pub xchacha20_poly1305 : Crates → Aead
unfolding with_lengths
xchacha20_poly1305 c = record {
  key_len = 32;
  nonce_len = 24;
  tag_len = 16;
  seal =
      with_lengths c.chacha_key_fits c.chacha_nonce_fits 32 24
        (primitive Role.aead "XChaCha20-Poly1305 sealing failed") c.chacha_seal;
  open_sealed =
      with_lengths c.chacha_key_fits c.chacha_nonce_fits 32 24
        (primitive Role.aead "XChaCha20-Poly1305 authentication failed") c.chacha_open;
}
