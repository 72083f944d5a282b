-- ===== src/Crypto/Crates.antt =====
-- The cryptographic crates that ctf-format/crates/ctf-format/src/crypto/ calls: aws-lc-rs,
-- chacha20poly1305, ml-dsa, slh-dsa, ml-kem and blake3. What a crate refuses is `none` or `false`.
use sidequests.Common.{ℕ, Bool, List, Option}

pub record Crates : Type 0 where
  -- blake3::hash
  pub blake3 : List ℕ → List ℕ
  -- aws_lc_rs::aead: UnboundKey::new, Nonce::try_assume_unique_for_key, and the two operations
  pub aes_key_fits : List ℕ → Bool
  pub aes_nonce_fits : List ℕ → Bool
  pub aes_seal : (key nonce aad plain : List ℕ) → Option (List ℕ)
  pub aes_open : (key nonce aad sealed : List ℕ) → Option (List ℕ)
  -- chacha20poly1305
  pub chacha_key_fits : List ℕ → Bool
  pub chacha_nonce_fits : List ℕ → Bool
  pub chacha_seal : (key nonce aad plain : List ℕ) → Option (List ℕ)
  pub chacha_open : (key nonce aad sealed : List ℕ) → Option (List ℕ)
  -- aws_lc_rs::hkdf: expand, then fill
  pub hkdf_expand : (salt ikm info : List ℕ) (out_len : ℕ) → Option (Option (List ℕ))
  -- aws_lc_rs::signature, ml_dsa and slh_dsa
  pub ed25519_sign : (seed transcript : List ℕ) → Option (List ℕ)
  pub ed25519_verify : (public_key transcript signature : List ℕ) → Bool
  pub ml_dsa_sign : (seed transcript : List ℕ) → Option (List ℕ)
  pub ml_dsa_key_fits : List ℕ → Bool
  pub ml_dsa_decodes : List ℕ → Bool
  pub ml_dsa_verify : (public_key transcript signature : List ℕ) → Bool
  pub slh_dsa_sign : (key transcript : List ℕ) → Option (List ℕ)
  pub slh_dsa_key_fits : List ℕ → Bool
  pub slh_dsa_decodes : List ℕ → Bool
  pub slh_dsa_verify : (public_key transcript signature : List ℕ) → Bool
  -- aws_lc_rs::agreement on X25519
  pub x25519_private : List ℕ → Bool
  pub x25519_public : List ℕ → Option (List ℕ)
  pub x25519_agree : (secret peer : List ℕ) → Option (List ℕ)
  -- ml_kem: the key of its bytes, and the operations; `coins` is the randomness it draws
  pub mlkem_key_fits : List ℕ → Bool
  pub mlkem_key_valid : List ℕ → Bool
  pub mlkem_encapsulate : (key coins : List ℕ) → List ℕ × List ℕ
  pub mlkem_seed_fits : List ℕ → Bool
  pub mlkem_decapsulate : (seed ciphertext : List ℕ) → List ℕ
  pub mlkem_public : List ℕ → List ℕ
