-- ===== src/Crypto/Kem.antt =====
-- ctf-format/crates/ctf-format/src/crypto/hybrid_kem.rs and kdf.rs: X25519 and ML-KEM-768 combined by
-- HKDF-SHA256, and the length prefix of crypto/mod.rs.
use sidequests.Common.{ℕ, List, [], ◌∷◌, ◌++◌, not, length, take, drop, ltb, ◌==◌, if◌then◌else◌}
use sidequests.Outcome.{ok, err, ◌>>=◌, ◌>>◌, fail_if, some_or}
use sidequests.Wire.{to_le}
use sidequests.Footer.{root_len}
use sidequests.Crypto.Errors.{Role, invalid_length, invalid_key, primitive}
use sidequests.Crypto.Crates.{Crates}
use sidequests.Crypto.Roles.{Kem, Kdf, KemContext, Draws, Checked}

-- `u32::try_from(len).unwrap_or(u32::MAX)`
unfoldable pub clamp_u32 : ℕ → ℕ
clamp_u32 n = if ltb 0xffff_ffff n then 0xffff_ffff else n

-- `lp`: the length, then the bytes.
unfoldable pub prefixed : List ℕ → List ℕ
unfolding clamp_u32 to_le
prefixed x = to_le 4 (clamp_u32 (length x)) ++ x

-- `fixed::<N>`
unfoldable pub fixed : (n : ℕ) → List ℕ → Role → Checked (List ℕ)
fixed n b role = if length b == n then ok b else err (invalid_length role n (length b))

unfoldable pub hkdf_sha256 : Crates → Kdf
hkdf_sha256 c = record {
  derive = λ ikm salt info out_len. (do
    filled ←
        some_or (c.hkdf_expand salt ikm info out_len)
          (primitive Role.kdf "HKDF expand rejected the output length")
    some_or filled (primitive Role.kdf "HKDF output buffer length mismatch"));
}

-- "ctf/kem/v1"
abbrev pub kem_label : List ℕ
kem_label = 99 ∷ 116 ∷ 102 ∷ 47 ∷ 107 ∷ 101 ∷ 109 ∷ 47 ∷ 118 ∷ 49 ∷ []

abbrev pub x25519_len : ℕ
x25519_len = 32

abbrev pub mlkem768_ek_len : ℕ
mlkem768_ek_len = 1184

abbrev pub mlkem768_dk_len : ℕ
mlkem768_dk_len = 64

abbrev pub mlkem768_ct_len : ℕ
mlkem768_ct_len = 1088

unfoldable pub x25519_public : Crates → List ℕ → Checked (List ℕ)
x25519_public c secret = do
  fail_if (not (c.x25519_private secret)) (invalid_key Role.kem)
  some_or (c.x25519_public secret) (primitive Role.kem "x25519 public-key computation failed")

unfoldable pub x25519_agree : Crates → (secret peer : List ℕ) → Checked (List ℕ)
unfolding fixed
x25519_agree c secret peer = do
  fail_if (not (c.x25519_private secret)) (invalid_key Role.kem)
  ss ← some_or (c.x25519_agree secret peer) (invalid_key Role.kem)
  fixed root_len ss Role.kem

-- `mlkem_ek`: the bytes are an encapsulation key.
unfoldable pub check_mlkem_ek : Crates → List ℕ → Checked (Unit {0})
check_mlkem_ek c bytes = do
  fail_if (not (c.mlkem_key_fits bytes)) (invalid_length Role.kem mlkem768_ek_len (length bytes))
  fail_if (not (c.mlkem_key_valid bytes)) (invalid_key Role.kem)

unfoldable pub combine_salt : KemContext → List ℕ
unfolding to_le
combine_salt context = kem_label ++ (to_le 2 context.suite_id ++ to_le 2 context.version_major)

unfoldable pub combine_info : (ct_x25519 ct_mlkem pk_x25519 pk_mlkem : List ℕ) → KemContext → List ℕ
unfolding prefixed
combine_info ct_x25519 ct_mlkem pk_x25519 pk_mlkem context =
    prefixed ct_x25519
    ++ (prefixed ct_mlkem ++ (prefixed pk_x25519 ++ (prefixed pk_mlkem ++ prefixed context.label)))

unfoldable pub combine :
    Crates
    → (ss_x25519 ss_mlkem ct_x25519 ct_mlkem pk_x25519 pk_mlkem : List ℕ) → KemContext
    → Checked (List ℕ)
unfolding hkdf_sha256
combine c ss_x25519 ss_mlkem ct_x25519 ct_mlkem pk_x25519 pk_mlkem context =
    (hkdf_sha256 c).derive (ss_x25519 ++ ss_mlkem) (combine_salt context)
      (combine_info ct_x25519 ct_mlkem pk_x25519 pk_mlkem context) root_len

unfoldable pub encapsulate : Crates → Draws → List ℕ → KemContext → Checked (List ℕ × List ℕ)
encapsulate c draws public_key context = do
  fail_if (not (length public_key == 1216)) (invalid_length Role.kem 1216 (length public_key))
  let pk_x25519 = take x25519_len public_key
  let pk_mlkem = drop x25519_len public_key
  check_mlkem_ek c pk_mlkem
  let (ct_mlkem, ss_mlkem) = c.mlkem_encapsulate pk_mlkem draws.coins
  eph ← some_or draws.ephemeral (primitive Role.kem "system random source failed")
  ct_x25519 ← x25519_public c eph
  ss_x25519 ← x25519_agree c eph pk_x25519
  key ← combine c ss_x25519 ss_mlkem ct_x25519 ct_mlkem pk_x25519 pk_mlkem context
  ok (ct_x25519 ++ ct_mlkem, key)

unfoldable pub decapsulate :
    Crates → (secret_key ciphertext : List ℕ) → KemContext → Checked (List ℕ)
decapsulate c secret_key ciphertext context = do
  fail_if (not (length secret_key == 96)) (invalid_length Role.kem 96 (length secret_key))
  fail_if (not (length ciphertext == 1120)) (invalid_length Role.kem 1120 (length ciphertext))
  let sk_x25519 = take x25519_len secret_key
  let dk_mlkem = drop x25519_len secret_key
  let ct_x25519 = take x25519_len ciphertext
  let ct_mlkem = drop x25519_len ciphertext
  fail_if (not (length ct_mlkem == mlkem768_ct_len))
      (invalid_length Role.kem mlkem768_ct_len (length ct_mlkem))
  fail_if (not (c.mlkem_seed_fits dk_mlkem))
      (invalid_length Role.kem mlkem768_dk_len (length dk_mlkem))
  let ss_mlkem = c.mlkem_decapsulate dk_mlkem ct_mlkem
  ss_x25519 ← x25519_agree c sk_x25519 ct_x25519
  pk_x25519 ← x25519_public c sk_x25519
  combine c ss_x25519 ss_mlkem ct_x25519 ct_mlkem pk_x25519 (c.mlkem_public dk_mlkem) context

unfoldable pub x25519_mlkem768 : Crates → Kem
x25519_mlkem768 c = record {
  public_key_len = 1216;
  secret_key_len = 96;
  ciphertext_len = 1120;
  shared_secret_len = root_len;
  encapsulate = encapsulate c;
  decapsulate = decapsulate c;
}
