-- ===== src/Crypto/Samples.antt =====
-- A sample of the crates that keeps their laws: its AEAD puts the nonce in front of the text.
use sidequests.Common.{
  ℕ, ◌≤◌, ◌≡◌, refl, sym, ap, ◌∙◌, List, [], ◌∷◌, ◌++◌, append_assoc, true, Option, none, some,
  length, length-append, length-replicate, replicate, ◌==◌, ==→eq, Bool-cases, inl, inr,
  if◌then◌else◌, arith,
}
use sidequests.Outcome.{ok, some_or}
use sidequests.Wire.{field_injective}
use sidequests.Crypto.Errors.{SuiteError, Role, primitive}
use sidequests.Crypto.Crates.{Crates}
use sidequests.Crypto.Roles.{Aead, Checked}
use sidequests.Crypto.Aead.{aes_256_gcm, xchacha20_poly1305}
use sidequests.Crypto.Stream.Frames.{IsAead}
use sidequests.Crypto.Stream.Cut.{IsBinding}
use sidequests.Crypto.Decapsulates.{IsHybrid}

-- What is behind a prefix.
abbrev behind : List ℕ → List ℕ → Option (List ℕ)
behind [] s = some s
behind (p ∷ ps) [] = none
behind (p ∷ ps) (x ∷ xs) = let rest = behind ps xs in if p == x then rest else none

behind-append : (p s : List ℕ) → behind p (p ++ s) ≡ some s
behind-append [] s = refl
behind-append (p ∷ ps) s = let same : (p == p) ≡ true = ground arith in rw same (behind-append ps s)

behind-some : (p s r : List ℕ) → behind p s ≡ some r → s ≡ p ++ r
behind-some [] s r e = ground arith
behind-some (p ∷ ps) [] r e = cc
behind-some (p ∷ ps) (x ∷ xs) r e = elim (Bool-cases (p == x)) [
  | inl same ↦ rw (==→eq p x same) (ap (λ (t : List ℕ). x ∷ t) (behind-some ps xs r (rw same at e)))
  | inr other ↦ absurd (ground arith)
]

abbrev framed : List ℕ → List ℕ
framed nonce = length nonce ∷ nonce

abbrev sample_seal : (key nonce aad plain : List ℕ) → Option (List ℕ)
sample_seal key nonce aad plain = some (framed nonce ++ (replicate 16 0 ++ plain))

abbrev sample_open : (key nonce aad sealed : List ℕ) → Option (List ℕ)
sample_open key nonce aad sealed = behind (framed nonce ++ replicate 16 0) sealed

abbrev pub sample_aead : Aead
sample_aead = record {
  key_len = 2;
  nonce_len = 8;
  tag_len = 16;
  seal = λ key nonce aad plain.
      some_or (sample_seal key nonce aad plain) (primitive Role.aead "sealing failed");
  open_sealed = λ key nonce aad sealed.
      some_or (sample_open key nonce aad sealed) (primitive Role.aead "authentication failed");
}

ok_injective : {a b : List ℕ} → ◌≡◌ {A = Checked (List ℕ)} (ok a) (ok b) → a ≡ b
ok_injective h = cc

some_or-eq-ok :
    (o : Option (List ℕ)) (x : SuiteError) (a : List ℕ) → some_or o x ≡ ok a → o ≡ some a
some_or-eq-ok none x a e = absurd (cc)
some_or-eq-ok (some b) x a e = cc

sample_opens :
    (key nonce aad plain sealed : List ℕ)
    → framed nonce ++ (replicate 16 0 ++ plain) ≡ sealed
    → sample_open key nonce aad sealed ≡ some plain
sample_opens key nonce aad plain sealed e =
    let whole : sealed ≡ (framed nonce ++ replicate 16 0) ++ plain =
      sym e ∙ sym (append_assoc (framed nonce) (replicate 16 0) plain) in
    rw whole (behind-append (framed nonce ++ replicate 16 0) plain)

sample_tagged :
    (nonce plain sealed : List ℕ)
    → framed nonce ++ (replicate 16 0 ++ plain) ≡ sealed
    → 16 ≤ length sealed
sample_tagged nonce plain sealed e =
    rw (← e) (omega (arith, length-append (framed nonce) (replicate 16 0 ++ plain)))

pub sample_aead-IsAead : IsAead sample_aead
sample_aead-IsAead = record {
  opens = λ key nonce aad plain sealed e.
      rw (sample_opens key nonce aad plain sealed (ok_injective e)) refl;
  tagged = λ key nonce aad plain sealed e. sample_tagged nonce plain sealed (ok_injective e);
}

head_injective : (x y : ℕ) (xs ys : List ℕ) → x ∷ xs ≡ y ∷ ys → (x ≡ y) × (xs ≡ ys)
head_injective x y xs ys e = (cc, cc)

sample_binds :
    (nonce nonce' plain sealed other : List ℕ)
    → framed nonce ++ (replicate 16 0 ++ plain) ≡ sealed
    → sealed ≡ (framed nonce' ++ replicate 16 0) ++ other
    → nonce ≡ nonce'
sample_binds nonce nonce' plain sealed other e f =
    let both = e ∙ (f ∙ append_assoc (framed nonce') (replicate 16 0) other) in
    let (len, rest) =
      head_injective (length nonce) (length nonce') (nonce ++ (replicate 16 0 ++ plain))
        (nonce' ++ (replicate 16 0 ++ other)) both in
    (field_injective nonce nonce' (replicate 16 0 ++ plain) (replicate 16 0 ++ other) len refl
      rest).0

pub sample_aead-IsBinding : IsBinding sample_aead
sample_aead-IsBinding = record {
  binds = λ key nonce nonce' aad aad' plain sealed other e f.
      sample_binds nonce nonce' plain sealed other (ok_injective e) (
        behind-some (framed nonce' ++ replicate 16 0) sealed other
          (some_or-eq-ok (sample_open key nonce' aad' sealed) _ other f));
}

abbrev pub sample_crates : Crates
sample_crates = record {
  blake3 = λ s. replicate 32 7;
  aes_key_fits = λ k. true;
  aes_nonce_fits = λ n. true;
  aes_seal = sample_seal;
  aes_open = sample_open;
  chacha_key_fits = λ k. true;
  chacha_nonce_fits = λ n. true;
  chacha_seal = sample_seal;
  chacha_open = sample_open;
  hkdf_expand = λ salt ikm info n. some (some (replicate n 1));
  ed25519_sign = λ k t. some (replicate 64 0);
  ed25519_verify = λ k t s. true;
  ml_dsa_sign = λ k t. some (replicate 3309 0);
  ml_dsa_key_fits = λ k. true;
  ml_dsa_decodes = λ s. true;
  ml_dsa_verify = λ k t s. true;
  slh_dsa_sign = λ k t. some (replicate 7856 0);
  slh_dsa_key_fits = λ k. true;
  slh_dsa_decodes = λ s. true;
  slh_dsa_verify = λ k t s. true;
  x25519_private = λ s. true;
  x25519_public = λ s. some (replicate 32 9);
  x25519_agree = λ s p. some (replicate 32 5);
  mlkem_key_fits = λ k. true;
  mlkem_key_valid = λ k. true;
  mlkem_encapsulate = λ k coins. (replicate 1088 0, replicate 32 4);
  mlkem_seed_fits = λ s. true;
  mlkem_decapsulate = λ s ct. replicate 32 4;
  mlkem_public = λ s. replicate 1184 3;
}

pub sample_crates-IsHybrid : IsHybrid sample_crates
sample_crates-IsHybrid = record {
  public_len = λ s p e. public_len p e;
  agrees = λ s p e q ss h1 h2 h3. h3;
  ct_len = λ k coins. let zero_byte : ℕ = 0 in length-replicate 1088 zero_byte;
  decapsulates = λ seed coins. refl;
}
  where
    public_len :
        (p : List ℕ) → ◌≡◌ {A = Option (List ℕ)} (some (replicate 32 9)) (some p) → length p ≡ 32
    public_len p e = let is : replicate 32 9 ≡ p = cc in rw (← is) refl

pub sample_aes-IsAead : IsAead (aes_256_gcm sample_crates)
unfolding aes_256_gcm
sample_aes-IsAead = record {
  opens = λ key nonce aad plain sealed e.
      rw (sample_opens key nonce aad plain sealed (ok_injective e)) refl;
  tagged = λ key nonce aad plain sealed e. sample_tagged nonce plain sealed (ok_injective e);
}

pub sample_chacha-IsAead : IsAead (xchacha20_poly1305 sample_crates)
unfolding xchacha20_poly1305
sample_chacha-IsAead = record {
  opens = λ key nonce aad plain sealed e.
      rw (sample_opens key nonce aad plain sealed (ok_injective e)) refl;
  tagged = λ key nonce aad plain sealed e. sample_tagged nonce plain sealed (ok_injective e);
}
