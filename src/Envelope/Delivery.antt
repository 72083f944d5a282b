-- ===== src/Envelope/Delivery.antt =====
-- The content key that was sealed for a recipient is the one that the recipient opens.
use sidequests.Common.{ℕ, ◌≡◌, refl, inl, inr, List, length, replicate, some, eq→==, arith}
use sidequests.Outcome.{ok, Outcome-cases}
use sidequests.Wire.{bytes_eq_refl}
use sidequests.Crypto.Crates.{Crates}
use sidequests.Crypto.Roles.{Suite, Aead, Draws, Checked}
use sidequests.Crypto.Aead.{aes_256_gcm, xchacha20_poly1305}
use sidequests.Crypto.Kem.{fixed, x25519_mlkem768, encapsulate, decapsulate}
use sidequests.Crypto.Registry.{suite, kem_of, aead_of}
use sidequests.Crypto.Verified.{suite-registered}
use sidequests.Crypto.Decapsulates.{
  IsHybrid, KeyPair, secret_key, public_key, decapsulate-encapsulate, length-encapsulate,
}
use sidequests.Crypto.Stream.Frames.{IsAead}
use sidequests.Envelope.{Envelope, envelope_aad, kem_context, seal, open_envelope}

-- The roles of a registered suite.
pub record Roles (c : Crates) (s : Suite) : Type 0 where
  pub aead : Aead
  pub has_kem : s.kem ≡ some (x25519_mlkem768 c)
  pub has_aead : s.aead ≡ some aead
  pub sound : IsAead aead

pub suite-Roles :
    (c : Crates) (id : ℕ) (s : Suite)
    → IsAead (aes_256_gcm c)
    → IsAead (xchacha20_poly1305 c)
    → suite c id ≡ ok s
    → Roles c s
suite-Roles c id s aes chacha e = elim (suite-registered c id s e) [
  | inl (_, is) ↦ record {
    aead = aes_256_gcm c;
    has_kem = rw is refl;
    has_aead = rw is refl;
    sound = aes;
  }
  | inr (inl (_, is)) ↦ record {
    aead = xchacha20_poly1305 c;
    has_kem = rw is refl;
    has_aead = rw is refl;
    sound = chacha;
  }
  | inr (inr (_, is)) ↦ record {
    aead = aes_256_gcm c;
    has_kem = rw is refl;
    has_aead = rw is refl;
    sound = aes;
  }
]

ok_injective : {a b : Envelope} → ◌≡◌ {A = Checked Envelope} (ok a) (ok b) → a ≡ b
ok_injective h = cc

-- What a sealed envelope is made of.
pub record Sealed (c : Crates) (draws : Draws) (key public : List ℕ) (id major name_id : ℕ)
    (context : List ℕ) (e : Envelope) (s : Suite) (a : Aead) : Type 0 where
  pub kek : List ℕ
  pub sent : encapsulate c draws public (kem_context id major context) ≡ ok (e.ciphertext, kek)
  pub sealed : a.seal kek (replicate a.nonce_len 0) (envelope_aad id context) key ≡ ok e.wrapped
  pub context_is : e.context ≡ context
  pub name_is : e.name_id ≡ name_id

pub seal-Sealed :
    (c : Crates) (draws : Draws) (key public : List ℕ) (id major name_id : ℕ) (context : List ℕ)
    (e : Envelope) (s : Suite) (r : Roles c s)
    → suite c id ≡ ok s
    → seal c draws key public id major name_id context ≡ ok e
    → Sealed c draws key public id major name_id context e s r.aead
unfolding seal kem_of aead_of x25519_mlkem768
seal-Sealed c draws key public id major name_id context e s r found made =
    elim (Outcome-cases (encapsulate c draws public (kem_context id major context))) [
      | inr (x, bad) ↦ absurd (ground (arith, r.has_kem, r.has_aead))
      | inl ((ct, kek), sent) ↦
          elim (Outcome-cases
            (r.aead.seal kek (replicate r.aead.nonce_len 0) (envelope_aad id context) key)) [
              | inr (x, bad) ↦ absurd (ground (arith, r.has_kem, r.has_aead))
              | inl (wrapped, sealed) ↦
                  let is : record {
                    name_id = name_id;
                    context = context;
                    ciphertext = ct;
                    wrapped = wrapped;
                  }
                      ≡ e =
                    ok_injective (rw (found, r.has_kem, r.has_aead, sent, sealed) at made) in
                  rw (← is) (record {
                    kek = kek;
                    sent = sent;
                    sealed = sealed;
                    context_is = refl;
                    name_is = refl;
                  })
            ]
    ]

open_envelope-step :
    (c : Crates) (e : Envelope) (sk key kek : List ℕ) (id major : ℕ) (s : Suite) (r : Roles c s)
    → suite c id ≡ ok s
    → length e.ciphertext ≡ 1120
    → decapsulate c sk e.ciphertext (kem_context id major e.context) ≡ ok kek
    → r.aead.open_sealed kek (replicate r.aead.nonce_len 0) (envelope_aad id e.context) e.wrapped
      ≡ ok key
    → length key ≡ 32
    → open_envelope c e sk id major e.context ≡ ok key
unfolding open_envelope kem_of aead_of x25519_mlkem768 fixed
open_envelope-step c e sk key kek id major s r found ct_len decapsulated opened key_len =
    rw
      (
        bytes_eq_refl e.context,
        found,
        r.has_kem,
        r.has_aead,
        eq→== (length e.ciphertext) 1120 ct_len,
        decapsulated,
        opened,
        eq→== (length key) 32 key_len,
      )
      refl

-- With the documented laws of the crates, a 32-byte content key that is sealed for a recipient under a
-- registered suite is what the recipient's secret key opens the envelope to, in the same context.
pub open_envelope-seal :
    (c : Crates) (k : KeyPair c) (draws : Draws) (key : List ℕ) (id major name_id : ℕ)
    (context : List ℕ) (e : Envelope)
    → IsHybrid c
    → IsAead (aes_256_gcm c)
    → IsAead (xchacha20_poly1305 c)
    → length key ≡ 32
    → seal c draws key (public_key c k) id major name_id context ≡ ok e
    → open_envelope c e (secret_key c k) id major context ≡ ok key
open_envelope-seal c k draws key id major name_id context e hybrid aes chacha key_len made =
    elim (Outcome-cases (suite c id)) [
      | inr (x, bad) ↦ absurd (unfold seal in ground arith)
      | inl (s, found) ↦
          let r = suite-Roles c id s aes chacha found in
          let h =
            seal-Sealed c draws key (public_key c k) id major name_id context e s r found made in
          let here = h.context_is in
          let ct_len =
            length-encapsulate c draws (public_key c k) (kem_context id major context) e.ciphertext
              h.kek hybrid h.sent in
          let kek_back =
            decapsulate-encapsulate c k draws (kem_context id major context) e.ciphertext h.kek
              hybrid h.sent in
          let opened = r.sound.opens h.kek _ (envelope_aad id context) key e.wrapped h.sealed in
          rw (← here) (
            open_envelope-step c e (secret_key c k) key h.kek id major s r found ct_len
              (rw here kek_back) (rw here opened) key_len)
    ]
