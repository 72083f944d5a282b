-- ===== src/Crypto/Verified.antt =====
-- What a verified footer guarantees: every component of the suite's hybrid signature has verified over
-- the footer's transcript.
use sidequests.Common.{
  ℕ, ◌≡◌, refl, ◌⊎◌, inl, inr, List, true, take, drop, ◌==◌, ==→eq, Bool-cases, some, arith,
}
use sidequests.Outcome.{ok, err, ◌>>=◌, ◌>>◌, Outcome-cases}
use sidequests.Footer.{Footer, footer_sig_input}
use sidequests.Crypto.Crates.{Crates}
use sidequests.Crypto.Roles.{Suite, HybridPublicKey, HybridSignature, Checked}
use sidequests.Crypto.Sign.{
  classical_verify, ml_dsa_verify, slh_dsa_verify, verify_two, verify_three, ed25519_mldsa65,
  ed25519_mldsa65_slhdsa,
}
use sidequests.Crypto.Registry.{
  suite_1, suite_2, suite_3, find_suite, suite, signature_of, Authentication, verified,
  verify_footer,
}

seq_ok :
    {B : Type 0} (a : Checked (Unit {0})) (b : Checked B) (x : B)
    → (a >> b) ≡ ok x
    → (a ≡ ok tt) × (b ≡ ok x)
seq_ok (ok tt) b x e = (refl, e)
seq_ok (err bad) b x e = absurd (cc)

classical_verify-true :
    (c : Crates) (key t sig : List ℕ)
    → classical_verify c key t sig ≡ ok tt
    → c.ed25519_verify key t sig ≡ true
unfolding classical_verify
classical_verify-true c key t sig e = ground arith

ml_dsa_verify-true :
    (c : Crates) (key t sig : List ℕ)
    → ml_dsa_verify c key t sig ≡ ok tt
    → c.ml_dsa_verify key t sig ≡ true
unfolding ml_dsa_verify
ml_dsa_verify-true c key t sig e = ground arith

slh_dsa_verify-true :
    (c : Crates) (key t sig : List ℕ)
    → slh_dsa_verify c key t sig ≡ ok tt
    → c.slh_dsa_verify key t sig ≡ true
unfolding slh_dsa_verify
slh_dsa_verify-true c key t sig e = ground arith

-- Both components of suites 1 and 2.
pub record TwoVerified (c : Crates) (t : List ℕ) (key : HybridPublicKey) (sig : HybridSignature)
    : Type 0 where
  pub classical : c.ed25519_verify key.classical t sig.classical ≡ true
  pub ml_dsa : c.ml_dsa_verify key.pq t sig.pq ≡ true

-- The three components of suite 3, of which the last two are cut out of one field.
pub record ThreeVerified (c : Crates) (t : List ℕ) (key : HybridPublicKey) (sig : HybridSignature)
    : Type 0 where
  pub classical : c.ed25519_verify key.classical t sig.classical ≡ true
  pub ml_dsa : c.ml_dsa_verify (take 1952 key.pq) t (take 3309 sig.pq) ≡ true
  pub slh_dsa : c.slh_dsa_verify (drop 1952 key.pq) t (drop 3309 sig.pq) ≡ true

verify_two-TwoVerified :
    (c : Crates) (t : List ℕ) (key : HybridPublicKey) (sig : HybridSignature)
    → verify_two c t key sig ≡ ok tt
    → TwoVerified c t key sig
unfolding verify_two
verify_two-TwoVerified c t key sig e =
    let (_, e1) = seq_ok _ _ tt e in
    let (classical, ml_dsa) = seq_ok _ _ tt e1 in
    record {
      classical = classical_verify-true c key.classical t sig.classical classical;
      ml_dsa = ml_dsa_verify-true c key.pq t sig.pq ml_dsa;
    }

verify_three-ThreeVerified :
    (c : Crates) (t : List ℕ) (key : HybridPublicKey) (sig : HybridSignature)
    → verify_three c t key sig ≡ ok tt
    → ThreeVerified c t key sig
unfolding verify_three
verify_three-ThreeVerified c t key sig e =
    let (_, e1) = seq_ok _ _ tt e in
    let (classical, e2) = seq_ok _ _ tt e1 in
    let (ml_dsa, slh_dsa) = seq_ok _ _ tt e2 in
    record {
      classical = classical_verify-true c key.classical t sig.classical classical;
      ml_dsa = ml_dsa_verify-true c (take 1952 key.pq) t (take 3309 sig.pq) ml_dsa;
      slh_dsa = slh_dsa_verify-true c (drop 1952 key.pq) t (drop 3309 sig.pq) slh_dsa;
    }

abbrev footer_signature : Footer → HybridSignature
footer_signature f = record { classical = f.sig_classical; pq = f.sig_pq }

-- What the footer's signatures must be under a suite.
abbrev pub FooterVerified : Crates → ℕ → Footer → HybridPublicKey → Type 0
FooterVerified c id footer key =
    (((id ≡ 1) ⊎ (id ≡ 2))
      × TwoVerified c (footer_sig_input footer id) key (footer_signature footer))
    ⊎ ((id ≡ 3) × ThreeVerified c (footer_sig_input footer id) key (footer_signature footer))

-- A registered suite, and its signature role.
pub suite-registered :
    (c : Crates) (id : ℕ) (s : Suite)
    → suite c id ≡ ok s
    → ((id ≡ 1) × (s ≡ suite_1 c)) ⊎ (((id ≡ 2) × (s ≡ suite_2 c)) ⊎ ((id ≡ 3) × (s ≡ suite_3 c)))
unfolding suite find_suite
suite-registered c id s e = elim (Bool-cases (1 == id)) [
  | inl first ↦ inl (rw (==→eq 1 id first) refl, ground arith)
  | inr not_first ↦ elim (Bool-cases (2 == id)) [
    | inl second ↦ inr (inl (rw (==→eq 2 id second) refl, ground arith))
    | inr not_second ↦ elim (Bool-cases (3 == id)) [
      | inl third ↦ inr (inr (rw (==→eq 3 id third) refl, ground arith))
      | inr other ↦ absurd (ground arith)
    ]
  ]
]

-- What `verify_footer` does with the suite it has found.
abbrev verify_with : Crates → ℕ → Footer → HybridPublicKey → Suite → Checked Authentication
verify_with c id footer key s = do
  role ← signature_of s
  role.verify (footer_sig_input footer id) key (footer_signature footer)
  ok verified

verify_with-two :
    (c : Crates) (id : ℕ) (footer : Footer) (key : HybridPublicKey) (s : Suite)
    → s.signature ≡ some (ed25519_mldsa65 c)
    → verify_with c id footer key s ≡ ok verified
    → TwoVerified c (footer_sig_input footer id) key (footer_signature footer)
unfolding signature_of ed25519_mldsa65
verify_with-two c id footer key s role e =
    verify_two-TwoVerified c (footer_sig_input footer id) key (footer_signature footer)
      (seq_ok (verify_two c (footer_sig_input footer id) key (footer_signature footer))
        (ok verified) verified (rw role at e)).0

verify_with-three :
    (c : Crates) (id : ℕ) (footer : Footer) (key : HybridPublicKey) (s : Suite)
    → s.signature ≡ some (ed25519_mldsa65_slhdsa c)
    → verify_with c id footer key s ≡ ok verified
    → ThreeVerified c (footer_sig_input footer id) key (footer_signature footer)
unfolding signature_of ed25519_mldsa65_slhdsa
verify_with-three c id footer key s role e =
    verify_three-ThreeVerified c (footer_sig_input footer id) key (footer_signature footer)
      (seq_ok (verify_three c (footer_sig_input footer id) key (footer_signature footer))
        (ok verified) verified (rw role at e)).0

verify_footer-with :
    (c : Crates) (id : ℕ) (footer : Footer) (key : HybridPublicKey)
    → verify_footer c id footer key ≡ ok verified
    → (s : Suite) × (suite c id ≡ ok s) × (verify_with c id footer key s ≡ ok verified)
unfolding verify_footer
verify_footer-with c id footer key e = elim (Outcome-cases (suite c id)) [
  | inr (x, bad) ↦ absurd (ground arith)
  | inl (s, found) ↦ (s, found, ground arith)
]

-- `verify_footer` accepts only where the suite is registered and each component that the suite has, the
-- classical and every post-quantum one, verifies over the footer's transcript: no component is optional.
pub verify_footer-verified :
    (c : Crates) (id : ℕ) (footer : Footer) (key : HybridPublicKey)
    → verify_footer c id footer key ≡ ok verified
    → FooterVerified c id footer key
verify_footer-verified c id footer key e =
    let (s, found, e1) = verify_footer-with c id footer key e in
    elim (suite-registered c id s found) [
      | inl (first, is) ↦ inl (inl first, verify_with-two c id footer key s (rw is refl) e1)
      | inr (inl (second, is)) ↦ inl (inr second, verify_with-two c id footer key s (rw is refl) e1)
      | inr (inr (third, is)) ↦ inr (third, verify_with-three c id footer key s (rw is refl) e1)
    ]
