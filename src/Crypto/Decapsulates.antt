-- ===== src/Crypto/Decapsulates.antt =====
-- A key that was encapsulated for a recipient is decapsulated with the recipient's secret key.
use sidequests.Common.{
  ℕ, ◌≡◌, refl, ◌∙◌, List, ◌++◌, take, drop, take-append, drop-append, length, length-append, true,
  some, Option-cases, inl, inr, ◌==◌, eq→==, arith,
}
use sidequests.Outcome.{ok, Outcome-cases}
use sidequests.Crypto.Crates.{Crates}
use sidequests.Crypto.Roles.{KemContext, Draws}
use sidequests.Crypto.Kem.{
  fixed, x25519_public, x25519_agree, check_mlkem_ek, combine, encapsulate, decapsulate,
}

-- What X25519 and ML-KEM-768 document: the sizes, that both sides of an agreement get the same, and
-- that decapsulation gives what was encapsulated for the seed's public key.
pub record IsHybrid (c : Crates) : Type 0 where
  pub public_len : (s p : List ℕ) → c.x25519_public s ≡ some p → length p ≡ 32
  pub agrees :
      (s p e q ss : List ℕ)
      → c.x25519_public s ≡ some p
      → c.x25519_public e ≡ some q
      → c.x25519_agree e p ≡ some ss
      → c.x25519_agree s q ≡ some ss
  pub ct_len : (k coins : List ℕ) → length (c.mlkem_encapsulate k coins).0 ≡ 1088
  pub decapsulates :
      (seed coins : List ℕ)
      → c.mlkem_decapsulate seed (c.mlkem_encapsulate (c.mlkem_public seed) coins).0
        ≡ (c.mlkem_encapsulate (c.mlkem_public seed) coins).1

-- A recipient's secret key, and the public key that belongs to it.
pub record KeyPair (c : Crates) : Type 0 where
  pub x_secret : List ℕ
  pub x_public : List ℕ
  pub seed : List ℕ
  pub is_private : c.x25519_private x_secret ≡ true
  pub is_public : c.x25519_public x_secret ≡ some x_public
  pub x_len : length x_secret ≡ 32
  pub seed_len : length seed ≡ 64
  pub seed_fits : c.mlkem_seed_fits seed ≡ true

abbrev pub secret_key : (c : Crates) → KeyPair c → List ℕ
secret_key c k = k.x_secret ++ k.seed

abbrev pub public_key : (c : Crates) → KeyPair c → List ℕ
public_key c k = k.x_public ++ c.mlkem_public k.seed

x25519_public-eq-ok :
    (c : Crates) (s p : List ℕ) → x25519_public c s ≡ ok p → c.x25519_public s ≡ some p
unfolding x25519_public
x25519_public-eq-ok c s p e = elim (Option-cases (c.x25519_public s)) [
  | inl missing ↦ absurd (ground arith)
  | inr (q, found) ↦ ground arith
]

x25519_agree-eq-ok :
    (c : Crates) (s p ss : List ℕ)
    → x25519_agree c s p ≡ ok ss
    → (c.x25519_agree s p ≡ some ss) × (length ss ≡ 32)
unfolding x25519_agree fixed
x25519_agree-eq-ok c s p ss e = elim (Option-cases (c.x25519_agree s p)) [
  | inl missing ↦ absurd (ground arith)
  | inr (q, found) ↦ (ground arith, ground arith)
]

x25519_agree-ok :
    (c : Crates) (s p ss : List ℕ)
    → c.x25519_private s ≡ true
    → c.x25519_agree s p ≡ some ss
    → length ss ≡ 32
    → x25519_agree c s p ≡ ok ss
unfolding x25519_agree fixed
x25519_agree-ok c s p ss private e len = rw (private, e, eq→== (length ss) 32 len) refl

x25519_public-ok :
    (c : Crates) (s p : List ℕ)
    → c.x25519_private s ≡ true
    → c.x25519_public s ≡ some p
    → x25519_public c s ≡ ok p
unfolding x25519_public
x25519_public-ok c s p private e = rw (private, e) refl

-- The parts of an encapsulation that succeeded.
record Encapsulated (c : Crates) (draws : Draws) (key : List ℕ) (context : KemContext)
    (ct kek : List ℕ) : Type 0 where
  eph : List ℕ
  ct_x : List ℕ
  ss_x : List ℕ
  sent : x25519_public c eph ≡ ok ct_x
  agreed : x25519_agree c eph (take 32 key) ≡ ok ss_x
  ct_is : ct ≡ ct_x ++ (c.mlkem_encapsulate (drop 32 key) draws.coins).0
  combined :
      combine c ss_x
        (c.mlkem_encapsulate (drop 32 key) draws.coins).1
        ct_x
        (c.mlkem_encapsulate (drop 32 key) draws.coins).0
        (take 32 key)
        (drop 32 key)
        context
      ≡ ok kek

encapsulate-Encapsulated :
    (c : Crates) (draws : Draws) (key : List ℕ) (context : KemContext) (ct kek : List ℕ)
    → encapsulate c draws key context ≡ ok (ct, kek)
    → Encapsulated c draws key context ct kek
unfolding encapsulate
encapsulate-Encapsulated c draws key context ct kek e =
    let ct_m = (c.mlkem_encapsulate (drop 32 key) draws.coins).0 in
    let ss_m = (c.mlkem_encapsulate (drop 32 key) draws.coins).1 in
    elim (Option-cases draws.ephemeral) [
      | inl missing ↦ elim (Outcome-cases (check_mlkem_ek c (drop 32 key))) [
        | inl (u, valid) ↦ absurd (ground arith)
        | inr (x, bad) ↦ absurd (ground arith)
      ]
      | inr (eph, drawn) ↦ elim (Outcome-cases (check_mlkem_ek c (drop 32 key))) [
        | inr (x, bad) ↦ absurd (ground arith)
        | inl (u, valid) ↦ elim (Outcome-cases (x25519_public c eph)) [
          | inr (x, bad) ↦ absurd (ground arith)
          | inl (ct_x, sent) ↦ elim (Outcome-cases (x25519_agree c eph (take 32 key))) [
            | inr (x, bad) ↦ absurd (ground arith)
            | inl (ss_x, agreed) ↦
                elim (Outcome-cases
                  (combine c ss_x ss_m ct_x ct_m (take 32 key) (drop 32 key) context)) [
                    | inr (x, bad) ↦ absurd (ground arith)
                    | inl (k, combined) ↦ record {
                      eph = eph;
                      ct_x = ct_x;
                      ss_x = ss_x;
                      sent = sent;
                      agreed = agreed;
                      ct_is = ground arith;
                      combined = ground arith;
                    }
                  ]
          ]
        ]
      ]
    ]

-- `decapsulate` on inputs whose parts are known.
decapsulate-parts :
    (c : Crates) (sx seed ct_x ct_m px ss_x kek : List ℕ) (context : KemContext)
    → length sx ≡ 32
    → length seed ≡ 64
    → length ct_x ≡ 32
    → length ct_m ≡ 1088
    → c.mlkem_seed_fits seed ≡ true
    → x25519_agree c sx ct_x ≡ ok ss_x
    → x25519_public c sx ≡ ok px
    → combine c ss_x (c.mlkem_decapsulate seed ct_m) ct_x ct_m px (c.mlkem_public seed) context
      ≡ ok kek
    → decapsulate c (sx ++ seed) (ct_x ++ ct_m) context ≡ ok kek
unfolding decapsulate
decapsulate-parts c sx seed ct_x ct_m px ss_x kek context l1 l2 l3 l4 fits agreed public combined =
    let secret_len : (length (sx ++ seed) == 96) ≡ true =
      eq→== _ 96 (length-append sx seed ∙ (omega arith)) in
    let ct_len : (length (ct_x ++ ct_m) == 1120) ≡ true =
      eq→== _ 1120 (length-append ct_x ct_m ∙ (omega arith)) in
    let m_len : (length ct_m == 1088) ≡ true = eq→== _ 1088 l4 in
    rw
      (
        secret_len,
        ct_len,
        take-append sx seed l1,
        drop-append sx seed l1,
        take-append ct_x ct_m l3,
        drop-append ct_x ct_m l3,
        m_len,
        fits,
        agreed,
        public,
      )
      combined

-- With the documented laws of X25519 and ML-KEM-768, the key that was encapsulated for a recipient is the
-- one that the recipient's secret key decapsulates, in the same context.
pub decapsulate-encapsulate :
    (c : Crates) (k : KeyPair c) (draws : Draws) (context : KemContext) (ct kek : List ℕ)
    → IsHybrid c
    → encapsulate c draws (public_key c k) context ≡ ok (ct, kek)
    → decapsulate c (secret_key c k) ct context ≡ ok kek
decapsulate-encapsulate c k draws context ct kek is e =
    let h = encapsulate-Encapsulated c draws (public_key c k) context ct kek e in
    let p_len = is.public_len k.x_secret k.x_public k.is_public in
    let front : take 32 (public_key c k) ≡ k.x_public =
      take-append k.x_public (c.mlkem_public k.seed) p_len in
    let back : drop 32 (public_key c k) ≡ c.mlkem_public k.seed =
      drop-append k.x_public (c.mlkem_public k.seed) p_len in
    let sent = x25519_public-eq-ok c h.eph h.ct_x h.sent in
    let (agreed, ss_len) = x25519_agree-eq-ok c h.eph k.x_public h.ss_x (rw front at h.agreed) in
    let agreed' = is.agrees k.x_secret k.x_public h.eph h.ct_x h.ss_x k.is_public sent agreed in
    let same = is.decapsulates k.seed draws.coins in
    let combined = rw (front, back) at h.combined in
    let ct_is = rw back at h.ct_is in
    rw ct_is (
      decapsulate-parts c k.x_secret k.seed h.ct_x _ k.x_public h.ss_x kek context k.x_len
        k.seed_len (is.public_len h.eph h.ct_x sent) (is.ct_len (c.mlkem_public k.seed) draws.coins)
        k.seed_fits (x25519_agree-ok c k.x_secret h.ct_x h.ss_x k.is_private agreed' ss_len)
        (x25519_public-ok c k.x_secret k.x_public k.is_private k.is_public) (rw same combined))

-- An encapsulation has the length that `decapsulate` asks for.
pub length-encapsulate :
    (c : Crates) (draws : Draws) (key : List ℕ) (context : KemContext) (ct kek : List ℕ)
    → IsHybrid c
    → encapsulate c draws key context ≡ ok (ct, kek)
    → length ct ≡ 1120
length-encapsulate c draws key context ct kek is e =
    let h = encapsulate-Encapsulated c draws key context ct kek e in
    let x_len = is.public_len h.eph h.ct_x (x25519_public-eq-ok c h.eph h.ct_x h.sent) in
    let m_len = is.ct_len (drop 32 key) draws.coins in
    rw h.ct_is (length-append h.ct_x _ ∙ omega arith)
