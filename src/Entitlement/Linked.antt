-- ===== src/Entitlement/Linked.antt =====
-- A chain is valid exactly when it is linked: the records are numbered in order, the first is a grant that
-- carries the root, and each later one names the id of the record before it.
use sidequests.Common.{ℕ, suc, ◌≤◌, ◌≡◌, ◌↔◌, refl, [], ◌∷◌, true, false, not, ltb, arith}
use sidequests.Error.{ok, bind-ok, then-ok, refuse_if}
use sidequests.Wire.{bytes_eq→eq, bytes_eq_refl}
use sidequests.Cbor.Access.{is_none}
use sidequests.Crypto.Crates.{Crates}
use sidequests.Entitlement.{EntitlementRecord, is_grant, is_transfer, check, record_id}
use sidequests.Entitlement.Chain.{
  Chain, zero_root, check_place, check_genesis, check_successor, check_rest, validate,
}

-- A record at place `n`: signed by the platform, and by the holder exactly if it is a transfer.
pub record IsEntry (n : ℕ) (r : EntitlementRecord) : Type 0 where
  pub seq : r.seq ≡ n
  pub fits : n ≤ 0xffff_ffff
  pub platform : is_none r.sig_platform ≡ false
  pub holder : is_none r.sig_holder ≡ not (is_transfer r.record_type)

-- The records `n` and on, behind `previous`.
pub data Continues (c : Crates) : EntitlementRecord → ℕ → Chain → Type 0 where
  finished : (previous : EntitlementRecord) (n : ℕ) → Continues c previous n []
  linked :
      (previous r : EntitlementRecord) (n : ℕ) (rest : Chain)
      → IsEntry n r
      → is_none r.root ≡ true
      → record_id c previous ≡ ok r.prev
      → Continues c r (suc n) rest
      → Continues c previous n (r ∷ rest)

pub record IsGenesis (r : EntitlementRecord) : Type 0 where
  pub granted : is_grant r.record_type ≡ true
  pub rooted : is_none r.root ≡ false
  pub first : r.prev ≡ zero_root

pub data IsChain (c : Crates) : Chain → Type 0 where
  starts :
      (r : EntitlementRecord) (rest : Chain)
      → IsEntry 0 r
      → IsGenesis r
      → Continues c r 1 rest
      → IsChain c (r ∷ rest)

check-eq-ok :
    (r : EntitlementRecord)
    → check r ≡ ok tt
    → (is_none r.sig_platform ≡ false) × (is_none r.sig_holder ≡ not (is_transfer r.record_type))
unfolding check
check-eq-ok r e = (ground arith, ground arith)

check-ok :
    (r : EntitlementRecord)
    → is_none r.sig_platform ≡ false
    → is_none r.sig_holder ≡ not (is_transfer r.record_type)
    → check r ≡ ok tt
unfolding check
check-ok r p h = ground arith

check_place-IsEntry : (n : ℕ) (r : EntitlementRecord) → check_place n r ≡ ok tt → IsEntry n r
unfolding check_place
check_place-IsEntry n r e =
    let (checked, e1) = then-ok (check r) _ tt e in
    let (platform, holder) = check-eq-ok r checked in
    let (fits, e2) = then-ok (refuse_if (ltb 0xffff_ffff n) _) _ tt e1 in
    record { seq = ground arith; fits = ground (arith, fits); platform = platform; holder = holder }

IsEntry-check_place : (n : ℕ) (r : EntitlementRecord) → IsEntry n r → check_place n r ≡ ok tt
unfolding check_place
IsEntry-check_place n r i =
    let checked = check-ok r i.platform i.holder in
    let fits = i.fits in let seq = i.seq in rw checked (ground arith)

check_genesis-IsGenesis : (r : EntitlementRecord) → check_genesis r ≡ ok tt → IsGenesis r
unfolding check_genesis
check_genesis-IsGenesis r e = record {
  granted = ground arith;
  rooted = ground arith;
  first = bytes_eq→eq r.prev zero_root (ground arith);
}

IsGenesis-check_genesis : (r : EntitlementRecord) → IsGenesis r → check_genesis r ≡ ok tt
unfolding check_genesis
IsGenesis-check_genesis r g = rw (g.granted, g.rooted, g.first, bytes_eq_refl zero_root) refl

check_successor-eq-ok :
    (c : Crates) (previous r : EntitlementRecord)
    → check_successor c previous r ≡ ok tt
    → (is_none r.root ≡ true) × (record_id c previous ≡ ok r.prev)
unfolding check_successor
check_successor-eq-ok c previous r e =
    let (plain_root, e1) = then-ok (refuse_if (not (is_none r.root)) _) _ tt e in
    let (id, id_is, e2) = bind-ok (record_id c previous) _ tt e1 in
    let same = bytes_eq→eq r.prev id (ground (arith, e2)) in
    (ground (arith, plain_root), rw same id_is)

check_successor-ok :
    (c : Crates) (previous r : EntitlementRecord)
    → is_none r.root ≡ true
    → record_id c previous ≡ ok r.prev
    → check_successor c previous r ≡ ok tt
unfolding check_successor
check_successor-ok c previous r plain_root id_is = rw (plain_root, id_is, bytes_eq_refl r.prev) refl

check_rest-Continues :
    (c : Crates) (previous : EntitlementRecord) (n : ℕ) (rest : Chain)
    → check_rest c previous n rest ≡ ok tt
    → Continues c previous n rest
unfolding check_rest
check_rest-Continues c previous n [] e = finished previous n
check_rest-Continues c previous n (r ∷ rest) e =
    let (place, e1) = then-ok (check_place n r) _ tt e in
    let (successor, later) = then-ok (check_successor c previous r) _ tt e1 in
    let (rootless, id_is) = check_successor-eq-ok c previous r successor in
    linked previous r n rest (check_place-IsEntry n r place) rootless id_is
      (check_rest-Continues c r (suc n) rest later)

Continues-check_rest :
    (c : Crates) (previous : EntitlementRecord) (n : ℕ) (rest : Chain)
    → Continues c previous n rest
    → check_rest c previous n rest ≡ ok tt
unfolding check_rest
Continues-check_rest c previous n [] (finished _ _) = refl
Continues-check_rest c previous n (r ∷ rest) (linked _ _ _ _ i rootless id_is k) =
    rw (IsEntry-check_place n r i, check_successor-ok c previous r rootless id_is)
      (Continues-check_rest c r (suc n) rest k)

pub validate-IsChain : (c : Crates) (chain : Chain) → validate c chain ≡ ok tt → IsChain c chain
unfolding validate
validate-IsChain c [] e = absurd (cc)
validate-IsChain c (r ∷ rest) e =
    let (place, e1) = then-ok (check_place 0 r) _ tt e in
    let (genesis, later) = then-ok (check_genesis r) _ tt e1 in
    starts r rest (check_place-IsEntry 0 r place) (check_genesis-IsGenesis r genesis)
      (check_rest-Continues c r 1 rest later)

pub IsChain-validate : (c : Crates) (chain : Chain) → IsChain c chain → validate c chain ≡ ok tt
unfolding validate
IsChain-validate c [] k = elim k [ ]
IsChain-validate c (r ∷ rest) (starts _ _ i g k) =
    rw (IsEntry-check_place 0 r i, IsGenesis-check_genesis r g) (Continues-check_rest c r 1 rest k)

-- A chain is valid exactly when it is linked: it has a first record, which is a grant that carries the root
-- and whose `prev` is zero; the records are numbered in order; each is signed by the platform, and by a
-- holder exactly if it is a transfer; and each later one carries no root and the id of the record before it.
pub validate-iff-IsChain :
    (c : Crates) (chain : Chain) → (validate c chain ≡ ok tt) ↔ IsChain c chain
validate-iff-IsChain c chain = (validate-IsChain c chain, IsChain-validate c chain)
