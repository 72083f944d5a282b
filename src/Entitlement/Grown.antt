-- ===== src/Entitlement/Grown.antt =====
-- Every chain that a grant starts and transfers extend is valid, and bound to the root of its grant.
use sidequests.Common.{
  ℕ, suc, ◌+◌, ◌≡◌, refl, List, [], ◌∷◌, ◌++◌, true, not, Option, some, none, inl, inr, length, ltb,
  subst, arith,
}
use sidequests.Error.{ok, bind-ok, then-ok, refuse_if, ok_or, ok_or-eq-ok, Result-cases}
use sidequests.Bundle.{from_suite}
use sidequests.Wire.{bytes_eq_refl}
use sidequests.Cbor.Access.{is_none}
use sidequests.Crypto.Crates.{Crates}
use sidequests.Crypto.Roles.{Signature, HybridSigningKey, HybridSignature}
use sidequests.Entitlement.{
  EntitlementRecord, RecordType, Timestamp, grant, transfer, revoke, progress, is_transfer,
  record_id, sign_platform, sign_holder, sign,
}
use sidequests.Entitlement.Chain.{
  Chain, last_of, last_record, push_signed, grant_record, transfer_record, append_grant,
  append_transfer, is_root, check_root, validate_against_root,
}
use sidequests.Entitlement.Linked.{
  IsEntry, Continues, finished, linked, IsChain, starts, IsChain-validate,
}

abbrev pub signed_as :
    EntitlementRecord → HybridSignature → Option HybridSignature → EntitlementRecord
signed_as r platform holder = record r { sig_platform = some platform; sig_holder = holder }

sign_holder-eq-ok :
    (t : RecordType) (role : Signature) (transcript : List ℕ) (key : Option HybridSigningKey)
    (sig : Option HybridSignature)
    → sign_holder t role transcript key ≡ ok sig
    → is_none sig ≡ not (is_transfer t)
unfolding sign_holder
sign_holder-eq-ok grant role transcript key sig e =
    let is : none ≡ sig = ground arith in rw (← is) refl
sign_holder-eq-ok revoke role transcript key sig e =
    let is : none ≡ sig = ground arith in rw (← is) refl
sign_holder-eq-ok progress role transcript key sig e =
    let is : none ≡ sig = ground arith in rw (← is) refl
sign_holder-eq-ok transfer role transcript key sig e =
    let (k, k_is, e1) = bind-ok (ok_or key _) _ sig e in
    let (s, s_is, e2) = bind-ok (from_suite (role.sign transcript k)) _ sig e1 in
    let is : some s ≡ sig = ground arith in rw (← is) refl

-- What `sign` has done where it succeeds.
push_signed-eq-ok :
    (c : Crates) (id : ℕ) (key : HybridSigningKey) (holder_key : Option HybridSigningKey)
    (r : EntitlementRecord) (chain chain' : Chain)
    → push_signed chain (sign c id key holder_key r) ≡ ok chain'
    → (platform : HybridSignature) × (holder : Option HybridSignature) × (chain'
        ≡ chain ++ (signed_as r platform holder ∷ []))
      × (is_none holder ≡ not (is_transfer r.record_type))
unfolding push_signed sign
push_signed-eq-ok c id key holder_key r chain chain' e =
    elim (Result-cases (sign_platform c id key r)) [
      | inr (x, bad) ↦ absurd (ground arith)
      | inl ((role, transcript, sig), made) ↦
          elim (Result-cases (sign_holder r.record_type role transcript holder_key)) [
            | inr (x, bad) ↦ absurd (ground arith)
            | inl (holder, held) ↦ (
              sig,
              holder,
              ground arith,
              sign_holder-eq-ok r.record_type role transcript holder_key holder held,
            )
          ]
    ]

Continues-snoc :
    (c : Crates) (previous r : EntitlementRecord) (n : ℕ) (rest : Chain)
    → Continues c previous n rest
    → IsEntry (n + length rest) r
    → is_none r.root ≡ true
    → record_id c (last_of previous rest) ≡ ok r.prev
    → Continues c previous n (rest ++ (r ∷ []))
unfolding last_of
Continues-snoc c previous r n [] (finished _ _) i rootless id_is =
    let at : n + 0 ≡ n = omega arith in
    linked previous r n [] (subst (λ m. IsEntry m r) at i) rootless id_is (finished r (suc n))
Continues-snoc c previous r n (q ∷ rest) (linked _ _ _ _ j q_rootless q_id k) i rootless id_is =
    let at : n + length (q ∷ rest) ≡ suc n + length rest = omega arith in
    linked previous q n (rest ++ (r ∷ [])) j q_rootless q_id
      (Continues-snoc c q r (suc n) rest k (subst (λ m. IsEntry m r) at i) rootless id_is)

IsChain-snoc :
    (c : Crates) (chain : Chain) (last r : EntitlementRecord)
    → IsChain c chain
    → last_record chain ≡ some last
    → IsEntry (length chain) r
    → is_none r.root ≡ true
    → record_id c last ≡ ok r.prev
    → IsChain c (chain ++ (r ∷ []))
unfolding last_record
IsChain-snoc c [] last r k e i rootless id_is = elim k [ ]
IsChain-snoc c (q ∷ rest) last r (starts _ _ j g k) e i rootless id_is =
    let at : length (q ∷ rest) ≡ 1 + length rest = omega arith in
    let is : last ≡ last_of q rest = cc in
    starts q (rest ++ (r ∷ [])) j g
      (Continues-snoc c q r 1 rest k (subst (λ m. IsEntry m r) at i) rootless (rw is at id_is))

-- A transfer that is appended to a valid chain leaves it valid.
append_transfer-IsChain :
    (c : Crates) (chain chain' : Chain) (challenge subject new_holder : List ℕ) (suite_id : ℕ)
    (platform_key current_key : HybridSigningKey) (timestamp : Option Timestamp)
    (payload : Option (List ℕ))
    → IsChain c chain
    → append_transfer c chain challenge subject new_holder suite_id platform_key current_key
        timestamp payload
      ≡ ok chain'
    → (r : EntitlementRecord) × (chain' ≡ chain ++ (r ∷ [])) × IsChain c chain'
unfolding append_transfer
append_transfer-IsChain c chain chain' challenge subject new_holder suite_id platform_key
      current_key timestamp payload k e =
    let (last, last_is, e1) = bind-ok (ok_or (last_record chain) _) _ chain' e in
    let (prev, prev_is, e2) = bind-ok (record_id c last) _ chain' e1 in
    let (fits, e3) = then-ok (refuse_if (ltb 0xffff_ffff (length chain)) _) _ chain' e2 in
    let draft =
      transfer_record (length chain) challenge subject new_holder prev timestamp payload in
    let (platform, holder, grown, held) =
      push_signed-eq-ok c suite_id platform_key (some current_key) draft chain chain' e3 in
    let r = signed_as draft platform holder in
    let entry : IsEntry (length chain) r = record {
      seq = refl;
      fits = ground (arith, fits);
      platform = refl;
      holder = held;
    } in
    let last_is' = ok_or-eq-ok (last_record chain) _ last last_is in
    (r, grown, rw grown (IsChain-snoc c chain last r k last_is' entry refl prev_is))

append_grant-IsChain :
    (c : Crates) (chain chain' : Chain) (challenge subject holder root : List ℕ) (suite_id : ℕ)
    (platform_key : HybridSigningKey) (timestamp : Option Timestamp)
    → append_grant c chain challenge subject holder root suite_id platform_key timestamp ≡ ok chain'
    → IsChain c chain' × (check_root root chain' ≡ ok tt)
unfolding append_grant check_root is_root
append_grant-IsChain c (q ∷ rest) chain' challenge subject holder root suite_id platform_key
      timestamp e =
    absurd (ground arith)
append_grant-IsChain c [] chain' challenge subject holder root suite_id platform_key timestamp e =
    let draft = grant_record challenge subject holder root timestamp in
    let (platform, held_sig, grown, held) =
      push_signed-eq-ok c suite_id platform_key none draft [] chain' e in
    let r = signed_as draft platform held_sig in
    (
      rw grown (
          starts r [] (record { seq = refl; fits = omega arith; platform = refl; holder = held })
            (record { granted = refl; rooted = refl; first = refl }) (finished r 1)),
      rw (grown, bytes_eq_refl root) refl,
    )

-- The chains that `append_grant` starts with a root and `append_transfer` extends.
pub data Grown (c : Crates) (root : List ℕ) : Chain → Type 0 where
  granted :
      (chain : Chain) (challenge subject holder : List ℕ) (suite_id : ℕ)
      (platform_key : HybridSigningKey) (timestamp : Option Timestamp)
      → append_grant c [] challenge subject holder root suite_id platform_key timestamp ≡ ok chain
      → Grown c root chain
  transferred :
      (chain chain' : Chain) (challenge subject new_holder : List ℕ) (suite_id : ℕ)
      (platform_key current_key : HybridSigningKey) (timestamp : Option Timestamp)
      (payload : Option (List ℕ))
      → Grown c root chain
      → append_transfer c chain challenge subject new_holder suite_id platform_key current_key
          timestamp payload
        ≡ ok chain'
      → Grown c root chain'

check_root-append :
    (root : List ℕ) (chain : Chain) (r : EntitlementRecord)
    → check_root root chain ≡ ok tt
    → check_root root (chain ++ (r ∷ [])) ≡ ok tt
unfolding check_root
check_root-append root [] r e = absurd (cc)
check_root-append root (q ∷ rest) r e = e

Grown-IsChain :
    (c : Crates) (root : List ℕ) (chain : Chain)
    → Grown c root chain
    → IsChain c chain × (check_root root chain ≡ ok tt)
Grown-IsChain c root chain (granted _ challenge subject holder suite_id platform_key timestamp e) =
    append_grant-IsChain c [] chain challenge subject holder root suite_id platform_key timestamp e
Grown-IsChain c root chain
      (transferred before _ challenge subject new_holder suite_id platform_key current_key timestamp
        payload g e) =
    let (is_chain, rooted) = Grown-IsChain c root before g in
    let (r, grown, longer) =
      append_transfer-IsChain c before chain challenge subject new_holder suite_id platform_key
        current_key timestamp payload is_chain e in
    (longer, rw grown (check_root-append root before r rooted))

-- Every chain that a grant of a root starts, and that any number of transfers extends, is valid and bound to
-- that root.
pub Grown-valid :
    (c : Crates) (root : List ℕ) (chain : Chain)
    → Grown c root chain
    → validate_against_root c chain root ≡ ok tt
unfolding validate_against_root
Grown-valid c root chain g =
    let (is_chain, rooted) = Grown-IsChain c root chain g in
    rw (IsChain-validate c chain is_chain) rooted
