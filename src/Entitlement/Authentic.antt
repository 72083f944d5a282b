-- ===== src/Entitlement/Authentic.antt =====
-- What `verify_signatures` accepts is signed throughout: by the platform, and each transfer by the holder
-- whom the record before it names.
use sidequests.Common.{
  ℕ, ◌≡◌, ◌≢◌, List, [], ◌∷◌, ◌&&◌, Option, some, none, inl, inr, Bool-cases, arith,
}
use sidequests.Error.{Result}
use sidequests.Outcome.{ok, some_or, bind-ok, some_or-eq-ok}
use sidequests.Wire.{bytes_eq, bytes_eq→eq}
use sidequests.Footer.{sig_input}
use sidequests.Crypto.Errors.{SuiteError}
use sidequests.Crypto.Crates.{Crates}
use sidequests.Crypto.Roles.{Signature, HybridPublicKey, HybridSignature}
use sidequests.Bundle.{signature_role}
use sidequests.Envelope.{or_error}
use sidequests.Entitlement.{
  EntitlementRecord, transfer, record_id, entitlement_sig_input, holder_hash,
}
use sidequests.Entitlement.Chain.{Chain}
use sidequests.Entitlement.Authenticity.{
  HolderKeys, get_holder, verify_holder, verify_transfer, verify_record, verify_records,
  verify_signatures,
}

-- The holder whom `previous` names has signed: the key hashes to that name.
pub record HolderSigned (c : Crates) (role : Signature) (transcript : List ℕ)
    (previous : Option EntitlementRecord) (sig : Option HybridSignature) : Type 0 where
  pub predecessor : EntitlementRecord
  pub behind : previous ≡ some predecessor
  pub key : HybridPublicKey
  pub named : holder_hash c key ≡ predecessor.holder
  pub signature : HybridSignature
  pub signed : sig ≡ some signature
  pub verified : role.verify transcript key signature ≡ ok tt

pub record IsAuthentic (c : Crates) (role : Signature) (suite_id : ℕ)
    (platform_key : HybridPublicKey) (previous : Option EntitlementRecord) (r : EntitlementRecord)
    : Type 0 where
  pub id : List ℕ
  pub id_is : record_id c r ≡ Result.ok id
  pub platform : HybridSignature
  pub signed : r.sig_platform ≡ some platform
  pub verified : role.verify (entitlement_sig_input r.seq id suite_id) platform_key platform ≡ ok tt
  pub handed_over :
      r.record_type ≡ transfer
      → HolderSigned c role (entitlement_sig_input r.seq id suite_id) previous r.sig_holder

pub data AllAuthentic (c : Crates) (role : Signature) (suite_id : ℕ)
    (platform_key : HybridPublicKey) : Option EntitlementRecord → Chain → Type 0 where
  finished :
      (previous : Option EntitlementRecord) → AllAuthentic c role suite_id platform_key previous []
  next :
      (previous : Option EntitlementRecord) (r : EntitlementRecord) (rest : Chain)
      → IsAuthentic c role suite_id platform_key previous r
      → AllAuthentic c role suite_id platform_key (some r) rest
      → AllAuthentic c role suite_id platform_key previous (r ∷ rest)

or_error-eq-ok :
    {A : Type 0} (r : Result A) (x : SuiteError) (a : A) → or_error r x ≡ ok a → r ≡ Result.ok a
unfolding or_error
or_error-eq-ok (Result.ok b) x a e = ground arith
or_error-eq-ok (Result.err y) x a e = absurd (cc)

get_holder-eq-some :
    (c : Crates) (keys : HolderKeys) (holder : List ℕ) (key : HybridPublicKey)
    → get_holder c keys holder ≡ some key
    → holder_hash c key ≡ holder
unfolding get_holder
get_holder-eq-some c [] holder key e = absurd (cc)
get_holder-eq-some c ((h, k) ∷ rest) holder key e =
    elim (Bool-cases (bytes_eq h holder && bytes_eq (holder_hash c k) holder)) [
      | inr other ↦ get_holder-eq-some c rest holder key (ground arith)
      | inl here ↦
          let is : k ≡ key = ground arith in
          rw (← is) (bytes_eq→eq (holder_hash c k) holder (ground arith))
    ]

verify_holder-HolderSigned :
    (c : Crates) (role : Signature) (transcript : List ℕ) (holders : HolderKeys)
    (previous : Option EntitlementRecord) (sig : Option HybridSignature)
    → verify_holder c role transcript holders previous sig ≡ ok tt
    → HolderSigned c role transcript previous sig
unfolding verify_holder
verify_holder-HolderSigned c role transcript holders previous sig e =
    let (p, p_is, e1) = bind-ok (some_or previous _) _ tt e in
    let (key, key_is, e2) = bind-ok (some_or (get_holder c holders p.holder) _) _ tt e1 in
    let (s, s_is, e3) = bind-ok (some_or sig _) _ tt e2 in
    record {
      predecessor = p;
      behind = some_or-eq-ok previous _ p p_is;
      key = key;
      named =
          get_holder-eq-some c holders p.holder key
            (some_or-eq-ok (get_holder c holders p.holder) _ key key_is);
      signature = s;
      signed = some_or-eq-ok sig _ s s_is;
      verified = e3;
    }

verify_record-IsAuthentic :
    (c : Crates) (role : Signature) (suite_id : ℕ) (platform_key : HybridPublicKey)
    (holders : HolderKeys) (previous : Option EntitlementRecord) (r : EntitlementRecord)
    → verify_record c role suite_id platform_key holders previous r ≡ ok tt
    → IsAuthentic c role suite_id platform_key previous r
unfolding verify_record verify_transfer
verify_record-IsAuthentic c role suite_id platform_key holders previous r e =
    let (id, id_is, e1) = bind-ok (or_error (record_id c r) _) _ tt e in
    let (s, s_is, e2) = bind-ok (some_or r.sig_platform _) _ tt e1 in
    let transcript = entitlement_sig_input r.seq id suite_id in
    let (u, verified, e3) = bind-ok (role.verify transcript platform_key s) _ tt e2 in
    record {
      id = id;
      id_is = or_error-eq-ok (record_id c r) _ id id_is;
      platform = s;
      signed = some_or-eq-ok r.sig_platform _ s s_is;
      verified = verified;
      handed_over = λ is.
          verify_holder-HolderSigned c role transcript holders previous r.sig_holder (rw is at e3);
    }

verify_records-AllAuthentic :
    (c : Crates) (role : Signature) (suite_id : ℕ) (platform_key : HybridPublicKey)
    (holders : HolderKeys) (previous : Option EntitlementRecord) (chain : Chain)
    → verify_records c role suite_id platform_key holders previous chain ≡ ok tt
    → AllAuthentic c role suite_id platform_key previous chain
unfolding verify_records
verify_records-AllAuthentic c role suite_id platform_key holders previous [] e = finished previous
verify_records-AllAuthentic c role suite_id platform_key holders previous (r ∷ rest) e =
    let (u, one, later) =
      bind-ok (verify_record c role suite_id platform_key holders previous r) _ tt e in
    next previous r rest
      (verify_record-IsAuthentic c role suite_id platform_key holders previous r one)
      (verify_records-AllAuthentic c role suite_id platform_key holders (some r) rest later)

-- Where `verify_signatures` accepts a chain, the suite's signature role verifies every record's platform
-- signature, and for every transfer also the signature of a key that hashes to the holder whom the record
-- before it names: a handoff cannot be made without the one who hands over.
pub verify_signatures-AllAuthentic :
    (c : Crates) (chain : Chain) (suite_id : ℕ) (platform_key : HybridPublicKey)
    (holders : HolderKeys)
    → verify_signatures c chain suite_id platform_key holders ≡ ok tt
    → (role : Signature) × (signature_role c suite_id ≡ ok role)
      × AllAuthentic c role suite_id platform_key none chain
unfolding verify_signatures
verify_signatures-AllAuthentic c chain suite_id platform_key holders e =
    let (role, role_is, e1) = bind-ok (signature_role c suite_id) _ tt e in
    (role, role_is, verify_records-AllAuthentic c role suite_id platform_key holders none chain e1)

-- No transcript of a record is the transcript of a footer, so that no signature of one is one of the other.
pub entitlement_sig_input-foreign :
    (seq : ℕ) (id : List ℕ) (suite_id : ℕ) (suite' classical_len pq_len : ℕ) (root : List ℕ)
    (total_len : ℕ)
    → entitlement_sig_input seq id suite_id ≢ sig_input suite' classical_len pq_len root total_len
unfolding entitlement_sig_input sig_input
entitlement_sig_input-foreign seq id suite_id suite' classical_len pq_len root total_len e =
    absurd (ground arith)
