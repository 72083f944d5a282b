-- ===== src/Entitlement/Authenticity.antt =====
-- ctf-format/crates/ctf-format/src/entitlement.rs: `HolderKeys`, and `EntitlementChain::verify_signatures`.
use sidequests.Common.{ℕ, List, [], ◌∷◌, ◌++◌, ◌&&◌, Option, none, some, if◌then◌else◌}
use sidequests.Outcome.{ok, some_or, ◌>>=◌, ◌>>◌}
use sidequests.Wire.{bytes_eq}
use sidequests.Crypto.Errors.{Role, primitive, invalid_key}
use sidequests.Crypto.Crates.{Crates}
use sidequests.Crypto.Roles.{Signature, HybridPublicKey, HybridSignature, Checked}
use sidequests.Bundle.{signature_role}
use sidequests.Envelope.{or_error}
use sidequests.Entitlement.{
  EntitlementRecord, RecordType, grant, transfer, revoke, progress, record_id,
  entitlement_sig_input, holder_hash,
}
use sidequests.Entitlement.Chain.{Chain}

-- `HolderKeys`
abbrev pub HolderKeys : Type 0
HolderKeys = List (List ℕ × HybridPublicKey)

unfoldable pub insert_holder : HolderKeys → List ℕ → HybridPublicKey → HolderKeys
insert_holder keys holder key = keys ++ ((holder, key) ∷ [])

unfoldable pub get_holder : Crates → HolderKeys → List ℕ → Option HybridPublicKey
get_holder c [] holder = none
get_holder c ((h, key) ∷ rest) holder =
    let later = get_holder c rest holder in
    if bytes_eq h holder && bytes_eq (holder_hash c key) holder then some key else later

-- The signature of the holder whom the record before names.
unfoldable pub verify_holder :
    Crates
    → Signature
    → (transcript : List ℕ) → HolderKeys
    → Option EntitlementRecord
    → Option HybridSignature
    → Checked (Unit {0})
verify_holder c role transcript holders previous sig_holder = do
  predecessor ←
      some_or previous
        (primitive Role.signature "transfer record has no predecessor to name the current holder")
  holder_key ← some_or (get_holder c holders predecessor.holder) (invalid_key Role.signature)
  sig ← some_or sig_holder (primitive Role.signature "transfer record has no holder signature")
  role.verify transcript holder_key sig

unfoldable pub verify_transfer :
    Crates
    → Signature
    → (transcript : List ℕ) → HolderKeys
    → Option EntitlementRecord
    → EntitlementRecord
    → RecordType
    → Checked (Unit {0})
verify_transfer c role transcript holders previous r transfer =
    verify_holder c role transcript holders previous r.sig_holder
verify_transfer c role transcript holders previous r grant = ok tt
verify_transfer c role transcript holders previous r revoke = ok tt
verify_transfer c role transcript holders previous r progress = ok tt

-- One record, behind `previous`.
unfoldable pub verify_record :
    Crates
    → Signature
    → (suite_id : ℕ) → HybridPublicKey
    → HolderKeys
    → Option EntitlementRecord
    → EntitlementRecord
    → Checked (Unit {0})
verify_record c role suite_id platform_key holders previous r = do
  id ←
      or_error (record_id c r)
        (primitive Role.signature "entitlement record could not be encoded for verification")
  let transcript = entitlement_sig_input r.seq id suite_id
  sig_platform ←
      some_or r.sig_platform
        (primitive Role.signature "entitlement record has no platform signature")
  role.verify transcript platform_key sig_platform
  verify_transfer c role transcript holders previous r r.record_type

unfoldable pub verify_records :
    Crates
    → Signature
    → (suite_id : ℕ) → HybridPublicKey
    → HolderKeys
    → Option EntitlementRecord
    → Chain
    → Checked (Unit {0})
verify_records c role suite_id platform_key holders previous [] = ok tt
verify_records c role suite_id platform_key holders previous (r ∷ rest) = do
  verify_record c role suite_id platform_key holders previous r
  verify_records c role suite_id platform_key holders (some r) rest

unfoldable pub verify_signatures :
    Crates → Chain → (suite_id : ℕ) → HybridPublicKey → HolderKeys → Checked (Unit {0})
verify_signatures c chain suite_id platform_key holders = do
  role ← signature_role c suite_id
  verify_records c role suite_id platform_key holders none chain
