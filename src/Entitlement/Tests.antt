-- ===== src/Entitlement/Tests.antt =====
-- A grant and a transfer under a sample of the crates; and the theorems about the entitlement log at them.
use sidequests.Common.{ℕ, ◌≡◌, ◌↔◌, refl, List, [], ◌∷◌, none, some, replicate}
use sidequests.Error.{ok}
use sidequests.Outcome
use sidequests.Wire.{to_le, bytes_eq}
use sidequests.Cbor
use sidequests.Common.Sort.{sort, insert}
use sidequests.Crypto.Roles.{Signature, HybridPublicKey, HybridSigningKey, HybridSignature}
use sidequests.Crypto.Samples.{sample_crates}
use sidequests.Crypto.Registry.{find_suite, suite, signature_of}
use sidequests.Crypto.Sign
use sidequests.Bundle.{from_suite, signature_role}
use sidequests.Envelope.{or_error}
use sidequests.Entitlement.{EntitlementRecord, grant, transfer}
use sidequests.Entitlement
use sidequests.Entitlement.Chain.{
  Chain, append_grant, append_transfer, validate, validate_against_root, zero_root,
}
use sidequests.Entitlement.Chain
use sidequests.Entitlement.Authenticity.{HolderKeys, verify_signatures}
use sidequests.Entitlement.Authenticity
use sidequests.Entitlement.Linked.{IsChain, validate-iff-IsChain}
use sidequests.Entitlement.Grown.{Grown, granted, transferred, Grown-valid}
use sidequests.Entitlement.Authentic.{AllAuthentic, verify_signatures-AllAuthentic}

abbrev bundle_root : List ℕ
bundle_root = replicate 32 1

abbrev holder : List ℕ
holder = replicate 32 7

abbrev sample_signature : HybridSignature
sample_signature = record { classical = replicate 64 0; pq = replicate 3309 0 }

abbrev sample_signing : HybridSigningKey
sample_signing = record { classical = replicate 32 0; pq = replicate 32 0 }

abbrev sample_public : HybridPublicKey
sample_public = record { classical = replicate 32 0; pq = replicate 1952 0 }

-- The challenge is "c", the subject "s".
abbrev first : EntitlementRecord
first = record {
  seq = 0;
  record_type = grant;
  challenge = 99 ∷ [];
  subject = 115 ∷ [];
  holder = holder;
  prev = zero_root;
  root = some bundle_root;
  timestamp = none;
  payload = none;
  sig_holder = none;
  sig_platform = some sample_signature;
}

abbrev second : EntitlementRecord
second = record {
  seq = 1;
  record_type = transfer;
  challenge = 99 ∷ [];
  subject = 115 ∷ [];
  holder = replicate 32 8;
  prev = replicate 32 7;
  root = none;
  timestamp = none;
  payload = some (5 ∷ []);
  sig_holder = some sample_signature;
  sig_platform = some sample_signature;
}

abbrev one_record : Chain
one_record = first ∷ []

abbrev two_records : Chain
two_records = first ∷ (second ∷ [])

granted_first :
    append_grant sample_crates [] (99 ∷ []) (115 ∷ []) holder bundle_root 1 sample_signing none
    ≡ ok one_record
unfolding Chain.append_grant Chain.push_signed Entitlement.type_name Entitlement.timestamp_to_value
    Entitlement.push_some Entitlement.signature_entries Entitlement.record_entries
    Entitlement.record_id Entitlement.entitlement_sig_input Entitlement.sign_platform
    Entitlement.sign_holder Entitlement.sign from_suite find_suite suite signature_of to_le bytes_eq
    Sign.ed25519_mldsa65 Sign.sign_two Sign.classical_sign Sign.ml_dsa_sign Cbor.encode
    Cbor.encode_into Cbor.put_head Cbor.bytes_lt Cbor.key_le Cbor.has_duplicate Cbor.write_entries
    Cbor.write_map Cbor.count_entries sort insert
granted_first = refl

transferred_second :
    append_transfer sample_crates one_record
      (99 ∷ [])
      (115 ∷ [])
      (replicate 32 8)
      1
      sample_signing
      sample_signing
      none
      (some (5 ∷ []))
    ≡ ok two_records
unfolding Chain.append_transfer Chain.push_signed Chain.last_record Chain.last_of
    Entitlement.type_name Entitlement.timestamp_to_value Entitlement.push_some
    Entitlement.signature_entries Entitlement.record_entries Entitlement.record_id
    Entitlement.entitlement_sig_input Entitlement.sign_platform Entitlement.sign_holder
    Entitlement.sign from_suite find_suite suite signature_of to_le bytes_eq Sign.ed25519_mldsa65
    Sign.sign_two Sign.classical_sign Sign.ml_dsa_sign Cbor.encode Cbor.encode_into Cbor.put_head
    Cbor.bytes_lt Cbor.key_le Cbor.has_duplicate Cbor.write_entries Cbor.write_map
    Cbor.count_entries sort insert
transferred_second = refl

two_records-Grown : Grown sample_crates bundle_root two_records
two_records-Grown =
    transferred one_record two_records (99 ∷ []) (115 ∷ []) (replicate 32 8) 1 sample_signing
      sample_signing none (some (5 ∷ []))
      (granted one_record (99 ∷ []) (115 ∷ []) holder 1 sample_signing none granted_first)
      transferred_second

Grown-valid_example : validate_against_root sample_crates two_records bundle_root ≡ ok tt
Grown-valid_example = Grown-valid sample_crates bundle_root two_records two_records-Grown

validate-iff-IsChain_example :
    (validate sample_crates two_records ≡ ok tt) ↔ IsChain sample_crates two_records
validate-iff-IsChain_example = validate-iff-IsChain sample_crates two_records

abbrev holders : HolderKeys
holders = (holder, sample_public) ∷ []

signatures_verified :
    verify_signatures sample_crates two_records 1 sample_public holders ≡ Outcome.ok tt
unfolding Authenticity.verify_signatures Authenticity.verify_records Authenticity.verify_record
    Authenticity.verify_transfer Authenticity.verify_holder Authenticity.get_holder
    Entitlement.holder_hash signature_role or_error Sign.verify_two Sign.check_lengths
    Sign.classical_verify Sign.ml_dsa_verify Entitlement.type_name Entitlement.timestamp_to_value
    Entitlement.push_some Entitlement.signature_entries Entitlement.record_entries
    Entitlement.record_id Entitlement.entitlement_sig_input Entitlement.sign_platform
    Entitlement.sign_holder Entitlement.sign from_suite find_suite suite signature_of to_le bytes_eq
    Sign.ed25519_mldsa65 Sign.sign_two Sign.classical_sign Sign.ml_dsa_sign Cbor.encode
    Cbor.encode_into Cbor.put_head Cbor.bytes_lt Cbor.key_le Cbor.has_duplicate Cbor.write_entries
    Cbor.write_map Cbor.count_entries sort insert
signatures_verified = refl

verify_signatures-AllAuthentic_example :
    (role : Signature) × (signature_role sample_crates 1 ≡ Outcome.ok role)
    × AllAuthentic sample_crates role 1 sample_public none two_records
verify_signatures-AllAuthentic_example =
    verify_signatures-AllAuthentic sample_crates two_records 1 sample_public holders
      signatures_verified
