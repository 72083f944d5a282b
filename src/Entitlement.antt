-- ===== src/Entitlement.antt =====
-- ctf-format/crates/ctf-format/src/entitlement.rs: one record of the entitlement log. A `str` is its UTF-8
-- bytes. The hash is the `blake3` of `Crates`; a hasher that is updated piece by piece has the hash of the
-- pieces joined.
pub mod Keys
pub mod Chain
pub mod Authenticity
pub mod Linked
pub mod Grown
pub mod Authentic
mod Tests
use sidequests.Common.{
  ℕ, String, List, [], ◌∷◌, ◌++◌, Bool, true, false, not, Option, none, some, length, ltb, ◌==◌,
  if◌then◌else◌,
}
use sidequests.Error.{Error, Result, ok, err, ◌>>=◌, ◌>>◌, refuse_if, ok_or, inconsistent, of_suite}
use sidequests.Wire.{bytes_eq, to_le}
use sidequests.Footer.{root_len}
use sidequests.Cbor.{Value, Entries, bytes, text, map, entry, end}
use sidequests.Cbor
use sidequests.Cbor.Access.{and_then, is_none, get, as_uint, as_text, as_bytes, as_map}
use sidequests.Manifest.Decode.{is_among}
use sidequests.Crypto.Errors.{Role, primitive}
use sidequests.Crypto.Crates.{Crates}
use sidequests.Crypto.Roles.{Signature, HybridPublicKey, HybridSigningKey, HybridSignature}
use sidequests.Crypto.Registry.{suite, signature_of}
use sidequests.Bundle.{from_suite}
use sidequests.Entitlement.Keys.{
  record_label, entitlement_sig_label, holder_hash_label, seq_key, type_key, challenge_key,
  subject_key, holder_key, prev_key, root_key, timestamp_key, payload_key, sig_holder_key,
  sig_platform_key, classical_key, pq_key, grant_word, transfer_word, revoke_word, progress_word,
  record_keys, signature_keys,
}

unfoldable pub holder_hash : Crates → HybridPublicKey → List ℕ
holder_hash c public_key = c.blake3 (holder_hash_label ++ (public_key.classical ++ public_key.pq))

pub data RecordType : Type 0 where
  grant : RecordType
  transfer : RecordType
  revoke : RecordType
  progress : RecordType

unfoldable pub type_name : RecordType → List ℕ
type_name grant = grant_word
type_name transfer = transfer_word
type_name revoke = revoke_word
type_name progress = progress_word

unfoldable pub type_from_name : List ℕ → Option RecordType
type_from_name name =
    if bytes_eq name grant_word
    then some grant
    else if bytes_eq name transfer_word
    then some transfer
    else if bytes_eq name revoke_word
    then some revoke
    else if bytes_eq name progress_word
    then some progress
    else none

abbrev pub is_grant : RecordType → Bool
is_grant grant = true
is_grant transfer = false
is_grant revoke = false
is_grant progress = false

abbrev pub is_transfer : RecordType → Bool
is_transfer grant = false
is_transfer transfer = true
is_transfer revoke = false
is_transfer progress = false

-- A timestamp is for display; nothing reads it.
pub data Timestamp : Type 0 where
  uint : ℕ → Timestamp
  nint : ℕ → Timestamp

unfoldable pub timestamp_from_value : Value → Option Timestamp
timestamp_from_value (Value.uint n) = some (Timestamp.uint n)
timestamp_from_value (Value.nint n) = some (Timestamp.nint n)
timestamp_from_value _ = none

unfoldable pub timestamp_to_value : Timestamp → Value
timestamp_to_value (Timestamp.uint n) = Value.uint n
timestamp_to_value (Timestamp.nint n) = Value.nint n

pub record EntitlementRecord : Type 0 where
  pub seq : ℕ
  pub record_type : RecordType
  pub challenge : List ℕ
  pub subject : List ℕ
  pub holder : List ℕ
  pub prev : List ℕ
  pub root : Option (List ℕ)
  pub timestamp : Option Timestamp
  pub payload : Option (List ℕ)
  pub sig_holder : Option HybridSignature
  pub sig_platform : Option HybridSignature

abbrev pub bad : String → Error
bad what = inconsistent what

unfoldable pub signature_value : HybridSignature → Value
signature_value s =
    map (entry (text classical_key) (bytes s.classical) (entry (text pq_key) (bytes s.pq) end))

-- `if let Some(v) = field { entries.push((key, value(v))) }`, with what is pushed behind it.
unfoldable pub push_some : {A : Type 0} → List ℕ → Option A → (A → Value) → Entries → Entries
push_some key none value rest = rest
push_some key (some a) value rest = entry (text key) (value a) rest

unfoldable pub signature_entries : EntitlementRecord → (include_signatures : Bool) → Entries
signature_entries r false = end
signature_entries r true =
    push_some sig_holder_key r.sig_holder signature_value
      (push_some sig_platform_key r.sig_platform signature_value end)

unfoldable pub record_entries : EntitlementRecord → (include_signatures : Bool) → Entries
record_entries r include_signatures = entry (text seq_key) (Value.uint r.seq) (
    entry (text type_key) (text (type_name r.record_type)) (
      entry (text challenge_key) (text r.challenge) (
        entry (text subject_key) (text r.subject) (
          entry (text holder_key) (bytes r.holder) (
            entry (text prev_key) (bytes r.prev) (
              push_some root_key r.root bytes (
                push_some timestamp_key r.timestamp timestamp_to_value (
                  push_some payload_key r.payload bytes
                    (signature_entries r include_signatures)))))))))

-- `<[u8; ROOT_LEN]>::try_from`
unfoldable pub fixed_32 : Value → String → Result (List ℕ)
fixed_32 value what = do
  b ← ok_or (as_bytes value) (bad what)
  refuse_if (not (length b == root_len)) (bad what)
  ok b

-- The keys of a map, each of them text and on the list.
unfoldable pub check_known :
    List (Value × Value) → List (List ℕ) → (not_text unknown : String) → Result (Unit {0})
check_known [] known not_text unknown = ok tt
check_known ((k, v) ∷ rest) known not_text unknown = do
  key ← ok_or (as_text k) (bad not_text)
  refuse_if (not (is_among key known)) (bad unknown)
  check_known rest known not_text unknown

unfoldable pub parse_signature : Value → Result HybridSignature
parse_signature value = do
  entries ← ok_or (as_map value) (bad "entitlement signature is not a CBOR map")
  check_known entries signature_keys "entitlement signature map key is not text"
      "entitlement signature map has an unknown key"
  classical ←
      ok_or (and_then (get classical_key value) as_bytes)
        (bad "entitlement signature map is missing `classical` or it is not a byte string")
  pq ←
      ok_or (and_then (get pq_key value) as_bytes)
        (bad "entitlement signature map is missing `pq` or it is not a byte string")
  ok (record { classical = classical; pq = pq })

-- `match value.get(key) { Some(v) => Some(read(v)?), None => None }`
unfoldable pub optional : {A : Type 0} → Option Value → (Value → Result A) → Result (Option A)
optional none read = ok none
optional (some v) read = do a ← read v; ok (some a)

-- `u32::try_from`
unfoldable pub as_u32 : ℕ → Option ℕ
as_u32 n = if ltb 0xffff_ffff n then none else some n

unfoldable pub check : EntitlementRecord → Result (Unit {0})
check r = do
  refuse_if (is_none r.sig_platform) (bad "entitlement record is missing `sig_platform`")
  if is_transfer r.record_type
      then refuse_if (is_none r.sig_holder) (bad "transfer record is missing `sig_holder`")
      else refuse_if (not (is_none r.sig_holder)) (bad "non-transfer record carries `sig_holder`")

unfoldable pub from_value : Value → Result EntitlementRecord
from_value value = do
  entries ← ok_or (as_map value) (bad "entitlement record is not a CBOR map")
  check_known entries record_keys "entitlement record key is not text"
      "entitlement record has an unknown key"
  seq ←
      ok_or (and_then (and_then (get seq_key value) as_uint) as_u32)
        (bad "entitlement record is missing `seq` or it is not a uint")
  record_type ←
      ok_or (and_then (and_then (get type_key value) as_text) type_from_name)
        (bad "entitlement record `type` is not one of grant, transfer, revoke, progress")
  challenge ←
      ok_or (and_then (get challenge_key value) as_text)
        (bad "entitlement record is missing `challenge` or it is not text")
  subject ←
      ok_or (and_then (get subject_key value) as_text)
        (bad "entitlement record is missing `subject` or it is not text")
  holder_value ← ok_or (get holder_key value) (bad "entitlement record is missing `holder`")
  holder ← fixed_32 holder_value "entitlement record `holder` is not exactly 32 bytes"
  prev_value ← ok_or (get prev_key value) (bad "entitlement record is missing `prev`")
  prev ← fixed_32 prev_value "entitlement record `prev` is not exactly 32 bytes"
  root ←
      optional (get root_key value)
        (λ v. fixed_32 v "entitlement record `root` is not exactly 32 bytes")
  timestamp ←
      optional (get timestamp_key value) (λ v.
        ok_or (timestamp_from_value v) (bad "entitlement record `timestamp` is not an integer"))
  payload ←
      optional (get payload_key value)
        (λ v. ok_or (as_bytes v) (bad "entitlement record `payload` is not a byte string"))
  sig_holder ← optional (get sig_holder_key value) parse_signature
  sig_platform ← optional (get sig_platform_key value) parse_signature
  let r : EntitlementRecord = record {
    seq = seq;
    record_type = record_type;
    challenge = challenge;
    subject = subject;
    holder = holder;
    prev = prev;
    root = root;
    timestamp = timestamp;
    payload = payload;
    sig_holder = sig_holder;
    sig_platform = sig_platform;
  }
  check r
  ok r

-- The hash of the record's canonical bytes without its signatures.
unfoldable pub record_id : Crates → EntitlementRecord → Result (List ℕ)
record_id c r = do
  cbor ← Cbor.encode (map (record_entries r false))
  ok (c.blake3 (record_label ++ cbor))

unfoldable pub entitlement_sig_input : (seq : ℕ) → (id : List ℕ) → (suite_id : ℕ) → List ℕ
unfolding to_le
entitlement_sig_input seq id suite_id =
    entitlement_sig_label ++ (to_le 2 suite_id ++ (to_le 4 seq ++ id))

-- The first half of `sign`: the suite's role, the transcript, and the platform's signature.
unfoldable pub sign_platform :
    Crates
    → (suite_id : ℕ) → HybridSigningKey
    → EntitlementRecord
    → Result (Signature × List ℕ × HybridSignature)
sign_platform c suite_id platform_key r = do
  s ← from_suite (suite c suite_id)
  role ← from_suite (signature_of s)
  id ← record_id c r
  let transcript = entitlement_sig_input r.seq id suite_id
  sig ← from_suite (role.sign transcript platform_key)
  ok (role, transcript, sig)

unfoldable pub sign_holder :
    RecordType → Signature → List ℕ → Option HybridSigningKey → Result (Option HybridSignature)
sign_holder transfer role transcript current_key = do
  key ←
      ok_or current_key
        (of_suite (primitive Role.signature "transfer requires the current holder's signing key"))
  sig ← from_suite (role.sign transcript key)
  ok (some sig)
sign_holder grant role transcript current_key = ok none
sign_holder revoke role transcript current_key = ok none
sign_holder progress role transcript current_key = ok none

-- The record as `sign` leaves it, and what it returns: an error of the holder's half comes after the
-- platform's signature is in place.
abbrev pub with_holder :
    EntitlementRecord → Result (Option HybridSignature) → EntitlementRecord × Result (Unit {0})
with_holder r (ok sig) = (record r { sig_holder = sig }, ok tt)
with_holder r (err e) = (r, err e)

abbrev pub with_platform :
    Option HybridSigningKey
    → EntitlementRecord
    → Result (Signature × List ℕ × HybridSignature)
    → EntitlementRecord × Result (Unit {0})
with_platform current_key r (ok (role, transcript, sig)) =
    with_holder (record r { sig_platform = some sig })
      (sign_holder r.record_type role transcript current_key)
with_platform current_key r (err e) = (r, err e)

unfoldable pub sign :
    Crates
    → (suite_id : ℕ) → HybridSigningKey
    → Option HybridSigningKey
    → EntitlementRecord
    → EntitlementRecord × Result (Unit {0})
sign c suite_id platform_key current_key r =
    with_platform current_key r (sign_platform c suite_id platform_key r)
