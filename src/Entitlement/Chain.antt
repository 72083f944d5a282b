-- ===== src/Entitlement/Chain.antt =====
-- ctf-format/crates/ctf-format/src/entitlement.rs: the chain of records. A chain
-- is the list of its records. A method that fails before it writes to the chain is a `Result` of the new
-- chain.
use sidequests.Common.{
  ℕ, suc, List, [], ◌∷◌, ◌++◌, Bool, true, false, not, Option, none, some, length, replicate, ltb,
  ◌==◌,
}
use sidequests.Error.{Result, ok, err, ◌>>=◌, ◌>>◌, refuse_if, ok_or}
use sidequests.Wire.{bytes_eq}
use sidequests.Footer.{root_len}
use sidequests.Cbor.{Value, Values, nil, cons, array, map}
use sidequests.Cbor
use sidequests.Cbor.Access.{is_none, as_array}
use sidequests.Crypto.Crates.{Crates}
use sidequests.Crypto.Roles.{HybridSigningKey}
use sidequests.Entitlement.{
  EntitlementRecord, Timestamp, grant, transfer, bad, is_grant, check, from_value, record_entries,
  record_id, sign,
}

abbrev pub Chain : Type 0
Chain = List EntitlementRecord

unfoldable pub last_of : EntitlementRecord → Chain → EntitlementRecord
last_of r [] = r
last_of r (s ∷ rest) = last_of s rest

unfoldable pub last_record : Chain → Option EntitlementRecord
last_record [] = none
last_record (r ∷ rest) = some (last_of r rest)

abbrev pub zero_root : List ℕ
zero_root = replicate root_len 0

-- `record.sign(…)?; self.records.push(record)`
unfoldable pub push_signed : Chain → EntitlementRecord × Result (Unit {0}) → Result Chain
push_signed chain (r, ok _) = ok (chain ++ (r ∷ []))
push_signed chain (r, err e) = err e

-- The records of the two methods, before they are signed.
abbrev pub grant_record :
    (challenge subject holder commitment_root : List ℕ) → Option Timestamp → EntitlementRecord
grant_record challenge subject holder commitment_root timestamp = record {
  seq = 0;
  record_type = grant;
  challenge = challenge;
  subject = subject;
  holder = holder;
  prev = zero_root;
  root = some commitment_root;
  timestamp = timestamp;
  payload = none;
  sig_holder = none;
  sig_platform = none;
}

abbrev pub transfer_record :
    (seq : ℕ) (challenge subject new_holder prev : List ℕ)
    → Option Timestamp
    → (payload : Option (List ℕ)) → EntitlementRecord
transfer_record seq challenge subject new_holder prev timestamp payload = record {
  seq = seq;
  record_type = transfer;
  challenge = challenge;
  subject = subject;
  holder = new_holder;
  prev = prev;
  root = none;
  timestamp = timestamp;
  payload = payload;
  sig_holder = none;
  sig_platform = none;
}

unfoldable pub append_grant :
    Crates
    → Chain
    → (challenge subject holder commitment_root : List ℕ) (suite_id : ℕ) → HybridSigningKey
    → Option Timestamp
    → Result Chain
append_grant c chain challenge subject holder commitment_root suite_id platform_key timestamp = do
  refuse_if (not (length chain == 0)) (bad "a genesis grant must be the first record (E5)")
  push_signed chain (
      sign c suite_id platform_key none
        (grant_record challenge subject holder commitment_root timestamp))

unfoldable pub append_transfer :
    Crates
    → Chain
    → (challenge subject new_holder : List ℕ) (suite_id : ℕ)
    → (platform_key current_holder_key : HybridSigningKey) → Option Timestamp
    → (payload : Option (List ℕ)) → Result Chain
append_transfer c chain challenge subject new_holder suite_id platform_key current_holder_key
      timestamp payload =
    do
      last ←
          ok_or (last_record chain)
            (bad "a transfer needs a genesis grant to name the current holder (E5)")
      prev ← record_id c last
      refuse_if (ltb 0xffff_ffff (length chain))
          (bad "entitlement chain is longer than the seq space (E3)")
      push_signed chain (
          sign c suite_id platform_key (some current_holder_key)
            (transfer_record (length chain) challenge subject new_holder prev timestamp payload))

-- What is asked of every record, at its place.
unfoldable pub check_place : ℕ → EntitlementRecord → Result (Unit {0})
check_place n r = do
  check r
  refuse_if (ltb 0xffff_ffff n) (bad "entitlement chain is longer than the seq space (E3)")
  refuse_if (not (r.seq == n)) (bad "entitlement seq values are not contiguous in array order (E3)")

unfoldable pub check_genesis : EntitlementRecord → Result (Unit {0})
check_genesis r = do
  refuse_if (not (is_grant r.record_type)) (bad "genesis record is not a grant (E5)")
  refuse_if (is_none r.root) (bad "genesis record does not carry `root` (E5)")
  refuse_if (not (bytes_eq r.prev zero_root)) (bad "genesis record has a non-zero `prev` (E5)")

unfoldable pub check_successor : Crates → (previous r : EntitlementRecord) → Result (Unit {0})
check_successor c previous r = do
  refuse_if (not (is_none r.root)) (bad "non-genesis record carries `root` (E6)")
  prev_id ← record_id c previous
  refuse_if (not (bytes_eq r.prev prev_id))
      (bad "`prev` does not equal the predecessor record id (E7)")

-- The records `n` and on, behind `previous`.
unfoldable pub check_rest : Crates → EntitlementRecord → ℕ → Chain → Result (Unit {0})
check_rest c previous n [] = ok tt
check_rest c previous n (r ∷ rest) = do
  check_place n r
  check_successor c previous r
  check_rest c r (suc n) rest

unfoldable pub validate : Crates → Chain → Result (Unit {0})
validate c [] = err (bad "entitlement chain is empty; a genesis grant is required (E5)")
validate c (r ∷ rest) = do check_place 0 r; check_genesis r; check_rest c r 1 rest

unfoldable pub records_of : List Value → Result Chain
records_of [] = ok []
records_of (item ∷ rest) = do r ← from_value item; later ← records_of rest; ok (r ∷ later)

unfoldable pub from_bytes : Crates → List ℕ → Result Chain
from_bytes c b = do
  value ← Cbor.decode b
  items ← ok_or (as_array value) (bad "entitlement plaintext is not a CBOR array (E1)")
  chain ← records_of items
  validate c chain
  ok chain

unfoldable pub is_root : List ℕ → Option (List ℕ) → Bool
is_root commitment_root none = false
is_root commitment_root (some root) = bytes_eq root commitment_root

unfoldable pub check_root : List ℕ → Chain → Result (Unit {0})
check_root commitment_root [] = err (bad "entitlement chain has no genesis grant (E5)")
check_root commitment_root (genesis ∷ rest) =
    refuse_if (not (is_root commitment_root genesis.root))
      (bad "genesis record `root` does not equal the bundle commitment root (E5)")

unfoldable pub validate_against_root : Crates → Chain → List ℕ → Result (Unit {0})
validate_against_root c chain commitment_root = do
  validate c chain
  check_root commitment_root chain

unfoldable pub record_values : Chain → Values
record_values [] = nil
record_values (r ∷ rest) = cons (map (record_entries r true)) (record_values rest)

unfoldable pub encode : Crates → Chain → Result (List ℕ)
encode c chain = do validate c chain; Cbor.encode (array (record_values chain))
