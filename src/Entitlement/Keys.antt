-- ===== src/Entitlement/Keys.antt =====
-- ctf-format/crates/ctf-format/src/entitlement.rs: the labels, the keys of a record, and the words of a
-- record's type.
use sidequests.Common.{ℕ, List, [], ◌∷◌}

-- "ctf/entitlement/record/v1"
abbrev pub record_label : List ℕ
record_label =
    99 ∷ 116 ∷ 102 ∷ 47 ∷ 101 ∷ 110 ∷ 116 ∷ 105 ∷ 116 ∷ 108 ∷ 101 ∷ 109 ∷ 101 ∷ 110 ∷ 116 ∷ 47 ∷ 114
    ∷ 101 ∷ 99 ∷ 111 ∷ 114 ∷ 100 ∷ 47 ∷ 118 ∷ 49 ∷ []

-- "ctf/entitlement-sig/v1"
abbrev pub entitlement_sig_label : List ℕ
entitlement_sig_label =
    99 ∷ 116 ∷ 102 ∷ 47 ∷ 101 ∷ 110 ∷ 116 ∷ 105 ∷ 116 ∷ 108 ∷ 101 ∷ 109 ∷ 101 ∷ 110 ∷ 116 ∷ 45 ∷ 115
    ∷ 105 ∷ 103 ∷ 47 ∷ 118 ∷ 49 ∷ []

-- "ctf/holder-hash/v1"
abbrev pub holder_hash_label : List ℕ
holder_hash_label =
    99 ∷ 116 ∷ 102 ∷ 47 ∷ 104 ∷ 111 ∷ 108 ∷ 100 ∷ 101 ∷ 114 ∷ 45 ∷ 104 ∷ 97 ∷ 115 ∷ 104 ∷ 47 ∷ 118
    ∷ 49 ∷ []

-- "seq"
abbrev pub seq_key : List ℕ
seq_key = 115 ∷ 101 ∷ 113 ∷ []

-- "type"
abbrev pub type_key : List ℕ
type_key = 116 ∷ 121 ∷ 112 ∷ 101 ∷ []

-- "challenge"
abbrev pub challenge_key : List ℕ
challenge_key = 99 ∷ 104 ∷ 97 ∷ 108 ∷ 108 ∷ 101 ∷ 110 ∷ 103 ∷ 101 ∷ []

-- "subject"
abbrev pub subject_key : List ℕ
subject_key = 115 ∷ 117 ∷ 98 ∷ 106 ∷ 101 ∷ 99 ∷ 116 ∷ []

-- "holder"
abbrev pub holder_key : List ℕ
holder_key = 104 ∷ 111 ∷ 108 ∷ 100 ∷ 101 ∷ 114 ∷ []

-- "prev"
abbrev pub prev_key : List ℕ
prev_key = 112 ∷ 114 ∷ 101 ∷ 118 ∷ []

-- "root"
abbrev pub root_key : List ℕ
root_key = 114 ∷ 111 ∷ 111 ∷ 116 ∷ []

-- "timestamp"
abbrev pub timestamp_key : List ℕ
timestamp_key = 116 ∷ 105 ∷ 109 ∷ 101 ∷ 115 ∷ 116 ∷ 97 ∷ 109 ∷ 112 ∷ []

-- "payload"
abbrev pub payload_key : List ℕ
payload_key = 112 ∷ 97 ∷ 121 ∷ 108 ∷ 111 ∷ 97 ∷ 100 ∷ []

-- "sig_holder"
abbrev pub sig_holder_key : List ℕ
sig_holder_key = 115 ∷ 105 ∷ 103 ∷ 95 ∷ 104 ∷ 111 ∷ 108 ∷ 100 ∷ 101 ∷ 114 ∷ []

-- "sig_platform"
abbrev pub sig_platform_key : List ℕ
sig_platform_key = 115 ∷ 105 ∷ 103 ∷ 95 ∷ 112 ∷ 108 ∷ 97 ∷ 116 ∷ 102 ∷ 111 ∷ 114 ∷ 109 ∷ []

-- "classical"
abbrev pub classical_key : List ℕ
classical_key = 99 ∷ 108 ∷ 97 ∷ 115 ∷ 115 ∷ 105 ∷ 99 ∷ 97 ∷ 108 ∷ []

-- "pq"
abbrev pub pq_key : List ℕ
pq_key = 112 ∷ 113 ∷ []

-- "grant"
abbrev pub grant_word : List ℕ
grant_word = 103 ∷ 114 ∷ 97 ∷ 110 ∷ 116 ∷ []

-- "transfer"
abbrev pub transfer_word : List ℕ
transfer_word = 116 ∷ 114 ∷ 97 ∷ 110 ∷ 115 ∷ 102 ∷ 101 ∷ 114 ∷ []

-- "revoke"
abbrev pub revoke_word : List ℕ
revoke_word = 114 ∷ 101 ∷ 118 ∷ 111 ∷ 107 ∷ 101 ∷ []

-- "progress"
abbrev pub progress_word : List ℕ
progress_word = 112 ∷ 114 ∷ 111 ∷ 103 ∷ 114 ∷ 101 ∷ 115 ∷ 115 ∷ []

abbrev pub record_keys : List (List ℕ)
record_keys =
    seq_key ∷ type_key ∷ challenge_key ∷ subject_key ∷ holder_key ∷ prev_key ∷ root_key
    ∷ timestamp_key ∷ payload_key ∷ sig_holder_key ∷ sig_platform_key ∷ []

abbrev pub signature_keys : List (List ℕ)
signature_keys = classical_key ∷ pq_key ∷ []
