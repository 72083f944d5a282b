-- ===== src/Derive.antt =====
-- ctf-format/crates/ctf-format/src/derive.rs: the seeds, flags and stage keys that are derived. A `str` is its
-- UTF-8 bytes. `hmac` stands for HMAC-SHA-256 of aws-lc-rs, of a key and a message.
pub mod Symbols
pub mod Separates
mod Tests
use sidequests.Common.{
  ℕ, zero, suc, ◌+◌, ◌-◌, ◌*◌, ◌/◌, ◌%◌, List, [], ◌∷◌, ◌++◌, Bool, true, false, Option, none, some,
  length, take, min, max, ltb, leb, ◌==◌, bit_and, bit_or, if◌then◌else◌,
}
use sidequests.Common.Bits.{pow2}
use sidequests.Outcome.{ok, err, ◌>>=◌, ◌>>◌, fail_if}
use sidequests.Wire.{to_le}
use sidequests.Format.{u32_mod}
use sidequests.Manifest.Readers.{item_at, unwrap_or}
use sidequests.Crypto.Errors.{SuiteError, invalid_stage}
use sidequests.Crypto.Crates.{Crates}
use sidequests.Crypto.Roles.{Kdf, Checked}
use sidequests.Crypto.Kem.{prefixed, hkdf_sha256}

-- "ctf/seed/v1"
abbrev pub seed_label : List ℕ
seed_label = 99 ∷ 116 ∷ 102 ∷ 47 ∷ 115 ∷ 101 ∷ 101 ∷ 100 ∷ 47 ∷ 118 ∷ 49 ∷ []

-- "ctf/flag/v1"
abbrev pub flag_label : List ℕ
flag_label = 99 ∷ 116 ∷ 102 ∷ 47 ∷ 102 ∷ 108 ∷ 97 ∷ 103 ∷ 47 ∷ 118 ∷ 49 ∷ []

-- "ctf/stage/v1"
abbrev pub stage_label : List ℕ
stage_label = 99 ∷ 116 ∷ 102 ∷ 47 ∷ 115 ∷ 116 ∷ 97 ∷ 103 ∷ 101 ∷ 47 ∷ 118 ∷ 49 ∷ []

abbrev pub key_len : ℕ
key_len = 32

abbrev pub flag_tag_len : ℕ
flag_tag_len = 32

abbrev pub flag_bytes : ℕ
flag_bytes = 10

unfoldable pub seed_info : (chal_id : List ℕ) → (chal_version : ℕ) → (subject_id : List ℕ) → List ℕ
unfolding prefixed to_le
seed_info chal_id chal_version subject_id =
    prefixed chal_id ++ (to_le 8 chal_version ++ prefixed subject_id)

unfoldable pub subject_seed :
    Crates
    → (event_secret chal_id : List ℕ) → (chal_version : ℕ) → (subject_id : List ℕ)
    → Checked (List ℕ)
unfolding hkdf_sha256 seed_info
subject_seed c event_secret chal_id chal_version subject_id =
    (hkdf_sha256 c).derive event_secret seed_label (seed_info chal_id chal_version subject_id)
      key_len

-- The alphabet, "abcdefghijklmnopqrstuvwxyz234567".
abbrev pub alphabet : List ℕ
alphabet =
    97 ∷ 98 ∷ 99 ∷ 100 ∷ 101 ∷ 102 ∷ 103 ∷ 104 ∷ 105 ∷ 106 ∷ 107 ∷ 108 ∷ 109 ∷ 110 ∷ 111 ∷ 112 ∷ 113
    ∷ 114 ∷ 115 ∷ 116 ∷ 117 ∷ 118 ∷ 119 ∷ 120 ∷ 121 ∷ 122 ∷ 50 ∷ 51 ∷ 52 ∷ 53 ∷ 54 ∷ 55 ∷ []

unfoldable pub symbol : (index : ℕ) → ℕ
symbol index = unwrap_or 97 (item_at index alphabet)

-- `while bits >= 5`: the symbols, and the bits left over. Every round takes five bits, so that the bits
-- themselves are enough fuel.
unfoldable pub emit : (fuel buffer bits : ℕ) → List ℕ × ℕ
unfolding symbol
emit zero buffer bits = ([], bits)
emit (suc fuel) buffer bits =
    let rest = emit fuel buffer (bits - 5) in
    if leb 5 bits
    then (symbol (bit_and (buffer / pow2 (bits - 5)) 0x1f) ∷ rest.0, rest.1)
    else ([], bits)

-- `buffer &= (1 << bits) - 1`
abbrev pub low_bits : (buffer bits : ℕ) → ℕ
low_bits buffer bits = bit_and buffer (pow2 bits - 1)

-- The bytes that are left, with `bits` bits in the buffer. `<<` on a `u32` drops the bits above 32.
unfoldable pub base32_from : (buffer bits : ℕ) → List ℕ → List ℕ
unfolding symbol
base32_from buffer bits [] =
    if ltb 0 bits then symbol (bit_and (buffer * pow2 (5 - bits) % u32_mod) 0x1f) ∷ [] else []
base32_from buffer bits (byte ∷ rest) =
    let buffer' = bit_or (buffer * 256 % u32_mod) byte in
    let emitted = emit (bits + 8) buffer' (bits + 8) in
    emitted.0 ++ base32_from (low_bits buffer' emitted.1) emitted.1 rest

unfoldable pub base32_lower : List ℕ → List ℕ
base32_lower bytes = base32_from 0 0 bytes

-- `bytes.clamp(1, TAG_LEN)`, and the tag's first bytes, `&[]` where it has not as many.
unfoldable pub truncated_tag : List ℕ → (bytes : ℕ) → List ℕ
truncated_tag tag bytes =
    let n = min (max bytes 1) flag_tag_len in if leb n (length tag) then take n tag else []

unfoldable pub flag_with_bytes :
    (hmac : List ℕ → List ℕ → List ℕ) → (seed : List ℕ) → (bytes : ℕ) → List ℕ
flag_with_bytes hmac seed bytes = base32_lower (truncated_tag (hmac seed flag_label) bytes)

unfoldable pub flag : (hmac : List ℕ → List ℕ → List ℕ) → (seed : List ℕ) → List ℕ
flag hmac seed = flag_with_bytes hmac seed flag_bytes

unfoldable pub stage_key : Crates → (previous_flag : List ℕ) → (stage : ℕ) → Checked (List ℕ)
unfolding hkdf_sha256 to_le
stage_key c previous_flag stage = do
  fail_if (stage == 0) invalid_stage
  (hkdf_sha256 c).derive previous_flag stage_label (to_le 4 stage) key_len
