-- ===== src/Abi.antt =====
-- ctf-format/crates/ctf-generator/src/abi.rs: the blocks that a generator and a solver exchange.
-- The reading position is modelled by the bytes that are still unread. A `String` is its bytes.
-- `usize` is 64 bits wide, and no sum of a position and a `u32` overflows it.
pub mod RoundTrip
pub mod Restores
mod Tests
use sidequests.Common.{
  ℕ, zero, suc, ◌+◌, ◌≤◌, ◌<◌, ◌≡◌, List, [], ◌∷◌, ◌++◌, Bool, true, false, not, ◌||◌, Option, none,
  some, length, take, drop, ltb, leb, ◌==◌, if◌then◌else◌,
}
use sidequests.Outcome.{Outcome, ok, err, ◌>>=◌, ◌>>◌, fail_if, some_or}
use sidequests.Wire.{u32_at, slice, to_le, bytes_eq}
use sidequests.Utf8.{is_utf8}
use sidequests.Format.{u32_mod, u64_mod}

abbrev pub max_outputs : ℕ
max_outputs = 1024

abbrev pub max_output_name_len : ℕ
max_output_name_len = 255

abbrev pub max_flag_len : ℕ
max_flag_len = 4096

-- b"ctf/generator-output/v1"
abbrev pub output_label : List ℕ
output_label =
    99 ∷ 116 ∷ 102 ∷ 47 ∷ 103 ∷ 101 ∷ 110 ∷ 101 ∷ 114 ∷ 97 ∷ 116 ∷ 111 ∷ 114 ∷ 45 ∷ 111 ∷ 117 ∷ 116
    ∷ 112 ∷ 117 ∷ 116 ∷ 47 ∷ 118 ∷ 49 ∷ []

pub data AbiError : Type 0 where
  truncated : AbiError
  trailing_bytes : AbiError
  too_many_outputs : AbiError
  bad_name_length : AbiError
  name_not_utf8 : AbiError
  duplicate_name : AbiError
  output_too_large : AbiError
  flag_too_long : AbiError
  flag_not_utf8 : AbiError

pub record Output : Type 0 where
  pub name : List ℕ
  pub bytes : List ℕ

pub record GeneratorOutput : Type 0 where
  pub outputs : List Output
  pub flag : List ℕ

-- What a step read, and what is left unread.
abbrev pub Reader : Type 0 → Type 0
Reader A = List ℕ → Outcome AbiError (A × List ℕ)

-- `u32_at(b, at)`, and four bytes on.
unfoldable pub read_u32 : Reader ℕ
read_u32 b = do n ← some_or (u32_at b 0) truncated; ok (n, drop 4 b)

-- `b.get(at..at + n)`, and `n` bytes on.
unfoldable pub read_bytes : ℕ → Reader (List ℕ)
read_bytes n b = do s ← some_or (slice b 0 n) truncated; ok (s, drop n b)

-- `names.contains(name)`
unfoldable pub is_name_of : List ℕ → List (List ℕ) → Bool
is_name_of name [] = false
is_name_of name (seen ∷ names) = bytes_eq name seen || is_name_of name names

-- One round of the loop: the name, then the data, against what the rounds before it have seen.
unfoldable pub read_output : (max_output_bytes : ℕ) → List (List ℕ) → ℕ → Reader Output
read_output max_output_bytes names total b = do
  (name_len, b1) ← read_u32 b
  fail_if (name_len == 0 || ltb max_output_name_len name_len) bad_name_length
  (name, b2) ← read_bytes name_len b1
  fail_if (not (is_utf8 name)) name_not_utf8
  fail_if (is_name_of name names) duplicate_name
  (data_len, b3) ← read_u32 b2
  fail_if (leb u64_mod (total + data_len)) output_too_large
  fail_if (ltb max_output_bytes (total + data_len)) output_too_large
  (bytes, b4) ← read_bytes data_len b3
  ok (record { name = name; bytes = bytes }, b4)

-- `for _ in 0..count`. The length of the data that was read is `data_len`.
unfoldable pub read_outputs :
    (max_output_bytes : ℕ) → (count : ℕ) → List (List ℕ) → ℕ → Reader (List Output)
read_outputs max_output_bytes zero names total b = ok ([], b)
read_outputs max_output_bytes (suc count) names total b = do
  (o, b1) ← read_output max_output_bytes names total b
  (os, b2) ← read_outputs max_output_bytes count (o.name ∷ names) (total + length o.bytes) b1
  ok (o ∷ os, b2)

-- The count and the outputs, the common start of the two decoders.
unfoldable pub read_block : (max_output_bytes : ℕ) → Reader (List Output)
read_block max_output_bytes b = do
  (count, b1) ← read_u32 b
  fail_if (ltb max_outputs count) too_many_outputs
  read_outputs max_output_bytes count [] 0 b1

-- `ArtifactBlock::decode`
unfoldable pub decode_artifacts : List ℕ → ℕ → Outcome AbiError (List Output)
decode_artifacts b max_output_bytes = do
  (outputs, rest) ← read_block max_output_bytes b
  fail_if (not (length rest == 0)) trailing_bytes
  ok outputs

-- A length and UTF-8 text.
unfoldable pub read_flag : (max_len : ℕ) → Reader (List ℕ)
read_flag max_len b = do
  (flag_len, b1) ← read_u32 b
  fail_if (ltb max_len flag_len) flag_too_long
  (flag, b2) ← read_bytes flag_len b1
  fail_if (not (is_utf8 flag)) flag_not_utf8
  ok (flag, b2)

-- `GeneratorOutput::decode`
unfoldable pub decode_output : List ℕ → ℕ → Outcome AbiError GeneratorOutput
decode_output b max_output_bytes = do
  (outputs, rest) ← read_block max_output_bytes b
  (flag, rest') ← read_flag max_flag_len rest
  fail_if (not (length rest' == 0)) trailing_bytes
  ok (record { outputs = outputs; flag = flag })

unfoldable pub decode_solver_flag : List ℕ → ℕ → Outcome AbiError (List ℕ)
decode_solver_flag b max_len = do
  (flag, rest) ← read_flag max_len b
  fail_if (not (length rest == 0)) trailing_bytes
  ok flag

-- `len() as u32`, little-endian: `to_le 4` keeps the low 32 bits.
unfoldable pub put_block : List ℕ → List ℕ
put_block s = to_le 4 (length s) ++ s

unfoldable pub put_outputs : List Output → List ℕ
put_outputs [] = []
put_outputs (o ∷ os) = put_block o.name ++ (put_block o.bytes ++ put_outputs os)

-- `ArtifactBlock::encode`
unfoldable pub encode_artifacts : List Output → List ℕ
encode_artifacts outputs = to_le 4 (length outputs) ++ put_outputs outputs

-- `GeneratorOutput::encode`
unfoldable pub encode_output : GeneratorOutput → List ℕ
encode_output o = encode_artifacts o.outputs ++ put_block o.flag

unfoldable pub output_root : (List ℕ → List ℕ) → GeneratorOutput → List ℕ
output_root blake3 o = blake3 (output_label ++ encode_output o)
