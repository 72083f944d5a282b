-- ===== src/Bundle/Writer.antt =====
-- ctf-format/crates/ctf-format/src/bundle.rs: what a writer is asked for, and the first pass of
-- `write_bundle`, which encrypts the sections that ask for it. What the random source draws is an argument.
use sidequests.Common.{
  ℕ, suc, ◌-◌, ◌%◌, List, [], ◌∷◌, ◌++◌, not, Option, none, some, length, replicate, ◌==◌,
  if◌then◌else◌,
}
use sidequests.Error.{Result, ok, err, ◌>>=◌, ◌>>◌, refuse_if, ok_or, inconsistent, length_overflow}
use sidequests.Outcome.{some_or}
use sidequests.Format.{header_len, checked_add, supported_major}
use sidequests.Kinds.{SectionKind, Compression, raw, zstd}
use sidequests.Compress.{Zstd, compress_frames}
use sidequests.Crypto.Errors.{Role, primitive}
use sidequests.Crypto.Crates.{Crates}
use sidequests.Crypto.Roles.{Aead, Draws}
use sidequests.Crypto.Stream.{seal_chunked, seal_chunked_frames}
use sidequests.Envelope.{Envelope, seal}
use sidequests.Bundle.{from_suite}

pub data Payload : Type 0 where
  inline : List ℕ → Payload
  envelopes : Payload
  external : (len_plain : ℕ) (root : List ℕ) → Payload

pub record Recipient : Type 0 where
  pub context : List ℕ
  pub public_key : List ℕ

pub record EncryptionSpec : Type 0 where
  pub recipients : List Recipient
  pub content_key : Option (List ℕ)

pub record SectionSpec : Type 0 where
  pub kind : SectionKind
  pub name_id : ℕ
  pub flags : ℕ
  pub chunk_size : ℕ
  pub comp : Compression
  pub payload : Payload
  pub chunk_index : Option (List ℕ)
  pub encryption : Option EncryptionSpec

-- `SectionSpec::inline` and `SectionSpec::envelopes`, and the methods that set one field.
unfoldable pub inline_spec : SectionKind → (name_id flags : ℕ) → List ℕ → SectionSpec
inline_spec kind name_id flags bytes = record {
  kind = kind;
  name_id = name_id;
  flags = flags;
  chunk_size = 0;
  comp = raw;
  payload = inline bytes;
  chunk_index = none;
  encryption = none;
}

unfoldable pub envelopes_spec : SectionKind → (name_id : ℕ) → SectionSpec
envelopes_spec kind name_id = record {
  kind = kind;
  name_id = name_id;
  flags = 0;
  chunk_size = 0;
  comp = raw;
  payload = envelopes;
  chunk_index = none;
  encryption = none;
}

unfoldable pub chunked : SectionSpec → ℕ → SectionSpec
chunked s size = record s { chunk_size = size }

unfoldable pub compressed : SectionSpec → SectionSpec
compressed s = record s { comp = zstd }

unfoldable pub encrypted : SectionSpec → List Recipient → SectionSpec
encrypted s recipients = record s {
  encryption = some (record { recipients = recipients; content_key = none });
}

unfoldable pub encrypted_with_key : SectionSpec → List ℕ → List Recipient → SectionSpec
encrypted_with_key s key recipients = record s {
  encryption = some (record { recipients = recipients; content_key = some key });
}

unfoldable pub with_chunk_index : SectionSpec → List ℕ → SectionSpec
with_chunk_index s index = record s { chunk_index = some index }

-- What the random source draws: for section `i` a content key, and for its recipient `j` the draws of an
-- encapsulation.
pub record Random : Type 0 where
  pub fresh : (i : ℕ) → Option (List ℕ)
  pub sealing : (i j : ℕ) → Draws

-- `pad_to`: zeros up to the next multiple of `align` in the file.
unfoldable pub pad_to : List ℕ → (align : ℕ) → Result (List ℕ)
pad_to body align = do
  pos ← ok_or (checked_add header_len (length body)) (length_overflow "file length")
  let rem = pos % align
  ok (if rem == 0 then body else body ++ replicate (align - rem) 0)

-- The given content key, or a fresh one of 32 bytes.
unfoldable pub content_key_of : Option (List ℕ) → (drawn : Option (List ℕ)) → Result (List ℕ)
content_key_of (some key) drawn = ok key
content_key_of none drawn = do
  fresh ← from_suite (some_or drawn (primitive Role.aead "system random source failed"))
  refuse_if (not (length fresh == 32)) (inconsistent "content key is not the frozen 32-byte size")
  ok fresh

unfoldable pub seal_body :
    Zstd
    → Aead
    → (content_key : List ℕ) → (name_id suite_id chunk_size : ℕ) → Compression
    → (plaintext : List ℕ) → Result (List ℕ)
seal_body z aead key name_id suite_id chunk_size raw plaintext =
    from_suite (seal_chunked aead key name_id suite_id chunk_size plaintext)
seal_body z aead key name_id suite_id chunk_size zstd plaintext = do
  frames ← compress_frames z plaintext chunk_size
  from_suite (seal_chunked_frames aead key name_id suite_id (length plaintext) frames)

unfoldable pub seal_recipients :
    Crates
    → (draws : ℕ → Draws) → (j : ℕ) → (content_key : List ℕ) → (suite_id name_id : ℕ)
    → List Recipient
    → Result (List Envelope)
seal_recipients c draws j key suite_id name_id [] = ok []
seal_recipients c draws j key suite_id name_id (r ∷ rest) = do
  e ← from_suite (seal c (draws j) key r.public_key suite_id supported_major name_id r.context)
  later ← seal_recipients c draws (suc j) key suite_id name_id rest
  ok (e ∷ later)

-- `encrypt_section`: the sealed body, and the envelopes that it adds.
unfoldable pub encrypt_section :
    Crates
    → Zstd
    → Random
    → (i : ℕ) → Aead
    → (suite_id name_id chunk_size : ℕ) → Compression
    → (plaintext : List ℕ) → EncryptionSpec
    → Result (List ℕ × List Envelope)
encrypt_section c z random i aead suite_id name_id chunk_size comp plaintext spec = do
  refuse_if (chunk_size == 0) (inconsistent "an encrypted section requires a non-zero chunk_size")
  key ← content_key_of spec.content_key (random.fresh i)
  body ← seal_body z aead key name_id suite_id chunk_size comp plaintext
  added ← seal_recipients c (random.sealing i) 0 key suite_id name_id spec.recipients
  ok (body, added)

-- What is sealed of one section, and the envelopes that it adds.
unfoldable pub seal_section :
    Crates
    → Zstd
    → Random
    → (i : ℕ) → Option Aead
    → (suite_id : ℕ) → SectionSpec
    → Payload
    → Option EncryptionSpec
    → Result (Option (List ℕ) × List Envelope)
seal_section c z random i aead suite_id s payload none = ok (none, [])
seal_section c z random i aead suite_id s (inline bytes) (some spec) = do
  a ← ok_or aead (inconsistent "encryption requested without a resolved AEAD")
  (body, added) ← encrypt_section c z random i a suite_id s.name_id s.chunk_size s.comp bytes spec
  ok (some body, added)
seal_section c z random i aead suite_id s envelopes (some spec) =
    err (inconsistent "only an inline section can be encrypted")
seal_section c z random i aead suite_id s (external len_plain root) (some spec) =
    err (inconsistent "only an inline section can be encrypted")

-- The sealed bodies of the sections from `i` on, and their envelopes in order.
unfoldable pub seal_sections :
    Crates
    → Zstd
    → Random
    → (i : ℕ) → Option Aead
    → (suite_id : ℕ) → List SectionSpec
    → Result (List (Option (List ℕ)) × List Envelope)
seal_sections c z random i aead suite_id [] = ok ([], [])
seal_sections c z random i aead suite_id (s ∷ rest) = do
  (body, added) ← seal_section c z random i aead suite_id s s.payload s.encryption
  (bodies, later) ← seal_sections c z random (suc i) aead suite_id rest
  ok (body ∷ bodies, added ++ later)
