-- ===== src/Crypto/Stream.antt =====
-- ctf-format/crates/ctf-format/src/crypto/stream.rs: a section encrypted chunk by chunk. A chunk is
-- written as the length of its ciphertext and the ciphertext; its nonce tells the section, the index
-- and whether it is the last, and its associated data bind them again with the plain length.
pub mod Frames
pub mod RoundTrip
pub mod Nonces
pub mod Cut
pub mod Fuel
use sidequests.Common.{
  ℕ, zero, suc, ◌+◌, ◌-◌, ◌*◌, String, List, [], ◌∷◌, ◌++◌, Bool, true, false, not, ◌||◌, Option,
  none, some, length, take, drop, replicate, min, ltb, leb, ◌==◌, if◌then◌else◌,
}
use sidequests.Outcome.{Outcome, ok, err, ◌>>=◌, ◌>>◌, fail_if, some_or}
use sidequests.Wire.{slice, u32_at, to_le, to_be}
use sidequests.Chunk.{bad_chunk_size_of, div_ceil}
use sidequests.Footer.{checked_sub}
use sidequests.Crypto.Errors.{SuiteError, Role, invalid_length, primitive}
use sidequests.Crypto.Roles.{Aead, Checked}

-- "ctf/stream/v1"
abbrev pub stream_label : List ℕ
stream_label = 99 ∷ 116 ∷ 102 ∷ 47 ∷ 115 ∷ 116 ∷ 114 ∷ 101 ∷ 97 ∷ 109 ∷ 47 ∷ 118 ∷ 49 ∷ []

abbrev pub chunk_len_len : ℕ
chunk_len_len = 4

abbrev pub aead_error : String → SuiteError
aead_error reason = primitive Role.aead reason

unfoldable pub validate_chunk_size : ℕ → Checked (Unit {0})
validate_chunk_size chunk_size =
    fail_if (bad_chunk_size_of chunk_size)
      (aead_error "chunk_size is not a power of two within [4096, 67108864]")

unfoldable pub stream_chunk_count : (len_plain chunk_size : ℕ) → ℕ
stream_chunk_count len_plain chunk_size =
    if len_plain == 0 then 0 else div_ceil len_plain chunk_size

unfoldable pub nonce_prefix : (section_id nonce_len : ℕ) → Checked (List ℕ)
unfolding checked_sub to_le
nonce_prefix section_id nonce_len = do
  prefix_len ←
      some_or (checked_sub nonce_len 5)
        (aead_error "AEAD nonce is too short to hold the chunk index and final flag")
  fail_if (ltb prefix_len 2) (aead_error "AEAD nonce is too short to hold the section identity")
  ok (to_le 2 section_id ++ replicate (prefix_len - 2) 0)

abbrev pub final_byte : Bool → ℕ
final_byte true = 1
final_byte false = 0

unfoldable pub chunk_nonce : List ℕ → (chunk_index : ℕ) → (final_chunk : Bool) → List ℕ
unfolding to_be
chunk_nonce prefix chunk_index final_chunk =
    prefix ++ (to_be 4 chunk_index ++ (final_byte final_chunk ∷ []))

unfoldable pub chunk_aad : (section_id chunk_index len_plain suite_id : ℕ) → List ℕ
unfolding to_le
chunk_aad section_id chunk_index len_plain suite_id =
    stream_label
    ++ (to_le 2 section_id ++ (to_le 4 chunk_index ++ (to_le 8 len_plain ++ to_le 2 suite_id)))

-- What is fixed for the chunks of one section.
pub record Session : Type 0 where
  pub aead : Aead
  pub content_key : List ℕ
  pub section_id : ℕ
  pub suite_id : ℕ
  pub len_plain : ℕ
  pub prefix : List ℕ

unfoldable pub seal_frame : Session → (i : ℕ) → (final_chunk : Bool) → List ℕ → Checked (List ℕ)
seal_frame s i final_chunk frame = do
  fail_if (ltb 0xffff_ffff i) (aead_error "section has too many chunks")
  sealed ←
      s.aead.seal s.content_key (chunk_nonce s.prefix i final_chunk)
        (chunk_aad s.section_id i s.len_plain s.suite_id) frame
  fail_if (ltb 0xffff_ffff (length sealed)) (aead_error "encrypted chunk is longer than u32::MAX")
  ok (to_le 4 (length sealed) ++ sealed)

-- The frames from index `i` on; the last one is final.
unfoldable pub seal_frames : Session → (i : ℕ) → List (List ℕ) → Checked (List ℕ)
seal_frames s i [] = ok []
seal_frames s i (frame ∷ rest) = do
  out ← seal_frame s i (length rest == 0) frame
  later ← seal_frames s (suc i) rest
  ok (out ++ later)

unfoldable pub check_key : Aead → List ℕ → Checked (Unit {0})
check_key aead content_key =
    fail_if (not (length content_key == aead.key_len))
      (invalid_length Role.aead aead.key_len (length content_key))

abbrev pub session : Aead → List ℕ → (section_id suite_id len_plain : ℕ) → List ℕ → Session
session aead content_key section_id suite_id len_plain prefix = record {
  aead = aead;
  content_key = content_key;
  section_id = section_id;
  suite_id = suite_id;
  len_plain = len_plain;
  prefix = prefix;
}

unfoldable pub seal_chunked_frames :
    Aead → List ℕ → (section_id suite_id len_plain : ℕ) → List (List ℕ) → Checked (List ℕ)
seal_chunked_frames aead content_key section_id suite_id len_plain frames = do
  check_key aead content_key
  prefix ← nonce_prefix section_id aead.nonce_len
  seal_frames (session aead content_key section_id suite_id len_plain prefix) 0 frames

-- The chunks `i`, …, of which `n` are left to cut.
unfoldable pub cut_chunks : (chunk_size i n : ℕ) → List ℕ → Checked (List (List ℕ))
cut_chunks chunk_size i zero plaintext = ok []
cut_chunks chunk_size i (suc n) plaintext = do
  let start = i * chunk_size
  let finish = min (start + chunk_size) (length plaintext)
  fail_if (ltb finish start || ltb (length plaintext) finish)
      (aead_error "plaintext chunk out of range")
  rest ← cut_chunks chunk_size (suc i) n plaintext
  ok (take (finish - start) (drop start plaintext) ∷ rest)

unfoldable pub seal_chunked :
    Aead → List ℕ → (section_id suite_id chunk_size : ℕ) → List ℕ → Checked (List ℕ)
seal_chunked aead content_key section_id suite_id chunk_size plaintext = do
  validate_chunk_size chunk_size
  frames ← cut_chunks chunk_size 0 (stream_chunk_count (length plaintext) chunk_size) plaintext
  seal_chunked_frames aead content_key section_id suite_id (length plaintext) frames

-- One round of the reading loop, at `offset` in the body: the opened chunk, and the next offset.
unfoldable pub open_frame : Session → List ℕ → (offset i : ℕ) → Checked (List ℕ × ℕ)
open_frame s body offset i = do
  ct_len ← some_or (u32_at body offset) (aead_error "ciphertext ended before a chunk length prefix")
  fail_if (ltb ct_len s.aead.tag_len) (aead_error "chunk is shorter than its authentication tag")
  let ct_start = offset + chunk_len_len
  chunk ←
      some_or (slice body ct_start ct_len)
        (aead_error "ciphertext is shorter than its chunk length declares")
  let ct_end = ct_start + ct_len
  opened ←
      s.aead.open_sealed s.content_key (chunk_nonce s.prefix i (ct_end == length body))
        (chunk_aad s.section_id i s.len_plain s.suite_id) chunk
  fail_if (leb 0xffff_ffff i) (aead_error "section has too many chunks")
  ok (opened, ct_end)

-- `while offset < ciphertext.len()`. Every round reads a length prefix at least, so the length of the
-- body is enough fuel.
unfoldable pub open_frames : Session → List ℕ → (fuel offset i : ℕ) → Checked (List (List ℕ))
open_frames s body zero offset i = ok []
open_frames s body (suc fuel) offset i =
    let round = (do
      (opened, offset') ← open_frame s body offset i
      frames ← open_frames s body fuel offset' (suc i)
      ok (opened ∷ frames)) in
    if ltb offset (length body) then round else ok []

unfoldable pub open_chunked_frames :
    Aead → List ℕ → (section_id suite_id len_plain : ℕ) → List ℕ → Checked (List (List ℕ))
open_chunked_frames aead content_key section_id suite_id len_plain ciphertext = do
  check_key aead content_key
  prefix ← nonce_prefix section_id aead.nonce_len
  open_frames (session aead content_key section_id suite_id len_plain prefix) ciphertext
      (length ciphertext) 0 0

-- The frames, each of the length that its place in the plaintext asks for, joined.
unfoldable pub join_frames : (chunk_size len_plain i : ℕ) → List (List ℕ) → Checked (List ℕ)
join_frames chunk_size len_plain i [] = ok []
join_frames chunk_size len_plain i (frame ∷ rest) = do
  fail_if (not (length frame == min (len_plain - i * chunk_size) chunk_size))
      (aead_error "AEAD returned the wrong plaintext length")
  later ← join_frames chunk_size len_plain (suc i) rest
  ok (frame ++ later)

unfoldable pub open_chunked :
    Aead → List ℕ → (section_id suite_id chunk_size len_plain : ℕ) → List ℕ → Checked (List ℕ)
open_chunked aead content_key section_id suite_id chunk_size len_plain ciphertext = do
  validate_chunk_size chunk_size
  frames ← open_chunked_frames aead content_key section_id suite_id len_plain ciphertext
  fail_if (not (length frames == stream_chunk_count len_plain chunk_size))
      (aead_error "body has the wrong number of chunks")
  join_frames chunk_size len_plain 0 frames
