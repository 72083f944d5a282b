-- ===== src/Chunk/Index.antt =====
-- ctf-format/crates/ctf-format/src/chunk.rs: the chunk index, built, read, written and verified.
-- A `ChunkIndex` is its list of chaining values. `usize` is 64 bits wide.
use sidequests.Common.{
  ℕ, suc, zero, ◌-◌, ◌*◌, ◌/◌, List, [], ◌∷◌, ◌++◌, not, ◌&&◌, Option, none, some, length, take,
  drop, min, ltb, leb, if◌then◌else◌,
}
use sidequests.Error.{
  Result, ok, ◌>>=◌, ◌>>◌, refuse_if, ok_or, inconsistent, length_overflow, bad_chunk_size,
  truncated, trailing_bytes, root_mismatch,
}
use sidequests.Wire.{slice, bytes_eq}
use sidequests.Format.{checked_mul, saturating_add}
use sidequests.Chunk.{bad_chunk_size_of, chunk_count, entry_len}
use sidequests.Chunk.Tree.{ChainingValue, Blake3, chunk_cv, root_from_cvs}

pub record ChunkIndex : Type 0 where
  pub cvs : List ChainingValue

-- `b.get(start..end)`
unfoldable pub range : List ℕ → ℕ → ℕ → Option (List ℕ)
range b start end =
    if leb start end && leb end (length b) then some (take (end - start) (drop start b)) else none

-- The chunk that starts at `start`.
unfoldable pub chunk_at : List ℕ → ℕ → ℕ → Option (List ℕ)
unfolding range
chunk_at plaintext start chunk_size =
    range plaintext start (min (saturating_add start chunk_size) (length plaintext))

-- `for i in 0..count`, at `i` with `n` rounds to go.
unfoldable pub build_from : Blake3 → List ℕ → ℕ → (n i : ℕ) → Result (List ChainingValue)
build_from blake3 plaintext chunk_size zero i = ok []
build_from blake3 plaintext chunk_size (suc n) i = do
  start ← ok_or (checked_mul i chunk_size) (length_overflow "chunk offset")
  chunk ← ok_or (chunk_at plaintext start chunk_size) (inconsistent "chunk range")
  cv ← chunk_cv blake3 chunk i chunk_size
  cvs ← build_from blake3 plaintext chunk_size n (suc i)
  ok (cv ∷ cvs)

unfoldable pub build : Blake3 → List ℕ → ℕ → Result ChunkIndex
build blake3 plaintext chunk_size = do
  count ← chunk_count (length plaintext) chunk_size
  cvs ← build_from blake3 plaintext chunk_size count 0
  ok (record { cvs = cvs })

-- `for i in 0..need / ENTRY_LEN`, at `i` with `n` rounds to go.
unfoldable pub parse_entries : List ℕ → ℕ → (n i : ℕ) → Result (List ChainingValue)
parse_entries b need zero i = ok []
parse_entries b need (suc n) i = do
  cv ← ok_or (slice b (i * entry_len) entry_len) (truncated need (length b))
  cvs ← parse_entries b need n (suc i)
  ok (cv ∷ cvs)

unfoldable pub parse_index : List ℕ → ℕ → Result ChunkIndex
parse_index b count = do
  refuse_if (ltb count 2) (inconsistent "chunk index needs at least two entries")
  need ← ok_or (checked_mul count entry_len) (length_overflow "chunk index")
  refuse_if (ltb (length b) need) (truncated need (length b))
  refuse_if (ltb need (length b)) (trailing_bytes need (length b))
  cvs ← parse_entries b need (need / entry_len) 0
  ok (record { cvs = cvs })

unfoldable pub concat : List ChainingValue → List ℕ
concat [] = []
concat (cv ∷ cvs) = cv ++ concat cvs

unfoldable pub index_to_bytes : ChunkIndex → List ℕ
unfolding concat
index_to_bytes index = concat index.cvs

-- An index that has been reduced to the root in its section's record.
pub record VerifiedChunkIndex : Type 0 where
  pub cvs : List ChainingValue
  pub chunk_size : ℕ

unfoldable pub verify_root : Blake3 → ChunkIndex → List ℕ → ℕ → Result VerifiedChunkIndex
verify_root blake3 index root chunk_size = do
  refuse_if (bad_chunk_size_of chunk_size) (bad_chunk_size chunk_size)
  got ←
      ok_or (root_from_cvs blake3 index.cvs) (inconsistent "chunk index needs at least two entries")
  refuse_if (not (bytes_eq got root)) (root_mismatch "chunk index")
  ok (record { cvs = index.cvs; chunk_size = chunk_size })

-- `self.cvs.get(i)`
unfoldable pub entry_at : List ChainingValue → ℕ → Option ChainingValue
entry_at [] i = none
entry_at (cv ∷ cvs) zero = some cv
entry_at (cv ∷ cvs) (suc i) = entry_at cvs i

unfoldable pub verify_chunk : Blake3 → VerifiedChunkIndex → ℕ → List ℕ → Result (Unit {0})
verify_chunk blake3 index i chunk = do
  want ← ok_or (entry_at index.cvs i) (inconsistent "chunk index out of range")
  got ← chunk_cv blake3 chunk i index.chunk_size
  refuse_if (not (bytes_eq got want)) (root_mismatch "chunk")
  ok tt
