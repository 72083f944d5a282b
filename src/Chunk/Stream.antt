-- ===== src/Chunk/Stream.antt =====
-- ctf-format/crates/ctf-format/src/chunk.rs: `verify_stream`.
-- The reader is the list of what its calls return: an error, or a count and the buffer's contents
-- after the call; behind the list it returns 0. BLAKE3 is the parameter `hash`; its hasher is the
-- bytes that it was updated with.
use sidequests.Common.{ℕ, List, [], ◌∷◌, ◌++◌, not, ltb, ◌==◌, if◌then◌else◌}
use sidequests.Error.{
  Result, ok, ◌>>=◌, ◌>>◌, refuse_if, ok_or, inconsistent, length_overflow, root_mismatch,
}
use sidequests.Wire.{slice, bytes_eq}
use sidequests.Format.{checked_add}

abbrev pub Call : Type 0
Call = Result (ℕ × List ℕ)

-- Behind the loop.
unfoldable pub finish :
    (List ℕ → List ℕ) → (root : List ℕ) → (expected_len total : ℕ) → List ℕ → Result ℕ
finish hash root expected_len total seen = do
  refuse_if (not (total == expected_len)) (inconsistent "payload shorter than len_plain")
  refuse_if (not (bytes_eq (hash seen) root)) (root_mismatch "payload")
  ok total

-- What the loop does with `n` bytes that were read, up to the update of the hasher.
unfoldable pub take_read : (expected_len total n : ℕ) → List ℕ → Result (List ℕ × ℕ)
take_read expected_len total n buf = do
  got ← ok_or (slice buf 0 n) (inconsistent "reader reported more bytes than the buffer holds")
  total' ← ok_or (checked_add total n) (length_overflow "stream length")
  refuse_if (ltb expected_len total') (inconsistent "payload longer than len_plain")
  ok (got, total')

unfoldable pub stream_loop :
    (List ℕ → List ℕ) → (root : List ℕ) → (expected_len total : ℕ) → List ℕ → List Call → Result ℕ
stream_loop hash root expected_len total seen [] = finish hash root expected_len total seen
stream_loop hash root expected_len total seen (call ∷ calls) = do
  (n, buf) ← call
  let done = finish hash root expected_len total seen
  let later = (do
    (got, total') ← take_read expected_len total n buf
    stream_loop hash root expected_len total' (seen ++ got) calls)
  (if n == 0 then done else later)

unfoldable pub verify_stream :
    (List ℕ → List ℕ)
    → (calls : List Call) → (root : List ℕ) → (expected_len buf_len : ℕ) → Result ℕ
verify_stream hash calls root expected_len buf_len = do
  refuse_if (buf_len == 0) (inconsistent "verify_stream needs a non-empty buffer")
  stream_loop hash root expected_len 0 [] calls
