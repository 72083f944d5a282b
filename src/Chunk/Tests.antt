-- ===== src/Chunk/Tests.antt =====
-- A plaintext of two chunks and a small index, and the theorems about chunks at them.
use sidequests.Common.{
  ℕ, ◌*◌, ◌≡◌, ◌↔◌, refl, sym, List, [], ◌∷◌, ◌++◌, length, replicate, take-append-drop, arith,
  some, false,
}
use sidequests.Common.Bits.{pow2}
use sidequests.Error.{ok}
use sidequests.Wire.{slice}
use sidequests.Chunk.{bad_chunk_size_of, is_power_of_two, is_pow2_below}
use sidequests.Chunk.Tree.{Blake3}
use sidequests.Chunk.Root.{IsBlake3}
use sidequests.Chunk.Index.{
  ChunkIndex, VerifiedChunkIndex, build, verify_root, verify_chunk, chunk_at, parse_index,
  parse_entries,
}
use sidequests.Chunk.Stream.{Call, finish, take_read, stream_loop, verify_stream}
use sidequests.Chunk.Delivery.{Delivers, exhausted, more, verify_stream-iff-Delivers}
use sidequests.Wire.{bytes_eq}
use sidequests.Chunk.Build.{build-verifies}
use sidequests.Chunk.IndexBytes.{IsIndex}

-- A tree hash whose values are the texts themselves.
abbrev joined : Blake3
joined = record {
  subtree = λ off text. text;
  merge_subtrees_non_root = λ l r. l ++ r;
  merge_subtrees_root = λ l r. l ++ r;
  hash = λ text. text;
}

joined-IsBlake3 : IsBlake3 joined
joined-IsBlake3 = record {
  subtree_split = λ k off text kib aligned longer most. sym (take-append-drop (pow2 k) text);
  hash_split = λ k text kib longer most. sym (take-append-drop (pow2 k) text);
}

four_kib : bad_chunk_size_of 4096 ≡ false
unfolding is_power_of_two is_pow2_below
four_kib = refl

abbrev two_chunk_text : List ℕ
two_chunk_text = replicate 5000 7

build-verifies_example :
    (index : ChunkIndex) × (verified : VerifiedChunkIndex) × (chunk : List ℕ) × (build joined
        two_chunk_text 4096
      ≡ ok index)
    × (verify_root joined index (joined.hash two_chunk_text) 4096 ≡ ok verified)
    × (chunk_at two_chunk_text (1 * 4096) 4096 ≡ some chunk)
    × (verify_chunk joined verified 1 chunk ≡ ok tt)
build-verifies_example =
    build-verifies joined joined-IsBlake3 two_chunk_text 4096 1 four_kib (omega arith) (omega arith)
      (omega arith)

abbrev two_values : ChunkIndex
two_values = record { cvs = replicate 32 1 ∷ replicate 32 2 ∷ [] }

abbrev two_values_bytes : List ℕ
two_values_bytes = replicate 32 1 ++ replicate 32 2

two_values_read : parse_index two_values_bytes 2 ≡ ok two_values
unfolding parse_index parse_entries slice
two_values_read = refl

two_values-IsIndex : IsIndex two_values
two_values-IsIndex = record { values = (refl, (refl, tt)); two = omega arith; fits = omega arith }

-- A reader that fills two and then one of the three bytes of a buffer.
abbrev calls : List Call
calls = ok (2, 1 ∷ 2 ∷ 0 ∷ []) ∷ (ok (1, 3 ∷ 2 ∷ 0 ∷ []) ∷ [])

abbrev three : ℕ
three = 3

calls_read : verify_stream (λ text. text) calls (1 ∷ 2 ∷ 3 ∷ []) 3 3 ≡ ok 3
unfolding verify_stream stream_loop take_read finish slice bytes_eq
calls_read = refl

first_call : slice (1 ∷ 2 ∷ 0 ∷ []) 0 2 ≡ some (1 ∷ 2 ∷ [])
unfolding slice
first_call = refl

second_call : slice (3 ∷ 2 ∷ 0 ∷ []) 0 1 ≡ some (3 ∷ [])
unfolding slice
second_call = refl

calls_deliver : Delivers calls (1 ∷ 2 ∷ 3 ∷ [])
calls_deliver =
    more 2 (1 ∷ 2 ∷ 0 ∷ []) (1 ∷ 2 ∷ []) (3 ∷ []) (ok (1, 3 ∷ 2 ∷ 0 ∷ []) ∷ []) (omega arith)
      first_call (more 1 (3 ∷ 2 ∷ 0 ∷ []) (3 ∷ []) [] [] (omega arith) second_call exhausted)

verify_stream-iff-Delivers_example :
    ((r : ℕ) × (verify_stream (λ text. text) calls (1 ∷ 2 ∷ 3 ∷ []) 3 3 ≡ ok r))
    ↔ ((bytes : List ℕ) × Delivers calls bytes × (length bytes ≡ 3) × (bytes ≡ 1 ∷ 2 ∷ 3 ∷ []))
verify_stream-iff-Delivers_example =
    verify_stream-iff-Delivers (λ text. text) calls (1 ∷ 2 ∷ 3 ∷ []) 3 3 (omega arith) (omega arith)
