-- ===== src/Chunk/Build.antt =====
-- The chunk index that `ChunkIndex::build` makes of a plaintext verifies against the plaintext.
use sidequests.Common.{
  ℕ, zero, suc, ◌+◌, ◌-◌, ◌*◌, ◌/◌, ◌%◌, ◌≤◌, ◌<◌, ◌≡◌, refl, ap, List, length, take, drop,
  length-take, length-drop, drop-drop, arith, Bool-cases, false, some, inl, inr, ltb, ◌==◌,
}
use native.Mathlib.Nat.{div-add-mod', mod-lt, le-mul_of_pos_right, lt_of_mul-lt-mul_right}
use sidequests.Common.Bits.{pow2}
use sidequests.Error.{ok}
use sidequests.Wire.{bytes_eq_refl}
use sidequests.Format.{u64_mod}
use sidequests.Chunk.{bad_chunk_size_of, chunk_count, div_ceil}
use sidequests.Chunk.Tree.{Blake3}
use sidequests.Chunk.Index.{
  ChunkIndex, VerifiedChunkIndex, chunk_at, build, verify_root, verify_chunk, entry_at,
}
use sidequests.Chunk.Split.{pow2-pos}
use sidequests.Chunk.Leaves.{leaves}
use sidequests.Chunk.Root.{IsBlake3, Spans, root_from_cvs-leaves}
use sidequests.Chunk.Loop.{chunk_size_is_pow2, chunk_at-some, chunk_cv-ok, build_from-leaves}

pos_of_product : (a b : ℕ) → 0 < a * b → 0 < a
pos_of_product zero b h = absurd (omega arith)
pos_of_product (suc a) b h = omega arith

two_chunks : (n size len : ℕ) → size < len → len ≤ suc n * size → 1 ≤ n
two_chunks zero size len h k = absurd (omega arith)
two_chunks (suc n) size len h k = omega arith

-- The number of chunks of a text that has at least one byte.
div_ceil-Spans :
    (j : ℕ) (text : List ℕ)
    → 0 < length text
    → (n : ℕ) × (div_ceil (length text) (pow2 j) ≡ suc n) × Spans j n text
unfolding div_ceil
div_ceil-Spans j text pos =
    let size = pow2 j in
    let q = length text / size in
    let r = length text % size in
    let split : q * size + r ≡ length text = div-add-mod' (length text) size in
    let below : r < size = mod-lt (length text) (pow2-pos j) in
    let step : suc q * size ≡ q * size + size = omega arith in
    elim (Bool-cases (ltb 0 r)) [
      | inl partial ↦
          (q, rw partial (omega arith), record { more = ground arith; most = omega arith })
      | inr whole ↦
          let r_is : r ≡ 0 = ground arith in
          let some_chunk : 0 < q = pos_of_product q size (omega arith) in
          let q_is : q ≡ suc (q - 1) = omega arith in
          let bytes : q * size ≡ suc (q - 1) * size = ap (λ (t : ℕ). t * size) q_is in
          let step' : suc (q - 1) * size ≡ (q - 1) * size + size = omega arith in
          let size_pos = pow2-pos j in
          (q - 1, rw whole q_is, record { more = omega arith; most = omega arith })
    ]

module _ (blake3 : Blake3) where
  entry_at-leaves :
      (chunk_size off n i : ℕ) (text : List ℕ)
      → i < n
      → entry_at (leaves blake3 chunk_size off n text) i
        ≡ some
            (blake3.subtree (off + i * chunk_size) (take chunk_size (drop (i * chunk_size) text)))
  unfolding entry_at leaves
  entry_at-leaves chunk_size off zero i text h = absurd (omega arith)
  entry_at-leaves chunk_size off (suc n) zero text h =
      let none_before : zero * chunk_size ≡ 0 = omega arith in
      let same : off + 0 ≡ off = omega arith in rw (none_before, same) refl
  entry_at-leaves chunk_size off (suc n) (suc i) text h =
      let product : suc i * chunk_size ≡ chunk_size + i * chunk_size = omega arith in
      let sum : off + (chunk_size + i * chunk_size) ≡ off + chunk_size + i * chunk_size =
        omega arith in
      rw (product, sum, ← drop-drop chunk_size (i * chunk_size) text)
        (entry_at-leaves chunk_size (off + chunk_size) n i (drop chunk_size text) (omega arith))

module _ (blake3 : Blake3) (j : ℕ) (plaintext : List ℕ) (small : length plaintext < u64_mod) where
  index_of : ℕ → ChunkIndex
  index_of n = record { cvs = leaves blake3 (pow2 j) 0 (suc n) plaintext }

  build-ok :
      (n : ℕ)
      → bad_chunk_size_of (pow2 j) ≡ false
      → div_ceil (length plaintext) (pow2 j) ≡ suc n
      → Spans j n plaintext
      → build blake3 plaintext (pow2 j) ≡ ok (index_of n)
  unfolding build chunk_count index_of
  build-ok n good count spans =
      let zero_bytes : 0 * pow2 j ≡ 0 = omega arith in
      let size_pos = pow2-pos j in
      let sized : (pow2 j == 0) ≡ false = ground arith in
      let cvs =
        rw zero_bytes at
          (build_from-leaves blake3 j plaintext small n 0 good (rw zero_bytes spans)) in
      rw (sized, count, cvs) refl

  verify_root-ok :
      (n : ℕ)
      → IsBlake3 blake3
      → 10 ≤ j
      → bad_chunk_size_of (pow2 j) ≡ false
      → 1 ≤ n
      → Spans j n plaintext
      → verify_root blake3 (index_of n) (blake3.hash plaintext) (pow2 j)
        ≡ ok (record { cvs = leaves blake3 (pow2 j) 0 (suc n) plaintext; chunk_size = pow2 j })
  unfolding verify_root index_of
  verify_root-ok n is kib good two spans =
      let fits : n ≤ n * pow2 j = le-mul_of_pos_right n (pow2-pos j) in
      let root =
        root_from_cvs-leaves blake3 is j kib n plaintext two (omega (arith, spans.more)) spans in
      rw (good, root, bytes_eq_refl (blake3.hash plaintext)) refl

  verify_chunk-ok :
      (n i : ℕ)
      → bad_chunk_size_of (pow2 j) ≡ false
      → Spans j n plaintext
      → i * pow2 j < length plaintext
      → verify_chunk blake3
          (record { cvs = leaves blake3 (pow2 j) 0 (suc n) plaintext; chunk_size = pow2 j })
          i
          (take (pow2 j) (drop (i * pow2 j) plaintext))
        ≡ ok tt
  unfolding verify_chunk
  verify_chunk-ok n i good spans inside =
      let before : i < suc n = lt_of_mul-lt-mul_right (pow2 j) (omega (arith, spans.most)) in
      let start : 0 + i * pow2 j ≡ i * pow2 j = omega arith in
      let text = drop (i * pow2 j) plaintext in
      let entry = rw start at (entry_at-leaves blake3 (pow2 j) 0 (suc n) i plaintext before) in
      let left = length-drop (i * pow2 j) plaintext in
      let part = length-take (pow2 j) text in
      let size_pos = pow2-pos j in
      let cv =
        chunk_cv-ok blake3 (take (pow2 j) text) i (pow2 j) good (omega arith) (omega arith)
          (omega arith) in
      rw (entry, cv, bytes_eq_refl (blake3.subtree (i * pow2 j) (take (pow2 j) text))) refl

-- For a BLAKE3 that splits its tree as documented and an allowed chunk size: the index of a plaintext of
-- more than one chunk and fewer than 2 ^ 64 bytes is built, reduces to the hash of the plaintext, and
-- then each chunk of the plaintext verifies at its place.
pub build-verifies :
    (blake3 : Blake3)
    → IsBlake3 blake3
    → (plaintext : List ℕ) (chunk_size i : ℕ) → bad_chunk_size_of chunk_size ≡ false
    → chunk_size < length plaintext
    → length plaintext < u64_mod
    → i * chunk_size < length plaintext
    → (index : ChunkIndex) × (verified : VerifiedChunkIndex) × (chunk : List ℕ) × (build blake3
          plaintext chunk_size
        ≡ ok index)
      × (verify_root blake3 index (blake3.hash plaintext) chunk_size ≡ ok verified)
      × (chunk_at plaintext (i * chunk_size) chunk_size ≡ some chunk)
      × (verify_chunk blake3 verified i chunk ≡ ok tt)
build-verifies blake3 is plaintext chunk_size i good longer small inside =
    let (j, size_is, large) = chunk_size_is_pow2 chunk_size good in
    let good' : bad_chunk_size_of (pow2 j) ≡ false = rw size_is at good in
    let inside' : i * pow2 j < length plaintext = rw size_is at inside in
    let pos = pow2-pos j in
    let (n, count, spans) = div_ceil-Spans j plaintext (omega arith) in
    let two = two_chunks n (pow2 j) (length plaintext) (rw size_is at longer) spans.most in
    rw size_is (
      index_of blake3 j plaintext small n,
      record { cvs = leaves blake3 (pow2 j) 0 (suc n) plaintext; chunk_size = pow2 j },
      take (pow2 j) (drop (i * pow2 j) plaintext),
      build-ok blake3 j plaintext small n good' count spans,
      verify_root-ok blake3 j plaintext small n is (omega arith) good' two spans,
      chunk_at-some plaintext (i * pow2 j) (pow2 j) (omega arith) small,
      verify_chunk-ok blake3 j plaintext small n i good' spans inside',
    )
