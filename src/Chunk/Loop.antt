-- ===== src/Chunk/Loop.antt =====
-- The loop of `ChunkIndex::build`, and the checks of one chunk.
use sidequests.Common.{
  ℕ, zero, suc, ◌+◌, ◌-◌, ◌*◌, ◌≤◌, ◌<◌, ◌≡◌, refl, sym, ap, ◌∙◌, List, [], ◌∷◌, length, take, drop,
  length-take, length-drop, drop-drop, arith, Bool-cases, true, false, some, inl, inr, leb, ◌==◌,
  ==→eq, min,
}
use sidequests.Common.Bits.{pow2}
use sidequests.Error.{ok}
use sidequests.Format.{checked_mul, saturating_add, u64_mod, min_chunk_size}
use sidequests.Chunk.{bad_chunk_size_of, is_power_of_two, is_pow2_below}
use sidequests.Chunk.Tree.{ChainingValue, Blake3, chunk_cv}
use sidequests.Chunk.Index.{chunk_at, range, build_from}
use sidequests.Chunk.Split.{pow2-lt_inv, pow2-pos}
use sidequests.Chunk.Leaves.{leaves, leaves-suc, leaves-zero, take_all}
use sidequests.Chunk.Root.{Spans}

is_pow2_below-eq-true : (k n : ℕ) → is_pow2_below k n ≡ true → (j : ℕ) × (j < k) × (n ≡ pow2 j)
unfolding is_pow2_below
is_pow2_below-eq-true zero n h = cc
is_pow2_below-eq-true (suc k) n h = elim (Bool-cases (n == pow2 k)) [
  | inl found ↦ (k, omega arith, ==→eq n (pow2 k) found)
  | inr other ↦ let (j, below, e) = is_pow2_below-eq-true k n (ground arith) in (j, omega arith, e)
]

-- A chunk size that is accepted is 4 KiB or a larger power of two.
pub chunk_size_is_pow2 :
    (chunk_size : ℕ)
    → bad_chunk_size_of chunk_size ≡ false
    → (j : ℕ) × (chunk_size ≡ pow2 j) × (12 ≤ j)
unfolding is_power_of_two
chunk_size_is_pow2 chunk_size h =
    let (j, below, e) = is_pow2_below-eq-true 32 chunk_size (ground arith) in
    let least : min_chunk_size ≤ chunk_size = ground arith in (j, e, pow2-lt_inv 11 j (omega arith))

pub range-some :
    (b : List ℕ) (start end : ℕ) {n : ℕ}
    → start ≤ end
    → end ≤ length b
    → end - start ≡ n
    → range b start end ≡ some (take n (drop start b))
unfolding range
range-some b start end le inside size = rw (← size) (ground arith)

-- The chunk at `start` is what is left from there, up to the chunk size.
pub chunk_at-some :
    (plaintext : List ℕ) (start chunk_size : ℕ)
    → start ≤ length plaintext
    → length plaintext < u64_mod
    → chunk_at plaintext start chunk_size ≡ some (take chunk_size (drop start plaintext))
unfolding chunk_at
chunk_at-some plaintext start chunk_size inside small =
    elim (Bool-cases (leb (start + chunk_size) (length plaintext))) [
      | inl whole ↦
          let end_is : min (saturating_add start chunk_size) (length plaintext)
              ≡ start + chunk_size =
            ground arith in
          rw end_is (
            range-some plaintext start (start + chunk_size) (omega arith) (ground arith)
              (omega arith))
      | inr last ↦
          let end_is : min (saturating_add start chunk_size) (length plaintext) ≡ length plaintext =
            ground arith in
          let len = length-drop start plaintext in
          rw end_is (
            range-some plaintext start (length plaintext) inside (omega arith) refl
            ∙ ap some (
                take_all (length plaintext - start) (drop start plaintext) (omega arith)
                ∙ sym (take_all chunk_size (drop start plaintext) (ground arith))))
    ]

pub chunk_cv-ok :
    (blake3 : Blake3) (chunk : List ℕ) (i chunk_size : ℕ)
    → bad_chunk_size_of chunk_size ≡ false
    → 0 < length chunk
    → length chunk ≤ chunk_size
    → i * chunk_size < u64_mod
    → chunk_cv blake3 chunk i chunk_size ≡ ok (blake3.subtree (i * chunk_size) chunk)
unfolding chunk_cv
chunk_cv-ok blake3 chunk i chunk_size good some_bytes fits small = ground arith

module _ (blake3 : Blake3) (j : ℕ) (plaintext : List ℕ) (small : length plaintext < u64_mod) where
  -- One round of the loop.
  build_from-suc :
      (n i : ℕ) (cvs : List ChainingValue)
      → bad_chunk_size_of (pow2 j) ≡ false
      → Spans j n (drop (i * pow2 j) plaintext)
      → build_from blake3 plaintext (pow2 j) n (suc i) ≡ ok cvs
      → build_from blake3 plaintext (pow2 j) (suc n) i
        ≡ ok (blake3.subtree (i * pow2 j) (take (pow2 j) (drop (i * pow2 j) plaintext)) ∷ cvs)
  unfolding build_from
  build_from-suc n i cvs good spans rest =
      let start = i * pow2 j in
      let text = drop start plaintext in
      let left = length-drop start plaintext in
      let inside : start < length plaintext = omega (arith, spans.more) in
      let part_len = length-take (pow2 j) text in
      let pos = pow2-pos j in
      let product : checked_mul i (pow2 j) ≡ some start = ground arith in
      let chunk = chunk_at-some plaintext start (pow2 j) (omega arith) small in
      let cv =
        chunk_cv-ok blake3 (take (pow2 j) text) i (pow2 j) good (omega (arith, spans.more))
          (omega arith) (omega arith) in
      rw (product, chunk, cv, rest) refl

  pub build_from-leaves :
      (n i : ℕ)
      → bad_chunk_size_of (pow2 j) ≡ false
      → Spans j n (drop (i * pow2 j) plaintext)
      → build_from blake3 plaintext (pow2 j) (suc n) i
        ≡ ok (leaves blake3 (pow2 j) (i * pow2 j) (suc n) (drop (i * pow2 j) plaintext))
  build_from-leaves zero i good spans =
      rw (leaves-suc blake3, leaves-zero blake3)
        (build_from-suc zero i [] good spans (unfold build_from in refl))
  build_from-leaves (suc n) i good spans =
      let start = i * pow2 j in
      let next : suc i * pow2 j ≡ start + pow2 j = omega arith in
      let seam : drop (start + pow2 j) plaintext ≡ drop (pow2 j) (drop start plaintext) =
        sym (drop-drop start (pow2 j) plaintext) in
      let shorter = length-drop (pow2 j) (drop start plaintext) in
      let step : suc n * pow2 j ≡ n * pow2 j + pow2 j = omega arith in
      let later : Spans j n (drop (suc i * pow2 j) plaintext) =
        rw (next, seam)
          (record { more = omega (arith, spans.more); most = omega (arith, spans.most) }) in
      let rest = rw (next, seam) at (build_from-leaves n (suc i) good later) in
      rw (leaves-suc blake3 (pow2 j) start (suc n) (drop start plaintext)) (
        build_from-suc (suc n) i
          (leaves blake3 (pow2 j) (start + pow2 j) (suc n) (drop (pow2 j) (drop start plaintext)))
          good spans rest)
