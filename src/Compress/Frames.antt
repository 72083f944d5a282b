-- ===== src/Compress/Frames.antt =====
-- Decompression is bounded, and restores what was compressed.
use sidequests.Common.{
  ℕ, zero, suc, ◌*◌, ◌≤◌, ◌<◌, ◌≡◌, refl, sym, List, [], ◌∷◌, append-nil, length, drop, length-take,
  length-drop, take-append-drop, All, true, Bool-cases, Option-cases, some, inl, inr, ◌||◌, ◌==◌,
  empty_of_length, arith,
}
use sidequests.Error.{ok, Result-cases}
use sidequests.Format.{u64_mod, saturating_add}
use sidequests.Compress.{
  Zstd, check_caps, chunks_from, pieces, compress_each, compress_frames, join, decompress_exact,
  decompress, max_decompressed_section, max_decompression_ratio,
}

-- What is accepted has exactly the declared length, which is at most 64 GiB and at most 65536 times
-- the stored length.
pub decompress-bounds :
    (zstd : Zstd) (stored : List ℕ) (len_plain : ℕ) (out : List ℕ)
    → decompress zstd stored len_plain ≡ ok out
    → (length out ≡ len_plain)
      × (len_plain ≤ max_decompressed_section)
      × (len_plain ≤ length stored * max_decompression_ratio)
unfolding decompress decompress_exact check_caps
decompress-bounds zstd stored len_plain out e =
    elim (Option-cases (zstd.read_up_to (saturating_add len_plain 1) stored)) [
      | inl missing ↦ absurd (ground arith)
      | inr (read, found) ↦ (ground arith, ground arith, ground arith)
    ]

-- What the zstd crate documents: a frame decodes to what was compressed, if the limit lets it.
pub record IsZstd (zstd : Zstd) : Type 0 where
  pub restores :
      (text frame : List ℕ) (limit : ℕ)
      → zstd.compress_one text ≡ some frame
      → length text ≤ limit
      → zstd.read_up_to limit frame ≡ some text

-- Each frame decompresses to the piece at its place.
unfoldable pub Restored : Zstd → List (List ℕ) → List (List ℕ) → Type 0
Restored zstd [] [] = Unit
Restored zstd (f ∷ fs) (p ∷ ps) = (decompress_exact zstd f (length p) ≡ ok p) × Restored zstd fs ps
Restored zstd [] (p ∷ ps) = ⊥
Restored zstd (f ∷ fs) [] = ⊥

abbrev IsShort : ℕ → List ℕ → Type 0
IsShort n p = length p < n

decompress_exact-compress_one :
    (zstd : Zstd) (text frame : List ℕ)
    → IsZstd zstd
    → zstd.compress_one text ≡ some frame
    → length text < u64_mod
    → decompress_exact zstd frame (length text) ≡ ok text
unfolding decompress_exact
decompress_exact-compress_one zstd text frame is e short =
    let read = is.restores text frame (saturating_add (length text) 1) e (omega arith) in
    let same : (length text == length text) ≡ true = ground arith in rw (read, same) refl

compress_each-Restored :
    (zstd : Zstd) (ps fs : List (List ℕ))
    → IsZstd zstd
    → All (IsShort u64_mod) ps
    → compress_each zstd ps ≡ ok fs
    → Restored zstd fs ps
unfolding compress_each Restored
compress_each-Restored zstd [] fs is h e =
    let none_left : [] ≡ fs = ground arith in rw (← none_left) tt
compress_each-Restored zstd (p ∷ ps) fs is (short, h) e =
    elim (Option-cases (zstd.compress_one p)) [
      | inl missing ↦ absurd (ground arith)
      | inr (f, made) ↦ elim (Result-cases (compress_each zstd ps)) [
        | inl (fs', later) ↦
            let whole : f ∷ fs' ≡ fs = ground arith in
            rw (← whole) (
              decompress_exact-compress_one zstd p f is made short,
              compress_each-Restored zstd ps fs' is h later,
            )
        | inr (x, bad) ↦ absurd (ground arith)
      ]
    ]

join-chunks_from :
    (fuel size : ℕ) (plain : List ℕ)
    → 0 < size
    → length plain ≤ fuel
    → join (chunks_from fuel size plain) ≡ plain
unfolding join chunks_from
join-chunks_from zero size plain pos h = sym (empty_of_length plain (omega arith))
join-chunks_from (suc fuel) size [] pos h = refl
join-chunks_from (suc fuel) size (x ∷ xs) pos h =
    let left = length-drop size (x ∷ xs) in
    let rest = join-chunks_from fuel size (drop size (x ∷ xs)) pos (omega arith) in
    rw rest (take-append-drop size (x ∷ xs))

chunks_from-All :
    (bound fuel size : ℕ) (plain : List ℕ)
    → length plain < bound
    → All (IsShort bound) (chunks_from fuel size plain)
unfolding chunks_from
chunks_from-All bound zero size plain h = tt
chunks_from-All bound (suc fuel) size [] h = tt
chunks_from-All bound (suc fuel) size (x ∷ xs) h =
    let front = length-take size (x ∷ xs) in
    let left = length-drop size (x ∷ xs) in
    (omega arith, chunks_from-All bound fuel size (drop size (x ∷ xs)) (omega arith))

join-pieces : (plain : List ℕ) (chunk_size : ℕ) → join (pieces plain chunk_size) ≡ plain
unfolding pieces join
join-pieces plain chunk_size = elim (Bool-cases (chunk_size == 0 || (length plain == 0))) [
  | inl whole ↦ rw whole (append-nil plain)
  | inr cut ↦ rw cut (join-chunks_from (length plain) chunk_size plain (ground arith) (omega arith))
]

pieces-All :
    (bound : ℕ) (plain : List ℕ) (chunk_size : ℕ)
    → length plain < bound
    → All (IsShort bound) (pieces plain chunk_size)
unfolding pieces
pieces-All bound plain chunk_size h = elim (Bool-cases (chunk_size == 0 || (length plain == 0))) [
  | inl whole ↦ rw whole (h, tt)
  | inr cut ↦ rw cut (chunks_from-All bound (length plain) chunk_size plain h)
]

-- With a zstd that decodes what it has encoded, each frame of a compressed text of fewer than 2 ^ 64
-- bytes decompresses to a piece of the text, and the pieces in order are the text.
compress_frames-Restored :
    (zstd : Zstd) (plain : List ℕ) (chunk_size : ℕ) (frames : List (List ℕ))
    → IsZstd zstd
    → length plain < u64_mod
    → compress_frames zstd plain chunk_size ≡ ok frames
    → Restored zstd frames (pieces plain chunk_size) × (join (pieces plain chunk_size) ≡ plain)
unfolding compress_frames
compress_frames-Restored zstd plain chunk_size frames is short e = (
  compress_each-Restored zstd (pieces plain chunk_size) frames is
      (pieces-All u64_mod plain chunk_size short) e,
  join-pieces plain chunk_size,
)
