-- ===== src/Compress.antt =====
-- ctf-format/crates/ctf-format/src/compress.rs: the caps on compression, and the frames.
-- The record `Zstd` stands for the zstd crate: its one-shot compressor, and a decoder that is read to its
-- end or to a limit.
pub mod Frames
mod Tests
use sidequests.Common.{
  ℕ, zero, suc, ◌+◌, ◌*◌, List, [], ◌∷◌, ◌++◌, Bool, not, ◌||◌, Option, length, take, drop, ltb,
  ◌==◌, if◌then◌else◌,
}
use sidequests.Error.{
  Result, ok, ◌>>=◌, ◌>>◌, refuse_if, ok_or, compression_output_too_large,
  compression_ratio_exceeded, decompression_failed, decompressed_length,
}
use sidequests.Format.{saturating_add, saturating_mul}

abbrev pub max_decompressed_section : ℕ
max_decompressed_section = 0x10_0000_0000

abbrev pub max_decompression_ratio : ℕ
max_decompression_ratio = 0x1_0000

pub record Zstd : Type 0 where
  pub compress_one : List ℕ → Option (List ℕ)
  pub read_up_to : ℕ → List ℕ → Option (List ℕ)

unfoldable pub check_caps : (len_plain stored : ℕ) → Result (Unit {0})
check_caps len_plain stored = do
  refuse_if (ltb max_decompressed_section len_plain)
      (compression_output_too_large len_plain max_decompressed_section)
  refuse_if (ltb (saturating_mul stored max_decompression_ratio) len_plain)
      (compression_ratio_exceeded len_plain stored max_decompression_ratio)
  ok tt

-- `plain.chunks(size)`, for a size above 0; each round takes a byte at least, so the length is enough
-- fuel.
unfoldable pub chunks_from : (fuel size : ℕ) → List ℕ → List (List ℕ)
chunks_from zero size plain = []
chunks_from (suc fuel) size [] = []
chunks_from (suc fuel) size (x ∷ xs) =
    take size (x ∷ xs) ∷ chunks_from fuel size (drop size (x ∷ xs))

-- What is compressed into one frame each.
unfoldable pub pieces : List ℕ → ℕ → List (List ℕ)
pieces plain chunk_size =
    if chunk_size == 0 || (length plain == 0)
    then plain ∷ []
    else chunks_from (length plain) chunk_size plain

unfoldable pub compress_each : Zstd → List (List ℕ) → Result (List (List ℕ))
compress_each zstd [] = ok []
compress_each zstd (p ∷ ps) = do
  frame ← ok_or (zstd.compress_one p) decompression_failed
  frames ← compress_each zstd ps
  ok (frame ∷ frames)

unfoldable pub compress_frames : Zstd → List ℕ → ℕ → Result (List (List ℕ))
compress_frames zstd plain chunk_size = compress_each zstd (pieces plain chunk_size)

unfoldable pub join : List (List ℕ) → List ℕ
join [] = []
join (f ∷ fs) = f ++ join fs

unfoldable pub compress : Zstd → List ℕ → ℕ → Result (List ℕ)
compress zstd plain chunk_size = do frames ← compress_frames zstd plain chunk_size; ok (join frames)

unfoldable pub decompress_exact : Zstd → List ℕ → ℕ → Result (List ℕ)
decompress_exact zstd stored want = do
  out ← ok_or (zstd.read_up_to (saturating_add want 1) stored) decompression_failed
  refuse_if (not (length out == want)) (decompressed_length (length out) want)
  ok out

unfoldable pub decompress : Zstd → List ℕ → ℕ → Result (List ℕ)
decompress zstd stored len_plain = do
  check_caps len_plain (length stored)
  decompress_exact zstd stored len_plain
