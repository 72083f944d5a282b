-- ===== src/Compress/Tests.antt =====
-- A compressor that changes nothing, and the theorems about compression at it.
use sidequests.Common.{ℕ, ◌*◌, ◌≤◌, ◌≡◌, refl, sym, ap, ◌∙◌, List, [], ◌∷◌, length, take, some}
use sidequests.Error.{ok}
use sidequests.Chunk.Leaves.{take_all}
use sidequests.Compress.{
  Zstd, check_caps, pieces, chunks_from, compress_frames, compress_each, decompress_exact,
  decompress, max_decompressed_section, max_decompression_ratio,
}
use sidequests.Compress.Frames.{IsZstd, decompress-bounds}

abbrev stored_only : Zstd
stored_only = record {
  compress_one = λ text. some text;
  read_up_to = λ limit frame. some (take limit frame);
}

some_injective : {a b : List ℕ} → some a ≡ some b → a ≡ b
some_injective h = cc

stored_only-IsZstd : IsZstd stored_only
stored_only-IsZstd = record {
  restores = λ text frame limit made short.
      ap some (take_all limit frame (rw (some_injective made) at short)) ∙ sym made;
}

abbrev three_bytes : List ℕ
three_bytes = 1 ∷ 2 ∷ 3 ∷ []

three_restored : decompress stored_only three_bytes 3 ≡ ok three_bytes
unfolding decompress decompress_exact check_caps
three_restored = refl

decompress-bounds_example :
    (length three_bytes ≡ 3)
    × (3 ≤ max_decompressed_section)
    × (3 ≤ length three_bytes * max_decompression_ratio)
decompress-bounds_example = decompress-bounds stored_only three_bytes 3 three_bytes three_restored

two_frames : compress_frames stored_only three_bytes 2 ≡ ok ((1 ∷ 2 ∷ []) ∷ ((3 ∷ []) ∷ []))
unfolding compress_frames compress_each pieces chunks_from
two_frames = refl
