-- ===== src/Chunk/Tree.antt =====
-- ctf-format/crates/ctf-format/src/chunk.rs: chaining values, and their reduction to a root.
-- The record `Blake3` stands for what the code calls of the blake3 crate: its fields are the value
-- of a subtree at an offset (`set_input_offset`, `update`, `finalize_non_root`), the two merges of
-- `blake3::hazmat`, and the hash of a whole input.
use sidequests.Common.{
  ℕ, suc, zero, ◌-◌, List, [], ◌∷◌, Option, none, some, length, take, drop, ltb, leb, ◌==◌,
  if◌then◌else◌,
}
use sidequests.Common.Bits.{pow2}
use sidequests.Error.{
  Result, ok, ◌>>=◌, ◌>>◌, refuse_if, ok_or, inconsistent, length_overflow, bad_chunk_size,
}
use sidequests.Format.{checked_mul}
use sidequests.Chunk.{bad_chunk_size_of}

abbrev pub ChainingValue : Type 0
ChainingValue = List ℕ

pub record Blake3 : Type 0 where
  pub subtree : ℕ → List ℕ → ChainingValue
  pub merge_subtrees_non_root : ChainingValue → ChainingValue → ChainingValue
  pub merge_subtrees_root : ChainingValue → ChainingValue → List ℕ
  pub hash : List ℕ → List ℕ

unfoldable pub chunk_cv : Blake3 → List ℕ → ℕ → ℕ → Result ChainingValue
chunk_cv blake3 chunk index chunk_size = do
  refuse_if (bad_chunk_size_of chunk_size) (bad_chunk_size chunk_size)
  refuse_if (length chunk == 0) (inconsistent "chunk has no bytes")
  refuse_if (ltb chunk_size (length chunk)) (inconsistent "chunk longer than chunk_size")
  offset ← ok_or (checked_mul index chunk_size) (length_overflow "chunk offset")
  ok (blake3.subtree offset chunk)

-- `usize::leading_zeros` at `w` bits.
unfoldable pub leading_zeros : ℕ → ℕ → ℕ
leading_zeros zero x = 0
leading_zeros (suc w) x = if leb (pow2 w) x then 0 else suc (leading_zeros w x)

-- `1usize << (usize::BITS - 1 - (n - 1).leading_zeros())`
unfoldable pub left_len : ℕ → ℕ
left_len n = pow2 (64 - 1 - leading_zeros 64 (n - 1))

unfoldable pub split_canonical :
    List ChainingValue → Option (List ChainingValue × List ChainingValue)
split_canonical cvs =
    if ltb (length cvs) 2
    then none
    else some (take (left_len (length cvs)) cvs, drop (left_len (length cvs)) cvs)

-- `cvs.first().copied()`
unfoldable pub first : List ChainingValue → Option ChainingValue
first [] = none
first (cv ∷ cvs) = some cv

unfoldable pub merge_both :
    (ChainingValue → ChainingValue → List ℕ)
    → Option ChainingValue
    → Option ChainingValue
    → Option (List ℕ)
merge_both merge (some l) (some r) = some (merge l r)
merge_both merge _ _ = none

-- The two parts merged, or `base` when there was nothing to split.
unfoldable pub merge_parts :
    (ChainingValue → ChainingValue → List ℕ)
    → (List ChainingValue → Option ChainingValue)
    → Option ChainingValue
    → Option (List ChainingValue × List ChainingValue)
    → Option ChainingValue
unfolding merge_both
merge_parts merge part base none = base
merge_parts merge part base (some (left, right)) = merge_both merge (part left) (part right)

-- The fuel is the number of splits on a path; a list of up to 2 ^ k values needs no more than `k`.
unfoldable pub merge_non_root : Blake3 → ℕ → List ChainingValue → Option ChainingValue
unfolding first
merge_non_root blake3 zero cvs = if ltb (length cvs) 2 then first cvs else none
merge_non_root blake3 (suc k) cvs =
    merge_parts blake3.merge_subtrees_non_root (merge_non_root blake3 k) (first cvs)
      (split_canonical cvs)

-- A slice has fewer than 2 ^ 64 elements, so the fuel is the 64 bits of its length.
unfoldable pub root_from_cvs : Blake3 → List ChainingValue → Option (List ℕ)
root_from_cvs blake3 cvs =
    merge_parts blake3.merge_subtrees_root (merge_non_root blake3 64) none (split_canonical cvs)
