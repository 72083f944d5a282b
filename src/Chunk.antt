-- ===== src/Chunk.antt =====
-- ctf-format/crates/ctf-format/src/chunk.rs: chunk arithmetic and the chunk index.
pub mod Tree
pub mod Index
pub mod Split
pub mod Leaves
pub mod Root
pub mod Loop
pub mod Build
pub mod IndexBytes
pub mod Stream
pub mod Delivery
mod Tests
use sidequests.Common.{
  ℕ, suc, zero, ◌+◌, ◌/◌, ◌%◌, Bool, false, not, ◌&&◌, ◌||◌, ltb, leb, ◌==◌, if◌then◌else◌,
}
use sidequests.Common.Bits.{pow2}
use sidequests.Error.{Result, ok, ◌>>=◌, ◌>>◌, refuse_if, ok_or, inconsistent, length_overflow}
use sidequests.Footer.{root_len}
use sidequests.Format.{min_chunk_size, max_chunk_size, checked_mul}

abbrev pub entry_len : ℕ
entry_len = root_len

-- `u64::div_ceil`
unfoldable pub div_ceil : ℕ → ℕ → ℕ
div_ceil a b = if ltb 0 (a % b) then a / b + 1 else a / b

-- Is `n` one of the `k` powers of two below 2 ^ k?
unfoldable pub is_pow2_below : ℕ → ℕ → Bool
is_pow2_below zero n = false
is_pow2_below (suc k) n = n == pow2 k || is_pow2_below k n

-- `u32::is_power_of_two`
unfoldable pub is_power_of_two : ℕ → Bool
unfolding is_pow2_below
is_power_of_two n = is_pow2_below 32 n

abbrev pub bad_chunk_size_of : ℕ → Bool
bad_chunk_size_of n = not (is_power_of_two n) || not (leb min_chunk_size n && leb n max_chunk_size)

unfoldable pub chunk_count : ℕ → ℕ → Result ℕ
chunk_count len_plain chunk_size = do
  refuse_if (chunk_size == 0) (inconsistent "chunk count requested for an unchunked section")
  ok (div_ceil len_plain chunk_size)

unfoldable pub index_len : ℕ → ℕ → Result ℕ
index_len len_plain chunk_size = do
  count ← chunk_count len_plain chunk_size
  ok_or (checked_mul count entry_len) (length_overflow "chunk index")
