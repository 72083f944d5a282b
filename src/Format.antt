-- ===== src/Format.antt =====
-- The constants of ctf-format/crates/ctf-format/src/lib.rs, and Rust's checked arithmetic.
use sidequests.Common.{
  ℕ, ◌+◌, ◌-◌, ◌*◌, min, List, [], ◌∷◌, Option, none, some, ltb, if◌then◌else◌, bit_and,
}

abbrev pub magic : List ℕ
magic = 0x89 ∷ 0x43 ∷ 0x54 ∷ 0x46 ∷ 0x0d ∷ 0x0a ∷ 0x1a ∷ 0x0a ∷ []

abbrev pub supported_major : ℕ
supported_major = 0

abbrev pub supported_minor : ℕ
supported_minor = 3

abbrev pub feat_ro_compat_container_v1 : ℕ
feat_ro_compat_container_v1 = 1

abbrev pub container_v1_minor : ℕ
container_v1_minor = 3

abbrev pub supported_incompat : ℕ
supported_incompat = 0

abbrev pub supported_ro_compat : ℕ
supported_ro_compat = feat_ro_compat_container_v1

abbrev pub header_len : ℕ
header_len = 64

abbrev pub section_record_len : ℕ
section_record_len = 128

abbrev pub payload_align : ℕ
payload_align = 4096

abbrev pub table_align : ℕ
table_align = 8

abbrev pub max_sections : ℕ
max_sections = 4096

abbrev pub min_chunk_size : ℕ
min_chunk_size = 4096

abbrev pub max_chunk_size : ℕ
max_chunk_size = 64 * 1024 * 1024

abbrev pub u16_mod : ℕ
u16_mod = 0x1_0000

abbrev pub u32_mod : ℕ
u32_mod = 0x1_0000_0000

-- `u64` and `usize` are 64 bits wide.
abbrev pub u64_mod : ℕ
u64_mod = 0x1_0000_0000_0000_0000

abbrev pub checked_add : ℕ → ℕ → Option ℕ
checked_add a b = if ltb (a + b) u64_mod then some (a + b) else none

abbrev pub checked_mul : ℕ → ℕ → Option ℕ
checked_mul a b = if ltb (a * b) u64_mod then some (a * b) else none

abbrev pub saturating_add : ℕ → ℕ → ℕ
saturating_add a b = min (a + b) (u64_mod - 1)

abbrev pub saturating_mul : ℕ → ℕ → ℕ
saturating_mul a b = min (a * b) (u64_mod - 1)

-- `x & !mask` on a `u16` and a `u32`.
abbrev pub and_not_u16 : ℕ → ℕ → ℕ
and_not_u16 x mask = bit_and x (u16_mod - 1 - mask)

abbrev pub and_not_u32 : ℕ → ℕ → ℕ
and_not_u32 x mask = bit_and x (u32_mod - 1 - mask)
