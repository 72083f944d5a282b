-- ===== src/Utf8.antt =====
-- `core::str::from_utf8`: which byte strings are well-formed UTF-8.
use sidequests.Common.{
  ℕ, zero, suc, ◌≡◌, refl, List, [], ◌∷◌, Bool, true, false, ◌&&◌, Option, none, some, ltb, leb,
  if◌then◌else◌,
}

-- How many continuation bytes are still to come, and the range of the next byte.
pub record Utf8State : Type 0 where
  pub pending : ℕ
  pub low : ℕ
  pub high : ℕ

abbrev expecting : ℕ → ℕ → ℕ → Option Utf8State
expecting n lo hi = some (record { pending = n; low = lo; high = hi })

abbrev within : ℕ → ℕ → ℕ → Bool
within lo hi b = leb lo b && leb b hi

-- The first byte of a character.
unfoldable pub lead_byte : ℕ → Option Utf8State
lead_byte b =
    if ltb b 0x80
    then expecting 0 0 0
    else if within 0xc2 0xdf b
    then expecting 1 0x80 0xbf
    else if within 0xe0 0xe0 b
    then expecting 2 0xa0 0xbf
    else if within 0xed 0xed b
    then expecting 2 0x80 0x9f
    else if within 0xe1 0xef b
    then expecting 2 0x80 0xbf
    else if within 0xf0 0xf0 b
    then expecting 3 0x90 0xbf
    else if within 0xf1 0xf3 b
    then expecting 3 0x80 0xbf
    else if within 0xf4 0xf4 b
    then expecting 3 0x80 0x8f
    else none

unfoldable pub next_state : ℕ → ℕ → ℕ → ℕ → Option Utf8State
unfolding lead_byte
next_state zero lo hi b = lead_byte b
next_state (suc n) lo hi b = if within lo hi b then expecting n 0x80 0xbf else none

abbrev at_boundary : ℕ → Bool
at_boundary zero = true
at_boundary (suc n) = false

unfoldable pub is_utf8_from : Utf8State → List ℕ → Bool
unfolding next_state
is_utf8_from s [] = at_boundary s.pending
is_utf8_from s (b ∷ bs) = elim (next_state s.pending s.low s.high b) [
  | some s' ↦ is_utf8_from s' bs
  | none ↦ false
]

unfoldable pub is_utf8 : List ℕ → Bool
unfolding is_utf8_from
is_utf8 = is_utf8_from (record { pending = 0; low = 0; high = 0 })

-- Some accepted and refused byte strings: "é", a surrogate, an overlong slash, a cut character.
utf8_e_acute : is_utf8 (0xc3 ∷ 0xa9 ∷ 0x41 ∷ []) ≡ true
unfolding is_utf8
utf8_e_acute = refl

utf8_surrogate : is_utf8 (0xed ∷ 0xa0 ∷ 0x80 ∷ []) ≡ false
unfolding is_utf8
utf8_surrogate = refl

utf8_overlong : is_utf8 (0xc0 ∷ 0xaf ∷ []) ≡ false
unfolding is_utf8
utf8_overlong = refl

utf8_cut : is_utf8 (0xe2 ∷ 0x82 ∷ []) ≡ false
unfolding is_utf8
utf8_cut = refl
