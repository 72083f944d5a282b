-- ===== src/Common/Bits.antt =====
-- Powers of two, and `&` and `|` where the crates use them: a mask of ones keeps a number, and the head
-- byte of a CBOR item is its three high and its five low bits.
use Prim.Native.Nat.{
  ℕ, zero, suc, ◌+◌, ◌*◌, ◌/◌, ◌%◌, ◌≤◌, ◌<◌, min, bit_and, bit_or, digits, bit_and-bitwise,
}
use mathlib.Core.Path.{◌≡◌, refl}
use sidequests.Common.Tests.{◌==◌, ==→eq, if◌then◌else◌, Bool-cases}
use mathlib.Core.Bool.{Bool, true, false}
use mathlib.Core.Logic.{inl, inr}
use native.Mathlib.Omega.{arith}

abbrev pub pow2 : ℕ → ℕ
pow2 zero = 1
pow2 (suc k) = pow2 k * 2

-- 2 ^ k - 1, a mask of `k` ones.
abbrev pub ones : ℕ → ℕ
ones zero = 0
ones (suc k) = ones k * 2 + 1

-- Digit by digit, a mask of `k` ones keeps what is below 2 ^ k.
digits-ones : (fuel k a : ℕ) → a < pow2 k → a ≤ fuel → digits (λ _. zero) min fuel a (ones k) ≡ a
digits-ones zero k zero small enough = refl
digits-ones zero k (suc a) small enough = absurd (omega arith)
digits-ones (suc fuel) k zero small enough = refl
digits-ones (suc fuel) zero (suc a) small enough = absurd (omega arith)
digits-ones (suc fuel) (suc k) (suc a) small enough =
    let mask : ones (suc k) / 2 ≡ ones k = omega arith in
    let higher = digits-ones fuel k (suc a / 2) (omega arith) (omega arith) in
    rw (mask, higher) (omega arith)

pub bit_and-ones : (k a : ℕ) → a < pow2 k → bit_and a (ones k) ≡ a
bit_and-ones k a small = rw bit_and-bitwise (digits-ones a k a small (omega arith))

-- A test of every number below a bound.
passes : (ℕ → Bool) → ℕ → Bool
passes test zero = true
passes test (suc bound) = let rest = passes test bound in if test bound then rest else false

passes-eq-true :
    (test : ℕ → Bool) (bound : ℕ) → passes test bound ≡ true → (x : ℕ) → x < bound → test x ≡ true
unfolding passes
passes-eq-true test zero all x below = absurd (omega arith)
passes-eq-true test (suc bound) all x below = elim (Bool-cases (x == bound)) [
  | inl last ↦ rw (==→eq x bound last) (ground arith)
  | inr earlier ↦ passes-eq-true test bound (ground arith) x (ground arith)
]

byte_masks : passes (λ x. bit_and x 0x1f == x % 32) 256 ≡ true
unfolding passes
byte_masks = refl

byte_joins : passes (λ x. bit_or (x / 32 * 32) (x % 32) == x) 256 ≡ true
unfolding passes
byte_joins = refl

-- The five low bits of a byte.
pub low_five : (b : ℕ) → b < 256 → bit_and b 0x1f ≡ b % 32
low_five b below = ==→eq _ _ (passes-eq-true _ 256 byte_masks b below)

-- A byte from its three high and its five low bits.
pub join_five : (b : ℕ) → b < 256 → bit_or (b / 32 * 32) (b % 32) ≡ b
join_five b below = ==→eq _ _ (passes-eq-true _ 256 byte_joins b below)
