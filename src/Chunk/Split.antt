-- ===== src/Chunk/Split.antt =====
-- The canonical split: where it cuts a list of chaining values.
use sidequests.Common.{
  ℕ, zero, suc, ◌+◌, ◌-◌, ◌*◌, ◌≤◌, ◌<◌, ◌≡◌, ap, arith, ltb, leb, Bool-cases, inl, inr,
}
use native.Mathlib.Nat.{le-mul_of_pos_right}
use sidequests.Common.Bits.{pow2}
use sidequests.Chunk.Tree.{leading_zeros, left_len}

pub pow2-pos : (k : ℕ) → 0 < pow2 k
pow2-pos zero = omega arith
pow2-pos (suc k) = omega (arith, pow2-pos k)

pub pow2-add : (a b : ℕ) → pow2 (a + b) ≡ pow2 a * pow2 b
pow2-add zero b = rw Prim.Native.Nat.add.zero (omega arith)
pow2-add (suc a) b = rw Prim.Native.Nat.add.suc (omega (arith, pow2-add a b))

pub pow2_mono : (a b : ℕ) → a ≤ b → pow2 a ≤ pow2 b
pow2_mono a b h =
    let split : b ≡ a + (b - a) = omega arith in
    rw (split, pow2-add a (b - a)) (le-mul_of_pos_right (pow2 a) (pow2-pos (b - a)))

pub pow2-lt_inv : (a b : ℕ) → pow2 a < pow2 b → a < b
pow2-lt_inv a b h = elim (Bool-cases (ltb a b)) [
  | inl less ↦ ground arith
  | inr more ↦ absurd (omega (arith, pow2_mono b a (ground arith)))
]

-- The highest bit of a number below 2 ^ w.
leading_zeros-bounds :
    (w x : ℕ)
    → 0 < x
    → x < pow2 w
    → (b : ℕ) × (w - 1 - leading_zeros w x ≡ b) × (pow2 b ≤ x) × (x < pow2 b * 2)
unfolding leading_zeros
leading_zeros-bounds zero x pos below = absurd (omega arith)
leading_zeros-bounds (suc w) x pos below = elim (Bool-cases (leb (pow2 w) x)) [
  | inl high ↦ (w, rw high (omega arith), ground arith, omega arith)
  | inr low ↦
      let (b, e, least, most) = leading_zeros-bounds w x pos (ground arith) in
      (b, rw low (omega arith), least, most)
]

-- The left part is the largest power of two strictly below the length.
pub left_len-bounds :
    (n : ℕ)
    → 2 ≤ n
    → n ≤ pow2 64
    → (b : ℕ) × (left_len n ≡ pow2 b) × (left_len n < n) × (n ≤ left_len n * 2)
unfolding left_len
left_len-bounds n two below =
    let (b, e, least, most) = leading_zeros-bounds 64 (n - 1) (omega arith) (omega arith) in
    (b, ap pow2 e, rw e (omega arith), rw e (omega arith))
