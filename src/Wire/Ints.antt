-- ===== src/Wire/Ints.antt =====
-- `to_le_bytes`, `from_le_bytes`, `to_be_bytes`, `from_be_bytes`.
use sidequests.Common.{
  ℕ, zero, suc, ◌+◌, ◌*◌, ◌/◌, ◌%◌, ◌<◌, ◌≡◌, refl, arith, List, [], ◌∷◌, length, All, ap, ◌∙◌,
  length-append, All-append,
}
use mathlib.Core.List.{reverse, reverse-cons, reverse-reverse}

abbrev pub IsByte : ℕ → Type 0
IsByte b = b < 256

-- 256 ^ n, by recursion on `n`.
abbrev pub pow256 : ℕ → ℕ
pow256 zero = 1
pow256 (suc n) = pow256 n * 256

-- The `n` low bytes of `v`, lowest first.
unfoldable pub to_le : ℕ → ℕ → List ℕ
to_le zero v = []
to_le (suc n) v = (v % 256) ∷ to_le n (v / 256)

unfoldable pub from_le : List ℕ → ℕ
from_le [] = 0
from_le (b ∷ bs) = b + 256 * from_le bs

-- The `n` low bytes of `v`, highest first.
unfoldable pub to_be : ℕ → ℕ → List ℕ
unfolding to_le
to_be n v = reverse (to_le n v)

unfoldable pub from_be : List ℕ → ℕ
unfolding from_le
from_be bs = from_le (reverse bs)

pub length-to_le : (n v : ℕ) → length (to_le n v) ≡ n
unfolding to_le
length-to_le zero v = refl
length-to_le (suc n) v = omega (arith, length-to_le n (v / 256))

pub to_le-IsByte : (n v : ℕ) → All IsByte (to_le n v)
unfolding to_le
to_le-IsByte zero v = tt
to_le-IsByte (suc n) v = (omega arith, to_le-IsByte n (v / 256))

pub from_le-to_le : (n v : ℕ) → v < pow256 n → from_le (to_le n v) ≡ v
unfolding to_le from_le
from_le-to_le zero v h = omega arith
from_le-to_le (suc n) v h = omega (arith, from_le-to_le n (v / 256) (omega arith))

pub from_le-lt : (bs : List ℕ) → All IsByte bs → from_le bs < pow256 (length bs)
unfolding from_le
from_le-lt [] h = omega arith
from_le-lt (b ∷ bs) (p, h) = omega (arith, from_le-lt bs h)

pub to_le-from_le : (bs : List ℕ) → All IsByte bs → to_le (length bs) (from_le bs) ≡ bs
unfolding to_le from_le
to_le-from_le [] h = refl
to_le-from_le (b ∷ bs) (p, h) =
    let low : (b + 256 * from_le bs) % 256 ≡ b = omega arith in
    let high : (b + 256 * from_le bs) / 256 ≡ from_le bs = omega arith in
    rw (low, high, to_le-from_le bs h)

length-reverse {ℓ} : {A : Type ℓ} (xs : List A) → length (reverse xs) ≡ length xs
length-reverse [] = refl
length-reverse (x ∷ xs) =
    rw reverse-cons (omega (arith, length-append (reverse xs) (x ∷ []), length-reverse xs))

All-reverse {ℓ κ} : {A : Type ℓ} (P : A → Type κ) (xs : List A) → All P xs → All P (reverse xs)
All-reverse P [] h = tt
All-reverse P (x ∷ xs) (p, h) =
    rw reverse-cons (All-append P (reverse xs) (x ∷ []) (All-reverse P xs h) (p, tt))

pub length-to_be : (n v : ℕ) → length (to_be n v) ≡ n
unfolding to_be
length-to_be n v = length-reverse _ ∙ length-to_le n v

pub to_be-IsByte : (n v : ℕ) → All IsByte (to_be n v)
unfolding to_be
to_be-IsByte n v = All-reverse IsByte (to_le n v) (to_le-IsByte n v)

pub from_be-to_be : (n v : ℕ) → v < pow256 n → from_be (to_be n v) ≡ v
unfolding to_be from_be
from_be-to_be n v h = rw reverse-reverse (from_le-to_le n v h)

pub from_be-lt : (bs : List ℕ) → All IsByte bs → from_be bs < pow256 (length bs)
unfolding from_be
from_be-lt bs h = rw length-reverse at (from_le-lt (reverse bs) (All-reverse IsByte bs h))

pub to_be-from_be : (bs : List ℕ) → All IsByte bs → to_be (length bs) (from_be bs) ≡ bs
unfolding to_be from_be
to_be-from_be bs h =
    ap reverse (rw length-reverse at (to_le-from_le (reverse bs) (All-reverse IsByte bs h)))
    ∙ reverse-reverse bs
