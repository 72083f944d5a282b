-- ===== src/Cbor/Order.antt =====
-- The order of encoded keys.
use sidequests.Common.{ℕ, ◌≡◌, List, [], ◌∷◌, true, false, arith}
use sidequests.Wire.{bytes_eq}
use sidequests.Cbor.{bytes_lt}

pub bytes_lt_asymm : (xs ys : List ℕ) → bytes_lt xs ys ≡ true → bytes_lt ys xs ≡ false
unfolding bytes_lt
bytes_lt_asymm [] [] h = cc
bytes_lt_asymm [] (y ∷ ys) h = ground arith
bytes_lt_asymm (x ∷ xs) [] h = cc
bytes_lt_asymm (x ∷ xs) (y ∷ ys) h = ground (arith, bytes_lt_asymm xs ys)

pub bytes_lt-ne : (xs ys : List ℕ) → bytes_lt xs ys ≡ true → bytes_eq xs ys ≡ false
unfolding bytes_lt bytes_eq
bytes_lt-ne [] [] h = cc
bytes_lt-ne [] (y ∷ ys) h = ground arith
bytes_lt-ne (x ∷ xs) [] h = cc
bytes_lt-ne (x ∷ xs) (y ∷ ys) h = ground (arith, bytes_lt-ne xs ys)
