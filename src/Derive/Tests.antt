-- ===== src/Derive/Tests.antt =====
-- A derived flag, against the vector of RFC 4648; and the theorems about derivations at small inputs.
use sidequests.Common.{ℕ, ◌≡◌, refl, List, [], ◌∷◌, replicate, arith}
use sidequests.Manifest.Readers.{item_at}
use sidequests.Derive.{base32_lower, base32_from, emit, symbol}
use sidequests.Derive.Separates.{seed_info-separates}

-- "foobar" is "mzxw6ytboi".
foobar :
    base32_lower (102 ∷ 111 ∷ 111 ∷ 98 ∷ 97 ∷ 114 ∷ [])
    ≡ 109 ∷ 122 ∷ 120 ∷ 119 ∷ 54 ∷ 121 ∷ 116 ∷ 98 ∷ 111 ∷ 105 ∷ []
unfolding base32_lower base32_from emit symbol item_at
foobar = refl

abbrev sample_hmac : List ℕ → List ℕ → List ℕ
sample_hmac key message = replicate 32 171

abbrev challenge : List ℕ
challenge = 97 ∷ 98 ∷ []

abbrev subject : List ℕ
subject = 99 ∷ []

abbrev version : ℕ
version = 3

seed_info-separates_example : (challenge ≡ challenge) × (version ≡ version) × (subject ≡ subject)
seed_info-separates_example =
    seed_info-separates challenge challenge version version subject subject (omega arith)
      (omega arith) (omega arith) (omega arith) (omega arith) (omega arith) refl
