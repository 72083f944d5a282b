-- ===== src/Manifest/Distinct.antt =====
-- The duplicate check of `Manifest::decode`: sort by the text, then compare neighbours.
use sidequests.Common.{ℕ, String, ◌≡◌, List, [], ◌∷◌, false, none, arith}
use sidequests.Common.Sort.{AllPairs, sort}
use sidequests.Error.{ok}
use sidequests.Wire.{bytes_eq}
use sidequests.Cbor.Distinct.{NeighboursDiffer, distinct_of_sort}
use sidequests.Manifest.Decode.{Seen, seen_le, repeated, refuse_repeated}

abbrev pub text_of : ℕ × List ℕ → List ℕ
text_of a = a.1

repeated-none : (s : Seen) → repeated s ≡ none → NeighboursDiffer text_of s
unfolding repeated
repeated-none [] e = tt
repeated-none (a ∷ []) e = tt
repeated-none (a ∷ (b ∷ s)) e = (ground arith, repeated-none (b ∷ s) (ground arith))

refuse_repeated-none :
    (what : String) (s : Seen) → refuse_repeated what s ≡ ok tt → repeated (sort seen_le s) ≡ none
unfolding refuse_repeated
refuse_repeated-none what s e = ground arith

-- A list of texts that the check lets pass has no text twice.
pub refuse_repeated-distinct :
    (what : String) (s : Seen)
    → refuse_repeated what s ≡ ok tt
    → AllPairs (λ a b. bytes_eq a.1 b.1 ≡ false) s
refuse_repeated-distinct what s e =
    distinct_of_sort text_of s (repeated-none (sort seen_le s) (refuse_repeated-none what s e))
