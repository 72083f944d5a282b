-- ===== src/Wire/Injective.antt =====
-- Fields of a known width are told apart by what is written of them.
use sidequests.Common.{
  ℕ, ◌<◌, ◌≡◌, sym, ap, ◌∙◌, List, ◌++◌, length, take, drop, take-append, drop-append,
}
use sidequests.Wire.Ints.{to_le, from_le, to_be, from_be, from_le-to_le, from_be-to_be, pow256}

-- Two lists that begin with a field of the same width agree in the field and behind it.
pub field_injective :
    {n : ℕ} (s t xs ys : List ℕ)
    → length s ≡ n
    → length t ≡ n
    → s ++ xs ≡ t ++ ys
    → (s ≡ t) × (xs ≡ ys)
field_injective {n} s t xs ys hs ht e = (
  sym (take-append s xs hs) ∙ ap (take n) e ∙ take-append t ys ht,
  sym (drop-append s xs hs) ∙ ap (drop n) e ∙ drop-append t ys ht,
)

pub to_le_injective : (n v w : ℕ) → v < pow256 n → w < pow256 n → to_le n v ≡ to_le n w → v ≡ w
to_le_injective n v w hv hw e = sym (from_le-to_le n v hv) ∙ ap from_le e ∙ from_le-to_le n w hw

pub to_be_injective : (n v w : ℕ) → v < pow256 n → w < pow256 n → to_be n v ≡ to_be n w → v ≡ w
to_be_injective n v w hv hw e = sym (from_be-to_be n v hv) ∙ ap from_be e ∙ from_be-to_be n w hw
