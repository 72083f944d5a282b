-- ===== src/Crypto/Prefixed.antt =====
-- ctf-format/crates/ctf-format/src/crypto/mod.rs: what `lp` writes is told apart from what follows it.
use sidequests.Common.{
  ℕ, ◌<◌, ◌≡◌, refl, sym, ◌∙◌, List, ◌++◌, append_assoc, length, ltb-false_of_le, arith,
}
use sidequests.Wire.{to_le, length-to_le, field_injective, to_le_injective}
use sidequests.Format.{u32_mod}
use sidequests.Crypto.Kem.{clamp_u32, prefixed}

clamp_u32-small : (n : ℕ) → n < u32_mod → clamp_u32 n ≡ n
unfolding clamp_u32
clamp_u32-small n h = rw (ltb-false_of_le 0xffff_ffff n (omega arith)) refl

-- Two texts of fewer than 2 ^ 32 bytes, each behind its length, begin equal lists only if they are equal.
pub prefixed_injective :
    (x y xs ys : List ℕ)
    → length x < u32_mod
    → length y < u32_mod
    → prefixed x ++ xs ≡ prefixed y ++ ys
    → (x ≡ y) × (xs ≡ ys)
unfolding prefixed
prefixed_injective x y xs ys hx hy e =
    let px = to_le 4 (clamp_u32 (length x)) in
    let py = to_le 4 (clamp_u32 (length y)) in
    let e' : px ++ (x ++ xs) ≡ py ++ (y ++ ys) =
      sym (append_assoc px x xs) ∙ (e ∙ append_assoc py y ys) in
    let (lens, rest) =
      field_injective px py (x ++ xs) (y ++ ys) (length-to_le 4 (clamp_u32 (length x)))
        (length-to_le 4 (clamp_u32 (length y))) e' in
    let is_x = clamp_u32-small (length x) hx in
    let is_y = clamp_u32-small (length y) hy in
    let same =
      to_le_injective 4 (clamp_u32 (length x)) (clamp_u32 (length y)) (rw is_x hx) (rw is_y hy)
        lens in
    let width : length x ≡ length y = sym is_x ∙ (same ∙ is_y) in
    field_injective x y xs ys width refl rest
