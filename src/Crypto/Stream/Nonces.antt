-- ===== src/Crypto/Stream/Nonces.antt =====
-- No two chunks under one content key share a nonce, and no two sections share associated data.
use sidequests.Common.{
  ℕ, ◌+◌, ◌-◌, ◌<◌, ◌≡◌, refl, List, [], ◌∷◌, ◌++◌, length, length-append, replicate, Bool, true,
  false, arith,
}
use sidequests.Outcome.{ok}
use sidequests.Wire.{
  to_le, to_be, length-to_le, length-to_be, field_injective, to_le_injective, to_be_injective,
}
use sidequests.Format.{u16_mod, u32_mod}
use sidequests.Footer.{checked_sub}
use sidequests.Crypto.Stream.{nonce_prefix, chunk_nonce, final_byte}

nonce_prefix-eq-ok :
    (section_id nonce_len : ℕ) (prefix : List ℕ)
    → nonce_prefix section_id nonce_len ≡ ok prefix
    → prefix ≡ to_le 2 section_id ++ replicate (nonce_len - 5 - 2) 0
unfolding nonce_prefix checked_sub
nonce_prefix-eq-ok section_id nonce_len prefix e = ground arith

final_byte_injective : (f g : Bool) → final_byte f ≡ final_byte g → f ≡ g
final_byte_injective true true e = refl
final_byte_injective true false e = absurd (omega arith)
final_byte_injective false true e = absurd (omega arith)
final_byte_injective false false e = refl

head_injective : (x y : ℕ) → x ∷ [] ≡ y ∷ [] → x ≡ y
head_injective x y e = cc

-- What a nonce is made of.
pub record Place : Type 0 where
  pub section_id : ℕ
  pub index : ℕ
  pub final_chunk : Bool

pub record IsPlace (p : Place) : Type 0 where
  pub section : p.section_id < u16_mod
  pub chunk : p.index < u32_mod

Place-ext :
    (p q : Place)
    → p.section_id ≡ q.section_id
    → p.index ≡ q.index
    → p.final_chunk ≡ q.final_chunk
    → p ≡ q
Place-ext p q e f g = cc

-- Under one AEAD, the nonce of a chunk determines the section id below 2 ^ 16, the index below 2 ^ 32 and
-- the final flag: a content key that is shared between sections meets no nonce twice.
pub chunk_nonce-separates :
    (p q : Place) (nonce_len : ℕ) (prefix prefix' : List ℕ)
    → IsPlace p
    → IsPlace q
    → nonce_prefix p.section_id nonce_len ≡ ok prefix
    → nonce_prefix q.section_id nonce_len ≡ ok prefix'
    → chunk_nonce prefix p.index p.final_chunk ≡ chunk_nonce prefix' q.index q.final_chunk
    → p ≡ q
unfolding chunk_nonce
chunk_nonce-separates p q nonce_len prefix prefix' hp hq made made' e =
    let is = nonce_prefix-eq-ok p.section_id nonce_len prefix made in
    let is' = nonce_prefix-eq-ok q.section_id nonce_len prefix' made' in
    let zeros : List ℕ = replicate (nonce_len - 5 - 2) 0 in
    let width : length prefix ≡ 2 + length zeros =
      rw is
        (omega (arith, length-append (to_le 2 p.section_id) zeros, length-to_le 2 p.section_id)) in
    let width' : length prefix' ≡ 2 + length zeros =
      rw is'
        (omega (arith, length-append (to_le 2 q.section_id) zeros, length-to_le 2 q.section_id)) in
    let (front, back) = field_injective prefix prefix' _ _ width width' e in
    let (index, flag) =
      field_injective (to_be 4 p.index) (to_be 4 q.index) _ _ (length-to_be 4 p.index)
        (length-to_be 4 q.index) back in
    let prefixes : to_le 2 p.section_id ++ zeros ≡ to_le 2 q.section_id ++ zeros = cc in
    let (section, _) =
      field_injective (to_le 2 p.section_id) (to_le 2 q.section_id) zeros zeros
        (length-to_le 2 p.section_id) (length-to_le 2 q.section_id) prefixes in
    Place-ext p q (to_le_injective 2 p.section_id q.section_id hp.section hq.section section)
      (to_be_injective 4 p.index q.index hp.chunk hq.chunk index)
      (final_byte_injective p.final_chunk q.final_chunk
        (head_injective (final_byte p.final_chunk) (final_byte q.final_chunk) flag))
