-- ===== src/Derive/Symbols.antt =====
-- A derived flag has as many symbols as its bytes ask for, all of the alphabet.
use sidequests.Common.{
  ℕ, zero, suc, ◌+◌, ◌-◌, ◌*◌, ◌/◌, ◌%◌, ◌≤◌, ◌≡◌, refl, ap, ◌∙◌, inl, inr, List, [], ◌∷◌, length,
  length-append, length-take, true, false, Bool-cases, ltb, leb, min, max, bit_and, bit_or, arith,
}
use sidequests.Common.Bits.{pow2}
use sidequests.Format.{u32_mod}
use sidequests.Derive.{
  flag_label, symbol, emit, low_bits, base32_from, base32_lower, truncated_tag, flag_with_bytes,
  flag, flag_bytes,
}

emit-more :
    (fuel buffer bits : ℕ)
    → leb 5 bits ≡ true
    → emit (suc fuel) buffer bits ≡ (
      symbol (bit_and (buffer / pow2 (bits - 5)) 0x1f) ∷ (emit fuel buffer (bits - 5)).0,
      (emit fuel buffer (bits - 5)).1,
    )
unfolding emit
emit-more fuel buffer bits h = rw h refl

emit-done : (fuel buffer bits : ℕ) → leb 5 bits ≡ false → emit (suc fuel) buffer bits ≡ ([], bits)
unfolding emit
emit-done fuel buffer bits h = rw h refl

emit-counts :
    (fuel buffer bits : ℕ)
    → bits ≤ fuel
    → (length (emit fuel buffer bits).0 ≡ bits / 5) × ((emit fuel buffer bits).1 ≡ bits % 5)
emit-counts zero buffer bits h = unfold emit in (omega arith, omega arith)
emit-counts (suc fuel) buffer bits h = elim (Bool-cases (leb 5 bits)) [
  | inl more ↦
      let five : 5 ≤ bits = ground arith in
      let (count, left) = emit-counts fuel buffer (bits - 5) (omega arith) in
      rw (emit-more fuel buffer bits more) (omega (arith, count), omega (arith, left))
  | inr done ↦
      let few : bits ≤ 4 = ground arith in
      rw (emit-done fuel buffer bits done) (omega arith, omega arith)
]

base32_from-length :
    (buffer bits : ℕ) (bytes : List ℕ)
    → bits ≤ 4
    → length (base32_from buffer bits bytes) ≡ (8 * length bytes + bits + 4) / 5
unfolding base32_from
base32_from-length buffer bits [] h = elim (Bool-cases (ltb 0 bits)) [
  | inl some_left ↦ rw some_left (ground arith)
  | inr none_left ↦ rw none_left (ground arith)
]
base32_from-length buffer bits (byte ∷ rest) h =
    let buffer' = bit_or (buffer * 256 % u32_mod) byte in
    let emitted = emit (bits + 8) buffer' (bits + 8) in
    let (count, left) = emit-counts (bits + 8) buffer' (bits + 8) (omega arith) in
    let later = base32_from-length (low_bits buffer' emitted.1) emitted.1 rest (omega arith) in
    let whole = length-append emitted.0 (base32_from (low_bits buffer' emitted.1) emitted.1 rest) in
    omega arith

truncated_tag-length :
    (tag : List ℕ) (bytes : ℕ)
    → length tag ≡ 32
    → length (truncated_tag tag bytes) ≡ min (max bytes 1) 32
unfolding truncated_tag
truncated_tag-length tag bytes h =
    let n : ℕ = min (max bytes 1) 32 in
    let small : n ≤ 32 = omega arith in
    let fits : leb n (length tag) ≡ true = ground (arith, small) in
    rw fits (omega (arith, length-take n tag))

-- A flag of a 32-byte tag has ⌈8 n / 5⌉ symbols, where n is the number of bytes asked for, from 1 to 32; by
-- default it has 16.
flag_with_bytes-length :
    (hmac : List ℕ → List ℕ → List ℕ) (seed : List ℕ) (bytes : ℕ)
    → length (hmac seed flag_label) ≡ 32
    → (length (flag_with_bytes hmac seed bytes) ≡ (8 * min (max bytes 1) 32 + 4) / 5)
      × (length (flag hmac seed) ≡ 16)
unfolding flag_with_bytes flag base32_lower
flag_with_bytes-length hmac seed bytes tag = (
  base32_from-length 0 0 (truncated_tag (hmac seed flag_label) bytes) (omega arith)
      ∙ ap (λ (m : ℕ). (8 * m + 0 + 4) / 5) (truncated_tag-length (hmac seed flag_label) bytes tag)
      ∙ omega arith,
  base32_from-length 0 0 (truncated_tag (hmac seed flag_label) flag_bytes) (omega arith)
      ∙ ap (λ (m : ℕ). (8 * m + 0 + 4) / 5)
          (truncated_tag-length (hmac seed flag_label) flag_bytes tag),
)
