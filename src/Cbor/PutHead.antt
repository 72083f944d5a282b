-- ===== src/Cbor/PutHead.antt =====
-- A head is read back from the bytes that `put_head` writes.
use sidequests.Common.{
  ℕ, ◌+◌, ◌*◌, ◌/◌, ◌%◌, ◌<◌, ◌≡◌, refl, ◌∙◌, List, ◌∷◌, ◌++◌, length, length-append, take-append,
  drop-append, true, false, Bool-cases, inl, inr, arith, leb, bit_and, bit_or,
}
use sidequests.Common.Bits.{low_five, join_five}
use sidequests.Error.{ok}
use sidequests.Wire.{to_be, from_be-to_be, length-to_be, pow256}
use sidequests.Format.{u64_mod}
use sidequests.Cbor.{put_head, take_bytes, wide_argument, argument, byte, head}

-- The initial byte of a head.
join_head : (m a : ℕ) → m < 8 → a < 32 → bit_or (m * 32) a ≡ m * 32 + a
join_head m a hm ha =
    let joined = join_five (m * 32 + a) (omega arith) in
    let high : (m * 32 + a) / 32 ≡ m = omega arith in
    let low : (m * 32 + a) % 32 ≡ a = omega arith in rw (high, low) at joined

low_of_head : (m a : ℕ) → m < 8 → a < 32 → bit_and (m * 32 + a) 0x1f ≡ a
low_of_head m a hm ha = low_five (m * 32 + a) (omega arith) ∙ omega arith

pub take_bytes-append :
    (n : ℕ) (s rest : List ℕ) → length s ≡ n → take_bytes n (s ++ rest) ≡ ok (s, rest)
unfolding take_bytes
take_bytes-append n s rest len =
    let whole = length-append s rest in
    let fits : leb n (length (s ++ rest)) ≡ true = ground arith in
    rw (fits, take-append s rest len, drop-append s rest len) refl

wide_argument-to_be :
    (width least a : ℕ) (rest : List ℕ)
    → least < a
    → a < pow256 width
    → wide_argument width least (to_be width a ++ rest) ≡ ok (a, rest)
unfolding wide_argument
wide_argument-to_be width least a rest more fits =
    let big : leb a least ≡ false = ground arith in
    rw
      (
        take_bytes-append width (to_be width a) rest (length-to_be width a),
        from_be-to_be width a fits,
        big,
      )
      refl

head-of_byte :
    (m ai arg : ℕ) (b rest : List ℕ)
    → m < 8
    → ai < 32
    → argument ai b ≡ ok (arg, rest)
    → head (bit_or (m * 32) ai ∷ b) ≡ ok ((m, arg), rest)
unfolding head byte
head-of_byte m ai arg b rest hm ha read =
    let high : (m * 32 + ai) / 32 ≡ m = omega arith in
    rw (join_head m ai hm ha, low_of_head m ai hm ha, read, high) refl

one_byte : (arg : ℕ) (rest : List ℕ) → 23 < arg → argument 24 (arg ∷ rest) ≡ ok (arg, rest)
unfolding argument byte
one_byte arg rest more = ground arith

pub head-put_head :
    (m arg : ℕ) (rest : List ℕ)
    → m < 8
    → arg < u64_mod
    → head (put_head m arg ++ rest) ≡ ok ((m, arg), rest)
unfolding put_head
head-put_head m arg rest hm small = elim (Bool-cases (leb arg 23)) [
  | inl tiny ↦
      rw tiny (head-of_byte m arg arg rest rest hm (ground arith) (unfold argument in ground arith))
  | inr more ↦ elim (Bool-cases (leb arg 0xff)) [
    | inl one ↦
        let same : arg % 256 ≡ arg = ground arith in
        rw (more, one, same)
          (head-of_byte m 24 arg (arg ∷ rest) rest hm (omega arith)
            (one_byte arg rest (ground arith)))
    | inr more2 ↦ elim (Bool-cases (leb arg 0xffff)) [
      | inl two ↦
          rw (more, more2, two)
            (head-of_byte m 25 arg (to_be 2 arg ++ rest) rest hm (omega arith) (
              unfold argument in wide_argument-to_be 2 0xff arg rest (ground arith) (ground arith)))
      | inr more4 ↦ elim (Bool-cases (leb arg 0xffff_ffff)) [
        | inl four ↦
            rw (more, more2, more4, four)
              (head-of_byte m 26 arg (to_be 4 arg ++ rest) rest hm (omega arith) (
                unfold argument in
                wide_argument-to_be 4 0xffff arg rest (ground arith) (ground arith)))
        | inr eight ↦
            rw (more, more2, more4, eight)
              (head-of_byte m 27 arg (to_be 8 arg ++ rest) rest hm (omega arith) (
                unfold argument in
                wide_argument-to_be 8 0xffff_ffff arg rest (ground arith) (omega arith)))
      ]
    ]
  ]
]
