-- ===== src/Cbor/Head.antt =====
-- `head` reads exactly what `put_head` writes: every argument has one encoding.
use sidequests.Common.{
  ℕ, ◌*◌, ◌/◌, ◌<◌, ◌≡◌, sym, inl, inr, List, [], ◌∷◌, ◌++◌, length, take, drop, length-take,
  take-append-drop, All, All-append_inv, arith, Bool-cases, leb, ◌==◌, bit_and, bit_or, leb→le,
}
use sidequests.Common.Bits.{low_five, join_five}
use sidequests.Error.{ok, Result-cases}
use sidequests.Wire.{IsByte, to_be, from_be, to_be-from_be, from_be-lt, pow256}
use sidequests.Cbor.{byte, take_bytes, wide_argument, argument, head, put_head}

pub take_bytes-eq-ok :
    (n : ℕ) (b s rest : List ℕ) → take_bytes n b ≡ ok (s, rest) → (b ≡ s ++ rest) × (length s ≡ n)
unfolding take_bytes
take_bytes-eq-ok n b s rest e = elim (Bool-cases (leb n (length b))) [
  | inl enough ↦
      let front : take n b ≡ s = ground arith in
      let back : drop n b ≡ rest = ground arith in
      (
        sym (rw (front, back) at (take-append-drop n b)),
        rw (← front) (omega (arith, length-take n b, leb→le n (length b) enough)),
      )
  | inr short ↦ absurd (ground arith)
]

byte-eq-ok : (b : List ℕ) (v : ℕ) (rest : List ℕ) → byte b ≡ ok (v, rest) → b ≡ v ∷ rest
unfolding byte
byte-eq-ok [] v rest e = cc
byte-eq-ok (x ∷ xs) v rest e = ground arith

wide_argument-eq-ok :
    (width least : ℕ) (b : List ℕ) (v : ℕ) (rest : List ℕ)
    → All IsByte b
    → wide_argument width least b ≡ ok (v, rest)
    → (b ≡ to_be width v ++ rest) × (least < v) × (v < pow256 width) × All IsByte rest
unfolding wide_argument
wide_argument-eq-ok width least b v rest bytes e = elim (Result-cases (take_bytes width b)) [
  | inl ((s, r), took) ↦
      let (split, len) = take_bytes-eq-ok width b s r took in
      let (sb, rb) = All-append_inv IsByte s r (rw split at bytes) in
      let val : from_be s ≡ v = ground arith in
      let same : r ≡ rest = ground arith in
      let back : to_be width (from_be s) ≡ s = rw len at (to_be-from_be s sb) in
      let bound : from_be s < pow256 width = rw len at (from_be-lt s sb) in
      (rw (← val, back, ← same) split, ground arith, rw (← val) bound, rw (← same) rb)
  | inr (x, bad) ↦ absurd (ground arith)
]

argument-eq-ok :
    (major ai : ℕ) (b : List ℕ) (arg : ℕ) (rest : List ℕ)
    → All IsByte b
    → ai < 32
    → argument ai b ≡ ok (arg, rest)
    → (bit_or (major * 32) ai ∷ b ≡ put_head major arg ++ rest) × (arg < pow256 8) × All IsByte rest
unfolding argument put_head
argument-eq-ok major ai b arg rest bytes small e = elim (Bool-cases (leb ai 23)) [
  | inl inside ↦ ground arith
  | inr behind ↦ elim (Bool-cases (ai == 24)) [
    | inl one ↦ elim (Result-cases (byte b)) [
      | inl ((v, r), got) ↦
          let split = byte-eq-ok b v r got in
          let vb : All IsByte (v ∷ r) = rw split at bytes in ground arith
      | inr (x, bad) ↦ absurd (ground arith)
    ]
    | inr more ↦ elim (Bool-cases (ai == 25)) [
      | inl two ↦ let w = wide_argument-eq-ok 2 0xff b arg rest bytes (ground arith) in ground arith
      | inr more2 ↦ elim (Bool-cases (ai == 26)) [
        | inl four ↦
            let w = wide_argument-eq-ok 4 0xffff b arg rest bytes (ground arith) in ground arith
        | inr more3 ↦
            let w = wide_argument-eq-ok 8 0xffff_ffff b arg rest bytes (ground arith) in
            ground arith
      ]
    ]
  ]
]

-- What `head` accepts is what `put_head` writes.
pub head-eq-ok :
    (b : List ℕ) (major arg : ℕ) (rest : List ℕ)
    → All IsByte b
    → head b ≡ ok ((major, arg), rest)
    → (b ≡ put_head major arg ++ rest) × (major < 8) × (arg < pow256 8) × All IsByte rest
unfolding head byte
head-eq-ok [] major arg rest bytes e = cc
head-eq-ok (ib ∷ b) major arg rest (ib_byte, bytes) e =
    elim (Result-cases (argument (bit_and ib 0x1f) b)) [
      | inl ((a, r), got) ↦
          let low = low_five ib ib_byte in
          let (split, bound, rb) =
            argument-eq-ok (ib / 32) (bit_and ib 0x1f) b a r bytes (rw low (omega arith)) got in
          let whole : ib ∷ b ≡ put_head (ib / 32) a ++ r =
            rw (low, join_five ib ib_byte) at split in
          let same_major : ib / 32 ≡ major = ground arith in
          let same_arg : a ≡ arg = ground arith in
          let same_rest : r ≡ rest = ground arith in
          (
            rw (← same_major, ← same_arg, ← same_rest) whole,
            omega arith,
            rw (← same_arg) bound,
            rw (← same_rest) rb,
          )
      | inr (x, bad) ↦ absurd (ground arith)
    ]
