-- ===== src/Abi/Restores.antt =====
-- What the encoders write of an acceptable block is read back.
use sidequests.Common.{
  ℕ, ◌+◌, ◌≤◌, ◌<◌, ◌≡◌, refl, List, [], ◌∷◌, ◌++◌, append_assoc, append-nil, length, length-append,
  drop-append, All, true, false, arith, ltb, leb, ◌==◌, ==-false_of_ne,
}
use sidequests.Outcome.{ok}
use sidequests.Wire.{u32_at, to_le, length-to_le, uint_at-of_drop, slice-of_drop}
use sidequests.Utf8.{is_utf8}
use sidequests.Format.{u32_mod, u64_mod}
use sidequests.Abi.{
  Output, GeneratorOutput, read_u32, read_bytes, read_output, read_outputs, read_block, read_flag,
  decode_artifacts, decode_output, put_block, put_outputs, encode_artifacts, encode_output,
  max_outputs, max_output_name_len, max_flag_len,
}
use sidequests.Abi.RoundTrip.{IsAccepted, AllAccepted, IsBlock}

read_u32-to_le : (n : ℕ) (r : List ℕ) → n < u32_mod → read_u32 (to_le 4 n ++ r) ≡ ok (n, r)
unfolding read_u32 u32_at
read_u32-to_le n r small =
    let len = length-append (to_le 4 n) r in
    let width = length-to_le 4 n in
    let found = uint_at-of_drop (to_le 4 n ++ r) 0 4 r (omega arith) refl small in
    rw (found, drop-append (to_le 4 n) r width) refl

read_bytes-append : (s r : List ℕ) → read_bytes (length s) (s ++ r) ≡ ok (s, r)
unfolding read_bytes
read_bytes-append s r =
    let len = length-append s r in
    let found = slice-of_drop (s ++ r) 0 (length s) s r (omega arith) refl refl in
    rw (found, drop-append s r refl) refl

abbrev pub HasText : Output → Type 0
HasText o = is_utf8 o.name ≡ true

read_output-put_block :
    (most : ℕ) (names : List (List ℕ)) (total : ℕ) (o : Output) (r : List ℕ)
    → most < u32_mod
    → IsAccepted most names total o
    → HasText o
    → read_output most names total (put_block o.name ++ (put_block o.bytes ++ r)) ≡ ok (o, r)
unfolding read_output put_block
read_output-put_block most names total o r small a text =
    let tail = to_le 4 (length o.bytes) ++ (o.bytes ++ r) in
    let short = a.short_name in
    let fits = a.fits in
    let first = read_u32-to_le (length o.name) (o.name ++ tail) (omega arith) in
    let second = read_bytes-append o.name tail in
    let third = read_u32-to_le (length o.bytes) (o.bytes ++ r) (omega arith) in
    let fourth = read_bytes-append o.bytes r in
    let named : (length o.name == 0) ≡ false =
      ==-false_of_ne (length o.name) 0 (omega (arith, a.some_name)) in
    let narrow : ltb max_output_name_len (length o.name) ≡ false = ground arith in
    let sums : leb u64_mod (total + length o.bytes) ≡ false = ground arith in
    let under : ltb most (total + length o.bytes) ≡ false = ground arith in
    rw
      (
        append_assoc, append_assoc, first, named, narrow, second, text, a.new_name, third, sums,
        under, fourth,
      )
      refl

read_outputs-put_outputs :
    (most : ℕ) (names : List (List ℕ)) (total : ℕ) (os : List Output) (r : List ℕ)
    → most < u32_mod
    → AllAccepted most names total os
    → All HasText os
    → read_outputs most (length os) names total (put_outputs os ++ r) ≡ ok (os, r)
unfolding read_outputs put_outputs
read_outputs-put_outputs most names total [] r small h t = refl
read_outputs-put_outputs most names total (o ∷ os) r small (a, h) (text, t) =
    let first = read_output-put_block most names total o (put_outputs os ++ r) small a text in
    let later =
      read_outputs-put_outputs most (o.name ∷ names) (total + length o.bytes) os r small h t in
    rw (append_assoc, append_assoc, first, later) refl

read_block-encode_artifacts :
    (most : ℕ) (os : List Output) (r : List ℕ)
    → most < u32_mod
    → IsBlock most os
    → All HasText os
    → read_block most (encode_artifacts os ++ r) ≡ ok (os, r)
unfolding read_block encode_artifacts
read_block-encode_artifacts most os r small block texts =
    let count = block.count in
    let first = read_u32-to_le (length os) (put_outputs os ++ r) (omega arith) in
    let few : ltb max_outputs (length os) ≡ false = ground arith in
    let later = read_outputs-put_outputs most [] 0 os r small block.accepted texts in
    rw (append_assoc, first, few) later

-- Outputs that pass the tests of a block under a cap below 2 ^ 32, with UTF-8 names, are read back from
-- their artifact block.
decode_artifacts-encode_artifacts :
    (os : List Output) (most : ℕ)
    → most < u32_mod
    → IsBlock most os
    → All HasText os
    → decode_artifacts (encode_artifacts os) most ≡ ok os
unfolding decode_artifacts
decode_artifacts-encode_artifacts os most small block texts =
    let read = rw append-nil at (read_block-encode_artifacts most os [] small block texts) in
    rw read refl

read_flag-put_block :
    (most : ℕ) (flag r : List ℕ)
    → most < u32_mod
    → length flag ≤ most
    → is_utf8 flag ≡ true
    → read_flag most (put_block flag ++ r) ≡ ok (flag, r)
unfolding read_flag put_block
read_flag-put_block most flag r small short text =
    let first = read_u32-to_le (length flag) (flag ++ r) (omega arith) in
    let fits : ltb most (length flag) ≡ false = ground arith in
    rw (append_assoc, first, fits, read_bytes-append flag r, text) refl

-- A generator output whose outputs pass the tests of a block under a cap below 2 ^ 32, with UTF-8
-- names and a UTF-8 flag of at most 4096 bytes, is read back from its encoding.
decode_output-encode_output :
    (o : GeneratorOutput) (most : ℕ)
    → most < u32_mod
    → IsBlock most o.outputs
    → All HasText o.outputs
    → length o.flag ≤ max_flag_len
    → is_utf8 o.flag ≡ true
    → decode_output (encode_output o) most ≡ ok o
unfolding decode_output encode_output
decode_output-encode_output o most small block texts short text =
    let first = read_block-encode_artifacts most o.outputs (put_block o.flag) small block texts in
    let second =
      rw append-nil at (read_flag-put_block max_flag_len o.flag [] (omega arith) short text) in
    rw (first, second) refl
