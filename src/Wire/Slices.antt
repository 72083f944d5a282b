-- ===== src/Wire/Slices.antt =====
-- `b.get(off..off + n)`, the readers of lib.rs, and writing into a buffer.
use mathlib.Core.Option
use sidequests.Common.{
  ℕ, zero, suc, ◌+◌, ◌≤◌, ◌≡◌, ◌∙◌, ap, sym, arith, List, [], ◌∷◌, ◌++◌, length, take, drop,
  length-take, length-drop, take-append, drop-append, take-append-drop, drop-drop, All, All-take,
  All-drop, Bool, true, false, Option-cases, inl, inr, ◌<◌, refl, replicate, ◌&&◌, Option, none,
  some, if◌then◌else◌, leb, ◌==◌,
}
use sidequests.Wire.Ints.{
  IsByte, from_le, to_le, pow256, to_le-from_le, from_le-lt, from_le-to_le, length-to_le,
}

unfoldable pub slice : List ℕ → ℕ → ℕ → Option (List ℕ)
slice b off n = if leb (off + n) (length b) then some (take n (drop off b)) else none

unfoldable pub u16_at : List ℕ → ℕ → Option ℕ
u16_at b off = Option.map from_le (slice b off 2)

unfoldable pub u32_at : List ℕ → ℕ → Option ℕ
u32_at b off = Option.map from_le (slice b off 4)

unfoldable pub u64_at : List ℕ → ℕ → Option ℕ
u64_at b off = Option.map from_le (slice b off 8)

-- `b.get(i)`
unfoldable pub u8_at : List ℕ → ℕ → Option ℕ
u8_at [] i = none
u8_at (x ∷ xs) zero = some x
u8_at (x ∷ xs) (suc i) = u8_at xs i

-- `iter().all(|&x| x == 0)`
unfoldable pub all_zero_bytes : List ℕ → Bool
all_zero_bytes [] = true
all_zero_bytes (x ∷ xs) = x == 0 && all_zero_bytes xs

unfoldable pub all_zero : List ℕ → ℕ → ℕ → Option Bool
all_zero b off n = Option.map all_zero_bytes (slice b off n)

-- `if let Some(dst) = b.get_mut(off..off + src.len()) { dst.copy_from_slice(src) }`
unfoldable pub put : ℕ → List ℕ → List ℕ → List ℕ
put off src b =
    if leb (off + length src) (length b)
    then take off b ++ (src ++ drop (off + length src) b)
    else b

pub slice-some :
    (b : List ℕ) (off n : ℕ) → off + n ≤ length b → slice b off n ≡ some (take n (drop off b))
unfolding slice
slice-some b off n h = ground arith

pub slice-eq-some :
    (b : List ℕ) (off n : ℕ) {s : List ℕ}
    → slice b off n ≡ some s
    → (off + n ≤ length b) × (s ≡ take n (drop off b))
unfolding slice
slice-eq-some b off n h = ground arith

pub length-slice : (b : List ℕ) (off n : ℕ) {s : List ℕ} → slice b off n ≡ some s → length s ≡ n
length-slice b off n {s} h =
    let (fits, e) = slice-eq-some b off n h in
    rw e (omega (arith, length-take n (drop off b), length-drop off b))

-- What a slice read, with what follows it, is the rest of the buffer from its start.
pub drop-slice :
    (b : List ℕ) (off n : ℕ) {s : List ℕ}
    → slice b off n ≡ some s
    → drop off b ≡ s ++ drop (off + n) b
drop-slice b off n {s} h =
    let (fits, e) = slice-eq-some b off n h in
    rw (e, ← drop-drop off n b) (sym (take-append-drop n (drop off b)))

pub slice-IsByte :
    (b : List ℕ) (off n : ℕ) {s : List ℕ} → All IsByte b → slice b off n ≡ some s → All IsByte s
slice-IsByte b off n {s} bytes h =
    let (fits, e) = slice-eq-some b off n h in
    rw e (All-take IsByte n (drop off b) (All-drop IsByte off b bytes))

-- `==` on byte strings
unfoldable pub bytes_eq : List ℕ → List ℕ → Bool
bytes_eq [] [] = true
bytes_eq (x ∷ xs) (y ∷ ys) = x == y && bytes_eq xs ys
bytes_eq _ _ = false

pub bytes_eq→eq : (xs ys : List ℕ) → bytes_eq xs ys ≡ true → xs ≡ ys
unfolding bytes_eq
bytes_eq→eq [] [] h = refl
bytes_eq→eq [] (y ∷ ys) h = cc
bytes_eq→eq (x ∷ xs) [] h = cc
bytes_eq→eq (x ∷ xs) (y ∷ ys) h = ground (arith, bytes_eq→eq xs ys)

pub bytes_eq_refl : (xs : List ℕ) → bytes_eq xs xs ≡ true
unfolding bytes_eq
bytes_eq_refl [] = refl
bytes_eq_refl (x ∷ xs) = ground (arith, bytes_eq_refl xs)

pub all_zero_bytes→eq : (xs : List ℕ) → all_zero_bytes xs ≡ true → xs ≡ replicate (length xs) 0
unfolding all_zero_bytes
all_zero_bytes→eq [] h = refl
all_zero_bytes→eq (x ∷ xs) h = ground (arith, all_zero_bytes→eq xs)

-- A little-endian read of `n` bytes, the common form of `u16_at`, `u32_at` and `u64_at`.
pub uint_at-eq-some :
    (b : List ℕ) (off n : ℕ) {v : ℕ}
    → All IsByte b
    → Option.map from_le (slice b off n) ≡ some v
    → (drop off b ≡ to_le n v ++ drop (off + n) b) × (v < pow256 n)
uint_at-eq-some b off n {v} bytes h = elim (Option-cases (slice b off n)) [
  | inl missing ↦ absurd (ground arith)
  | inr (s, found) ↦
      let len : length s ≡ n = length-slice b off n found in
      let sb : All IsByte s = slice-IsByte b off n bytes found in
      let val : v ≡ from_le s = ground arith in
      let back : to_le n (from_le s) ≡ s = rw len at (to_le-from_le s sb) in
      (rw (val, back) (drop-slice b off n found), rw val (rw len at (from_le-lt s sb)))
]

pub all_zero-eq-true :
    (b : List ℕ) (off n : ℕ)
    → all_zero b off n ≡ some true
    → drop off b ≡ replicate n 0 ++ drop (off + n) b
unfolding all_zero
all_zero-eq-true b off n h = elim (Option-cases (slice b off n)) [
  | inl missing ↦ absurd (ground arith)
  | inr (s, found) ↦
      let zeros : s ≡ replicate (length s) 0 = all_zero_bytes→eq s (ground arith) in
      let same : s ≡ replicate n 0 = rw (length-slice b off n found) at zeros in
      rw same at (drop-slice b off n found)
]

pub field_then : {xs ys zs : List ℕ} (s : List ℕ) → xs ≡ s ++ ys → ys ≡ zs → xs ≡ s ++ zs
field_then s e f = e ∙ ap (λ (t : List ℕ). s ++ t) f

pub uint_at-some :
    (b : List ℕ) (off n : ℕ) {v : ℕ}
    → off + n ≤ length b
    → take n (drop off b) ≡ to_le n v
    → v < pow256 n
    → Option.map from_le (slice b off n) ≡ some v
uint_at-some b off n {v} fits found bound =
    rw (slice-some b off n fits, found) (ap some (from_le-to_le n v bound))

pub u8_at-eq-some :
    (b : List ℕ) (i : ℕ) {v : ℕ} → u8_at b i ≡ some v → drop i b ≡ v ∷ drop (suc i) b
unfolding u8_at
u8_at-eq-some [] i h = cc
u8_at-eq-some (x ∷ xs) zero h = cc
u8_at-eq-some (x ∷ xs) (suc i) h = u8_at-eq-some xs i h

pub u8_at-drop : (b : List ℕ) (n i : ℕ) → u8_at (drop n b) i ≡ u8_at b (n + i)
unfolding u8_at
u8_at-drop b zero i = rw Prim.Native.Nat.add.zero
u8_at-drop [] (suc n) i = refl
u8_at-drop (x ∷ xs) (suc n) i = rw Prim.Native.Nat.add.suc (u8_at-drop xs n i)

pub u8_at-take : (b : List ℕ) (n i : ℕ) → i < n → u8_at (take n b) i ≡ u8_at b i
unfolding u8_at
u8_at-take b zero i h = absurd (omega arith)
u8_at-take [] (suc n) i h = refl
u8_at-take (x ∷ xs) (suc n) zero h = refl
u8_at-take (x ∷ xs) (suc n) (suc i) h = u8_at-take xs n i (omega arith)

-- A byte of a slice is a byte of the buffer.
pub slice-u8_at :
    (b : List ℕ) (off n i : ℕ) {s : List ℕ}
    → slice b off n ≡ some s
    → i < n
    → u8_at b (off + i) ≡ u8_at s i
slice-u8_at b off n i h lt =
    let (fits, e) = slice-eq-some b off n h in
    rw (e, u8_at-take (drop off b) n i lt) (sym (u8_at-drop b off i))

-- A field whose place in the buffer is known.
pub drop_then :
    (b : List ℕ) (off n : ℕ) (s post : List ℕ)
    → drop off b ≡ s ++ post
    → length s ≡ n
    → drop (off + n) b ≡ post
drop_then b off n s post e len = rw (← drop-drop off n b, e) (drop-append s post len)

pub slice-of_drop :
    (b : List ℕ) (off n : ℕ) (s post : List ℕ)
    → off + n ≤ length b
    → drop off b ≡ s ++ post
    → length s ≡ n
    → slice b off n ≡ some s
slice-of_drop b off n s post fits e len =
    rw (slice-some b off n fits, e) (ap some (take-append s post len))

pub uint_at-of_drop :
    (b : List ℕ) (off n : ℕ) {v : ℕ} (post : List ℕ)
    → off + n ≤ length b
    → drop off b ≡ to_le n v ++ post
    → v < pow256 n
    → Option.map from_le (slice b off n) ≡ some v
uint_at-of_drop b off n {v} post fits e bound =
    rw (slice-of_drop b off n (to_le n v) post fits e (length-to_le n v))
      (ap some (from_le-to_le n v bound))
