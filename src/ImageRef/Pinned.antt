-- ===== src/ImageRef/Pinned.antt =====
-- `check_image_ref` accepts exactly the references that are pinned to a digest and carry no tag.
use sidequests.Common.{
  ℕ, ◌≡◌, ◌≢◌, ◌↔◌, refl, ap, inl, inr, List, [], ◌∷◌, ◌++◌, length, length-append, All, All-append,
  true, false, Bool-cases, none, some, Option-cases, ◌==◌, ==→eq, ==-false_of_ne, arith,
}
use sidequests.Outcome.{ok}
use sidequests.ImageRef.{
  at_sign, colon, algorithm, split_here, split_last, strip_prefix, is_hex_digit, all_hex_digits,
  has_byte, last_segment, check_image_ref,
}

-- A name, `@sha256:`, and 64 lower-case hex digits; the name's last segment has no colon.
pub record IsPinned (image : List ℕ) : Type 0 where
  pub name : List ℕ
  pub hex : List ℕ
  pub image_is : image ≡ name ++ (at_sign ∷ (algorithm ++ hex))
  pub named : length name ≢ 0
  pub digits : length hex ≡ 64
  pub lower_hex : all_hex_digits hex ≡ true
  pub untagged : has_byte colon (last_segment name) ≡ false

split_last-eq-some : (c : ℕ) (xs a b : List ℕ) → split_last c xs ≡ some (a, b) → xs ≡ a ++ (c ∷ b)
unfolding split_last split_here
split_last-eq-some c [] a b e = cc
split_last-eq-some c (x ∷ xs) a b e = elim (Option-cases (split_last c xs)) [
  | inr ((a', b'), later) ↦
      let front : x ∷ a' ≡ a = ground arith in
      let back : b' ≡ b = ground arith in
      rw (← front, ← back) (ap (λ (t : List ℕ). x ∷ t) (split_last-eq-some c xs a' b' later))
  | inl missing ↦ elim (Bool-cases (x == c)) [
    | inl here ↦
        let front : [] ≡ a = ground arith in
        let back : xs ≡ b = ground arith in rw (← front, ← back, ==→eq x c here) refl
    | inr other ↦ absurd (ground arith)
  ]
]

split_last-none : (c : ℕ) (xs : List ℕ) → All (λ x. x ≢ c) xs → split_last c xs ≡ none
unfolding split_last split_here
split_last-none c [] h = refl
split_last-none c (x ∷ xs) (ne, h) = rw (split_last-none c xs h, ==-false_of_ne x c ne) refl

split_last-append :
    (c : ℕ) (a b : List ℕ) → All (λ x. x ≢ c) b → split_last c (a ++ (c ∷ b)) ≡ some (a, b)
unfolding split_last split_here
split_last-append c [] b h =
    let here : (c == c) ≡ true = ground arith in rw (split_last-none c b h, here) refl
split_last-append c (x ∷ a) b h = rw (split_last-append c a b h) refl

strip_prefix-eq-some : (p s r : List ℕ) → strip_prefix p s ≡ some r → s ≡ p ++ r
unfolding strip_prefix
strip_prefix-eq-some [] s r e = cc
strip_prefix-eq-some (p ∷ ps) [] r e = cc
strip_prefix-eq-some (p ∷ ps) (x ∷ xs) r e = elim (Bool-cases (p == x)) [
  | inl same ↦
      let rest = strip_prefix-eq-some ps xs r (ground arith) in
      rw (==→eq p x same) (ap (λ (t : List ℕ). x ∷ t) rest)
  | inr other ↦ absurd (ground arith)
]

strip_prefix-append : (p r : List ℕ) → strip_prefix p (p ++ r) ≡ some r
unfolding strip_prefix
strip_prefix-append [] r = refl
strip_prefix-append (p ∷ ps) r =
    let here : (p == p) ≡ true = ground arith in rw here (strip_prefix-append ps r)

hex-no_at : (hex : List ℕ) → all_hex_digits hex ≡ true → All (λ x. x ≢ at_sign) hex
unfolding all_hex_digits is_hex_digit
hex-no_at [] h = tt
hex-no_at (x ∷ xs) h = (ground arith, hex-no_at xs (ground arith))

check_image_ref-IsPinned : (image : List ℕ) → check_image_ref image ≡ ok tt → IsPinned image
unfolding check_image_ref
check_image_ref-IsPinned image e = elim (Option-cases (split_last at_sign image)) [
  | inl missing ↦ absurd (ground arith)
  | inr ((name, digest), found) ↦ elim (Option-cases (strip_prefix algorithm digest)) [
    | inl missing ↦ absurd (ground arith)
    | inr (hex, stripped) ↦
        let split = split_last-eq-some at_sign image name digest found in
        let pre = strip_prefix-eq-some algorithm digest hex stripped in
        record {
          name = name;
          hex = hex;
          image_is = rw pre at split;
          named = ground arith;
          digits = ground arith;
          lower_hex = ground arith;
          untagged = ground arith;
        }
  ]
]

IsPinned-check_image_ref : (image : List ℕ) → IsPinned image → check_image_ref image ≡ ok tt
unfolding check_image_ref
IsPinned-check_image_ref image p =
    let name = p.name in
    let hex = p.hex in
    let free : All (λ x. x ≢ at_sign) (algorithm ++ hex) =
      All-append (λ x. x ≢ at_sign) algorithm hex (omega arith) (hex-no_at hex p.lower_hex) in
    let found = split_last-append at_sign name (algorithm ++ hex) free in
    let stripped = strip_prefix-append algorithm hex in
    let size = length-append name (at_sign ∷ (algorithm ++ hex)) in
    let some_bytes : (length (name ++ (at_sign ∷ (algorithm ++ hex))) == 0) ≡ false =
      ground arith in
    let named : (length name == 0) ≡ false = ==-false_of_ne (length name) 0 p.named in
    rw (p.image_is, some_bytes, found, stripped, p.digits, p.lower_hex, named, p.untagged) refl

-- An image reference is accepted exactly when it is pinned: a name, `@sha256:` and 64 lower-case hex
-- digits, with no colon in the last segment of the name.
pub check_image_ref-iff-IsPinned :
    (image : List ℕ) → (check_image_ref image ≡ ok tt) ↔ IsPinned image
check_image_ref-iff-IsPinned image =
    (check_image_ref-IsPinned image, IsPinned-check_image_ref image)
