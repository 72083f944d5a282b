-- ===== src/ImageRef.antt =====
-- ctf-format/crates/ctf-format/src/policy.rs: references to container images. A `str` is its bytes.
pub mod Pinned
mod Tests
use sidequests.Common.{
  ℕ, List, [], ◌∷◌, Bool, true, false, not, ◌&&◌, ◌||◌, Option, none, some, length, leb, ◌==◌,
  if◌then◌else◌,
}
use sidequests.Outcome.{Outcome, ok, err, ◌>>=◌, ◌>>◌, fail_if, some_or}

pub data ImageRefError : Type 0 where
  empty : ImageRefError
  missing_digest : ImageRefError
  tagged : ImageRefError
  bad_digest : ImageRefError

abbrev pub at_sign : ℕ
at_sign = 64

abbrev pub colon : ℕ
colon = 58

abbrev pub slash : ℕ
slash = 47

-- "sha256:"
abbrev pub algorithm : List ℕ
algorithm = 115 ∷ 104 ∷ 97 ∷ 50 ∷ 53 ∷ 54 ∷ 58 ∷ []

unfoldable pub split_here : (c x : ℕ) → List ℕ → Option (List ℕ × List ℕ) → Option (List ℕ × List ℕ)
split_here c x xs (some (before, after)) = some (x ∷ before, after)
split_here c x xs none = if x == c then some ([], xs) else none

-- `rfind(c)`: what stands before and behind the last `c`.
unfoldable pub split_last : ℕ → List ℕ → Option (List ℕ × List ℕ)
unfolding split_here
split_last c [] = none
split_last c (x ∷ xs) = split_here c x xs (split_last c xs)

unfoldable pub strip_prefix : List ℕ → List ℕ → Option (List ℕ)
strip_prefix [] s = some s
strip_prefix (p ∷ ps) [] = none
strip_prefix (p ∷ ps) (x ∷ xs) = let rest = strip_prefix ps xs in if p == x then rest else none

unfoldable pub is_hex_digit : ℕ → Bool
is_hex_digit b = (leb 48 b && leb b 57) || (leb 97 b && leb b 102)

unfoldable pub all_hex_digits : List ℕ → Bool
all_hex_digits [] = true
all_hex_digits (b ∷ bs) = is_hex_digit b && all_hex_digits bs

unfoldable pub has_byte : ℕ → List ℕ → Bool
has_byte c [] = false
has_byte c (x ∷ xs) = x == c || has_byte c xs

unfoldable pub behind_split : List ℕ → Option (List ℕ × List ℕ) → List ℕ
behind_split name (some (before, after)) = after
behind_split name none = name

-- `name.rsplit('/').next()`
unfoldable pub last_segment : List ℕ → List ℕ
last_segment name = behind_split name (split_last slash name)

unfoldable pub check_image_ref : List ℕ → Outcome ImageRefError (Unit {0})
check_image_ref image = do
  fail_if (length image == 0) empty
  (name, digest) ← some_or (split_last at_sign image) missing_digest
  hex ← some_or (strip_prefix algorithm digest) missing_digest
  fail_if (not (length hex == 64) || not (all_hex_digits hex)) bad_digest
  fail_if (length name == 0) empty
  fail_if (has_byte colon (last_segment name)) tagged
  ok tt
