-- ===== src/ImageRef/Tests.antt =====
-- A reference with a registry's port and no tag, and the theorems about references at it.
use sidequests.Common.{ℕ, ◌≡◌, ◌↔◌, refl, List, [], ◌∷◌, ◌++◌, replicate, arith}
use sidequests.Outcome.{ok, err}
use sidequests.ImageRef.{
  at_sign, algorithm, split_here, split_last, strip_prefix, is_hex_digit, all_hex_digits, has_byte,
  behind_split, last_segment, check_image_ref, tagged,
}
use sidequests.ImageRef.Pinned.{IsPinned, check_image_ref-iff-IsPinned}

abbrev hex : List ℕ
hex = replicate 64 97

-- "r:5/a"
abbrev name : List ℕ
name = 114 ∷ 58 ∷ 53 ∷ 47 ∷ 97 ∷ []

abbrev image : List ℕ
image = name ++ (at_sign ∷ (algorithm ++ hex))

image_accepted : check_image_ref image ≡ ok tt
unfolding check_image_ref split_last split_here strip_prefix all_hex_digits is_hex_digit has_byte
    behind_split last_segment
image_accepted = refl

tag_refused : check_image_ref (97 ∷ 58 ∷ 49 ∷ (at_sign ∷ (algorithm ++ hex))) ≡ err tagged
unfolding check_image_ref split_last split_here strip_prefix all_hex_digits is_hex_digit has_byte
    behind_split last_segment
tag_refused = refl

image-IsPinned : IsPinned image
unfolding split_last split_here all_hex_digits is_hex_digit has_byte behind_split last_segment
image-IsPinned = record {
  name = name;
  hex = hex;
  image_is = refl;
  named = omega arith;
  digits = refl;
  lower_hex = refl;
  untagged = refl;
}

check_image_ref-iff-IsPinned_example : (check_image_ref image ≡ ok tt) ↔ IsPinned image
check_image_ref-iff-IsPinned_example = check_image_ref-iff-IsPinned image
