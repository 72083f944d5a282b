-- ===== src/Kinds.antt =====
-- ctf-format/crates/ctf-format/src/section.rs: section kinds, codecs, flags and rule sets.
use sidequests.Common.{
  ℕ, ◌+◌, Bool, true, false, not, ◌&&◌, Option, none, some, ltb, ◌==◌, if◌then◌else◌, bit_and,
}
use sidequests.Error.{
  Result, ok, err, ◌>>◌, refuse_if, unknown_flag_bits, inconsistent, invalid_section_kind,
  unknown_discriminant,
}
use sidequests.Format.{and_not_u16, feat_ro_compat_container_v1}
use sidequests.Header.{Header}

abbrev pub sealed_bit : ℕ
sealed_bit = 1

abbrev pub player_visible_bit : ℕ
player_visible_bit = 2

abbrev pub external_bit : ℕ
external_bit = 4

abbrev pub optional_bit : ℕ
optional_bit = 8

abbrev pub known_flags : ℕ
known_flags = sealed_bit + player_visible_bit + external_bit + optional_bit

-- A `SectionFlags` is its number.
unfoldable pub contains : ℕ → ℕ → Bool
contains flags bit = not (bit_and flags bit == 0)

abbrev pub is_sealed : ℕ → Bool
is_sealed flags = contains flags sealed_bit

abbrev pub is_player_visible : ℕ → Bool
is_player_visible flags = contains flags player_visible_bit

abbrev pub is_external : ℕ → Bool
is_external flags = contains flags external_bit

abbrev pub is_optional : ℕ → Bool
is_optional flags = contains flags optional_bit

unfoldable pub validate_flags : ℕ → Result (Unit {0})
validate_flags flags = do
  refuse_if (not (and_not_u16 flags known_flags == 0))
      (unknown_flag_bits "section.flags" (and_not_u16 flags known_flags))
  refuse_if (is_sealed flags && is_player_visible flags)
      (inconsistent "section is both SEALED and PLAYER_VISIBLE")
  ok tt

pub data SectionKind : Type 0 where
  manifest artifact generator solver writeup entitlement keys progress : SectionKind
  unknown : ℕ → SectionKind

abbrev pub max_known_kind : ℕ
max_known_kind = 8

unfoldable pub kind_from_u16 : ℕ → ℕ → Result SectionKind
kind_from_u16 v flags =
    if v == 1
    then ok manifest
    else if v == 2
    then ok artifact
    else if v == 3
    then ok generator
    else if v == 4
    then ok solver
    else if v == 5
    then ok writeup
    else if v == 6
    then ok entitlement
    else if v == 7
    then ok keys
    else if v == 8
    then ok progress
    else if ltb max_known_kind v && is_optional flags
    then ok (unknown v)
    else err (invalid_section_kind v)

-- `SectionKind::unknown`, the one door to a kind that this version does not define.
unfoldable pub unknown_kind : ℕ → Option SectionKind
unknown_kind v = if ltb max_known_kind v then some (unknown v) else none

unfoldable pub kind_to_u16 : SectionKind → ℕ
kind_to_u16 manifest = 1
kind_to_u16 artifact = 2
kind_to_u16 generator = 3
kind_to_u16 solver = 4
kind_to_u16 writeup = 5
kind_to_u16 entitlement = 6
kind_to_u16 keys = 7
kind_to_u16 progress = 8
kind_to_u16 (unknown v) = v

unfoldable pub is_known : SectionKind → Bool
is_known (unknown v) = false
is_known _ = true

abbrev pub is_manifest : SectionKind → Bool
is_manifest manifest = true
is_manifest _ = false

-- Kinds that must never be readable during the event.
abbrev pub must_be_sealed : SectionKind → Bool
must_be_sealed solver = true
must_be_sealed writeup = true
must_be_sealed progress = true
must_be_sealed _ = false

pub data Encryption : Type 0 where
  plain aead_stream : Encryption

unfoldable pub enc_from_u8 : ℕ → Result Encryption
enc_from_u8 v =
    if v == 0
    then ok plain
    else if v == 1
    then ok aead_stream
    else err (unknown_discriminant "section.enc" v)

-- `self.enc as u8`
unfoldable pub enc_to_u8 : Encryption → ℕ
enc_to_u8 plain = 0
enc_to_u8 aead_stream = 1

abbrev pub is_plain : Encryption → Bool
is_plain plain = true
is_plain aead_stream = false

pub data Compression : Type 0 where
  raw zstd : Compression

unfoldable pub comp_from_u8 : ℕ → Result Compression
comp_from_u8 v =
    if v == 0
    then ok raw
    else if v == 1
    then ok zstd
    else err (unknown_discriminant "section.comp" v)

unfoldable pub comp_to_u8 : Compression → ℕ
comp_to_u8 raw = 0
comp_to_u8 zstd = 1

abbrev pub is_raw : Compression → Bool
is_raw raw = true
is_raw zstd = false

-- Which version's rules a file is read under.
pub data RuleSet : Type 0 where
  container legacy : RuleSet

abbrev pub is_container : RuleSet → Bool
is_container container = true
is_container legacy = false

unfoldable pub rules_of : Header → RuleSet
rules_of header =
    if bit_and header.feat_ro_compat feat_ro_compat_container_v1 == 0 then legacy else container
