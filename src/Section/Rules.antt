-- ===== src/Section/Rules.antt =====
-- What an accepted section record guarantees: the leak-prevention rules, the manifest's, the
-- chunking's, and how the two rule sets compare.
use sidequests.Common.{ℕ, ◌+◌, ◌%◌, ◌<◌, ◌≤◌, ◌≡◌, ◌≢◌, inl, inr, refl, List, true, false, arith}
use sidequests.Error.{ok}
use sidequests.Format.{
  header_len, payload_align, table_align, min_chunk_size, max_chunk_size, u64_mod,
}
use sidequests.Chunk.{chunk_count, div_ceil, is_power_of_two}
use sidequests.Kinds.{
  RuleSet, container, legacy, SectionKind, manifest, unknown, Encryption, Compression, plain,
  aead_stream, raw, validate_flags, kind_from_u16, kind_to_u16, is_sealed, is_player_visible,
  is_external, is_optional, must_be_sealed, max_known_kind,
}
use sidequests.Section.{
  SectionRecord, check_kind, check_codec, check_extent, check_lengths, check_chunking, check_index,
  parse_with, parse,
}
use sidequests.Section.Fields.{parse-Checked, parse-Read, parse-length}
use sidequests.Section.RoundTrip.{Read-parse}
use native.Mathlib.Nat.{eq-or-lt_of_le, div_self, mod_self, div-eq_of_lt}
use native.Mathlib.Decide.{dec_lt}

check_kind-sealed :
    (k : SectionKind) (f : ℕ)
    → check_kind k f ≡ ok tt
    → must_be_sealed k ≡ true
    → is_sealed f ≡ true
unfolding check_kind
check_kind-sealed k f e h = ground arith

validate_flags-exclusive :
    (f : ℕ) → validate_flags f ≡ ok tt → is_sealed f ≡ true → is_player_visible f ≡ false
unfolding validate_flags
validate_flags-exclusive f e h = ground arith

check_codec-sealed :
    (k : SectionKind) (f : ℕ) (enc : Encryption) (comp : Compression)
    → check_codec container k f enc comp ≡ ok tt
    → is_sealed f ≡ true
    → enc ≡ aead_stream
unfolding check_codec
check_codec-sealed k f enc comp e h = ground arith

check_lengths-inline :
    (f : ℕ) (enc : Encryption) (comp : Compression) (s p : ℕ)
    → check_lengths container f enc comp s p ≡ ok tt
    → enc ≡ aead_stream
    → is_external f ≡ false
unfolding check_lengths
check_lengths-inline f enc comp s p e h = ground arith

pub check_extent-inline :
    (f o l : ℕ)
    → check_extent f o l ≡ ok tt
    → is_external f ≡ false
    → (header_len ≤ o) × (o % payload_align ≡ 0) × (o + l < u64_mod)
unfolding check_extent
check_extent-inline f o l e h = ground arith

check_chunking-nonzero :
    (enc : Encryption) (p c i : ℕ) → check_chunking enc p c i ≡ ok tt → enc ≡ aead_stream → c ≢ 0
unfolding check_chunking
check_chunking-nonzero enc p c i e h = ground arith

-- A section of a kind that must be sealed, accepted under the container rules, has the SEALED flag, is
-- encrypted with a non-zero chunk size, is not player-visible, and is stored in the file, behind the
-- header.
pub sealed_kinds_protected :
    (b : List ℕ) (r : SectionRecord)
    → parse b ≡ ok r
    → must_be_sealed r.kind ≡ true
    → (is_sealed r.flags ≡ true)
      × (r.enc ≡ aead_stream)
      × (is_player_visible r.flags ≡ false)
      × (is_external r.flags ≡ false)
      × (header_len ≤ r.offset)
      × (r.chunk_size ≢ 0)
unfolding parse
sealed_kinds_protected b r e secret =
    let c = parse-Checked b container r e in
    let is_secret = check_kind-sealed r.kind r.flags c.kind secret in
    let encrypted = check_codec-sealed r.kind r.flags r.enc r.comp c.codec is_secret in
    let inline =
      check_lengths-inline r.flags r.enc r.comp r.len_stored r.len_plain c.lengths encrypted in
    (
      is_secret,
      encrypted,
      validate_flags-exclusive r.flags c.flags is_secret,
      inline,
      (check_extent-inline r.flags r.offset r.len_stored c.extent inline).0,
      check_chunking-nonzero r.enc r.len_plain r.chunk_size r.chunk_index_off c.chunking encrypted,
    )

check_kind-manifest :
    (k : SectionKind) (f : ℕ)
    → check_kind k f ≡ ok tt
    → k ≡ manifest
    → (is_sealed f ≡ false) × (is_player_visible f ≡ false) × (is_external f ≡ false)
unfolding check_kind
check_kind-manifest k f e h = ground arith

check_codec-manifest :
    (k : SectionKind) (f : ℕ) (enc : Encryption) (comp : Compression)
    → check_codec container k f enc comp ≡ ok tt
    → k ≡ manifest
    → (enc ≡ plain) × (comp ≡ raw)
unfolding check_codec
check_codec-manifest k f enc comp e h = ground arith

check_lengths-same :
    (f : ℕ) (enc : Encryption) (comp : Compression) (s p : ℕ)
    → check_lengths container f enc comp s p ≡ ok tt
    → enc ≡ plain
    → comp ≡ raw
    → is_external f ≡ false
    → s ≡ p
unfolding check_lengths
check_lengths-same f enc comp s p e he hc hf = ground arith

-- A manifest section that is accepted under the container rules is neither encrypted nor compressed,
-- is not sealed, player-visible or external, and its stored length is its plain length.
manifest_self_describing :
    (b : List ℕ) (r : SectionRecord)
    → parse b ≡ ok r
    → r.kind ≡ manifest
    → (r.enc ≡ plain)
      × (r.comp ≡ raw)
      × (is_sealed r.flags ≡ false)
      × (is_player_visible r.flags ≡ false)
      × (is_external r.flags ≡ false)
      × (r.len_stored ≡ r.len_plain)
unfolding parse
manifest_self_describing b r e m =
    let c = parse-Checked b container r e in
    let (open_flags, hidden, inline) = check_kind-manifest r.kind r.flags c.kind m in
    let (unencrypted, uncompressed) = check_codec-manifest r.kind r.flags r.enc r.comp c.codec m in
    (
      unencrypted,
      uncompressed,
      open_flags,
      hidden,
      inline,
      check_lengths-same r.flags r.enc r.comp r.len_stored r.len_plain c.lengths unencrypted
          uncompressed inline,
    )

div_ceil-small : (len size : ℕ) → 0 < size → len ≤ size → div_ceil len size ≤ 1
unfolding div_ceil
div_ceil-small len size pos h = elim (eq-or-lt_of_le h) [
  | inl same ↦ rw same (ground (arith, div_self pos, mod_self size))
  | inr less ↦ ground (arith, div-eq_of_lt less)
]

-- Two chunks or more, counted by rounding up, are more bytes than one chunk holds.
div_ceil-two : (len size : ℕ) → 0 < size → 2 ≤ div_ceil len size → size < len
div_ceil-two len size pos h = elim (dec_lt size len) [
  | yes more ↦ more
  | no few ↦ absurd (omega (arith, div_ceil-small len size pos (omega arith)))
]

check_index-facts :
    (p c i : ℕ)
    → check_index p c i ≡ ok tt
    → i ≢ 0
    → (c ≢ 0) × (2 ≤ div_ceil p c) × (header_len ≤ i) × (i % table_align ≡ 0)
unfolding check_index chunk_count
check_index-facts p c i e h = ground arith

check_chunking-facts :
    (enc : Encryption) (p c i : ℕ)
    → check_chunking enc p c i ≡ ok tt
    → c ≢ 0
    → (min_chunk_size ≤ c) × (c ≤ max_chunk_size) × (is_power_of_two c ≡ true)
unfolding check_chunking
check_chunking-facts enc p c i e h = ground arith

check_chunking-index :
    (enc : Encryption) (p c i : ℕ) → check_chunking enc p c i ≡ ok tt → check_index p c i ≡ ok tt
unfolding check_chunking
check_chunking-index enc p c i e = ground arith

-- Under either rule set, an accepted section with a chunk index has a chunk size that is a power of two
-- from 4 KiB to 64 MiB and less than the plain length, and its index is aligned and behind the header.
index_has_chunks :
    (b : List ℕ) (rules : RuleSet) (r : SectionRecord)
    → parse_with b rules ≡ ok r
    → r.chunk_index_off ≢ 0
    → (min_chunk_size ≤ r.chunk_size)
      × (r.chunk_size ≤ max_chunk_size)
      × (is_power_of_two r.chunk_size ≡ true)
      × (r.chunk_size < r.len_plain)
      × (header_len ≤ r.chunk_index_off)
      × (r.chunk_index_off % table_align ≡ 0)
index_has_chunks b rules r e index =
    let c = (parse-Checked b rules r e).chunking in
    let inner = check_chunking-index r.enc r.len_plain r.chunk_size r.chunk_index_off c in
    let (sized, two, behind, aligned) =
      check_index-facts r.len_plain r.chunk_size r.chunk_index_off inner index in
    let (low, high, pow) =
      check_chunking-facts r.enc r.len_plain r.chunk_size r.chunk_index_off c sized in
    (low, high, pow, div_ceil-two r.len_plain r.chunk_size (omega arith) two, behind, aligned)

-- Under either rule set, an accepted section of a kind that this version does not define has a number
-- above the known ones and the OPTIONAL flag.
unknown_kind_is_optional :
    (b : List ℕ) (rules : RuleSet) (r : SectionRecord) (v : ℕ)
    → parse_with b rules ≡ ok r
    → r.kind ≡ unknown v
    → (max_known_kind < v) × (is_optional r.flags ≡ true)
unfolding kind_from_u16 kind_to_u16
unknown_kind_is_optional b rules r v e k =
    let c = (parse-Checked b rules r e).kind_known in ground arith

-- The container rules only narrow: what they accept is accepted, as the same record, under the
-- legacy rules.
container_narrows :
    (b : List ℕ) (r : SectionRecord) → parse_with b container ≡ ok r → parse_with b legacy ≡ ok r
unfolding check_codec check_lengths
container_narrows b r e =
    let c = parse-Checked b container r e in
    let c3 = c.codec in
    let c5 = c.lengths in
    Read-parse b legacy r (parse-length b container r e) (parse-Read b container r e) (record {
      flags = c.flags;
      kind_known = c.kind_known;
      kind = c.kind;
      codec = refl;
      extent = c.extent;
      lengths = ground arith;
      chunking = c.chunking;
    })
