-- ===== src/Bundle/Authored/Tests.antt =====
-- A bundle of one manifest section, written, signed and read back; and the theorem about what is written.
use sidequests.Common.{ℕ, ◌≡◌, refl, List, [], ◌∷◌, ◌++◌, none, some, All, replicate, arith}
use sidequests.Error.{ok}
use sidequests.Wire.{IsByte}
use sidequests.Kinds.{manifest, plain, raw, is_known, is_sealed}
use sidequests.Section.{SectionRecord}
use sidequests.Compress.{Zstd}
use sidequests.Crypto.Samples.{sample_crates}
use sidequests.Bundle.{Bundle, parse, verified_bytes}
use sidequests.Bundle.Sections.{section_bytes, verify_inline_sections, VerifyReport}
use sidequests.Bundle.Trusted.{IsTrusted}
use sidequests.Footer.{commitment_root}
use sidequests.Footer.{Footer}
use sidequests.Header.{Header}
use sidequests.Layout.Table
use sidequests.Common.{zero, suc, All-append}
use sidequests.Header
use sidequests.Footer
use sidequests.Layout
use sidequests.Section
use sidequests.Kinds
use sidequests.Manifest.Decode.{Manifest}
use sidequests.Manifest.Decode
use sidequests.Manifest.Shape
use sidequests.Manifest.Readers
use sidequests.Manifest.Against
use sidequests.Cbor.Access
use sidequests.Utf8
use sidequests.Chunk.Index
use sidequests.Bundle
use sidequests.Bundle.Sections
use sidequests.Cbor
use sidequests.Crypto.Registry.{find_suite, suite, signature_of}
use sidequests.Wire.{
  slice, u16_at, u32_at, u64_at, bytes_eq, from_be, from_le, all_zero, all_zero_bytes, u8_at,
}
use sidequests.Common.Sort.{sort, insert}
use sidequests.Bundle.Sections
use sidequests.Bundle.Writer
use sidequests.Bundle.Writer.{SectionSpec, Random, inline_spec}
use sidequests.Bundle.Write
use sidequests.Bundle.Write.{write_bundle}
use sidequests.Bundle.Signed
use sidequests.Bundle.Signed.{sign_bundle, write_signed_bundle}
use sidequests.Bundle.Authored.{IsSignedFrom, write_signed_bundle-IsTrusted}
use sidequests.Common.{none}
use sidequests.Crypto.Roles.{HybridPublicKey, HybridSigningKey}
use sidequests.Crypto.Registry
use sidequests.Crypto.Sign
use sidequests.Chunk.Tree.{Blake3}
use sidequests.Wire.{put, to_le}
use sidequests.Kinds.{manifest}

abbrev sample_zstd : Zstd
sample_zstd = record { compress_one = λ s. some s; read_up_to = λ n s. some s }

-- No section of the sample is chunked, so that nothing of the tree is computed.
abbrev sample_blake3 : Blake3
sample_blake3 = record {
  subtree = λ a b. [];
  merge_subtrees_non_root = λ a b. [];
  merge_subtrees_root = λ a b. [];
  hash = λ a. [];
}

abbrev sample_random : Random
sample_random = record {
  fresh = λ i. none;
  sealing = λ i j. record { coins = []; ephemeral = none };
}

abbrev signing_key : HybridSigningKey
signing_key = record { classical = replicate 32 0; pq = replicate 32 0 }

abbrev public_key : HybridPublicKey
public_key = record { classical = replicate 32 0; pq = replicate 1952 0 }

-- An identity "c", the title "T", and the name table ["m"].
abbrev manifest_bytes : List ℕ
manifest_bytes =
    164 ∷ 98 ∷ 105 ∷ 100 ∷ 97 ∷ 99 ∷ 100 ∷ 110 ∷ 97 ∷ 109 ∷ 101 ∷ 97 ∷ 84 ∷ 100 ∷ 115 ∷ 112 ∷ 101
    ∷ 99 ∷ 1 ∷ 101 ∷ 110 ∷ 97 ∷ 109 ∷ 101 ∷ 115 ∷ 129 ∷ 97 ∷ 109 ∷ []

abbrev specs : List SectionSpec
specs = inline_spec manifest 0 0 manifest_bytes ∷ []

abbrev header_bytes : List ℕ
header_bytes =
    0x89
    ∷ 0x43
    ∷ 0x54
    ∷ 0x46
    ∷ 0x0d
    ∷ 0x0a
    ∷ 0x1a
    ∷ 0x0a
    ∷ 0
    ∷ 0
    ∷ 3
    ∷ 0
    ∷ 64
    ∷ 0
    ∷ 0
    ∷ 0
    ∷ 1
    ∷ 0
    ∷ 0
    ∷ 0
    ∷ 1
    ∷ 0
    ∷ 0
    ∷ 0
    ∷ 32
    ∷ 16
    ∷ 0
    ∷ 0
    ∷ 0
    ∷ 0
    ∷ 0
    ∷ 0
    ∷ 160
    ∷ 16
    ∷ 0
    ∷ 0
    ∷ 0
    ∷ 0
    ∷ 0
    ∷ 0
    ∷ 0
    ∷ 0
    ∷ 0
    ∷ 0
    ∷ 1
    ∷ 0
    ∷ 0
    ∷ 0
    ∷ replicate 16 0

abbrev record_bytes : List ℕ
record_bytes =
    1
    ∷ 0
    ∷ 0
    ∷ 0
    ∷ 0
    ∷ 0
    ∷ 0
    ∷ 0
    ∷ 0
    ∷ 16
    ∷ 0
    ∷ 0
    ∷ 0
    ∷ 0
    ∷ 0
    ∷ 0
    ∷ 28
    ∷ 0
    ∷ 0
    ∷ 0
    ∷ 0
    ∷ 0
    ∷ 0
    ∷ 0
    ∷ 28
    ∷ 0
    ∷ 0
    ∷ 0
    ∷ 0
    ∷ 0
    ∷ 0
    ∷ 0
    ∷ (replicate 16 0 ++ (replicate 32 7 ++ replicate 48 0))

abbrev magic_bytes : List ℕ
magic_bytes = 0x89 ∷ 0x43 ∷ 0x54 ∷ 0x46 ∷ 0x0d ∷ 0x0a ∷ 0x1a ∷ 0x0a ∷ []

abbrev unsigned_footer : List ℕ
unsigned_footer =
    replicate 32 7 ++ (replicate 8 0 ++ (216 ∷ 16 ∷ 0 ∷ 0 ∷ 0 ∷ 0 ∷ 0 ∷ 0 ∷ magic_bytes))

abbrev signed_footer : List ℕ
signed_footer =
    replicate 32 7
    ++ (64
        ∷ 0
        ∷ 0
        ∷ 0
        ∷ 237
        ∷ 12
        ∷ 0
        ∷ 0
        ∷ (replicate 64 0 ++ (replicate 3309 0 ++ (5 ∷ 30 ∷ 0 ∷ 0 ∷ 0 ∷ 0 ∷ 0 ∷ 0 ∷ magic_bytes))))

abbrev with_footer : List ℕ → List ℕ
with_footer footer =
    header_bytes
    ++ (replicate 4032 0 ++ (manifest_bytes ++ (replicate 4 0 ++ (record_bytes ++ footer))))

abbrev unsigned_file : List ℕ
unsigned_file = with_footer unsigned_footer

abbrev signed_file : List ℕ
signed_file = with_footer signed_footer

written :
    write_bundle sample_crates sample_blake3 sample_zstd sample_random 1 specs ≡ ok unsigned_file
unfolding Write.write_bundle Write.build_bundle Write.any_spec Write.resolve_aead
    Write.envelope_payload Write.append_stored Write.stored_bytes Write.root_and_index
    Write.place_inline Write.place_payload Write.record_of Write.place_sections Write.place_index
    Write.place_indices Write.written_header Write.assemble Writer.inline_spec Writer.pad_to
    Writer.seal_section Writer.seal_sections Header.to_bytes Footer.to_bytes Footer.u32_or_max
    Section.to_bytes Table.table_bytes put to_le Kinds.kind_to_u16 Kinds.enc_to_u8 Kinds.comp_to_u8
    Header.table_end_of Header.parse Header.table_range Header.check_file_len Footer.checked_sub
    Footer.differ Footer.check_sig_lens Footer.parse Footer.commitment_root Layout.parse_records
    Layout.parse_table_with Layout.range_le Layout.stored_range Layout.index_range
    Layout.payload_ranges Layout.index_ranges Layout.collect_ranges Layout.table_ranges
    Layout.overlap_error Layout.check_overlaps Layout.first_nonzero Layout.check_zero
    Layout.check_gaps Layout.check_padding Layout.first_repeat Layout.count_manifests
    Layout.check_names Layout.validate_layout Section.check_kind Section.check_codec
    Section.check_extent Section.check_lengths Section.check_index Section.check_chunking
    Section.parse_with Kinds.contains Kinds.validate_flags Kinds.kind_from_u16 Kinds.unknown_kind
    Kinds.is_known Kinds.enc_from_u8 Kinds.comp_from_u8 Kinds.rules_of Decode.get_uint
    Decode.get_text Decode.get_array Decode.get_map Decode.as_root Decode.get_root
    Decode.parse_mirrors Decode.parse_external Decode.check_keys Decode.is_among
    Decode.check_crit_items Decode.if_given Decode.check_crit Decode.check_optional_text
    Decode.check_version Decode.refuse_some Decode.collect_names Decode.collect_paths
    Decode.repeated Decode.refuse_repeated Decode.check_names Decode.check_paths
    Decode.check_external_entries Decode.check_external Decode.check_schema Decode.decode
    Shape.starts_with Shape.ends_with Shape.is_id_byte Shape.all_id_bytes Shape.is_bad_id
    Shape.check_id Shape.is_bidi_control Shape.has_bidi_control Shape.is_bad_name_byte
    Shape.has_bad_name_byte Shape.is_bad_name Shape.check_name Shape.onto_first Shape.components
    Shape.any_bad_name Shape.check_path Readers.texts Readers.names Readers.is_id Readers.find_id
    Readers.path_of Readers.external Against.is_in Against.check_named Against.section_ids
    Against.id_of_key Against.check_covered Against.declare Against.declared Against.or_here
    Against.lookup Against.external_ids Against.disagrees Against.check_declared
    Against.check_externals Against.validate_against Access.is_key Access.find_key Access.get
    Access.as_uint Access.as_text Access.as_bytes Access.elements Access.as_array Access.pairs
    Access.as_map Utf8.lead_byte Utf8.next_state Utf8.is_utf8_from Utf8.is_utf8 Index.range
    Bundle.from_suite Bundle.file_slice Bundle.check_container Bundle.check_slots
    Bundle.signature_role Bundle.find_manifest Bundle.plain_bytes Bundle.verified_bytes
    Bundle.read_manifest Bundle.read_footer Bundle.read_table Bundle.read_header Bundle.parse
    Cbor.byte Cbor.take_bytes Cbor.wide_argument Cbor.argument Cbor.head Cbor.items Cbor.check_order
    Cbor.entries Cbor.body Cbor.value Cbor.decode Cbor.bytes_lt find_suite suite signature_of slice
    u16_at u32_at u64_at bytes_eq from_be from_le all_zero sort insert all_zero_bytes u8_at
written = refl

signed : sign_bundle sample_crates sample_zstd unsigned_file signing_key public_key ≡ ok signed_file
unfolding Signed.sign_bundle Signed.append_signatures Signed.signed_footer Signed.file_before
    Signed.signed_len Signed.length_u32 Sections.bundle_signing Sections.verify_signatures
    Footer.signing Header.may_rewrite Registry.verify_footer Registry.sign_footer Footer.sig_input
    Footer.footer_sig_input Footer.to_bytes Footer.u32_or_max Sign.ed25519_mldsa65 Sign.sign_two
    Sign.classical_sign Sign.ml_dsa_sign Sign.verify_two Sign.check_lengths Sign.classical_verify
    Sign.ml_dsa_verify to_le Header.table_end_of Header.parse Header.table_range
    Header.check_file_len Footer.checked_sub Footer.differ Footer.check_sig_lens Footer.parse
    Footer.commitment_root Layout.parse_records Layout.parse_table_with Layout.range_le
    Layout.stored_range Layout.index_range Layout.payload_ranges Layout.index_ranges
    Layout.collect_ranges Layout.table_ranges Layout.overlap_error Layout.check_overlaps
    Layout.first_nonzero Layout.check_zero Layout.check_gaps Layout.check_padding
    Layout.first_repeat Layout.count_manifests Layout.check_names Layout.validate_layout
    Section.check_kind Section.check_codec Section.check_extent Section.check_lengths
    Section.check_index Section.check_chunking Section.parse_with Kinds.contains
    Kinds.validate_flags Kinds.kind_from_u16 Kinds.unknown_kind Kinds.is_known Kinds.enc_from_u8
    Kinds.comp_from_u8 Kinds.rules_of Decode.get_uint Decode.get_text Decode.get_array
    Decode.get_map Decode.as_root Decode.get_root Decode.parse_mirrors Decode.parse_external
    Decode.check_keys Decode.is_among Decode.check_crit_items Decode.if_given Decode.check_crit
    Decode.check_optional_text Decode.check_version Decode.refuse_some Decode.collect_names
    Decode.collect_paths Decode.repeated Decode.refuse_repeated Decode.check_names
    Decode.check_paths Decode.check_external_entries Decode.check_external Decode.check_schema
    Decode.decode Shape.starts_with Shape.ends_with Shape.is_id_byte Shape.all_id_bytes
    Shape.is_bad_id Shape.check_id Shape.is_bidi_control Shape.has_bidi_control
    Shape.is_bad_name_byte Shape.has_bad_name_byte Shape.is_bad_name Shape.check_name
    Shape.onto_first Shape.components Shape.any_bad_name Shape.check_path Readers.texts
    Readers.names Readers.is_id Readers.find_id Readers.path_of Readers.external Against.is_in
    Against.check_named Against.section_ids Against.id_of_key Against.check_covered Against.declare
    Against.declared Against.or_here Against.lookup Against.external_ids Against.disagrees
    Against.check_declared Against.check_externals Against.validate_against Access.is_key
    Access.find_key Access.get Access.as_uint Access.as_text Access.as_bytes Access.elements
    Access.as_array Access.pairs Access.as_map Utf8.lead_byte Utf8.next_state Utf8.is_utf8_from
    Utf8.is_utf8 Index.range Bundle.from_suite Bundle.file_slice Bundle.check_container
    Bundle.check_slots Bundle.signature_role Bundle.find_manifest Bundle.plain_bytes
    Bundle.verified_bytes Bundle.read_manifest Bundle.read_footer Bundle.read_table
    Bundle.read_header Bundle.parse Cbor.byte Cbor.take_bytes Cbor.wide_argument Cbor.argument
    Cbor.head Cbor.items Cbor.check_order Cbor.entries Cbor.body Cbor.value Cbor.decode
    Cbor.bytes_lt find_suite suite signature_of slice u16_at u32_at u64_at bytes_eq from_be from_le
    all_zero sort insert all_zero_bytes u8_at
signed = refl

written_signed :
    write_signed_bundle sample_crates sample_blake3 sample_zstd sample_random 1 specs signing_key
      public_key
    ≡ ok signed_file
unfolding write_signed_bundle
written_signed = rw (written, signed) refl

zeros_IsByte : (n : ℕ) → All IsByte (replicate n 0)
zeros_IsByte zero = tt
zeros_IsByte (suc n) = (omega arith, zeros_IsByte n)

signed_footer-IsByte : All IsByte signed_footer
signed_footer-IsByte =
    All-append IsByte (replicate 32 7)
      (64
        ∷ 0
        ∷ 0
        ∷ 0
        ∷ 237
        ∷ 12
        ∷ 0
        ∷ 0
        ∷ (replicate 64 0 ++ (replicate 3309 0 ++ (5 ∷ 30 ∷ 0 ∷ 0 ∷ 0 ∷ 0 ∷ 0 ∷ 0 ∷ magic_bytes))))
      (omega arith)
      (All-append IsByte (64 ∷ 0 ∷ 0 ∷ 0 ∷ 237 ∷ 12 ∷ 0 ∷ 0 ∷ replicate 64 0)
        (replicate 3309 0 ++ (5 ∷ 30 ∷ 0 ∷ 0 ∷ 0 ∷ 0 ∷ 0 ∷ 0 ∷ magic_bytes)) (omega arith)
        (All-append IsByte (replicate 3309 0) (5 ∷ 30 ∷ 0 ∷ 0 ∷ 0 ∷ 0 ∷ 0 ∷ 0 ∷ magic_bytes)
          (zeros_IsByte 3309) (omega arith)))

signed_file-IsByte : All IsByte signed_file
signed_file-IsByte =
    All-append IsByte header_bytes
      (replicate 4032 0 ++ (manifest_bytes ++ (replicate 4 0 ++ (record_bytes ++ signed_footer))))
      (omega arith)
      (All-append IsByte (replicate 4032 0)
        (manifest_bytes ++ (replicate 4 0 ++ (record_bytes ++ signed_footer))) (zeros_IsByte 4032)
        (All-append IsByte manifest_bytes (replicate 4 0 ++ (record_bytes ++ signed_footer))
          (omega arith)
          (All-append IsByte (replicate 4 0) (record_bytes ++ signed_footer) (omega arith)
            (All-append IsByte record_bytes signed_footer (omega arith) signed_footer-IsByte))))

write_signed_bundle-IsTrusted_example :
    (file : List ℕ) × (write_bundle sample_crates sample_blake3 sample_zstd sample_random 1 specs
      ≡ ok file)
    × (s : IsSignedFrom sample_crates sample_zstd file signed_file public_key) × IsTrusted
        sample_crates signed_file s.bundle
write_signed_bundle-IsTrusted_example =
    write_signed_bundle-IsTrusted sample_crates sample_blake3 sample_zstd sample_random 1 specs
      signing_key public_key signed_file signed_file-IsByte written_signed
