-- ===== src/Bundle/Tests.antt =====
-- A bundle of one manifest section, read from its bytes; and the theorems about bundles at it.
use sidequests.Common.{ℕ, ◌≡◌, refl, List, [], ◌∷◌, ◌++◌, some, All, replicate, arith}
use sidequests.Error.{ok}
use sidequests.Wire.{IsByte}
use sidequests.Kinds.{manifest, plain, raw, is_known}
use sidequests.Section.{SectionRecord}
use sidequests.Compress.{Zstd}
use sidequests.Crypto.Samples.{sample_crates}
use sidequests.Bundle.{Bundle, parse, verified_bytes}
use sidequests.Bundle.Sections.{VerifyReport}
use sidequests.Bundle.Committed.{parse-commitment_root}
use sidequests.Bundle.Trusted.{IsTrusted, parse-IsTrusted}
use sidequests.Footer.{commitment_root}
use sidequests.Footer.{Footer}
use sidequests.Header.{Header}
use sidequests.Layout.Table.{table_bytes}
use sidequests.Common.{zero, suc, All-append}
use sidequests.Header
use sidequests.Footer
use sidequests.Layout
use sidequests.Section
use sidequests.Kinds
use sidequests.Manifest.Decode.{Manifest}
use sidequests.Manifest.Decode
use sidequests.Manifest.Shape
use sidequests.Manifest.Readers
use sidequests.Manifest.Against
use sidequests.Cbor.Access
use sidequests.Utf8
use sidequests.Chunk.Index
use sidequests.Bundle
use sidequests.Bundle.Sections
use sidequests.Cbor
use sidequests.Crypto.Registry.{find_suite, suite, signature_of}
use sidequests.Wire.{
  slice, u16_at, u32_at, u64_at, bytes_eq, from_be, from_le, all_zero, all_zero_bytes, u8_at,
}
use sidequests.Common.Sort.{sort, insert}

-- A codec that stores its input.
abbrev sample_zstd : Zstd
sample_zstd = record { compress_one = λ s. some s; read_up_to = λ n s. some s }

abbrev header_bytes : List ℕ
header_bytes =
    0x89
    ∷ 0x43
    ∷ 0x54
    ∷ 0x46
    ∷ 0x0d
    ∷ 0x0a
    ∷ 0x1a
    ∷ 0x0a
    ∷ 0
    ∷ 0
    ∷ 3
    ∷ 0
    ∷ 64
    ∷ 0
    ∷ 0
    ∷ 0
    ∷ 1
    ∷ 0
    ∷ 0
    ∷ 0
    ∷ 1
    ∷ 0
    ∷ 0
    ∷ 0
    ∷ 64
    ∷ 0
    ∷ 0
    ∷ 0
    ∷ 0
    ∷ 0
    ∷ 0
    ∷ 0
    ∷ 0x1c
    ∷ 0x10
    ∷ 0
    ∷ 0
    ∷ 0
    ∷ 0
    ∷ 0
    ∷ 0
    ∷ 0
    ∷ 0
    ∷ 0
    ∷ 0
    ∷ 1
    ∷ 0
    ∷ 0
    ∷ 0
    ∷ replicate 16 0

-- The manifest of `small_bundle`, at offset 4096.
abbrev manifest_record : SectionRecord
manifest_record = record {
  kind = manifest;
  name_id = 0;
  flags = 0;
  enc = plain;
  comp = raw;
  offset = 4096;
  len_stored = 28;
  len_plain = 28;
  chunk_size = 0;
  chunk_index_off = 0;
  root = replicate 32 7;
}

abbrev record_bytes : List ℕ
record_bytes =
    1
    ∷ 0
    ∷ 0
    ∷ 0
    ∷ 0
    ∷ 0
    ∷ 0
    ∷ 0
    ∷ 0
    ∷ 16
    ∷ 0
    ∷ 0
    ∷ 0
    ∷ 0
    ∷ 0
    ∷ 0
    ∷ 28
    ∷ 0
    ∷ 0
    ∷ 0
    ∷ 0
    ∷ 0
    ∷ 0
    ∷ 0
    ∷ 28
    ∷ 0
    ∷ 0
    ∷ 0
    ∷ 0
    ∷ 0
    ∷ 0
    ∷ 0
    ∷ (replicate 16 0 ++ (replicate 32 7 ++ replicate 48 0))

-- An identity "c", the title "T", and the name table ["m"].
abbrev manifest_bytes : List ℕ
manifest_bytes =
    164 ∷ 98 ∷ 105 ∷ 100 ∷ 97 ∷ 99 ∷ 100 ∷ 110 ∷ 97 ∷ 109 ∷ 101 ∷ 97 ∷ 84 ∷ 100 ∷ 115 ∷ 112 ∷ 101
    ∷ 99 ∷ 1 ∷ 101 ∷ 110 ∷ 97 ∷ 109 ∷ 101 ∷ 115 ∷ 129 ∷ 97 ∷ 109 ∷ []

abbrev footer_bytes : List ℕ
footer_bytes =
    replicate 32 7
    ++ (replicate 8 0
        ++ (0x54 ∷ 0x10 ∷ 0 ∷ 0 ∷ 0 ∷ 0 ∷ 0 ∷ 0 ∷ 0x89 ∷ 0x43 ∷ 0x54 ∷ 0x46 ∷ 0x0d ∷ 0x0a ∷ 0x1a
            ∷ 0x0a ∷ []))

abbrev file : List ℕ
file = header_bytes ++ (record_bytes ++ (replicate 3904 0 ++ (manifest_bytes ++ footer_bytes)))

abbrev small_bundle : Bundle
small_bundle = record {
  file = file;
  header = record {
    version_major = 0;
    version_minor = 3;
    suite_id = 1;
    flags = 0;
    section_table_count = 1;
    section_table_off = 64;
    footer_off = 4124;
    feat_incompat = 0;
    feat_ro_compat = 1;
  };
  sections = manifest_record ∷ [];
  footer = record { root = replicate 32 7; sig_classical = []; sig_pq = []; total_len = 4180 };
  manifest = record {
    value = Cbor.map (
        Cbor.entry (Cbor.text (105 ∷ 100 ∷ [])) (Cbor.text (99 ∷ [])) (
          Cbor.entry (Cbor.text (110 ∷ 97 ∷ 109 ∷ 101 ∷ [])) (Cbor.text (84 ∷ [])) (
            Cbor.entry (Cbor.text (115 ∷ 112 ∷ 101 ∷ 99 ∷ [])) (Cbor.uint 1) (
              Cbor.entry (Cbor.text (110 ∷ 97 ∷ 109 ∷ 101 ∷ 115 ∷ []))
                (Cbor.array (Cbor.cons (Cbor.text (109 ∷ [])) Cbor.nil)) Cbor.end))));
  };
}

small_bundle_read : parse sample_crates sample_zstd file ≡ ok small_bundle
unfolding Header.table_end_of Header.parse Header.table_range Header.check_file_len
    Footer.checked_sub Footer.differ Footer.check_sig_lens Footer.parse Footer.commitment_root
    Layout.parse_records Layout.parse_table_with Layout.range_le Layout.stored_range
    Layout.index_range Layout.payload_ranges Layout.index_ranges Layout.collect_ranges
    Layout.table_ranges Layout.overlap_error Layout.check_overlaps Layout.first_nonzero
    Layout.check_zero Layout.check_gaps Layout.check_padding Layout.first_repeat
    Layout.count_manifests Layout.check_names Layout.validate_layout Section.check_kind
    Section.check_codec Section.check_extent Section.check_lengths Section.check_index
    Section.check_chunking Section.parse_with Kinds.contains Kinds.validate_flags
    Kinds.kind_from_u16 Kinds.unknown_kind Kinds.is_known Kinds.enc_from_u8 Kinds.comp_from_u8
    Kinds.rules_of Decode.get_uint Decode.get_text Decode.get_array Decode.get_map Decode.as_root
    Decode.get_root Decode.parse_mirrors Decode.parse_external Decode.check_keys Decode.is_among
    Decode.check_crit_items Decode.if_given Decode.check_crit Decode.check_optional_text
    Decode.check_version Decode.refuse_some Decode.collect_names Decode.collect_paths
    Decode.repeated Decode.refuse_repeated Decode.check_names Decode.check_paths
    Decode.check_external_entries Decode.check_external Decode.check_schema Decode.decode
    Shape.starts_with Shape.ends_with Shape.is_id_byte Shape.all_id_bytes Shape.is_bad_id
    Shape.check_id Shape.is_bidi_control Shape.has_bidi_control Shape.is_bad_name_byte
    Shape.has_bad_name_byte Shape.is_bad_name Shape.check_name Shape.onto_first Shape.components
    Shape.any_bad_name Shape.check_path Readers.texts Readers.names Readers.is_id Readers.find_id
    Readers.path_of Readers.external Against.is_in Against.check_named Against.section_ids
    Against.id_of_key Against.check_covered Against.declare Against.declared Against.or_here
    Against.lookup Against.external_ids Against.disagrees Against.check_declared
    Against.check_externals Against.validate_against Access.is_key Access.find_key Access.get
    Access.as_uint Access.as_text Access.as_bytes Access.elements Access.as_array Access.pairs
    Access.as_map Utf8.lead_byte Utf8.next_state Utf8.is_utf8_from Utf8.is_utf8 Index.range
    Bundle.from_suite Bundle.file_slice Bundle.check_container Bundle.check_slots
    Bundle.signature_role Bundle.find_manifest Bundle.plain_bytes Bundle.verified_bytes
    Bundle.read_manifest Bundle.read_footer Bundle.read_table Bundle.read_header Bundle.parse
    Cbor.byte Cbor.take_bytes Cbor.wide_argument Cbor.argument Cbor.head Cbor.items Cbor.check_order
    Cbor.entries Cbor.body Cbor.value Cbor.decode Cbor.bytes_lt find_suite suite signature_of slice
    u16_at u32_at u64_at bytes_eq from_be from_le all_zero sort insert all_zero_bytes u8_at
small_bundle_read = refl

zeros_IsByte : (n : ℕ) → All IsByte (replicate n 0)
zeros_IsByte zero = tt
zeros_IsByte (suc n) = (omega arith, zeros_IsByte n)

file_IsByte : All IsByte file
file_IsByte =
    All-append IsByte header_bytes
      (record_bytes ++ (replicate 3904 0 ++ (manifest_bytes ++ footer_bytes))) (omega arith)
      (All-append IsByte record_bytes (replicate 3904 0 ++ (manifest_bytes ++ footer_bytes))
        (omega arith)
        (All-append IsByte (replicate 3904 0) (manifest_bytes ++ footer_bytes) (zeros_IsByte 3904)
          (omega arith)))

parse-commitment_root_example :
    commitment_root sample_crates.blake3
      (Header.to_bytes small_bundle.header)
      (table_bytes small_bundle.sections)
    ≡ small_bundle.footer.root
parse-commitment_root_example =
    parse-commitment_root sample_crates sample_zstd file small_bundle file_IsByte small_bundle_read

parse-IsTrusted_example : IsTrusted sample_crates file small_bundle
parse-IsTrusted_example =
    parse-IsTrusted sample_crates sample_zstd file small_bundle file_IsByte small_bundle_read

abbrev small_report : VerifyReport
small_report = record {
  verified = 1;
  external = 0;
  unverifiable = 0;
  chunk_indices = 0;
  mismatches = [];
}
