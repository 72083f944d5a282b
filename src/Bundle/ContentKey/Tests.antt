-- ===== src/Bundle/ContentKey/Tests.antt =====
-- A bundle with a `keys` section of one envelope; and the theorem about content keys at it.
use sidequests.Common.{ℕ, ◌≡◌, refl, List, [], ◌∷◌, ◌++◌, some, replicate}
use sidequests.Error.{ok}
use sidequests.Wire.{bytes_eq, from_be}
use sidequests.Utf8.{lead_byte, next_state, is_utf8_from, is_utf8}
use sidequests.Kinds.{SectionKind, plain, raw}
use sidequests.Kinds
use sidequests.Section.{SectionRecord}
use sidequests.Footer.{Footer}
use sidequests.Footer
use sidequests.Cbor
use sidequests.Cbor.Access
use sidequests.Compress.{Zstd}
use sidequests.Chunk.Index
use sidequests.Crypto.Kem
use sidequests.Crypto.Aead.{aes_256_gcm}
use sidequests.Crypto.Registry.{suite, find_suite, kem_of, aead_of}
use sidequests.Crypto.Samples.{sample_crates}
use sidequests.Envelope.{Envelope}
use sidequests.Envelope
use sidequests.Bundle.{Bundle}
use sidequests.Bundle
use sidequests.Bundle.Sections
use sidequests.Bundle.ContentKey.{
  section_content_key, read_envelopes, is_keys, envelopes_of, section_envelopes, names_section,
  try_envelopes,
}

abbrev sample_zstd : Zstd
sample_zstd = record { compress_one = λ s. some s; read_up_to = λ n s. some s }

-- One envelope, for section 3 and the context "s", of the content key 6, 6, ….
abbrev keys_bytes : List ℕ
keys_bytes =
    (129 ∷ 164 ∷ 98 ∷ 99 ∷ 116 ∷ 89 ∷ 4 ∷ 96 ∷ [])
    ++ (replicate 32 9
        ++ (replicate 1088 0
            ++ (103 ∷ 99 ∷ 111 ∷ 110 ∷ 116 ∷ 101 ∷ 120 ∷ 116 ∷ 97 ∷ 115 ∷ 103 ∷ 110 ∷ 97 ∷ 109 ∷ 101
                ∷ 95 ∷ 105 ∷ 100 ∷ 3 ∷ 103 ∷ 119 ∷ 114 ∷ 97 ∷ 112 ∷ 112 ∷ 101 ∷ 100 ∷ 88 ∷ 61 ∷ 12
                ∷ 0 ∷ 0 ∷ 0 ∷ 0 ∷ 0 ∷ 0 ∷ 0 ∷ 0 ∷ 0 ∷ 0 ∷ 0 ∷ 0 ∷ 0 ∷ 0 ∷ 0 ∷ 0 ∷ 0 ∷ 0 ∷ 0 ∷ 0 ∷ 0
                ∷ 0 ∷ 0 ∷ 0 ∷ 0 ∷ 0 ∷ 0 ∷ 0 ∷ 6 ∷ 6 ∷ 6 ∷ 6 ∷ 6 ∷ 6 ∷ 6 ∷ 6 ∷ 6 ∷ 6 ∷ 6 ∷ 6 ∷ 6 ∷ 6
                ∷ 6 ∷ 6 ∷ 6 ∷ 6 ∷ 6 ∷ 6 ∷ 6 ∷ 6 ∷ 6 ∷ 6 ∷ 6 ∷ 6 ∷ 6 ∷ 6 ∷ 6 ∷ 6 ∷ 6 ∷ 6 ∷ [])))

abbrev keys_record : SectionRecord
keys_record = record {
  kind = SectionKind.keys;
  name_id = 1;
  flags = 0;
  enc = plain;
  comp = raw;
  offset = 0;
  len_stored = 1218;
  len_plain = 1218;
  chunk_size = 0;
  chunk_index_off = 0;
  root = replicate 32 7;
}

abbrev encrypted_record : SectionRecord
encrypted_record = record keys_record { kind = SectionKind.artifact; name_id = 3 }

abbrev keys_bundle : Bundle
keys_bundle = record {
  file = keys_bytes;
  header = record {
    version_major = 0;
    version_minor = 3;
    suite_id = 1;
    flags = 0;
    section_table_count = 2;
    section_table_off = 64;
    footer_off = 4124;
    feat_incompat = 0;
    feat_ro_compat = 1;
  };
  sections = keys_record ∷ (encrypted_record ∷ []);
  footer = record { root = replicate 32 7; sig_classical = []; sig_pq = []; total_len = 4180 };
  manifest = record { value = Cbor.null };
}

abbrev secret : List ℕ
secret = replicate 96 9

key_found :
    section_content_key sample_crates sample_zstd keys_bundle encrypted_record secret (115 ∷ [])
    ≡ ok (replicate 32 6)
unfolding section_content_key read_envelopes is_keys section_envelopes envelopes_of names_section
    try_envelopes Sections.section_bytes Sections.owned Sections.section Sections.find_name
    Sections.check_same Sections.record_eq Sections.kind_eq Footer.differ Kinds.contains
    Kinds.is_known Kinds.kind_to_u16 Kinds.enc_to_u8 Kinds.comp_to_u8 Bundle.verified_bytes
    Bundle.file_slice Bundle.plain_bytes Bundle.from_suite find_suite suite kem_of aead_of
    Index.range bytes_eq from_be Cbor.bytes_lt Cbor.byte Cbor.take_bytes Cbor.wide_argument
    Cbor.argument Cbor.head Cbor.items Cbor.check_order Cbor.entries Cbor.body Cbor.value
    Cbor.decode Access.as_uint Access.as_text Access.as_bytes Access.elements Access.as_array
    Access.pairs Access.as_map lead_byte next_state is_utf8_from is_utf8 Envelope.open_envelope
    Envelope.from_cbor Envelope.read_entries Envelope.read_entry Envelope.read_name_id
    Envelope.read_context Envelope.read_ct Envelope.read_wrapped Envelope.as_u16 Kem.decapsulate
    Kem.x25519_mlkem768 Kem.x25519_agree Kem.x25519_public Kem.fixed Kem.combine Kem.combine_salt
    Kem.combine_info Kem.hkdf_sha256 aes_256_gcm
key_found = refl
