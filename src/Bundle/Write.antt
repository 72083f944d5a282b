-- ===== src/Bundle/Write.antt =====
-- ctf-format/crates/ctf-format/src/bundle.rs: `write_bundle`, the placing of the sections and the file.
use sidequests.Common.{
  ℕ, ◌+◌, ◌%◌, List, [], ◌∷◌, ◌++◌, Bool, true, false, not, ◌&&◌, ◌||◌, Option, none, some, length,
  ltb, leb, ◌==◌, if◌then◌else◌,
}
use sidequests.Error.{
  Error, Result, ok, err, ◌>>=◌, ◌>>◌, refuse_if, ok_or, inconsistent, too_many_sections,
}
use sidequests.Format.{
  header_len, payload_align, table_align, max_sections, supported_major, supported_minor,
  feat_ro_compat_container_v1, u32_mod,
}
use sidequests.Header.{Header}
use sidequests.Header
use sidequests.Kinds.{Encryption, plain, aead_stream, Compression, raw, zstd}
use sidequests.Section.{SectionRecord}
use sidequests.Layout.Table.{table_bytes}
use sidequests.Footer.{Footer, min_footer_len, commitment_root}
use sidequests.Footer
use sidequests.Chunk.{chunk_count}
use sidequests.Chunk.Tree.{Blake3, root_from_cvs}
use sidequests.Chunk.Index.{ChunkIndex, build, parse_index, verify_root, index_to_bytes}
use sidequests.Compress.{Zstd, compress}
use sidequests.Cbor.{Values, nil, cons, array}
use sidequests.Cbor
use sidequests.Manifest.Readers.{unwrap_or}
use sidequests.Crypto.Crates.{Crates}
use sidequests.Crypto.Roles.{Suite, Aead}
use sidequests.Crypto.Registry.{suite, aead_of}
use sidequests.Envelope.{Envelope, to_cbor, is_some}
use sidequests.Bundle.{from_suite, parse}
use sidequests.Bundle.Writer.{
  Payload, inline, envelopes, external, SectionSpec, Random, pad_to, seal_sections,
}

abbrev pub is_envelopes : Payload → Bool
is_envelopes envelopes = true
is_envelopes (inline _) = false
is_envelopes (external _ _) = false

abbrev pub is_external_payload : Payload → Bool
is_external_payload (external _ _) = true
is_external_payload (inline _) = false
is_external_payload envelopes = false

-- `sections.iter().any(…)`
unfoldable pub any_spec : (SectionSpec → Bool) → List SectionSpec → Bool
any_spec test [] = false
any_spec test (s ∷ rest) = test s || any_spec test rest

unfoldable pub resolve_aead : Bool → Suite → Result (Option Aead)
resolve_aead false s = ok none
resolve_aead true s = do aead ← from_suite (aead_of s); ok (some aead)

unfoldable pub envelope_values : List Envelope → Values
envelope_values [] = nil
envelope_values (e ∷ rest) = cons (to_cbor e) (envelope_values rest)

-- `map_err` to the one error that this step has.
unfoldable pub encoded_or : Result (List ℕ) → Error → Result (List ℕ)
encoded_or (ok b) e = ok b
encoded_or (err _) e = err e

unfoldable pub envelope_payload : (wanted : Bool) → List Envelope → Result (Option (List ℕ))
envelope_payload true es = do
  b ←
      encoded_or (Cbor.encode (array (envelope_values es)))
        (inconsistent "envelope CBOR encoding failed")
  ok (some b)
envelope_payload false es = do
  refuse_if (not (length es == 0))
      (inconsistent "an encrypted section's key envelope needs a keys section to carry it")
  ok none

-- Where a section stands, what its record says of it, and the body behind it.
pub record Placed : Type 0 where
  pub offset : ℕ
  pub len_stored : ℕ
  pub len_plain : ℕ
  pub root : List ℕ
  pub enc : Encryption
  pub index : Option ChunkIndex
  pub body : List ℕ

-- Pads the body, appends the stored bytes, and says where they are.
unfoldable pub append_stored :
    (body stored : List ℕ)
    → (len_plain : ℕ) → (root : List ℕ) → Encryption
    → Option ChunkIndex
    → Result Placed
append_stored body stored len_plain root enc index = do
  padded ← pad_to body payload_align
  ok (record {
    offset = header_len + length padded;
    len_stored = length stored;
    len_plain = len_plain;
    root = root;
    enc = enc;
    index = index;
    body = padded ++ stored;
  })

unfoldable pub stored_bytes : Zstd → Compression → List ℕ → (chunk_size : ℕ) → Result (List ℕ)
stored_bytes z raw bytes chunk_size = ok bytes
stored_bytes z zstd bytes chunk_size = compress z bytes chunk_size

unfoldable pub indexed_root :
    Blake3 → List ℕ → (chunk_size : ℕ) → Result (List ℕ × Option ChunkIndex)
indexed_root h bytes chunk_size = do
  idx ← build h bytes chunk_size
  root ←
      ok_or (root_from_cvs h idx.cvs)
        (inconsistent "a chunked section's index did not reduce to a root")
  ok (root, some idx)

-- The root of a plaintext, and its chunk index where it has two chunks or more.
unfoldable pub root_and_index :
    Crates → Blake3 → List ℕ → (chunk_size : ℕ) → Result (List ℕ × Option ChunkIndex)
root_and_index c h bytes chunk_size = if chunk_size == 0 then ok (c.blake3 bytes, none) else (do
  count ← chunk_count (length bytes) chunk_size
  if leb 2 count then indexed_root h bytes chunk_size else ok (c.blake3 bytes, none))

unfoldable pub external_index :
    Blake3
    → Option (List ℕ)
    → (len_plain : ℕ) → (root : List ℕ) → (chunk_size : ℕ) → Result (Option ChunkIndex)
external_index h none len_plain root chunk_size = ok none
external_index h (some bytes) len_plain root chunk_size = do
  count ← chunk_count len_plain chunk_size
  parsed ← parse_index bytes count
  verified ← verify_root h parsed root chunk_size
  ok (some parsed)

unfoldable pub place_inline :
    Crates
    → Blake3
    → Zstd
    → SectionSpec
    → (sealed : Option (List ℕ)) → (bytes body : List ℕ) → Result Placed
place_inline c h z s (some sealed) bytes body =
    append_stored body sealed (length bytes) (c.blake3 bytes) aead_stream none
place_inline c h z s none bytes body = do
  stored ← stored_bytes z s.comp bytes s.chunk_size
  placed ← append_stored body stored (length bytes) [] plain none
  (root, index) ← root_and_index c h bytes s.chunk_size
  ok (record placed { root = root; index = index })

unfoldable pub place_payload :
    Crates
    → Blake3
    → Zstd
    → SectionSpec
    → (sealed carried : Option (List ℕ)) → (body : List ℕ) → Payload
    → Result Placed
place_payload c h z s sealed carried body (external len_plain root) = do
  index ← external_index h s.chunk_index len_plain root s.chunk_size
  ok (record {
    offset = 0;
    len_stored = 0;
    len_plain = len_plain;
    root = root;
    enc = plain;
    index = index;
    body = body;
  })
place_payload c h z s sealed carried body envelopes = do
  let bytes = unwrap_or [] carried
  stored ← stored_bytes z s.comp bytes s.chunk_size
  append_stored body stored (length bytes) (c.blake3 bytes) plain none
place_payload c h z s sealed carried body (inline bytes) = place_inline c h z s sealed bytes body

unfoldable pub record_of : SectionSpec → Placed → SectionRecord
record_of s p = record {
  kind = s.kind;
  name_id = s.name_id;
  flags = s.flags;
  enc = p.enc;
  comp = s.comp;
  offset = p.offset;
  len_stored = p.len_stored;
  len_plain = p.len_plain;
  chunk_size = s.chunk_size;
  chunk_index_off = 0;
  root = p.root;
}

-- A record with the index that is to follow the payloads. (The source keeps the index under the record's
-- position.)
abbrev pub Indexed : Type 0
Indexed = SectionRecord × Option ChunkIndex

-- The sealed body of the first section, and those of the rest.
abbrev pub first_sealed : List (Option (List ℕ)) → Option (List ℕ)
first_sealed [] = none
first_sealed (b ∷ rest) = b

abbrev pub later_sealed : List (Option (List ℕ)) → List (Option (List ℕ))
later_sealed [] = []
later_sealed (b ∷ rest) = rest

unfoldable pub place_sections :
    Crates
    → Blake3
    → Zstd
    → (carried : Option (List ℕ)) → List (Option (List ℕ))
    → (body : List ℕ) → List SectionSpec
    → Result (List Indexed × List ℕ)
place_sections c h z carried sealed body [] = ok ([], body)
place_sections c h z carried sealed body (s ∷ rest) = do
  refuse_if (is_some s.chunk_index && not (is_external_payload s.payload))
      (inconsistent "a precomputed chunk index was supplied for a non-external section")
  p ← place_payload c h z s (first_sealed sealed) carried body s.payload
  (later, body') ← place_sections c h z carried (later_sealed sealed) p.body rest
  ok ((record_of s p, p.index) ∷ later, body')

-- Appends an index, and writes its place into the record.
unfoldable pub place_index :
    SectionRecord → Option ChunkIndex → (body : List ℕ) → Result (SectionRecord × List ℕ)
place_index r none body = ok (r, body)
place_index r (some index) body = do
  padded ← pad_to body table_align
  ok (record r { chunk_index_off = header_len + length padded }, padded ++ index_to_bytes index)

unfoldable pub place_indices : List Indexed → (body : List ℕ) → Result (List SectionRecord × List ℕ)
place_indices [] body = ok ([], body)
place_indices ((r, index) ∷ rest) body = do
  (r', body1) ← place_index r index body
  (later, body2) ← place_indices rest body1
  ok (r' ∷ later, body2)

unfoldable pub written_header : (suite_id count section_table_off footer_off : ℕ) → Header
written_header suite_id count section_table_off footer_off = record {
  version_major = supported_major;
  version_minor = supported_minor;
  suite_id = suite_id;
  flags = 0;
  section_table_count = count;
  section_table_off = section_table_off;
  footer_off = footer_off;
  feat_incompat = 0;
  feat_ro_compat = feat_ro_compat_container_v1;
}

-- The table, the footer and the header around the body.
unfoldable pub assemble :
    Crates → (suite_id : ℕ) → List SectionRecord → (body : List ℕ) → Result (List ℕ)
assemble c suite_id records body = do
  padded ← pad_to body table_align
  let table = table_bytes records
  let body' = padded ++ table
  let footer_off = header_len + length body'
  let header_bytes =
      Header.to_bytes
        (written_header suite_id (length records) (header_len + length padded) footer_off)
  footer ← Footer.to_bytes (record {
    root = commitment_root c.blake3 header_bytes table;
    sig_classical = [];
    sig_pq = [];
    total_len = footer_off + min_footer_len;
  })
  ok (header_bytes ++ (body' ++ footer))

-- The file before the writer reads it back.
unfoldable pub build_bundle :
    Crates → Blake3 → Zstd → Random → (suite_id : ℕ) → List SectionSpec → Result (List ℕ)
build_bundle c h z random suite_id specs = do
  s ← from_suite (suite c suite_id)
  refuse_if (ltb max_sections (length specs))
      (too_many_sections (length specs % u32_mod) max_sections)
  aead ← resolve_aead (any_spec (λ spec. is_some spec.encryption) specs) s
  (sealed, es) ← seal_sections c z random 0 aead suite_id specs
  carried ← envelope_payload (any_spec (λ spec. is_envelopes spec.payload) specs) es
  (placed, body) ← place_sections c h z carried sealed [] specs
  (records, body') ← place_indices placed body
  assemble c suite_id records body'

unfoldable pub write_bundle :
    Crates → Blake3 → Zstd → Random → (suite_id : ℕ) → List SectionSpec → Result (List ℕ)
write_bundle c h z random suite_id specs = do
  file ← build_bundle c h z random suite_id specs
  read_back ← parse c z file
  ok file
