-- ===== src/Bundle.antt =====
-- ctf-format/crates/ctf-format/src/bundle.rs: reading a whole bundle, in the source's order of checks.
-- `Crates` and `Zstd` stand for the third-party crates.
pub mod Sections
pub mod Parsed
pub mod Committed
pub mod Served
pub mod Owned
pub mod Report
pub mod Trusted
pub mod ContentKey
pub mod Writer
pub mod Write
pub mod Signed
pub mod Authored
mod Tests
use sidequests.Common.{
  ℕ, String, List, [], ◌∷◌, Bool, true, false, not, ◌&&◌, ◌||◌, Option, none, some, length, ltb,
  ◌==◌, bit_and, if◌then◌else◌,
}
use sidequests.Error.{
  Error, Result, ok, err, ◌>>=◌, ◌>>◌, refuse_if, ok_or, exceeds_file, legacy_container,
  feature_required, signature_slot_length, root_mismatch, manifest_count, inconsistent,
  section_root_mismatch, length_overflow, of_suite,
}
use sidequests.Outcome.{Outcome}
use sidequests.Outcome
use sidequests.Wire.{bytes_eq}
use sidequests.Format.{header_len, checked_add, feat_ro_compat_container_v1, container_v1_minor}
use sidequests.Header.{Header, check_file_len, table_range}
use sidequests.Header
use sidequests.Kinds.{
  SectionKind, Encryption, Compression, container, is_external, is_known, is_manifest, is_plain,
  is_raw,
}
use sidequests.Section.{SectionRecord}
use sidequests.Layout.{parse_table_with, validate_layout}
use sidequests.Footer.{Footer, commitment_root}
use sidequests.Footer
use sidequests.Chunk.Index.{range}
use sidequests.Compress.{Zstd, decompress}
use sidequests.Manifest.Decode.{Manifest}
use sidequests.Manifest.Decode
use sidequests.Manifest.Against.{validate_against}
use sidequests.Crypto.Errors.{SuiteError}
use sidequests.Crypto.Crates.{Crates}
use sidequests.Crypto.Roles.{Suite, Signature, Checked}
use sidequests.Crypto.Registry.{suite, signature_of}

pub record Bundle : Type 0 where
  pub file : List ℕ
  pub header : Header
  pub sections : List SectionRecord
  pub footer : Footer
  pub manifest : Manifest

-- `impl From<SuiteError> for Error`, by which `?` passes an error on.
unfoldable pub from_suite : {A : Type 0} → Checked A → Result A
from_suite (Outcome.ok a) = ok a
from_suite (Outcome.err e) = err (of_suite e)

-- `slice(file, start, end, what)`
unfoldable pub file_slice : List ℕ → (start end : ℕ) → String → Result (List ℕ)
file_slice file start end what = ok_or (range file start end) (exceeds_file what end (length file))

-- The file must declare the container; the minor version only chooses the refusal.
unfoldable pub check_container : Header → Result (Unit {0})
check_container header =
    refuse_if (bit_and header.feat_ro_compat feat_ro_compat_container_v1 == 0) (
      if ltb header.version_minor container_v1_minor
      then legacy_container header.version_minor
      else feature_required "ro_compat" feat_ro_compat_container_v1)

-- The lengths of the signature slots, where the suite and its role resolve.
unfoldable pub check_slots : Checked Signature → ℕ → Footer → Result (Unit {0})
check_slots (Outcome.err e) suite_id footer = ok tt
check_slots (Outcome.ok role) suite_id footer =
    refuse_if
      (not (length footer.sig_classical == 0)
        && (not (length footer.sig_classical == role.classical_signature_len)
            || not (length footer.sig_pq == role.pq_signature_len)))
      (signature_slot_length suite_id (length footer.sig_classical) (length footer.sig_pq))

unfoldable pub signature_role : Crates → ℕ → Checked Signature
signature_role c suite_id = Outcome.◌>>=◌ (suite c suite_id) signature_of

unfoldable pub find_manifest : List SectionRecord → Option SectionRecord
find_manifest [] = none
find_manifest (r ∷ rest) =
    let later = find_manifest rest in if is_manifest r.kind then some r else later

-- The stored bytes, decompressed where the record says so.
unfoldable pub plain_bytes : Zstd → Compression → List ℕ → ℕ → Result (List ℕ)
plain_bytes zstd comp stored len_plain =
    if is_raw comp then ok stored else decompress zstd stored len_plain

-- `Bundle::verified_bytes`
unfoldable pub verified_bytes :
    Crates → Zstd → List ℕ → SectionRecord → (suite_id : ℕ) → Result (List ℕ)
verified_bytes c zstd file r suite_id = do
  refuse_if (is_external r.flags) (inconsistent "an EXTERNAL section's bytes are not in the file")
  refuse_if (not (is_plain r.enc))
      (inconsistent "encrypted sections are not readable in this version")
  refuse_if (not (is_known r.kind) && not (is_raw r.comp)) (
      inconsistent
        "a compressed section of a kind this build does not implement is not decompressed")
  end ← ok_or (checked_add r.offset r.len_stored) (length_overflow "section range")
  stored ← file_slice file r.offset end "section payload"
  bytes ← plain_bytes zstd r.comp stored r.len_plain
  s ← from_suite (suite c suite_id)
  refuse_if (not (bytes_eq (s.hash bytes) r.root)) (section_root_mismatch r.name_id)
  ok bytes

-- Step 7 of `Bundle::parse`: the manifest, verified before it is decoded, and against the table.
unfoldable pub read_manifest :
    Crates → Zstd → List ℕ → Header → List SectionRecord → Result Manifest
read_manifest c zstd file header sections = do
  r ← ok_or (find_manifest sections) (manifest_count 0)
  bytes ← verified_bytes c zstd file r header.suite_id
  manifest ← Decode.decode bytes
  validate_against manifest sections
  ok manifest

-- Steps 5 and 6: the footer, and the commitment over the header and the table as they are in the file.
unfoldable pub read_footer : Crates → List ℕ → Header → (table_bytes : List ℕ) → Result Footer
read_footer c file header table_bytes = do
  footer ← Footer.parse file header.footer_off
  check_slots (signature_role c header.suite_id) header.suite_id footer
  s ← from_suite (suite c header.suite_id)
  header_bytes ← file_slice file 0 header_len "header"
  refuse_if (not (bytes_eq (commitment_root c.blake3 header_bytes table_bytes) footer.root))
      (root_mismatch "commitment root")
  ok footer

-- Steps 3 and 4: the bytes of the section table, and its records.
unfoldable pub read_table : List ℕ → Header → Result (List ℕ × List SectionRecord)
read_table file header = do
  (table_start, table_end) ← table_range header
  table_bytes ← file_slice file table_start table_end "section table"
  sections ← parse_table_with table_bytes header.section_table_count container
  validate_layout sections header file
  ok (table_bytes, sections)

-- Steps 1 and 2: the header, against the length of the file and the container bit.
unfoldable pub read_header : List ℕ → Result Header
read_header file = do
  header ← Header.parse file
  check_file_len header (length file)
  check_container header
  ok header

unfoldable pub parse : Crates → Zstd → List ℕ → Result Bundle
parse c zstd file = do
  header ← read_header file
  (table_bytes, sections) ← read_table file header
  footer ← read_footer c file header table_bytes
  manifest ← read_manifest c zstd file header sections
  ok (record {
    file = file;
    header = header;
    sections = sections;
    footer = footer;
    manifest = manifest;
  })
