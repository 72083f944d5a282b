-- ===== src/Bundle/Sections.antt =====
-- ctf-format/crates/ctf-format/src/bundle.rs: what a parsed bundle serves of its sections, and the pass
-- that verifies them all.
use sidequests.Common.{
  ℕ, suc, ◌+◌, ◌-◌, ◌*◌, List, [], ◌∷◌, ◌++◌, Bool, not, ◌&&◌, ◌||◌, Option, none, some, length,
  min, ◌==◌, if◌then◌else◌,
}
use sidequests.Error.{
  Error, Result, ok, err, ◌>>=◌, ◌>>◌, refuse_if, ok_or, inconsistent, section_root_mismatch,
  length_overflow,
}
use sidequests.Wire.{bytes_eq}
use sidequests.Format.{checked_add}
use sidequests.Footer.{Signing, signing, differ}
use sidequests.Kinds.{
  SectionKind, Compression, is_external, is_sealed, is_known, is_plain, is_raw, kind_to_u16,
  enc_to_u8, comp_to_u8,
}
use sidequests.Section.{SectionRecord}
use sidequests.Layout.{index_range}
use sidequests.Chunk.{chunk_count}
use sidequests.Chunk.Tree.{Blake3}
use sidequests.Chunk.Index.{VerifiedChunkIndex, parse_index, verify_root}
use sidequests.Compress.{Zstd, check_caps, decompress_exact}
use sidequests.Crypto.Crates.{Crates}
use sidequests.Crypto.Roles.{HybridPublicKey, Checked}
use sidequests.Crypto.Registry.{Authentication, suite, aead_of, verify_footer}
use sidequests.Crypto.Stream.{open_chunked_frames}
use sidequests.Bundle.{Bundle, from_suite, file_slice, verified_bytes}

unfoldable pub bundle_signing : Bundle → Signing
bundle_signing b = signing b.footer

unfoldable pub verify_signatures : Crates → Bundle → HybridPublicKey → Checked Authentication
verify_signatures c b public_key = verify_footer c b.header.suite_id b.footer public_key

unfoldable pub find_name : ℕ → List SectionRecord → Option SectionRecord
find_name name_id [] = none
find_name name_id (r ∷ rest) =
    let later = find_name name_id rest in if r.name_id == name_id then some r else later

unfoldable pub section : Bundle → ℕ → Option SectionRecord
unfolding find_name
section b name_id = find_name name_id b.sections

-- The derived `==` of two kinds, and of two records.
unfoldable pub kind_eq : SectionKind → SectionKind → Bool
unfolding is_known kind_to_u16
kind_eq a b = not (differ (is_known a) (is_known b)) && kind_to_u16 a == kind_to_u16 b

unfoldable pub record_eq : SectionRecord → SectionRecord → Bool
unfolding kind_eq enc_to_u8 comp_to_u8
record_eq a b =
    kind_eq a.kind b.kind
    && (a.name_id == b.name_id
        && (a.flags == b.flags
            && (enc_to_u8 a.enc == enc_to_u8 b.enc
                && (comp_to_u8 a.comp == comp_to_u8 b.comp
                    && (a.offset == b.offset
                        && (a.len_stored == b.len_stored
                            && (a.len_plain == b.len_plain
                                && (a.chunk_size == b.chunk_size
                                    && (a.chunk_index_off == b.chunk_index_off
                                        && bytes_eq a.root b.root)))))))))

abbrev pub foreign : Error
foreign = inconsistent "section record does not belong to this bundle"

unfoldable pub check_same : Option SectionRecord → SectionRecord → Result (Unit {0})
unfolding record_eq
check_same none r = err foreign
check_same (some canonical) r = refuse_if (not (record_eq canonical r)) foreign

-- `Bundle::owned`
unfoldable pub owned : Bundle → SectionRecord → Result (Unit {0})
owned b r = check_same (section b r.name_id) r

unfoldable pub section_bytes : Crates → Zstd → Bundle → SectionRecord → Result (List ℕ)
section_bytes c zstd b r = do
  owned b r
  refuse_if (not (is_known r.kind))
      (inconsistent "a section of a kind this build does not implement is not servable")
  refuse_if (is_sealed r.flags)
      (inconsistent "a SEALED section's plaintext is not readable in this version")
  verified_bytes c zstd b.file r b.header.suite_id

unfoldable pub index_at :
    Blake3 → List ℕ → SectionRecord → Option (ℕ × ℕ) → Result (Option VerifiedChunkIndex)
index_at blake3 file r none = ok none
index_at blake3 file r (some (start, end)) = do
  bytes ← file_slice file start end "chunk index"
  count ← chunk_count r.len_plain r.chunk_size
  index ← parse_index bytes count
  verified ← verify_root blake3 index r.root r.chunk_size
  ok (some verified)

unfoldable pub chunk_index : Blake3 → Bundle → SectionRecord → Result (Option VerifiedChunkIndex)
chunk_index blake3 b r = do
  owned b r
  refuse_if (not (is_known r.kind))
      (inconsistent "a section of a kind this build does not implement has no readable chunk index")
  refuse_if (is_sealed r.flags)
      (inconsistent "a SEALED section's chunk index is not readable in this version")
  where_it_is ← index_range r
  index_at blake3 b.file r where_it_is

-- One STREAM chunk for each frame; an empty compressed section has one.
unfoldable pub expected_chunks : SectionRecord → Result ℕ
expected_chunks r =
    if not (is_raw r.comp) && r.len_plain == 0 then ok 1 else chunk_count r.len_plain r.chunk_size

unfoldable pub open_one : Zstd → Compression → List ℕ → (want : ℕ) → Result (List ℕ)
open_one zstd comp frame want =
    if is_raw comp
    then (do
      refuse_if (not (length frame == want))
          (inconsistent "encrypted chunk decrypted to the wrong length")
      ok frame)
    else decompress_exact zstd frame want

unfoldable pub open_each : Zstd → SectionRecord → (i : ℕ) → List (List ℕ) → Result (List ℕ)
open_each zstd r i [] = ok []
open_each zstd r i (frame ∷ rest) = do
  plain ← open_one zstd r.comp frame (min (r.len_plain - i * r.chunk_size) r.chunk_size)
  later ← open_each zstd r (suc i) rest
  ok (plain ++ later)

unfoldable pub decrypt_section_bytes :
    Crates → Zstd → Bundle → SectionRecord → (content_key : List ℕ) → Result (List ℕ)
decrypt_section_bytes c zstd b r content_key = do
  owned b r
  refuse_if (not (is_known r.kind))
      (inconsistent "a section of a kind this build does not implement is not decodable")
  refuse_if (is_external r.flags) (inconsistent "an EXTERNAL section's bytes are not in the file")
  refuse_if (is_plain r.enc) (inconsistent "section is not encrypted")
  (if is_raw r.comp then ok tt else check_caps r.len_plain r.len_stored)
  s ← from_suite (suite c b.header.suite_id)
  aead ← from_suite (aead_of s)
  end ← ok_or (checked_add r.offset r.len_stored) (length_overflow "section range")
  stored ← file_slice b.file r.offset end "section payload"
  frames ←
      from_suite
        (open_chunked_frames aead content_key r.name_id b.header.suite_id r.len_plain stored)
  expected ← expected_chunks r
  refuse_if
      (not (length frames == expected)
        && not (not (is_raw r.comp) && (r.len_plain == 0 && length frames == 0)))
      (inconsistent "encrypted body has the wrong number of chunks")
  plain ← open_each zstd r 0 frames
  refuse_if (not (bytes_eq (s.hash plain) r.root)) (section_root_mismatch r.name_id)
  ok plain

pub record VerifyReport : Type 0 where
  pub verified : ℕ
  pub external : ℕ
  pub unverifiable : ℕ
  pub chunk_indices : ℕ
  pub mismatches : List ℕ

abbrev pub empty_report : VerifyReport
empty_report = record {
  verified = 0;
  external = 0;
  unverifiable = 0;
  chunk_indices = 0;
  mismatches = [];
}

unfoldable pub count_index : SectionRecord → VerifyReport → VerifyReport
count_index r report =
    if r.chunk_index_off == 0
    then report
    else record report { chunk_indices = report.chunk_indices + 1 }

-- A root mismatch is reported and the pass goes on; every other error ends it.
unfoldable pub mismatch_of : Error → Option ℕ
mismatch_of (section_root_mismatch name_id) = some name_id
mismatch_of _ = none

unfoldable pub note_error : VerifyReport → Error → Option ℕ → Result VerifyReport
note_error report e (some name_id) =
    ok (record report { mismatches = report.mismatches ++ (name_id ∷ []) })
note_error report e none = err e

unfoldable pub note_result : VerifyReport → Result (List ℕ) → Result VerifyReport
unfolding mismatch_of note_error
note_result report (ok bytes) = ok (record report { verified = report.verified + 1 })
note_result report (err e) = note_error report e (mismatch_of e)

-- One round of the pass, on a section.
unfoldable pub verify_one :
    Crates → Zstd → Bundle → SectionRecord → VerifyReport → Result VerifyReport
verify_one c zstd b r report =
    if is_external r.flags then ok (record report { external = report.external + 1 }) else (do
      (if is_raw r.comp then ok tt else check_caps r.len_plain r.len_stored)
      (if not (is_plain r.enc) || (not (is_known r.kind) && not (is_raw r.comp))
          then ok (record report { unverifiable = report.unverifiable + 1 })
          else note_result report (verified_bytes c zstd b.file r b.header.suite_id)))

unfoldable pub verify_each :
    Crates → Zstd → Bundle → List SectionRecord → VerifyReport → Result VerifyReport
unfolding count_index
verify_each c zstd b [] report = ok report
verify_each c zstd b (r ∷ rest) report = do
  report' ← verify_one c zstd b r (count_index r report)
  verify_each c zstd b rest report'

-- The calls of `on_section` show the progress and are left out.
unfoldable pub verify_inline_sections : Crates → Zstd → Bundle → Result VerifyReport
unfolding verify_each
verify_inline_sections c zstd b = verify_each c zstd b b.sections empty_report
