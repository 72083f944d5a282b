-- ===== src/Bundle/Parsed.antt =====
-- The checks that `Bundle::parse` has made of a bundle it accepts, one by one.
use sidequests.Common.{
  ℕ, ◌≡◌, refl, subst, List, length, Bool, true, false, not, Option, none, some, arith,
}
use sidequests.Error.{
  Error, Result, ok, refuse_if, ok_or, bind-ok, then-ok, manifest_count, root_mismatch,
}
use sidequests.Wire.{bytes_eq, bytes_eq→eq}
use sidequests.Format.{header_len}
use sidequests.Header.{Header, check_file_len, table_range}
use sidequests.Header
use sidequests.Kinds.{container}
use sidequests.Section.{SectionRecord}
use sidequests.Layout.{parse_table_with, validate_layout}
use sidequests.Footer.{Footer, commitment_root}
use sidequests.Footer
use sidequests.Compress.{Zstd}
use sidequests.Manifest.Decode.{Manifest}
use sidequests.Manifest.Decode
use sidequests.Manifest.Against.{validate_against}
use sidequests.Crypto.Crates.{Crates}
use sidequests.Crypto.Roles.{Suite}
use sidequests.Crypto.Registry.{suite}
use sidequests.Bundle.{
  Bundle, from_suite, file_slice, check_container, check_slots, signature_role, find_manifest,
  verified_bytes, read_manifest, read_footer, read_table, read_header, parse,
}

not_refused : (t : Bool) (e : Error) → refuse_if (not t) e ≡ ok tt → t ≡ true
not_refused true e h = refl
not_refused false e h = absurd (cc)

ok_or-some : {A : Type 0} (o : Option A) (e : Error) (a : A) → ok_or o e ≡ ok a → o ≡ some a
ok_or-some (some x) e a h = ground arith
ok_or-some none e a h = absurd (cc)

ok_injective {ℓ} : {A : Type ℓ} {a b : A} → ◌≡◌ {A = Result A} (ok a) (ok b) → a ≡ b
ok_injective h = cc

-- The header, accepted for the file.
pub record HeaderRead (file : List ℕ) (header : Header) : Type 0 where
  pub read : Header.parse file ≡ ok header
  pub file_len : check_file_len header (length file) ≡ ok tt
  pub declared : check_container header ≡ ok tt

read_header-HeaderRead :
    (file : List ℕ) (header : Header) → read_header file ≡ ok header → HeaderRead file header
unfolding read_header
read_header-HeaderRead file header e =
    let (h, read, e1) = bind-ok (Header.parse file) _ header e in
    let (file_len, e2) = then-ok (check_file_len h (length file)) _ header e1 in
    let (declared, e3) = then-ok (check_container h) (ok h) header e2 in
    subst (HeaderRead file) (ok_injective e3)
      (record { read = read; file_len = file_len; declared = declared })

-- The table, where the header says, and its records.
pub record TableRead (file : List ℕ) (header : Header) (table_bytes : List ℕ)
    (sections : List SectionRecord) : Type 0 where
  pub table_start : ℕ
  pub table_end : ℕ
  pub placed : table_range header ≡ ok (table_start, table_end)
  pub bytes_are : file_slice file table_start table_end "section table" ≡ ok table_bytes
  pub read : parse_table_with table_bytes header.section_table_count container ≡ ok sections
  pub laid_out : validate_layout sections header file ≡ ok tt

read_table-TableRead :
    (file : List ℕ) (header : Header) (table_bytes : List ℕ) (sections : List SectionRecord)
    → read_table file header ≡ ok (table_bytes, sections)
    → TableRead file header table_bytes sections
unfolding read_table
read_table-TableRead file header table_bytes sections e =
    let ((s, t), at, e1) = bind-ok (table_range header) _ (table_bytes, sections) e in
    let (bytes, bytes_are, e2) =
      bind-ok (file_slice file s t "section table") _ (table_bytes, sections) e1 in
    let (records, read, e3) =
      bind-ok (parse_table_with bytes header.section_table_count container) _
        (table_bytes, sections) e2 in
    let (laid_out, e4) =
      then-ok (validate_layout records header file) (ok (bytes, records)) (table_bytes, sections)
        e3 in
    subst (λ (p : List ℕ × List SectionRecord). TableRead file header p.0 p.1) (ok_injective e4)
      (record {
        table_start = s;
        table_end = t;
        placed = at;
        bytes_are = bytes_are;
        read = read;
        laid_out = laid_out;
      })

-- The footer, and what it commits to.
pub record FooterRead (c : Crates) (file : List ℕ) (header : Header) (table_bytes : List ℕ)
    (footer : Footer) : Type 0 where
  pub read : Footer.parse file header.footer_off ≡ ok footer
  pub slots : check_slots (signature_role c header.suite_id) header.suite_id footer ≡ ok tt
  pub resolved : Suite
  pub suite_is : from_suite (suite c header.suite_id) ≡ ok resolved
  pub header_bytes : List ℕ
  pub header_is : file_slice file 0 header_len "header" ≡ ok header_bytes
  pub committed : commitment_root c.blake3 header_bytes table_bytes ≡ footer.root

read_footer-FooterRead :
    (c : Crates) (file : List ℕ) (header : Header) (table_bytes : List ℕ) (footer : Footer)
    → read_footer c file header table_bytes ≡ ok footer
    → FooterRead c file header table_bytes footer
unfolding read_footer
read_footer-FooterRead c file header table_bytes footer e =
    let (f, read, e1) = bind-ok (Footer.parse file header.footer_off) _ footer e in
    let (slots, e2) =
      then-ok (check_slots (signature_role c header.suite_id) header.suite_id f) _ footer e1 in
    let (s, suite_is, e3) = bind-ok (from_suite (suite c header.suite_id)) _ footer e2 in
    let (bytes, header_is, e4) = bind-ok (file_slice file 0 header_len "header") _ footer e3 in
    let root = commitment_root c.blake3 bytes table_bytes in
    let (committed, e5) =
      then-ok (refuse_if (not (bytes_eq root f.root)) (root_mismatch "commitment root")) (ok f)
        footer e4 in
    subst (FooterRead c file header table_bytes) (ok_injective e5) (record {
      read = read;
      slots = slots;
      resolved = s;
      suite_is = suite_is;
      header_bytes = bytes;
      header_is = header_is;
      committed =
          bytes_eq→eq root f.root
            (not_refused (bytes_eq root f.root) (root_mismatch "commitment root") committed);
    })

-- The manifest, of the section that is the table's.
pub record ManifestRead (c : Crates) (zstd : Zstd) (file : List ℕ) (header : Header)
    (sections : List SectionRecord) (manifest : Manifest) : Type 0 where
  pub section : SectionRecord
  pub found : find_manifest sections ≡ some section
  pub bytes : List ℕ
  pub verified : verified_bytes c zstd file section header.suite_id ≡ ok bytes
  pub decoded : Decode.decode bytes ≡ ok manifest
  pub agreed : validate_against manifest sections ≡ ok tt

read_manifest-ManifestRead :
    (c : Crates) (zstd : Zstd) (file : List ℕ) (header : Header) (sections : List SectionRecord)
    (manifest : Manifest)
    → read_manifest c zstd file header sections ≡ ok manifest
    → ManifestRead c zstd file header sections manifest
unfolding read_manifest
read_manifest-ManifestRead c zstd file header sections manifest e =
    let (r, found, e1) = bind-ok (ok_or (find_manifest sections) (manifest_count 0)) _ manifest e in
    let (bytes, verified, e2) =
      bind-ok (verified_bytes c zstd file r header.suite_id) _ manifest e1 in
    let (m, decoded, e3) = bind-ok (Decode.decode bytes) _ manifest e2 in
    let (agreed, e4) = then-ok (validate_against m sections) (ok m) manifest e3 in
    subst (ManifestRead c zstd file header sections) (ok_injective e4) (record {
      section = r;
      found = ok_or-some (find_manifest sections) (manifest_count 0) r found;
      bytes = bytes;
      verified = verified;
      decoded = decoded;
      agreed = agreed;
    })

-- The parts of a parsed bundle.
pub record IsParsed (c : Crates) (zstd : Zstd) (file : List ℕ) (b : Bundle) : Type 0 where
  pub file_is : b.file ≡ file
  pub header_read : HeaderRead file b.header
  pub table_bytes : List ℕ
  pub table_read : TableRead file b.header table_bytes b.sections
  pub footer_read : FooterRead c file b.header table_bytes b.footer
  pub manifest_read : ManifestRead c zstd file b.header b.sections b.manifest

pub parse-IsParsed :
    (c : Crates) (zstd : Zstd) (file : List ℕ) (b : Bundle)
    → parse c zstd file ≡ ok b
    → IsParsed c zstd file b
unfolding parse
parse-IsParsed c zstd file b e =
    let (header, e_header, e1) = bind-ok (read_header file) _ b e in
    let ((table_bytes, sections), e_table, e2) = bind-ok (read_table file header) _ b e1 in
    let (footer, e_footer, e3) = bind-ok (read_footer c file header table_bytes) _ b e2 in
    let (manifest, e_manifest, e4) = bind-ok (read_manifest c zstd file header sections) _ b e3 in
    subst (IsParsed c zstd file) (ok_injective e4) (record {
      file_is = refl;
      header_read = read_header-HeaderRead file header e_header;
      table_bytes = table_bytes;
      table_read = read_table-TableRead file header table_bytes sections e_table;
      footer_read = read_footer-FooterRead c file header table_bytes footer e_footer;
      manifest_read = read_manifest-ManifestRead c zstd file header sections manifest e_manifest;
    })
