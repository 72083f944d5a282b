-- ===== src/Bundle/Trusted.antt =====
-- What an accepted bundle guarantees, put together from its parts.
use sidequests.Common.{
  ℕ, suc, ◌*◌, ◌≤◌, ◌<◌, ◌≡◌, ◌≢◌, ◌⊎◌, map, subst, inl, inr, List, [], ◌∷◌, length, take, drop,
  All, All-take, All-drop, true, false, Bool-cases, some, ltb, arith,
}
use sidequests.Common.Sort.{AllPairs, Any}
use sidequests.Error.{ok, bind-ok, then-ok, ok_or, refuse_if, truncated, length_overflow}
use sidequests.Wire.{IsByte, slice, u8_at}
use sidequests.Format.{header_len, section_record_len, checked_mul}
use sidequests.Header.{Header, IsValid}
use sidequests.Header.RoundTrip.{parse-IsValid}
use sidequests.Kinds.{
  container, rules_of, Encryption, Compression, SectionKind, aead_stream, is_manifest, is_raw,
  is_sealed, is_external, is_player_visible, must_be_sealed,
}
use sidequests.Section.{SectionRecord, check_codec, parse_with, parse}
use sidequests.Section.Fields.{parse-Checked}
use sidequests.Section.Rules.{sealed_kinds_protected}
use sidequests.Layout.{Range, parse_records, parse_table_with, count_manifests}
use sidequests.Layout.Names.{validate_layout-names}
use sidequests.Layout.Padding.{Covers, validate_layout-padding}
use sidequests.Layout.Disjoint.{IsDisjoint, IsInside, regions, validate_layout-IsDisjoint}
use sidequests.Footer.RoundTrip.{parse-IsValid_footer}
use sidequests.Compress.{Zstd}
use sidequests.Crypto.Crates.{Crates}
use sidequests.Manifest.Agrees.{Agrees, validate_against-Agrees}
use sidequests.Bundle.{Bundle, find_manifest, check_container}
use sidequests.Bundle
use sidequests.Bundle.Parsed.{parse-IsParsed}
use sidequests.Bundle.Served.{verified_bytes-IsVerified}

abbrev IsRecord : SectionRecord → Type 0
IsRecord r = (bytes : List ℕ) × (parse_with bytes container ≡ ok r)

parse_records-All :
    (b : List ℕ) (need i n : ℕ) (rs : List SectionRecord)
    → parse_records b container need i n ≡ ok rs
    → All IsRecord rs
unfolding parse_records
parse_records-All b need i Prim.Native.Nat.zero rs e =
    let none_left : [] ≡ rs = ground arith in subst (All IsRecord) none_left tt
parse_records-All b need i (suc n) rs e =
    let (bytes, cut, e1) =
      bind-ok (ok_or (slice b (i * section_record_len) section_record_len) _) _ rs e in
    let (r, parsed, e2) = bind-ok (parse_with bytes container) _ rs e1 in
    let (rest, later, e3) = bind-ok (parse_records b container need (suc i) n) _ rs e2 in
    let whole : r ∷ rest ≡ rs = ground arith in
    subst (All IsRecord) whole ((bytes, parsed), parse_records-All b need (suc i) n rest later)

parse_table_with-All :
    (b : List ℕ) (count : ℕ) (rs : List SectionRecord)
    → parse_table_with b count container ≡ ok rs
    → All IsRecord rs
unfolding parse_table_with
parse_table_with-All b count rs e =
    let (need, fits, e1) =
      bind-ok (ok_or (checked_mul count section_record_len) (length_overflow "section table")) _ rs
        e in
    let (enough, e2) =
      then-ok (refuse_if (ltb (length b) need) (truncated need (length b))) _ rs e1 in
    parse_records-All b need 0 count rs e2

-- What a section of a kind that must be sealed guarantees.
pub record IsProtected (r : SectionRecord) : Type 0 where
  pub sealed : is_sealed r.flags ≡ true
  pub encrypted : r.enc ≡ aead_stream
  pub hidden : is_player_visible r.flags ≡ false
  pub inline : is_external r.flags ≡ false

abbrev pub SecretIsProtected : SectionRecord → Type 0
SecretIsProtected r = must_be_sealed r.kind ≡ true → IsProtected r

All-protected : (rs : List SectionRecord) → All IsRecord rs → All SecretIsProtected rs
All-protected [] h = tt
All-protected (r ∷ rs) ((bytes, parsed), h) = (protect r bytes parsed, All-protected rs h)
  where
    protect :
        (r : SectionRecord) (bytes : List ℕ)
        → parse_with bytes container ≡ ok r
        → SecretIsProtected r
    protect r bytes parsed secret =
        let (sealed, encrypted, hidden, inline, _, _) =
          sealed_kinds_protected bytes r (unfold parse in parsed) secret in
        record { sealed = sealed; encrypted = encrypted; hidden = hidden; inline = inline }

check_codec-manifest :
    (k : SectionKind) (f : ℕ) (enc : Encryption) (comp : Compression)
    → check_codec container k f enc comp ≡ ok tt
    → is_manifest k ≡ true
    → is_raw comp ≡ true
unfolding check_codec
check_codec-manifest k f enc comp e h = ground arith

find_manifest-raw :
    (rs : List SectionRecord) (r : SectionRecord)
    → All IsRecord rs
    → find_manifest rs ≡ some r
    → is_raw r.comp ≡ true
unfolding find_manifest
find_manifest-raw [] r h e = cc
find_manifest-raw (q ∷ rs) r ((bytes, parsed), h) e = elim (Bool-cases (is_manifest q.kind)) [
  | inr other ↦ find_manifest-raw rs r h (ground arith)
  | inl here ↦
      let c = parse-Checked bytes container q parsed in
      let is : q ≡ r = ground arith in
      subst (λ x. is_raw x.comp ≡ true) is
        (check_codec-manifest q.kind q.flags q.enc q.comp c.codec here)
]

check_container-container : (h : Header) → check_container h ≡ ok tt → rules_of h ≡ container
unfolding check_container rules_of
check_container-container h e = ground arith

pub record IsTrusted (c : Crates) (file : List ℕ) (b : Bundle) : Type 0 where
  -- the header is valid, and the footer ends where the file does
  pub header : IsValid b.header
  pub total : b.footer.total_len ≡ length file
  -- no two regions share a byte, and all end before the footer
  pub apart :
      (rs : List Range) × (regions b.sections b.header file ≡ ok rs)
      × AllPairs IsDisjoint rs
      × All (IsInside b.header.footer_off) rs
      × (b.header.footer_off ≤ length file)
  -- no two sections have the same name id, and exactly one is the manifest
  pub named : AllPairs ◌≢◌ (map (λ r. r.name_id) b.sections) × (count_manifests b.sections ≡ 1)
  -- every byte between the header and the footer belongs to a region or is zero
  pub padded :
      (p : ℕ)
      → header_len ≤ p
      → p < b.header.footer_off
      → (rs : List Range) × (regions b.sections b.header file ≡ ok rs)
        × (Any (Covers p) rs ⊎ (u8_at file p ≡ some 0))
  -- what must be sealed is
  pub protected : All SecretIsProtected b.sections
  -- the manifest stands in the file as its record says, and hashes to its root
  pub manifest_record : SectionRecord
  pub manifest_bytes : List ℕ
  pub manifest_found : find_manifest b.sections ≡ some manifest_record
  pub manifest_stored :
      manifest_bytes ≡ take manifest_record.len_stored (drop manifest_record.offset file)
  pub manifest_root : c.blake3 manifest_bytes ≡ manifest_record.root
  -- and agrees with the table
  pub agree : All (Agrees b.manifest) b.sections

-- An accepted bundle has a valid header and a footer that ends with the file; its regions are disjoint
-- and end before the footer, and what is between them is zero; no two sections have the same name id and
-- exactly one is the manifest; every section that must be sealed is sealed, encrypted, inline and not
-- player-visible; and its manifest stands in the file, hashes to its record's root, and agrees with the
-- section table.
pub parse-IsTrusted :
    (c : Crates) (z : Zstd) (file : List ℕ) (b : Bundle)
    → All IsByte file
    → Bundle.parse c z file ≡ ok b
    → IsTrusted c file b
parse-IsTrusted c z file b file_bytes e =
    let p = parse-IsParsed c z file b e in
    let t = p.table_read in
    let m = p.manifest_read in
    let valid = parse-IsValid file b.header file_bytes p.header_read.read in
    let (_, total) =
      parse-IsValid_footer file b.header.footer_off b.footer file_bytes p.footer_read.read in
    let records =
      parse_table_with-All p.table_bytes b.header.section_table_count b.sections t.read in
    let raw_manifest = find_manifest-raw b.sections m.section records m.found in
    let v = verified_bytes-IsVerified c z file m.section b.header.suite_id m.bytes m.verified in
    let stored = v.stored raw_manifest in
    let m_bytes : All IsByte m.bytes = rw stored (
      All-take IsByte m.section.len_stored (drop m.section.offset file)
        (All-drop IsByte m.section.offset file file_bytes)) in
    record {
      header = valid;
      total = total;
      apart = validate_layout-IsDisjoint b.sections b.header file valid t.laid_out;
      named = validate_layout-names b.sections b.header file t.laid_out;
      padded = λ q lo hi.
          validate_layout-padding b.sections b.header file q
            (check_container-container b.header p.header_read.declared) t.laid_out lo hi;
      protected = All-protected b.sections records;
      manifest_record = m.section;
      manifest_bytes = m.bytes;
      manifest_found = m.found;
      manifest_stored = stored;
      manifest_root = v.root;
      agree = validate_against-Agrees m.bytes b.manifest b.sections m_bytes m.decoded m.agreed;
    }
