-- ===== src/Bundle/Owned.antt =====
-- A section is served only by the table's own record, and never sealed.
use sidequests.Common.{
  ℕ, ◌≡◌, refl, inl, inr, List, [], ◌∷◌, true, Bool-cases, Option, some, none, ◌==◌, arith,
}
use sidequests.Common.Sort.{Any}
use sidequests.Error.{ok}
use sidequests.Wire.{bytes_eq, bytes_eq→eq}
use sidequests.Footer.{differ}
use sidequests.Kinds.{
  SectionKind, Encryption, plain, aead_stream, Compression, raw, is_known, kind_to_u16, enc_to_u8,
  comp_to_u8,
}
use sidequests.Section.{SectionRecord}
use sidequests.Crypto.Crates.{Crates}
use sidequests.Bundle.{Bundle}
use sidequests.Bundle.Sections.{find_name, section, kind_eq, record_eq, check_same, owned}

enc_to_u8_injective : (a b : Encryption) → (enc_to_u8 a == enc_to_u8 b) ≡ true → a ≡ b
unfolding enc_to_u8
enc_to_u8_injective plain plain e = refl
enc_to_u8_injective plain aead_stream e = absurd (ground arith)
enc_to_u8_injective aead_stream plain e = absurd (ground arith)
enc_to_u8_injective aead_stream aead_stream e = refl

comp_to_u8_injective : (a b : Compression) → (comp_to_u8 a == comp_to_u8 b) ≡ true → a ≡ b
unfolding comp_to_u8
comp_to_u8_injective raw raw e = refl
comp_to_u8_injective raw Compression.zstd e = absurd (ground arith)
comp_to_u8_injective Compression.zstd raw e = absurd (ground arith)
comp_to_u8_injective Compression.zstd Compression.zstd e = refl

kind_eq→eq : (a b : SectionKind) → kind_eq a b ≡ true → a ≡ b
unfolding kind_eq is_known kind_to_u16 differ
kind_eq→eq a b e = ground arith

record Same (a b : SectionRecord) : Type 0 where
  kinds : kind_eq a.kind b.kind ≡ true
  name_ids : a.name_id ≡ b.name_id
  all_flags : a.flags ≡ b.flags
  encs : (enc_to_u8 a.enc == enc_to_u8 b.enc) ≡ true
  comps : (comp_to_u8 a.comp == comp_to_u8 b.comp) ≡ true
  offsets : a.offset ≡ b.offset
  stored : a.len_stored ≡ b.len_stored
  plains : a.len_plain ≡ b.len_plain
  sizes : a.chunk_size ≡ b.chunk_size
  indices : a.chunk_index_off ≡ b.chunk_index_off
  roots : bytes_eq a.root b.root ≡ true

record_eq-Same : (a b : SectionRecord) → record_eq a b ≡ true → Same a b
unfolding record_eq
record_eq-Same a b e = record {
  kinds = ground arith;
  name_ids = ground arith;
  all_flags = ground arith;
  encs = ground arith;
  comps = ground arith;
  offsets = ground arith;
  stored = ground arith;
  plains = ground arith;
  sizes = ground arith;
  indices = ground arith;
  roots = ground arith;
}

record_eq→eq : (a b : SectionRecord) → record_eq a b ≡ true → a ≡ b
record_eq→eq a b e =
    let s = record_eq-Same a b e in
    let kind = kind_eq→eq a.kind b.kind s.kinds in
    let enc = enc_to_u8_injective a.enc b.enc s.encs in
    let comp = comp_to_u8_injective a.comp b.comp s.comps in
    let root = bytes_eq→eq a.root b.root s.roots in
    cc (
      kind, enc, comp, root, s.name_ids, s.all_flags, s.offsets, s.stored, s.plains, s.sizes,
      s.indices,
    )

find_name-Any :
    (id : ℕ) (records : List SectionRecord) (r : SectionRecord)
    → find_name id records ≡ some r
    → Any (λ q. q ≡ r) records
unfolding find_name
find_name-Any id [] r e = cc
find_name-Any id (q ∷ rest) r e = elim (Bool-cases (q.name_id == id)) [
  | inl here ↦ inl (ground arith)
  | inr later ↦ inr (find_name-Any id rest r (ground arith))
]

check_same-eq : (o : Option SectionRecord) (r : SectionRecord) → check_same o r ≡ ok tt → o ≡ some r
unfolding check_same
check_same-eq none r e = absurd (cc)
check_same-eq (some q) r e = let same = record_eq→eq q r (ground arith) in rw same refl

pub owned-Any : (b : Bundle) (r : SectionRecord) → owned b r ≡ ok tt → Any (λ q. q ≡ r) b.sections
unfolding owned section
owned-Any b r e =
    find_name-Any r.name_id b.sections r (check_same-eq (find_name r.name_id b.sections) r e)
