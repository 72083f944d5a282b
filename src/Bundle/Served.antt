-- ===== src/Bundle/Served.antt =====
-- What the reader hands out of a section: bytes of the table's own record that hash to its root.
use sidequests.Common.{
  ℕ, ◌+◌, ◌-◌, ◌≡◌, refl, sym, ◌∙◌, inl, inr, List, length, take, drop, Bool, true, false, not,
  ◌&&◌, some, arith,
}
use sidequests.Error.{Error, ok, bind-ok, then-ok, refuse_if, ok_or, ok_or-eq-ok}
use sidequests.Outcome.{Outcome}
use sidequests.Wire.{bytes_eq, bytes_eq→eq}
use sidequests.Format.{checked_add}
use sidequests.Kinds.{Compression, is_external, is_known, is_plain, is_raw}
use sidequests.Section.{SectionRecord}
use sidequests.Compress.{Zstd}
use sidequests.Compress.Frames.{decompress-bounds}
use sidequests.Crypto.Crates.{Crates}
use sidequests.Crypto.Roles.{Suite}
use sidequests.Crypto.Registry.{suite}
use sidequests.Crypto.Verified.{suite-registered}
use sidequests.Bundle.{from_suite, file_slice, plain_bytes, verified_bytes}
use sidequests.Bundle.Committed.{file_slice-eq-ok}

pub from_suite-ok : {A : Type 0} (r : Outcome _ A) (a : A) → from_suite r ≡ ok a → r ≡ Outcome.ok a
unfolding from_suite
from_suite-ok (Outcome.ok x) a e = ground arith
from_suite-ok (Outcome.err x) a e = absurd (cc)

suite-hash : (c : Crates) (id : ℕ) (s : Suite) → suite c id ≡ Outcome.ok s → s.hash ≡ c.blake3
suite-hash c id s e = elim (suite-registered c id s e) [
  | inl (_, is) ↦ rw is refl
  | inr (inl (_, is)) ↦ rw is refl
  | inr (inr (_, is)) ↦ rw is refl
]

not_refused : (t : Bool) (e : Error) → refuse_if t e ≡ ok tt → t ≡ false
not_refused false e h = refl
not_refused true e h = absurd (cc)

-- The bytes of a section: stored in the file, not encrypted, and of the record's root. A codec is run
-- only for a kind that the build implements, and gives the declared length.
pub record IsVerified (c : Crates) (file : List ℕ) (r : SectionRecord) (bytes : List ℕ)
    : Type 0 where
  pub inline : is_external r.flags ≡ false
  pub unencrypted : is_plain r.enc ≡ true
  pub root : c.blake3 bytes ≡ r.root
  pub stored : is_raw r.comp ≡ true → bytes ≡ take r.len_stored (drop r.offset file)
  pub expanded : is_raw r.comp ≡ false → (is_known r.kind ≡ true) × (length bytes ≡ r.len_plain)

checked_add-eq-some : (a b n : ℕ) → checked_add a b ≡ some n → n ≡ a + b
checked_add-eq-some a b n e = ground arith

plain_bytes-raw :
    (z : Zstd) (comp : Compression) (stored bytes : List ℕ) (len : ℕ)
    → plain_bytes z comp stored len ≡ ok bytes
    → is_raw comp ≡ true
    → bytes ≡ stored
unfolding plain_bytes
plain_bytes-raw z comp stored bytes len e is = ground arith

plain_bytes-expanded :
    (z : Zstd) (comp : Compression) (stored bytes : List ℕ) (len : ℕ)
    → plain_bytes z comp stored len ≡ ok bytes
    → is_raw comp ≡ false
    → length bytes ≡ len
unfolding plain_bytes
plain_bytes-expanded z comp stored bytes len e is =
    (decompress-bounds z stored len bytes (rw is at e)).0

pub verified_bytes-IsVerified :
    (c : Crates) (z : Zstd) (file : List ℕ) (r : SectionRecord) (id : ℕ) (bytes : List ℕ)
    → verified_bytes c z file r id ≡ ok bytes
    → IsVerified c file r bytes
unfolding verified_bytes
verified_bytes-IsVerified c z file r id bytes e =
    let (inline, e1) = then-ok (refuse_if (is_external r.flags) _) _ bytes e in
    let (unencrypted, e2) = then-ok (refuse_if (not (is_plain r.enc)) _) _ bytes e1 in
    let (known, e3) =
      then-ok (refuse_if (not (is_known r.kind) && not (is_raw r.comp)) _) _ bytes e2 in
    let (end, end_is, e4) = bind-ok (ok_or (checked_add r.offset r.len_stored) _) _ bytes e3 in
    let (stored, stored_is, e5) =
      bind-ok (file_slice file r.offset end "section payload") _ bytes e4 in
    let (out, out_is, e6) = bind-ok (plain_bytes z r.comp stored r.len_plain) _ bytes e5 in
    let (s, suite_is, e7) = bind-ok (from_suite (suite c id)) _ bytes e6 in
    let (rooted, e8) = then-ok (refuse_if (not (bytes_eq (s.hash out) r.root)) _) _ bytes e7 in
    let hash = suite-hash c id s (from_suite-ok (suite c id) s suite_is) in
    let (order, within, cut) =
      file_slice-eq-ok file r.offset end "section payload" stored stored_is in
    let sum = checked_add-eq-some r.offset r.len_stored end (ok_or-eq-ok _ _ end end_is) in
    let span : end - r.offset ≡ r.len_stored = omega arith in
    let same : out ≡ bytes = ground arith in
    let root : c.blake3 out ≡ r.root =
      rw hash at (bytes_eq→eq (s.hash out) r.root (ground (arith, rooted))) in
    record {
      inline = not_refused (is_external r.flags) _ inline;
      unencrypted = ground (arith, unencrypted);
      root = rw (← same) root;
      stored = λ is.
          (sym same
            ∙ (plain_bytes-raw z r.comp stored out r.len_plain out_is is ∙ (rw span at cut)));
      expanded = λ is. (
        ground (arith, known),
        rw (← same) (plain_bytes-expanded z r.comp stored out r.len_plain out_is is),
      );
    }
