-- ===== src/Footer.antt =====
-- ctf-format/crates/ctf-format/src/footer.rs: the footer, which ends the file.
-- `usize` is 64 bits wide, so that `usize::try_from` of an offset never fails. BLAKE3 is the
-- parameter `blake3` of `commitment_root`.
pub mod Fields
pub mod RoundTrip
pub mod Transcript
mod Tests
use sidequests.Common.{
  ℕ, ◌+◌, ◌-◌, ◌≤◌, ◌<◌, ◌≡◌, List, [], ◌∷◌, ◌++◌, Bool, true, false, not, ◌||◌, Option, none, some,
  length, drop, ltb, ◌==◌, if◌then◌else◌, max,
}
use sidequests.Error.{
  Result, ok, err, ◌>>=◌, ◌>>◌, refuse_if, ok_or, bad_offset, exceeds_file, truncated,
  signature_too_long, inconsistent, bad_footer_len, bad_magic, bad_total_len,
}
use sidequests.Wire.{slice, u32_at, u64_at, to_le, bytes_eq}
use sidequests.Format.{magic, header_len, u32_mod, u64_mod}

abbrev pub root_len : ℕ
root_len = 32

abbrev pub off_sig_classical_len : ℕ
off_sig_classical_len = 32

abbrev pub off_sig_pq_len : ℕ
off_sig_pq_len = 36

abbrev pub off_sigs : ℕ
off_sigs = 40

abbrev pub trailer_len : ℕ
trailer_len = 16

abbrev pub min_footer_len : ℕ
min_footer_len = off_sigs + trailer_len

abbrev pub max_sig_len : ℕ
max_sig_len = 65536

-- b"ctf/root/v1"
abbrev pub root_label : List ℕ
root_label = 99 ∷ 116 ∷ 102 ∷ 47 ∷ 114 ∷ 111 ∷ 111 ∷ 116 ∷ 47 ∷ 118 ∷ 49 ∷ []

-- b"ctf/footer-sig/v2"
abbrev pub sig_label : List ℕ
sig_label =
    99 ∷ 116 ∷ 102 ∷ 47 ∷ 102 ∷ 111 ∷ 111 ∷ 116 ∷ 101 ∷ 114 ∷ 45 ∷ 115 ∷ 105 ∷ 103 ∷ 47 ∷ 118 ∷ 50
    ∷ []

pub data Signing : Type 0 where
  unsigned : Signing
  present : Signing

pub record Footer : Type 0 where
  pub root : List ℕ
  pub sig_classical : List ℕ
  pub sig_pq : List ℕ
  pub total_len : ℕ

-- `checked_sub`
unfoldable pub checked_sub : ℕ → ℕ → Option ℕ
checked_sub a b = if ltb a b then none else some (a - b)

-- `a != b` on two Booleans
unfoldable pub differ : Bool → Bool → Bool
differ true b = not b
differ false b = b

-- The rules of the two signature lengths: each below its cap, and both or neither present.
unfoldable pub check_sig_lens : ℕ → ℕ → Result (Unit {0})
unfolding differ
check_sig_lens classical pq = do
  refuse_if (ltb max_sig_len classical || ltb max_sig_len pq)
      (signature_too_long (max classical pq) max_sig_len)
  refuse_if (differ (classical == 0) (pq == 0))
      (inconsistent "footer carries one signature of a hybrid pair")
  ok tt

unfoldable pub parse : List ℕ → ℕ → Result Footer
unfolding checked_sub check_sig_lens
parse file footer_off = do
  let file_len = length file
  refuse_if (ltb footer_off header_len) (bad_offset "header.footer_off" footer_off)
  footer_len ← ok_or (checked_sub file_len footer_off) (exceeds_file "footer" footer_off file_len)
  refuse_if (ltb footer_len min_footer_len) (truncated min_footer_len footer_len)
  let b = drop footer_off file
  let trunc = truncated min_footer_len (length b)
  classical_len ← ok_or (u32_at b off_sig_classical_len) trunc
  pq_len ← ok_or (u32_at b off_sig_pq_len) trunc
  check_sig_lens classical_len pq_len
  let want = min_footer_len + classical_len + pq_len
  refuse_if (not (footer_len == want)) (bad_footer_len footer_len want)
  trailer ← ok_or (checked_sub (length b) trailer_len) trunc
  found ← ok_or (slice b (trailer + 8) 8) trunc
  refuse_if (not (bytes_eq found magic)) bad_magic
  total_len ← ok_or (u64_at b trailer) trunc
  refuse_if (not (total_len == file_len)) (bad_total_len total_len file_len)
  root ← ok_or (slice b 0 root_len) trunc
  sig_classical ← ok_or (slice b off_sigs classical_len) trunc
  sig_pq ← ok_or (slice b (off_sigs + classical_len) pq_len) trunc
  ok (record { root = root; sig_classical = sig_classical; sig_pq = sig_pq; total_len = total_len })

unfoldable pub signing : Footer → Signing
signing f = if length f.sig_classical == 0 then unsigned else present

-- `u32::try_from(n).unwrap_or(u32::MAX)`
unfoldable pub u32_or_max : ℕ → ℕ
u32_or_max n = if ltb n u32_mod then n else 0xffff_ffff

unfoldable pub to_bytes : Footer → Result (List ℕ)
unfolding check_sig_lens u32_or_max
to_bytes f = do
  let cls = u32_or_max (length f.sig_classical)
  let pq = u32_or_max (length f.sig_pq)
  check_sig_lens cls pq
  ok (
      f.root
      ++ (to_le 4 cls
          ++ (to_le 4 pq ++ (f.sig_classical ++ (f.sig_pq ++ (to_le 8 f.total_len ++ magic))))))

unfoldable pub sig_input : (suite_id classical_len pq_len : ℕ) → List ℕ → ℕ → List ℕ
sig_input suite_id classical_len pq_len root total_len =
    sig_label
    ++ (to_le 2 suite_id
        ++ (to_le 4 classical_len ++ (to_le 4 pq_len ++ (root ++ to_le 8 total_len))))

-- `Footer::sig_input`
unfoldable pub footer_sig_input : Footer → ℕ → List ℕ
unfolding sig_input u32_or_max
footer_sig_input f suite_id =
    sig_input suite_id (u32_or_max (length f.sig_classical)) (u32_or_max (length f.sig_pq)) f.root
      f.total_len

unfoldable pub commitment_root : (List ℕ → List ℕ) → List ℕ → List ℕ → List ℕ
commitment_root blake3 header_bytes table_bytes =
    blake3 (root_label ++ (header_bytes ++ table_bytes))
