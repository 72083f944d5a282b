-- ===== src/Bundle/Signed.antt =====
-- ctf-format/crates/ctf-format/src/bundle.rs: `sign_bundle` and `write_signed_bundle`.
use sidequests.Common.{
  ℕ, List, ◌++◌, Bool, true, false, not, Option, none, some, length, take, ltb, leb, if◌then◌else◌,
}
use sidequests.Error.{
  Result, ok, err, ◌>>=◌, ◌>>◌, refuse_if, ok_or, inconsistent, length_overflow, exceeds_file,
  read_only_bundle,
}
use sidequests.Cbor.Access.{and_then}
use sidequests.Format.{checked_add, u32_mod}
use sidequests.Header.{may_rewrite}
use sidequests.Footer.{Footer, Signing, unsigned, present, min_footer_len}
use sidequests.Footer
use sidequests.Chunk.Tree.{Blake3}
use sidequests.Compress.{Zstd}
use sidequests.Crypto.Crates.{Crates}
use sidequests.Crypto.Roles.{HybridPublicKey, HybridSigningKey}
use sidequests.Crypto.Registry.{suite, signature_of, sign_footer}
use sidequests.Bundle.{Bundle, from_suite, parse}
use sidequests.Bundle.Sections.{bundle_signing, verify_signatures}
use sidequests.Bundle.Writer.{SectionSpec, Random}
use sidequests.Bundle.Write.{write_bundle}

abbrev pub is_unsigned : Signing → Bool
is_unsigned unsigned = true
is_unsigned present = false

-- `u32::try_from`
unfoldable pub length_u32 : ℕ → Result ℕ
length_u32 n = if ltb n u32_mod then ok n else err (length_overflow "signature length")

unfoldable pub signed_len : (footer_off classical_len pq_len : ℕ) → Option ℕ
signed_len footer_off classical_len pq_len =
    and_then (and_then (checked_add footer_off min_footer_len) (λ n. checked_add n classical_len))
      (λ n. checked_add n pq_len)

-- `file.get(..split)`
unfoldable pub file_before : List ℕ → ℕ → Option (List ℕ)
file_before file split = if leb split (length file) then some (take split file) else none

-- The footer that signs the root of a bundle.
unfoldable pub signed_footer : Crates → Bundle → HybridSigningKey → Result Footer
signed_footer c b signing_key = do
  s ← from_suite (suite c b.header.suite_id)
  role ← from_suite (signature_of s)
  classical_len ← length_u32 role.classical_signature_len
  pq_len ← length_u32 role.pq_signature_len
  total_len ←
      ok_or (signed_len b.header.footer_off classical_len pq_len)
        (length_overflow "signed file length")
  sig ←
      from_suite
        (sign_footer c b.header.suite_id b.footer.root total_len classical_len pq_len signing_key)
  ok (record {
    root = b.footer.root;
    sig_classical = sig.classical;
    sig_pq = sig.pq;
    total_len = total_len;
  })

-- Everything before the footer, and the footer that signs it.
unfoldable pub append_signatures : Crates → List ℕ → Bundle → HybridSigningKey → Result (List ℕ)
append_signatures c file b signing_key = do
  footer ← signed_footer c b signing_key
  front ←
      ok_or (file_before file b.header.footer_off)
        (exceeds_file "footer" b.header.footer_off (length file))
  back ← Footer.to_bytes footer
  ok (front ++ back)

unfoldable pub sign_bundle :
    Crates → Zstd → List ℕ → HybridSigningKey → HybridPublicKey → Result (List ℕ)
sign_bundle c z file signing_key public_key = do
  b ← parse c z file
  refuse_if (not (may_rewrite b.header)) (
      read_only_bundle
        "signing would rewrite a header carrying an unimplemented feat_ro_compat bit")
  refuse_if (not (is_unsigned (bundle_signing b)))
      (inconsistent "bundle already carries signatures")
  out ← append_signatures c file b signing_key
  signed ← parse c z out
  proof ← from_suite (verify_signatures c signed public_key)
  ok out

unfoldable pub write_signed_bundle :
    Crates
    → Blake3
    → Zstd
    → Random
    → (suite_id : ℕ) → List SectionSpec
    → HybridSigningKey
    → HybridPublicKey
    → Result (List ℕ)
write_signed_bundle c h z random suite_id specs signing_key public_key = do
  file ← write_bundle c h z random suite_id specs
  sign_bundle c z file signing_key public_key
