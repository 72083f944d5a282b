-- ===== src/Bundle/Authored.antt =====
-- What the writer and the signer hand out: files that the reader accepts, and that the key authenticates.
mod Tests
use sidequests.Common.{
  ℕ, ◌≤◌, ◌≡◌, refl, sym, subst, ap, ◌∙◌, List, ◌++◌, length, take, All, Bool, true, false, not,
  Option, some, none, leb, Bool-cases, inl, inr, arith,
}
use sidequests.Error.{
  Result, ok, err, bind-ok, then-ok, refuse_if, ok_or, ok_or-eq-ok, exceeds_file,
}
use sidequests.Outcome
use sidequests.Wire.{IsByte}
use sidequests.Header.{Header, may_rewrite}
use sidequests.Footer.{Footer}
use sidequests.Footer
use sidequests.Chunk.Tree.{Blake3}
use sidequests.Compress.{Zstd}
use sidequests.Crypto.Crates.{Crates}
use sidequests.Crypto.Roles.{HybridPublicKey, HybridSigningKey}
use sidequests.Crypto.Registry.{Authentication, verified, verify_footer}
use sidequests.Crypto.Verified.{FooterVerified, verify_footer-verified}
use sidequests.Bundle.{Bundle, from_suite, parse}
use sidequests.Bundle.Sections.{bundle_signing, verify_signatures}
use sidequests.Bundle.Served.{from_suite-ok}
use sidequests.Bundle.Trusted.{IsTrusted, parse-IsTrusted}
use sidequests.Bundle.Writer.{SectionSpec, Random}
use sidequests.Bundle.Write.{build_bundle, write_bundle}
use sidequests.Bundle.Signed.{
  is_unsigned, file_before, signed_footer, append_signatures, sign_bundle, write_signed_bundle,
}

write_bundle-parse :
    (c : Crates) (h : Blake3) (z : Zstd) (random : Random) (id : ℕ) (specs : List SectionSpec)
    (file : List ℕ)
    → write_bundle c h z random id specs ≡ ok file
    → (b : Bundle) × (parse c z file ≡ ok b)
unfolding write_bundle
write_bundle-parse c h z random id specs file e =
    let (built, built_is, e1) = bind-ok (build_bundle c h z random id specs) _ file e in
    let (b, read, e2) = bind-ok (parse c z built) _ file e1 in
    let same : built ≡ file = ground arith in (b, rw same at read)

authentication_is : (a : Authentication) → a ≡ verified
authentication_is verified = refl

-- A file that is signed: what the footer follows is the file as it was, and the reader accepts the whole.
pub record IsSignedFrom (c : Crates) (z : Zstd) (file out : List ℕ) (key : HybridPublicKey)
    : Type 0 where
  pub before : Bundle
  pub before_read : parse c z file ≡ ok before
  pub was_unsigned : is_unsigned (bundle_signing before) ≡ true
  pub footer_bytes : List ℕ
  pub kept : out ≡ take before.header.footer_off file ++ footer_bytes
  pub bundle : Bundle
  pub read : parse c z out ≡ ok bundle
  pub authentic : FooterVerified c bundle.header.suite_id bundle.footer key

file_before-eq-some :
    (file front : List ℕ) (split : ℕ)
    → file_before file split ≡ some front
    → front ≡ take split file
unfolding file_before
file_before-eq-some file front split e = ground arith

append_signatures-kept :
    (c : Crates) (file out : List ℕ) (b : Bundle) (key : HybridSigningKey)
    → append_signatures c file b key ≡ ok out
    → (footer_bytes : List ℕ) × (out ≡ take b.header.footer_off file ++ footer_bytes)
unfolding append_signatures
append_signatures-kept c file out b key e =
    let (footer, made, e1) = bind-ok (signed_footer c b key) _ out e in
    let (front, front_is, e2) = bind-ok (ok_or (file_before file b.header.footer_off) _) _ out e1 in
    let (back, back_is, e3) = bind-ok (Footer.to_bytes footer) _ out e2 in
    let cut = file_before-eq-some file front b.header.footer_off (ok_or-eq-ok _ _ front front_is) in
    let whole : front ++ back ≡ out = ground arith in (back, sym (rw cut at whole))

verify_signatures-authentic :
    (c : Crates) (b : Bundle) (key : HybridPublicKey) (proof : Authentication)
    → from_suite (verify_signatures c b key) ≡ ok proof
    → FooterVerified c b.header.suite_id b.footer key
unfolding verify_signatures
verify_signatures-authentic c b key proof e =
    let is = from_suite-ok (verify_footer c b.header.suite_id b.footer key) proof e in
    verify_footer-verified c b.header.suite_id b.footer key (rw (authentication_is proof) at is)

sign_bundle-IsSignedFrom :
    (c : Crates) (z : Zstd) (file out : List ℕ) (signing_key : HybridSigningKey)
    (public_key : HybridPublicKey)
    → sign_bundle c z file signing_key public_key ≡ ok out
    → IsSignedFrom c z file out public_key
unfolding sign_bundle
sign_bundle-IsSignedFrom c z file out signing_key public_key e =
    let (before, before_read, e1) = bind-ok (parse c z file) _ out e in
    let (rewritable, e2) = then-ok (refuse_if (not (may_rewrite before.header)) _) _ out e1 in
    let (open_slots, e3) =
      then-ok (refuse_if (not (is_unsigned (bundle_signing before))) _) _ out e2 in
    let (made, made_is, e4) = bind-ok (append_signatures c file before signing_key) _ out e3 in
    let (b, read, e5) = bind-ok (parse c z made) _ out e4 in
    let (proof, proved, e6) = bind-ok (from_suite (verify_signatures c b public_key)) _ out e5 in
    let same : made ≡ out = ground arith in
    let (footer_bytes, kept) = append_signatures-kept c file made before signing_key made_is in
    subst (λ o. IsSignedFrom c z file o public_key) same
      (record {
        before = before;
        before_read = before_read;
        was_unsigned = ground (arith, open_slots);
        footer_bytes = footer_bytes;
        kept = kept;
        bundle = b;
        read = read;
        authentic = verify_signatures-authentic c b public_key proof proved;
      })

-- A bundle that is written and signed is accepted by the reader, so that it guarantees what every accepted
-- bundle does, and each signature of its footer verifies under the public key; it was unsigned before, and
-- signing changed no byte before the footer.
pub write_signed_bundle-IsTrusted :
    (c : Crates) (h : Blake3) (z : Zstd) (random : Random) (id : ℕ) (specs : List SectionSpec)
    (signing_key : HybridSigningKey) (public_key : HybridPublicKey) (out : List ℕ)
    → All IsByte out
    → write_signed_bundle c h z random id specs signing_key public_key ≡ ok out
    → (file : List ℕ) × (write_bundle c h z random id specs ≡ ok file)
      × (s : IsSignedFrom c z file out public_key) × IsTrusted c out s.bundle
unfolding write_signed_bundle
write_signed_bundle-IsTrusted c h z random id specs signing_key public_key out bytes e =
    let (file, written, e1) = bind-ok (write_bundle c h z random id specs) _ out e in
    let s = sign_bundle-IsSignedFrom c z file out signing_key public_key e1 in
    (file, written, s, parse-IsTrusted c z out s.bundle bytes s.read)
