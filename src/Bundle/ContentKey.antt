-- ===== src/Bundle/ContentKey.antt =====
-- ctf-format/crates/ctf-format/src/bundle.rs: `Bundle::section_content_key`, which finds a section's content
-- key among the envelopes of the `keys` sections.
mod Tests
use sidequests.Common.{
  ℕ, ◌≡◌, ◌⊎◌, List, [], ◌∷◌, ◌++◌, Bool, true, false, ◌&&◌, Option, some, none, ◌==◌,
  if◌then◌else◌,
}
use sidequests.Error.{Error, Result, ok, err, ◌>>=◌, ok_or, inconsistent, of_suite, Result-cases}
use sidequests.Outcome.{Outcome}
use sidequests.Wire.{bytes_eq}
use sidequests.Kinds.{SectionKind, kind_to_u16, is_known}
use sidequests.Section.{SectionRecord}
use sidequests.Cbor.{Value}
use sidequests.Cbor
use sidequests.Cbor.Access.{as_array}
use sidequests.Compress.{Zstd}
use sidequests.Crypto.Errors.{SuiteError}
use sidequests.Crypto.Crates.{Crates}
use sidequests.Crypto.Roles.{Checked}
use sidequests.Envelope.{Envelope, from_cbor, open_envelope}
use sidequests.Bundle.{Bundle, from_suite}
use sidequests.Bundle.Sections.{section_bytes}

-- `r.kind == SectionKind::Keys`
unfoldable pub is_keys : SectionKind → Bool
is_keys SectionKind.keys = true
is_keys _ = false

unfoldable pub envelopes_of : List Value → Result (List Envelope)
envelopes_of [] = ok []
envelopes_of (item ∷ rest) = do
  e ← from_suite (from_cbor item)
  later ← envelopes_of rest
  ok (e ∷ later)

-- The envelopes of one `keys` section.
unfoldable pub section_envelopes : Crates → Zstd → Bundle → SectionRecord → Result (List Envelope)
section_envelopes c zstd b r = do
  bytes ← section_bytes c zstd b r
  value ← Cbor.decode bytes
  entries ← ok_or (as_array value) (inconsistent "a keys section's plaintext is not a CBOR array")
  envelopes_of entries

-- The envelopes of all `keys` sections, each validated before any is opened.
unfoldable pub read_envelopes : Crates → Zstd → Bundle → List SectionRecord → Result (List Envelope)
read_envelopes c zstd b [] = ok []
read_envelopes c zstd b (r ∷ rest) =
    let others = read_envelopes c zstd b rest in
    if is_keys r.kind
    then (do here ← section_envelopes c zstd b r; later ← others; ok (here ++ later))
    else others

abbrev pub refused : Option SuiteError → Result (List ℕ)
refused (some e) = err (of_suite e)
refused none = err (inconsistent "no key envelope for this section and context")

unfoldable pub names_section : SectionRecord → List ℕ → Envelope → Bool
names_section r expected_context e = e.name_id == r.name_id && bytes_eq e.context expected_context

-- `Ok(key) => return Ok(key), Err(e) => last_error = Some(e)`
abbrev pub or_next : Checked (List ℕ) → (Option SuiteError → Result (List ℕ)) → Result (List ℕ)
or_next (Outcome.ok key) next = ok key
or_next (Outcome.err x) next = next (some x)

unfoldable pub try_envelopes :
    Crates
    → Bundle
    → SectionRecord
    → (secret_key expected_context : List ℕ) → List Envelope
    → Option SuiteError
    → Result (List ℕ)
unfolding names_section
try_envelopes c b r secret_key expected_context [] last_error = refused last_error
try_envelopes c b r secret_key expected_context (e ∷ rest) last_error =
    let next = try_envelopes c b r secret_key expected_context rest in
    if names_section r expected_context e
    then or_next
        (open_envelope c e secret_key b.header.suite_id b.header.version_major expected_context)
        next
    else next last_error

unfoldable pub section_content_key :
    Crates
    → Zstd
    → Bundle
    → SectionRecord
    → (recipient_secret_key expected_context : List ℕ) → Result (List ℕ)
section_content_key c zstd b r recipient_secret_key expected_context = do
  envelopes ← read_envelopes c zstd b b.sections
  try_envelopes c b r recipient_secret_key expected_context envelopes none

-- The envelope names the section and the context, and the secret key opens it.
pub record Opens (c : Crates) (b : Bundle) (r : SectionRecord) (secret_key context : List ℕ)
    (e : Envelope) : Type 0 where
  pub names : e.name_id ≡ r.name_id
  pub context_is : e.context ≡ context
  pub key : List ℕ
  pub opened :
      open_envelope c e secret_key b.header.suite_id b.header.version_major context ≡ Outcome.ok key
