-- ===== src/Error.antt =====
-- ctf-format/crates/ctf-format/src/error.rs: the errors of the library, and `Result`.
-- A `&'static str` is a `String`; `of_suite` is the case `Suite`.
use sidequests.Common.{
  ℕ, String, ◌⊎◌, inl, inr, ◌≡◌, refl, subst, Bool, true, false, Option, none, some, arith,
}
use sidequests.Crypto.Errors.{SuiteError}

pub data Error : Type 0 where
  truncated : (need got : ℕ) → Error
  bad_magic : Error
  bad_header_len : (got : ℕ) → Error
  unsupported_version : (major minor : ℕ) → Error
  reserved_not_zero : (at : String) → Error
  padding_not_zero : (at : ℕ) → Error
  unknown_flag_bits : (at : String) (bits : ℕ) → Error
  unknown_discriminant : (at : String) (got : ℕ) → Error
  invalid_section_kind : (got : ℕ) → Error
  too_many_sections : (got max : ℕ) → Error
  bad_offset : (at : String) (got : ℕ) → Error
  misaligned : (at : String) (got align : ℕ) → Error
  length_overflow : (at : String) → Error
  exceeds_file : (at : String) (end file_len : ℕ) → Error
  unsupported_feature : (class : String) (bits : ℕ) → Error
  feature_required : (class : String) (bits : ℕ) → Error
  legacy_container : (minor : ℕ) → Error
  overlapping_sections : (a b : ℕ) → Error
  overlaps_section_table : (name_id : ℕ) → Error
  duplicate_section_name : (name_id : ℕ) → Error
  manifest_count : (got : ℕ) → Error
  bad_chunk_size : (got : ℕ) → Error
  inconsistent : (what : String) → Error
  read_only_bundle : (what : String) → Error
  bad_total_len : (declared file_len : ℕ) → Error
  bad_footer_len : (got want : ℕ) → Error
  signature_too_long : (got max : ℕ) → Error
  signature_slot_length : (suite classical pq : ℕ) → Error
  root_mismatch : (at : String) → Error
  section_root_mismatch : (name_id : ℕ) → Error
  manifest : (what : String) → Error
  manifest_entry : (what : String) (index name_id : Option ℕ) → Error
  cbor_truncated : Error
  cbor_trailing : (at len : ℕ) → Error
  trailing_bytes : (at len : ℕ) → Error
  cbor_not_shortest : Error
  cbor_unsupported : (what : String) → Error
  cbor_duplicate_key : Error
  cbor_unsorted_keys : Error
  cbor_bad_utf8 : Error
  cbor_too_deep : (max : ℕ) → Error
  compression_output_too_large : (got max : ℕ) → Error
  compression_ratio_exceeded : (plain stored max : ℕ) → Error
  decompression_failed : Error
  decompressed_length : (got want : ℕ) → Error
  of_suite : SuiteError → Error

pub data Result {ℓ} (A : Type ℓ) : Type ℓ where
  ok : A → Result A
  err : Error → Result A

-- `if test { return Err(e) }`
abbrev pub refuse_if : Bool → Error → Result (Unit {0})
refuse_if true e = err e
refuse_if false e = ok tt

-- `ok_or`
abbrev pub ok_or {ℓ} : {A : Type ℓ} → Option A → Error → Result A
ok_or none e = err e
ok_or (some a) e = ok a

-- `?`: what follows runs on a value, and an error is returned.
infixl 5 ◌>>=◌
abbrev pub ◌>>=◌ {κ ℓ} :
    {Before : Type κ} {After : Type ℓ} → Result Before → (Before → Result After) → Result After
ok value >>= next = next value
err e >>= next = err e

infixl 5 ◌>>◌
abbrev pub ◌>>◌ {ℓ} : {After : Type ℓ} → Result (Unit {0}) → Result After → Result After
test >> next = test >>= λ _. next

pub Result-cases {ℓ} :
    {A : Type ℓ} (r : Result A) → ((a : A) × (r ≡ ok a)) ⊎ ((e : Error) × (r ≡ err e))
Result-cases (ok a) = inl (a, refl)
Result-cases (err e) = inr (e, refl)

-- A chain that succeeds has succeeded at its first step.
pub bind-ok {κ ℓ} :
    {A : Type κ} {B : Type ℓ} (m : Result A) (f : A → Result B) (b : B)
    → (m >>= f) ≡ ok b
    → (a : A) × (m ≡ ok a) × (f a ≡ ok b)
bind-ok (ok a) f b e = (a, refl, e)
bind-ok (err x) f b e = absurd (cc)

pub then-ok {ℓ} :
    {B : Type ℓ} (m : Result (Unit {0})) (rest : Result B) (b : B)
    → (m >> rest) ≡ ok b
    → (m ≡ ok tt) × (rest ≡ ok b)
then-ok (ok tt) rest b e = (refl, e)
then-ok (err x) rest b e = absurd (cc)

-- A successful result has the property.
abbrev pub Ensures {ℓ κ} : {A : Type ℓ} → (A → Type κ) → Result A → Type κ
Ensures P (ok a) = P a
Ensures P (err e) = Unit

pub Ensures-ok {ℓ κ} :
    {A : Type ℓ} (P : A → Type κ) (r : Result A) {a : A} → Ensures P r → r ≡ ok a → P a
Ensures-ok P r h e = subst (Ensures P) e h

pub Ensures-bind {ℓ κ} :
    {A B : Type ℓ} (Q : A → Type κ) (P : B → Type κ) (m : Result A) (f : A → Result B)
    → Ensures Q m
    → ((a : A) → Q a → Ensures P (f a))
    → Ensures P (m >>= f)
Ensures-bind Q P (ok a) f h k = k a h
Ensures-bind Q P (err e) f h k = tt

-- After a test the rest may use that it did not refuse.
pub Ensures-refuse_if {ℓ κ} :
    {B : Type ℓ} (P : B → Type κ) (b : Bool) (e : Error) (k : Result B)
    → (b ≡ false → Ensures P k)
    → Ensures P (refuse_if b e >> k)
Ensures-refuse_if P true e k h = tt
Ensures-refuse_if P false e k h = h refl

pub ok_or-eq-ok : {A : Type 0} (o : Option A) (e : Error) (a : A) → ok_or o e ≡ ok a → o ≡ some a
ok_or-eq-ok (some x) e a h = ground arith
ok_or-eq-ok none e a h = absurd (cc)
