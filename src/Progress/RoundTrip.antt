-- ===== src/Progress/RoundTrip.antt =====
-- The progress that was sealed to a holder is what the holder opens.
use sidequests.Common.{
  ℕ, suc, ◌<◌, ◌≡◌, refl, sym, ◌∙◌, inl, inr, List, length, replicate, Option, true, ◌==◌, not,
  arith,
}
use sidequests.Error
use sidequests.Outcome.{ok, fail_if, Outcome-cases, bind-ok}
use sidequests.Wire.{bytes_eq}
use sidequests.Format.{u64_mod}
use sidequests.Common.Sort.{sort, insert}
use sidequests.Utf8.{is_utf8, is_utf8_from, lead_byte, next_state}
use sidequests.Cbor.{
  Value, bytes, text, map, entry, end, put_head, bytes_lt, key_le, has_duplicate, write_map,
  encode_into, encode, count_entries, max_depth,
}
use sidequests.Cbor
use sidequests.Cbor.Access.{get, find_key, is_key, as_bytes, as_map, pairs}
use sidequests.Cbor.CanonicalValue.{IsCanonical}
use sidequests.Cbor.Decodes.{decode-encode}
use sidequests.Crypto.Crates.{Crates}
use sidequests.Crypto.Roles.{Suite, Aead, Draws, Checked}
use sidequests.Crypto.Aead.{aes_256_gcm, xchacha20_poly1305}
use sidequests.Crypto.Registry.{suite, aead_of}
use sidequests.Crypto.Decapsulates.{IsHybrid, KeyPair, secret_key, public_key, length-encapsulate}
use sidequests.Crypto.Stream.Frames.{IsAead}
use sidequests.Envelope.{Envelope, ct_key, to_cbor, from_cbor, seal, or_error, kem_context}
use sidequests.Envelope.RoundTrip.{
  IsTyped, sorted_cbor, sorted_cbor-IsCanonical, from_cbor-sorted_cbor,
}
use sidequests.Envelope.Delivery.{Roles, suite-Roles, seal-Sealed, open_envelope-seal}
use sidequests.Progress.{
  envelope_key, holder_context, progress_aad, fresh_content_key, seal_parts, payload_value,
  payload_bytes, seal_progress, read_parts, open_parts, open_progress,
}

-- The payload in the order of the encoded keys.
abbrev sorted_payload : Envelope → List ℕ → Value
sorted_payload e ct =
    map (entry (text ct_key) (bytes ct) (entry (text envelope_key) (sorted_cbor e) end))

encode-sorted_payload :
    (e : Envelope) (ct : List ℕ) → encode (payload_value e ct) ≡ encode (sorted_payload e ct)
unfolding encode encode_into payload_value to_cbor write_map put_head bytes_lt key_le sort insert
    count_entries has_duplicate bytes_eq
encode-sorted_payload e ct = refl

read_parts-sorted_payload :
    (e : Envelope) (ct : List ℕ)
    → e.name_id ≡ 0
    → from_cbor (sorted_cbor e) ≡ ok e
    → read_parts (sorted_payload e ct) ≡ ok (e, ct)
unfolding read_parts get find_key is_key as_bytes as_map pairs bytes_eq
read_parts-sorted_payload e ct zero read = rw (read, zero) refl

sorted_payload-IsCanonical :
    (e : Envelope) (ct : List ℕ)
    → IsTyped e
    → length ct < u64_mod
    → IsCanonical (suc max_depth) (sorted_payload e ct)
unfolding IsCanonical count_entries encode_into put_head bytes_lt is_utf8
sorted_payload-IsCanonical e ct t small = (
  omega arith,
  ((omega arith, refl), small, ((omega arith, refl), sorted_cbor-IsCanonical 14 e t, tt)),
  (_, refl, (refl, tt)),
)

-- What was sealed: the envelope of a 32-byte content key, and the plaintext under that key.
record SealedParts (c : Crates) (draws : Draws) (id major : ℕ)
    (public challenge subject plaintext : List ℕ) (e : Envelope) (ct : List ℕ) (s : Suite)
    (a : Aead) : Type 0 where
  key : List ℕ
  key_len : length key ≡ 32
  enveloped : seal c draws key public id major 0 holder_context ≡ ok e
  sealed :
      a.seal key (replicate a.nonce_len 0) (progress_aad id challenge subject) plaintext ≡ ok ct

seal_parts-SealedParts :
    (c : Crates) (draws : Draws) (drawn : Option (List ℕ)) (id major : ℕ)
    (public challenge subject plaintext : List ℕ) (e : Envelope) (ct : List ℕ) (s : Suite)
    (r : Roles c s)
    → suite c id ≡ ok s
    → seal_parts c draws drawn id major public challenge subject plaintext ≡ ok (e, ct)
    → SealedParts c draws id major public challenge subject plaintext e ct s r.aead
unfolding seal_parts aead_of
seal_parts-SealedParts c draws drawn id major public challenge subject plaintext e ct s r found
      made =
    let (key, drew, e1) =
      bind-ok (fresh_content_key drawn) _ (e, ct) (rw (found, r.has_aead) at made) in
    let (u, sized, e2) = bind-ok (fail_if (not (length key == 32)) _) _ (e, ct) e1 in
    let (e', enveloped, e3) =
      bind-ok (seal c draws key public id major 0 holder_context) _ (e, ct) e2 in
    let (ct', sealed, e4) =
      bind-ok
        (r.aead.seal key (replicate r.aead.nonce_len 0) (progress_aad id challenge subject)
          plaintext)
        _ (e, ct) e3 in
    let (same_e, same_ct) = pair_injective e' e ct' ct e4 in
    record {
      key = key;
      key_len = ground (arith, sized);
      enveloped = rw (← same_e) enveloped;
      sealed = rw (← same_ct) sealed;
    }
  where
    pair_injective :
        (x y : Envelope) (m n : List ℕ)
        → ◌≡◌ {A = Checked (Envelope × List ℕ)} (ok (x, m)) (ok (y, n))
        → (x ≡ y) × (m ≡ n)
    pair_injective x y m n h = (cc, cc)

payload_bytes-encode :
    (e : Envelope) (ct out : List ℕ)
    → payload_bytes (e, ct) ≡ ok out
    → encode (payload_value e ct) ≡ Error.ok out
unfolding payload_bytes or_error
payload_bytes-encode e ct out h = elim (Error.Result-cases (encode (payload_value e ct))) [
  | inl (b, made) ↦ ground arith
  | inr (x, bad) ↦ absurd (ground arith)
]

open_parts-seal_parts :
    (c : Crates) (k : KeyPair c) (draws : Draws) (id major : ℕ)
    (challenge subject plaintext : List ℕ) (e : Envelope) (ct : List ℕ) (s : Suite) (r : Roles c s)
    → IsHybrid c
    → IsAead (aes_256_gcm c)
    → IsAead (xchacha20_poly1305 c)
    → suite c id ≡ ok s
    → SealedParts c draws id major (public_key c k) challenge subject plaintext e ct s r.aead
    → open_parts c id major (secret_key c k) challenge subject (e, ct) ≡ ok plaintext
unfolding open_parts aead_of
open_parts-seal_parts c k draws id major challenge subject plaintext e ct s r hybrid aes chacha
      found p =
    let key_back =
      open_envelope-seal c k draws p.key id major 0 holder_context e hybrid aes chacha p.key_len
        p.enveloped in
    rw (key_back, found, r.has_aead)
      (r.sound.opens p.key _ (progress_aad id challenge subject) plaintext ct p.sealed)

holder_utf8 : is_utf8 holder_context ≡ true
unfolding is_utf8 is_utf8_from lead_byte next_state
holder_utf8 = refl

SealedParts-IsTyped :
    (c : Crates) (k : KeyPair c) (draws : Draws) (id major : ℕ)
    (challenge subject plaintext : List ℕ) (e : Envelope) (ct : List ℕ) (s : Suite) (r : Roles c s)
    → IsHybrid c
    → suite c id ≡ ok s
    → length e.wrapped < u64_mod
    → SealedParts c draws id major (public_key c k) challenge subject plaintext e ct s r.aead
    → IsTyped e × (e.name_id ≡ 0)
SealedParts-IsTyped c k draws id major challenge subject plaintext e ct s r hybrid found small p =
    let h =
      seal-Sealed c draws p.key (public_key c k) id major 0 holder_context e s r found
        p.enveloped in
    let ct_len =
      length-encapsulate c draws (public_key c k) (kem_context id major holder_context) e.ciphertext
        h.kek hybrid h.sent in
    (
      record {
        name_id = rw h.name_is (omega arith);
        context = rw h.context_is (omega arith);
        utf8 = rw h.context_is holder_utf8;
        ciphertext = omega (arith, ct_len);
        wrapped = small;
      },
      h.name_is,
    )

open_progress-step :
    (c : Crates) (id major : ℕ) (sk challenge subject out plaintext : List ℕ) (v : Value)
    (parts : Envelope × List ℕ)
    → Cbor.decode out ≡ Error.ok v
    → read_parts v ≡ ok parts
    → open_parts c id major sk challenge subject parts ≡ ok plaintext
    → open_progress c id major sk challenge subject out ≡ ok plaintext
unfolding open_progress or_error
open_progress-step c id major sk challenge subject out plaintext v parts read split opened =
    rw (read, split) opened

-- With the documented laws of the crates, the progress that is sealed to a holder under a registered suite,
-- in ciphertexts of fewer than 2 ^ 64 bytes, is what the holder's secret key opens the payload to, for the
-- same challenge and subject.
pub open_progress-seal_progress :
    (c : Crates) (k : KeyPair c) (draws : Draws) (drawn : Option (List ℕ)) (id major : ℕ)
    (challenge subject plaintext : List ℕ) (e : Envelope) (ct out : List ℕ)
    → IsHybrid c
    → IsAead (aes_256_gcm c)
    → IsAead (xchacha20_poly1305 c)
    → seal_parts c draws drawn id major (public_key c k) challenge subject plaintext ≡ ok (e, ct)
    → length e.wrapped < u64_mod
    → length ct < u64_mod
    → seal_progress c draws drawn id major (public_key c k) challenge subject plaintext ≡ ok out
    → open_progress c id major (secret_key c k) challenge subject out ≡ ok plaintext
open_progress-seal_progress c k draws drawn id major challenge subject plaintext e ct out hybrid aes
      chacha parts wrapped_small ct_small made =
    elim (Outcome-cases (suite c id)) [
      | inr (x, bad) ↦ absurd (unfold seal_parts in ground arith)
      | inl (s, found) ↦
          let r = suite-Roles c id s aes chacha found in
          let p =
            seal_parts-SealedParts c draws drawn id major (public_key c k) challenge subject
              plaintext e ct s r found parts in
          let (typed, name) =
            SealedParts-IsTyped c k draws id major challenge subject plaintext e ct s r hybrid found
              wrapped_small p in
          let written =
            payload_bytes-encode e ct out (unfold seal_progress in (rw parts at made)) in
          let sorted : encode (sorted_payload e ct) ≡ Error.ok out =
            sym (encode-sorted_payload e ct) ∙ written in
          let read =
            decode-encode (sorted_payload e ct) out (sorted_payload-IsCanonical e ct typed ct_small)
              sorted in
          let parts_back =
            read_parts-sorted_payload e ct name (from_cbor-sorted_cbor e typed.name_id) in
          open_progress-step c id major (secret_key c k) challenge subject out plaintext
            (sorted_payload e ct) (e, ct) read parts_back
            (open_parts-seal_parts c k draws id major challenge subject plaintext e ct s r hybrid
              aes chacha found p)
    ]
