-- ===== src/Derive/Separates.antt =====
-- The seed of a subject is derived from a transcript that is the subject's alone.
use sidequests.Common.{ℕ, ◌<◌, ◌≡◌, sym, ◌∙◌, List, [], ◌++◌, append-nil, length}
use sidequests.Wire.{to_le, length-to_le, field_injective, to_le_injective}
use sidequests.Format.{u32_mod, u64_mod}
use sidequests.Crypto.Kem.{prefixed}
use sidequests.Crypto.Prefixed.{prefixed_injective}
use sidequests.Derive.{seed_info}

-- Two subjects, challenges or versions that differ have different transcripts, where the identities have
-- fewer than 2 ^ 32 bytes: no cut between challenge and subject gives one subject the seed of another.
pub seed_info-separates :
    (chal chal' : List ℕ) (version version' : ℕ) (subject subject' : List ℕ)
    → length chal < u32_mod
    → length chal' < u32_mod
    → version < u64_mod
    → version' < u64_mod
    → length subject < u32_mod
    → length subject' < u32_mod
    → seed_info chal version subject ≡ seed_info chal' version' subject'
    → (chal ≡ chal') × (version ≡ version') × (subject ≡ subject')
unfolding seed_info
seed_info-separates chal chal' version version' subject subject' hc hc' hv hv' hs hs' e =
    let (same_chal, rest) = prefixed_injective chal chal' _ _ hc hc' e in
    let (digits, last) =
      field_injective (to_le 8 version) (to_le 8 version') (prefixed subject) (prefixed subject')
        (length-to_le 8 version) (length-to_le 8 version') rest in
    let ended : prefixed subject ++ [] ≡ prefixed subject' ++ [] =
      append-nil (prefixed subject) ∙ (last ∙ sym (append-nil (prefixed subject'))) in
    let (same_subject, _) = prefixed_injective subject subject' [] [] hs hs' ended in
    (same_chal, to_le_injective 8 version version' hv hv' digits, same_subject)
