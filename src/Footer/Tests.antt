-- ===== src/Footer/Tests.antt =====
-- The footer of a small file, and the theorems about footers at it.
use sidequests.Common.{ℕ, ◌≡◌, ◌≢◌, ◌<◌, ap, refl, List, [], ◌∷◌, ◌++◌, drop, replicate, arith}
use sidequests.Error.{ok}
use sidequests.Wire.{slice, u32_at, u64_at, bytes_eq, from_le}
use sidequests.Footer.{Footer, parse, to_bytes, check_sig_lens, checked_sub, differ}
use sidequests.Footer.RoundTrip.{IsValid, to_bytes-parse_footer, parse-to_bytes_footer}
use sidequests.Footer.Transcript.{Inputs, IsTyped, transcript, sig_input-separates}
use sidequests.Format.{u32_mod}

abbrev front : List ℕ
front = replicate 64 5

abbrev signed : Footer
signed = record {
  root = replicate 32 9;
  sig_classical = 1 ∷ 2 ∷ [];
  sig_pq = 3 ∷ [];
  total_len = 123;
}

abbrev file : List ℕ
file =
    front
    ++ (replicate 32 9
        ++ (2 ∷ 0 ∷ 0 ∷ 0 ∷ 1 ∷ 0 ∷ 0 ∷ 0 ∷ 1 ∷ 2 ∷ 3 ∷ 123 ∷ 0 ∷ 0 ∷ 0 ∷ 0 ∷ 0 ∷ 0 ∷ 0 ∷ 0x89
            ∷ 0x43 ∷ 0x54 ∷ 0x46 ∷ 0x0d ∷ 0x0a ∷ 0x1a ∷ 0x0a ∷ []))

signed_reads : parse file 64 ≡ ok signed
unfolding parse checked_sub check_sig_lens differ slice u32_at u64_at bytes_eq from_le
signed_reads = refl

signed-IsValid : IsValid signed 64
signed-IsValid = record {
  root = refl;
  classical = omega arith;
  pq = omega arith;
  both_or_neither = ((λ z. omega arith), (λ z. omega arith));
  behind_header = omega arith;
  total = refl;
  fits = omega arith;
}

to_bytes-parse_footer_example : to_bytes signed ≡ ok (drop 64 file)
to_bytes-parse_footer_example = to_bytes-parse_footer file 64 signed (omega arith) signed_reads

parse-to_bytes_footer_example :
    (out : List ℕ) × (to_bytes signed ≡ ok out) × (parse (front ++ out) 64 ≡ ok signed)
parse-to_bytes_footer_example = parse-to_bytes_footer front signed signed-IsValid

-- The same signature bytes, cut one byte later.
abbrev inputs : ℕ → ℕ → Inputs
inputs classical pq = record {
  suite_id = 1;
  classical_len = classical;
  pq_len = pq;
  root = replicate 32 9;
  total_len = 9000;
}

inputs-IsTyped : (c p : ℕ) → c < u32_mod → p < u32_mod → IsTyped (inputs c p)
inputs-IsTyped c p hc hp = record {
  suite = omega arith;
  classical = hc;
  pq = hp;
  root = refl;
  total = omega arith;
}

sig_input-separates_example : transcript (inputs 64 3309) ≢ transcript (inputs 65 3308)
sig_input-separates_example =
    sig_input-separates (inputs 64 3309) (inputs 65 3308)
      (inputs-IsTyped 64 3309 (omega arith) (omega arith))
      (inputs-IsTyped 65 3308 (omega arith) (omega arith))
      (λ e. absurd (omega (arith, ap (λ (i : Inputs). i.classical_len) e)))
