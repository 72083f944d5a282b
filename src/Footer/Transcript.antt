-- ===== src/Footer/Transcript.antt =====
-- The transcript that both signatures are computed over determines all that goes into it.
use sidequests.Common.{ℕ, ◌<◌, ◌≡◌, ◌≢◌, refl, List, length}
use sidequests.Wire.{to_le, length-to_le, field_injective, to_le_injective}
use sidequests.Format.{u16_mod, u32_mod, u64_mod}
use sidequests.Footer.{sig_input, sig_label, root_len}

-- The inputs of a transcript, in the widths that their types give them.
pub record Inputs : Type 0 where
  pub suite_id : ℕ
  pub classical_len : ℕ
  pub pq_len : ℕ
  pub root : List ℕ
  pub total_len : ℕ

pub record IsTyped (i : Inputs) : Type 0 where
  pub suite : i.suite_id < u16_mod
  pub classical : i.classical_len < u32_mod
  pub pq : i.pq_len < u32_mod
  pub root : length i.root ≡ root_len
  pub total : i.total_len < u64_mod

abbrev pub transcript : Inputs → List ℕ
transcript i = sig_input i.suite_id i.classical_len i.pq_len i.root i.total_len

sig_input_injective : (i j : Inputs) → IsTyped i → IsTyped j → transcript i ≡ transcript j → i ≡ j
unfolding sig_input
sig_input_injective i j hi hj e =
    let (_, in_suite) = field_injective sig_label sig_label _ _ refl refl e in
    let (suite, in_classical) =
      field_injective (to_le 2 i.suite_id) (to_le 2 j.suite_id) _ _ (length-to_le 2 _)
        (length-to_le 2 _) in_suite in
    let (classical, in_pq) =
      field_injective (to_le 4 i.classical_len) (to_le 4 j.classical_len) _ _ (length-to_le 4 _)
        (length-to_le 4 _) in_classical in
    let (pq, in_root) =
      field_injective (to_le 4 i.pq_len) (to_le 4 j.pq_len) _ _ (length-to_le 4 _)
        (length-to_le 4 _) in_pq in
    let (root, total) = field_injective i.root j.root _ _ hi.root hj.root in_root in
    let suite_eq = to_le_injective 2 i.suite_id j.suite_id hi.suite hj.suite suite in
    let classical_eq =
      to_le_injective 4 i.classical_len j.classical_len hi.classical hj.classical classical in
    let pq_eq = to_le_injective 4 i.pq_len j.pq_len hi.pq hj.pq pq in
    let total_eq = to_le_injective 8 i.total_len j.total_len hi.total hj.total total in
    cc (suite_eq, classical_eq, pq_eq, root, total_eq)

-- Typed inputs that differ anywhere, in the cut between the two signatures too, have different
-- transcripts: no signature of one serves for the other.
pub sig_input-separates :
    (i j : Inputs) → IsTyped i → IsTyped j → i ≢ j → transcript i ≢ transcript j
sig_input-separates i j hi hj differ e = differ (sig_input_injective i j hi hj e)
