-- ===== src/Gate/Tests.antt =====
-- Engines that always give one output, a challenge that passes and one that is not gated, and the
-- theorems about the gates at them.
use sidequests.Common.{◌≡◌, refl, [], ◌∷◌, Bool, true, false, none, some}
use sidequests.Outcome.{ok}
use sidequests.Wire.{bytes_eq, to_le}
use sidequests.Abi.{
  Output, GeneratorOutput, output_root, encode_output, encode_artifacts, put_outputs, put_block,
}
use sidequests.Gate.{
  Engines, GateReport, OfflineGate, OfflineGateReport, passed, absent, check_runs,
  check_second_engine, first_and_rest, determinism_gate, is_declared, check_declared, run_gate,
  status_of, modules_of, check_mode, eligible, gate_or_report, offline_gate,
}
use sidequests.Gate.Offline.{HasPassed, offline_gate-HasPassed}

abbrev page : Output
page = record { name = 0x61 ∷ []; bytes = 1 ∷ [] }

abbrev made : GeneratorOutput
made = record { outputs = page ∷ []; flag = 0x66 ∷ [] }

abbrev steady : Engines
steady = record {
  generator_new = λ wasm. ok tt;
  run_repeated = λ wasm seed runs. ok (made ∷ (made ∷ []));
  second_engine_supported = λ wasm. true;
  run_second_engine = λ wasm seed. ok made;
  solver_new = λ wasm. ok tt;
  solver_run = λ wasm artifacts. ok (0x66 ∷ []);
  blake3 = λ text. text;
}

abbrev challenge : Bool → OfflineGate
challenge needs_runtime = record {
  generator = some (1 ∷ []);
  solver = some (2 ∷ []);
  seed = 3 ∷ [];
  expected_flag = 0x66 ∷ [];
  runtime_declared = needs_runtime;
  offline_declared = true;
  determinism = absent;
  declared_outputs = (0x61 ∷ []) ∷ [];
}

abbrev made_report : GateReport
made_report = record {
  root = output_root (λ text. text) made;
  outputs = made;
  runs = 2;
  cross_engine = true;
}

abbrev passed_report : OfflineGateReport
passed_report = record {
  status = passed;
  generator_root = some (output_root (λ text. text) made);
  solver_flag = some (0x66 ∷ []);
  expected_flag = some (0x66 ∷ []);
  generator_runs = some 2;
  cross_engine = some true;
  artifact_count = some 1;
  unverified_reason = none;
}

passes : offline_gate steady (challenge false) ≡ ok passed_report
unfolding offline_gate gate_or_report eligible modules_of check_mode run_gate status_of
    check_declared is_declared determinism_gate check_runs check_second_engine first_and_rest
    output_root encode_output encode_artifacts put_outputs put_block to_le bytes_eq
passes = refl

offline_gate-HasPassed_example : HasPassed steady (challenge false) passed_report
offline_gate-HasPassed_example =
    offline_gate-HasPassed steady (challenge false) passed_report passes refl
