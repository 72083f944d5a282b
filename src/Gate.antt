-- ===== src/Gate.antt =====
-- ctf-format/crates/ctf-generator/src/gate.rs: the determinism gate and the offline gate.
-- The record `Engines` stands for host.rs, second.rs and solver.rs, which run a module in wasmtime and
-- wasmi under one set of limits, and for the blake3 crate. A module is its bytes.
pub mod Determinism
pub mod Offline
mod Tests
use sidequests.Common.{
  ℕ, zero, suc, ◌≡◌, max, String, List, [], ◌∷◌, Bool, true, false, not, ◌||◌, Option, none, some,
  length,
}
use sidequests.Outcome.{Outcome, ok, err, ◌>>=◌, ◌>>◌, fail_if, some_or, map_err}
use sidequests.Wire.{bytes_eq}
use sidequests.Abi.{AbiError, Output, GeneratorOutput, encode_artifacts, output_root}

-- host.rs: `GeneratorError`.
pub data GeneratorError : Type 0 where
  module_error : String → GeneratorError
  imports_not_allowed : GeneratorError
  missing_export : String → GeneratorError
  bad_export : String → GeneratorError
  out_of_bounds : GeneratorError
  out_of_fuel : GeneratorError
  memory_limit : GeneratorError
  guest_returned_failure : GeneratorError
  seed_too_large : GeneratorError
  abi : AbiError → GeneratorError
  trap : GeneratorError
  interface_unsupported : ℕ → GeneratorError
  profile_unsupported : ℕ → GeneratorError
  nondeterministic : (run : ℕ) → GeneratorError
  engine_disagreement : GeneratorError
  undeclared_output : List ℕ → GeneratorError

pub record Engines : Type 0 where
  pub generator_new : List ℕ → Outcome GeneratorError (Unit {0})
  pub run_repeated : List ℕ → List ℕ → ℕ → Outcome GeneratorError (List GeneratorOutput)
  pub second_engine_supported : List ℕ → Bool
  pub run_second_engine : List ℕ → List ℕ → Outcome GeneratorError GeneratorOutput
  pub solver_new : List ℕ → Outcome GeneratorError (Unit {0})
  pub solver_run : List ℕ → List ℕ → Outcome GeneratorError (List ℕ)
  pub blake3 : List ℕ → List ℕ

pub data DeterminismMode : Type 0 where
  strict : DeterminismMode
  flag_only : DeterminismMode
  no_determinism : DeterminismMode

unfoldable pub suppresses_gate : DeterminismMode → Bool
suppresses_gate strict = false
suppresses_gate flag_only = true
suppresses_gate no_determinism = true

pub data DeterminismDeclaration : Type 0 where
  absent : DeterminismDeclaration
  mode : DeterminismMode → DeterminismDeclaration
  unrecognized : DeterminismDeclaration

pub record GateReport : Type 0 where
  pub root : List ℕ
  pub outputs : GeneratorOutput
  pub runs : ℕ
  pub cross_engine : Bool

-- `for (i, r) in results.iter().enumerate().skip(1)`, at `i`.
unfoldable pub check_runs :
    Engines → (root : List ℕ) → (i : ℕ) → List GeneratorOutput → Outcome GeneratorError (Unit {0})
check_runs e root i [] = ok tt
check_runs e root i (r ∷ rs) = do
  fail_if (not (bytes_eq (output_root e.blake3 r) root)) (nondeterministic i)
  check_runs e root (suc i) rs

-- The run in the second engine, if the module is `supported` there.
unfoldable pub check_second_engine :
    Engines → (wasm seed root : List ℕ) → (supported : Bool) → Outcome GeneratorError (Unit {0})
check_second_engine e wasm seed root true = do
  second ← e.run_second_engine wasm seed
  fail_if (not (bytes_eq (output_root e.blake3 second) root)) engine_disagreement
check_second_engine e wasm seed root false = ok tt

-- `results.first()` and what `skip(1)` leaves.
unfoldable pub first_and_rest :
    List GeneratorOutput → Option (GeneratorOutput × List GeneratorOutput)
first_and_rest [] = none
first_and_rest (r ∷ rs) = some (r, rs)

unfoldable pub determinism_gate :
    Engines → (wasm seed : List ℕ) → ℕ → Outcome GeneratorError GateReport
determinism_gate e wasm seed runs = do
  let count = max runs 2
  e.generator_new wasm
  results ← e.run_repeated wasm seed count
  (head, rest) ← some_or (first_and_rest results) guest_returned_failure
  let root = output_root e.blake3 head
  check_runs e root 1 rest
  check_second_engine e wasm seed root (e.second_engine_supported wasm)
  ok (record {
    root = root;
    outputs = head;
    runs = count;
    cross_engine = e.second_engine_supported wasm;
  })

pub data GateStatus : Type 0 where
  passed : GateStatus
  failed : GateStatus
  unverified : GateStatus

pub record OfflineGate : Type 0 where
  pub generator : Option (List ℕ)
  pub solver : Option (List ℕ)
  pub seed : List ℕ
  pub expected_flag : List ℕ
  pub runtime_declared : Bool
  pub offline_declared : Bool
  pub determinism : DeterminismDeclaration
  pub declared_outputs : List (List ℕ)

pub data UnverifiedReason : Type 0 where
  runtime : UnverifiedReason
  offline_not_declared : UnverifiedReason
  no_generator : UnverifiedReason
  no_solver : UnverifiedReason
  determinism_none : DeterminismMode → UnverifiedReason
  determinism_unrecognized : UnverifiedReason

pub record OfflineGateReport : Type 0 where
  pub status : GateStatus
  pub generator_root : Option (List ℕ)
  pub solver_flag : Option (List ℕ)
  pub expected_flag : Option (List ℕ)
  pub generator_runs : Option ℕ
  pub cross_engine : Option Bool
  pub artifact_count : Option ℕ
  pub unverified_reason : Option UnverifiedReason

pub data GateStage : Type 0 where
  determinism_stage : GateStage
  solver_stage : GateStage

pub record DeterminismSummary : Type 0 where
  pub root : List ℕ
  pub runs : ℕ
  pub cross_engine : Bool

pub record GateError : Type 0 where
  pub stage : GateStage
  pub source : GeneratorError
  pub determinism : Option DeterminismSummary

unfoldable pub unverified_report : UnverifiedReason → OfflineGateReport
unverified_report reason = record {
  status = unverified;
  generator_root = none;
  solver_flag = none;
  expected_flag = none;
  generator_runs = none;
  cross_engine = none;
  artifact_count = none;
  unverified_reason = some reason;
}

unfoldable pub is_declared : List ℕ → List (List ℕ) → Bool
is_declared name [] = false
is_declared name (d ∷ ds) = bytes_eq d name || is_declared name ds

unfoldable pub check_declared : List (List ℕ) → List Output → Outcome GateError (Unit {0})
check_declared declared [] = ok tt
check_declared declared (o ∷ os) = do
  fail_if (not (is_declared o.name declared))
      (record { stage = determinism_stage; source = undeclared_output o.name; determinism = none })
  check_declared declared os

-- `if flag == input.expected_flag`
unfoldable pub status_of : Bool → GateStatus
status_of true = passed
status_of false = failed

-- From the determinism gate on, with both modules at hand.
unfoldable pub run_gate :
    Engines → OfflineGate → (generator solver : List ℕ) → Outcome GateError OfflineGateReport
run_gate e input generator solver = do
  gate ←
      map_err (λ source. record { stage = determinism_stage; source = source; determinism = none })
        (determinism_gate e generator input.seed 2)
  check_declared input.declared_outputs gate.outputs.outputs
  let summary : DeterminismSummary = record {
    root = gate.root;
    runs = gate.runs;
    cross_engine = gate.cross_engine;
  }
  let at_solver : GeneratorError → GateError =
      λ source. record { stage = solver_stage; source = source; determinism = some summary }
  map_err at_solver (e.solver_new solver)
  flag ← map_err at_solver (e.solver_run solver (encode_artifacts gate.outputs.outputs))
  ok (record {
    status = status_of (bytes_eq flag input.expected_flag);
    generator_root = some gate.root;
    solver_flag = some flag;
    expected_flag = some input.expected_flag;
    generator_runs = some gate.runs;
    cross_engine = some gate.cross_engine;
    artifact_count = some (length gate.outputs.outputs);
    unverified_reason = none;
  })

-- The early returns: the reason why the gate is not run, or both modules.
unfoldable pub modules_of :
    Option (List ℕ) → Option (List ℕ) → Outcome UnverifiedReason (List ℕ × List ℕ)
modules_of (some generator) (some solver) = ok (generator, solver)
modules_of none solver = err no_generator
modules_of (some generator) none = err no_solver

unfoldable pub check_mode : DeterminismDeclaration → Outcome UnverifiedReason (Unit {0})
check_mode absent = ok tt
check_mode (mode m) = fail_if (suppresses_gate m) (determinism_none m)
check_mode unrecognized = err determinism_unrecognized

unfoldable pub eligible : OfflineGate → Outcome UnverifiedReason (List ℕ × List ℕ)
eligible input = do
  check_mode input.determinism
  fail_if input.runtime_declared runtime
  modules ← modules_of input.generator input.solver
  fail_if (not input.offline_declared) offline_not_declared
  ok modules

unfoldable pub gate_or_report :
    Engines
    → OfflineGate
    → Outcome UnverifiedReason (List ℕ × List ℕ)
    → Outcome GateError OfflineGateReport
gate_or_report e input (ok modules) = run_gate e input modules.0 modules.1
gate_or_report e input (err reason) = ok (unverified_report reason)

unfoldable pub offline_gate : Engines → OfflineGate → Outcome GateError OfflineGateReport
offline_gate e input = gate_or_report e input (eligible input)
