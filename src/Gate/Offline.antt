-- ===== src/Gate/Offline.antt =====
-- When the offline gate passes a challenge, and when it does not run.
use sidequests.Common.{
  ℕ, ◌≡◌, ◌⊎◌, refl, inl, inr, List, [], ◌∷◌, All, true, false, Option, none, some, Bool-cases,
  arith,
}
use sidequests.Outcome.{ok, Outcome-cases}
use sidequests.Wire.{bytes_eq, bytes_eq→eq}
use sidequests.Abi.{Output, encode_artifacts}
use sidequests.Gate.{
  Engines, GateReport, passed, OfflineGate, OfflineGateReport, DeterminismDeclaration, absent, mode,
  unrecognized, strict, flag_only, no_determinism, suppresses_gate, determinism_gate, is_declared,
  check_declared, run_gate, status_of, modules_of, check_mode, eligible, gate_or_report,
  offline_gate, unverified_report,
}

check_declared-All :
    (declared : List (List ℕ)) (os : List Output)
    → check_declared declared os ≡ ok tt
    → All (λ o. is_declared o.name declared ≡ true) os
unfolding check_declared
check_declared-All declared [] h = tt
check_declared-All declared (o ∷ os) h = elim (Bool-cases (is_declared o.name declared)) [
  | inl found ↦ (found, check_declared-All declared os (ground arith))
  | inr missing ↦ absurd (ground arith)
]

-- What a challenge needs to be gated at all.
pub record IsEligible (input : OfflineGate) (generator solver : List ℕ) : Type 0 where
  pub mode_allows : (input.determinism ≡ absent) ⊎ (input.determinism ≡ mode strict)
  pub no_runtime : input.runtime_declared ≡ false
  pub offline : input.offline_declared ≡ true
  pub generator_is : input.generator ≡ some generator
  pub solver_is : input.solver ≡ some solver

check_mode-eq-ok :
    (d : DeterminismDeclaration) → check_mode d ≡ ok tt → (d ≡ absent) ⊎ (d ≡ mode strict)
unfolding check_mode suppresses_gate
check_mode-eq-ok absent h = inl refl
check_mode-eq-ok (mode strict) h = inr refl
check_mode-eq-ok (mode flag_only) h = cc
check_mode-eq-ok (mode no_determinism) h = cc
check_mode-eq-ok unrecognized h = cc

modules_of-eq-ok :
    (g s : Option (List ℕ)) (generator solver : List ℕ)
    → modules_of g s ≡ ok (generator, solver)
    → (g ≡ some generator) × (s ≡ some solver)
unfolding modules_of
modules_of-eq-ok none s generator solver h = cc
modules_of-eq-ok (some g) none generator solver h = cc
modules_of-eq-ok (some g) (some s) generator solver h = ground arith

eligible-IsEligible :
    (input : OfflineGate) (generator solver : List ℕ)
    → eligible input ≡ ok (generator, solver)
    → IsEligible input generator solver
unfolding eligible
eligible-IsEligible input generator solver h =
    elim (Outcome-cases (modules_of input.generator input.solver)) [
      | inl ((g, s), found) ↦
          let g_is : g ≡ generator = ground arith in
          let s_is : s ≡ solver = ground arith in
          let (g_some, s_some) = modules_of-eq-ok input.generator input.solver g s found in
          record {
            mode_allows = check_mode-eq-ok input.determinism (ground arith);
            no_runtime = ground arith;
            offline = ground arith;
            generator_is = rw (← g_is) g_some;
            solver_is = rw (← s_is) s_some;
          }
      | inr (x, bad) ↦ absurd (ground arith)
    ]

-- What stands behind a report with status `passed`.
pub record HasPassed (e : Engines) (input : OfflineGate) (r : OfflineGateReport) : Type 0 where
  pub generator : List ℕ
  pub solver : List ℕ
  pub gate : GateReport
  pub needs : IsEligible input generator solver
  pub gated : determinism_gate e generator input.seed 2 ≡ ok gate
  pub declared : All (λ o. is_declared o.name input.declared_outputs ≡ true) gate.outputs.outputs
  pub solved : e.solver_run solver (encode_artifacts gate.outputs.outputs) ≡ ok input.expected_flag
  pub root : r.generator_root ≡ some gate.root

run_gate-HasPassed :
    (e : Engines) (input : OfflineGate) (generator solver : List ℕ) (r : OfflineGateReport)
    → IsEligible input generator solver
    → run_gate e input generator solver ≡ ok r
    → r.status ≡ passed
    → HasPassed e input r
unfolding run_gate status_of
run_gate-HasPassed e input generator solver r needs h p =
    elim (Outcome-cases (determinism_gate e generator input.seed 2)) [
      | inr (x, bad) ↦ absurd (ground arith)
      | inl (gate, gated) ↦
          elim (Outcome-cases (e.solver_run solver (encode_artifacts gate.outputs.outputs))) [
            | inr (x, bad) ↦ absurd (ground arith)
            | inl (flag, ran) ↦ elim (Bool-cases (bytes_eq flag input.expected_flag)) [
              | inr other ↦ absurd (ground arith)
              | inl same ↦ record {
                generator = generator;
                solver = solver;
                gate = gate;
                needs = needs;
                gated = gated;
                declared =
                    check_declared-All input.declared_outputs gate.outputs.outputs (ground arith);
                solved = rw (← bytes_eq→eq flag input.expected_flag same) ran;
                root = ground arith;
              }
            ]
          ]
    ]

-- A challenge passes only if it asked for the gate and has both modules, its generator is gated as
-- deterministic, every output is declared, and the solver finds the expected flag in the artifacts
-- alone; and the report has the gated root.
pub offline_gate-HasPassed :
    (e : Engines) (input : OfflineGate) (r : OfflineGateReport)
    → offline_gate e input ≡ ok r
    → r.status ≡ passed
    → HasPassed e input r
unfolding offline_gate gate_or_report unverified_report
offline_gate-HasPassed e input r h p = elim (Outcome-cases (eligible input)) [
  | inl ((generator, solver), found) ↦
      run_gate-HasPassed e input generator solver r
        (eligible-IsEligible input generator solver found) (ground arith) p
  | inr (reason, refused) ↦ absurd (ground arith)
]
