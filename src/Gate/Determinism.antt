-- ===== src/Gate/Determinism.antt =====
-- What the determinism gate has established when it accepts a generator.
use sidequests.Common.{ℕ, ◌≡◌, List}
use sidequests.Abi.{GeneratorOutput, output_root}
use sidequests.Gate.{Engines}

-- An output has this root.
abbrev pub HasRoot : Engines → List ℕ → GeneratorOutput → Type 0
HasRoot e root o = output_root e.blake3 o ≡ root
