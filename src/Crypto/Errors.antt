-- ===== src/Crypto/Errors.antt =====
-- ctf-format/crates/ctf-format/src/suite.rs: the roles of a suite, and what a role reports.
use sidequests.Common.{ℕ, String}

pub data Role : Type 0 where
  hash kdf kem aead signature : Role

pub data SuiteError : Type 0 where
  unknown_suite : (id : ℕ) → SuiteError
  not_implemented : (suite : ℕ) (role : Role) → SuiteError
  invalid_length : (role : Role) (expected got : ℕ) → SuiteError
  invalid_key : (role : Role) → SuiteError
  primitive : (role : Role) (reason : String) → SuiteError
  verification_failed : (component : String) → SuiteError
  invalid_stage : SuiteError
