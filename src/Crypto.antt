-- ===== src/Crypto.antt =====
-- ctf-format/crates/ctf-format/src/suite.rs and crypto/: the suites and their roles.
pub mod Errors
pub mod Crates
pub mod Roles
pub mod Aead
pub mod Kem
pub mod Prefixed
pub mod Sign
pub mod Registry
pub mod Stream
pub mod Verified
pub mod Decapsulates
pub mod Samples
mod Tests
