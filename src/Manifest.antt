-- ===== src/Manifest.antt =====
-- ctf-format/crates/ctf-format/src/manifest.rs: the manifest, a CBOR map with a schema.
-- A `str` is its UTF-8 bytes.
pub mod Keys
pub mod Shape
pub mod Decode
pub mod Readers
pub mod Against
pub mod Distinct
pub mod Names
pub mod Accepted
pub mod NameTable
pub mod Paths
pub mod Lookup
pub mod Agreement
pub mod Agrees
pub mod Crit
mod Tests
