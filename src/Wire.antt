-- ===== src/Wire.antt =====
-- The byte readers of ctf-format/crates/ctf-format/src/lib.rs, and the integer encodings of Rust's
-- standard library that the crates use. A byte slice is a list of numbers.
mod Ints
mod Slices
mod Injective
unfoldable pub use Ints.*
unfoldable pub use Slices.*
pub use Injective.*
