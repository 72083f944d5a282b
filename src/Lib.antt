-- ===== src/Lib.antt =====
-- The .ctf bundle format: a verification library beside ctf-format/crates/ctf-format and
-- ctf-format/crates/ctf-generator.
--
-- A bundle is a file of five parts: a 64-byte header, a table of 128-byte section records, the
-- sections' stored bytes with their chunk indices, padding, and a footer that ends the file with the
-- commitment root, two signatures and the total length. A reader parses the header, then the table that
-- the header points to, then checks the layout of the whole file against both, then the footer with its
-- commitment over the header and the table, then the manifest against its own root and the table. The
-- manifest section is canonical CBOR. An encrypted section is a STREAM of AEAD chunks under a content key,
-- which an envelope delivers to a recipient by a hybrid KEM; the footer is signed by a hybrid signature. The chunk index of a section lets a reader verify one chunk
-- against the section's BLAKE3 root. A challenge's generator and solver are WebAssembly modules: before
-- a challenge is released the gate runs the generator twice, and in a second engine, and lets the solver
-- find the flag in the artifacts.
--
-- Files, and the code that each models (paths below ctf-format/crates/ctf-format/src):
--   Common           lists, Boolean tests, masks and sorting that all modules share
--   Error            error.rs: Error and Result
--   Wire, Format     lib.rs: u16_at, u32_at, u64_at, all_zero, and the constants
--   Header           header.rs: Header::{parse, may_rewrite, table_range, check_file_len, to_bytes}
--   Kinds            section.rs: SectionKind, SectionFlags, Encryption, Compression, RuleSet
--   Section          section.rs: SectionRecord::{parse, parse_with, to_bytes}; the checks in the middle of
--                    parse_with are functions of their own: check_kind, check_codec, check_extent,
--                    check_lengths, check_chunking, check_index
--   Layout           section.rs: parse_table_with, validate_layout, check_padding, check_zero,
--                    overlap_error
--   Chunk            chunk.rs: chunk_count, index_len; Chunk.Tree: chunk_cv, split_canonical,
--                    merge_non_root, root_from_cvs; Chunk.Index: ChunkIndex, VerifiedChunkIndex;
--                    Chunk.Stream: verify_stream
--   Footer           footer.rs: Footer::{parse, signing, to_bytes, sig_input}, sig_input,
--                    commitment_root
--   Compress         compress.rs: check_caps, compress, compress_frames, decompress, decompress_exact
--   ImageRef         policy.rs: check_image_ref
--   Utf8             core::str::from_utf8 of the standard library, as the CBOR reader uses it
--   Abi, Gate        ctf-format/crates/ctf-generator/src: abi.rs, the blocks that a generator and a solver
--                    exchange; gate.rs, determinism_gate and offline_gate
--   Outcome          Result with an error type of the caller's, for Abi, Gate and Crypto
--   Cbor             cbor.rs: Value::{decode, encode}, put_head, Decoder; Cbor.Access: the accessors
--   Manifest         manifest.rs: Manifest.Shape: check_id, check_name, check_path; Manifest.Decode:
--                    Manifest::{decode, encode}, parse_external; Manifest.Readers: the readers and build;
--                    Manifest.Against: validate_against
--   Crypto           suite.rs, crypto/: Crypto.Errors, Crypto.Roles, Crypto.Registry: the suites;
--                    Crypto.Aead, Crypto.Kem, Crypto.Sign: the roles over the crates; Crypto.Stream:
--                    stream.rs, where chunk_count is stream_chunk_count
--   Envelope         envelope.rs: seal, Envelope::open as open_envelope, and the CBOR form
--   Bundle           bundle.rs: Bundle::parse, verified_bytes, and slice as file_slice;
--                    Bundle.Sections: section_bytes, chunk_index, decrypt_section_bytes,
--                    verify_inline_sections; Bundle.ContentKey: section_content_key; Bundle.Writer and
--                    Bundle.Write: SectionSpec, encrypt_section, write_bundle; Bundle.Signed: sign_bundle,
--                    write_signed_bundle
--   Entitlement      entitlement.rs: records and their signing; Entitlement.Chain: EntitlementChain::{append_grant,
--                    append_transfer, validate, from_bytes, encode}; Entitlement.Authenticity: HolderKeys,
--                    verify_signatures
--   Progress         progress.rs: seal_progress, open_progress; fresh_content_key of crypto/stream.rs
--   Derive           derive.rs: subject_seed, flag, base32_lower, stage_key
-- Below each are the modules with its proofs, named for what they prove, and Tests with examples.
--
-- Conventions. A byte string is a list of numbers, and a theorem says where it needs them below 256. A
-- machine integer is a number; every checked, saturating or wrapping operation is written out. `usize`
-- is 64 bits wide, so conversions from `u64` do not fail. A `&mut` cursor or output buffer is passed
-- and returned.
--
-- Fuel. The CBOR coder recurses on MAX_DEPTH + 1 less the depth, so it is out of levels exactly where the
-- source refuses the nesting. `merge_non_root` recurses on the 64 bits of a length: each split halves a
-- power of two above the length. The loop of open_chunked_frames has the length of the body as fuel, and
-- every round reads a length prefix. The reader of verify_stream is the list of what its calls return.
--
-- Parameters. BLAKE3 is a record of functions (a subtree's value, two merges, the hash); one theorem
-- assumes of it how the crate documents the tree to split. The WebAssembly engines are a record of
-- functions too, which nothing is assumed of, and so is zstd, of which one theorem assumes that it
-- decodes what it has encoded. Crypto.Crates is the record of what the cryptographic crates compute; what
-- theorems assume of it are the laws IsAead (a sealed text opens to itself, and has its tag), IsBinding (it
-- opens under no other nonce) and IsHybrid (both ends of a KEM agree). Random draws are arguments.
--
-- Not modelled: the generation of keys and other draws of randomness; packing, release and serving,
-- descriptors, authoring; the WebAssembly host, and the programs (command
-- line, terminal interface, conformance runner).
pub mod Common
pub mod Error
pub mod Wire
pub mod Format
pub mod Header
pub mod Kinds
pub mod Footer
pub mod Chunk
pub mod Section
pub mod Layout
pub mod Utf8
pub mod Cbor
pub mod Abi
pub mod Bundle
pub mod Compress
pub mod Crypto
pub mod Derive
pub mod Entitlement
pub mod Envelope
pub mod Gate
pub mod ImageRef
pub mod Manifest
pub mod Outcome
pub mod Progress
