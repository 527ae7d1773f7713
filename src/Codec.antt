-- ===== src/Codec.antt =====
-- packages/codec/src: the canonical binary format of a node, its validation rules, its digest and
-- the parser that reads a node from a stream of chunks.
pub mod Bytes
pub mod Host
pub mod Errors
pub mod Binary
pub mod Digest
pub mod Validation
pub mod Stream
