-- ===== src/Codec/Errors.antt =====
-- The errors that packages/codec/src throws: one constructor for each message, without its values.

pub data CodecError : Type 0 where
  -- binary.ts
  header_length node_too_short node_length_mismatch range_error : CodecError
  -- digest.ts
  hash_byte_length hash_hex_length : CodecError
  -- validation.ts
  invalid_limit invalid_content_size content_type_length_range ref_count_range : CodecError
  unsafe_total node_too_large : CodecError
  hash_length hash_not_hex raw_hash_length : CodecError
  content_type_empty content_type_too_long content_type_nul content_type_not_printable : CodecError
  invalid_signature unsupported_version flags_not_zero reserved_not_zero : CodecError
  ref_count_mismatch content_length_mismatch : CodecError
  -- canonical-stream.ts
  stream_ended declared_length_mismatch : CodecError
