-- ===== src/Codec/Validation.antt =====
-- packages/codec/src/validation.ts. The numbers are non-negative integers; `undefined` is `none`.
pub mod Laws
use unicas.Base.{
  ℕ, ◌+◌, ◌-◌, ◌*◌, ◌^◌, Bool, true, false, ◌&&◌, ◌||◌, not, Option, none, some, List, [], ◌∷◌,
  length, every, if◌then◌else◌, ltb, leb, ◌==◌, Result, ok, err, ◌>>=◌, ◌>>◌, throw_if,
}
use unicas.Base.Text.{Text, same}
use unicas.Codec.Bytes.{Bytes}
use unicas.Codec.Host.{TextCoding, printable}
use unicas.Codec.Errors.{
  CodecError, invalid_limit, invalid_content_size, content_type_length_range, ref_count_range,
  unsafe_total, node_too_large, hash_length, hash_not_hex, raw_hash_length, content_type_empty,
  content_type_too_long, content_type_nul, content_type_not_printable, invalid_signature,
  unsupported_version, flags_not_zero, reserved_not_zero, ref_count_mismatch,
  content_length_mismatch,
}
use unicas.Codec.Binary.{
  header_size, hash_size, hash_hex_length, min_content_type_length, max_content_type_length,
  version_number, signature_bytes, DecodedHeader,
}

-- `Number.isSafeInteger` on a non-negative integer.
abbrev pub is_safe : ℕ → Bool
is_safe n = ltb n (2 ^ 53)

abbrev pub max_canonical_node_bytes : ℕ
max_canonical_node_bytes = 64 * 1024 * 1024

abbrev pub max_node_refs_limit : ℕ
max_node_refs_limit = 256

pub record CanonicalNodeLimits : Type 0 where
  pub max_canonical_node_bytes : Option ℕ
  pub max_node_refs : Option ℕ

abbrev pub no_limits : CanonicalNodeLimits
no_limits = record { max_canonical_node_bytes = none; max_node_refs = none }

unfoldable pub resolve_limit : Option ℕ → ℕ → Bool → Result CodecError ℕ
resolve_limit none maximum allow_zero = ok maximum
resolve_limit (some value) maximum allow_zero =
    let minimum : ℕ = if allow_zero then 0 else 1 in
    if not (is_safe value) || (ltb value minimum || ltb maximum value)
    then err invalid_limit
    else ok value

-- The canonical byte length, after the version-1 limits.
unfoldable pub validate_canonical_node_size : ℕ → ℕ → ℕ → CanonicalNodeLimits → Result CodecError ℕ
validate_canonical_node_size content_size content_type_length ref_count limits = do
  max_bytes ← resolve_limit limits.max_canonical_node_bytes max_canonical_node_bytes false
  max_refs ← resolve_limit limits.max_node_refs max_node_refs_limit true
  throw_if (not (is_safe content_size)) invalid_content_size
  throw_if
      (not (is_safe content_type_length)
        || (ltb content_type_length min_content_type_length
            || ltb max_content_type_length content_type_length))
      content_type_length_range
  throw_if (not (is_safe ref_count) || ltb max_refs ref_count) ref_count_range
  let total = header_size + content_type_length + ref_count * hash_size + content_size
  throw_if (not (is_safe total)) unsafe_total
  throw_if (ltb max_bytes total) node_too_large
  ok total

-- [0-9a-f]
abbrev pub is_hex : ℕ → Bool
is_hex c = leb 48 c && leb c 57 || leb 97 c && leb c 102

unfoldable pub validate_hash : Text → Result CodecError (Unit {0})
validate_hash hash = do
  throw_if (not (length hash == hash_hex_length)) hash_length
  throw_if (not (every is_hex hash)) hash_not_hex

unfoldable pub validate_raw_hash : Bytes → Result CodecError (Unit {0})
validate_raw_hash raw = throw_if (not (length raw == hash_size)) raw_hash_length

abbrev pub has_nul : Text → Bool
has_nul [] = false
has_nul (c ∷ cs) = c == 0 || has_nul cs

unfoldable pub validate_content_type : TextCoding → Text → Result CodecError (Unit {0})
validate_content_type coding content_type = do
  let bytes = coding.encode content_type
  throw_if (ltb (length bytes) min_content_type_length) content_type_empty
  throw_if (ltb max_content_type_length (length bytes)) content_type_too_long
  throw_if (has_nul content_type) content_type_nul
  throw_if (not (ltb 0 (length content_type) && every printable content_type))
      content_type_not_printable

-- The signature has two bytes; `decoded.signature[0]` and `[1]` are compared with theirs.
unfoldable pub validate_decoded_header : DecodedHeader → Result CodecError (Unit {0})
validate_decoded_header decoded = do
  throw_if (not (same decoded.signature signature_bytes)) invalid_signature
  throw_if (not (decoded.version == version_number)) unsupported_version
  throw_if (not (decoded.flags == 0)) flags_not_zero
  throw_if (not (decoded.reserved == 0)) reserved_not_zero
  size ←
      validate_canonical_node_size decoded.content_size decoded.content_type_length
        decoded.ref_count no_limits
  ok tt

-- `for (const ref of refs) validateHash(ref)`.
unfoldable pub validate_hashes : List Text → Result CodecError (Unit {0})
validate_hashes [] = ok tt
validate_hashes (ref ∷ refs) = do validate_hash ref; validate_hashes refs

unfoldable pub validate_child_refs : List Text → ℕ → Result CodecError (Unit {0})
validate_child_refs refs ref_count = do
  throw_if (not (length refs == ref_count)) ref_count_mismatch
  validate_hashes refs

unfoldable pub validate_content_length : ℕ → ℕ → Result CodecError (Unit {0})
validate_content_length actual expected =
    throw_if (not (actual == expected)) content_length_mismatch
