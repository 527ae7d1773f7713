-- ===== src/Codec/Binary.antt =====
-- packages/codec/src/binary.ts: the 24-byte header, the canonical node bytes and their parser.
pub mod Numbers
pub mod Header
pub mod Canonical
pub mod Parsed
use unicas.Base.{
  ℕ, zero, suc, ◌+◌, ◌-◌, ◌*◌, ◌/◌, ◌%◌, ◌^◌, Bool, List, [], ◌∷◌, ◌++◌, length, slice, replicate,
  if◌then◌else◌, ltb, ◌==◌, not, Result, ok, err, ◌>>=◌, ◌>>◌, throw_if,
}
use unicas.Base.Text.{Text}
use unicas.Codec.Bytes.{Bytes, le_bytes, le_value, set_bytes}
use unicas.Codec.Host.{TextCoding}
use unicas.Codec.Errors.{CodecError, header_length, node_too_short, node_length_mismatch}
use Numbers.{number_of_u64}

abbrev pub header_size : ℕ
header_size = 24

abbrev pub signature_bytes : Bytes
signature_bytes = 0x55 ∷ 0x44 ∷ []

abbrev pub version_number : ℕ
version_number = 1

abbrev pub max_content_type_length : ℕ
max_content_type_length = 1024

abbrev pub min_content_type_length : ℕ
min_content_type_length = 1

abbrev pub hash_size : ℕ
hash_size = 32

abbrev pub hash_hex_length : ℕ
hash_hex_length = 64

-- The writes of `encodeHeader` cover the array from its start to its end.
unfoldable pub encode_header : TextCoding → ℕ → Text → ℕ → Bytes
encode_header coding content_size content_type ref_count =
    signature_bytes
    ++ (le_bytes 2 version_number
        ++ (le_bytes 4 0
            ++ (le_bytes 8 content_size
                ++ (le_bytes 4 ref_count
                    ++ (le_bytes 2 (length (coding.encode content_type)) ++ le_bytes 2 0)))))

pub record DecodedHeader : Type 0 where
  pub signature : Bytes
  pub version : ℕ
  pub flags : ℕ
  pub content_size : ℕ
  pub ref_count : ℕ
  pub content_type_length : ℕ
  pub reserved : ℕ

-- `getUint16`, `getUint32` and `getBigUint64` with littleEndian.
abbrev pub get_uint : ℕ → ℕ → Bytes → ℕ
get_uint offset width bytes = le_value (slice offset (offset + width) bytes)

abbrev pub decoded : Bytes → DecodedHeader
decoded header = record {
  signature = slice 0 2 header;
  version = get_uint 2 2 header;
  flags = get_uint 4 4 header;
  content_size = number_of_u64 (get_uint 8 8 header);
  ref_count = get_uint 16 4 header;
  content_type_length = get_uint 20 2 header;
  reserved = get_uint 22 2 header;
}

unfoldable pub decode_header : Bytes → Result CodecError DecodedHeader
decode_header header =
    if not (length header == header_size) then err header_length else ok (decoded header)

-- The loop over `childHashes`: each is written at the offset, which moves by `HASH_SIZE`.
unfoldable pub set_hashes : Bytes → List Bytes → ℕ → Result CodecError (Bytes × ℕ)
set_hashes result [] offset = ok (result, offset)
set_hashes result (hash ∷ hashes) offset = do
  result' ← set_bytes result hash offset
  set_hashes result' hashes (offset + hash_size)

unfoldable pub concatenate_node_bytes : Bytes → Bytes → List Bytes → Bytes → Result CodecError Bytes
concatenate_node_bytes header content_type child_hashes content = do
  let total = header_size + length content_type + length child_hashes * hash_size + length content
  with_header ← set_bytes (replicate total 0) header 0
  with_type ← set_bytes with_header content_type header_size
  (with_hashes, offset) ← set_hashes with_type child_hashes (header_size + length content_type)
  set_bytes with_hashes content offset

pub record NodeParts : Type 0 where
  pub header : Bytes
  pub content_type : Text
  pub child_hashes : List Bytes
  pub content : Bytes

-- `refCount` slices of `HASH_SIZE` bytes from the offset.
unfoldable pub slice_hashes : ℕ → Bytes → ℕ → List Bytes
slice_hashes zero bytes offset = []
slice_hashes (suc n) bytes offset =
    slice offset (offset + hash_size) bytes ∷ slice_hashes n bytes (offset + hash_size)

abbrev pub expected_length : DecodedHeader → ℕ
expected_length d = header_size + d.content_type_length + d.ref_count * hash_size + d.content_size

abbrev pub split_node : TextCoding → Bytes → DecodedHeader → NodeParts
split_node coding bytes d =
    let type_end = header_size + d.content_type_length in
    let content_start = type_end + d.ref_count * hash_size in
    record {
      header = slice 0 header_size bytes;
      content_type = coding.decode (slice header_size type_end bytes);
      child_hashes = slice_hashes d.ref_count bytes type_end;
      content = slice content_start (content_start + d.content_size) bytes;
    }

unfoldable pub parse_node_bytes : TextCoding → Bytes → Result CodecError NodeParts
parse_node_bytes coding bytes = do
  throw_if (ltb (length bytes) header_size) node_too_short
  d ← decode_header (slice 0 header_size bytes)
  throw_if (not (length bytes == expected_length d)) node_length_mismatch
  ok (split_node coding bytes d)
