-- ===== src/Tests/Codec.antt =====
-- Runs of the codec and its theorems at a node with one child, of the type "a/b".
use unicas.Base.{
  ℕ, ◌+◌, ◌*◌, ◌≤◌, ◌≡◌, ◌↔◌, refl, List, [], ◌∷◌, ◌++◌, none, some, ok, err, ◌>>=◌, length,
  replicate, arith, flatten, true, every, slice,
}
use unicas.Base.Text.{Text, codes, same}
use unicas.Codec.Bytes.{Bytes, le_bytes, le_value}
use unicas.Codec.Host.{ascii_coding, Digester}
use unicas.Codec.Errors.{stream_ended}
use unicas.Codec.Binary.{
  DecodedHeader, NodeParts, encode_header, decode_header, concatenate_node_bytes, parse_node_bytes,
  slice_hashes,
}
use unicas.Codec.Binary.Numbers.{number_of_u64}
use unicas.Codec.Binary.Header.{version_1, decode_header-encode_header, encode_header-decode_header}
use unicas.Codec.Binary.Canonical.{parse_node_bytes-concatenate_node_bytes}
use unicas.Codec.Binary.Parsed.{concatenate_node_bytes-parse_node_bytes}
use unicas.Codec.Digest.{compute_node_digest, hash_to_hex, hex_to_hash, hex_byte, hex_bytes}
use unicas.Codec.Digest.RoundTrip.{hex_to_hash-hash_to_hex, hash_to_hex-hex_to_hash}
use unicas.Codec.Digest.NodeDigest.{compute_node_digest-concatenate_node_bytes}
use unicas.Codec.Validation.{
  no_limits, validate_canonical_node_size, validate_decoded_header, validate_hash,
  validate_child_refs, validate_content_type, resolve_limit, is_hex,
}
use unicas.Codec.Validation.Laws.{
  WithinLimits, validate_canonical_node_size_iff, validate_decoded_header_iff,
  validate_child_refs_iff,
}
use unicas.Codec.Stream.{
  pending, open_cursor, read_exactly, read_chunks, replay, closed, ParsedCanonicalNodeStream,
  parse_canonical_node_stream, hex_refs,
}
use unicas.Codec.Stream.Read.{on_bytes, read_exactly-read_bytes}
use unicas.Codec.Stream.Replay.{replay_lem}
use unicas.Codec.Stream.Whole.{parse_prefix, as_prefix, parse_canonical_node_stream-parse_prefix}
use unicas.Codec.Stream.Agree.{replay-parse_canonical_node_stream}
use unicas.Codec.Stream.Parsers.{CanonicalNode, parse_node_bytes-parse_canonical_node_stream}

abbrev type : Text
type = codes "a/b"

abbrev child : Bytes
child = replicate 32 0xab

abbrev content : Bytes
content = 1 ∷ 2 ∷ 3 ∷ []

abbrev children : List Bytes
children = child ∷ []

abbrev node_header : Bytes
node_header =
    0x55 ∷ 0x44 ∷ 1 ∷ 0 ∷ 0 ∷ 0 ∷ 0 ∷ 0 ∷ 3 ∷ 0 ∷ 0 ∷ 0 ∷ 0 ∷ 0 ∷ 0 ∷ 0 ∷ 1 ∷ 0 ∷ 0 ∷ 0 ∷ 3 ∷ 0 ∷ 0
    ∷ 0 ∷ []

abbrev node : Bytes
node = node_header ++ (type ++ (child ++ content))

-- The bytes of the node in three chunks, of which the first cuts the header.
abbrev cut_node : List Bytes
cut_node = slice 0 10 node ∷ slice 10 40 node ∷ slice 40 62 node ∷ []

header_run : encode_header ascii_coding 3 type 1 ≡ node_header
unfolding encode_header le_bytes
header_run = refl

decode_header-encode_header_example :
    decode_header (encode_header ascii_coding 3 type 1) ≡ ok (version_1 ascii_coding 3 1 type)
decode_header-encode_header_example =
    decode_header-encode_header ascii_coding 3 1 type (omega arith) (omega arith) (omega arith)

abbrev node_decoded : DecodedHeader
node_decoded = version_1 ascii_coding 3 1 type

decode_run : decode_header node_header ≡ ok node_decoded
unfolding decode_header number_of_u64 le_value
decode_run = refl

encode_header-decode_header_example : encode_header ascii_coding 3 type 1 ≡ node_header
encode_header-decode_header_example =
    encode_header-decode_header ascii_coding node_header type (omega arith) node_decoded decode_run
      refl refl refl refl (omega arith) refl

abbrev parsed_node : NodeParts
parsed_node = record {
  header = node_header;
  content_type = type;
  child_hashes = children;
  content = content;
}

parse_node_bytes-concatenate_node_bytes_example :
    (concatenate_node_bytes node_header type children content >>= parse_node_bytes ascii_coding)
    ≡ ok parsed_node
unfolding encode_header le_bytes
parse_node_bytes-concatenate_node_bytes_example =
    parse_node_bytes-concatenate_node_bytes ascii_coding type children content (omega arith)
      (omega arith) (omega arith) (omega arith)

parse_run : parse_node_bytes ascii_coding node ≡ ok parsed_node
unfolding parse_node_bytes decode_header number_of_u64 le_value slice_hashes
parse_run = refl

concatenate_node_bytes-parse_node_bytes_example :
    (t : Bytes) × (t ≡ type)
    × (concatenate_node_bytes parsed_node.header t parsed_node.child_hashes parsed_node.content
        ≡ ok node)
concatenate_node_bytes-parse_node_bytes_example =
    concatenate_node_bytes-parse_node_bytes ascii_coding node parsed_node parse_run

abbrev constant_digester : Digester
constant_digester = record {
  sha256 = λ b. child;
  sha256_length = λ b. refl;
  sha256_bytes = λ b. omega arith;
}

compute_node_digest-concatenate_node_bytes_example :
    compute_node_digest ascii_coding constant_digester node_header type children content ≡ (
      concatenate_node_bytes node_header type children content >>= λ bytes.
      ok (constant_digester.sha256 bytes))
compute_node_digest-concatenate_node_bytes_example =
    compute_node_digest-concatenate_node_bytes ascii_coding constant_digester node_header type
      children content refl

child_text_run : hash_to_hex (0xab ∷ 0x05 ∷ replicate 30 0) ≡ ok (codes "ab05" ++ replicate 60 48)
unfolding hash_to_hex hex_bytes hex_byte
child_text_run = refl

hex_to_hash-hash_to_hex_example :
    (text : Text) × (hash_to_hex child ≡ ok text)
    × (validate_hash text ≡ ok tt)
    × (hex_to_hash text ≡ ok child)
hex_to_hash-hash_to_hex_example = hex_to_hash-hash_to_hex child (omega arith) refl

abbrev zero_text : Text
zero_text = replicate 64 48

zero_text_run : validate_hash zero_text ≡ ok tt
unfolding validate_hash
zero_text_run = refl

hash_to_hex-hex_to_hash_example :
    (hash : Bytes) × (hex_to_hash zero_text ≡ ok hash)
    × (length hash ≡ 32)
    × (hash_to_hex hash ≡ ok zero_text)
hash_to_hex-hex_to_hash_example = hash_to_hex-hex_to_hash zero_text zero_text_run

validate_canonical_node_size_iff_example :
    (validate_canonical_node_size 3 3 1 no_limits ≡ ok 62)
    ↔ (WithinLimits 3 3 1 no_limits × ◌≡◌ {A = ℕ} 62 (24 + 3 + 1 * 32 + 3))
validate_canonical_node_size_iff_example = validate_canonical_node_size_iff 3 3 1 62 no_limits

validate_decoded_header_iff_example : (validate_decoded_header node_decoded ≡ ok tt) ↔ (
    (node_decoded.signature ≡ 0x55 ∷ 0x44 ∷ [])
    × (node_decoded.version ≡ 1)
    × (node_decoded.flags ≡ 0)
    × (node_decoded.reserved ≡ 0)
    × WithinLimits 3 3 1 no_limits)
validate_decoded_header_iff_example = validate_decoded_header_iff node_decoded

validate_child_refs_iff_example : (validate_child_refs (zero_text ∷ []) 1 ≡ ok tt) ↔ (
    (length (zero_text ∷ []) ≡ 1)
    × (((length zero_text ≡ 64) × (every is_hex zero_text ≡ true)) × Unit {0}))
validate_child_refs_iff_example = validate_child_refs_iff (zero_text ∷ []) 1

read_exactly-read_bytes_example :
    on_bytes (read_exactly 24 (open_cursor cut_node)) ≡ ok (node_header, type ++ (child ++ content))
unfolding flatten
read_exactly-read_bytes_example = read_exactly-read_bytes 24 (open_cursor cut_node)

replay_lem_example :
    (((replay (open_cursor (content ∷ [])) type 6).1 ≡ closed) ↔ ◌≡◌ {A = ℕ} (3 + 3) 6)
    × ((replay (open_cursor (content ∷ [])) type 6).1 ≡ closed
        → (replay (open_cursor (content ∷ [])) type 6).0 ≡ type ∷ content ∷ [])
    × (length (flatten (replay (open_cursor (content ∷ [])) type 6).0) ≤ 6)
unfolding flatten
replay_lem_example = replay_lem (open_cursor (content ∷ [])) type 6

parse_canonical_node_stream-parse_prefix_example :
    as_prefix (parse_canonical_node_stream ascii_coding cut_node (some 62) no_limits)
    ≡ parse_prefix ascii_coding node (some 62) no_limits
unfolding flatten
parse_canonical_node_stream-parse_prefix_example =
    parse_canonical_node_stream-parse_prefix ascii_coding cut_node (some 62) no_limits

abbrev parsed_stream : ParsedCanonicalNodeStream
parsed_stream = record {
  content_size = 3;
  content_type = type;
  refs = codes "abababababababababababababababababababababababababababababababab" ∷ [];
  canonical_size = 62;
  prefix = slice 0 59 node;
  cursor = record { remainder = some content; chunks = [] };
}

stream_run :
    parse_canonical_node_stream ascii_coding cut_node (some 62) no_limits ≡ ok parsed_stream
unfolding parse_canonical_node_stream read_exactly read_chunks decode_header number_of_u64 le_value
    validate_decoded_header validate_canonical_node_size resolve_limit validate_content_type
    hex_refs hash_to_hex hex_bytes hex_byte same
stream_run = refl

replay-parse_canonical_node_stream_example :
    (((replay parsed_stream.cursor parsed_stream.prefix 62).1 ≡ closed) ↔ (length node ≡ 62))
    × ((replay parsed_stream.cursor parsed_stream.prefix 62).1 ≡ closed
        → flatten (replay parsed_stream.cursor parsed_stream.prefix 62).0 ≡ node)
unfolding flatten
replay-parse_canonical_node_stream_example =
    replay-parse_canonical_node_stream ascii_coding cut_node (some 62) no_limits parsed_stream
      stream_run

parse_node_bytes-parse_canonical_node_stream_example :
    CanonicalNode ascii_coding
      (flatten cut_node)
      no_limits
      type
      parsed_stream.refs
      (flatten (pending parsed_stream.cursor))
      3
unfolding flatten
parse_node_bytes-parse_canonical_node_stream_example =
    parse_node_bytes-parse_canonical_node_stream ascii_coding cut_node (some 62) no_limits
      parsed_stream stream_run refl

-- A source that ends inside the header.
short_run :
    parse_canonical_node_stream ascii_coding ((1 ∷ []) ∷ []) none no_limits ≡ err stream_ended
unfolding parse_canonical_node_stream read_exactly read_chunks
short_run = refl
