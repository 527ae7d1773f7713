-- ===== src/Codec/Stream.antt =====
-- packages/codec/src/canonical-stream.ts. The source is the sequence of chunks that its reader
-- yields; a body is read to its end, and cancelling one is not modelled.
pub mod Read
pub mod Whole
pub mod Replay
pub mod Agree
pub mod Parsers
use unicas.Base.{
  ℕ, zero, suc, ◌+◌, ◌-◌, ◌*◌, Bool, true, false, not, Option, none, some, List, [], ◌∷◌, ◌++◌,
  length, take, drop, slice, every, if◌then◌else◌, ltb, leb, ◌==◌, Result, ok, err, ◌>>=◌, ◌>>◌,
  throw_if,
}
use unicas.Base.Text.{Text}
use unicas.Codec.Bytes.{Bytes}
use unicas.Codec.Host.{TextCoding, printable}
use unicas.Codec.Errors.{
  CodecError, stream_ended, declared_length_mismatch, content_type_not_printable,
}
use unicas.Codec.Binary.{header_size, hash_size, decode_header}
use unicas.Codec.Digest.{hash_to_hex}
use unicas.Codec.Validation.{
  CanonicalNodeLimits, validate_canonical_node_size, validate_content_type, validate_decoded_header,
}

-- What is left of the last chunk, and the chunks that the reader has not yet yielded.
pub record StreamCursor : Type 0 where
  pub remainder : Option Bytes
  pub chunks : List Bytes

abbrev pub open_cursor : List Bytes → StreamCursor
open_cursor chunks = record { remainder = none; chunks = chunks }

-- The chunks that the cursor takes next.
abbrev pub pending : StreamCursor → List Bytes
pending cursor = elim cursor.remainder [ none ↦ cursor.chunks | some r ↦ r ∷ cursor.chunks ]

-- The rounds of `readExactly` that take a chunk; `done` is the part of the result written so far.
unfoldable pub read_chunks : ℕ → Bytes → List Bytes → Result CodecError (Bytes × StreamCursor)
read_chunks n done [] = if ltb (length done) n then err stream_ended else ok (done, open_cursor [])
read_chunks n done (chunk ∷ chunks) =
    let room = n - length done in
    let rest = read_chunks n (done ++ chunk) chunks in
    if ltb (length done) n
    then if ltb room (length chunk)
      then ok
          (done ++ take room chunk, record { remainder = some (drop room chunk); chunks = chunks })
      else rest
    else ok (done, open_cursor (chunk ∷ chunks))

unfoldable pub read_exactly : ℕ → StreamCursor → Result CodecError (Bytes × StreamCursor)
read_exactly n cursor = if ltb 0 n then read_chunks n [] (pending cursor) else ok ([], cursor)

pub data ReplayEnd : Type 0 where
  closed length_mismatch length_exceeded : ReplayEnd

-- The chunks that a replayed body enqueues, and how it ends.
unfoldable pub replay_chunks : ℕ → ℕ → List Bytes → List Bytes × ReplayEnd
replay_chunks expected emitted [] = ([], if emitted == expected then closed else length_mismatch)
replay_chunks expected emitted (chunk ∷ chunks) =
    let rest = replay_chunks expected (emitted + length chunk) chunks in
    if ltb expected (emitted + length chunk)
    then ([], length_exceeded)
    else (chunk ∷ rest.0, rest.1)

unfoldable pub replay : StreamCursor → Bytes → ℕ → List Bytes × ReplayEnd
replay cursor prefix expected = replay_chunks expected 0 (prefix ∷ pending cursor)

-- The body is `replay cursor prefix canonical_size`.
pub record ParsedCanonicalNodeStream : Type 0 where
  pub content_size : ℕ
  pub content_type : Text
  pub refs : List Text
  pub canonical_size : ℕ
  pub prefix : Bytes
  pub cursor : StreamCursor

-- The loop over `refsBytes` by `HASH_SIZE`, one round for each ref.
unfoldable pub hex_refs : ℕ → Bytes → ℕ → Result CodecError (List Text)
hex_refs zero refs_bytes offset = ok []
hex_refs (suc n) refs_bytes offset = do
  ref ← hash_to_hex (slice offset (offset + hash_size) refs_bytes)
  refs ← hex_refs n refs_bytes (offset + hash_size)
  ok (ref ∷ refs)

abbrev pub differs : Option ℕ → ℕ → Bool
differs none n = false
differs (some declared) n = not (declared == n)

unfoldable pub parse_canonical_node_stream :
    TextCoding
    → List Bytes
    → Option ℕ
    → CanonicalNodeLimits
    → Result CodecError ParsedCanonicalNodeStream
parse_canonical_node_stream coding source declared_length limits = do
  (header, after_header) ← read_exactly header_size (open_cursor source)
  d ← decode_header header
  validate_decoded_header d
  canonical_size ←
      validate_canonical_node_size d.content_size d.content_type_length d.ref_count limits
  throw_if (differs declared_length canonical_size) declared_length_mismatch
  (type_bytes, after_type) ← read_exactly d.content_type_length after_header
  throw_if (not (every printable type_bytes)) content_type_not_printable
  validate_content_type coding (coding.decode type_bytes)
  (refs_bytes, after_refs) ← read_exactly (d.ref_count * hash_size) after_type
  refs ← hex_refs d.ref_count refs_bytes 0
  ok (record {
    content_size = d.content_size;
    content_type = coding.decode type_bytes;
    refs = refs;
    canonical_size = canonical_size;
    prefix = header ++ (type_bytes ++ refs_bytes);
    cursor = after_refs;
  })
