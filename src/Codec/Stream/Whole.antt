-- ===== src/Codec/Stream/Whole.antt =====
-- The parser of a stream, seen on the bytes of the whole source.
use unicas.Base.{
  ℕ, ◌*◌, ◌≡◌, refl, ap, ◌∙◌, not, Option, List, ◌++◌, every, Result, ok, err, ◌>>=◌, ◌>>◌,
  throw_if, flatten,
}
use unicas.Base.Text.{Text}
use unicas.Codec.Bytes.{Bytes}
use unicas.Codec.Host.{TextCoding, printable}
use unicas.Codec.Errors.{CodecError, declared_length_mismatch, content_type_not_printable}
use unicas.Codec.Binary.{decode_header}
use unicas.Codec.Validation.{
  CanonicalNodeLimits, validate_canonical_node_size, validate_content_type, validate_decoded_header,
}
use unicas.Codec.Stream.{
  StreamCursor, open_cursor, pending, differs, hex_refs, ParsedCanonicalNodeStream,
  parse_canonical_node_stream,
}
use unicas.Codec.Stream.Read.{read_bytes, on_bytes, read_exactly-read_bytes}

-- A parsed prefix and the bytes behind it.
pub record ParsedPrefix : Type 0 where
  pub content_size : ℕ
  pub content_type : Text
  pub refs : List Text
  pub canonical_size : ℕ
  pub prefix : Bytes
  pub rest : Bytes

-- The same checks in the same order, on a byte array.
unfoldable pub parse_prefix :
    TextCoding → Bytes → Option ℕ → CanonicalNodeLimits → Result CodecError ParsedPrefix
parse_prefix coding bytes declared_length limits = do
  (header, after_header) ← read_bytes 24 bytes
  d ← decode_header header
  validate_decoded_header d
  canonical_size ←
      validate_canonical_node_size d.content_size d.content_type_length d.ref_count limits
  throw_if (differs declared_length canonical_size) declared_length_mismatch
  (type_bytes, after_type) ← read_bytes d.content_type_length after_header
  throw_if (not (every printable type_bytes)) content_type_not_printable
  validate_content_type coding (coding.decode type_bytes)
  (refs_bytes, after_refs) ← read_bytes (d.ref_count * 32) after_type
  refs ← hex_refs d.ref_count refs_bytes 0
  ok (record {
    content_size = d.content_size;
    content_type = coding.decode type_bytes;
    refs = refs;
    canonical_size = canonical_size;
    prefix = header ++ (type_bytes ++ refs_bytes);
    rest = after_refs;
  })

abbrev pub as_prefix : Result CodecError ParsedCanonicalNodeStream → Result CodecError ParsedPrefix
as_prefix (err e) = err e
as_prefix (ok p) = ok (record {
  content_size = p.content_size;
  content_type = p.content_type;
  refs = p.refs;
  canonical_size = p.canonical_size;
  prefix = p.prefix;
  rest = flatten (pending p.cursor);
})

-- A run of the stream parser and the same run on a byte array.
record Agrees (a : Result CodecError ParsedCanonicalNodeStream) (b : Result CodecError ParsedPrefix)
    : Type 0 where
  same : as_prefix a ≡ b

bind-read :
    (m : Result CodecError (Bytes × StreamCursor))
    (f : Bytes × StreamCursor → Result CodecError ParsedCanonicalNodeStream)
    (k : Result CodecError (Bytes × Bytes)) (g : Bytes × Bytes → Result CodecError ParsedPrefix)
    → on_bytes m ≡ k
    → ((r : Bytes × StreamCursor) → Agrees (f r) (g (r.0, flatten (pending r.1))))
    → Agrees (m >>= f) (k >>= g)
bind-read (ok r) f k g e h = record { same = (h r).same ∙ ap (λ k. k >>= g) e }
bind-read (err x) f k g e h = record { same = ap (λ k. k >>= g) e }

bind-check :
    {A : Type 0} (m : Result CodecError A) (f : A → Result CodecError ParsedCanonicalNodeStream)
    (g : A → Result CodecError ParsedPrefix)
    → ((a : A) → Agrees (f a) (g a))
    → Agrees (m >>= f) (m >>= g)
bind-check (ok a) f g h = h a
bind-check (err e) f g h = record { same = refl }

agreement :
    (coding : TextCoding) (source : List Bytes) (declared_length : Option ℕ)
    (limits : CanonicalNodeLimits)
    → Agrees
        (parse_canonical_node_stream coding source declared_length limits)
        (parse_prefix coding (flatten source) declared_length limits)
unfolding parse_canonical_node_stream parse_prefix
agreement coding source declared_length limits =
    bind-read _ _ _ _ (read_exactly-read_bytes 24 (open_cursor source)) λ r₁.
      bind-check (decode_header r₁.0) _ _ λ d. bind-check (validate_decoded_header d) _ _ λ _.
        bind-check
          (validate_canonical_node_size d.content_size d.content_type_length d.ref_count limits) _ _
          λ size.
            bind-check (throw_if (differs declared_length size) declared_length_mismatch) _ _ λ _.
              bind-read _ _ _ _ (read_exactly-read_bytes d.content_type_length r₁.1) λ r₂.
                bind-check (throw_if (not (every printable r₂.0)) content_type_not_printable) _ _
                  λ _. bind-check (validate_content_type coding (coding.decode r₂.0)) _ _ λ _.
                    bind-read _ _ _ _ (read_exactly-read_bytes (d.ref_count * 32) r₂.1) λ r₃.
                      bind-check (hex_refs d.ref_count r₃.0 0) _ _ λ refs. record { same = refl }

-- The stream parser accepts, rejects and returns what it does on the bytes of the whole source,
-- and leaves the bytes behind the refs: the chunks make no difference.
pub parse_canonical_node_stream-parse_prefix :
    (coding : TextCoding) (source : List Bytes) (declared_length : Option ℕ)
    (limits : CanonicalNodeLimits)
    → as_prefix (parse_canonical_node_stream coding source declared_length limits)
      ≡ parse_prefix coding (flatten source) declared_length limits
parse_canonical_node_stream-parse_prefix coding source declared_length limits =
    (agreement coding source declared_length limits).same
