-- ===== src/Codec/Stream/Parsers.antt =====
-- The two parsers of the codec agree: what the stream parser accepts and the source fulfils,
-- `parseNodeBytes` accepts too, with the same parts.
use unicas.Base.{
  flatten, true, every, ℕ, zero, suc, ◌+◌, ◌-◌, ◌*◌, ◌≤◌, ◌≡◌, refl, sym, ap, ◌∙◌, Option, List, [],
  ◌∷◌, ◌++◌, length, Result, ok, ◌>>=◌, arith, append_assoc, append-nil, length-append, slice, take,
  drop, le→ltb, take-append, drop-append, drop-drop, ==_refl, length-drop,
}
use unicas.Base.Text.{Text}
use unicas.Codec.Bytes.{Bytes}
use unicas.Codec.Host.{TextCoding, printable}
use unicas.Codec.Errors.{CodecError}
use unicas.Codec.Binary.{
  DecodedHeader, signature_bytes, concatenate_node_bytes, NodeParts, decode_header, expected_length,
  parse_node_bytes, slice_hashes, split_node,
}
use unicas.Codec.Binary.Canonical.{slice-append}
use unicas.Codec.Binary.Parsed.{type_bytes, concatenate_node_bytes-parts}
use unicas.Codec.Digest.{hash_to_hex}
use unicas.Codec.Validation.{CanonicalNodeLimits}
use unicas.Codec.Validation.Laws.{
  WithinLimits, validate_canonical_node_size_iff, validate_decoded_header_iff,
}
use unicas.Codec.Stream.{hex_refs, pending, ParsedCanonicalNodeStream, parse_canonical_node_stream}
use unicas.Codec.Stream.Whole.{
  ParsedPrefix, parse_prefix, as_prefix, parse_canonical_node_stream-parse_prefix,
}
use unicas.Codec.Stream.Agree.{Accepted, parse_prefix-eq-ok}

-- The texts of a list of hashes.
abbrev pub hex_hashes : List Bytes → Result CodecError (List Text)
hex_hashes [] = ok []
hex_hashes (h ∷ hs) = do ref ← hash_to_hex h; refs ← hex_hashes hs; ok (ref ∷ refs)

hex_refs-hex_hashes :
    (n : ℕ) (bytes : Bytes) (offset : ℕ)
    → hex_refs n bytes offset ≡ hex_hashes (slice_hashes n bytes offset)
unfolding hex_refs slice_hashes
hex_refs-hex_hashes zero bytes offset = refl
hex_refs-hex_hashes (suc n) bytes offset = rw (hex_refs-hex_hashes n bytes (offset + 32))

-- The start of a slice moves with what stands before it.
slice-shift :
    (start end : ℕ) (pre xs : Bytes)
    → slice (length pre + start) (length pre + end) (pre ++ xs) ≡ slice start end xs
slice-shift start end pre xs =
    ap (λ k. take k (drop (length pre + start) (pre ++ xs))) {y = end - start} (omega arith)
    ∙ ap (take (end - start)) (
        sym (drop-drop start (length pre) (pre ++ xs))
        ∙ ap (drop start) (drop-append (length pre) pre xs refl))

take-less : (n : ℕ) (xs ys : Bytes) → n ≤ length xs → take n (xs ++ ys) ≡ take n xs
take-less zero xs ys h = refl
take-less (suc n) [] ys h = absurd (omega arith)
take-less (suc n) (x ∷ xs) ys h = ap (λ t. x ∷ t) (take-less n xs ys (omega arith))

drop-less : (n : ℕ) (xs ys : Bytes) → n ≤ length xs → drop n (xs ++ ys) ≡ drop n xs ++ ys
drop-less zero xs ys h = refl
drop-less (suc n) [] ys h = absurd (omega arith)
drop-less (suc n) (x ∷ xs) ys h = drop-less n xs ys (omega arith)

slice-less :
    (start end : ℕ) (xs ys : Bytes)
    → start ≤ end
    → end ≤ length xs
    → slice start end (xs ++ ys) ≡ slice start end xs
slice-less start end xs ys h fits =
    ap (take (end - start)) (drop-less start xs ys (omega arith))
    ∙ take-less (end - start) (drop start xs) ys (omega (arith, length-drop start xs))

slice_hashes-inside :
    (n offset : ℕ) (pre xs post : Bytes)
    → offset + n * 32 ≤ length xs
    → slice_hashes n (pre ++ (xs ++ post)) (length pre + offset) ≡ slice_hashes n xs offset
unfolding slice_hashes
slice_hashes-inside zero offset pre xs post h = refl
slice_hashes-inside (suc n) offset pre xs post h =
    λ i. first i ∷ (others ∙ slice_hashes-inside n (offset + 32) pre xs post (omega arith)) i
  where
    first :
        slice (length pre + offset) (length pre + offset + 32) (pre ++ (xs ++ post))
        ≡ slice offset (offset + 32) xs
    first =
        ap (λ k. slice (length pre + offset) k (pre ++ (xs ++ post)))
          {y = length pre + (offset + 32)} (omega arith)
        ∙ slice-shift offset (offset + 32) pre (xs ++ post)
        ∙ slice-less offset (offset + 32) xs post (omega arith) (omega arith)

    others :
        slice_hashes n (pre ++ (xs ++ post)) (length pre + offset + 32)
        ≡ slice_hashes n (pre ++ (xs ++ post)) (length pre + (offset + 32))
    others = ap (slice_hashes n (pre ++ (xs ++ post))) (omega arith)

-- The bytes of a node in the canonical format, and what a stream parser may say of them.
pub record CanonicalNode (coding : TextCoding) (bytes : Bytes) (limits : CanonicalNodeLimits)
    (type : Text) (refs : List Text) (body : Bytes) (size : ℕ) : Type 0 where
  pub parts : NodeParts
  pub parses : parse_node_bytes coding bytes ≡ ok parts
  pub content_type : parts.content_type ≡ type
  pub hashes : hex_hashes parts.child_hashes ≡ ok refs
  pub content : parts.content ≡ body
  pub content_size : length parts.content ≡ size
  pub d : DecodedHeader
  pub decodes : decode_header parts.header ≡ ok d
  pub signature : d.signature ≡ signature_bytes
  pub version : d.version ≡ 1
  pub flags : d.flags ≡ 0
  pub reserved : d.reserved ≡ 0
  pub within : WithinLimits d.content_size d.content_type_length d.ref_count limits
  pub type_bytes : Bytes
  pub typed : coding.decode type_bytes ≡ parts.content_type
  pub printable_type : every printable type_bytes ≡ true
  pub laid_out :
      concatenate_node_bytes parts.header type_bytes parts.child_hashes parts.content ≡ ok bytes

module _ (coding : TextCoding) (bytes : Bytes) (limits : CanonicalNodeLimits) (p : ParsedPrefix)
    (a : Accepted coding bytes limits p) (total : length bytes ≡ expected_length a.d) where
  abbrev parts : NodeParts
  parts = split_node coding bytes a.d

  abbrev type_end : ℕ
  type_end = 24 + a.d.content_type_length

  rest_length : length p.rest ≡ a.d.content_size
  rest_length = omega (
    arith,
    a.header_length,
    a.type_length,
    a.refs_length,
    total,
    ap length a.whole,
    length-append a.header (a.type_bytes ++ (a.refs_bytes ++ p.rest)),
    length-append a.type_bytes (a.refs_bytes ++ p.rest),
    length-append a.refs_bytes p.rest,
  )

  header_slice : slice 0 24 bytes ≡ a.header
  header_slice =
      ap (slice 0 24) (sym a.whole)
      ∙ take-append 24 a.header (a.type_bytes ++ (a.refs_bytes ++ p.rest)) (sym a.header_length)

  type_slice : slice 24 type_end bytes ≡ a.type_bytes
  type_slice =
      ap (slice 24 type_end) (sym a.whole)
      ∙ slice-append 24 type_end a.header a.type_bytes (a.refs_bytes ++ p.rest)
          (sym a.header_length) (omega (arith, a.header_length, a.type_length))

  after_type : type_end ≡ length (a.header ++ a.type_bytes)
  after_type = omega (arith, length-append a.header a.type_bytes, a.header_length, a.type_length)

  behind_type : bytes ≡ (a.header ++ a.type_bytes) ++ (a.refs_bytes ++ p.rest)
  behind_type = sym a.whole ∙ sym (append_assoc a.header a.type_bytes (a.refs_bytes ++ p.rest))

  hash_slices :
      slice_hashes a.d.ref_count bytes type_end ≡ slice_hashes a.d.ref_count a.refs_bytes 0
  hash_slices =
      (λ i. slice_hashes a.d.ref_count (behind_type i) (start i))
      ∙ slice_hashes-inside a.d.ref_count 0 (a.header ++ a.type_bytes) a.refs_bytes p.rest
          (omega (arith, a.refs_length))
    where
      start : type_end ≡ length (a.header ++ a.type_bytes) + 0
      start = omega (arith, after_type)

  content_slice : parts.content ≡ p.rest
  content_slice =
      ap (slice (type_end + a.d.ref_count * 32) (type_end + a.d.ref_count * 32 + a.d.content_size))
        (behind_type
          ∙ sym (append_assoc (a.header ++ a.type_bytes) a.refs_bytes p.rest)
          ∙ ap (λ t. ((a.header ++ a.type_bytes) ++ a.refs_bytes) ++ t) (sym (append-nil p.rest)))
      ∙ slice-append (type_end + a.d.ref_count * 32)
          (type_end + a.d.ref_count * 32 + a.d.content_size)
          ((a.header ++ a.type_bytes) ++ a.refs_bytes) p.rest [] start
          (omega (arith, start, rest_length))
    where
      start : type_end + a.d.ref_count * 32 ≡ length ((a.header ++ a.type_bytes) ++ a.refs_bytes)
      start =
          omega (
            arith,
            after_type,
            length-append (a.header ++ a.type_bytes) a.refs_bytes,
            a.refs_length,
          )

  accepts : parse_node_bytes coding bytes ≡ ok parts
  unfolding parse_node_bytes
  accepts = rw (
    le→ltb (length bytes) 24 (omega (arith, total)),
    ap decode_header header_slice ∙ a.decodes,
    total,
    ==_refl (expected_length a.d),
  )

-- A prefix that is accepted, of bytes as long as its header says.
pub parse_prefix-CanonicalNode :
    (coding : TextCoding) (bytes : Bytes) (declared : Option ℕ) (limits : CanonicalNodeLimits)
    (p : ParsedPrefix)
    → parse_prefix coding bytes declared limits ≡ ok p
    → length bytes ≡ p.canonical_size
    → CanonicalNode coding bytes limits p.content_type p.refs p.rest p.content_size
parse_prefix-CanonicalNode coding bytes declared limits p h exact =
    let a = parse_prefix-eq-ok coding bytes declared limits p h in
    let sized = (validate_canonical_node_size_iff _ _ _ _ limits).0 a.sized in
    let total : length bytes ≡ expected_length a.d = exact ∙ sized.1 in
    let typed = type_slice coding bytes limits p a total in
    let (signature, version, flags, reserved, _) = (validate_decoded_header_iff a.d).0 a.valid in
    record {
      parts = split_node coding bytes a.d;
      parses = accepts coding bytes limits p a total;
      content_type = ap coding.decode typed ∙ a.content_type;
      hashes =
          ap hex_hashes (hash_slices coding bytes limits p a total)
          ∙ sym (hex_refs-hex_hashes a.d.ref_count a.refs_bytes 0)
          ∙ a.hexed;
      content = content_slice coding bytes limits p a total;
      content_size =
          ap length (content_slice coding bytes limits p a total)
          ∙ rest_length coding bytes limits p a total
          ∙ a.content_size;
      d = a.d;
      decodes = ap decode_header (header_slice coding bytes limits p a total) ∙ a.decodes;
      signature = signature;
      version = version;
      flags = flags;
      reserved = reserved;
      within = sized.0;
      type_bytes = type_bytes coding bytes a.d;
      typed = refl;
      printable_type = ap (every printable) typed ∙ a.ascii;
      laid_out = concatenate_node_bytes-parts coding bytes a.d total;
    }

-- When the stream parser accepts a source that is as long as its header says, the source is a node in
-- the canonical format: `parseNodeBytes` accepts its bytes, with the content type, the texts of the
-- hashes, the content and its size that the stream parser returns; its header is a version-1 header
-- with sizes within the limits; its content type is printable ASCII; and `concatenateNodeBytes`
-- of its parts is the source.
pub parse_node_bytes-parse_canonical_node_stream :
    (coding : TextCoding) (source : List Bytes) (declared : Option ℕ) (limits : CanonicalNodeLimits)
    (p : ParsedCanonicalNodeStream)
    → parse_canonical_node_stream coding source declared limits ≡ ok p
    → length (flatten source) ≡ p.canonical_size
    → CanonicalNode coding
        (flatten source)
        limits
        p.content_type
        p.refs
        (flatten (pending p.cursor))
        p.content_size
parse_node_bytes-parse_canonical_node_stream coding source declared limits p e exact =
    parse_prefix-CanonicalNode coding (flatten source) declared limits
      (record {
        content_size = p.content_size;
        content_type = p.content_type;
        refs = p.refs;
        canonical_size = p.canonical_size;
        prefix = p.prefix;
        rest = flatten (pending p.cursor);
      })
      (sym (parse_canonical_node_stream-parse_prefix coding source declared limits)
        ∙ ap as_prefix e)
      exact
