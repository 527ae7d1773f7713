-- ===== src/Codec/Stream/Agree.antt =====
-- The stream parser against the byte parser, and against the source that it replays.
use unicas.Base.{
  Bool, true, false, ℕ, ◌+◌, ◌*◌, ◌≡◌, ◌↔◌, refl, sym, ap, ◌∙◌, Option, List, ◌++◌, length, ltb,
  Result, ok, arith, flatten, Bool-cases, inl, inr, append_assoc, length-append, subst, not, every,
  throw_if, >>=-eq-ok, ok-injective, err-ne-ok, length-take, take-append-drop,
}
use unicas.Codec.Bytes.{Bytes}
use unicas.Codec.Host.{TextCoding, printable}
use unicas.Codec.Errors.{CodecError, declared_length_mismatch, content_type_not_printable}
use unicas.Codec.Binary.{DecodedHeader, decode_header}
use unicas.Codec.Validation.{
  CanonicalNodeLimits, validate_canonical_node_size, validate_content_type, validate_decoded_header,
}
use unicas.Codec.Stream.{
  pending, replay, closed, ParsedCanonicalNodeStream, parse_canonical_node_stream, differs,
  hex_refs,
}
use unicas.Codec.Stream.Read.{read_bytes}
use unicas.Codec.Stream.Replay.{replay_lem}
use unicas.Codec.Stream.Whole.{
  ParsedPrefix, parse_prefix, as_prefix, parse_canonical_node_stream-parse_prefix,
}

read_bytes-eq-ok :
    (n : ℕ) (bytes : Bytes) (r : Bytes × Bytes)
    → read_bytes n bytes ≡ ok r
    → (r.0 ++ r.1 ≡ bytes) × (length r.0 ≡ n)
read_bytes-eq-ok n bytes r h = elim (Bool-cases (ltb (length bytes) n)) [
  | inl short ↦ absurd (err-ne-ok (rw short at h))
  | inr long ↦
      subst (λ (r : Bytes × Bytes). (r.0 ++ r.1 ≡ bytes) × (length r.0 ≡ n))
        (ok-injective (rw long at h))
        (take-append-drop n bytes, ground (arith, length-take n bytes))
]

not_thrown :
    (test : Bool) (e : CodecError) {u : Unit {0}} → throw_if (not test) e ≡ ok u → test ≡ true
not_thrown true e h = refl
not_thrown false e h = cc

-- The parts that an accepted prefix was cut into.
pub record Accepted (coding : TextCoding) (bytes : Bytes) (limits : CanonicalNodeLimits)
    (p : ParsedPrefix) : Type 0 where
  pub d : DecodedHeader
  pub header : Bytes
  pub type_bytes : Bytes
  pub refs_bytes : Bytes
  pub whole : header ++ (type_bytes ++ (refs_bytes ++ p.rest)) ≡ bytes
  pub header_length : length header ≡ 24
  pub type_length : length type_bytes ≡ d.content_type_length
  pub refs_length : length refs_bytes ≡ d.ref_count * 32
  pub decodes : decode_header header ≡ ok d
  pub valid : validate_decoded_header d ≡ ok tt
  pub sized :
      validate_canonical_node_size d.content_size d.content_type_length d.ref_count limits
      ≡ ok p.canonical_size
  pub ascii : every printable type_bytes ≡ true
  pub content_type : coding.decode type_bytes ≡ p.content_type
  pub content_size : d.content_size ≡ p.content_size
  pub hexed : hex_refs d.ref_count refs_bytes 0 ≡ ok p.refs
  pub prefix : header ++ (type_bytes ++ refs_bytes) ≡ p.prefix

pub parse_prefix-eq-ok :
    (coding : TextCoding) (bytes : Bytes) (declared : Option ℕ) (limits : CanonicalNodeLimits)
    (p : ParsedPrefix)
    → parse_prefix coding bytes declared limits ≡ ok p
    → Accepted coding bytes limits p
unfolding parse_prefix
parse_prefix-eq-ok coding bytes declared limits p h₀ =
    let (r₁, read₁, h₁) = >>=-eq-ok (read_bytes 24 bytes) _ h₀ in
    let (d, decodes, h₂) = >>=-eq-ok (decode_header r₁.0) _ h₁ in
    let (u₁, valid, h₃) = >>=-eq-ok (validate_decoded_header d) _ h₂ in
    let (size, sized, h₄) =
      >>=-eq-ok
        (validate_canonical_node_size d.content_size d.content_type_length d.ref_count limits) _
        h₃ in
    let (u₂, declares, h₅) =
      >>=-eq-ok (throw_if (differs declared size) declared_length_mismatch) _ h₄ in
    let (r₂, read₂, h₆) = >>=-eq-ok (read_bytes d.content_type_length r₁.1) _ h₅ in
    let (u₃, ascii, h₇) =
      >>=-eq-ok (throw_if (not (every printable r₂.0)) content_type_not_printable) _ h₆ in
    let (u₄, typed, h₈) = >>=-eq-ok (validate_content_type coding (coding.decode r₂.0)) _ h₇ in
    let (r₃, read₃, h₉) = >>=-eq-ok (read_bytes (d.ref_count * 32) r₂.1) _ h₈ in
    let (refs, hexed, done) = >>=-eq-ok (hex_refs d.ref_count r₃.0 0) _ h₉ in
    let (cut₁, long₁) = read_bytes-eq-ok 24 bytes r₁ read₁ in
    let (cut₂, long₂) = read_bytes-eq-ok d.content_type_length r₁.1 r₂ read₂ in
    let (cut₃, long₃) = read_bytes-eq-ok (d.ref_count * 32) r₂.1 r₃ read₃ in
    subst (Accepted coding bytes limits) (ok-injective done) (record {
      d = d;
      header = r₁.0;
      type_bytes = r₂.0;
      refs_bytes = r₃.0;
      whole = ap (λ t. r₁.0 ++ t) (ap (λ t. r₂.0 ++ t) cut₃ ∙ cut₂) ∙ cut₁;
      header_length = long₁;
      type_length = long₂;
      refs_length = long₃;
      decodes = decodes;
      valid = valid;
      sized = sized;
      ascii = not_thrown (every printable r₂.0) content_type_not_printable ascii;
      content_type = refl;
      content_size = refl;
      hexed = hexed;
      prefix = refl;
    })

as_prefix-ok :
    {r : Result CodecError ParsedCanonicalNodeStream} {p : ParsedCanonicalNodeStream}
    → r ≡ ok p
    → as_prefix r ≡ as_prefix (ok p)
as_prefix-ok e = ap as_prefix e

-- The body of an accepted stream closes exactly when the source is as long as the header says, and
-- the bytes that it then passed on are the source.
pub replay-parse_canonical_node_stream :
    (coding : TextCoding) (source : List Bytes) (declared : Option ℕ) (limits : CanonicalNodeLimits)
    (p : ParsedCanonicalNodeStream)
    → parse_canonical_node_stream coding source declared limits ≡ ok p
    → (((replay p.cursor p.prefix p.canonical_size).1 ≡ closed)
        ↔ (length (flatten source) ≡ p.canonical_size))
      × ((replay p.cursor p.prefix p.canonical_size).1 ≡ closed
          → flatten (replay p.cursor p.prefix p.canonical_size).0 ≡ flatten source)
unfolding flatten
replay-parse_canonical_node_stream coding source declared limits p h =
    let a = parse_prefix-eq-ok coding (flatten source) declared limits _ (
      sym (parse_canonical_node_stream-parse_prefix coding source declared limits)
      ∙ as_prefix-ok h) in
    let whole : p.prefix ++ flatten (pending p.cursor) ≡ flatten source =
      ap (λ t. t ++ flatten (pending p.cursor)) (sym a.prefix)
      ∙ append_assoc a.header (a.type_bytes ++ a.refs_bytes) (flatten (pending p.cursor))
      ∙ ap (λ t. a.header ++ t)
          (append_assoc a.type_bytes a.refs_bytes (flatten (pending p.cursor)))
      ∙ a.whole in
    let (closes, passes, bounded) = replay_lem p.cursor p.prefix p.canonical_size in
    let size : length p.prefix + length (flatten (pending p.cursor)) ≡ length (flatten source) =
      sym (length-append p.prefix (flatten (pending p.cursor))) ∙ ap length whole in
    ((λ c. sym size ∙ closes.0 c, λ e. closes.1 (size ∙ e)), λ c. ap flatten (passes c) ∙ whole)
