-- ===== src/NodeLease/Validation.antt =====
-- What `validateLeaseDrivenUpload` of packages/service/src/node-lease.ts accepts.
use unicas.Base.{
  ◌==◌, ℕ, ◌*◌, ◌≤◌, ◌≡◌, refl, sym, ap, ◌∙◌, true, not, some, [], ◌∷◌, length, every, ltb, Result,
  ok, err, throw_if, >>=-eq-ok, ok-injective, err-ne-ok, ◌==◌, Bool-cases, inl, inr, arith, flatten,
  append-nil, ==→eq,
}
use unicas.Codec.Bytes.{Bytes}
use unicas.Codec.Host.{TextCoding, Digester, printable}
use unicas.Codec.Errors.{CodecError, declared_length_mismatch, content_type_not_printable}
use unicas.Codec.Binary.{NodeParts, decode_header, parse_node_bytes}
use unicas.Codec.Validation.{
  CanonicalNodeLimits, validate_canonical_node_size, validate_content_type, validate_decoded_header,
}
use unicas.Codec.Stream.{
  pending, ParsedCanonicalNodeStream, parse_canonical_node_stream, differs, hex_refs,
}
use unicas.Codec.Stream.Read.{read_bytes}
use unicas.Codec.Stream.Whole.{
  ParsedPrefix, parse_prefix, as_prefix, parse_canonical_node_stream-parse_prefix,
}
use unicas.Codec.Stream.Parsers.{hex_hashes, CanonicalNode, parse_prefix-CanonicalNode}
use unicas.Store.{LeaseDrivenUploadValidation}
use unicas.Base.Text.{Text}
use unicas.NodeLease.Types.{byte_limit}
use unicas.NodeLease.Driven.{verdict_of, has_digest, validate_lease_driven_upload}

declared-equal :
    (declared size : ℕ) (e : CodecError) {u : Unit {0}}
    → throw_if (differs (some declared) size) e ≡ ok u
    → declared ≡ size
declared-equal declared size e h = elim (Bool-cases (declared == size)) [
  | inl t ↦ ==→eq declared size t
  | inr t ↦ absurd (err-ne-ok (rw t at h))
]

parse_prefix-declared :
    (coding : TextCoding) (bytes : Bytes) (declared : ℕ) (limits : CanonicalNodeLimits)
    (p : ParsedPrefix)
    → parse_prefix coding bytes (some declared) limits ≡ ok p
    → declared ≡ p.canonical_size
unfolding parse_prefix
parse_prefix-declared coding bytes declared limits p h =
    let (r1, a1, h1) = >>=-eq-ok (read_bytes 24 bytes) _ h in
    let (d, a2, h2) = >>=-eq-ok (decode_header r1.0) _ h1 in
    let (u1, a3, h3) = >>=-eq-ok (validate_decoded_header d) _ h2 in
    let (size, a4, h4) =
      >>=-eq-ok
        (validate_canonical_node_size d.content_size d.content_type_length d.ref_count limits) _
        h3 in
    let (u2, a5, h5) =
      >>=-eq-ok (throw_if (differs (some declared) size) declared_length_mismatch) _ h4 in
    let (r2, a6, h6) = >>=-eq-ok (read_bytes d.content_type_length r1.1) _ h5 in
    let (u3, a7, h7) =
      >>=-eq-ok (throw_if (not (every printable r2.0)) content_type_not_printable) _ h6 in
    let (u4, a8, h8) = >>=-eq-ok (validate_content_type coding (coding.decode r2.0)) _ h7 in
    let (r3, a9, h9) = >>=-eq-ok (read_bytes (d.ref_count * 32) r2.1) _ h8 in
    let (refs, a10, done) = >>=-eq-ok (hex_refs d.ref_count r3.0 0) _ h9 in
    declared-equal declared size declared_length_mismatch a5
    ∙ ap (λ (q : ParsedPrefix). q.canonical_size) (ok-injective done)

-- An accepted upload, in terms of the parser of whole nodes.
pub record AcceptedUpload (coding : TextCoding) (digester : Digester) (hash : Text) (bytes : Bytes)
    (limits : CanonicalNodeLimits) (validation : LeaseDrivenUploadValidation) : Type 0 where
  pub parts : NodeParts
  pub parses : parse_node_bytes coding bytes ≡ ok parts
  pub fits : length bytes ≤ byte_limit limits
  pub digest : has_digest digester bytes hash ≡ true
  pub stored_bytes : validation.stored_bytes ≡ length bytes
  pub content_type : parts.content_type ≡ validation.content_type
  pub refs : hex_hashes parts.child_hashes ≡ ok validation.refs
  pub content_size : length parts.content ≡ validation.content_size

verdict_of-ok :
    (bytes : Bytes) (r : Result CodecError ParsedCanonicalNodeStream)
    (validation : LeaseDrivenUploadValidation)
    → verdict_of bytes r ≡ ok validation
    → (p : ParsedCanonicalNodeStream) × (r ≡ ok p)
      × (validation.stored_bytes ≡ length bytes)
      × (validation.content_size ≡ p.content_size)
      × (validation.content_type ≡ p.content_type)
      × (validation.refs ≡ p.refs)
verdict_of-ok bytes (ok p) validation h =
    let e = ok-injective h in
    (
      p,
      refl,
      sym (ap (λ (v : LeaseDrivenUploadValidation). v.stored_bytes) e),
      sym (ap (λ (v : LeaseDrivenUploadValidation). v.content_size) e),
      sym (ap (λ (v : LeaseDrivenUploadValidation). v.content_type) e),
      sym (ap (λ (v : LeaseDrivenUploadValidation). v.refs) e),
    )
verdict_of-ok bytes (err e) validation h = absurd (err-ne-ok h)

parsed-CanonicalNode :
    (coding : TextCoding) (bytes : Bytes) (limits : CanonicalNodeLimits)
    (p : ParsedCanonicalNodeStream)
    → parse_canonical_node_stream coding (bytes ∷ []) (some (length bytes)) limits ≡ ok p
    → CanonicalNode coding bytes limits p.content_type p.refs
        (flatten (pending p.cursor))
        p.content_size
unfolding flatten
parsed-CanonicalNode coding bytes limits p e =
    let r : ParsedPrefix = record {
      content_size = p.content_size;
      content_type = p.content_type;
      refs = p.refs;
      canonical_size = p.canonical_size;
      prefix = p.prefix;
      rest = flatten (pending p.cursor);
    } in
    let accepted : parse_prefix coding bytes (some (length bytes)) limits ≡ ok r =
      ap (λ b. parse_prefix coding b (some (length bytes)) limits) (sym (append-nil bytes))
      ∙ sym (
          parse_canonical_node_stream-parse_prefix coding (bytes ∷ []) (some (length bytes)) limits)
      ∙ ap as_prefix e in
    parse_prefix-CanonicalNode coding bytes (some (length bytes)) limits r accepted
      (parse_prefix-declared coding bytes (length bytes) limits r accepted)

-- An upload that is accepted is no longer than the limit, has the digest that it was announced
-- under, and is the canonical bytes of a node: the parser of whole nodes accepts it, with the
-- content type, the children and the content size of the validation.
pub validate_lease_driven_upload-ok :
    (coding : TextCoding) (digester : Digester) (hash : Text) (bytes : Bytes)
    (limits : CanonicalNodeLimits) (validation : LeaseDrivenUploadValidation)
    → validate_lease_driven_upload coding digester hash bytes limits ≡ ok validation
    → AcceptedUpload coding digester hash bytes limits validation
unfolding validate_lease_driven_upload flatten
validate_lease_driven_upload-ok coding digester hash bytes limits validation h =
    elim (Bool-cases (ltb (byte_limit limits) (length bytes))) [
      | inl t ↦ absurd (err-ne-ok (rw t at h))
      | inr t ↦ elim (Bool-cases (has_digest digester bytes hash)) [
        | inl u ↦
            let h' = rw (t, u) at h in
            let (p, e, size, content_size, content_type, refs) =
              verdict_of-ok bytes
                (parse_canonical_node_stream coding (bytes ∷ []) (some (length bytes)) limits)
                validation h' in
            let node = parsed-CanonicalNode coding bytes limits p e in
            record {
              parts = node.parts;
              parses = node.parses;
              fits = ground (arith, t);
              digest = u;
              stored_bytes = size;
              content_type = node.content_type ∙ sym content_type;
              refs = node.hashes ∙ ap ok (sym refs);
              content_size = node.content_size ∙ sym content_size;
            }
        | inr u ↦ absurd (err-ne-ok (rw (t, u) at h))
      ]
    ]
