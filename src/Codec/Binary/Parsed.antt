-- ===== src/Codec/Binary/Parsed.antt =====
-- What `parseNodeBytes` accepts: its parts, concatenated, are the bytes that it was given.
use unicas.Base.{
  ℕ, zero, suc, ◌+◌, ◌*◌, ◌≤◌, ◌≡◌, sym, ap, ◌∙◌, subst, ◌++◌, length, slice, drop, arith, ok,
  append-nil, append_assoc, ==→eq, ◌==◌, ltb, Bool-cases, inl, inr, ok-injective, flatten,
  Result-cases, err-ne-ok,
}
use unicas.Codec.Bytes.{Bytes}
use unicas.Codec.Host.{TextCoding}
use unicas.Codec.Binary.Header.{length-slice, slice-append-drop, drop-length}
use unicas.Codec.Binary.Canonical.{AreHashes, concatenate_node_bytes-append}
use unicas.Codec.Binary.{
  DecodedHeader, NodeParts, decode_header, expected_length, concatenate_node_bytes, slice_hashes,
  split_node, parse_node_bytes,
}

pub record Parsed (coding : TextCoding) (bytes : Bytes) (p : NodeParts) : Type 0 where
  pub d : DecodedHeader
  pub decodes : decode_header (slice 0 24 bytes) ≡ ok d
  pub sized : length bytes ≡ expected_length d
  pub parts : split_node coding bytes d ≡ p

-- Inversion of a successful parse.
pub parse_node_bytes-eq-ok :
    (coding : TextCoding) (bytes : Bytes) (p : NodeParts)
    → parse_node_bytes coding bytes ≡ ok p
    → Parsed coding bytes p
unfolding parse_node_bytes
parse_node_bytes-eq-ok coding bytes p h = elim (Bool-cases (ltb (length bytes) 24)) [
  | inl short ↦ absurd (err-ne-ok (rw short at h))
  | inr long ↦ elim (Result-cases (decode_header (slice 0 24 bytes))) [
    | inr (e, fails) ↦ absurd (err-ne-ok (rw (long, fails) at h))
    | inl (d, decodes) ↦ elim (Bool-cases (length bytes == expected_length d)) [
      | inr differs ↦ absurd (err-ne-ok (rw (long, decodes, differs) at h))
      | inl exact ↦ record {
        d = d;
        decodes = decodes;
        sized = ==→eq (length bytes) (expected_length d) exact;
        parts = ok-injective (rw (long, decodes, exact) at h);
      }
    ]
  ]
]

flatten-slice_hashes :
    (n : ℕ) (bytes : Bytes) (offset : ℕ)
    → offset + n * 32 ≤ length bytes
    → flatten (slice_hashes n bytes offset) ++ drop (offset + n * 32) bytes ≡ drop offset bytes
unfolding slice_hashes flatten
flatten-slice_hashes zero bytes offset h = ap (λ k. drop k bytes) (omega arith)
flatten-slice_hashes (suc n) bytes offset h =
    append_assoc (slice offset (offset + 32) bytes) (flatten (slice_hashes n bytes (offset + 32)))
      (drop (offset + suc n * 32) bytes)
    ∙ ap
        (λ k.
          slice offset (offset + 32) bytes
          ++ (flatten (slice_hashes n bytes (offset + 32)) ++ drop k bytes))
        {x = offset + suc n * 32} (omega arith)
    ∙ ap (λ t. slice offset (offset + 32) bytes ++ t)
        (flatten-slice_hashes n bytes (offset + 32) (omega arith))
    ∙ slice-append-drop offset (offset + 32) bytes (omega arith)

slice_hashes-AreHashes :
    (n : ℕ) (bytes : Bytes) (offset : ℕ)
    → offset + n * 32 ≤ length bytes
    → AreHashes (slice_hashes n bytes offset)
unfolding slice_hashes
slice_hashes-AreHashes zero bytes offset h = tt
slice_hashes-AreHashes (suc n) bytes offset h = (
  omega (arith, length-slice offset (offset + 32) bytes (omega arith)),
  slice_hashes-AreHashes n bytes (offset + 32) (omega arith),
)

module _ (coding : TextCoding) (bytes : Bytes) (d : DecodedHeader) where
  abbrev pub type_bytes : Bytes
  type_bytes = slice 24 (24 + d.content_type_length) bytes

  abbrev parts : NodeParts
  parts = split_node coding bytes d

  parts-append :
      length bytes ≡ expected_length d
      → parts.header ++ (type_bytes ++ (flatten parts.child_hashes ++ parts.content)) ≡ bytes
  parts-append h =
      ap (λ t. parts.header ++ (type_bytes ++ (flatten parts.child_hashes ++ t))) content
      ∙ ap (λ t. parts.header ++ (type_bytes ++ t))
          (flatten-slice_hashes d.ref_count bytes (24 + d.content_type_length) (omega arith))
      ∙ ap (λ t. parts.header ++ t)
          (slice-append-drop 24 (24 + d.content_type_length) bytes (omega arith))
      ∙ slice-append-drop 0 24 bytes (omega arith)
    where
      content_start : ℕ
      content_start = 24 + d.content_type_length + d.ref_count * 32

      content : parts.content ≡ drop content_start bytes
      content =
          sym (append-nil parts.content)
          ∙ ap (λ t. parts.content ++ t)
              (sym (drop-length bytes (content_start + d.content_size) (omega arith)))
          ∙ slice-append-drop content_start (content_start + d.content_size) bytes (omega arith)

  pub concatenate_node_bytes-parts :
      length bytes ≡ expected_length d
      → concatenate_node_bytes parts.header type_bytes parts.child_hashes parts.content ≡ ok bytes
  concatenate_node_bytes-parts h =
      concatenate_node_bytes-append parts.header type_bytes parts.child_hashes parts.content
        (omega (arith, length-slice 0 24 bytes (omega arith)))
        (slice_hashes-AreHashes d.ref_count bytes (24 + d.content_type_length) (omega arith))
      ∙ ap ok (parts-append h)

-- What parses is canonical: some bytes, which decode to the content type, give back the parsed
-- bytes when they are concatenated with the header, the hashes and the content.
pub concatenate_node_bytes-parse_node_bytes :
    (coding : TextCoding) (bytes : Bytes) (p : NodeParts)
    → parse_node_bytes coding bytes ≡ ok p
    → (type : Bytes) × (coding.decode type ≡ p.content_type)
      × (concatenate_node_bytes p.header type p.child_hashes p.content ≡ ok bytes)
concatenate_node_bytes-parse_node_bytes coding bytes p h =
    let r = parse_node_bytes-eq-ok coding bytes p h in
    (
      type_bytes coding bytes r.d,
      ap (λ (q : NodeParts). q.content_type) r.parts,
      subst
          (λ (q : NodeParts).
            concatenate_node_bytes q.header (type_bytes coding bytes r.d) q.child_hashes q.content
            ≡ ok bytes)
          r.parts (concatenate_node_bytes-parts coding bytes r.d r.sized),
    )
