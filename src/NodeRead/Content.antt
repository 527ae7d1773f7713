-- ===== src/NodeRead/Content.antt =====
-- `readNodeContent` of packages/service/src/node-read.ts against the canonical bytes of the codec.
use unicas.Base.{
  ℕ, ◌+◌, ◌-◌, ◌≤◌, ◌<◌, ◌≡◌, ap, sym, ◌∙◌, Option, some, List, ◌++◌, length, length-append, slice,
  take, drop, drop-append, drop-drop, append_assoc, flatten, Result, ok, ◌>>=◌, arith,
}
use unicas.Base.Text.{Text}
use unicas.Codec.Bytes.{Bytes}
use unicas.Codec.Host.{TextCoding}
use unicas.Codec.Binary.Header.{length-encode_header}
use unicas.Codec.Binary.Canonical.{AreHashes, canonical_bytes, own_header, length-flatten}
use unicas.Store.Keys.{Scope}
use unicas.NodeRead.Range.{logical_range-bounds}
use unicas.NodeRead.{
  ContentRange, NodeReadRecord, NodeReadRepository, RangeError, logical_range, positions,
  parse_node_content_range, read_record, physical_offset, content_stream, read_node_content,
}

-- A slice behind a prefix is the slice of what is behind the prefix.
slice-behind :
    (n start count : ℕ) (pre rest : Bytes)
    → n ≡ length pre
    → slice (n + start) (n + start + count) (pre ++ rest) ≡ slice start (start + count) rest
slice-behind n start count pre rest h =
    ap (λ m. take m (drop (n + start) (pre ++ rest))) {x = n + start + count - (n + start)}
      {y = start + count - start} (omega arith)
    ∙ ap (take (start + count - start))
        (sym (drop-drop start n (pre ++ rest)) ∙ ap (drop start) (drop-append n pre rest h))

module _ (coding : TextCoding) (repository : NodeReadRepository) (scope : Scope) (hash : Text)
    (node : NodeReadRecord) (hashes : List Bytes) (content : Bytes)
    (found : repository.read_node scope hash ≡ some node)
    (sizes : length content ≡ node.content_size)
    (refs : length hashes ≡ length (repository.read_ordered_refs scope hash))
    (are : AreHashes hashes)
    (object : (range : ContentRange)
      → 0 < range.length
      → range.offset + range.length
        ≤ length (canonical_bytes coding node.content_type hashes content)
      → repository.read_canonical_range scope hash range
        ≡ some (
            slice range.offset
              (range.offset + range.length)
              (canonical_bytes coding node.content_type hashes content))) where
  abbrev before : Bytes
  before =
      own_header coding node.content_type hashes content
      ++ (coding.encode node.content_type ++ flatten hashes)

  length-before : physical_offset coding repository scope hash node ≡ length before
  length-before = omega (
    arith,
    length-append (own_header coding node.content_type hashes content)
        (coding.encode node.content_type ++ flatten hashes),
    length-encode_header coding (length content) (length hashes) node.content_type,
    length-append (coding.encode node.content_type) (flatten hashes),
    length-flatten hashes are,
    refs,
  )

  before-content : before ++ content ≡ canonical_bytes coding node.content_type hashes content
  before-content =
      append_assoc (own_header coding node.content_type hashes content)
        (coding.encode node.content_type ++ flatten hashes) content
      ∙ ap (λ t. own_header coding node.content_type hashes content ++ t)
          (append_assoc (coding.encode node.content_type) (flatten hashes) content)

  -- The bytes behind the physical offset of the object are those of the content.
  read_behind :
      (offset count : ℕ)
      → 0 < count
      → offset + count ≤ node.content_size
      → repository.read_canonical_range scope hash (record {
        offset = physical_offset coding repository scope hash node + offset;
        length = count;
      })
        ≡ some (slice offset (offset + count) content)
  read_behind offset count p q =
      object
        (record {
          offset = physical_offset coding repository scope hash node + offset;
          length = count;
        })
        p
        (omega
          (arith, length-before, ap length before-content, length-append before content, sizes, q))
      ∙ ap
          (λ t. some (
            slice (physical_offset coding repository scope hash node + offset)
              (physical_offset coding repository scope hash node + offset + count) t))
          (sym before-content)
      ∙ ap some (
          slice-behind (physical_offset coding repository scope hash node) offset count before
            content length-before)

  -- Where a node row with a content that is not empty is found, its refs are as many as the hashes
  -- of the object, and the object holds the canonical bytes of the content type, the hashes and a
  -- content of the row's size, a read answers an accepted range header with exactly the bytes of the
  -- content that the range names, all of them without a header, and with the positions of the range.
  pub read_node_content-canonical_bytes :
      (range_header : Option Text) {requested : Option ContentRange}
      → 0 < node.content_size
      → parse_node_content_range range_header node.content_size ≡ ok requested
      → read_node_content coding repository scope hash range_header
        ≡ ok (
            some (record {
              body =
                  slice
                    (logical_range requested node.content_size).offset
                    ((logical_range requested node.content_size).offset
                      + (logical_range requested node.content_size).length)
                    content;
              content_type = node.content_type;
              content_size = node.content_size;
              refs = repository.read_ordered_refs scope hash;
              range = positions requested;
            }))
  unfolding read_node_content
  read_node_content-canonical_bytes range_header {requested} p h =
      let (a, b) = logical_range-bounds range_header node.content_size p h in
      ap (read_record coding repository scope hash range_header) found
      ∙ ap
          (λ (r : Result RangeError (Option ContentRange)). r >>= λ requested. ok (
            content_stream coding repository scope hash node requested (
              repository.read_canonical_range scope hash (record {
                offset =
                    physical_offset coding repository scope hash node
                    + (logical_range requested node.content_size).offset;
                length = (logical_range requested node.content_size).length;
              }))))
          h
      ∙ ap (λ o. ok (content_stream coding repository scope hash node requested o))
          (read_behind (logical_range requested node.content_size).offset
            (logical_range requested node.content_size).length a b)
