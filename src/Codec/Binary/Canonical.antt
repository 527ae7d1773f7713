-- ===== src/Codec/Binary/Canonical.antt =====
-- `concatenateNodeBytes` and `parseNodeBytes` are inverse to each other.
use unicas.Base.{
  ℕ, zero, suc, ◌+◌, ◌-◌, ◌*◌, ◌^◌, ◌<◌, ◌≡◌, refl, sym, ap, ◌∙◌, List, [], ◌∷◌, ◌++◌, length,
  slice, take, replicate, All, arith, ok, length-append, append-nil, append_assoc, ==_refl, le→ltb,
  take-append, drop-append, length-replicate, ◌>>=◌, flatten,
}
use unicas.Base.Text.{Text}
use unicas.Codec.Bytes.{Bytes, set_bytes, set_bytes-append}
use unicas.Codec.Host.{TextCoding}
use unicas.Codec.Binary.Header.{version_1, length-encode_header, decode_header-encode_header}
use unicas.Codec.Binary.{
  DecodedHeader, encode_header, expected_length, set_hashes, concatenate_node_bytes, slice_hashes,
  split_node, parse_node_bytes,
}

abbrev pub AreHashes : List Bytes → Type 0
AreHashes = All (λ (h : Bytes). length h ≡ 32)

replicate-add : (m n v : ℕ) → replicate (m + n) v ≡ replicate m v ++ replicate n v
replicate-add zero n v = ap (λ k. replicate k v) {x = 0 + n} (omega arith)
replicate-add (suc m) n v =
    ap (λ k. replicate k v) {x = suc m + n} {y = suc (m + n)} (omega arith)
    ∙ ap (λ t. v ∷ t) (replicate-add m n v)

pub length-flatten :
    (hashes : List Bytes) → AreHashes hashes → length (flatten hashes) ≡ length hashes * 32
unfolding flatten
length-flatten [] h = refl
length-flatten (x ∷ xs) h = omega (arith, length-append x (flatten xs), h.0, length-flatten xs h.1)

-- A write over the first of the zeros behind what is written.
set_bytes-zeros :
    (done source : Bytes) (n k : ℕ) (rest : Bytes)
    → n ≡ length source + k
    → set_bytes (done ++ (replicate n 0 ++ rest)) source (length done)
      ≡ ok ((done ++ source) ++ (replicate k 0 ++ rest))
set_bytes-zeros done source n k rest h =
    ap (λ t. set_bytes (done ++ (t ++ rest)) source (length done))
      (ap (λ m. replicate m 0) h ∙ replicate-add (length source) k 0)
    ∙ ap (λ t. set_bytes (done ++ t) source (length done))
        (append_assoc (replicate (length source) 0) (replicate k 0) rest)
    ∙ set_bytes-append done (replicate (length source) 0) (replicate k 0 ++ rest) source
        (sym (length-replicate (length source) 0))
    ∙ ap ok (sym (append_assoc done source (replicate k 0 ++ rest)))

-- The loop over the hashes fills the zeros behind what is written.
set_hashes-append :
    (done : Bytes) (hashes : List Bytes) (rest : Bytes)
    → AreHashes hashes
    → set_hashes (done ++ (replicate (length hashes * 32) 0 ++ rest)) hashes (length done)
      ≡ ok (done ++ (flatten hashes ++ rest), length done + length hashes * 32)
unfolding set_hashes flatten
set_hashes-append done [] rest h = ap (λ n. ok (done ++ rest, n)) {x = length done} (omega arith)
set_hashes-append done (x ∷ xs) rest h =
    rw (set_bytes-zeros done x (suc (length xs) * 32) (length xs * 32) rest (omega (arith, h.0))) (
      ap (set_hashes _ xs) {x = length done + 32} (omega (arith, length-append done x, h.0))
      ∙ set_hashes-append (done ++ x) xs rest h.1
      ∙ ap ok (λ i. (shape i, offset i)))
  where
    shape : (done ++ x) ++ (flatten xs ++ rest) ≡ done ++ ((x ++ flatten xs) ++ rest)
    shape =
        append_assoc done x (flatten xs ++ rest)
        ∙ ap (λ t. done ++ t) (sym (append_assoc x (flatten xs) rest))

    offset : length (done ++ x) + length xs * 32 ≡ length done + suc (length xs) * 32
    offset = omega (arith, length-append done x, h.0)

module _ (header type : Bytes) (hashes : List Bytes) (content : Bytes) (h : length header ≡ 24)
    (hs : AreHashes hashes) where
  abbrev hash_bytes : ℕ
  hash_bytes = length hashes * 32

  abbrev zeros : Bytes
  zeros = replicate (length content) 0 ++ []

  write_header :
      set_bytes (replicate (24 + length type + hash_bytes + length content) 0) header 0
      ≡ ok (header ++ (replicate (length type + (hash_bytes + length content)) 0 ++ []))
  write_header =
      ap (λ t. set_bytes t header 0)
        (sym (append-nil (replicate (24 + length type + hash_bytes + length content) 0)))
      ∙ set_bytes-zeros [] header (24 + length type + hash_bytes + length content)
          (length type + (hash_bytes + length content)) [] (omega arith)

  write_type :
      set_bytes
        (header ++ (replicate (length type + (hash_bytes + length content)) 0 ++ []))
        type
        24
      ≡ ok ((header ++ type) ++ (replicate hash_bytes 0 ++ (replicate (length content) 0 ++ [])))
  write_type =
      ap (set_bytes _ type) (sym h)
      ∙ set_bytes-zeros header type (length type + (hash_bytes + length content))
          (hash_bytes + length content) [] refl
      ∙ ap (λ t. ok ((header ++ type) ++ t))
          (ap (λ t. t ++ []) (replicate-add hash_bytes (length content) 0)
            ∙ append_assoc (replicate hash_bytes 0) (replicate (length content) 0) [])

  write_hashes :
      set_hashes
        ((header ++ type) ++ (replicate hash_bytes 0 ++ (replicate (length content) 0 ++ [])))
        hashes
        (24 + length type)
      ≡ ok (
        (header ++ type) ++ (flatten hashes ++ (replicate (length content) 0 ++ [])),
        24 + length type + hash_bytes,
      )
  write_hashes =
      ap (set_hashes _ hashes) start
      ∙ set_hashes-append (header ++ type) hashes (replicate (length content) 0 ++ []) hs
      ∙ ap (λ n. ok ((header ++ type) ++ (flatten hashes ++ zeros), n + hash_bytes)) (sym start)
    where
      start : 24 + length type ≡ length (header ++ type)
      start = omega (arith, length-append header type)

  write_content :
      set_bytes
        ((header ++ type) ++ (flatten hashes ++ (replicate (length content) 0 ++ [])))
        content
        (24 + length type + hash_bytes)
      ≡ ok (header ++ (type ++ (flatten hashes ++ content)))
  write_content =
      (λ i.
        set_bytes (sym (append_assoc (header ++ type) (flatten hashes) zeros) i) content (start i))
      ∙ set_bytes-zeros ((header ++ type) ++ flatten hashes) content (length content) 0 []
          (omega arith)
      ∙ ap ok (
          append-nil _
          ∙ append_assoc (header ++ type) (flatten hashes) content
          ∙ append_assoc header type (flatten hashes ++ content))
    where
      start : 24 + length type + hash_bytes ≡ length ((header ++ type) ++ flatten hashes)
      start = omega (
        arith,
        length-append (header ++ type) (flatten hashes),
        length-append header type,
        length-flatten hashes hs,
      )

  -- With a 24-byte header and 32-byte hashes the canonical bytes are the parts one after another.
  pub concatenate_node_bytes-append :
      concatenate_node_bytes header type hashes content
      ≡ ok (header ++ (type ++ (flatten hashes ++ content)))
  unfolding concatenate_node_bytes
  concatenate_node_bytes-append = rw (write_header, write_type, write_hashes) write_content

pub slice-append :
    (start end : ℕ) (pre mid post : Bytes)
    → start ≡ length pre
    → end ≡ length pre + length mid
    → slice start end (pre ++ (mid ++ post)) ≡ mid
slice-append start end pre mid post hs he =
    ap (take (end - start)) (drop-append start pre (mid ++ post) hs)
    ∙ take-append (end - start) mid post (omega arith)

slice_hashes-flatten :
    (done : Bytes) (hashes : List Bytes) (rest : Bytes)
    → AreHashes hashes
    → slice_hashes (length hashes) (done ++ (flatten hashes ++ rest)) (length done) ≡ hashes
unfolding slice_hashes flatten
slice_hashes-flatten done [] rest h = refl
slice_hashes-flatten done (x ∷ xs) rest h =
    rw (append_assoc x (flatten xs) rest)
      (λ i. first i ∷ (others ∙ slice_hashes-flatten (done ++ x) xs rest h.1) i)
  where
    first : slice (length done) (length done + 32) (done ++ (x ++ (flatten xs ++ rest))) ≡ x
    first =
        slice-append (length done) (length done + 32) done x (flatten xs ++ rest) refl
          (omega (arith, h.0))

    start : length done + 32 ≡ length (done ++ x)
    start = omega (arith, length-append done x, h.0)

    others :
        slice_hashes (length xs) (done ++ (x ++ (flatten xs ++ rest))) (length done + 32)
        ≡ slice_hashes (length xs) ((done ++ x) ++ (flatten xs ++ rest)) (length (done ++ x))
    others i = slice_hashes (length xs) (sym (append_assoc done x (flatten xs ++ rest)) i) (start i)

module _ (coding : TextCoding) (type : Text) (hashes : List Bytes) (content : Bytes) where
  abbrev pub own_header : Bytes
  own_header = encode_header coding (length content) type (length hashes)

  abbrev pub canonical_bytes : Bytes
  canonical_bytes = own_header ++ (coding.encode type ++ (flatten hashes ++ content))

  abbrev own_decoded : DecodedHeader
  own_decoded = version_1 coding (length content) (length hashes) type

  header-canonical_bytes : slice 0 24 canonical_bytes ≡ own_header
  header-canonical_bytes =
      take-append 24 own_header (coding.encode type ++ (flatten hashes ++ content))
        (sym (length-encode_header coding (length content) (length hashes) type))

  length-canonical_bytes : AreHashes hashes → length canonical_bytes ≡ expected_length own_decoded
  length-canonical_bytes hs = omega (
    arith,
    length-append own_header (coding.encode type ++ (flatten hashes ++ content)),
    length-encode_header coding (length content) (length hashes) type,
    length-append (coding.encode type) (flatten hashes ++ content),
    length-append (flatten hashes) content,
    length-flatten hashes hs,
  )

  split-canonical_bytes :
      AreHashes hashes
      → split_node coding canonical_bytes own_decoded ≡ record {
        header = own_header;
        content_type = coding.decode (coding.encode type);
        child_hashes = hashes;
        content = content;
      }
  split-canonical_bytes hs i = record {
    header = header-canonical_bytes i;
    content_type = coding.decode (type_slice i);
    child_hashes = hash_slices i;
    content = content_slice i;
  }
    where
      header_length : length own_header ≡ 24
      header_length = length-encode_header coding (length content) (length hashes) type

      type_end : ℕ
      type_end = 24 + length (coding.encode type)

      before_hashes : type_end ≡ length (own_header ++ coding.encode type)
      before_hashes = omega (arith, length-append own_header (coding.encode type), header_length)

      type_slice : slice 24 type_end canonical_bytes ≡ coding.encode type
      type_slice =
          slice-append 24 type_end own_header (coding.encode type) (flatten hashes ++ content)
            (sym header_length) (omega (arith, header_length))

      hash_slices : slice_hashes (length hashes) canonical_bytes type_end ≡ hashes
      hash_slices =
          (λ j.
            slice_hashes (length hashes)
              (sym (append_assoc own_header (coding.encode type) (flatten hashes ++ content)) j)
              (before_hashes j))
          ∙ slice_hashes-flatten (own_header ++ coding.encode type) hashes content hs

      whole :
          canonical_bytes
          ≡ ((own_header ++ coding.encode type) ++ flatten hashes) ++ (content ++ [])
      whole =
          sym (append_assoc own_header (coding.encode type) (flatten hashes ++ content))
          ∙ sym (append_assoc (own_header ++ coding.encode type) (flatten hashes) content)
          ∙ ap (λ t. ((own_header ++ coding.encode type) ++ flatten hashes) ++ t)
              (sym (append-nil content))

      before_content :
          type_end + length hashes * 32
          ≡ length ((own_header ++ coding.encode type) ++ flatten hashes)
      before_content = omega (
        arith,
        length-append (own_header ++ coding.encode type) (flatten hashes),
        before_hashes,
        length-flatten hashes hs,
      )

      content_slice :
          slice
            (type_end + length hashes * 32)
            (type_end + length hashes * 32 + length content)
            canonical_bytes
          ≡ content
      content_slice =
          ap
            (slice (type_end + length hashes * 32) (type_end + length hashes * 32 + length content))
            whole
          ∙ slice-append _ _ ((own_header ++ coding.encode type) ++ flatten hashes) content []
              before_content (omega (arith, before_content))

  -- Parsing the canonical bytes of a node gives back its header, its content type as the decoder
  -- reads it, its hashes and its content, for a safe content size, less than 2 ^ 32 hashes of 32
  -- bytes and a content type of less than 2 ^ 16 bytes.
  pub parse_node_bytes-concatenate_node_bytes :
      AreHashes hashes
      → length content < 2 ^ 53
      → length hashes < 2 ^ 32
      → length (coding.encode type) < 2 ^ 16
      → (concatenate_node_bytes own_header (coding.encode type) hashes content
          >>= parse_node_bytes coding)
        ≡ ok (record {
          header = own_header;
          content_type = coding.decode (coding.encode type);
          child_hashes = hashes;
          content = content;
        })
  unfolding parse_node_bytes
  parse_node_bytes-concatenate_node_bytes hs fits_size fits_refs fits_type =
      rw
        (
          concatenate_node_bytes-append own_header (coding.encode type) hashes content
              (length-encode_header coding (length content) (length hashes) type) hs,
          le→ltb (length canonical_bytes) 24 (omega (arith, length-canonical_bytes hs)),
          header-canonical_bytes,
          decode_header-encode_header coding (length content) (length hashes) type fits_size
              fits_refs fits_type,
          length-canonical_bytes hs,
          ==_refl (expected_length own_decoded),
        )
        (λ i. ok (record (split-canonical_bytes hs i) { header = own_header }))
