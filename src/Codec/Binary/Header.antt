-- ===== src/Codec/Binary/Header.antt =====
-- `encodeHeader` and `decodeHeader` are inverse to each other on version-1 headers.
use unicas.Base.{
  ℕ, ◌+◌, ◌-◌, ◌^◌, ◌≤◌, ◌<◌, ◌≡◌, refl, sym, ap, ◌∙◌, [], ◌∷◌, ◌++◌, length, slice, drop, arith,
  ok, drop-drop, take-append-drop, length-take, length-drop, All-take, All-drop, append-nil, ==→eq,
  ◌==◌, Bool-cases, inl, inr, subst, ok-injective, err-ne-ok,
}
use unicas.Base.Text.{Text}
use unicas.Codec.Bytes.{Bytes, IsBytes, le_bytes, le_value-le_bytes, le_bytes-le_value}
use unicas.Codec.Host.{TextCoding}
use unicas.Codec.Binary.Numbers.{number_of_u64, number_of_u64-safe, number_of_u64_exact}
use unicas.Codec.Binary.{
  signature_bytes, DecodedHeader, encode_header, decode_header, decoded, get_uint,
}

module _ (coding : TextCoding) (content_size ref_count : ℕ) (content_type : Text) where
  abbrev pub version_1 : DecodedHeader
  version_1 = record {
    signature = signature_bytes;
    version = 1;
    flags = 0;
    content_size = content_size;
    ref_count = ref_count;
    content_type_length = length (coding.encode content_type);
    reserved = 0;
  }

  pub length-encode_header : length (encode_header coding content_size content_type ref_count) ≡ 24
  unfolding encode_header le_bytes
  length-encode_header = refl

  pub encode_header-IsBytes : IsBytes (encode_header coding content_size content_type ref_count)
  unfolding encode_header le_bytes
  encode_header-IsBytes = omega arith

  pub decoded-encode_header :
      content_size < 2 ^ 53
      → ref_count < 2 ^ 32
      → length (coding.encode content_type) < 2 ^ 16
      → decoded (encode_header coding content_size content_type ref_count) ≡ version_1
  unfolding encode_header le_bytes
  decoded-encode_header fits_size fits_refs fits_type = λ i. record {
    signature = signature_bytes;
    version = le_value-le_bytes 2 1 (omega arith) i;
    flags = le_value-le_bytes 4 0 (omega arith) i;
    content_size =
        (ap number_of_u64 (le_value-le_bytes 8 content_size (omega arith))
            ∙ number_of_u64-safe content_size fits_size)
          i;
    ref_count = le_value-le_bytes 4 ref_count (omega arith) i;
    content_type_length = le_value-le_bytes 2 (length (coding.encode content_type)) (omega arith) i;
    reserved = le_value-le_bytes 2 0 (omega arith) i;
  }

  -- Decoding an encoded header gives back the sizes and the version-1 constants, for a safe content
  -- size, a 32-bit ref count and a content type of less than 2 ^ 16 bytes.
  pub decode_header-encode_header :
      content_size < 2 ^ 53
      → ref_count < 2 ^ 32
      → length (coding.encode content_type) < 2 ^ 16
      → decode_header (encode_header coding content_size content_type ref_count) ≡ ok version_1
  unfolding decode_header
  decode_header-encode_header fits_size fits_refs fits_type =
      rw (length-encode_header) (ap ok (decoded-encode_header fits_size fits_refs fits_type))

-- What stands at and behind an offset is a slice and what stands behind that.
pub slice-append-drop :
    (start end : ℕ) (xs : Bytes) → start ≤ end → slice start end xs ++ drop end xs ≡ drop start xs
slice-append-drop start end xs h =
    ap (λ t. slice start end xs ++ t)
      (ap (λ k. drop k xs) {x = end} (omega arith) ∙ sym (drop-drop (end - start) start xs))
    ∙ take-append-drop (end - start) (drop start xs)

pub length-slice :
    (start end : ℕ) (xs : Bytes) → end ≤ length xs → length (slice start end xs) ≡ end - start
length-slice start end xs h =
    omega (arith, length-take (end - start) (drop start xs), length-drop start xs)

pub slice-IsBytes : (start end : ℕ) (xs : Bytes) → IsBytes xs → IsBytes (slice start end xs)
slice-IsBytes start end xs h = All-take _ (end - start) (drop start xs) (All-drop _ start xs h)

le_bytes-get_uint :
    (offset width : ℕ) (header : Bytes)
    → IsBytes header
    → offset + width ≤ length header
    → le_bytes width (get_uint offset width header) ≡ slice offset (offset + width) header
le_bytes-get_uint offset width header bytes fits =
    ap (λ k. le_bytes k (get_uint offset width header)) {x = width}
      (omega (arith, length-slice offset (offset + width) header fits))
    ∙ le_bytes-le_value (slice offset (offset + width) header)
        (slice-IsBytes offset (offset + width) header bytes)

pub drop-length : (xs : Bytes) (n : ℕ) → length xs ≤ n → drop n xs ≡ []
drop-length xs n h = length-zero (drop n xs) (omega (arith, length-drop n xs))
  where
    length-zero : (ys : Bytes) → length ys ≡ 0 → ys ≡ []
    length-zero [] e = refl
    length-zero (y ∷ ys) e = absurd (omega arith)

-- The slices of a header, put together again.
slices-header :
    (header : Bytes)
    → length header ≡ 24
    → slice 0 2 header
        ++ (slice 2 4 header
            ++ (slice 4 8 header
                ++ (slice 8 16 header
                    ++ (slice 16 20 header ++ (slice 20 22 header ++ slice 22 24 header)))))
      ≡ header
slices-header header h =
    ap (λ t. slice 0 2 header ++ t)
      (ap (λ t. slice 2 4 header ++ t)
          (ap (λ t. slice 4 8 header ++ t)
              (ap (λ t. slice 8 16 header ++ t)
                  (ap (λ t. slice 16 20 header ++ t)
                      (ap (λ t. slice 20 22 header ++ t) last
                        ∙ slice-append-drop 20 22 header (omega arith))
                    ∙ slice-append-drop 16 20 header (omega arith))
                ∙ slice-append-drop 8 16 header (omega arith))
            ∙ slice-append-drop 4 8 header (omega arith))
        ∙ slice-append-drop 2 4 header (omega arith))
    ∙ slice-append-drop 0 2 header (omega arith)
  where
    last : slice 22 24 header ≡ drop 22 header
    last =
        sym (append-nil (slice 22 24 header))
        ∙ ap (λ t. slice 22 24 header ++ t) (sym (drop-length header 24 (omega arith)))
        ∙ slice-append-drop 22 24 header (omega arith)

pub decode_header-eq-ok :
    (header : Bytes) (d : DecodedHeader)
    → decode_header header ≡ ok d
    → (length header ≡ 24) × (decoded header ≡ d)
unfolding decode_header
decode_header-eq-ok header d h = elim (Bool-cases (length header == 24)) [
  | inl good ↦ (==→eq (length header) 24 good, ok-injective (rw good at h))
  | inr bad ↦ absurd (err-ne-ok (rw bad at h))
]

module _ (coding : TextCoding) (header : Bytes) (content_type : Text) (bytes : IsBytes header) where
  encode_header-decoded :
      length header ≡ 24
      → (decoded header).signature ≡ signature_bytes
      → (decoded header).version ≡ 1
      → (decoded header).flags ≡ 0
      → (decoded header).reserved ≡ 0
      → (decoded header).content_size < 2 ^ 53
      → length (coding.encode content_type) ≡ (decoded header).content_type_length
      → encode_header coding (decoded header).content_size content_type (decoded header).ref_count
        ≡ header
  unfolding encode_header
  encode_header-decoded h sig ver flags res safe type =
      (λ i.
        sym sig i
        ++ (version i ++ (flag_bytes i ++ (size i ++ (refs i ++ (type_length i ++ reserved i))))))
      ∙ slices-header header h
    where
      version : le_bytes 2 1 ≡ slice 2 4 header
      version = ap (le_bytes 2) (sym ver) ∙ le_bytes-get_uint 2 2 header bytes (omega arith)

      flag_bytes : le_bytes 4 0 ≡ slice 4 8 header
      flag_bytes = ap (le_bytes 4) (sym flags) ∙ le_bytes-get_uint 4 4 header bytes (omega arith)

      size : le_bytes 8 (decoded header).content_size ≡ slice 8 16 header
      size =
          ap (le_bytes 8) (number_of_u64_exact (get_uint 8 8 header) safe)
          ∙ le_bytes-get_uint 8 8 header bytes (omega arith)

      refs : le_bytes 4 (decoded header).ref_count ≡ slice 16 20 header
      refs = le_bytes-get_uint 16 4 header bytes (omega arith)

      type_length : le_bytes 2 (length (coding.encode content_type)) ≡ slice 20 22 header
      type_length = ap (le_bytes 2) type ∙ le_bytes-get_uint 20 2 header bytes (omega arith)

      reserved : le_bytes 2 0 ≡ slice 22 24 header
      reserved = ap (le_bytes 2) (sym res) ∙ le_bytes-get_uint 22 2 header bytes (omega arith)

  -- A header that decodes to the version-1 constants and a safe content size is the one that
  -- `encodeHeader` writes for its sizes, so a node has one header only.
  pub encode_header-decode_header :
      (d : DecodedHeader)
      → decode_header header ≡ ok d
      → d.signature ≡ signature_bytes
      → d.version ≡ 1
      → d.flags ≡ 0
      → d.reserved ≡ 0
      → d.content_size < 2 ^ 53
      → length (coding.encode content_type) ≡ d.content_type_length
      → encode_header coding d.content_size content_type d.ref_count ≡ header
  encode_header-decode_header d h =
      subst
        (λ (e : DecodedHeader).
          e.signature ≡ signature_bytes
          → e.version ≡ 1
          → e.flags ≡ 0
          → e.reserved ≡ 0
          → e.content_size < 2 ^ 53
          → length (coding.encode content_type) ≡ e.content_type_length
          → encode_header coding e.content_size content_type e.ref_count ≡ header)
        (decode_header-eq-ok header d h).1
        (encode_header-decoded (decode_header-eq-ok header d h).0)
