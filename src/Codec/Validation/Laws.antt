-- ===== src/Codec/Validation/Laws.antt =====
-- What a header has passed when the size validation lets it through.
use unicas.Base.{
  ℕ, ◌+◌, ◌*◌, ◌≤◌, ◌≡◌, refl, true, none, some, List, [], ◌∷◌, length, every, ok, arith, ◌↔◌, All,
}
use unicas.Base.Text.{Text, same_iff}
use unicas.Codec.Binary.{signature_bytes, DecodedHeader}
use unicas.Codec.Validation.{
  CanonicalNodeLimits, no_limits, resolve_limit, validate_canonical_node_size, validate_hash,
  is_hex, validate_hashes, validate_child_refs, validate_decoded_header,
}

-- The byte limit that applies: the caller's, or the built-in maximum.
abbrev pub byte_limit : CanonicalNodeLimits → ℕ
byte_limit limits = elim limits.max_canonical_node_bytes [ none ↦ 67108864 | some m ↦ m ]

abbrev pub ref_limit : CanonicalNodeLimits → ℕ
ref_limit limits = elim limits.max_node_refs [ none ↦ 256 | some m ↦ m ]

-- The parts are within the limits, and the limits within the built-in maxima.
pub record WithinLimits (content_size content_type_length ref_count : ℕ)
    (limits : CanonicalNodeLimits) : Type 0 where
  pub type_min : 1 ≤ content_type_length
  pub type_max : content_type_length ≤ 1024
  pub refs : ref_count ≤ ref_limit limits
  pub refs_max : ref_limit limits ≤ 256
  pub total : 24 + content_type_length + ref_count * 32 + content_size ≤ byte_limit limits
  pub total_min : 1 ≤ byte_limit limits
  pub total_max : byte_limit limits ≤ 67108864

-- The size validation accepts exactly the parts within the limits, and returns the canonical length
-- of header, content type, refs and content: the content type has 1 to 1024 bytes, the refs are at
-- most the ref limit, which is at most 256, and the whole is at most the byte limit, which is from 1
-- byte to 64 MiB.
pub validate_canonical_node_size_iff :
    (content_size content_type_length ref_count total : ℕ) (limits : CanonicalNodeLimits)
    → (validate_canonical_node_size content_size content_type_length ref_count limits ≡ ok total)
      ↔ (WithinLimits content_size content_type_length ref_count limits
          × (total ≡ 24 + content_type_length + ref_count * 32 + content_size))
unfolding validate_canonical_node_size resolve_limit
validate_canonical_node_size_iff c t r total limits = (λ h. ground arith, λ w. ground arith)

-- A header that is validated is a version-1 header, and its sizes are within the default limits.
pub validate_decoded_header_iff :
    (d : DecodedHeader)
    → (validate_decoded_header d ≡ ok tt) ↔ (
        (d.signature ≡ signature_bytes)
        × (d.version ≡ 1)
        × (d.flags ≡ 0)
        × (d.reserved ≡ 0)
        × WithinLimits d.content_size d.content_type_length d.ref_count no_limits)
unfolding validate_decoded_header validate_canonical_node_size resolve_limit
validate_decoded_header_iff d = (
  λ h. ground (arith, same_iff d.signature signature_bytes),
  λ w. ground (arith, same_iff d.signature signature_bytes),
)

-- The lower-case hexadecimal texts of 64 characters are the hashes.
pub validate_hash_iff :
    (hash : Text) → (validate_hash hash ≡ ok tt) ↔ ((length hash ≡ 64) × (every is_hex hash ≡ true))
unfolding validate_hash
validate_hash_iff hash = (λ h. ground arith, λ w. ground arith)

abbrev AreHexHashes : List Text → Type 0
AreHexHashes = All (λ (hash : Text). (length hash ≡ 64) × (every is_hex hash ≡ true))

validate_hashes_iff : (refs : List Text) → (validate_hashes refs ≡ ok tt) ↔ AreHexHashes refs
unfolding validate_hashes
validate_hashes_iff [] = (λ h. tt, λ w. refl)
validate_hashes_iff (hash ∷ refs) = (
  λ h. ground (arith, validate_hash_iff hash, validate_hashes_iff refs),
  λ w. ground (arith, validate_hash_iff hash, validate_hashes_iff refs),
)

-- The refs that are accepted are as many as the header says, and each is 64 lower-case hexadecimal
-- digits.
pub validate_child_refs_iff :
    (refs : List Text) (ref_count : ℕ)
    → (validate_child_refs refs ref_count ≡ ok tt) ↔ ((length refs ≡ ref_count) × AreHexHashes refs)
unfolding validate_child_refs
validate_child_refs_iff refs ref_count =
    (λ h. ground (arith, validate_hashes_iff refs), λ w. ground (arith, validate_hashes_iff refs))
