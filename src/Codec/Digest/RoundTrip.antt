-- ===== src/Codec/Digest/RoundTrip.antt =====
-- `hashToHex` and `hexToHash` are inverse to each other, and `hashToHex` writes valid hashes.
use unicas.Base.{
  ℕ, zero, suc, ◌+◌, ◌-◌, ◌*◌, ◌/◌, ◌%◌, ◌<◌, ◌≡◌, refl, ap, ◌∙◌, true, ◌&&◌, some, [], ◌∷◌, length,
  if◌then◌else◌, leb, ok, arith, every, &&-eq-true,
}
use unicas.Base.Text.{Text}
use unicas.Codec.Bytes.{Bytes, IsBytes}
use unicas.Codec.Validation.{is_hex, validate_hash}
use unicas.Codec.Validation.Laws.{validate_hash_iff}
use unicas.Codec.Digest.{
  hex_digit, hex_byte, hex_bytes, hash_to_hex, digit_value, parse_byte, parse_pairs, hex_to_hash,
}

digit_value-hex_digit : (n : ℕ) → n < 16 → digit_value (hex_digit n) ≡ some n
unfolding digit_value hex_digit
digit_value-hex_digit n h = ground arith

is_hex-hex_digit : (n : ℕ) → n < 16 → is_hex (hex_digit n) ≡ true
unfolding hex_digit
is_hex-hex_digit n h = ground arith

-- A byte is written as the digits of its two halves.
hex_byte_lem : (b : ℕ) → hex_byte b ≡ hex_digit (b / 16) ∷ hex_digit (b % 16) ∷ []
unfolding hex_byte
hex_byte_lem b = ground arith

parse_byte-hex_digits : (b : ℕ) → b < 256 → parse_byte (hex_digit (b / 16)) (hex_digit (b % 16)) ≡ b
unfolding parse_byte
parse_byte-hex_digits b h =
    rw (digit_value-hex_digit (b / 16) (omega arith), digit_value-hex_digit (b % 16) (omega arith))
      (omega arith)

parse_pairs-hex_bytes : (hash : Bytes) → IsBytes hash → parse_pairs (hex_bytes hash) ≡ hash
unfolding parse_pairs hex_bytes
parse_pairs-hex_bytes [] h = refl
parse_pairs-hex_bytes (b ∷ bs) h =
    rw (hex_byte_lem b) (λ i. parse_byte-hex_digits b h.0 i ∷ parse_pairs-hex_bytes bs h.1 i)

length-hex_bytes : (hash : Bytes) → length (hex_bytes hash) ≡ length hash * 2
unfolding hex_bytes
length-hex_bytes [] = refl
length-hex_bytes (b ∷ bs) = rw (hex_byte_lem b) (omega (arith, length-hex_bytes bs))

every-is_hex-hex_bytes : (hash : Bytes) → IsBytes hash → every is_hex (hex_bytes hash) ≡ true
unfolding hex_bytes
every-is_hex-hex_bytes [] h = refl
every-is_hex-hex_bytes (b ∷ bs) h =
    rw
      (
        hex_byte_lem b,
        is_hex-hex_digit (b / 16) (omega arith),
        is_hex-hex_digit (b % 16) (omega arith),
      )
      (every-is_hex-hex_bytes bs h.1)

-- The text of a 32-byte hash is a valid hash text, and reading it back gives the bytes.
pub hex_to_hash-hash_to_hex :
    (hash : Bytes)
    → IsBytes hash
    → length hash ≡ 32
    → (text : Text) × (hash_to_hex hash ≡ ok text)
      × (validate_hash text ≡ ok tt)
      × (hex_to_hash text ≡ ok hash)
unfolding hash_to_hex hex_to_hash
hex_to_hash-hash_to_hex hash bytes size = (
  hex_bytes hash,
  rw size,
  (validate_hash_iff (hex_bytes hash)).1
      (omega (arith, length-hex_bytes hash), every-is_hex-hex_bytes hash bytes),
  rw (length-hex_bytes hash, size) (ap ok (parse_pairs-hex_bytes hash bytes)),
)

hex_digit-digit :
    (c : ℕ) → is_hex c ≡ true → (d : ℕ) × (digit_value c ≡ some d) × (hex_digit d ≡ c) × (d < 16)
unfolding digit_value hex_digit
hex_digit-digit c h =
    (if leb c 57 then c - 48 else c - 87, ground arith, ground arith, ground arith)

hex_byte-parse_byte :
    (a b : ℕ)
    → is_hex a ≡ true
    → is_hex b ≡ true
    → (hex_byte (parse_byte a b) ≡ a ∷ b ∷ []) × (parse_byte a b < 256)
unfolding parse_byte
hex_byte-parse_byte a b ha hb =
    let (d, ed, hd, bd) = hex_digit-digit a ha in
    let (e, ee, he, be) = hex_digit-digit b hb in
    rw (ed, ee, hex_byte_lem (d * 16 + e))
      (
        (λ i. (ap hex_digit (high d e be) ∙ hd) i ∷ (ap hex_digit (low d e be) ∙ he) i ∷ []),
        omega arith,
      )
  where
    high : (d e : ℕ) → e < 16 → (d * 16 + e) / 16 ≡ d
    high d e h = omega arith

    low : (d e : ℕ) → e < 16 → (d * 16 + e) % 16 ≡ e
    low d e h = omega arith

hex_bytes-parse_pairs :
    (n : ℕ) (text : Text)
    → length text ≡ n * 2
    → every is_hex text ≡ true
    → (hex_bytes (parse_pairs text) ≡ text) × (length (parse_pairs text) ≡ n)
unfolding hex_bytes parse_pairs
hex_bytes-parse_pairs zero [] l h = (refl, refl)
hex_bytes-parse_pairs (suc n) [] l h = absurd (omega arith)
hex_bytes-parse_pairs n (a ∷ []) l h = absurd (omega arith)
hex_bytes-parse_pairs zero (a ∷ b ∷ cs) l h = absurd (omega arith)
hex_bytes-parse_pairs (suc n) (a ∷ b ∷ cs) l h =
    let (ha, rest) = &&-eq-true (is_hex a) (is_hex b && every is_hex cs) h in
    let (hb, hc) = &&-eq-true (is_hex b) (every is_hex cs) rest in
    let (again, count) = hex_bytes-parse_pairs n cs (omega arith) hc in
    (rw ((hex_byte-parse_byte a b ha hb).0, again), ap suc count)

-- Every valid hash text is read as 32 bytes, and their text is the one that was read.
pub hash_to_hex-hex_to_hash :
    (text : Text)
    → validate_hash text ≡ ok tt
    → (hash : Bytes) × (hex_to_hash text ≡ ok hash)
      × (length hash ≡ 32)
      × (hash_to_hex hash ≡ ok text)
unfolding hash_to_hex hex_to_hash
hash_to_hex-hex_to_hash text h =
    let (size, hex) = (validate_hash_iff text).0 h in
    let (again, count) = hex_bytes-parse_pairs 32 text (omega arith) hex in
    (parse_pairs text, rw size, count, rw count (ap ok again))
