-- ===== src/Codec/Digest.antt =====
-- packages/codec/src/digest.ts: the digest of a node's canonical bytes and the text of a hash.
pub mod RoundTrip
pub mod NodeDigest
use unicas.Base.{
  ℕ, zero, suc, ◌+◌, ◌-◌, ◌*◌, ◌/◌, ◌%◌, Bool, true, false, ◌&&◌, ◌||◌, not, Option, none, some,
  List, [], ◌∷◌, ◌++◌, length, replicate, if◌then◌else◌, ltb, leb, ◌==◌, Result, ok, err, ◌>>=◌,
  ◌>>◌, throw_if,
}
use unicas.Base.Text.{Text}
use unicas.Codec.Bytes.{Bytes, set_bytes}
use unicas.Codec.Host.{TextCoding, Digester}
use unicas.Codec.Errors.{CodecError, hash_byte_length, hash_hex_length}
use unicas.Codec.Binary.{hash_size, set_hashes}

-- SHA-256 of the header, the content type, the child hashes and the content.
unfoldable pub compute_node_digest :
    TextCoding → Digester → Bytes → Text → List Bytes → Bytes → Result CodecError Bytes
compute_node_digest coding digester header content_type child_hashes content = do
  let type_bytes = coding.encode content_type
  let total = length header + length type_bytes + length child_hashes * hash_size + length content
  with_header ← set_bytes (replicate total 0) header 0
  with_type ← set_bytes with_header type_bytes (length header)
  (with_hashes, offset) ← set_hashes with_type child_hashes (length header + length type_bytes)
  canonical ← set_bytes with_hashes content offset
  ok (digester.sha256 canonical)

-- A digit of `toString(16)`.
unfoldable pub hex_digit : ℕ → ℕ
hex_digit n = if ltb n 10 then 48 + n else 87 + n

-- `b.toString(16).padStart(2, "0")` of a byte.
unfoldable pub hex_byte : ℕ → Text
unfolding hex_digit
hex_byte b =
    if ltb b 16 then 48 ∷ hex_digit b ∷ [] else hex_digit (b / 16) ∷ hex_digit (b % 16) ∷ []

unfoldable pub hex_bytes : Bytes → Text
hex_bytes [] = []
hex_bytes (b ∷ bs) = hex_byte b ++ hex_bytes bs

unfoldable pub hash_to_hex : Bytes → Result CodecError Text
hash_to_hex hash =
    if not (length hash == hash_size) then err hash_byte_length else ok (hex_bytes hash)

-- The value of a hexadecimal digit, in either case.
unfoldable pub digit_value : ℕ → Option ℕ
digit_value c =
    if leb 48 c && leb c 57
    then some (c - 48)
    else if leb 97 c && leb c 102
    then some (c - 87)
    else if leb 65 c && leb c 70
    then some (c - 55)
    else none

-- The white space and line terminators that `parseInt` skips.
unfoldable pub is_space : ℕ → Bool
is_space c =
    leb 9 c && leb c 13
    || (c == 32
        || (c == 0xa0
            || (c == 0x1680
                || (leb 0x2000 c && leb c 0x200a
                    || (c == 0x2028
                        || (c == 0x2029
                            || (c == 0x202f || (c == 0x205f || (c == 0x3000 || c == 0xfeff)))))))))

-- The byte that `parseInt(two characters, 16)` becomes in a Uint8Array: a digit prefix, a sign or a
-- space before one digit, and 0 for NaN.
abbrev pub second_digit : ℕ → Option ℕ → ℕ
second_digit a none = 0
second_digit a (some e) =
    if a == 45 then (256 - e) % 256 else if a == 43 || is_space a then e else 0

abbrev pub pair_value : ℕ → Option ℕ → Option ℕ → ℕ
pair_value a (some d) (some e) = d * 16 + e
pair_value a (some d) none = d
pair_value a none e = second_digit a e

unfoldable pub parse_byte : ℕ → ℕ → ℕ
parse_byte a b = pair_value a (digit_value a) (digit_value b)

-- The loop over `HASH_SIZE` pairs of characters.
unfoldable pub parse_pairs : Text → Bytes
parse_pairs [] = []
parse_pairs (a ∷ []) = []
parse_pairs (a ∷ b ∷ cs) = parse_byte a b ∷ parse_pairs cs

unfoldable pub hex_to_hash : Text → Result CodecError Bytes
hex_to_hash hex =
    if not (length hex == hash_size * 2) then err hash_hex_length else ok (parse_pairs hex)
