-- ===== src/Codec/Host.antt =====
-- What the codec takes from its host: the TextEncoder and TextDecoder of the Encoding standard and
-- the SHA-256 of Web Crypto. They are parameters; of the coders only what they do to printable
-- ASCII is relied on, of the digest only its length.
use unicas.Base.{ℕ, ◌≡◌, refl, true, ◌&&◌, Bool, leb, length, every}
use unicas.Base.Text.{Text}
use unicas.Codec.Bytes.{Bytes, IsBytes}

-- A code unit from 0x20 to 0x7e.
abbrev pub printable : ℕ → Bool
printable c = leb 0x20 c && leb c 0x7e

pub record TextCoding : Type 0 where
  pub encode : Text → Bytes
  pub decode : Bytes → Text
  pub encode_ascii : (t : Text) → every printable t ≡ true → encode t ≡ t
  pub decode_ascii : (b : Bytes) → every printable b ≡ true → decode b ≡ b

pub record Digester : Type 0 where
  pub sha256 : Bytes → Bytes
  pub sha256_length : (b : Bytes) → length (sha256 b) ≡ 32
  pub sha256_bytes : (b : Bytes) → IsBytes (sha256 b)

-- Coders that are right on ASCII, for runs.
abbrev pub ascii_coding : TextCoding
ascii_coding = record {
  encode = λ t. t;
  decode = λ b. b;
  encode_ascii = λ t h. refl;
  decode_ascii = λ b h. refl;
}
