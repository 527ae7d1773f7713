-- ===== src/Codec/Digest/NodeDigest.antt =====
-- `computeNodeDigest` hashes the bytes that `concatenateNodeBytes` builds.
use unicas.Base.{◌≡◌, refl, List, length, Result, ok, err, ◌>>=◌}
use unicas.Base.Text.{Text}
use unicas.Codec.Bytes.{Bytes}
use unicas.Codec.Host.{TextCoding, Digester}
use unicas.Codec.Errors.{CodecError}
use unicas.Codec.Binary.{concatenate_node_bytes}
use unicas.Codec.Digest.{compute_node_digest}

bind-bind :
    {A B C : Type 0} (m : Result CodecError A) (f : A → Result CodecError B)
    (g : B → Result CodecError C)
    → ((m >>= f) >>= g) ≡ (m >>= λ a. f a >>= g)
bind-bind (ok a) f g = refl
bind-bind (err e) f g = refl

-- For a 24-byte header the digest of a node is the SHA-256 of its canonical bytes, and it throws
-- where they cannot be built.
pub compute_node_digest-concatenate_node_bytes :
    (coding : TextCoding) (digester : Digester) (header : Bytes) (content_type : Text)
    (hashes : List Bytes) (content : Bytes)
    → length header ≡ 24
    → compute_node_digest coding digester header content_type hashes content ≡ (
        concatenate_node_bytes header (coding.encode content_type) hashes content >>= λ bytes.
        ok (digester.sha256 bytes))
unfolding compute_node_digest concatenate_node_bytes
compute_node_digest-concatenate_node_bytes coding digester header content_type hashes content h =
    simp (h, bind-bind)
