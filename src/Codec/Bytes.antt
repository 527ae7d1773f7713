-- ===== src/Codec/Bytes.antt =====
-- Byte arrays, little-endian integers of a fixed width, and writes into an array.
use native.Mathlib.Nat.{pow-suc}
use unicas.Base.{
  ℕ, zero, suc, ◌+◌, ◌*◌, ◌/◌, ◌%◌, ◌^◌, ◌<◌, ◌≡◌, refl, ap, ◌∙◌, List, [], ◌∷◌, ◌++◌, length, take,
  drop, All, arith, length-append, if◌then◌else◌, ltb, ok, err, Result, take-append, drop-append,
  le→ltb, drop-drop,
}
use unicas.Codec.Errors.{CodecError, range_error}

abbrev pub Bytes : Type 0
Bytes = List ℕ

abbrev pub IsBytes : Bytes → Type 0
IsBytes = All (λ b. b < 256)

-- `setUint16`, `setUint32` and `setBigUint64` with littleEndian keep the low bytes.
unfoldable pub le_bytes : ℕ → ℕ → Bytes
le_bytes zero v = []
le_bytes (suc k) v = v % 256 ∷ le_bytes k (v / 256)

unfoldable pub le_value : Bytes → ℕ
le_value [] = 0
le_value (b ∷ bs) = b + 256 * le_value bs

pub length-le_bytes : (k v : ℕ) → length (le_bytes k v) ≡ k
unfolding le_bytes
length-le_bytes zero v = refl
length-le_bytes (suc k) v = ap suc (length-le_bytes k (v / 256))

pub le_bytes-IsBytes : (k v : ℕ) → IsBytes (le_bytes k v)
unfolding le_bytes
le_bytes-IsBytes zero v = tt
le_bytes-IsBytes (suc k) v = (omega arith, le_bytes-IsBytes k (v / 256))

pub le_value-le_bytes : (k v : ℕ) → v < 256 ^ k → le_value (le_bytes k v) ≡ v
unfolding le_bytes le_value
le_value-le_bytes zero v h = omega arith
le_value-le_bytes (suc k) v h =
    omega (arith, pow-suc 256 k, le_value-le_bytes k (v / 256) (omega (arith, pow-suc 256 k)))

pub le_bytes-le_value : (bs : Bytes) → IsBytes bs → le_bytes (length bs) (le_value bs) ≡ bs
unfolding le_bytes le_value
le_bytes-le_value [] h = refl
le_bytes-le_value (b ∷ bs) h =
    ap (λ x. x ∷ le_bytes (length bs) ((b + 256 * le_value bs) / 256)) (omega (arith, h.0))
    ∙ ap (λ v. b ∷ le_bytes (length bs) v) (omega (arith, h.0))
    ∙ ap (λ t. b ∷ t) (le_bytes-le_value bs h.1)

pub le_value-lt : (bs : Bytes) → IsBytes bs → le_value bs < 256 ^ length bs
unfolding le_value
le_value-lt [] h = omega arith
le_value-lt (b ∷ bs) h = omega (arith, pow-suc 256 (length bs), h.0, le_value-lt bs h.1)

-- `array.set(source, offset)` throws when the source does not fit.
unfoldable pub set_bytes : Bytes → Bytes → ℕ → Result CodecError Bytes
set_bytes array source offset =
    if ltb (length array) (offset + length source)
    then err range_error
    else ok (take offset array ++ (source ++ drop (offset + length source) array))

-- A write over the part of the array between a written prefix and the rest.
pub set_bytes-append :
    (done old rest source : Bytes)
    → length source ≡ length old
    → set_bytes (done ++ (old ++ rest)) source (length done) ≡ ok (done ++ (source ++ rest))
unfolding set_bytes
set_bytes-append done old rest source h =
    rw
      (le→ltb (length (done ++ (old ++ rest))) (length done + length source)
        (omega (arith, length-append done (old ++ rest), length-append old rest)))
      (ap ok (
        rw (
          take-append (length done) done (old ++ rest) refl,
          ← drop-drop (length source) (length done) (done ++ (old ++ rest)),
          drop-append (length done) done (old ++ rest) refl,
          drop-append (length source) old rest h,
        )))
