-- ===== src/Codec/Stream/Read.antt =====
-- Reading from a stream does not depend on how the source is cut into chunks.
use unicas.Base.{
  ℕ, ◌-◌, ◌≤◌, ◌≡◌, sym, ap, ◌∙◌, List, [], ◌∷◌, ◌++◌, length, take, drop, if◌then◌else◌, ltb,
  Result, ok, err, arith, flatten, Bool-cases, inl, inr, le→ltb, append-nil, append_assoc,
  length-append, take-append, drop-append, take-append-drop, length-take,
}
use unicas.Codec.Bytes.{Bytes}
use unicas.Codec.Errors.{CodecError, stream_ended}
use unicas.Codec.Stream.{StreamCursor, pending, read_chunks, read_exactly}

-- Reading `n` bytes of a byte array.
abbrev pub read_bytes : ℕ → Bytes → Result CodecError (Bytes × Bytes)
read_bytes n bytes =
    if ltb (length bytes) n then err stream_ended else ok (take n bytes, drop n bytes)

abbrev pub on_bytes : Result CodecError (Bytes × StreamCursor) → Result CodecError (Bytes × Bytes)
on_bytes (ok r) = ok (r.0, flatten (pending r.1))
on_bytes (err e) = err e

read_bytes-append : (n : ℕ) (xs ys : Bytes) → n ≡ length xs → read_bytes n (xs ++ ys) ≡ ok (xs, ys)
read_bytes-append n xs ys h =
    rw (le→ltb (length (xs ++ ys)) n (omega (arith, length-append xs ys)))
      (λ i. ok (take-append n xs ys h i, drop-append n xs ys h i))

-- A chunk of which only a part is taken.
read_bytes-chunk :
    (n : ℕ) (done chunk rest : Bytes)
    → length done ≤ n
    → n - length done ≤ length chunk
    → read_bytes n (done ++ (chunk ++ rest))
      ≡ ok (done ++ take (n - length done) chunk, drop (n - length done) chunk ++ rest)
read_bytes-chunk n done chunk rest h fits =
    ap (read_bytes n) (
      ap (λ t. done ++ (t ++ rest)) (sym (take-append-drop (n - length done) chunk))
      ∙ ap (λ t. done ++ t) (append_assoc part more rest)
      ∙ sym (append_assoc done part (more ++ rest)))
    ∙ read_bytes-append n (done ++ part) (more ++ rest)
        (omega (arith, length-append done part, length-take (n - length done) chunk))
  where
    part : Bytes
    part = take (n - length done) chunk

    more : Bytes
    more = drop (n - length done) chunk

on_bytes-read_chunks :
    (n : ℕ) (done : Bytes) (chunks : List Bytes)
    → length done ≤ n
    → on_bytes (read_chunks n done chunks) ≡ read_bytes n (done ++ flatten chunks)
unfolding read_chunks flatten
on_bytes-read_chunks n done [] h = elim (Bool-cases (ltb (length done) n)) [
  | inl short ↦ rw (append-nil done, short)
  | inr enough ↦ rw enough (sym (read_bytes-append n done [] (ground arith)))
]
on_bytes-read_chunks n done (chunk ∷ chunks) h = elim (Bool-cases (ltb (length done) n)) [
  | inr enough ↦ rw enough (sym (read_bytes-append n done (chunk ++ flatten chunks) (ground arith)))
  | inl short ↦ elim (Bool-cases (ltb (n - length done) (length chunk))) [
    | inl inside ↦
        rw (short, inside) (sym (read_bytes-chunk n done chunk (flatten chunks) h (ground arith)))
    | inr whole ↦ rw (
      short,
      whole,
      on_bytes-read_chunks n (done ++ chunk) chunks (ground (arith, length-append done chunk)),
      append_assoc done chunk (flatten chunks),
    )
  ]
]

-- `readExactly` returns the next bytes of the source and leaves those behind them, whatever the
-- chunks are, and throws when the source ends first.
pub read_exactly-read_bytes :
    (n : ℕ) (cursor : StreamCursor)
    → on_bytes (read_exactly n cursor) ≡ read_bytes n (flatten (pending cursor))
unfolding read_exactly
read_exactly-read_bytes n cursor = elim (Bool-cases (ltb 0 n)) [
  | inl some_bytes ↦ rw some_bytes (on_bytes-read_chunks n [] (pending cursor) (omega arith))
  | inr nothing ↦
      rw nothing (sym (read_bytes-append n [] (flatten (pending cursor)) (ground arith)))
]
