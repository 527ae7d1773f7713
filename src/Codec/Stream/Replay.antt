-- ===== src/Codec/Stream/Replay.antt =====
-- The replayed body of a parsed stream is the source, whole, and never more than was declared.
use unicas.Base.{
  ℕ, ◌+◌, ◌≤◌, ◌≡◌, ap, ◌↔◌, List, [], ◌∷◌, length, ltb, arith, flatten, Bool-cases, inl, inr,
  length-append,
}
use unicas.Codec.Bytes.{Bytes}
use unicas.Codec.Stream.{StreamCursor, pending, replay_chunks, replay, ReplayEnd, closed}

replay_chunks-closed :
    (expected emitted : ℕ) (chunks : List Bytes)
    → emitted + length (flatten chunks) ≡ expected
    → replay_chunks expected emitted chunks ≡ (chunks, closed)
unfolding replay_chunks flatten
replay_chunks-closed expected emitted [] h = ground arith
replay_chunks-closed expected emitted (chunk ∷ chunks) h = ground (
  arith,
  length-append chunk (flatten chunks),
  replay_chunks-closed expected (emitted + length chunk) chunks,
)

replay_chunks-eq-closed :
    (expected emitted : ℕ) (chunks : List Bytes)
    → (replay_chunks expected emitted chunks).1 ≡ closed
    → emitted + length (flatten chunks) ≡ expected
unfolding replay_chunks flatten
replay_chunks-eq-closed expected emitted [] h = ground arith
replay_chunks-eq-closed expected emitted (chunk ∷ chunks) h = ground (
  arith,
  length-append chunk (flatten chunks),
  replay_chunks-eq-closed expected (emitted + length chunk) chunks,
)

replay_chunks-le :
    (expected emitted : ℕ) (chunks : List Bytes)
    → emitted ≤ expected
    → emitted + length (flatten (replay_chunks expected emitted chunks).0) ≤ expected
unfolding replay_chunks flatten
replay_chunks-le expected emitted [] h = omega arith
replay_chunks-le expected emitted (chunk ∷ chunks) h =
    elim (Bool-cases (ltb expected (emitted + length chunk))) [
      | inl over ↦ rw over (omega arith)
      | inr fits ↦ rw fits (
          omega (
            arith,
            length-append chunk
                (flatten (replay_chunks expected (emitted + length chunk) chunks).0),
            replay_chunks-le expected (emitted + length chunk) chunks (ground arith),
          ))
    ]

-- A replayed body closes exactly when prefix and source have the declared length together; then
-- every chunk was passed on, and in any case no more bytes than declared.
pub replay_lem :
    (cursor : StreamCursor) (prefix : Bytes) (expected : ℕ)
    → (((replay cursor prefix expected).1 ≡ closed)
        ↔ (length prefix + length (flatten (pending cursor)) ≡ expected))
      × ((replay cursor prefix expected).1 ≡ closed
          → (replay cursor prefix expected).0 ≡ prefix ∷ pending cursor)
      × (length (flatten (replay cursor prefix expected).0) ≤ expected)
unfolding replay
replay_lem cursor prefix expected = (
  (λ h. omega (arith, size, forth h), λ h. ap (λ (r : List Bytes × ReplayEnd). r.1) (back h)),
  λ h.
      ap (λ (r : List Bytes × ReplayEnd). r.0)
        (replay_chunks-closed expected 0 (prefix ∷ pending cursor) (forth h)),
  omega (arith, replay_chunks-le expected 0 (prefix ∷ pending cursor) (omega arith)),
)
  where
    size :
        length (flatten (prefix ∷ pending cursor))
        ≡ length prefix + length (flatten (pending cursor))
    size = unfold flatten in length-append prefix (flatten (pending cursor))

    forth :
        (replay_chunks expected 0 (prefix ∷ pending cursor)).1 ≡ closed
        → 0 + length (flatten (prefix ∷ pending cursor)) ≡ expected
    forth h = replay_chunks-eq-closed expected 0 (prefix ∷ pending cursor) h

    back :
        length prefix + length (flatten (pending cursor)) ≡ expected
        → replay_chunks expected 0 (prefix ∷ pending cursor) ≡ (prefix ∷ pending cursor, closed)
    back h = replay_chunks-closed expected 0 (prefix ∷ pending cursor) (omega (arith, size))
