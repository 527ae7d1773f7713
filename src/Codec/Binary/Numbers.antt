-- ===== src/Codec/Binary/Numbers.antt =====
-- `Number(bigint)` on an unsigned 64-bit integer: the nearest double, ties to even.
use unicas.Base.{ℕ, ◌+◌, ◌*◌, ◌/◌, ◌%◌, ◌^◌, ◌≤◌, ◌<◌, ◌≡◌, arith, if◌then◌else◌, ltb, ◌==◌, ◌&&◌}

-- The nearest multiple of `unit`, the even one of two at the same distance.
unfoldable pub round_to : ℕ → ℕ → ℕ
round_to unit n =
    let q = n / unit in
    let r = n % unit in
    if ltb (2 * r) unit
    then q * unit
    else if 2 * r == unit && q % 2 == 0
    then q * unit
    else (q + 1) * unit

-- A double holds 53 bits: above 2 ^ 53 the unit doubles with the range.
unfoldable pub number_of_u64 : ℕ → ℕ
number_of_u64 n =
    if ltb n (2 ^ 53)
    then n
    else if ltb n (2 ^ 54)
    then round_to 2 n
    else if ltb n (2 ^ 55)
    then round_to 4 n
    else if ltb n (2 ^ 56)
    then round_to 8 n
    else if ltb n (2 ^ 57)
    then round_to 16 n
    else if ltb n (2 ^ 58)
    then round_to 32 n
    else if ltb n (2 ^ 59)
    then round_to 64 n
    else if ltb n (2 ^ 60)
    then round_to 128 n
    else if ltb n (2 ^ 61)
    then round_to 256 n
    else if ltb n (2 ^ 62)
    then round_to 512 n
    else if ltb n (2 ^ 63)
    then round_to 1024 n
    else round_to 2048 n

-- A safe integer is read exactly.
pub number_of_u64-safe : (n : ℕ) → n < 2 ^ 53 → number_of_u64 n ≡ n
unfolding number_of_u64
number_of_u64-safe n h = ground arith

round_to-ge : (unit n : ℕ) → (n / unit) * unit ≤ round_to unit n
unfolding round_to
round_to-ge unit n = grind arith

-- What is not a safe integer is not read as one.
pub number_of_u64_unsafe : (n : ℕ) → 2 ^ 53 ≤ n → 2 ^ 53 ≤ number_of_u64 n
unfolding number_of_u64
number_of_u64_unsafe n h = ground (
  arith,
  round_to-ge 2 n,
  round_to-ge 4 n,
  round_to-ge 8 n,
  round_to-ge 16 n,
  round_to-ge 32 n,
  round_to-ge 64 n,
  round_to-ge 128 n,
  round_to-ge 256 n,
  round_to-ge 512 n,
  round_to-ge 1024 n,
  round_to-ge 2048 n,
)

pub number_of_u64_exact : (n : ℕ) → number_of_u64 n < 2 ^ 53 → number_of_u64 n ≡ n
number_of_u64_exact n h = grind (arith, number_of_u64-safe, number_of_u64_unsafe)
