-- ===== src/Base/Int.antt =====
-- Signed integers over the native numbers, for the deltas that a JavaScript number may carry.
use Prim.Native.Nat.{ℕ, suc, ◌+◌, ◌-◌}
use unicas.Base.Tests.{leb, if◌then◌else◌}

-- `negsuc n` is -(n + 1).
pub data ℤ : Type 0 where
  pos : ℕ → ℤ
  negsuc : ℕ → ℤ

-- a - b, as an integer.
abbrev pub sub_ℕ : ℕ → ℕ → ℤ
sub_ℕ a b = if leb b a then pos (a - b) else negsuc (b - a - 1)

-- A count plus a delta.
unfoldable pub add_delta : ℕ → ℤ → ℤ
add_delta n (pos d) = pos (n + d)
add_delta n (negsuc d) = sub_ℕ n (suc d)

abbrev pub abs : ℤ → ℕ
abs (pos n) = n
abs (negsuc n) = suc n
