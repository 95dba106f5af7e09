-- ===== src/Base/Int.antt =====
-- Go's signed integers, as integers: `negsuc n` is -(n + 1).
use Prim.Native.Nat.{ℕ, ◌-◌}
use mathlib.Core.Bool.{Bool, true, false}
use pty_mcp.Base.Tests.{ltb, leb, if◌then◌else◌}

pub data ℤ : Type 0 where
  pos : ℕ → ℤ
  negsuc : ℕ → ℤ

-- Go's `n <= 0`
abbrev pub is_nonpos : ℤ → Bool
is_nonpos (pos n) = leb n 0
is_nonpos (negsuc n) = true

-- Go's `k < n` for a natural number k
abbrev pub exceeds : ℤ → ℕ → Bool
exceeds (pos n) k = ltb k n
exceeds (negsuc n) k = false

-- Go's `n < k` for a natural number k
abbrev pub is_below : ℤ → ℕ → Bool
is_below (pos n) k = ltb n k
is_below (negsuc n) k = true

-- The number, where the code has made sure that it is not negative.
abbrev pub pos_part : ℤ → ℕ
pos_part (pos n) = n
pos_part (negsuc n) = 0

-- a - b, as an integer
abbrev pub sub_ℕ : ℕ → ℕ → ℤ
sub_ℕ a b = if leb b a then pos (a - b) else negsuc (b - a - 1)

-- Go's `a < b`
abbrev pub int_ltb : ℤ → ℤ → Bool
int_ltb (pos a) (pos b) = ltb a b
int_ltb (pos a) (negsuc b) = false
int_ltb (negsuc a) (pos b) = true
int_ltb (negsuc a) (negsuc b) = ltb b a
