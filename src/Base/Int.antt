-- ===== src/Base/Int.antt =====
-- Signed integers over the native numbers, and the 64-bit words that stand for them.
use Prim.Native.Nat.{ℕ, suc, ◌+◌, ◌-◌, ◌*◌, ◌/◌, ◌%◌, ◌^◌}
use mathlib.Core.Bool.{Bool}
use portable_smb_server.Base.Tests.{ltb, leb, if◌then◌else◌}

-- `negsuc n` is -(n + 1).
pub data ℤ : Type 0 where
  pos : ℕ → ℤ
  negsuc : ℕ → ℤ

-- a - b, as an integer.
abbrev pub sub_ℕ : ℕ → ℕ → ℤ
sub_ℕ a b = if leb b a then pos (a - b) else negsuc (b - a - 1)

abbrev pub sub : ℤ → ℕ → ℤ
sub (pos n) m = sub_ℕ n m
sub (negsuc n) m = negsuc (n + m)

abbrev pub add : ℤ → ℕ → ℤ
add (pos n) m = pos (n + m)
add (negsuc n) m = sub_ℕ m (suc n)

abbrev pub scale : ℤ → ℕ → ℤ
scale (pos n) k = pos (n * k)
scale (negsuc n) k = sub_ℕ 0 (suc n * k)

-- Go's division truncates towards zero.
abbrev pub quot : ℤ → ℕ → ℤ
quot (pos n) k = pos (n / k)
quot (negsuc n) k = sub_ℕ 0 (suc n / k)

-- uint64(z)
abbrev pub uint64 : ℤ → ℕ
uint64 (pos n) = n % 2 ^ 64
uint64 (negsuc n) = 2 ^ 64 - 1 - n % 2 ^ 64

-- int64(w) of a word below 2^64
abbrev pub int64 : ℕ → ℤ
int64 w = if ltb w (2 ^ 63) then pos w else negsuc (2 ^ 64 - 1 - w)

-- the value that int64 arithmetic leaves
abbrev pub wrap64 : ℤ → ℤ
wrap64 z = int64 (uint64 z)

abbrev pub is_negative : ℤ → Bool
is_negative (pos n) = Bool.false
is_negative (negsuc n) = Bool.true
