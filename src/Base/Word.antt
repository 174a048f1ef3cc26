-- ===== src/Base/Word.antt =====
-- Go's int64: two's complement arithmetic modulo 2^64.
use Prim.Native.Nat.{ℕ, ◌+◌, ◌-◌, ◌*◌, ◌%◌, ◌^◌}
use tasker.Base.Tests.{ltb, if◌then◌else◌}
use tasker.Base.Int.{ℤ, pos, negsuc}

abbrev pub modulus : ℕ
modulus = 18_446_744_073_709_551_616

-- The bit pattern of an integer, and the integer that a bit pattern stands for.
unfoldable pub to_word : ℤ → ℕ
to_word (pos n) = n % modulus
to_word (negsuc n) = modulus - 1 - n % modulus

unfoldable pub of_word : ℕ → ℤ
of_word w = if ltb w 9_223_372_036_854_775_808 then pos w else negsuc (modulus - 1 - w)

unfoldable pub add64 : ℤ → ℤ → ℤ
add64 a b = of_word ((to_word a + to_word b) % modulus)

unfoldable pub mul64 : ℤ → ℤ → ℤ
mul64 a b = of_word (to_word a * to_word b % modulus)

-- `1 << k`.
unfoldable pub shl64 : ℕ → ℤ
shl64 k = of_word (2 ^ k % modulus)
