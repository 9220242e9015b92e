-- ===== src/Common/Int.antt =====
-- Signed integers over the native numbers, and the C types `int` (32 bits) and `off64_t` (64 bits).
use Prim.Native.Nat.{ℕ, suc, ◌+◌, ◌-◌, ◌%◌}
use my_file_server.Common.Tests.{ltb, leb, if◌then◌else◌}
use my_file_server.Common.Word.{int_limit, int_mod, size_mod}
use my_file_server.Common.Faults.{Result, ok, err, int_overflow}

-- `negsuc n` is -(n + 1).
pub data ℤ : Type 0 where
  pos : ℕ → ℤ
  negsuc : ℕ → ℤ

abbrev pub pos_part : ℤ → ℕ
pos_part (pos n) = n
pos_part (negsuc n) = 0

abbrev pub neg_part : ℤ → ℕ
neg_part (pos n) = 0
neg_part (negsuc n) = suc n

-- a - b, as an integer.
abbrev pub sub_ℕ : ℕ → ℕ → ℤ
sub_ℕ a b = if leb b a then pos (a - b) else negsuc (b - a - 1)

infixl 65 ◌+ℤ◌ ◌-ℤ◌
unfoldable pub ◌+ℤ◌ : ℤ → ℤ → ℤ
a +ℤ b = sub_ℕ (pos_part a + pos_part b) (neg_part a + neg_part b)

unfoldable pub ◌-ℤ◌ : ℤ → ℤ → ℤ
a -ℤ b = sub_ℕ (pos_part a + neg_part b) (neg_part a + pos_part b)

-- A value that must fit an `int`: an overflow is undefined.
unfoldable pub to_int : ℤ → Result ℤ
to_int (pos n) = if ltb n int_limit then ok (pos n) else err int_overflow
to_int (negsuc n) = if ltb n int_limit then ok (negsuc n) else err int_overflow

-- `static_cast<int>` of a wider integer: the low 32 bits, sign extended.
abbrev low_bits : ℤ → ℕ
low_bits (pos n) = n % int_mod
low_bits (negsuc n) = int_mod - 1 - n % int_mod

unfoldable pub cast_int : ℤ → ℤ
cast_int z =
    let low = low_bits z in if ltb low int_limit then pos low else negsuc (int_mod - 1 - low)

-- `static_cast<size_t>`.
unfoldable pub cast_size : ℤ → ℕ
cast_size (pos n) = n % size_mod
cast_size (negsuc n) = size_mod - 1 - n % size_mod
