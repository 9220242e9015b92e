-- ===== src/Common/Word.antt =====
-- Arithmetic of `size_t` (64 bits) and `int` (32 bits), with the wrap-around written out.
use Prim.Native.Nat.{ℕ, ◌+◌, ◌-◌, ◌%◌, ◌≤◌, ◌<◌}
use mathlib.Core.Path.{◌≡◌}
use native.Mathlib.Omega.{arith}
use my_file_server.Common.Tests.{ltb, if◌then◌else◌}

-- 2 ^ 64, 2 ^ 32 and 2 ^ 31
abbrev pub size_mod : ℕ
size_mod = 18446744073709551616

abbrev pub int_mod : ℕ
int_mod = 4294967296

abbrev pub int_limit : ℕ
int_limit = 2147483648

-- The largest `std::vector<char>` or `std::string`, PTRDIFF_MAX.
abbrev pub max_size : ℕ
max_size = 9223372036854775807

unfoldable pub add_size : ℕ → ℕ → ℕ
add_size a b = (a + b) % size_mod

unfoldable pub sub_size : ℕ → ℕ → ℕ
sub_size a b = (a + size_mod - b) % size_mod

-- A `size_t` that is passed as an `int` and converted back: the low 32 bits, sign extended.
unfoldable pub size_of_int : ℕ → ℕ
size_of_int n = let low = n % int_mod in if ltb low int_limit then low else size_mod - int_mod + low

pub add_size_lem : (a b : ℕ) → a + b < size_mod → add_size a b ≡ a + b
unfolding add_size
add_size_lem a b h = omega arith

pub sub_size_lem : (a b : ℕ) → b ≤ a → a < size_mod → sub_size a b ≡ a - b
unfolding sub_size
sub_size_lem a b h k = omega arith

pub size_of_int_lem : (n : ℕ) → n < int_limit → size_of_int n ≡ n
unfolding size_of_int
size_of_int_lem n h = ground arith
