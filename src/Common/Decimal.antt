-- ===== src/Common/Decimal.antt =====
-- Numbers in decimal, as `snprintf("%d")`, `std::to_string` and `<<` write them.
use Prim.Native.Nat.{ℕ, zero, suc, ◌+◌, ◌-◌, ◌*◌, ◌/◌, ◌%◌, ◌<◌, ◌≤◌}
use mathlib.Core.Bool.{true}
use mathlib.Core.List.{[], ◌∷◌, ◌++◌}
use mathlib.Core.Logic.{inl, inr}
use mathlib.Core.Path.{◌≡◌, refl, ◌∙◌}
use native.Mathlib.Omega.{arith}
use my_file_server.Common.Tests.{ltb, Bool-cases, if◌then◌else◌}
use my_file_server.Common.Lists.{Bytes, length, length-append}
use my_file_server.Common.Word.{int_limit}
use my_file_server.Common.Text.{is_digit, digits_value}

-- The digits of n, with fuel for n + 1 digits.
unfoldable pub decimal_fuel : ℕ → ℕ → Bytes
decimal_fuel zero n = []
decimal_fuel (suc fuel) n =
    let longer = decimal_fuel fuel (n / 10) ++ (b'0' + n % 10) ∷ [] in
    if ltb n 10 then (b'0' + n) ∷ [] else longer

unfoldable pub decimal : ℕ → Bytes
unfolding decimal_fuel
decimal n = decimal_fuel (suc n) n

-- Only digits.
abbrev pub AreDigits : Bytes → Type 0
AreDigits [] = Unit {0}
AreDigits (c ∷ cs) = (is_digit c ≡ true) × AreDigits cs

AreDigits-concat :
    (xs : Bytes) (c : ℕ) → AreDigits xs → is_digit c ≡ true → AreDigits (xs ++ c ∷ [])
AreDigits-concat [] c h k = (k, tt)
AreDigits-concat (x ∷ xs) c h k = (h.0, AreDigits-concat xs c h.1 k)

digits_value-append :
    (acc : ℕ) (xs ys : Bytes)
    → AreDigits xs
    → digits_value acc (xs ++ ys) ≡ digits_value (digits_value acc xs) ys
unfolding digits_value
digits_value-append acc [] ys h = refl
digits_value-append acc (x ∷ xs) ys h =
    ground (arith, h.0, digits_value-append (acc * 10 + (x - b'0')) xs ys h.1)

decimal_fuel-AreDigits : (fuel n : ℕ) → AreDigits (decimal_fuel fuel n)
unfolding decimal_fuel
decimal_fuel-AreDigits zero n = tt
decimal_fuel-AreDigits (suc fuel) n = elim (Bool-cases (ltb n 10)) [
  | inl small ↦ rw small (unfold is_digit in ground arith, tt)
  | inr big ↦ rw big (
      AreDigits-concat (decimal_fuel fuel (n / 10)) (b'0' + n % 10)
        (decimal_fuel-AreDigits fuel (n / 10)) (unfold is_digit in ground arith))
]

pub decimal-AreDigits : (n : ℕ) → AreDigits (decimal n)
unfolding decimal
decimal-AreDigits n = decimal_fuel-AreDigits (suc n) n

digits_value-decimal_fuel : (fuel n : ℕ) → n < fuel → digits_value 0 (decimal_fuel fuel n) ≡ n
unfolding decimal_fuel
digits_value-decimal_fuel zero n h = absurd (omega arith)
digits_value-decimal_fuel (suc fuel) n h = elim (Bool-cases (ltb n 10)) [
  | inl small ↦ rw small (unfold digits_value in ground arith)
  | inr big ↦ rw big (
      digits_value-append 0 (decimal_fuel fuel (n / 10)) _ (decimal_fuel-AreDigits fuel (n / 10))
      ∙ rw (digits_value-decimal_fuel fuel (n / 10) (ground arith))
          (unfold digits_value in ground arith))
]

-- The decimal text of a number is read back as that number.
pub digits_value-decimal : (n : ℕ) → digits_value 0 (decimal n) ≡ n
unfolding decimal
digits_value-decimal n = digits_value-decimal_fuel (suc n) n (omega arith)

-- At most so many digits.
abbrev pub ten_to : ℕ → ℕ
ten_to zero = 1
ten_to (suc k) = 10 * ten_to k

length-decimal_fuel : (fuel n k : ℕ) → n < ten_to (suc k) → length (decimal_fuel fuel n) ≤ suc k
unfolding decimal_fuel
length-decimal_fuel zero n k h = omega arith
length-decimal_fuel (suc fuel) n zero h = ground arith
length-decimal_fuel (suc fuel) n (suc k) h = elim (Bool-cases (ltb n 10)) [
  | inl small ↦ rw small (omega arith)
  | inr big ↦ rw big (
      omega (
        arith,
        length-append (decimal_fuel fuel (n / 10)) ((b'0' + n % 10) ∷ []),
        length-decimal_fuel fuel (n / 10) k (omega (arith, h)),
      ))
]

pub length-decimal_digits : (n k : ℕ) → n < ten_to (suc k) → length (decimal n) ≤ suc k
unfolding decimal
length-decimal_digits n k h = length-decimal_fuel (suc n) n k h

-- An `int` has ten digits at most.
pub length-decimal : (n : ℕ) → n < int_limit → length (decimal n) ≤ 10
unfolding decimal
length-decimal n h = length-decimal_fuel (suc n) n 9 (omega (arith, h))
