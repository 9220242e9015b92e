-- ===== src/Common/Reading.antt =====
-- `std::stoi` of a number that was printed.
use Prim.Native.Nat.{ℕ, ◌+◌, ◌/◌, ◌%◌, ◌<◌}
use mathlib.Core.Bool.{Bool, false}
use mathlib.Core.Logic.{inl, inr}
use mathlib.Core.List.{[], ◌∷◌, ◌++◌}
use mathlib.Core.Path.{◌≡◌, refl, sym, ap, subst, ◌∙◌}
use native.Mathlib.Omega.{arith}
use my_file_server.Common.Tests.{◌==◌, ltb, lt→ltb, Bool-cases, if◌then◌else◌}
use my_file_server.Common.Lists.{Bytes}
use my_file_server.Common.Word.{int_limit}
use my_file_server.Common.Int.{pos}
use my_file_server.Common.Faults.{ok, err, invalid_argument, out_of_range}
use my_file_server.Common.Text.{
  is_digit, is_space, skip_spaces, signed, digits_value, find_byte, Absent,
}
use my_file_server.Common.Decimal.{
  decimal, decimal_fuel, AreDigits, decimal-AreDigits, digits_value-decimal,
}
use my_file_server.Common.Strings.{in_range, stoi, has_digit, without_sign}

last-cons : (xs : Bytes) (d : ℕ) → (c : ℕ) × (cs : Bytes) × (xs ++ d ∷ [] ≡ c ∷ cs)
last-cons [] d = (d, [], refl)
last-cons (x ∷ xs) d = (x, xs ++ d ∷ [], refl)

-- A number that is printed has a first digit.
pub decimal-cons : (n : ℕ) → (c : ℕ) × (cs : Bytes) × (decimal n ≡ c ∷ cs)
unfolding decimal
decimal-cons n = elim (Bool-cases (ltb n 10)) [
  | inl small ↦ rw small (_, _, refl)
  | inr big ↦ rw big (last-cons (decimal_fuel n (n / 10)) (b'0' + n % 10))
]

stoi-digits :
    (c : ℕ) (cs : Bytes)
    → AreDigits (c ∷ cs)
    → digits_value 0 (c ∷ cs) < int_limit
    → stoi (c ∷ cs) ≡ ok (pos (digits_value 0 (c ∷ cs)))
unfolding stoi has_digit without_sign skip_spaces is_space signed is_digit
stoi-digits c cs h small =
    rw (no_space, no_minus, no_plus)
      (ap
          (λ (b : Bool).
            if b then in_range (pos (digits_value 0 (c ∷ cs))) else err invalid_argument)
          h.0
        ∙ ap (λ (b : Bool). if b then ok (pos (digits_value 0 (c ∷ cs))) else err out_of_range)
            (lt→ltb _ _ small))
  where
    no_space : is_space c ≡ false
    no_space = ground (arith, h.0)

    no_minus : (c == b'-') ≡ false
    no_minus = ground (arith, h.0)

    no_plus : (c == b'+') ≡ false
    no_plus = ground (arith, h.0)

pub stoi-decimal : (n : ℕ) → n < int_limit → stoi (decimal n) ≡ ok (pos n)
stoi-decimal n small = go (decimal-cons n)
  where
    go : (c : ℕ) × (cs : Bytes) × (decimal n ≡ c ∷ cs) → stoi (decimal n) ≡ ok (pos n)
    go (c, cs, e) =
        let value : digits_value 0 (c ∷ cs) ≡ n =
          ap (digits_value 0) (sym e) ∙ digits_value-decimal n in
        rw
          (
            e,
            stoi-digits c cs (subst AreDigits e (decimal-AreDigits n)) (omega (arith, value)),
            value,
          )
          refl

AreDigits-Absent : (c : ℕ) (xs : Bytes) → is_digit c ≡ false → AreDigits xs → Absent c xs
unfolding find_byte
AreDigits-Absent c [] h d = refl
AreDigits-Absent c (x ∷ xs) h d = ground (arith, d.0, AreDigits-Absent c xs h d.1)

-- No hyphen in a number.
pub decimal-Absent : (n : ℕ) → Absent b'-' (decimal n)
decimal-Absent n = AreDigits-Absent b'-' (decimal n) (unfold is_digit in refl) (decimal-AreDigits n)
