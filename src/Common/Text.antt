-- ===== src/Common/Text.antt =====
-- Byte strings: literals, comparison, `std::find`, and what <cctype> and `atoi` read.
use Prim.Native.Nat.{ℕ, ◌+◌, ◌-◌, ◌*◌}
use Prim.Native.Char.{code}
use Prim.Native.String.{String}
use mathlib.Core.Bool.{Bool, true, false, ◌&&◌, ◌||◌}
use mathlib.Core.List.{[], ◌∷◌, ◌++◌}
use mathlib.Core.Logic.{◌↔◌}
use mathlib.Core.Path.{◌≡◌, refl, ap, ◌∙◌}
use native.Mathlib.Omega.{arith}
use my_file_server.Common.Tests.{leb, ◌==◌, ==_iff, if◌then◌else◌}
use my_file_server.Common.Lists.{
  Bytes, length, take, drop, length-append, take-length-append, drop-length-append, drop-drop,
}
use my_file_server.Common.Int.{ℤ, pos, ◌-ℤ◌, to_int}
use my_file_server.Common.Faults.{Result}

-- The bytes of a text in ASCII.
abbrev pub codes : String → Bytes
codes String.[] = []
codes (String.◌∷◌ c s) = code c ∷ codes s

-- `==` of two strings.
unfoldable pub equal : Bytes → Bytes → Bool
equal (x ∷ xs) (y ∷ ys) = equal xs ys && x == y
equal [] [] = true
equal _ _ = false

pub equal_iff : (s t : Bytes) → (equal s t ≡ true) ↔ (s ≡ t)
unfolding equal
equal_iff [] [] = ground arith
equal_iff (x ∷ s) (y ∷ t) = ground (arith, equal_iff s t)
equal_iff _ _ = ground arith

pub equal_refl : (a : Bytes) → equal a a ≡ true
equal_refl a = (equal_iff a a).1 refl

-- `std::find`: the offset of the first c, or the length.
unfoldable pub find_byte : ℕ → Bytes → ℕ
find_byte c [] = 0
find_byte c (x ∷ xs) = let later = find_byte c xs in if x == c then 0 else later + 1

-- `isspace` in the C locale.
unfoldable pub is_space : ℕ → Bool
is_space c = c == 32 || (leb 9 c && leb c 13)

unfoldable pub is_digit : ℕ → Bool
is_digit c = leb b'0' c && leb c b'9'

unfoldable pub skip_spaces : Bytes → Bytes
unfolding is_space
skip_spaces [] = []
skip_spaces (c ∷ cs) = let rest = skip_spaces cs in if is_space c then rest else c ∷ cs

-- The value of the leading digits.
unfoldable pub digits_value : ℕ → Bytes → ℕ
unfolding is_digit
digits_value acc [] = acc
digits_value acc (c ∷ cs) =
    let rest = digits_value (acc * 10 + (c - b'0')) cs in if is_digit c then rest else acc

unfoldable pub signed : Bytes → ℤ
unfolding digits_value
signed [] = pos 0
signed (c ∷ cs) =
    if c == b'-'
    then pos 0 -ℤ pos (digits_value 0 cs)
    else if c == b'+'
    then pos (digits_value 0 cs)
    else pos (digits_value 0 (c ∷ cs))

-- `atoi`: an overflow is undefined.
unfoldable pub atoi : Bytes → Result ℤ
unfolding skip_spaces signed
atoi text = to_int (signed (skip_spaces text))

-- A byte that does not occur is not found before what follows.
pub find_byte-append :
    (c : ℕ) (xs ys : Bytes) → find_byte c xs ≡ length xs → find_byte c (xs ++ c ∷ ys) ≡ length xs
unfolding find_byte
find_byte-append c [] ys h = ground arith
find_byte-append c (x ∷ xs) ys h = ground (arith, find_byte-append c xs ys)

abbrev pub Absent : ℕ → Bytes → Type 0
Absent c xs = find_byte c xs ≡ length xs

pub Absent-append : (c : ℕ) (xs ys : Bytes) → Absent c xs → Absent c ys → Absent c (xs ++ ys)
unfolding find_byte
Absent-append c [] ys h k = k
Absent-append c (x ∷ xs) ys h k = ground (arith, Absent-append c xs ys)

-- Where `std::find` cuts a text at the first c.
pub record Cut (c : ℕ) (text xs ys : Bytes) : Type 0 where
  pub found : (find_byte c text == length text) ≡ false
  pub front : take (find_byte c text) text ≡ xs
  pub back : drop (find_byte c text + 1) text ≡ ys

pub cut_lem : (c : ℕ) (xs ys : Bytes) → Absent c xs → Cut c (xs ++ c ∷ ys) xs ys
cut_lem c xs ys h =
    let e = find_byte-append c xs ys h in
    record {
      found = rw e (ground (arith, length-append xs (c ∷ ys)));
      front = rw e (take-length-append xs (c ∷ ys));
      back = rw e (
          drop-drop (length xs) 1 (length xs + 1) (xs ++ c ∷ ys) refl
          ∙ ap (drop 1) (drop-length-append xs (c ∷ ys)));
    }

pub Absent-found : (c : ℕ) (xs : Bytes) → Absent c xs → (find_byte c xs == length xs) ≡ true
Absent-found c xs h = (==_iff _ _).1 h
