-- ===== src/Common/Strings.antt =====
-- `std::string` and C strings: what is out of range, and what is undefined. Strings are shorter than
-- 2 ^ 31 bytes, so a position that the code keeps in an `int` is the position.
use Prim.Native.Nat.{ℕ, suc, ◌+◌, ◌/◌, ◌%◌}
use mathlib.Core.Bool.{Bool, false, ◌||◌}
use mathlib.Core.List.{List, [], ◌∷◌, ◌++◌}
use Prim.Native.Char.{code}
use Prim.Native.String.{String}
use mathlib.Core.Option.{Option, none, some, map}
use my_file_server.Common.Tests.{◌==◌, leb, ltb, if◌then◌else◌}
use my_file_server.Common.Lists.{Bytes, length, get_elem?, take, drop}
use my_file_server.Common.Word.{int_limit}
use my_file_server.Common.Int.{ℤ, pos, negsuc}
use my_file_server.Common.Faults.{Result, ok, err, out_of_bounds, out_of_range, invalid_argument}
use my_file_server.Common.Text.{equal, is_digit, skip_spaces, signed}
use my_file_server.Common.Decimal.{decimal}

-- What a `const char*` to the bytes shows: those before the first 0.
unfoldable pub c_str : Bytes → Bytes
c_str [] = []
c_str (c ∷ cs) = let rest = c_str cs in if c == 0 then [] else c ∷ rest

-- `s[i]`: the byte behind the last is 0, and those behind it may not be read.
unfoldable pub char_at : Bytes → ℕ → Result ℕ
char_at s i =
    if i == length s
    then ok 0
    else elim (get_elem? s i) [ none ↦ err out_of_bounds | some c ↦ ok c ]

-- `s.substr(offset)`
unfoldable pub substr : Bytes → ℕ → Result Bytes
substr s offset = if leb offset (length s) then ok (drop offset s) else err out_of_range

unfoldable pub starts_with : Bytes → Bytes → Bool
starts_with pattern s = equal (take (length pattern) s) pattern

-- `s.find(pattern)`, with `none` for npos.
unfoldable pub find_text : Bytes → Bytes → Option ℕ
unfolding starts_with
find_text pattern [] = if starts_with pattern [] then some 0 else none
find_text pattern (c ∷ cs) =
    let later = find_text pattern cs in
    if starts_with pattern (c ∷ cs) then some 0 else map suc later

-- `s.find_last_of(c)`
unfoldable pub find_last_of : ℕ → Bytes → Option ℕ
find_last_of c [] = none
find_last_of c (d ∷ s) = elim (find_last_of c s) [
  | some i ↦ some (suc i)
  | none ↦ if d == c then some 0 else none
]

-- `s.substr(0, n)`, where npos takes all.
unfoldable pub before : Option ℕ → Bytes → Bytes
before none s = s
before (some n) s = take n s

unfoldable pub has_digit : Bytes → Bool
unfolding is_digit
has_digit [] = false
has_digit (c ∷ cs) = is_digit c

unfoldable pub without_sign : Bytes → Bytes
without_sign [] = []
without_sign (c ∷ cs) = if c == b'-' || c == b'+' then cs else c ∷ cs

abbrev pub in_range : ℤ → Result ℤ
in_range (pos n) = if ltb n int_limit then ok (pos n) else err out_of_range
in_range (negsuc n) = if ltb n int_limit then ok (negsuc n) else err out_of_range

-- `std::stoi`
unfoldable pub stoi : Bytes → Result ℤ
unfolding has_digit without_sign
stoi s =
    let text = skip_spaces s in
    if has_digit (without_sign text) then in_range (signed text) else err invalid_argument

-- `std::to_string`
unfoldable pub to_string : ℤ → Bytes
to_string (pos n) = decimal n
to_string (negsuc n) = b'-' ∷ decimal (suc n)

-- The bytes of a character in UTF-8.
utf8_char : ℕ → Bytes
utf8_char c =
    if ltb c 128
    then c ∷ []
    else if ltb c 2048
    then (192 + c / 64) ∷ (128 + c % 64) ∷ []
    else if ltb c 65536
    then (224 + c / 4096) ∷ (128 + c / 64 % 64) ∷ (128 + c % 64) ∷ []
    else (240 + c / 262144) ∷ (128 + c / 4096 % 64) ∷ (128 + c / 64 % 64) ∷ (128 + c % 64) ∷ []

pub utf8 : String → Bytes
utf8 String.[] = []
utf8 (String.◌∷◌ c s) = utf8_char (code c) ++ utf8 s

-- Lines with a newline between them.
pub joined_lines : List String → Bytes
joined_lines [] = []
joined_lines (l ∷ []) = utf8 l
joined_lines (l ∷ m ∷ ls) = utf8 l ++ b'\n' ∷ joined_lines (m ∷ ls)
