-- ===== src/Log/Stream.antt =====
-- logger/FixedBuffer.h, and logger/LogStream.h and logger/LogStream.cc but for floating point. A
-- `FixedBuffer<SIZE>` knows its SIZE as the length of its array; `cur_` is an offset.
pub mod Text
pub mod Rest
use my_file_server.Common.{
  ℕ, zero, suc, ◌+◌, ◌-◌, ◌/◌, ◌%◌, ◌==◌, ltb, leb, if◌then◌else◌, Bool, true, false, List, [], ◌∷◌,
  ◌++◌, Option, none, some, Bytes, length, take, get_elem?, codes, overwrite, c_str, ℤ, pos, negsuc,
}

pub record FixedBuffer : Type 0 where
  pub data_bytes : Bytes
  pub cur : ℕ

-- The array is not initialised: its bytes are an argument.
abbrev pub new_buffer : Bytes → FixedBuffer
new_buffer bytes = record { data_bytes = bytes; cur = 0 }

-- At most 4000000, which an `int` holds.
unfoldable pub avail : FixedBuffer → ℕ
avail b = length b.data_bytes - b.cur

-- `end() - data_`
unfoldable pub buffer_length : FixedBuffer → ℕ
buffer_length b = length b.data_bytes

-- A text that does not fit is dropped.
unfoldable pub append : FixedBuffer → Bytes → FixedBuffer
unfolding avail
append b text =
    if ltb (length text) (avail b)
    then record { data_bytes = overwrite b.data_bytes b.cur text; cur = b.cur + length text }
    else b

abbrev pub reset : FixedBuffer → FixedBuffer
reset b = record b { cur = 0 }

-- `toString` takes `length()` bytes.
unfoldable pub to_text : FixedBuffer → Bytes
unfolding buffer_length
to_text b = take (buffer_length b) b.data_bytes

abbrev pub max_numeric_size : ℕ
max_numeric_size = 48

abbrev digits : Bytes
digits = codes "9876543210123456789"

-- -n
abbrev pub negated : ℕ → ℤ
negated zero = pos 0
negated (suc n) = negsuc n

-- `num % 10` and `num / 10`, which round to 0.
unfoldable pub remainder : ℤ → ℤ
remainder (pos n) = pos (n % 10)
remainder (negsuc n) = negated (suc n % 10)

unfoldable pub quotient : ℤ → ℤ
quotient (pos n) = pos (n / 10)
quotient (negsuc n) = negated (suc n / 10)

-- `zero[remainder]`, where `zero` is `digits + 9`. A remainder is never outside of the table.
abbrev found : Option ℕ → ℕ
found none = 0
found (some c) = c

unfoldable pub digit_of : ℤ → ℕ
digit_of (pos r) = found (get_elem? digits (9 + r))
digit_of (negsuc r) = found (get_elem? digits (9 - suc r))

abbrev pub is_zero : ℤ → Bool
is_zero (pos n) = n == 0
is_zero (negsuc n) = false

abbrev pub is_negative : ℤ → Bool
is_negative (pos n) = false
is_negative (negsuc n) = true

-- The bytes that the do-while loop writes, the last digit first.
unfoldable pub digit_loop : ℕ → ℤ → Bytes
unfolding remainder quotient digit_of
digit_loop zero num = []
digit_loop (suc fuel) num =
    let rest = digit_loop fuel (quotient num) in
    digit_of (remainder num) ∷ (if is_zero (quotient num) then [] else rest)

-- As many rounds as the number has units are enough.
abbrev pub rounds_of : ℤ → ℕ
rounds_of (pos n) = suc n
rounds_of (negsuc n) = suc (suc n)

-- `std::reverse`
unfoldable pub reversed : Bytes → Bytes
reversed [] = []
reversed (c ∷ cs) = reversed cs ++ c ∷ []

-- `formatInteger`; the 0 behind the text is written but not counted.
unfoldable pub format_integer : FixedBuffer → ℤ → FixedBuffer
unfolding avail digit_loop reversed
format_integer b num =
    if leb max_numeric_size (avail b)
    then (let written =
          digit_loop (rounds_of num) num ++ (if is_negative num then codes "-" else []) in
        record {
          data_bytes = overwrite b.data_bytes b.cur (reversed written ++ 0 ∷ []);
          cur = b.cur + length written;
        })
    else b

-- `operator<<` for the texts.
unfoldable pub put_c_string : FixedBuffer → Option Bytes → FixedBuffer
unfolding append
put_c_string b none = append b (codes "(null)")
put_c_string b (some str) = append b (c_str str)

abbrev pub put_char : FixedBuffer → ℕ → FixedBuffer
put_char b c = append b (c ∷ [])

abbrev pub put_buffer : FixedBuffer → FixedBuffer → FixedBuffer
put_buffer b other = append b (to_text other)
