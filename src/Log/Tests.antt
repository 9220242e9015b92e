-- ===== src/Log/Tests.antt =====
-- logger/FixedBuffer.h and logger/LogStream.cc at concrete inputs.
use my_file_server.Common.{
  ◌≡◌, refl, arith, ◌++◌, length, leb, if◌then◌else◌, replicate, codes, negsuc, decimal, to_string,
}
use my_file_server.Log.Stream.{
  FixedBuffer, append, avail, format_integer, max_numeric_size, digit_loop, reversed, digit_of,
  remainder, quotient,
}
use my_file_server.Log.Stream.Text.{IsFixed, logged, format_integer-logged}

abbrev small_buffer : FixedBuffer
small_buffer = record { data_bytes = codes "ab" ++ replicate 60 0; cur = 2 }

appended : logged (append small_buffer (codes "cd")) ≡ codes "abcd"
unfolding append avail
appended = refl

printed : logged (format_integer small_buffer (negsuc 41)) ≡ codes "ab-42"
unfolding format_integer avail digit_loop reversed digit_of remainder quotient
printed = refl

format_integer-logged_example :
    IsFixed (format_integer small_buffer (negsuc 41))
    × (length (format_integer small_buffer (negsuc 41)).data_bytes ≡ 62)
    × (logged (format_integer small_buffer (negsuc 41)) ≡ (
        if leb max_numeric_size (avail small_buffer)
        then logged small_buffer ++ to_string (negsuc 41)
        else logged small_buffer))
unfolding to_string decimal
format_integer-logged_example =
    format_integer-logged small_buffer (negsuc 41) (omega arith) (omega arith)
