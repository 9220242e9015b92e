-- ===== src/Log/LoggerTests.antt =====
-- logger/Logging.cc at concrete inputs.
use my_file_server.Common.{
  Absent, find_byte, ℕ, ◌+◌, ◌≡◌, refl, arith, true, false, [], ◌∷◌, ◌++◌, none, length,
  length-replicate, replicate, codes, decimal, decimal_fuel, find_last_of, c_str, ◌≤◌, ap,
}
use my_file_server.Log.Logger.{
  info, CalendarTime, padded, minute_text, source_file, Surroundings, Log, is_logged, func_of,
  log_statement, to_formatted_string, calendar_text, is_fatal,
}
use my_file_server.Log.Logger.Times.{IsCalendar}
use my_file_server.Log.Logger.Lines.{head_text, tail_text, line_text}
use my_file_server.Log.Logger.Statement.{HasLogged, log_statement-line_text}

-- 2022/10/26 16:29:10
abbrev october : CalendarTime
october = record { tm_year = 122; tm_mon = 9; tm_mday = 26; tm_hour = 16; tm_min = 29; tm_sec = 10 }

october-IsCalendar : IsCalendar october
october-IsCalendar = record {
  year = omega arith;
  month = omega arith;
  day = omega arith;
  hour = omega arith;
  minute = omega arith;
}

abbrev zeros : Surroundings
zeros = record {
  localtime = λ s. october;
  strerror = λ n. [];
  now = 1666772950000042;
  bytes = replicate 4000 0;
}

abbrev quiet : Log
quiet = record { log_level = info; outputs = []; flushes = 0; aborted = false }

-- The second is missing.
the_line :
    line_text zeros info none (codes "Buffer.cc") 7 (codes "grown")
    ≡ codes "2022/10/26 16:29:000042 INFO  grown - Buffer.cc:7" ++ b'\n' ∷ []
unfolding line_text head_text tail_text minute_text padded decimal decimal_fuel source_file
    find_last_of c_str
the_line = refl

october_text :
    to_formatted_string (λ s. october) true 1666772950000042 ≡ codes "2022/10/26 16:29:10.000042"
unfolding to_formatted_string calendar_text minute_text padded decimal decimal_fuel
october_text = refl

no_slash : Absent b'/' (codes "Buffer.cc")
unfolding find_byte
no_slash = refl

info_on : is_logged info quiet ≡ true
unfolding is_logged
info_on = refl

the_room :
    length
        (line_text zeros info (func_of info (codes "append")) (codes "Buffer.cc") 7 (codes "grown"))
      + 48
    ≤ 4000
unfolding func_of
the_room = omega (arith, ap length the_line)

log_statement-line_text_example :
    HasLogged quiet zeros.bytes
      (line_text zeros info (func_of info (codes "append")) (codes "Buffer.cc") 7 (codes "grown"))
      (is_fatal info)
      (log_statement zeros info
        (codes "append")
        (codes "/src/net" ++ b'/' ∷ codes "Buffer.cc")
        7
        (codes "grown")
        quiet)
log_statement-line_text_example =
    log_statement-line_text zeros info (codes "append") (codes "/src/net") (codes "Buffer.cc") 7
      (codes "grown") quiet october-IsCalendar (length-replicate {A = ℕ} 4000 0) (omega arith)
      no_slash the_room info_on
