-- ===== src/Log/Logger.antt =====
-- logger/Logging.h, logger/Logging.cc and base/Timestamp.cc: a line of the log. A time is its number
-- of microseconds since the epoch, not negative; `localtime`, strerror_r and the bytes that the
-- stream's buffer lies on are arguments. `g_output` and `g_flush` are the list of what they were given.
pub mod Holding
pub mod Times
pub mod Lines
pub mod Statement
use my_file_server.Common.{
  ℕ, suc, ◌+◌, ◌-◌, ◌/◌, ◌%◌, ◌==◌, leb, if◌then◌else◌, Bool, true, false, List, [], ◌∷◌, ◌++◌,
  Option, none, some, Bytes, length, take, drop, replicate, codes, decimal, find_last_of, pos,
}
use my_file_server.Log.Stream.{
  FixedBuffer, new_buffer, append, put_c_string, put_char, format_integer, to_text,
}

pub data LogLevel : Type 0 where
  trace debug info warn error fatal : LogLevel

-- The value of the enumeration.
abbrev pub number_of : LogLevel → ℕ
number_of trace = 0
number_of debug = 1
number_of info = 2
number_of warn = 3
number_of error = 4
number_of fatal = 5

abbrev pub level_name : LogLevel → Bytes
level_name trace = codes "TRACE "
level_name debug = codes "DEBUG "
level_name info = codes "INFO  "
level_name warn = codes "WARN  "
level_name error = codes "ERROR "
level_name fatal = codes "FATAL "

-- `struct tm`: years since 1900, and months from 0
pub record CalendarTime : Type 0 where
  pub tm_year : ℕ
  pub tm_mon : ℕ
  pub tm_mday : ℕ
  pub tm_hour : ℕ
  pub tm_min : ℕ
  pub tm_sec : ℕ

abbrev pub micro_seconds_per_second : ℕ
micro_seconds_per_second = 1000000

-- `%4d` and `%02d`: at least so wide, with the byte given in front
unfoldable pub padded : (fill width n : ℕ) → Bytes
padded fill width n = replicate (width - length (decimal n)) fill ++ decimal n

-- `%4d/%02d/%02d %02d:%02d:`
unfoldable pub minute_text : CalendarTime → Bytes
unfolding padded
minute_text tm =
    padded b' ' 4 (tm.tm_year + 1900)
    ++ b'/'
      ∷ (padded b'0' 2 (tm.tm_mon + 1)
          ++ b'/'
            ∷ (padded b'0' 2 tm.tm_mday
                ++ b' '
                  ∷ (padded b'0' 2 tm.tm_hour ++ b':' ∷ (padded b'0' 2 tm.tm_min ++ b':' ∷ []))))

-- `%4d/%02d/%02d %02d:%02d:%02d`
unfoldable pub calendar_text : CalendarTime → Bytes
unfolding minute_text
calendar_text tm = minute_text tm ++ padded b'0' 2 tm.tm_sec

-- `Timestamp::toFormattedString`, whose buffer has 64 bytes
unfoldable pub to_formatted_string :
    (localtime : ℕ → CalendarTime) (show_microseconds : Bool) (micro_seconds : ℕ) → Bytes
unfolding calendar_text
to_formatted_string localtime show_microseconds micro_seconds =
    let text = calendar_text (localtime (micro_seconds / micro_seconds_per_second)) in
    if show_microseconds
    then take 63 (text ++ b'.' ∷ padded b'0' 6 (micro_seconds % micro_seconds_per_second))
    else take 63 text

-- `SourceFile`: the name behind the last slash
unfoldable pub source_file : Bytes → Bytes
source_file filename = elim (find_last_of b'/' filename) [
  | none ↦ filename
  | some slash ↦ drop (slash + 1) filename
]

-- `Logger::Impl`
pub record Logger : Type 0 where
  pub stream : FixedBuffer
  pub level : LogLevel
  pub line : ℕ
  pub basename : Bytes

-- `formatTime`: 17 bytes of `t_time`, whose text has 19 at least
unfoldable pub format_time : (localtime : ℕ → CalendarTime) (now : ℕ) → FixedBuffer → FixedBuffer
unfolding calendar_text
format_time localtime now stream =
    append (append stream (take 17 (calendar_text (localtime (now / micro_seconds_per_second)))))
      (padded b'0' 6 (now % micro_seconds_per_second) ++ b' ' ∷ [])

-- `savedErrno != 0`
unfoldable pub put_errno : (strerror : ℕ → Bytes) (saved_errno : ℕ) → FixedBuffer → FixedBuffer
put_errno strerror saved_errno stream =
    if saved_errno == 0
    then stream
    else put_c_string
        (format_integer
          (put_c_string (put_c_string stream (some (strerror saved_errno)))
            (some (codes " (errno=")))
          (pos saved_errno))
        (some (codes ") "))

-- What `localtime` and `strerror_r` answer, the time, and the bytes under the stream's buffer.
pub record Surroundings : Type 0 where
  pub localtime : ℕ → CalendarTime
  pub strerror : ℕ → Bytes
  pub now : ℕ
  pub bytes : Bytes

-- `Logger::Impl::Impl`
unfoldable pub new_impl :
    Surroundings → LogLevel → (saved_errno : ℕ) (file : Bytes) (line : ℕ) → Logger
unfolding format_time put_errno source_file
new_impl at level saved_errno file line = record {
  stream =
      put_errno at.strerror saved_errno
        (append (format_time at.localtime at.now (new_buffer at.bytes)) (level_name level));
  level = level;
  line = line;
  basename = source_file file;
}

-- The constructors of `Logger`: with a level, and with a function's name as well.
unfoldable pub new_logger :
    Surroundings → LogLevel → Option Bytes → (file : Bytes) (line : ℕ) → Logger
unfolding new_impl
new_logger at level none file line = new_impl at level 0 file line
new_logger at level (some func) file line =
    let impl : Logger = new_impl at level 0 file line in
    record impl { stream = put_char (put_c_string impl.stream (some func)) b' ' }

-- `finish`
unfoldable pub finish : Logger → Logger
finish l = record l {
  stream =
      put_char
        (format_integer
          (put_char (append (put_c_string l.stream (some (codes " - "))) l.basename) b':')
          (pos l.line))
        b'\n';
}

-- `g_logLevel`, what `g_output` was given, how often `g_flush` was called, and whether `abort` was.
pub record Log : Type 0 where
  pub log_level : LogLevel
  pub outputs : List Bytes
  pub flushes : ℕ
  pub aborted : Bool

unfoldable pub is_fatal : LogLevel → Bool
is_fatal fatal = true
is_fatal _ = false

-- `Logger::~Logger`
unfoldable pub destroy : Logger → Log → Log
unfolding finish is_fatal
destroy l log =
    let written : Log = record log { outputs = log.outputs ++ to_text (finish l).stream ∷ [] } in
    if is_fatal l.level
    then record written { flushes = written.flushes + 1; aborted = true }
    else written

-- `setLogLevel`
unfoldable pub set_log_level : LogLevel → Log → Log
set_log_level level log = record log { log_level = level }

-- Whether the macro of that level, LOG_DEBUG and its kin, makes a logger.
unfoldable pub is_logged : LogLevel → Log → Bool
is_logged debug log = leb (number_of log.log_level) 1
is_logged info log = leb (number_of log.log_level) 2
is_logged _ log = true

-- A statement `LOG_... << text`; LOG_DEBUG alone gives the function's name.
unfoldable pub func_of : LogLevel → (func : Bytes) → Option Bytes
func_of debug func = some func
func_of _ func = none

unfoldable pub log_statement :
    Surroundings → LogLevel → (func file : Bytes) (line : ℕ) (text : Bytes) → Log → Log
unfolding new_logger destroy is_logged func_of
log_statement at level func file line text log =
    let l : Logger = new_logger at level (func_of level func) file line in
    if is_logged level log
    then destroy (record l { stream = put_c_string l.stream (some text) }) log
    else log
