-- ===== src/Log/Logger/Lines.antt =====
-- logger/Logging.cc: what a statement of the log hands on.
use my_file_server.Common.{
  ℕ, ◌+◌, ◌/◌, ◌%◌, ◌≤◌, ◌<◌, ◌≡◌, refl, ap, ◌∙◌, arith, [], ◌∷◌, ◌++◌, Option, none, some, Bytes,
  length, length-append, take, take_all, take-append-drop, drop, sym, codes, c_str, decimal,
  int_limit,
}
use my_file_server.Log.Stream.{FixedBuffer, new_buffer, put_c_string, to_text, buffer_length}
use my_file_server.Log.Logger.{
  LogLevel, level_name, CalendarTime, micro_seconds_per_second, padded, minute_text, source_file,
  Logger, format_time, put_errno, Surroundings, new_impl, new_logger, finish,
}
use my_file_server.Log.Logger.Times.{IsCalendar, take-calendar_text}
use my_file_server.Log.Logger.Holding.{
  Holds, Holds-cur, append_covers, append-Holds, format_integer-Holds,
}
use my_file_server.Log.Stream.Rest.{drop_further}

abbrev pub calendar_of : Surroundings → CalendarTime
calendar_of at = at.localtime (at.now / micro_seconds_per_second)

abbrev pub with_func : Option Bytes → Bytes → Bytes
with_func none front = front
with_func (some func) front = (front ++ c_str func) ++ b' ' ∷ []

-- The line in front of the text, and the whole line.
unfoldable pub head_text : Surroundings → LogLevel → Option Bytes → Bytes
head_text at level func = with_func func (
    (minute_text (calendar_of at)
      ++ (padded b'0' 6 (at.now % micro_seconds_per_second) ++ b' ' ∷ []))
    ++ level_name level)

-- What follows the part in front: the text and `finish`.
unfoldable pub tail_text : (front basename : Bytes) (line : ℕ) (text : Bytes) → Bytes
tail_text front basename line text =
    (((((front ++ c_str text) ++ codes " - ") ++ basename) ++ b':' ∷ []) ++ decimal line)
    ++ b'\n' ∷ []

unfoldable pub line_text :
    Surroundings → LogLevel → Option Bytes → (base : Bytes) (line : ℕ) (text : Bytes) → Bytes
unfolding head_text tail_text
line_text at level func base line text = tail_text (head_text at level func) base line text

shorter : (xs ys : Bytes) {n : ℕ} → length (xs ++ ys) < n → length xs < n
shorter xs ys h = omega (arith, h, length-append xs ys)

start-Holds : (bytes : Bytes) → Holds bytes 0 (new_buffer bytes) []
start-Holds bytes = record { fixed = omega arith; sized = refl; has = refl; rest = refl }

impl-Holds :
    (at : Surroundings) (level : LogLevel) (file : Bytes) (line : ℕ)
    → IsCalendar (calendar_of at)
    → length (head_text at level none) < length at.bytes
    → Holds at.bytes 0 (new_impl at level 0 file line).stream (head_text at level none)
unfolding new_impl format_time put_errno head_text
impl-Holds at level file line cal room =
    let room_2 = shorter _ (level_name level) room in
    let room_1 = shorter (minute_text (calendar_of at)) _ room_2 in
    rw (take-calendar_text (calendar_of at) cal) (
      append-Holds (level_name level)
        (append-Holds _ (append-Holds (minute_text (calendar_of at)) (start-Holds at.bytes) room_1)
          room_2)
        room)

head-Holds :
    (at : Surroundings) (level : LogLevel) (func : Option Bytes) (file : Bytes) (line : ℕ)
    → IsCalendar (calendar_of at)
    → length (head_text at level func) < length at.bytes
    → Holds at.bytes 0 (new_logger at level func file line).stream (head_text at level func)
unfolding new_logger head_text put_c_string
head-Holds at level none file line cal room = impl-Holds at level file line cal room
head-Holds at level (some func) file line cal room =
    let room_1 = shorter _ (b' ' ∷ []) room in
    append-Holds (b' ' ∷ [])
      (append-Holds (c_str func) (impl-Holds at level file line cal (shorter _ (c_str func) room_1))
        room_1)
      room

abbrev pub ended : Logger → Bytes → FixedBuffer
ended l text = (finish (record l { stream = put_c_string l.stream (some text) })).stream

ended-Holds :
    {bytes : Bytes} (l : Logger) (front text : Bytes)
    → Holds bytes 0 l.stream front
    → l.line < int_limit
    → length (tail_text front l.basename l.line text) + 48 ≤ length bytes
    → Holds bytes 0 (ended l text) (tail_text front l.basename l.line text)
unfolding finish put_c_string tail_text c_str
ended-Holds {bytes} l front text h small room =
    let f_1 = front ++ c_str text in
    let f_2 = f_1 ++ codes " - " in
    let f_3 = f_2 ++ l.basename in
    let f_4 = f_3 ++ b':' ∷ [] in
    let f_5 = f_4 ++ decimal l.line in
    let whole : length (f_5 ++ b'\n' ∷ []) < length bytes = omega (arith, room) in
    let room_4 : length f_4 + 48 ≤ length bytes =
      omega (arith, room, length-append f_4 (decimal l.line), length-append f_5 (b'\n' ∷ [])) in
    let less_4 : length f_4 < length bytes = omega (arith, room_4) in
    let less_3 : length f_3 < length bytes = shorter f_3 _ less_4 in
    let less_2 : length f_2 < length bytes = shorter f_2 _ less_3 in
    let h_2 =
      append-Holds (codes " - ") (append-Holds (c_str text) h (shorter f_1 _ less_2)) less_2 in
    let h_4 = append-Holds (b':' ∷ []) (append-Holds l.basename h_2 less_3) less_4 in
    append_covers (format_integer-Holds h_4 l.line small refl room_4) (b'\n' ∷ []) (omega arith)
      whole

length-tail_text :
    (front basename : Bytes) (line : ℕ) (text : Bytes)
    → length front ≤ length (tail_text front basename line text)
unfolding tail_text
length-tail_text front basename line text = omega (
  arith,
  length-append ((((front ++ c_str text) ++ codes " - ") ++ basename) ++ b':' ∷ []) (decimal line),
  length-append (((front ++ c_str text) ++ codes " - ") ++ basename) (b':' ∷ []),
  length-append ((front ++ c_str text) ++ codes " - ") basename,
  length-append (front ++ c_str text) (codes " - "),
  length-append front (c_str text),
  length-append
      (((((front ++ c_str text) ++ codes " - ") ++ basename) ++ b':' ∷ []) ++ decimal line)
      (b'\n' ∷ []),
)

pub new_logger-Holds :
    (at : Surroundings) (level : LogLevel) (func : Option Bytes) (file : Bytes) (line : ℕ)
    (text : Bytes)
    → IsCalendar (calendar_of at)
    → line < int_limit
    → length (line_text at level func (source_file file) line text) + 48 ≤ length at.bytes
    → Holds at.bytes 0
        (ended (new_logger at level func file line) text)
        (line_text at level func (source_file file) line text)
      × ((new_logger at level func file line).level ≡ level)
unfolding line_text new_logger new_impl
new_logger-Holds at level none file line text cal small room =
    let less : length (head_text at level none) < length at.bytes =
      omega
        (arith, room, length-tail_text (head_text at level none) (source_file file) line text) in
    (
      ended-Holds (new_logger at level none file line) _ text
          (head-Holds at level none file line cal less) small room,
      refl,
    )
new_logger-Holds at level (some func) file line text cal small room =
    let less : length (head_text at level (some func)) < length at.bytes = omega (
      arith,
      room,
      length-tail_text (head_text at level (some func)) (source_file file) line text,
    ) in
    (
      ended-Holds (new_logger at level (some func) file line) _ text
          (head-Holds at level (some func) file line cal less) small room,
      refl,
    )

-- What is handed on is the text, and what lay in the array behind it.
pub to_text-Holds :
    {bytes : Bytes} {b : FixedBuffer} {text : Bytes}
    → Holds bytes 0 b text
    → (to_text b ≡ text ++ drop (length text) bytes) × (length (to_text b) ≡ length bytes)
unfolding to_text buffer_length
to_text-Holds {bytes} {b} {text} h =
    let all = take_all (length b.data_bytes) b.data_bytes (omega arith) in
    let front : take (length text) b.data_bytes ≡ text =
      ap (λ (n : ℕ). take n b.data_bytes) (sym (Holds-cur h)) ∙ h.has in
    let behind =
      drop_further (length text + 0) (length text) b.data_bytes bytes (omega arith) h.rest in
    (
      all
          ∙ sym (take-append-drop (length text) b.data_bytes)
          ∙ ap (◌++ drop (length text) b.data_bytes) front
          ∙ ap (◌++◌ text) behind,
      ap length all ∙ h.sized,
    )
