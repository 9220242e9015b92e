-- ===== src/Log/Logger/Statement.antt =====
-- logger/Logging.cc: what a statement of the log hands on, from the file's path on.
use my_file_server.Common.{
  ℕ, ◌+◌, ◌≤◌, ◌<◌, ◌≡◌, refl, ap, ◌∙◌, arith, inl, inr, true, false, Bool, [], ◌∷◌, ◌++◌, none,
  some, Bytes, length, int_limit, find_last_of, find_byte, Absent, drop, drop-drop,
  drop-length-append, subst, sym, ◌==◌, ==_iff, Bool-cases, ◌||◌,
}
use my_file_server.Log.Stream.{to_text}
use my_file_server.Log.Logger.{
  LogLevel, source_file, Surroundings, new_logger, Log, is_fatal, destroy, is_logged, func_of,
  log_statement,
}
use my_file_server.Log.Logger.Lines.{calendar_of, line_text, ended, new_logger-Holds, to_text-Holds}
use my_file_server.Log.Logger.Times.{IsCalendar}

-- The last slash of a path is the one in front of its last part.
Absent-tail : (c d : ℕ) (s : Bytes) → Absent c (d ∷ s) → ((d == c) ≡ false) × Absent c s
unfolding find_byte
Absent-tail c d s h = ground (arith, h)

find_last_of-none : (c : ℕ) (s : Bytes) → Absent c s → find_last_of c s ≡ none
unfolding find_last_of find_byte
find_last_of-none c [] h = refl
find_last_of-none c (d ∷ s) h =
    let (other, absent) = Absent-tail c d s h in rw (find_last_of-none c s absent, other) refl

find_last_of-append :
    (c : ℕ) (front base : Bytes)
    → Absent c base
    → find_last_of c (front ++ c ∷ base) ≡ some (length front)
unfolding find_last_of
find_last_of-append c [] base h =
    let same : (c == c) ≡ true = (==_iff c c).1 refl in rw (find_last_of-none c base h, same) refl
find_last_of-append c (d ∷ front) base h = rw (find_last_of-append c front base h) refl

source_file-append : (dir base : Bytes) → Absent b'/' base → source_file (dir ++ b'/' ∷ base) ≡ base
unfolding source_file
source_file-append dir base h =
    rw (find_last_of-append b'/' dir base h, source_file)
      (drop-drop (length dir) 1 (length dir + 1) (dir ++ b'/' ∷ base) refl
        ∙ ap (drop 1) (drop-length-append dir (b'/' ∷ base)))

-- What a statement that gives `whole` as its line does to the log, if its array was `bytes`.
abbrev pub HasLogged : Log → (bytes whole : Bytes) (ends : Bool) → Log → Type 0
HasLogged before bytes whole ends after =
    (out : Bytes) × (after.outputs ≡ before.outputs ++ out ∷ [])
    × (length out ≡ 4000)
    × (out ≡ whole ++ drop (length whole) bytes)
    × (after.aborted ≡ (ends || before.aborted))

statement_lem :
    (at : Surroundings) (level : LogLevel) (func file : Bytes) (line : ℕ) (text : Bytes) (log : Log)
    → IsCalendar (calendar_of at)
    → length at.bytes ≡ 4000
    → line < int_limit
    → length (line_text at level (func_of level func) (source_file file) line text) + 48 ≤ 4000
    → is_logged level log ≡ true
    → HasLogged log at.bytes
        (line_text at level (func_of level func) (source_file file) line text)
        (is_fatal level)
        (log_statement at level func file line text log)
unfolding log_statement destroy
statement_lem at level func file line text log cal e small room on =
    let (holds, same_level) =
      new_logger-Holds at level (func_of level func) file line text cal small
        (omega (arith, room, e)) in
    let (first, whole) = to_text-Holds holds in
    elim (Bool-cases (is_fatal level)) [
      | inl ends ↦ (
        to_text (ended (new_logger at level (func_of level func) file line) text),
        rw (on, same_level, ends) refl,
        whole ∙ e,
        first,
        rw (on, same_level, ends) refl,
      )
      | inr goes_on ↦ (
        to_text (ended (new_logger at level (func_of level func) file line) text),
        rw (on, same_level, goes_on) refl,
        whole ∙ e,
        first,
        rw (on, same_level, goes_on) refl,
      )
    ]

-- A statement of the log whose level is not held back hands on one piece of 4000 bytes. It begins with
-- the line: the date, the hour and the minute, but not the second; the microseconds, the level, the
-- function where it is named, the text, the last part of the file's path and the line number. The rest
-- is what lay in the buffer's array. The line has 48 bytes of room, the year has four digits at most, and a
-- line of level FATAL ends the program.
pub log_statement-line_text :
    (at : Surroundings) (level : LogLevel) (func dir base : Bytes) (line : ℕ) (text : Bytes)
    (log : Log)
    → IsCalendar (calendar_of at)
    → length at.bytes ≡ 4000
    → line < int_limit
    → Absent b'/' base
    → length (line_text at level (func_of level func) base line text) + 48 ≤ 4000
    → is_logged level log ≡ true
    → HasLogged log at.bytes
        (line_text at level (func_of level func) base line text)
        (is_fatal level)
        (log_statement at level func (dir ++ b'/' ∷ base) line text log)
log_statement-line_text at level func dir base line text log cal e small whole room on =
    let named = source_file-append dir base whole in
    let line_of : Bytes → Bytes = λ b. line_text at level (func_of level func) b line text in
    subst
      (λ (b : Bytes).
        HasLogged log at.bytes (line_of b) (is_fatal level)
          (log_statement at level func (dir ++ b'/' ∷ base) line text log))
      named
      (statement_lem at level func (dir ++ b'/' ∷ base) line text log cal e small
        (subst (λ (b : Bytes). length (line_of b) + 48 ≤ 4000) (sym named) room) on)
