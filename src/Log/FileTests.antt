-- ===== src/Log/FileTests.antt =====
-- logger/LogFile.cc and logger/AsyncLogging.cc at concrete inputs.
use my_file_server.Common.{
  ◌+◌, ◌≤◌, ◌≡◌, refl, ◌⊎◌, arith, false, [], ◌∷◌, ◌++◌, some, none, replicate, codes, Bytes, ok,
}
use Prim.Native.Nat.{min}
use my_file_server.Log.Stream.{FixedBuffer, avail}
use my_file_server.Log.Stream
use my_file_server.Log.File.{
  Platform, LogFile, File, new_log_file, unrolled, roll_file, read_clock, roll_at, new_file,
  closed_with,
}
use my_file_server.Log.File
use my_file_server.Log.File.Storing.{Takes}
use my_file_server.Log.File.Writing.{
  IsOpen, contents, file_size, append-contents, new_log_file-IsOpen,
}
use my_file_server.Log.Async.{Front, new_front, new_back, append, append_current, or_new}
use my_file_server.Log.Async.System.{
  System, initial_system, logs, Reach, here, later, IsOrdered, initial_system-IsOrdered,
  Reach-IsOrdered, Moves, Reach-Moves,
}

-- At most three bytes are taken at a time, and a second passes between two looks at the clock.
abbrev slow : Platform
slow = record { fwrite = λ k n. min 3 n; time = λ k. 1000 + k }

slow-Takes : Takes slow
slow-Takes = record { at_least = λ k n h. omega arith; at_most = λ k n. omega arith }

abbrev small_log : LogFile
small_log = new_log_file slow 5 0 1

append-contents_example :
    (log : LogFile) × (File.append slow (codes "hello world") small_log ≡ ok log)
    × IsOpen log
    × (contents log ≡ contents small_log ++ codes "hello world")
    × ((file_size log.file ≤ small_log.roll_size)
        ⊎ (slow.time small_log.calls.times ≤ small_log.last_roll))
append-contents_example =
    append-contents slow (codes "hello world") small_log slow-Takes
      (new_log_file-IsOpen slow 5 0 1 (omega arith)).0

abbrev eight : Bytes
eight = replicate 8 0

abbrev started : System
started = initial_system eight eight eight eight small_log

started-IsOrdered : IsOrdered slow 8 started
started-IsOrdered =
    let (opened, empty) = new_log_file-IsOpen slow 5 0 1 (omega arith) in
    initial_system-IsOrdered slow 8 eight eight eight eight small_log refl refl refl refl opened
      empty

-- The second line does not fit behind the first one and takes the spare buffer.
abbrev busy : System
busy = record {
  front = record {
    current = some (record { data_bytes = codes "cdef" ++ replicate 4 0; cur = 4 });
    spare = none;
    full = (record { data_bytes = codes "abcdef" ++ replicate 2 0; cur = 6 }) ∷ [];
  };
  back = new_back eight eight small_log;
  is_writing = false;
  lines = codes "abcdefcdef";
  taken = [];
  written = [];
}

busy-Reach : Reach slow 8 started busy
unfolding append append_current or_new new_front new_back avail Stream.append
busy-Reach =
    later (later here (logs eight (codes "abcdef") _ refl (omega arith) refl))
      (logs eight (codes "cdef") _ refl (omega arith) refl)

Reach-IsOrdered_example : IsOrdered slow 8 busy
Reach-IsOrdered_example = Reach-IsOrdered slow 8 slow-Takes started-IsOrdered busy-Reach

Reach-Moves_example :
    ((f : Front) × (append eight (codes "x") busy.front ≡ ok f)) × Moves slow 8 busy false
Reach-Moves_example =
    Reach-Moves slow 8 slow-Takes started-IsOrdered busy-Reach eight (codes "x") refl (omega arith)
