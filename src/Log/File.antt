-- ===== src/Log/File.antt =====
-- logger/FileUtil.cc and logger/LogFile.cc with their headers. The values that `fwrite_unlocked` and
-- `time` return at their calls, in order, are arguments; names of files are left out, since a file is
-- opened for every roll and the one before is closed. A FILE is the bytes that were given to it.
pub mod Storing
pub mod Writing
use my_file_server.Common.{
  ℕ, zero, suc, ◌+◌, ◌*◌, ◌-◌, ◌/◌, Bool, true, false, not, ◌==◌, ltb, leb, if◌then◌else◌, List, [],
  ◌∷◌, ◌++◌, Option, none, some, Bytes, length, take, drop, Result, ok, err, ◌>>=◌, no_fuel,
  null_pointer,
}

pub record File : Type 0 where
  pub bytes : Bytes
  pub written_bytes : ℕ
  pub flushes : ℕ

unfoldable pub new_file : File
new_file = record { bytes = []; written_bytes = 0; flushes = 0 }

-- What the system answers: how many of `n` bytes the k-th call of `fwrite_unlocked` takes, and the
-- time that the k-th call of `time` tells.
pub record Platform : Type 0 where
  pub fwrite : (k n : ℕ) → ℕ
  pub time : (k : ℕ) → ℕ

-- How often each was called.
pub record Calls : Type 0 where
  pub fwrites : ℕ
  pub times : ℕ

module _ (p : Platform) where
  -- The loop of `FileUtil::append` over what is left of the data: the file, the number of bytes
  -- written, and the calls.
  pub append_loop : (fuel : ℕ) → Bytes → File → (written : ℕ) → Calls → Result (File × ℕ × Calls)
  append_loop fuel [] file written c = ok (file, written, c)
  append_loop zero (b ∷ bs) file written c = err no_fuel
  append_loop (suc fuel) (b ∷ bs) file written c =
      let n = p.fwrite c.fwrites (length (b ∷ bs)) in
      append_loop fuel (drop n (b ∷ bs)) (record file { bytes = file.bytes ++ take n (b ∷ bs) })
        (written + n) (record c { fwrites = c.fwrites + 1 })

  -- `FileUtil::append`
  pub append_file : Bytes → File → Calls → Result (File × Calls)
  append_file text file c = append_loop (length text) text file 0 c >>= λ (r : File × ℕ × Calls).
      ok (record r.0 { written_bytes = r.0.written_bytes + r.1 }, r.2)

pub flush_file : File → File
flush_file file = record file { flushes = file.flushes + 1 }

pub record LogFile : Type 0 where
  pub roll_size : ℕ
  pub flush_interval : ℕ
  pub check_every_n : ℕ
  pub count : ℕ
  pub start_of_period : ℕ
  pub last_roll : ℕ
  pub last_flush : ℕ
  pub file : Option File
  -- the files that were closed, in order, and the calls of the system
  pub closed : List File
  pub calls : Calls

unfoldable pub roll_per_seconds : ℕ
roll_per_seconds = 60 * 60 * 24

-- The start of the period of a time.
unfoldable pub period_of : ℕ → ℕ
period_of now = (now / roll_per_seconds) * roll_per_seconds

unfoldable pub closed_with : Option File → List File → List File
closed_with none closed = closed
closed_with (some file) closed = closed ++ file ∷ []

-- `time(NULL)`
unfoldable pub read_clock : Platform → LogFile → ℕ × LogFile
read_clock p log = (
  p.time log.calls.times,
  record log { calls = record log.calls { times = log.calls.times + 1 } },
)

-- `rollFile` at the time that it reads.
unfoldable pub roll_at : ℕ → LogFile → LogFile
roll_at now log =
    if ltb log.last_roll now
    then record log {
      last_roll = now;
      last_flush = now;
      start_of_period = period_of now;
      file = some new_file;
      closed = closed_with log.file log.closed;
    }
    else log

unfoldable pub roll_file : Platform → LogFile → LogFile
roll_file p log = let (now, timed) = read_clock p log in roll_at now timed

-- The constructor; in the first line the members as they are set before `rollFile`.
unfoldable pub unrolled : (roll_size flush_interval check_every_n : ℕ) → LogFile
unrolled roll_size flush_interval check_every_n = record {
  roll_size = roll_size;
  flush_interval = flush_interval;
  check_every_n = check_every_n;
  count = 0;
  start_of_period = 0;
  last_roll = 0;
  last_flush = 0;
  file = none;
  closed = [];
  calls = record { fwrites = 0; times = 0 };
}

unfoldable pub new_log_file : Platform → (roll_size flush_interval check_every_n : ℕ) → LogFile
new_log_file p roll_size flush_interval check_every_n =
    roll_file p (unrolled roll_size flush_interval check_every_n)

pub flush_open : LogFile → Option File → Result LogFile
flush_open log none = err null_pointer
flush_open log (some file) = ok (record log { file = some (flush_file file) })

pub flush : LogFile → Result LogFile
flush log = flush_open log log.file

-- The check of every `checkEveryN_`-th call, at the time that it reads.
pub check_at : Platform → ℕ → LogFile → Result LogFile
check_at p now log =
    if not (period_of now == log.start_of_period)
    then ok (roll_file p log)
    else if ltb log.flush_interval (now - log.last_flush)
    then flush (record log { last_flush = now })
    else ok log

pub check : Platform → LogFile → Result LogFile
check p log =
    if leb log.check_every_n (log.count + 1)
    then (let (now, timed) = read_clock p (record log { count = 0 }) in check_at p now timed)
    else ok (record log { count = log.count + 1 })

-- `appendInLock`
pub append_written : Platform → LogFile → File × Calls → Result LogFile
append_written p log (file, calls) =
    let stored : LogFile = record log { file = some file; calls = calls } in
    if ltb log.roll_size file.written_bytes then ok (roll_file p stored) else check p stored

pub append_open : Platform → Bytes → LogFile → Option File → Result LogFile
append_open p text log none = err null_pointer
append_open p text log (some file) = append_file p text file log.calls >>= append_written p log

pub append : Platform → Bytes → LogFile → Result LogFile
append p text log = append_open p text log log.file
