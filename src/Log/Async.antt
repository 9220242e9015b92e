-- ===== src/Log/Async.antt =====
-- logger/AsyncLogging.cc: the buffers that the threads of the program fill, and the thread that
-- writes them to the log's files. A `unique_ptr` is an option; that a null pointer is put into a
-- list of buffers is the fault that its use would be. The bytes of a buffer that is newly allocated
-- are not initialised and an argument. Waiting is left out: a round may start at any time.
pub mod Buffers
pub mod Rounds
pub mod System
use my_file_server.Common.{
  ℕ, zero, suc, ◌+◌, Bool, true, false, ltb, if◌then◌else◌, List, [], ◌∷◌, ◌++◌, Option, none, some,
  Bytes, length, take, Result, ok, err, ◌>>=◌, null_pointer, out_of_bounds,
}
use my_file_server.Log.Stream.{FixedBuffer, new_buffer, avail, reset, to_text}
use my_file_server.Log.Stream
use my_file_server.Log.File.{Platform, LogFile, flush}
use my_file_server.Log.File

-- What the lock guards: `currentBuffer_`, `nextBuffer_` and `buffers_`.
pub record Front : Type 0 where
  pub current : Option FixedBuffer
  pub spare : Option FixedBuffer
  pub full : List FixedBuffer

-- The variables of `threadFunc`: `newBuffer1`, `newBuffer2`, `buffersToWrite` and `output`.
pub record Back : Type 0 where
  pub first : Option FixedBuffer
  pub second : Option FixedBuffer
  pub to_write : List FixedBuffer
  pub output : LogFile

-- The constructor.
unfoldable pub new_front : (first_bytes second_bytes : Bytes) → Front
new_front first_bytes second_bytes = record {
  current = some (new_buffer first_bytes);
  spare = some (new_buffer second_bytes);
  full = [];
}

-- The locals of `threadFunc` before its loop.
unfoldable pub new_back : (first_bytes second_bytes : Bytes) → LogFile → Back
new_back first_bytes second_bytes output = record {
  first = some (new_buffer first_bytes);
  second = some (new_buffer second_bytes);
  to_write = [];
  output = output;
}

unfoldable pub or_new : Bytes → Option FixedBuffer → FixedBuffer
or_new bytes none = new_buffer bytes
or_new bytes (some buffer) = buffer

unfoldable pub append_current : (bytes line : Bytes) → Front → Option FixedBuffer → Result Front
append_current bytes line front none = err null_pointer
append_current bytes line front (some buffer) =
    if ltb (length line) (avail buffer)
    then ok (record front { current = some (Stream.append buffer line) })
    else ok (record {
      current = some (Stream.append (or_new bytes front.spare) line);
      spare = none;
      full = front.full ++ buffer ∷ [];
    })

-- `append`; `bytes` are those of a buffer that it may allocate.
unfoldable pub append : (bytes line : Bytes) → Front → Result Front
append bytes line front = append_current bytes line front front.current

-- `if (!nextBuffer_) nextBuffer_ = std::move(newBuffer2)`: `nextBuffer_` and `newBuffer2`
unfoldable pub refill :
    (spare second : Option FixedBuffer) → Option FixedBuffer × Option FixedBuffer
refill none second = (second, none)
refill (some buffer) second = (some buffer, second)

unfoldable pub collect_current : Front → Back → Option FixedBuffer → Result (Front × Back)
collect_current front back none = err null_pointer
collect_current front back (some buffer) =
    let (spare, second) = refill front.spare back.second in
    ok (
      record { current = back.first; spare = spare; full = back.to_write },
      record back { first = none; second = second; to_write = front.full ++ buffer ∷ [] },
    )

-- What `threadFunc` does under the lock.
unfoldable pub collect : Front → Back → Result (Front × Back)
collect front back = collect_current front back front.current

-- The loop that writes: of each buffer `length()` bytes from `data()`.
pub write_all : Platform → List FixedBuffer → LogFile → Result LogFile
write_all p [] output = ok output
write_all p (buffer ∷ buffers) output =
    File.append p (to_text buffer) output >>= write_all p buffers

pub keep_two : List FixedBuffer → List FixedBuffer
keep_two buffers = if ltb 2 (length buffers) then take 2 buffers else buffers

-- `back()` and `pop_back()`: the last buffer and those before it
pub split_last : FixedBuffer → List FixedBuffer → List FixedBuffer × FixedBuffer
split_last b [] = ([], b)
split_last b (c ∷ cs) = let (before, last) = split_last c cs in (b ∷ before, last)

-- Taking a buffer back where there is none: the buffers left, and the one taken.
pub give_back :
    Option FixedBuffer → List FixedBuffer → Result (List FixedBuffer × Option FixedBuffer)
give_back (some buffer) buffers = ok (buffers, some buffer)
give_back none [] = err out_of_bounds
give_back none (b ∷ bs) = let (before, last) = split_last b bs in ok (before, some (reset last))

-- The rest of a turn of `threadFunc`, without the lock.
pub finish : Platform → Back → Result Back
finish p back = write_all p back.to_write back.output >>= λ output.
    give_back back.first (keep_two back.to_write) >>= λ first.
    give_back back.second first.0 >>= λ second. flush output >>= λ flushed.
    ok (record { first = first.1; second = second.1; to_write = []; output = flushed })
