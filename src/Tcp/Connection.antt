-- ===== src/Tcp/Connection.antt =====
-- net/TcpConnection.h and net/TcpConnection.cc. The system's `write`, `sendfile` and `readv` and the
-- user's message callback are arguments; what a connection makes happen outside of it is the list
-- of its events, in order. Log lines, the socket and the owner of the channel are left out.
pub mod Handlers
pub mod Stream
pub mod Writing
pub mod Closing
pub mod Shutdown
pub mod File
pub mod Input
use my_file_server.Common.{
  ℕ, ◌*◌, Bool, true, false, not, ◌&&◌, ◌||◌, List, [], ◌∷◌, ◌++◌, Bytes, length, take, ltb, leb,
  ◌==◌, if◌then◌else◌, sub_size, add_size, Result, ok, ◌>>=◌,
}
use my_file_server.Buffer.{
  Buffer, init, initial_size, Transferred, failed, done, readable_bytes, read_at, append, retrieve,
  retrieve_all, retrieve_all_as_string, get_buffer_all_as_string, read_fd, write_fd,
}

pub data ConnectionState : Type 0 where
  disconnected connecting connected disconnecting : ConnectionState

abbrev pub is_connected : ConnectionState → Bool
is_connected connected = true
is_connected _ = false

abbrev pub is_disconnected : ConnectionState → Bool
is_disconnected disconnected = true
is_disconnected _ = false

abbrev pub is_disconnecting : ConnectionState → Bool
is_disconnecting disconnecting = true
is_disconnecting _ = false

-- What `runInLoop` is given by another thread. `send(const std::string&)` binds the address of the
-- caller's bytes and not the bytes: only the length is known here.
pub data Task : Type 0 where
  send_address : ℕ → Task
  send_message : Bytes → Task
  send_file_task shutdown_task : Task

pub data Event : Type 0 where
  -- bytes that `write` took
  wrote : Bytes → Event
  -- `sendfile`: the descriptor, and how many bytes were taken
  wrote_file : ℕ → ℕ → Event
  closed_file : ℕ → Event
  -- the user's callbacks
  write_complete told_close : Event
  high_water : ℕ → Event
  told_connection : ConnectionState → Event
  shut_down_write removed_channel : Event
  queued : Task → Event

pub record Connection : Type 0 where
  pub state : ConnectionState
  -- the events that the channel is registered for
  pub channel_reading : Bool
  pub channel_writing : Bool
  pub input_buffer : Buffer
  pub output_buffer : Buffer
  pub send_fd : ℕ
  pub send_len : ℕ
  pub high_water_mark : ℕ
  -- whether the callbacks are set
  pub has_write_complete : Bool
  pub has_high_water : Bool
  pub events : List Event

-- The constructor; `sendFd_` and `sendLen_` are not initialised by it and are arguments.
unfoldable pub new_connection : ℕ → ℕ → Connection
new_connection fd len = record {
  state = connecting;
  channel_reading = false;
  channel_writing = false;
  input_buffer = init initial_size;
  output_buffer = init initial_size;
  send_fd = fd;
  send_len = len;
  high_water_mark = 64 * 1024 * 1024;
  has_write_complete = false;
  has_high_water = false;
  events = [];
}

abbrev pub emit : Event → Connection → Connection
emit e c = record c { events = c.events ++ e ∷ [] }

abbrev pub emit_if : Bool → Event → Connection → Connection
emit_if b e c = record c { events = if b then c.events ++ e ∷ [] else c.events }

-- EWOULDBLOCK, EPIPE and ECONNRESET of Linux.
abbrev would_block : ℕ
would_block = 11

abbrev broken_pipe : ℕ
broken_pipe = 32

abbrev connection_reset : ℕ
connection_reset = 104

unfoldable pub is_fault : ℕ → Bool
is_fault errno = not (errno == would_block) && (errno == broken_pipe || errno == connection_reset)

-- The local variables of `sendInLoop`.
pub record Attempt : Type 0 where
  pub connection : Connection
  pub nwrote : ℕ
  pub remaining : ℕ
  pub fault_error : Bool

unfoldable pub write_directly : (Bytes → Transferred ℕ) → Connection → Bytes → Attempt
unfolding is_fault
write_directly write c text = elim (write text) [
  | done n ↦
      let remaining = sub_size (length text) n in
      record {
        connection =
            emit_if (remaining == 0 && c.has_write_complete) write_complete
              (emit (wrote (take n text)) c);
        nwrote = n;
        remaining = remaining;
        fault_error = false;
      }
  | failed errno ↦ record {
    connection = c;
    nwrote = 0;
    remaining = length text;
    fault_error = is_fault errno;
  }
]

-- Nothing waits to be written.
unfoldable pub is_idle : Connection → Bool
is_idle c = not c.channel_writing && readable_bytes c.output_buffer == 0

unfoldable pub attempt : (Bytes → Transferred ℕ) → Connection → Bytes → Attempt
unfolding is_idle write_directly
attempt write c text =
    if is_idle c
    then write_directly write c text
    else record { connection = c; nwrote = 0; remaining = length text; fault_error = false }

-- The rest waits in `output`; `old_len` bytes waited before it.
abbrev pub waiting : ℕ → ℕ → Buffer → Connection → Connection
waiting old_len total output c =
    record (emit_if
      (leb c.high_water_mark total && ltb old_len c.high_water_mark && c.has_high_water)
      (high_water total) c) { output_buffer = output; channel_writing = true }

unfoldable pub queue_rest : Bytes → Attempt → Result Connection
queue_rest text a =
    if not a.fault_error && ltb 0 a.remaining
    then (do
      let c = a.connection
      let old_len = readable_bytes c.output_buffer
      rest ← read_at text a.nwrote a.remaining
      output ← append c.output_buffer rest
      ok (waiting old_len (add_size old_len a.remaining) output c))
    else ok a.connection

unfoldable pub send_in_loop : (Bytes → Transferred ℕ) → Connection → Bytes → Result Connection
send_in_loop write c text =
    if is_disconnected c.state then ok c else queue_rest text (attempt write c text)

-- `send(const std::string&)`; the Boolean is `isInLoopThread()`.
unfoldable pub send : Bool → (Bytes → Transferred ℕ) → Connection → Bytes → Result Connection
send in_loop write c text =
    if is_connected c.state
    then (if in_loop
        then send_in_loop write c text
        else ok (emit (queued (send_address (length text))) c))
    else ok c

-- `send(Buffer*)`: the connection and the buffer afterwards.
unfoldable pub send_buffer :
    Bool → (Bytes → Transferred ℕ) → Connection → Buffer → Result (Connection × Buffer)
send_buffer in_loop write c buf =
    if is_connected c.state
    then if in_loop
      then (do
        text ← get_buffer_all_as_string buf
        d ← send_in_loop write c text
        ok (d, retrieve_all buf))
      else (do
        (text, left) ← retrieve_all_as_string buf
        ok (emit (queued (send_message text)) c, left))
    else ok (c, buf)

-- What follows a call of `sendfile`: the connection, and `faultError`.
unfoldable pub file_taken : Connection → Transferred ℕ → Connection × Bool
unfolding is_fault
file_taken c (failed errno) = (c, is_fault errno)
file_taken c (done n) =
    let left = sub_size c.send_len n in
    (
      emit_if (left == 0) (closed_file c.send_fd)
          (emit (wrote_file c.send_fd n) (record c { send_len = left })),
      false,
    )

-- `sendfile` is called if nothing waits.
unfoldable pub attempt_file : (ℕ → ℕ → Transferred ℕ) → Connection → Connection × Bool
unfolding is_idle file_taken
attempt_file sendfile c =
    if is_idle c then file_taken c (sendfile c.send_fd c.send_len) else (c, false)

unfoldable pub watch_file : Connection × Bool → Connection
watch_file (c, fault_error) =
    if not fault_error && ltb 0 c.send_len then record c { channel_writing = true } else c

unfoldable pub send_file_in_loop : (ℕ → ℕ → Transferred ℕ) → Connection → Connection
unfolding attempt_file watch_file
send_file_in_loop sendfile c =
    if is_disconnected c.state then c else watch_file (attempt_file sendfile c)

unfoldable pub send_file : Bool → (ℕ → ℕ → Transferred ℕ) → Connection → ℕ → ℕ → Connection
unfolding send_file_in_loop
send_file in_loop sendfile c fd count =
    if is_connected c.state
    then (let d = record c { send_fd = fd; send_len = count } in
        if in_loop then send_file_in_loop sendfile d else emit (queued send_file_task) d)
    else c

unfoldable pub shutdown_in_loop : Connection → Connection
shutdown_in_loop c = emit_if (not c.channel_writing) shut_down_write c

unfoldable pub shutdown : Bool → Connection → Connection
unfolding shutdown_in_loop
shutdown in_loop c =
    if is_connected c.state
    then (let d = record c { state = disconnecting } in
        if in_loop then shutdown_in_loop d else emit (queued shutdown_task) d)
    else c
