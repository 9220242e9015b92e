-- ===== src/Tcp/Connection/Handlers.antt =====
-- What net/TcpConnection.cc does when a connection comes up or goes down, and the channel's handlers.
use my_file_server.Common.{
  ℕ, true, false, Bytes, length, take, ltb, ◌==◌, if◌then◌else◌, Result, ok, ◌>>=◌,
}
use my_file_server.Buffer.{
  Transferred, failed, done, readable_bytes, retrieve, get_buffer_all_as_string, read_fd, write_fd,
}
use my_file_server.Tcp.Connection.{
  disconnected, connected, is_connected, is_disconnecting, Connection, wrote, write_complete,
  told_connection, told_close, removed_channel, emit, emit_if, shutdown_in_loop,
}

unfoldable pub connect_established : Connection → Connection
connect_established c =
    emit (told_connection connected) (record c { state = connected; channel_reading = true })

unfoldable pub connect_destroyed : Connection → Connection
connect_destroyed c = emit removed_channel (
    if is_connected c.state
    then emit (told_connection disconnected)
        (record c { state = disconnected; channel_reading = false; channel_writing = false })
    else c)

unfoldable pub handle_close : Connection → Connection
handle_close c = emit told_close (
    emit (told_connection disconnected)
      (record c { state = disconnected; channel_reading = false; channel_writing = false }))

-- The message callback gets the connection with the new bytes in its input buffer. `handleError`
-- only writes to the log.
unfoldable pub handle_read :
    (ℕ → Transferred Bytes) → (Connection → Result Connection) → Connection → Result Connection
unfolding handle_close
handle_read readv on_message c = do
  (input, n) ← read_fd readv c.input_buffer
  let d = record c { input_buffer = input }
  elim n [
    | failed errno ↦ ok d
    | done got ↦ if length got == 0 then ok (handle_close d) else on_message d
  ]

-- After a write that took n > 0 bytes.
unfoldable pub written : Connection → ℕ → Connection
unfolding shutdown_in_loop
written c n =
    let left = retrieve c.output_buffer n in
    if readable_bytes left == 0
    then (let d =
          emit_if c.has_write_complete write_complete
            (record c { output_buffer = left; channel_writing = false }) in
        if is_disconnecting c.state then shutdown_in_loop d else d)
    else record c { output_buffer = left }

unfoldable pub note_written : Connection → Bytes → Transferred ℕ → Connection
unfolding written
note_written c text (failed errno) = c
note_written c text (done n) = if ltb 0 n then written (emit (wrote (take n text)) c) n else c

unfoldable pub write_out : (Bytes → Transferred ℕ) → Connection → Result Connection
write_out write c = do
  text ← get_buffer_all_as_string c.output_buffer
  n ← write_fd write c.output_buffer
  ok (note_written c text n)

unfoldable pub handle_write : (Bytes → Transferred ℕ) → Connection → Result Connection
handle_write write c = if c.channel_writing then write_out write c else ok c
