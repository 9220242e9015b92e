-- ===== src/Tcp/Dispatch/Handling.antt =====
-- Channel::handleEvent of net/Channel.cc with the callbacks of net/TcpConnection.cc.
use my_file_server.Common.{
  ℕ, ◌≤◌, ◌+◌, ◌≡◌, ◌≢◌, refl, ◌∙◌, Bool, true, false, not, ◌&&◌, ◌||◌, Bytes, [], length, max_size,
  append-nil, some, Result, ok, ◌>>=◌,
}
use my_file_server.Buffer.{Buffer, Transferred, done, read_capacity, extra_size}
use my_file_server.Buffer.Content.{IsValid, content}
use my_file_server.Buffer.Transfer.{FillsAtMost, read_fd-content}
use my_file_server.Tcp.Connection.{Connection, disconnecting, shut_down_write}
use my_file_server.Tcp.Connection.Handlers.{handle_read, handle_write, handle_close}
use my_file_server.Tcp.Connection.Stream.{IsSound, stream, delivered}
use my_file_server.Tcp.Connection.Writing.{Ends, handle_write_off, handle_write-drains}
use my_file_server.Tcp.Dispatch.{
  Revents, call_if, handle_event_with_guard, handle_event, connection_callbacks,
}

module _ (readv : ℕ → Transferred Bytes) (on_message : Connection → Result Connection)
    (write : Bytes → Transferred ℕ) where
  -- The error callback changes nothing, and a connection that does not wait to write writes nothing.
  told_lem : (b : Bool) (c : Connection) → call_if b (some (λ (d : Connection). ok d)) c ≡ ok c
  unfolding call_if
  told_lem true c = refl
  told_lem false c = refl

  output_off :
      (b : Bool) (c : Connection)
      → c.channel_writing ≡ false
      → call_if b (some (handle_write write)) c ≡ ok c
  unfolding call_if
  output_off true c off = handle_write_off write c off
  output_off false c off = refl

  closed_off : (c : Connection) → (handle_close c).channel_writing ≡ false
  unfolding handle_close
  closed_off c = refl

  -- Without a hang-up, the reading and then the writing.
  guard_lem :
      (tied : Bool) (happened : Revents) (c : Connection)
      → (happened.hang_up && not happened.input) ≡ false
      → (happened.input || happened.urgent) ≡ true
      → handle_event tied true happened (connection_callbacks readv on_message write) c ≡ (
          handle_read readv on_message c >>= λ d.
          call_if happened.output (some (handle_write write)) d)
  unfolding handle_event handle_event_with_guard connection_callbacks
  guard_lem true happened c no_hang_up readable =
      rw (no_hang_up, readable, told_lem happened.error c, call_if) refl
  guard_lem false happened c no_hang_up readable =
      rw (no_hang_up, readable, told_lem happened.error c, call_if) refl

  -- A hang-up with nothing to read closes the connection, and does nothing else to it, whatever else
  -- happened but urgent data.
  pub handle_event-hang_up :
      (tied : Bool) (happened : Revents) (c : Connection)
      → happened.hang_up ≡ true
      → happened.input ≡ false
      → happened.urgent ≡ false
      → handle_event tied true happened (connection_callbacks readv on_message write) c
        ≡ ok (handle_close c)
  unfolding handle_event handle_event_with_guard connection_callbacks
  handle_event-hang_up true happened c hang_up no_input not_urgent =
      rw (hang_up, no_input, not_urgent, told_lem happened.error (handle_close c))
        (output_off happened.output (handle_close c) (closed_off c))
  handle_event-hang_up false happened c hang_up no_input not_urgent =
      rw (hang_up, no_input, not_urgent, told_lem happened.error (handle_close c))
        (output_off happened.output (handle_close c) (closed_off c))

  -- When the peer has ended and no hang-up comes without data, the connection is closed and nothing is
  -- written, if the input buffer has room in the largest vector.
  pub handle_event-end :
      (tied : Bool) (happened : Revents) (c : Connection)
      → (happened.hang_up && not happened.input) ≡ false
      → (happened.input || happened.urgent) ≡ true
      → FillsAtMost readv
      → IsValid c.input_buffer
      → length c.input_buffer.buffer + extra_size ≤ max_size
      → readv (read_capacity c.input_buffer) ≡ done []
      → (b : Buffer) × (content b ≡ content c.input_buffer)
        × (handle_event tied true happened (connection_callbacks readv on_message write) c
            ≡ ok (handle_close (record c { input_buffer = b })))
  unfolding handle_read
  handle_event-end tied happened c no_hang_up readable fills valid room end =
      let (b, runs, still_valid, same) = read_fd-content readv c.input_buffer fills valid room in
      (
        b,
        same ∙ rw end (append-nil (content c.input_buffer)),
        guard_lem tied happened c no_hang_up readable
            ∙ rw (runs, end)
                (output_off happened.output (handle_close (record c { input_buffer = b }))
                  (closed_off (record c { input_buffer = b }))),
      )

  -- When a message came whose callback left the connection sound, with bytes to write and the channel
  -- registered for it, and the socket is writable, the handler for writing follows in the same call:
  -- if write takes all that waits, the whole stream is on the socket afterwards, nothing waits and the
  -- channel is no longer registered for writing; a connection that the callback has shut down is
  -- half-closed then.
  pub handle_event-drains :
      (tied : Bool) (happened : Revents) (c d : Connection)
      → (happened.hang_up && not happened.input) ≡ false
      → (happened.input || happened.urgent) ≡ true
      → happened.output ≡ true
      → handle_read readv on_message c ≡ ok d
      → IsSound d
      → d.channel_writing ≡ true
      → content d.output_buffer ≢ []
      → write (content d.output_buffer) ≡ done (length (content d.output_buffer))
      → (t : Connection) × (handle_event tied true happened
            (connection_callbacks readv on_message write)
            c
          ≡ ok t)
        × (delivered t.events ≡ stream d)
        × (content t.output_buffer ≡ [])
        × (t.channel_writing ≡ false)
        × (d.state ≡ disconnecting → Ends shut_down_write t.events)
  unfolding call_if
  handle_event-drains tied happened c d no_hang_up readable writable reads sound on some_left all =
      let (t, runs, whole, nothing, off, closes) =
        handle_write-drains write d sound on some_left all in
      (
        t,
        guard_lem tied happened c no_hang_up readable ∙ rw (reads, writable) runs,
        whole,
        nothing,
        off,
        closes,
      )
