-- ===== src/Tcp/DispatchTests.antt =====
-- net/Channel.cc and net/poller/EPollPoller.cc at concrete inputs.
use my_file_server.Common.{
  ℕ, ◌≡◌, refl, true, false, [], ◌∷◌, codes, ok, Bytes, ℤ, add_size, sub_size,
}
use my_file_server.Buffer.{
  Transferred, done, read_fd, fill, read_capacity, writable_bytes, copy_into,
}
use my_file_server.Tcp.Connection.{Connection, disconnecting, shut_down_write}
use my_file_server.Tcp.Connection.Handlers.{handle_read, handle_close}
use my_file_server.Tcp.Connection.Stream.{IsSound, stream, delivered}
use my_file_server.Tcp.Connection.Writing.{Ends}
use my_file_server.Buffer.Content.{content}
use my_file_server.Tcp.Dispatch.{Revents, handle_event, connection_callbacks, EventArray, Waited}
use my_file_server.Tcp.Dispatch.Handling.{handle_event-hang_up, handle_event-drains}
use my_file_server.Tcp.Tests.{busy, busy-IsSound, takes_two, takes_all}

abbrev says_hey : ℕ → Transferred Bytes
says_hey n = done (codes "hey")

-- The peer has reset the connection.
abbrev broken : Revents
broken = record { hang_up = true; input = false; urgent = false; error = true; output = true }

abbrev ready : Revents
ready = record { hang_up = false; input = true; urgent = false; error = false; output = true }

handle_event-hang_up_example :
    handle_event true true broken (connection_callbacks says_hey ok takes_two) busy
    ≡ ok (handle_close busy)
handle_event-hang_up_example =
    handle_event-hang_up says_hey ok takes_two true broken busy refl refl refl

abbrev with_room : Connection
with_room = record busy {
  input_buffer = record { buffer = codes "01234567........"; reader_index = 8; writer_index = 8 };
}

abbrev has_read : Connection
has_read = record busy {
  input_buffer = record { buffer = codes "01234567hey....."; reader_index = 8; writer_index = 11 };
}

reads_hey : handle_read says_hey ok with_room ≡ ok has_read
unfolding handle_read read_fd read_capacity fill writable_bytes copy_into add_size sub_size
reads_hey = refl

has_read-IsSound : IsSound has_read
has_read-IsSound = record { valid = busy-IsSound.valid; armed = busy-IsSound.armed }

handle_event-drains_example :
    (t : Connection) × (handle_event true true ready
        (connection_callbacks says_hey ok takes_all)
        with_room
      ≡ ok t)
    × (delivered t.events ≡ stream has_read)
    × (content t.output_buffer ≡ [])
    × (t.channel_writing ≡ false)
    × (has_read.state ≡ disconnecting → Ends shut_down_write t.events)
handle_event-drains_example =
    handle_event-drains says_hey ok takes_all true ready with_room has_read refl refl refl reads_hey
      has_read-IsSound refl (λ e. cc) refl

-- Two entries, and both are used.
abbrev two_found : ℤ → Waited
two_found n = done ((5, ready) ∷ (6, broken) ∷ [])

abbrev array_of_two : EventArray
array_of_two = record { size = 2 }
