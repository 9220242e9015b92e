-- ===== src/Tcp/Tests.antt =====
-- net/TcpConnection.cc at concrete inputs.
use my_file_server.Common.{
  ℕ, ◌+◌, ◌≡◌, refl, arith, true, false, [], ◌∷◌, ◌++◌, Bytes, length, length-take, take, codes, ok,
}
use my_file_server.Buffer.{Buffer, Transferred, done}
use my_file_server.Buffer.Content.{content}
use my_file_server.Tcp.Connection.{
  Connection, connected, is_disconnected, disconnecting, shut_down_write, send_in_loop, send_file,
  shutdown,
}
use my_file_server.Tcp.Connection.Handlers.{handle_write, handle_close, connect_destroyed}
use my_file_server.Tcp.Connection.Stream.{
  delivered, stream, WritesAtMost, WritesFaultless, IsSound, send_in_loop-stream,
}
use my_file_server.Tcp.Connection.Writing.{Ends, handle_write-stream, handle_write-drains}
use my_file_server.Tcp.Connection.Closing.{
  Steps, stop, more, send_functor, destroys, socket_events, handle_close-Steps,
}
use my_file_server.Tcp.Connection.Shutdown.{shutdown-handle_write}
use my_file_server.Tcp.Poller.{
  new_channel, run, enable_reading, enable_writing, disable_all, remove,
}
use my_file_server.Tcp.Poller.Registration.{IsRegistered, run-IsRegistered}
use my_file_server.Tcp.LoopPool.{LoopPool, calls, get_all_loops}
use my_file_server.Tcp.LoopPool.Rounds.{running, calls-running}
use my_file_server.Tcp.Connection.File.{files, send_file-partial, send_file-waiting}

abbrev pub empty_buffer : Buffer
empty_buffer = record { buffer = codes "01234567"; reader_index = 8; writer_index = 8 }

abbrev pub idle : Connection
idle = record {
  state = connected;
  channel_reading = true;
  channel_writing = false;
  input_buffer = empty_buffer;
  output_buffer = empty_buffer;
  send_fd = 0;
  send_len = 0;
  high_water_mark = 100;
  has_write_complete = true;
  has_high_water = false;
  events = [];
}

idle-IsSound : IsSound idle
idle-IsSound = record { valid = omega arith; armed = λ e. refl }

-- Three bytes wait.
abbrev pub busy : Connection
busy = record idle {
  channel_writing = true;
  output_buffer = record { buffer = codes "01234567abc"; reader_index = 8; writer_index = 11 };
}

pub busy-IsSound : IsSound busy
busy-IsSound = record { valid = omega arith; armed = λ (e : true ≡ false). cc }

-- A `write` that takes at most two bytes, and one that takes all.
abbrev pub takes_two : Bytes → Transferred ℕ
takes_two text = done (length (take 2 text))

takes_two-WritesAtMost : WritesAtMost takes_two
takes_two-WritesAtMost text n e =
    let same : length (take {A = ℕ} 2 text) ≡ n = cc in omega (arith, same, length-take 2 text)

takes_two-WritesFaultless : WritesFaultless takes_two
takes_two-WritesFaultless text errno e = cc

abbrev pub takes_all : Bytes → Transferred ℕ
takes_all text = done (length text)

abbrev sends_three : ℕ → ℕ → Transferred ℕ
sends_three fd count = done 3

send_in_loop-stream_example :
    (d : Connection) × (send_in_loop takes_two idle (codes "hello") ≡ ok d)
    × IsSound d
    × (stream d ≡ stream idle ++ codes "hello")
    × (d.state ≡ connected)
send_in_loop-stream_example =
    send_in_loop-stream takes_two idle (codes "hello") takes_two-WritesAtMost
      takes_two-WritesFaultless idle-IsSound (omega arith) (λ e. cc) (omega arith)

handle_write-stream_example :
    (d : Connection) × (handle_write takes_two busy ≡ ok d) × IsSound d × (stream d ≡ stream busy)
handle_write-stream_example = handle_write-stream takes_two busy busy-IsSound

handle_write-drains_example :
    (d : Connection) × (handle_write takes_all busy ≡ ok d)
    × (delivered d.events ≡ stream busy)
    × (content d.output_buffer ≡ [])
    × (d.channel_writing ≡ false)
    × (connected ≡ disconnecting → Ends shut_down_write d.events)
handle_write-drains_example = handle_write-drains takes_all busy busy-IsSound refl (λ e. cc) refl

shutdown-handle_write_example :
    (d : Connection) × ((shutdown true busy).events ≡ [])
    × (handle_write takes_all (shutdown true busy) ≡ ok d)
    × (delivered d.events ≡ stream busy)
    × Ends shut_down_write d.events
shutdown-handle_write_example =
    shutdown-handle_write takes_all busy busy-IsSound refl refl (λ e. cc) refl

given_up : send_in_loop takes_two (handle_close busy) (codes "late") ≡ ok (handle_close busy)
unfolding send_in_loop handle_close
given_up = refl

-- A message that another thread had queued, and the end of the connection.
abbrev late_steps :
    Steps takes_two sends_three (handle_close busy) (connect_destroyed (handle_close busy))
late_steps =
    more (handle_close busy) (handle_close busy) (connect_destroyed (handle_close busy))
      (more (handle_close busy) (handle_close busy) (handle_close busy) (stop (handle_close busy))
        (send_functor (handle_close busy) (handle_close busy) (codes "late") given_up))
      (destroys (handle_close busy))

handle_close-Steps_example :
    (is_disconnected (connect_destroyed (handle_close busy)).state ≡ true)
    × ((connect_destroyed (handle_close busy)).channel_writing ≡ false)
    × (socket_events (connect_destroyed (handle_close busy)).events ≡ [])
handle_close-Steps_example =
    handle_close-Steps takes_two sends_three busy (connect_destroyed (handle_close busy)) late_steps

send_file-partial_example :
    (d : Connection) × (send_file true sends_three idle 5 10 ≡ d)
    × (d.send_len ≡ 7)
    × (d.channel_writing ≡ true)
    × (handle_write takes_two d ≡ ok d)
send_file-partial_example =
    send_file-partial takes_two sends_three idle 5 10 3 takes_two-WritesAtMost idle-IsSound refl
      refl refl (omega arith) (omega arith)

send_file-waiting_example :
    (d : Connection) × (handle_write takes_all (send_file true sends_three busy 5 10) ≡ ok d)
    × (d.send_len ≡ 10)
    × (d.channel_writing ≡ false)
    × (files d.events ≡ [])
send_file-waiting_example =
    send_file-waiting takes_all sends_three busy 5 10 busy-IsSound refl refl (λ e. cc) refl
      (omega arith)

abbrev three_loops : LoopPool
three_loops = record {
  base_loop = 1;
  started = true;
  num_threads = 3;
  next = 1;
  loops = 10 ∷ 20 ∷ 30 ∷ [];
}

calls-running_example :
    calls (length (get_all_loops (running (◌+◌ 100) false 1 2))) (running (◌+◌ 100) false 1 2)
    ≡ ok (get_all_loops (running (◌+◌ 100) false 1 2), running (◌+◌ 100) false 1 2)
calls-running_example = calls-running (◌+◌ 100) false 1 2

run-IsRegistered_example :
    IsRegistered (
      run
        (enable_reading ∷ enable_writing ∷ disable_all ∷ enable_reading ∷ remove ∷ [])
        new_channel)
run-IsRegistered_example =
    run-IsRegistered (enable_reading ∷ enable_writing ∷ disable_all ∷ enable_reading ∷ remove ∷ [])
