-- ===== src/Tcp/Dispatch.antt =====
-- Channel::handleEvent of net/Channel.cc, which calls a channel's callbacks for what happened, and
-- EPollPoller::poll of net/poller/EPollPoller.cc, which asks what happened. The state that the
-- callbacks change is a parameter, as are they and epoll_wait.
pub mod Handling
pub mod Polling
use my_file_server.Common.{
  ℕ, ◌-◌, ◌*◌, Bool, true, false, not, ◌&&◌, ◌||◌, List, [], ◌∷◌, length, take, ltb, ◌==◌,
  if◌then◌else◌, Option, none, some, Result, ok, ◌>>=◌, pos, pos_part, ℤ, cast_int, size_mod,
}
use my_file_server.Tcp.Connection.{Connection}
use my_file_server.Tcp.Connection.Handlers.{handle_read, handle_write, handle_close}
use my_file_server.Buffer.{Transferred, failed, done}
use my_file_server.Common.{Bytes}

-- `revents_`: EPOLLHUP, EPOLLIN, EPOLLPRI, EPOLLERR and EPOLLOUT
pub record Revents : Type 0 where
  pub hang_up : Bool
  pub input : Bool
  pub urgent : Bool
  pub error : Bool
  pub output : Bool

module _ {ℓ} (S : Type ℓ) where
  -- A callback that is not set is none.
  pub record Callbacks : Type ℓ where
    pub close : Option (S → Result S)
    pub error : Option (S → Result S)
    pub read : Option (S → Result S)
    pub write : Option (S → Result S)

module _ {ℓ} {S : Type ℓ} where
  -- One of the four parts of `handleEventWithGuard`: the callback is called where its event happened.
  unfoldable pub call_if : (happened : Bool) → Option (S → Result S) → S → Result S
  call_if happened none s = ok s
  call_if happened (some callback) s = if happened then callback s else ok s

  unfoldable pub handle_event_with_guard : Revents → Callbacks S → S → Result S
  unfolding call_if
  handle_event_with_guard happened callbacks s =
      call_if (happened.hang_up && not happened.input) callbacks.close s >>= λ closed.
      call_if happened.error callbacks.error closed >>= λ told.
      call_if (happened.input || happened.urgent) callbacks.read told >>= λ read.
      call_if happened.output callbacks.write read

  -- `handleEvent`; a channel that was tied to an object calls nothing when that is gone.
  unfoldable pub handle_event : (tied alive : Bool) → Revents → Callbacks S → S → Result S
  unfolding handle_event_with_guard
  handle_event tied alive happened callbacks s =
      if tied && not alive then ok s else handle_event_with_guard happened callbacks s

-- The callbacks of a connection's channel. `handleError` only writes to the log.
unfoldable pub connection_callbacks :
    (readv : ℕ → Transferred Bytes) (on_message : Connection → Result Connection)
    (write : Bytes → Transferred ℕ)
    → Callbacks Connection
connection_callbacks readv on_message write = record {
  close = some (λ c. ok (handle_close c));
  error = some (λ c. ok c);
  read = some (handle_read readv on_message);
  write = some (handle_write write);
}

-- The part of the poller that `poll` changes: `events_.size()`.
pub record EventArray : Type 0 where
  pub size : ℕ

-- The array as the constructor makes it.
unfoldable pub new_array : EventArray
new_array = record { size = 16 }

-- What epoll_wait puts into the array: for each channel what happened, or an error number.
abbrev pub Waited : Type 0
Waited = Transferred (List (ℕ × Revents))

-- `numEvents` is a size_t: -1 becomes the largest one.
unfoldable pub num_events : Waited → ℕ
num_events (failed errno) = size_mod - 1
num_events (done happened) = length happened

abbrev array_of : Waited → List (ℕ × Revents)
array_of (failed errno) = []
array_of (done happened) = happened

-- `fillActiveChannels`: the loop runs while the int `i` is below `numEvents`.
unfoldable pub fill_active_channels : (num_events : ℤ) → List (ℕ × Revents) → List (ℕ × Revents)
fill_active_channels n happened = take (pos_part n) happened

-- `poll`: the active channels with what happened, and the array
unfoldable pub poll :
    (epoll_wait : (max_events : ℤ) → Waited) → EventArray → List (ℕ × Revents) × EventArray
unfolding num_events fill_active_channels
poll epoll_wait events =
    let waited = epoll_wait (cast_int (pos events.size)) in
    let n = num_events waited in
    if ltb 0 n
    then (
      fill_active_channels (cast_int (pos n)) (array_of waited),
      if n == events.size then record { size = events.size * 2 } else events,
    )
    else ([], events)
