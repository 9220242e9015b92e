-- ===== src/Tcp/Dispatch/Polling.antt =====
-- EPollPoller::poll of net/poller/EPollPoller.cc: which channels it finds.
use my_file_server.Common.{ℕ, ◌*◌, ◌≤◌, ◌≡◌, List, [], length, ◌==◌, if◌then◌else◌}
use my_file_server.Buffer.{failed, done}
use my_file_server.Tcp.Dispatch.{Revents, EventArray, Waited}

-- What epoll_wait found.
abbrev pub found : Waited → List (ℕ × Revents)
found (failed errno) = []
found (done happened) = happened

-- As epoll_wait(2) says, it finds at most as many channels as it is asked for.
abbrev pub FindsAtMost : ℕ → Waited → Type 0
FindsAtMost n waited = length (found waited) ≤ n

-- What `poll` makes of an answer.
record HasPolled (events : EventArray) (waited : Waited) (result : List (ℕ × Revents) × EventArray)
    : Type 0 where
  active : result.0 ≡ found waited
  room :
      result.1.size
      ≡ (if length (found waited) == events.size then events.size * 2 else events.size)
