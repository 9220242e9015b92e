-- ===== src/Loop/Tests.antt =====
-- net/EventLoop.cc at concrete inputs.
use my_file_server.Common.{ℕ, refl, arith, true, false, [], ◌∷◌}
use my_file_server.Loop.Pending.{new_loop, add_pending, needs_wakeup, take_pending, wakeup}
use my_file_server.Loop.Pending.Wakeup.{
  System, fresh, other_adds, other_wakes, poll_returns, takes, calling, Reach, start, later,
  IsAwake, Reach-IsAwake,
}

-- Another thread hands over 7 and is slow to wake the loop, which is woken by something else.
abbrev slow_waker : System ℕ
slow_waker = record {
  loop = record {
    quitting = false;
    calling_pending_functors = true;
    pending_functors = [];
    wakeups = 1;
  };
  phase = calling (7 ∷ []);
  late = 0;
  queued = 7 ∷ [];
  called = [];
}

slow_waker-Reach : Reach slow_waker
unfolding fresh new_loop add_pending needs_wakeup take_pending wakeup
slow_waker-Reach =
    later (later (later (later start (other_adds 7)) (poll_returns refl)) (takes refl))
      (other_wakes (omega arith))

Reach-IsAwake_example : IsAwake slow_waker
Reach-IsAwake_example = Reach-IsAwake slow_waker-Reach
