-- ===== src/Loop/Pending.antt =====
-- net/EventLoop.cc: the functors that other threads hand to a loop, and the eventfd that wakes it.
-- A functor is a value of a type that is a parameter; what it hands to `queueInLoop` of this loop
-- while it runs is an argument. Log lines and the timers' part are left out.
pub mod Rounds
pub mod Wakeup
use my_file_server.Common.{
  ℕ, zero, suc, ◌+◌, Bool, true, false, not, ◌||◌, List, [], ◌∷◌, ◌++◌, if◌then◌else◌, ltb,
}

module _ {ℓ} (F : Type ℓ) where
  pub record EventLoop : Type ℓ where
    pub quitting : Bool
    pub calling_pending_functors : Bool
    pub pending_functors : List F
    -- how many times `wakeup` wrote to the eventfd since `handleRead` read it last; `poll` does not
    -- wait while it is not 0
    pub wakeups : ℕ

module _ {ℓ} {F : Type ℓ} where
  -- The constructor.
  unfoldable pub new_loop : EventLoop F
  new_loop = record {
    quitting = false;
    calling_pending_functors = false;
    pending_functors = [];
    wakeups = 0;
  }

  unfoldable pub wakeup : EventLoop F → EventLoop F
  wakeup loop = record loop { wakeups = loop.wakeups + 1 }

  -- Reading an eventfd sets its counter to 0.
  pub handle_read : EventLoop F → EventLoop F
  handle_read loop = record loop { wakeups = 0 }

  -- `quit`, called in the loop's own thread or in another
  pub quit : (in_loop : Bool) → EventLoop F → EventLoop F
  quit in_loop loop =
      let stopped : EventLoop F = record loop { quitting = true } in
      if in_loop then wakeup stopped else stopped

  -- `queueInLoop` takes the lock for `add_pending` only.
  unfoldable pub add_pending : F → EventLoop F → EventLoop F
  add_pending cb loop = record loop { pending_functors = loop.pending_functors ++ cb ∷ [] }

  unfoldable pub needs_wakeup : (in_loop : Bool) → EventLoop F → Bool
  needs_wakeup in_loop loop = not in_loop || loop.calling_pending_functors

  pub queue_in_loop : (in_loop : Bool) → F → EventLoop F → EventLoop F
  queue_in_loop in_loop cb loop =
      let added : EventLoop F = add_pending cb loop in
      if needs_wakeup in_loop added then wakeup added else added

  -- `runInLoop`, with what the functor does when it is called
  pub run_in_loop :
      (call : F → EventLoop F → EventLoop F) (in_loop : Bool) → F → EventLoop F → EventLoop F
  run_in_loop call in_loop cb loop = if in_loop then call cb loop else queue_in_loop in_loop cb loop

  -- A functor runs in the loop's thread.
  pub queue_all : List F → EventLoop F → EventLoop F
  queue_all [] loop = loop
  queue_all (cb ∷ cbs) loop = queue_all cbs (queue_in_loop true cb loop)

  pub call_all : (queues : F → List F) → List F → EventLoop F → EventLoop F
  call_all queues [] loop = loop
  call_all queues (cb ∷ cbs) loop = call_all queues cbs (queue_all (queues cb) loop)

  -- `functors.swap(pendingFunctors_)`: the functors taken, and the loop
  unfoldable pub take_pending : EventLoop F → List F × EventLoop F
  take_pending loop = (
    loop.pending_functors,
    record loop { calling_pending_functors = true; pending_functors = [] },
  )

  pub stop_calling : EventLoop F → EventLoop F
  stop_calling loop = record loop { calling_pending_functors = false }

  -- `doPendingFunctors`: the functors that it called, in order, and the loop
  pub do_pending_functors : (queues : F → List F) → EventLoop F → List F × EventLoop F
  do_pending_functors queues loop =
      let (functors, taken) = take_pending loop in
      (functors, stop_calling (call_all queues functors taken))
