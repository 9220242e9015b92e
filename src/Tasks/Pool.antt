-- ===== src/Tasks/Pool.antt =====
-- base/ThreadPool.h and base/ThreadPool.cc: the queue of tasks and the threads that take them. A task
-- is a value of a type that is a parameter; whether it throws is an argument. That `wait` returns
-- without a notice is a turn in which a thread finds nothing. Null tasks are left out.
pub mod Order
pub mod Draining
use my_file_server.Common.{
  ℕ, zero, suc, ◌+◌, ◌==◌, ◌&&◌, Bool, true, false, List, [], ◌∷◌, ◌++◌, length, if◌then◌else◌,
}

-- How a thread ends, or that it waits.
pub data Outcome : Type 0 where
  returned caught waiting no_fuel : Outcome

module _ {ℓ} (F : Type ℓ) where
  -- `queue_` and `running_`
  pub record TaskPool : Type ℓ where
    pub queue : List F
    pub running : Bool

  -- What a thread finds when it has the lock.
  pub data Found : Type ℓ where
    task : F → TaskPool → Found
    nothing_yet finished : Found

module _ {ℓ} {F : Type ℓ} where
  unfoldable pub new_pool : TaskPool F
  new_pool = record { queue = []; running = false }

  -- What `start` does but for making the threads.
  unfoldable pub start : TaskPool F → TaskPool F
  start pool = record pool { running = true }

  pub stop : TaskPool F → TaskPool F
  stop pool = record pool { running = false }

  pub queue_size : TaskPool F → ℕ
  queue_size pool = length pool.queue

  unfoldable pub add : F → TaskPool F → TaskPool F
  add f pool = record pool { queue = pool.queue ++ f ∷ [] }

  pub look_at : TaskPool F → List F → Found F
  look_at pool [] = if pool.running then nothing_yet else finished
  look_at pool (f ∷ fs) = task f (record pool { queue = fs })

  -- The part of a turn of `runInThread` under the lock.
  pub look : TaskPool F → Found F
  look pool = look_at pool pool.queue

  -- `runInThread` of one thread while the others do nothing: the tasks that it calls, in order, what
  -- is left, and how it ends.
  pub call_task :
      (throws : F → Bool)
      → F
      → TaskPool F
      → List F × TaskPool F × Outcome
      → List F × TaskPool F × Outcome
  call_task throws f rest (called, left, outcome) =
      if throws f then (f ∷ [], rest, caught) else (f ∷ called, left, outcome)

  pub run_in_thread : (throws : F → Bool) (fuel : ℕ) → TaskPool F → List F × TaskPool F × Outcome
  run_in_thread throws zero pool = ([], pool, no_fuel)
  run_in_thread throws (suc fuel) pool = elim (look pool) [
    | nothing_yet ↦ ([], pool, waiting)
    | finished ↦ ([], pool, returned)
    | task f rest ↦ call_task throws f rest (run_in_thread throws fuel rest)
  ]

module _ {ℓ} (F : Type ℓ) where
  -- The whole of `ThreadPool`: the tasks, `threadSize_`, whether `threadInitCallback_` is set, and how
  -- many threads were made.
  pub record ThreadPool : Type ℓ where
    pub tasks : TaskPool F
    pub thread_size : ℕ
    pub has_callback : Bool
    pub threads : ℕ

module _ {ℓ} {F : Type ℓ} where
  -- The constructor; `threadSize_` is not initialised by it and is an argument.
  pub new_thread_pool : (thread_size : ℕ) → ThreadPool F
  new_thread_pool thread_size = record {
    tasks = new_pool;
    thread_size = thread_size;
    has_callback = false;
    threads = 0;
  }

  pub set_thread_init_callback : ThreadPool F → ThreadPool F
  set_thread_init_callback pool = record pool { has_callback = true }

  -- `setThreadSize`, for a number that is not negative
  pub set_thread_size : ℕ → ThreadPool F → ThreadPool F
  set_thread_size n pool = record pool { thread_size = n }

  -- `start`: whether it calls the callback itself, and the pool
  pub start_threads : ThreadPool F → Bool × ThreadPool F
  start_threads pool = (
    (pool.thread_size == 0) && pool.has_callback,
    record pool { tasks = start pool.tasks; threads = pool.threads + pool.thread_size },
  )

  -- The destructor, but for waiting until the threads have ended.
  pub destroy_threads : ThreadPool F → ThreadPool F
  destroy_threads pool = record pool { tasks = stop pool.tasks }
