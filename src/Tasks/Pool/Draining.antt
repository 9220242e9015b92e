-- ===== src/Tasks/Pool/Draining.antt =====
-- base/ThreadPool.cc: one thread that takes all that is left.
use my_file_server.Common.{
  ℕ, zero, suc, ◌<◌, ◌≡◌, refl, ap, ◌∙◌, arith, Bool, true, false, List, [], ◌∷◌, ◌++◌, length,
  if◌then◌else◌,
}
use my_file_server.Tasks.Pool.{
  TaskPool, look, look_at, Outcome, returned, caught, waiting, call_task, run_in_thread,
}

module _ {ℓ} {F : Type ℓ} (throws : F → Bool) where
  -- The tasks up to the first that throws, that one included, and those behind it.
  unfoldable pub until : List F → List F
  until [] = []
  until (f ∷ fs) = if throws f then f ∷ [] else f ∷ until fs

  unfoldable pub behind : List F → List F
  behind [] = []
  behind (f ∷ fs) = if throws f then fs else behind fs

  unfoldable pub end_of : (running : Bool) → List F → Outcome
  end_of running [] = if running then waiting else returned
  end_of running (f ∷ fs) = if throws f then caught else end_of running fs

  pub until-behind : (fs : List F) → until fs ++ behind fs ≡ fs
  unfolding until behind
  until-behind [] = refl
  until-behind (f ∷ fs) = ground (arith, until-behind fs)

  call_task_lem :
      (f : F) (fs : List F) (running : Bool)
      → call_task throws f
          (record { queue = fs; running = running })
          (until fs, record { queue = behind fs; running = running }, end_of running fs)
        ≡ (
          until (f ∷ fs),
          record { queue = behind (f ∷ fs); running = running },
          end_of running (f ∷ fs),
        )
  unfolding call_task until behind end_of
  call_task_lem f fs running = ground arith

  run_queue :
      (fuel : ℕ) (fs : List F) (running : Bool)
      → length fs < fuel
      → run_in_thread throws fuel (record { queue = fs; running = running })
        ≡ (until fs, record { queue = behind fs; running = running }, end_of running fs)
  unfolding run_in_thread look look_at until behind end_of
  run_queue zero fs running h = absurd (omega arith)
  run_queue (suc fuel) [] true h = refl
  run_queue (suc fuel) [] false h = refl
  run_queue (suc fuel) (f ∷ fs) running h =
      ap (call_task throws f (record { queue = fs; running = running }))
        (run_queue fuel fs running (omega arith))
      ∙ call_task_lem f fs running

  -- A thread that nobody disturbs calls the waiting tasks in order up to the first that throws, which
  -- ends it and leaves the others; where none throws it takes them all, and then ends if the pool was
  -- stopped, and waits if it was not. As many turns as there are tasks, and one more, are enough.
  pub run_in_thread_lem :
      (pool : TaskPool F)
      → run_in_thread throws (suc (length pool.queue)) pool ≡ (
        until pool.queue,
        record pool { queue = behind pool.queue },
        end_of pool.running pool.queue,
      )
  run_in_thread_lem pool = run_queue (suc (length pool.queue)) pool.queue pool.running (omega arith)
