-- ===== src/Tasks/Tests.antt =====
-- base/ThreadPool.cc at concrete inputs.
use my_file_server.Common.{◌↔◌, ℕ, ◌==◌, ◌≡◌, refl, true, false, [], ◌∷◌, Bool}
use my_file_server.Tasks.Pool.{
  TaskPool, finished, nothing_yet, look, new_pool, start, add, caught, run_in_thread,
}
use my_file_server.Tasks.Pool.Order.{System, begun, Reach, here, later, adds, IsFair, Reach-IsFair}
use my_file_server.Tasks.Pool.Draining.{until, behind, end_of, run_in_thread_lem}

abbrev one_waits : System ℕ
one_waits = record {
  pool = record { queue = 5 ∷ []; running = true };
  added = 5 ∷ [];
  taken = [];
  stopped = false;
}

one_waits-Reach : Reach one_waits
unfolding begun start new_pool add
one_waits-Reach = later here (adds 5)

Reach-IsFair_example :
    IsFair one_waits
    × ((look one_waits.pool ≡ finished) ↔ ((false ≡ true) × (one_waits.taken ≡ one_waits.added)))
    × ((look one_waits.pool ≡ nothing_yet)
        ↔ ((false ≡ false) × (one_waits.taken ≡ one_waits.added)))
Reach-IsFair_example = Reach-IsFair one_waits-Reach

abbrev throws_0 : ℕ → Bool
throws_0 n = n == 0

abbrev four_wait : TaskPool ℕ
four_wait = record { queue = 3 ∷ 2 ∷ 0 ∷ 1 ∷ []; running = false }

run_in_thread_lem_example : run_in_thread throws_0 5 four_wait ≡ (
  until throws_0 four_wait.queue,
  record four_wait { queue = behind throws_0 four_wait.queue },
  end_of throws_0 false four_wait.queue,
)
run_in_thread_lem_example = run_in_thread_lem throws_0 four_wait

four_wait_end : end_of throws_0 false four_wait.queue ≡ caught
unfolding end_of
four_wait_end = refl
