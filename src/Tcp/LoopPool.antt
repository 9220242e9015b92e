-- ===== src/Tcp/LoopPool.antt =====
-- net/EventLoopThreadPool.cc: the choice of the loop that a new connection is given to. A loop is
-- its address; `startLoop`, which starts a thread and answers with the loop that it runs, is an
-- argument. The names of the threads are left out.
pub mod Rounds
pub mod Ready
use my_file_server.Common.{
  ℕ, zero, suc, ◌+◌, Bool, true, false, ◌&&◌, List, [], ◌∷◌, ◌++◌, length, leb, ◌==◌, get_elem?,
  if◌then◌else◌, Option, none, some, Result, ok, err, ◌>>=◌, out_of_bounds,
}

pub record LoopPool : Type 0 where
  pub base_loop : ℕ
  pub started : Bool
  pub num_threads : ℕ
  pub next : ℕ
  pub loops : List ℕ

unfoldable pub new_pool : ℕ → LoopPool
new_pool base = record { base_loop = base; started = false; num_threads = 0; next = 0; loops = [] }

-- `setThreadNum`, for a number that is not negative
unfoldable pub set_thread_num : ℕ → LoopPool → LoopPool
set_thread_num n pool = record pool { num_threads = n }

-- The `n` turns of the loop in `start`, from turn `i` on.
unfoldable pub start_loops : (start_loop : ℕ → ℕ) (n i : ℕ) → List ℕ
start_loops start_loop zero i = []
start_loops start_loop (suc n) i = start_loop i ∷ start_loops start_loop n (suc i)

-- `start`, with the loop that the user's callback is called on by `start` itself, if there is one.
unfoldable pub start : (start_loop : ℕ → ℕ) (has_callback : Bool) → LoopPool → Option ℕ × LoopPool
start start_loop has_callback pool =
    let running : LoopPool = record pool {
      started = true;
      loops = pool.loops ++ start_loops start_loop pool.num_threads 0;
    } in
    (if (pool.num_threads == 0) && has_callback then some pool.base_loop else none, running)

-- The index behind `i`, of `n` loops.
unfoldable pub following : (i n : ℕ) → ℕ
following i n = if leb n (suc i) then 0 else suc i

unfoldable pub next_of : LoopPool → List ℕ → Result (ℕ × LoopPool)
next_of pool [] = ok (pool.base_loop, pool)
next_of pool (l ∷ ls) = elim (get_elem? (l ∷ ls) pool.next) [
  | none ↦ err out_of_bounds
  | some loop ↦ ok (loop, record pool { next = following pool.next (length (l ∷ ls)) })
]

unfoldable pub get_next_loop : LoopPool → Result (ℕ × LoopPool)
get_next_loop pool = next_of pool pool.loops

abbrev or_base : ℕ → List ℕ → List ℕ
or_base base [] = base ∷ []
or_base base (l ∷ ls) = l ∷ ls

pub get_all_loops : LoopPool → List ℕ
get_all_loops pool = or_base pool.base_loop pool.loops

-- The loops that `n` connections in a row are given.
pub calls : ℕ → LoopPool → Result (List ℕ × LoopPool)
calls zero pool = ok ([], pool)
calls (suc n) pool =
    get_next_loop pool >>= λ first. calls n first.1 >>= λ rest. ok (first.0 ∷ rest.0, rest.1)
