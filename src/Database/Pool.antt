-- ===== src/Database/Pool.antt =====
-- mysql/ConnectionPool.h and mysql/ConnectionPool.cc. A connection is a number and the time from
-- which it is idle; the times of the clock and the numbers of new connections are arguments. What the
-- configuration says is an argument; the client library is left out, as is the time that a thread
-- waits for.
pub mod System
pub mod Counting
use my_file_server.Common.{
  ℕ, zero, suc, ◌+◌, ◌-◌, ◌/◌, ltb, leb, Bool, true, false, List, [], ◌∷◌, ◌++◌, length,
  if◌then◌else◌, Option, none, some, Bytes, codes, Result, ok, ◌>>=◌,
}

pub record Connection : Type 0 where
  pub number : ℕ
  -- what `refreshAliveTime` has noted
  pub idle_since : ℕ

pub record ConnectionPool : Type 0 where
  pub min_size : ℕ
  pub max_size : ℕ
  pub max_idle_time : ℕ
  -- `currentSize_`, from which never more is taken away than was added
  pub current_size : ℕ
  pub queue : List Connection

-- The members before the constructor's body; the object is static, so `currentSize_` is 0.
unfoldable pub empty_pool : (min_size max_size max_idle_time : ℕ) → ConnectionPool
empty_pool min_size max_size max_idle_time = record {
  min_size = min_size;
  max_size = max_size;
  max_idle_time = max_idle_time;
  current_size = 0;
  queue = [];
}

-- `addConnection`, which does not look whether `connect` succeeded
unfoldable pub add_connection : (number now : ℕ) → ConnectionPool → ConnectionPool
add_connection number now pool = record pool {
  queue = pool.queue ++ (record { number = number; idle_since = now }) ∷ [];
  current_size = pool.current_size + 1;
}

-- `addConnection(); currentSize_++;`, as the constructor and the producer do
unfoldable pub add_and_count : (number now : ℕ) → ConnectionPool → ConnectionPool
unfolding add_connection
add_and_count number now pool =
    let added : ConnectionPool = add_connection number now pool in
    record added { current_size = added.current_size + 1 }

-- The loop of the constructor, `i` of the rounds done; `time` tells the time at each.
unfoldable pub add_first : (time : ℕ → ℕ) (n i : ℕ) → ConnectionPool → ConnectionPool
unfolding add_and_count
add_first time zero i pool = pool
add_first time (suc n) i pool = add_first time n (suc i) (add_and_count i (time i) pool)

unfoldable pub new_pool : (time : ℕ → ℕ) (min_size max_size max_idle_time : ℕ) → ConnectionPool
unfolding add_first empty_pool
new_pool time min_size max_size max_idle_time =
    add_first time min_size 0 (empty_pool min_size max_size max_idle_time)

-- A turn of `produceConnection` that finds the queue empty.
unfoldable pub produce : (number now : ℕ) → ConnectionPool → ConnectionPool
produce number now pool =
    if ltb pool.current_size pool.max_size then add_and_count number now pool else pool

-- `getAliveTime`: nanoseconds as milliseconds
unfoldable pub alive_time : (now : ℕ) → Connection → ℕ
alive_time now c = (now - c.idle_since) / 1000000

-- The loop of `recycleConnection` at a time: how many connections it deletes, and those it leaves.
unfoldable pub recycle_loop :
    (now min_size max_idle_time : ℕ) → List Connection → ℕ × List Connection
recycle_loop now min_size max_idle_time [] = (0, [])
recycle_loop now min_size max_idle_time (c ∷ cs) =
    let rest = recycle_loop now min_size max_idle_time cs in
    if ltb min_size (length (c ∷ cs))
    then (if leb max_idle_time (alive_time now c) then (suc rest.0, rest.1) else (0, c ∷ cs))
    else (0, c ∷ cs)

unfoldable pub recycle : (now : ℕ) → ConnectionPool → ConnectionPool
recycle now pool =
    let (deleted, left) = recycle_loop now pool.min_size pool.max_idle_time pool.queue in
    record pool { queue = left; current_size = pool.current_size - deleted }

-- `getConnection`, when it finds the queue not empty
unfoldable pub get_connection_at :
    ConnectionPool → List Connection → Option (Connection × ConnectionPool)
get_connection_at pool [] = none
get_connection_at pool (c ∷ cs) = some (c, record pool { queue = cs })

unfoldable pub get_connection : ConnectionPool → Option (Connection × ConnectionPool)
unfolding get_connection_at
get_connection pool = get_connection_at pool pool.queue

-- The deleter of the pointer that `getConnection` hands out.
unfoldable pub give_back : (now : ℕ) → Connection → ConnectionPool → ConnectionPool
give_back now c pool = record pool { queue = pool.queue ++ (record c { idle_since = now }) ∷ [] }

-- The loop of the destructor, and the destructor.
pub destroy_loop : List Connection → ConnectionPool → ConnectionPool
destroy_loop [] pool = pool
destroy_loop (c ∷ cs) pool =
    destroy_loop cs (record pool { queue = cs; current_size = pool.current_size - 1 })

pub destroy_pool : ConnectionPool → ConnectionPool
unfolding destroy_loop
destroy_pool pool = destroy_loop pool.queue pool

-- `parseJsonFile`, for the members of the model; a number that is missing or none throws.
pub parse_json_file : (conf : Bytes → Result ℕ) → Result ConnectionPool
unfolding empty_pool
parse_json_file conf = conf (codes "minSize") >>= λ min_size. conf (codes "maxSize") >>= λ max_size.
    conf (codes "maxIdleTime") >>= λ max_idle_time. ok (empty_pool min_size max_size max_idle_time)
