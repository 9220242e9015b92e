-- ===== src/Database/Pool/System.antt =====
-- mysql/ConnectionPool.cc: the threads of the pool and those that borrow connections, interleaved.
use my_file_server.Common.{take, ℕ, ◌+◌, ◌≡◌, ltb, List, [], ◌∷◌, ◌++◌, if◌then◌else◌, some}
use my_file_server.Database.Pool.{
  Connection, ConnectionPool, new_pool, produce, recycle_loop, recycle, get_connection, give_back,
}

-- The pool, the connections that are lent and those that were deleted, and how many were created.
pub record System : Type 0 where
  pub pool : ConnectionPool
  pub lent : List Connection
  pub created : ℕ
  pub deleted : List Connection

abbrev pub begun : (time : ℕ → ℕ) (min_size max_size max_idle_time : ℕ) → System
begun time min_size max_size max_idle_time = record {
  pool = new_pool time min_size max_size max_idle_time;
  lent = [];
  created = min_size;
  deleted = [];
}

-- A step under the lock. New connections are numbered.
pub data Step (s : System) : System → Type 0 where
  produces :
      (now : ℕ)
      → s.pool.queue ≡ []
      → Step s (record s {
        pool = produce s.created now s.pool;
        created = if ltb s.pool.current_size s.pool.max_size then s.created + 1 else s.created;
      })
  recycles :
      (now : ℕ)
      → Step s (record s {
        pool = recycle now s.pool;
        deleted =
            s.deleted
            ++ take
                (recycle_loop now s.pool.min_size s.pool.max_idle_time s.pool.queue).0
                s.pool.queue;
      })
  lends :
      (c : Connection) (pool : ConnectionPool)
      → get_connection s.pool ≡ some (c, pool)
      → Step s (record s { pool = pool; lent = c ∷ s.lent })
  takes_back :
      (now : ℕ) (c : Connection) (before behind : List Connection)
      → s.lent ≡ before ++ c ∷ behind
      → Step s (record s { pool = give_back now c s.pool; lent = before ++ behind })

pub data Reach (start : System) : System → Type 0 where
  here : Reach start start
  later : {s t : System} → Reach start s → Step s t → Reach start t
