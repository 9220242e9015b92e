-- ===== src/Database/Tests.antt =====
-- mysql/ConnectionPool.cc at concrete inputs.
use my_file_server.Common.{ℕ, ◌≡◌, refl, [], ◌∷◌}
use my_file_server.Database.Pool.{
  add_and_count, add_first, get_connection, get_connection_at, new_pool, empty_pool, add_connection,
  produce, recycle, recycle_loop, alive_time,
}
use my_file_server.Database.Pool.System.{System, begun, lends, produces, Reach, here, later}
use my_file_server.Database.Pool.Counting.{IsCounted, Reach-IsCounted}

abbrev time : ℕ → ℕ
time i = i

abbrev one_lent : System
one_lent = record {
  pool = record { min_size = 1; max_size = 4; max_idle_time = 10; current_size = 2; queue = [] };
  lent = record { number = 0; idle_since = 0 } ∷ [];
  created = 1;
  deleted = [];
}

one_lent-Reach : Reach (begun time 1 4 10) one_lent
unfolding new_pool empty_pool add_first add_and_count add_connection get_connection
    get_connection_at
one_lent-Reach = later here (lends (record { number = 0; idle_since = 0 }) one_lent.pool refl)

abbrev two_now : System
two_now = record {
  pool = record {
    min_size = 1;
    max_size = 4;
    max_idle_time = 10;
    current_size = 4;
    queue = record { number = 1; idle_since = 7 } ∷ [];
  };
  lent = record { number = 0; idle_since = 0 } ∷ [];
  created = 2;
  deleted = [];
}

two_now-Reach : Reach (begun time 1 4 10) two_now
unfolding produce add_and_count add_connection
two_now-Reach = later one_lent-Reach (produces 7 refl)

Reach-IsCounted_example : IsCounted 1 4 two_now
Reach-IsCounted_example = Reach-IsCounted time 1 4 10 two_now-Reach

-- Four connections are allowed, and there are two.
full_at_two : (now : ℕ) → produce 2 now two_now.pool ≡ two_now.pool
unfolding produce
full_at_two now = refl

idle_pool :
    recycle 10000009 (record two_now.pool {
      queue = record { number = 0; idle_since = 9 } ∷ record { number = 1; idle_since = 7 } ∷ [];
    })
    ≡ record two_now.pool { current_size = 3 }
unfolding recycle recycle_loop alive_time
idle_pool = refl
