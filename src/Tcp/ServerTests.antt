-- ===== src/Tcp/ServerTests.antt =====
-- net/TcpServer.cc at concrete inputs.
use my_file_server.Common.{
  ℕ, ◌+◌, ◌≡◌, refl, arith, false, [], ◌∷◌, ◌++◌, Bytes, map, codes, decimal, decimal_fuel, ok,
  equal,
}
use my_file_server.Tcp.LoopPool.{
  get_next_loop, next_of, following, start as start_pool, start_loops, new_pool,
  set_thread_num as set_pool_size,
}
use my_file_server.Tcp.Server.{
  ServerConnection, establish_task, TcpServer, new_server, set_thread_num, start, hand, id_text,
  connection_name, set_entry, made_for, add_made, new_connection, remove_connection,
  remove_connection_in_loop,
}
use my_file_server.Tcp.Server.Listing.{
  System, without, begun, accepts, closes, removes, Reach, here, later, entry,
}
use my_file_server.Tcp.Server.Owning.{Reach-connections, new_connection-connections}

abbrev address : Bytes
address = codes "10.0.0.1:80"

abbrev own_name : Bytes
own_name = codes "files"

abbrev loop_at : ℕ → ℕ
loop_at i = 100 + i

abbrev first : ServerConnection
first = record { number = 1; name = codes "files-10.0.0.1:80#1"; fd = 7; loop = 100 }

abbrev second : ServerConnection
second = record { number = 2; name = codes "files-10.0.0.1:80#2"; fd = 8; loop = 101 }

abbrev at_start : System
at_start = begun loop_at false 1 2 address own_name

abbrev server_1 : TcpServer
server_1 = record at_start.server {
  thread_pool = record at_start.server.thread_pool { next = 1 };
  next_conn_id = 2;
  connections = entry first ∷ [];
  handed = at_start.server.handed ++ (100, establish_task first) ∷ [];
}

abbrev server_2 : TcpServer
server_2 = record server_1 {
  thread_pool = record at_start.server.thread_pool { next = 0 };
  next_conn_id = 3;
  connections = entry first ∷ entry second ∷ [];
  handed = server_1.handed ++ (101, establish_task second) ∷ [];
}

runs_1 : new_connection 7 at_start.server ≡ ok (first, server_1)
unfolding new_connection get_next_loop next_of following begun start set_thread_num new_server hand
    start_pool start_loops new_pool set_pool_size made_for add_made connection_name id_text
    set_entry decimal decimal_fuel
runs_1 = refl

runs_2 : new_connection 8 server_1 ≡ ok (second, server_2)
unfolding new_connection get_next_loop next_of following begun start set_thread_num new_server hand
    start_pool start_loops new_pool set_pool_size made_for add_made connection_name id_text
    set_entry decimal decimal_fuel equal
runs_2 = refl

abbrev two_living : System
two_living = record {
  server = server_2;
  made = first ∷ second ∷ [];
  living = first ∷ second ∷ [];
  closing = [];
}

two_living-Reach : Reach at_start two_living
unfolding begun
two_living-Reach =
    later (later here (accepts 7 first server_1 runs_1)) (accepts 8 second server_2 runs_2)

abbrev one_gone : System
one_gone = record {
  server = remove_connection_in_loop first (remove_connection first server_2);
  made = first ∷ second ∷ [];
  living = second ∷ [];
  closing = [];
}

one_gone-Reach : Reach at_start one_gone
unfolding without
one_gone-Reach =
    later (later two_living-Reach (closes first [] (second ∷ []) refl)) (removes first [] refl)

Reach-connections_example : one_gone.server.connections ≡ map entry (second ∷ [])
Reach-connections_example =
    Reach-connections loop_at false 1 2 address own_name (omega arith) one_gone-Reach

new_connection-connections_example :
    (c : ServerConnection) × (t : TcpServer) × (new_connection 9 server_2 ≡ ok (c, t))
    × (c.fd ≡ 9)
    × (t.connections ≡ server_2.connections ++ entry c ∷ [])
    × (t.handed ≡ server_2.handed ++ (c.loop, establish_task c) ∷ [])
new_connection-connections_example =
    new_connection-connections loop_at false 1 2 address own_name (omega arith) two_living-Reach
      (omega arith) 9
