-- ===== src/Tcp/Server.antt =====
-- net/TcpServer.h, net/TcpServer.cc and net/Acceptor.cc: accepting connections and the map that owns
-- them. A loop is its address; what is handed to loops by `runInLoop` and `queueInLoop` is a list, in
-- order. The callbacks that a connection is given and the addresses but the server's are left out.
pub mod Naming
pub mod Listing
pub mod Owning
use my_file_server.Common.{
  ℕ, suc, ◌+◌, Bool, true, false, List, [], ◌∷◌, ◌++◌, Bytes, take, equal, ltb, ◌==◌, if◌then◌else◌,
  decimal, int_limit, Option, none, some, Result, ok, err, ◌>>=◌, int_overflow,
}
use my_file_server.Tcp.LoopPool.{
  LoopPool, get_next_loop, new_pool, set_thread_num as set_pool_size, start as start_pool,
}
use my_file_server.Tcp.Poller.{
  Channel, new_channel, Operation, enable_reading, disable_all, remove, apply,
}

-- What the server knows of a connection. The number is the value of `nextConnId_` it was made at.
pub record ServerConnection : Type 0 where
  pub number : ℕ
  pub name : Bytes
  pub fd : ℕ
  pub loop : ℕ

-- `Acceptor`: whether it listens, and its channel
pub record Acceptor : Type 0 where
  pub listening : Bool
  pub channel : Channel

pub data Functor : Type 0 where
  listen_task : Functor
  establish_task remove_task destroy_task : ServerConnection → Functor

pub record TcpServer : Type 0 where
  pub loop : ℕ
  pub ip_port : Bytes
  pub name : Bytes
  pub acceptor : Acceptor
  pub thread_pool : LoopPool
  pub started : ℕ
  pub next_conn_id : ℕ
  pub connections : List (Bytes × ServerConnection)
  -- the loops and what they were handed
  pub handed : List (ℕ × Functor)

unfoldable pub new_server : (loop : ℕ) (ip_port name : Bytes) → TcpServer
new_server loop ip_port name = record {
  loop = loop;
  ip_port = ip_port;
  name = name;
  acceptor = record { listening = false; channel = new_channel };
  thread_pool = new_pool loop;
  started = 0;
  next_conn_id = 1;
  connections = [];
  handed = [];
}

unfoldable pub hand : (loop : ℕ) → Functor → TcpServer → TcpServer
hand loop f s = record s { handed = s.handed ++ (loop, f) ∷ [] }

-- `setThreadNum`, for a number that is not negative
unfoldable pub set_thread_num : ℕ → TcpServer → TcpServer
set_thread_num n s = record s { thread_pool = set_pool_size n s.thread_pool }

-- `start`, called fewer than 2 ^ 31 times.
unfoldable pub start : (start_loop : ℕ → ℕ) (has_callback : Bool) → TcpServer → TcpServer
unfolding hand
start start_loop has_callback s =
    let counted : TcpServer = record s { started = s.started + 1 } in
    let pool = (start_pool start_loop has_callback s.thread_pool).1 in
    if s.started == 0
    then hand s.loop listen_task (record counted { thread_pool = pool })
    else counted

-- `Acceptor::listen`
unfoldable pub listen : Acceptor → Acceptor
listen a = record { listening = true; channel = apply enable_reading a.channel }

-- `Acceptor::~Acceptor`, for the channel
unfoldable pub closed : Acceptor → Acceptor
closed a = record a { channel = apply remove (apply disable_all a.channel) }

-- `buf` of 64 bytes, as `snprintf("-%s#%d")` leaves it
unfoldable pub id_text : (ip_port : Bytes) (id : ℕ) → Bytes
id_text ip_port id = take 63 (b'-' ∷ ip_port ++ b'#' ∷ decimal id)

unfoldable pub connection_name : (name ip_port : Bytes) (id : ℕ) → Bytes
unfolding id_text
connection_name name ip_port id = name ++ id_text ip_port id

module _ {ℓ} {V : Type ℓ} where
  -- `connections_[key] = value`
  unfoldable pub set_entry : Bytes → V → List (Bytes × V) → List (Bytes × V)
  set_entry key value [] = (key, value) ∷ []
  set_entry key value ((k, v) ∷ rest) =
      let later = set_entry key value rest in
      if equal k key then (k, value) ∷ rest else (k, v) ∷ later

  -- `connections_.erase(key)`
  unfoldable pub erase : Bytes → List (Bytes × V) → List (Bytes × V)
  erase key [] = []
  erase key ((k, v) ∷ rest) =
      let later = erase key rest in if equal k key then rest else (k, v) ∷ later

-- The connection that `newConnection` makes for a loop.
unfoldable pub made_for : (fd loop : ℕ) → TcpServer → ServerConnection
unfolding connection_name
made_for fd loop s = record {
  number = s.next_conn_id;
  name = connection_name s.name s.ip_port s.next_conn_id;
  fd = fd;
  loop = loop;
}

-- What `newConnection` does when it has chosen a loop.
unfoldable pub add_made : (pool : LoopPool) → ServerConnection → TcpServer → TcpServer
unfolding hand set_entry
add_made pool c s = hand c.loop (establish_task c) (record s {
  thread_pool = pool;
  next_conn_id = s.next_conn_id + 1;
  connections = set_entry c.name c s.connections;
})

-- `newConnection`: the connection that it makes, and the server
unfoldable pub new_connection : (fd : ℕ) → TcpServer → Result (ServerConnection × TcpServer)
unfolding made_for add_made
new_connection fd s = get_next_loop s.thread_pool >>= λ chosen.
    if ltb (s.next_conn_id + 1) int_limit
    then ok (made_for fd chosen.0 s, add_made chosen.1 (made_for fd chosen.0 s) s)
    else err int_overflow

-- `Acceptor::handleRead` when `accept` gives a descriptor or fails; the callback is set.
unfoldable pub handle_read : (accepted : Option ℕ) → TcpServer → Result TcpServer
unfolding new_connection
handle_read none s = ok s
handle_read (some fd) s = new_connection fd s >>= λ made. ok made.1

-- `removeConnection`, the close callback of a connection
unfoldable pub remove_connection : ServerConnection → TcpServer → TcpServer
unfolding hand
remove_connection c s = hand s.loop (remove_task c) s

unfoldable pub remove_connection_in_loop : ServerConnection → TcpServer → TcpServer
unfolding hand erase
remove_connection_in_loop c s =
    hand c.loop (destroy_task c) (record s { connections = erase c.name s.connections })

-- The destructor.
unfoldable pub destroy_all : List (Bytes × ServerConnection) → TcpServer → TcpServer
unfolding hand
destroy_all [] s = s
destroy_all ((key, c) ∷ rest) s = destroy_all rest (hand c.loop (destroy_task c) s)
