-- ===== src/Tcp/Server/Owning.antt =====
-- net/TcpServer.cc: the map of the server and its connections, in every state that is reached.
use my_file_server.Common.{
  ℕ, ◌+◌, ◌≤◌, ◌<◌, ◌≡◌, refl, sym, ap, subst, ◌∙◌, arith, Bool, true, false, List, [], ◌∷◌, ◌++◌,
  map, Bytes, length, if◌then◌else◌, ltb, ltb→lt, lt→ltb, int_limit, int_overflow, Fault, ok, err,
}
use my_file_server.Tcp.LoopPool.{LoopPool, get_next_loop}
use my_file_server.Tcp.LoopPool.Ready.{IsReady, get_next_loop-IsReady, started-IsReady}
use my_file_server.Tcp.Server.{
  ServerConnection, establish_task, TcpServer, new_server, set_thread_num, start, hand,
  connection_name, set_entry, erase, made_for, add_made, new_connection, remove_connection,
  remove_connection_in_loop,
}
use my_file_server.Tcp.Server.Listing.{
  System, begun, Step, accepts, closes, removes, Reach, here, later, entry, AllMade, AllMade-append,
  AllMade-suc, AllMade-member, AllMade-without, set_entry_lem, erase_lem,
}

map-entry-append :
    (cs : List ServerConnection) (c : ServerConnection)
    → map entry (cs ++ c ∷ []) ≡ map entry cs ++ entry c ∷ []
map-entry-append [] c = refl
map-entry-append (d ∷ cs) c = ap (entry d ∷◌) (map-entry-append cs c)

-- A chain that ends in a test and returned has passed the test.
if_ok {ℓ} :
    {A : Type ℓ} (test : Bool) (x y : A) (fault : Fault)
    → (if test then ok x else err fault) ≡ ok y
    → (test ≡ true) × (x ≡ y)
if_ok true x y fault e = (refl, cc)
if_ok false x y fault e = absurd cc

module _ (name ip_port : Bytes) where
  -- What holds of every state that is reached.
  record IsOwning (s : System) : Type 0 where
    listed : s.server.connections ≡ map entry s.living
    made : AllMade name ip_port s.server.next_conn_id s.made
    living : AllMade name ip_port s.server.next_conn_id s.living
    closing : AllMade name ip_port s.server.next_conn_id s.closing
    small : s.server.next_conn_id < int_limit
    named : s.server.name ≡ name
    addressed : s.server.ip_port ≡ ip_port
    ready : IsReady s.server.thread_pool

  new_connection_lem :
      (fd loop : ℕ) (pool : LoopPool) (s : TcpServer)
      → get_next_loop s.thread_pool ≡ ok (loop, pool)
      → new_connection fd s ≡ (
          if ltb (s.next_conn_id + 1) int_limit
          then ok (made_for fd loop s, add_made pool (made_for fd loop s) s)
          else err int_overflow)
  unfolding new_connection
  new_connection_lem fd loop pool s e = rw e refl

  -- What a call of newConnection that returned has done.
  record HasMade (s : TcpServer) (c : ServerConnection) (t : TcpServer) : Type 0 where
    pool : LoopPool
    room : s.next_conn_id + 1 < int_limit
    ready : IsReady pool
    server : t ≡ add_made pool c s
    number : c.number ≡ s.next_conn_id
    own_name : c.name ≡ connection_name s.name s.ip_port c.number

  new_connection-HasMade :
      (fd : ℕ) (s t : TcpServer) (c : ServerConnection)
      → IsReady s.thread_pool
      → new_connection fd s ≡ ok (c, t)
      → HasMade s c t
  unfolding made_for
  new_connection-HasMade fd s t c h e =
      let (loop, pool, got, ready) = get_next_loop-IsReady s.thread_pool h in
      let (room, same) =
        if_ok (ltb (s.next_conn_id + 1) int_limit) _ _ int_overflow
          (sym (new_connection_lem fd loop pool s got) ∙ e) in
      let made = ap (λ (r : ServerConnection × TcpServer). r.0) same in
      record {
        pool = pool;
        room = ltb→lt _ _ room;
        ready = ready;
        server =
            sym (ap (λ (r : ServerConnection × TcpServer). r.1) same)
            ∙ ap (λ (d : ServerConnection). add_made pool d s) made;
        number = sym (ap (λ (d : ServerConnection). d.number) made);
        own_name =
            ap (λ (d : ServerConnection). d.name) (sym made)
            ∙ ap (connection_name s.name s.ip_port) (ap (λ (d : ServerConnection). d.number) made);
      }

  module _ (short : length ip_port ≤ 51) where
    accepted-IsOwning :
        (s : System) (c : ServerConnection) (t : TcpServer)
        → HasMade s.server c t
        → IsOwning s
        → IsOwning (record s { server = t; made = s.made ++ c ∷ []; living = s.living ++ c ∷ [] })
    unfolding add_made hand
    accepted-IsOwning s c t h i =
        let named : c.name ≡ connection_name name ip_port c.number =
          h.own_name
          ∙ ap (λ (n : Bytes). connection_name n s.server.ip_port c.number) i.named
          ∙ ap (λ (a : Bytes). connection_name name a c.number) i.addressed in
        let new : AllMade name ip_port (s.server.next_conn_id + 1) (c ∷ []) =
          (record { named = named; earlier = omega (arith, h.number) }, tt) in
        let all : (cs : List ServerConnection)
            → AllMade name ip_port s.server.next_conn_id cs
            → AllMade name ip_port (s.server.next_conn_id + 1) (cs ++ c ∷ []) =
          λ cs a. AllMade-append name ip_port _ cs (c ∷ []) (AllMade-suc name ip_port _ cs a) new in
        subst
          (λ (u : TcpServer).
            IsOwning
              (record s { server = u; made = s.made ++ c ∷ []; living = s.living ++ c ∷ [] }))
          (sym h.server)
          (record {
            listed =
                ap (set_entry c.name c) i.listed
                ∙ set_entry_lem name ip_port short s.server.next_conn_id c s.living i.living i.small
                    h.number named;
            made = all s.made i.made;
            living = all s.living i.living;
            closing = AllMade-suc name ip_port _ s.closing i.closing;
            small = h.room;
            named = i.named;
            addressed = i.addressed;
            ready = h.ready;
          })

    Step-IsOwning : {s t : System} → Step s t → IsOwning s → IsOwning t
    unfolding remove_connection remove_connection_in_loop hand
    Step-IsOwning {s} (accepts fd c server e) i =
        accepted-IsOwning s c server (new_connection-HasMade fd s.server server c i.ready e) i
    Step-IsOwning {s} (closes c before behind e) i =
        let is_made =
          AllMade-member name ip_port _ c before behind
            (subst (AllMade name ip_port s.server.next_conn_id) e i.made) in
        record {
          listed = i.listed;
          made = i.made;
          living = i.living;
          closing = AllMade-append name ip_port _ s.closing (c ∷ []) i.closing (is_made, tt);
          small = i.small;
          named = i.named;
          addressed = i.addressed;
          ready = i.ready;
        }
    Step-IsOwning {s} (removes c rest e) i =
        let closing = subst (AllMade name ip_port s.server.next_conn_id) e i.closing in
        record {
          listed =
              ap (erase c.name) i.listed
              ∙ erase_lem name ip_port short s.server.next_conn_id c s.living i.living closing.0
                  (omega (arith, i.small));
          made = i.made;
          living = AllMade-without name ip_port _ c.number s.living i.living;
          closing = closing.1;
          small = i.small;
          named = i.named;
          addressed = i.addressed;
          ready = i.ready;
        }

    Reach-IsOwning :
        (start_loop : ℕ → ℕ) (has_callback : Bool) (loop threads : ℕ) {s : System}
        → Reach (begun start_loop has_callback loop threads ip_port name) s
        → IsOwning s
    unfolding begun start set_thread_num new_server hand
    Reach-IsOwning start_loop has_callback loop threads here = record {
      listed = refl;
      made = tt;
      living = tt;
      closing = tt;
      small = omega arith;
      named = refl;
      addressed = refl;
      ready = started-IsReady start_loop has_callback loop threads;
    }
    Reach-IsOwning start_loop has_callback loop threads (later r st) =
        Step-IsOwning st (Reach-IsOwning start_loop has_callback loop threads r)

-- In every state that accepting, closing and removing connections in any order reach, the map of the
-- server holds under their names exactly the connections that were made and not removed, in their
-- order, when the server's address is written in 51 bytes at most.
pub Reach-connections :
    (start_loop : ℕ → ℕ) (has_callback : Bool) (loop threads : ℕ) (ip_port name : Bytes)
    → length ip_port ≤ 51
    → {s : System} → Reach (begun start_loop has_callback loop threads ip_port name) s
    → s.server.connections ≡ map entry s.living
Reach-connections start_loop has_callback loop threads ip_port name short r =
    (Reach-IsOwning name ip_port short start_loop has_callback loop threads r).listed

-- In every state that accepting, closing and removing connections in any order reach,
-- newConnection returns while its number stays below 2 ^ 31 and the server's address is written in
-- 51 bytes at most: the connection is put behind those of the map, and its loop is handed the task
-- to establish it.
pub new_connection-connections :
    (start_loop : ℕ → ℕ) (has_callback : Bool) (loop threads : ℕ) (ip_port name : Bytes)
    → length ip_port ≤ 51
    → {s : System} → Reach (begun start_loop has_callback loop threads ip_port name) s
    → s.server.next_conn_id + 1 < int_limit
    → (fd : ℕ)
    → (c : ServerConnection) × (t : TcpServer) × (new_connection fd s.server ≡ ok (c, t))
      × (c.fd ≡ fd)
      × (t.connections ≡ s.server.connections ++ entry c ∷ [])
      × (t.handed ≡ s.server.handed ++ (c.loop, establish_task c) ∷ [])
unfolding made_for add_made hand
new_connection-connections start_loop has_callback loop threads ip_port name short {s} r room fd =
    let i = Reach-IsOwning name ip_port short start_loop has_callback loop threads r in
    let (chosen, pool, got, ready) = get_next_loop-IsReady s.server.thread_pool i.ready in
    let runs : new_connection fd s.server
        ≡ ok (made_for fd chosen s.server, add_made pool (made_for fd chosen s.server) s.server) =
      new_connection_lem name ip_port fd chosen pool s.server got ∙ rw (lt→ltb _ _ room) refl in
    let after =
      Reach-IsOwning name ip_port short start_loop has_callback loop threads
        (later r (accepts fd _ _ runs)) in
    (
      made_for fd chosen s.server,
      add_made pool (made_for fd chosen s.server) s.server,
      runs,
      refl,
      after.listed
          ∙ map-entry-append s.living _
          ∙ ap (◌++ entry (made_for fd chosen s.server) ∷ []) (sym i.listed),
      refl,
    )
