-- ===== src/Tcp/Server/Listing.antt =====
-- net/TcpServer.cc: which connections the server owns, whatever comes and goes.
use my_file_server.Common.{
  ℕ, suc, ◌+◌, ◌≤◌, ◌<◌, ◌≡◌, refl, sym, ap, ◌∙◌, arith, inl, inr, Bool, false, List, [], ◌∷◌, ◌++◌,
  map, Bytes, length, if◌then◌else◌, ◌==◌, Bool-cases, equal, equal_iff, int_limit, ok,
}
use my_file_server.Tcp.Server.{
  ServerConnection, TcpServer, new_server, set_thread_num, start, connection_name, set_entry, erase,
  new_connection, remove_connection, remove_connection_in_loop,
}
use my_file_server.Tcp.Server.Naming.{connection_name_injective}

-- The server, the connections that were made, those that live on, and those whose removal waits in
-- the server's loop.
pub record System : Type 0 where
  pub server : TcpServer
  pub made : List ServerConnection
  pub living : List ServerConnection
  pub closing : List ServerConnection

-- What lives on when the connection of that number has gone.
unfoldable pub without : (number : ℕ) → List ServerConnection → List ServerConnection
without number [] = []
without number (c ∷ cs) =
    let later = without number cs in if c.number == number then cs else c ∷ later

unfoldable pub begun :
    (start_loop : ℕ → ℕ) (has_callback : Bool) (loop threads : ℕ) (ip_port name : Bytes) → System
begun start_loop has_callback loop threads ip_port name = record {
  server = start start_loop has_callback (set_thread_num threads (new_server loop ip_port name));
  made = [];
  living = [];
  closing = [];
}

-- A step in the server's loop, or the close callback of a connection in its own.
pub data Step (s : System) : System → Type 0 where
  accepts :
      (fd : ℕ) (c : ServerConnection) (server : TcpServer)
      → new_connection fd s.server ≡ ok (c, server)
      → Step s (record s { server = server; made = s.made ++ c ∷ []; living = s.living ++ c ∷ [] })
  closes :
      (c : ServerConnection) (before behind : List ServerConnection)
      → s.made ≡ before ++ c ∷ behind
      → Step s (record s { server = remove_connection c s.server; closing = s.closing ++ c ∷ [] })
  removes :
      (c : ServerConnection) (rest : List ServerConnection)
      → s.closing ≡ c ∷ rest
      → Step s (record s {
        server = remove_connection_in_loop c s.server;
        living = without c.number s.living;
        closing = rest;
      })

pub data Reach (first : System) : System → Type 0 where
  here : Reach first first
  later : {s t : System} → Reach first s → Step s t → Reach first t

abbrev pub entry : ServerConnection → Bytes × ServerConnection
entry c = (c.name, c)

module _ (name ip_port : Bytes) where
  -- A connection that was made before the number given.
  pub record IsMade (next : ℕ) (c : ServerConnection) : Type 0 where
    pub named : c.name ≡ connection_name name ip_port c.number
    pub earlier : c.number < next

  abbrev pub AllMade : ℕ → List ServerConnection → Type 0
  AllMade next [] = Unit {0}
  AllMade next (c ∷ cs) = IsMade next c × AllMade next cs

  pub AllMade-append :
      (next : ℕ) (cs ds : List ServerConnection)
      → AllMade next cs
      → AllMade next ds
      → AllMade next (cs ++ ds)
  AllMade-append next [] ds h k = k
  AllMade-append next (c ∷ cs) ds h k = (h.0, AllMade-append next cs ds h.1 k)

  pub AllMade-suc :
      (next : ℕ) (cs : List ServerConnection) → AllMade next cs → AllMade (next + 1) cs
  AllMade-suc next [] h = tt
  AllMade-suc next (c ∷ cs) h =
      (record { named = h.0.named; earlier = omega (arith, h.0.earlier) }, AllMade-suc next cs h.1)

  pub AllMade-member :
      (next : ℕ) (c : ServerConnection) (cs ds : List ServerConnection)
      → AllMade next (cs ++ c ∷ ds)
      → IsMade next c
  AllMade-member next c [] ds h = h.0
  AllMade-member next c (d ∷ cs) ds h = AllMade-member next c cs ds h.1

  pub AllMade-without :
      (next number : ℕ) (cs : List ServerConnection)
      → AllMade next cs
      → AllMade next (without number cs)
  unfolding without
  AllMade-without next number [] h = tt
  AllMade-without next number (c ∷ cs) h = elim (Bool-cases (c.number == number)) [
    | inl same ↦ rw same h.1
    | inr other ↦ rw other (h.0, AllMade-without next number cs h.1)
  ]

  module _ (short : length ip_port ≤ 51) where
    -- Names tell connections apart as their numbers do.
    names_lem :
        (n m : ℕ) (c d : ServerConnection)
        → IsMade n c
        → IsMade m d
        → n ≤ int_limit
        → m ≤ int_limit
        → equal c.name d.name ≡ (c.number == d.number)
    names_lem n m c d hc hd hn hm =
        let number : c.name ≡ d.name → c.number ≡ d.number = λ e.
          connection_name_injective name ip_port c.number d.number short (omega (arith, hc.earlier))
            (omega (arith, hd.earlier)) (sym hc.named ∙ e ∙ hd.named) in
        let same : c.number ≡ d.number → c.name ≡ d.name =
          λ e. hc.named ∙ ap (connection_name name ip_port) e ∙ sym hd.named in
        ground (arith, equal_iff c.name d.name, number, same)

    pub set_entry_lem :
        (n : ℕ) (c : ServerConnection) (cs : List ServerConnection)
        → AllMade n cs
        → n < int_limit
        → c.number ≡ n
        → c.name ≡ connection_name name ip_port c.number
        → set_entry c.name c (map entry cs) ≡ map entry (cs ++ c ∷ [])
    unfolding set_entry
    set_entry_lem n c [] h small e k = refl
    set_entry_lem n c (d ∷ cs) h small e k =
        let other : equal d.name c.name ≡ false =
          names_lem n (suc n) d c h.0 (record { named = k; earlier = omega arith }) (omega arith)
            (omega arith)
          ∙ ground (arith, h.0.earlier) in
        rw other (ap (entry d ∷◌) (set_entry_lem n c cs h.1 small e k))

    pub erase_lem :
        (n : ℕ) (c : ServerConnection) (cs : List ServerConnection)
        → AllMade n cs
        → IsMade n c
        → n ≤ int_limit
        → erase c.name (map entry cs) ≡ map entry (without c.number cs)
    unfolding erase without
    erase_lem n c [] h k small = refl
    erase_lem n c (d ∷ cs) h k small =
        let same = names_lem n n d c h.0 k small small in
        elim (Bool-cases (d.number == c.number)) [
          | inl is_it ↦ rw (same, is_it) refl
          | inr other ↦ rw (same, other) (ap (entry d ∷◌) (erase_lem n c cs h.1 k small))
        ]
