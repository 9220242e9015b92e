-- ===== src/Tcp/Connection/Closing.antt =====
-- After a closed connection in net/TcpConnection.cc: calls made by any thread, and the functors that
-- were queued before and run in the loop's thread afterwards.
use my_file_server.Common.{
  ℕ, ◌≡◌, refl, sym, ap, subst, ◌∙◌, Bool, true, false, not, List, [], ◌∷◌, ◌++◌, Bytes, length,
  Result, ok, >>=-eq-ok, ◌==◌, if◌then◌else◌, append-nil,
}
use my_file_server.Buffer.{Buffer, Transferred, done, failed, read_fd}
use my_file_server.Tcp.Connection.{
  ConnectionState, disconnected, connecting, connected, disconnecting, is_connected,
  is_disconnected, Event, wrote, wrote_file, Connection, told_connection, told_close,
  removed_channel, shut_down_write, emit, emit_if, shutdown, shutdown_in_loop, send, send_in_loop,
  send_buffer, send_file, send_file_in_loop,
}
use my_file_server.Tcp.Connection.Handlers.{
  handle_read, handle_write, handle_close, connect_destroyed,
}
use my_file_server.Tcp.Connection.Writing.{handle_write_off}

-- One call. The Boolean is `isInLoopThread()`; the three functors are what `send`, `sendFile` and
-- `shutdown` of another thread have queued. The message callback only takes the bytes here: what it
-- calls are steps of their own. `connectEstablished` is no step: it runs once, in front of all others.
pub data Step (write : Bytes → Transferred ℕ) (sendfile : ℕ → ℕ → Transferred ℕ)
    : Connection → Connection → Type 0 where
  sends :
      (in_loop : Bool) (c d : Connection) (text : Bytes)
      → send in_loop write c text ≡ ok d
      → Step write sendfile c d
  sends_buffer :
      (in_loop : Bool) (c d : Connection) (buf left : Buffer)
      → send_buffer in_loop write c buf ≡ ok (d, left)
      → Step write sendfile c d
  sends_file :
      (in_loop : Bool) (c : Connection) (fd count : ℕ)
      → Step write sendfile c (send_file in_loop sendfile c fd count)
  shuts_down : (in_loop : Bool) (c : Connection) → Step write sendfile c (shutdown in_loop c)
  send_functor :
      (c d : Connection) (text : Bytes) → send_in_loop write c text ≡ ok d → Step write sendfile c d
  send_file_functor : (c : Connection) → Step write sendfile c (send_file_in_loop sendfile c)
  shutdown_functor : (c : Connection) → Step write sendfile c (shutdown_in_loop c)
  reads :
      (c d : Connection) (readv : ℕ → Transferred Bytes)
      → handle_read readv ok c ≡ ok d
      → Step write sendfile c d
  writes : (c d : Connection) → handle_write write c ≡ ok d → Step write sendfile c d
  closes : (c : Connection) → Step write sendfile c (handle_close c)
  destroys : (c : Connection) → Step write sendfile c (connect_destroyed c)

pub data Steps (write : Bytes → Transferred ℕ) (sendfile : ℕ → ℕ → Transferred ℕ)
    : Connection → Connection → Type 0 where
  stop : (c : Connection) → Steps write sendfile c c
  more :
      (b c d : Connection)
      → Steps write sendfile b c
      → Step write sendfile c d
      → Steps write sendfile b d

-- Gone, and not waiting to write.
record IsClosed (c : Connection) : Type 0 where
  gone : is_disconnected c.state ≡ true
  off : c.channel_writing ≡ false

-- What went to the socket: the bytes that `write` and `sendfile` took.
abbrev pub socket_events : List Event → List Event
socket_events [] = []
socket_events (wrote text ∷ es) = wrote text ∷ socket_events es
socket_events (wrote_file fd n ∷ es) = wrote_file fd n ∷ socket_events es
socket_events (_ ∷ es) = socket_events es

socket_events-append :
    (es fs : List Event) → socket_events (es ++ fs) ≡ socket_events es ++ socket_events fs
socket_events-append [] fs = refl
socket_events-append (wrote text ∷ es) fs = ap (◌∷◌ (wrote text)) (socket_events-append es fs)
socket_events-append (wrote_file fd n ∷ es) fs =
    ap (◌∷◌ (wrote_file fd n)) (socket_events-append es fs)
socket_events-append (_ ∷ es) fs = socket_events-append es fs

socket_events-emit_if :
    (b : Bool) (e : Event) (c : Connection)
    → socket_events (e ∷ []) ≡ []
    → socket_events (emit_if b e c).events ≡ socket_events c.events
socket_events-emit_if true e c h =
    socket_events-append c.events (e ∷ [])
    ∙ (ap (◌++◌ (socket_events c.events)) h ∙ append-nil (socket_events c.events))
socket_events-emit_if false e c h = refl

gone-is_connected : (s : ConnectionState) → is_disconnected s ≡ true → is_connected s ≡ false
gone-is_connected disconnected e = refl
gone-is_connected connecting e = refl
gone-is_connected connected e = absurd cc
gone-is_connected disconnecting e = refl

-- What a step leaves of a closed connection.
record Stays (c d : Connection) : Type 0 where
  still : IsClosed d
  same : socket_events d.events ≡ socket_events c.events

pub ok-same {ℓ} : {A : Type ℓ} {a b : A} → ok a ≡ ok b → a ≡ b
ok-same e = cc

handle_close-Stays : (c : Connection) → Stays c (handle_close c)
unfolding handle_close
handle_close-Stays c = record {
  still = record { gone = refl; off = refl };
  same =
      socket_events-emit_if true told_close (emit (told_connection disconnected) c) refl
      ∙ socket_events-emit_if true (told_connection disconnected) c refl;
}

unmoved : (c d : Connection) → c ≡ d → IsClosed c → Stays c d
unmoved c d e q = subst (Stays c) e (record { still = q; same = refl })

module _ (write : Bytes → Transferred ℕ) (c : Connection) (q : IsClosed c) where
  send-Stays :
      (in_loop : Bool) (d : Connection) (text : Bytes)
      → send in_loop write c text ≡ ok d
      → Stays c d
  unfolding send
  send-Stays in_loop d text e = unmoved c d (ok-same (sym closed ∙ e)) q
    where
      closed : send in_loop write c text ≡ ok c
      closed = rw (gone-is_connected c.state q.gone) refl

  send_buffer-Stays :
      (in_loop : Bool) (d : Connection) (buf left : Buffer)
      → send_buffer in_loop write c buf ≡ ok (d, left)
      → Stays c d
  unfolding send_buffer
  send_buffer-Stays in_loop d buf left e =
      unmoved c d (ap (λ (r : Connection × Buffer). r.0) (ok-same (sym closed ∙ e))) q
    where
      closed : send_buffer in_loop write c buf ≡ ok (c, buf)
      closed = rw (gone-is_connected c.state q.gone) refl

  send_file-Stays :
      (sendfile : ℕ → ℕ → Transferred ℕ) (in_loop : Bool) (fd count : ℕ)
      → Stays c (send_file in_loop sendfile c fd count)
  unfolding send_file
  send_file-Stays sendfile in_loop fd count = unmoved c _ closed q
    where
      closed : c ≡ send_file in_loop sendfile c fd count
      closed = rw (gone-is_connected c.state q.gone) refl

  shutdown-Stays : (in_loop : Bool) → Stays c (shutdown in_loop c)
  unfolding shutdown
  shutdown-Stays in_loop = unmoved c _ closed q
    where
      closed : c ≡ shutdown in_loop c
      closed = rw (gone-is_connected c.state q.gone) refl

  send_in_loop-Stays :
      (d : Connection) (text : Bytes) → send_in_loop write c text ≡ ok d → Stays c d
  unfolding send_in_loop
  send_in_loop-Stays d text e = unmoved c d (ok-same (sym closed ∙ e)) q
    where
      closed : send_in_loop write c text ≡ ok c
      closed = rw q.gone refl

  send_file_in_loop-Stays :
      (sendfile : ℕ → ℕ → Transferred ℕ) → Stays c (send_file_in_loop sendfile c)
  unfolding send_file_in_loop
  send_file_in_loop-Stays sendfile = unmoved c _ closed q
    where
      closed : c ≡ send_file_in_loop sendfile c
      closed = rw q.gone refl

  shutdown_in_loop-Stays : Stays c (shutdown_in_loop c)
  unfolding shutdown_in_loop
  shutdown_in_loop-Stays = record {
    still = record { gone = q.gone; off = q.off };
    same = socket_events-emit_if (not c.channel_writing) shut_down_write c refl;
  }

  handle_write-Stays : (d : Connection) → handle_write write c ≡ ok d → Stays c d
  handle_write-Stays d e = unmoved c d (ok-same (sym (handle_write_off write c q.off) ∙ e)) q

  handle_read-Stays :
      (d : Connection) (readv : ℕ → Transferred Bytes) → handle_read readv ok c ≡ ok d → Stays c d
  unfolding handle_read
  handle_read-Stays d readv e =
      let (r, _, rest) = >>=-eq-ok (read_fd readv c.input_buffer) _ e in go r.0 r.1 rest
    where
      received_by : Buffer → Connection
      received_by b = record c { input_buffer = b }

      kept : (b : Buffer) → Stays c (received_by b)
      kept b = record { still = record { gone = q.gone; off = q.off }; same = refl }

      pick :
          (b : Buffer) (nothing : Bool)
          → ◌≡◌ {A = Result Connection}
              (if nothing then ok (handle_close (received_by b)) else ok (received_by b))
              (ok d)
          → Stays c d
      pick b true f =
          let s = handle_close-Stays (received_by b) in
          subst (Stays c) (ok-same f) (record { still = s.still; same = s.same })
      pick b false f = subst (Stays c) (ok-same f) (kept b)

      go :
          (b : Buffer) (r : Transferred Bytes)
          → ◌≡◌ {A = Result Connection}
              (elim r [
                | failed errno ↦ ok (received_by b)
                | done got ↦
                    if length got == 0
                    then ok (handle_close (received_by b))
                    else ok (received_by b)
              ])
              (ok d)
          → Stays c d
      go b (failed errno) f = subst (Stays c) (ok-same f) (kept b)
      go b (done got) f = pick b (length got == 0) f

  connect_destroyed-Stays : Stays c (connect_destroyed c)
  unfolding connect_destroyed
  connect_destroyed-Stays = rw (gone-is_connected c.state q.gone) (record {
    still = record { gone = q.gone; off = q.off };
    same = socket_events-emit_if true removed_channel c refl;
  })

Step-Stays :
    (write : Bytes → Transferred ℕ) (sendfile : ℕ → ℕ → Transferred ℕ) (c d : Connection)
    → Step write sendfile c d
    → IsClosed c
    → Stays c d
Step-Stays write sendfile _ _ (sends in_loop c d text e) q = send-Stays write c q in_loop d text e
Step-Stays write sendfile _ _ (sends_buffer in_loop c d buf left e) q =
    send_buffer-Stays write c q in_loop d buf left e
Step-Stays write sendfile _ _ (sends_file in_loop c fd count) q =
    send_file-Stays write c q sendfile in_loop fd count
Step-Stays write sendfile _ _ (shuts_down in_loop c) q = shutdown-Stays write c q in_loop
Step-Stays write sendfile _ _ (send_functor c d text e) q = send_in_loop-Stays write c q d text e
Step-Stays write sendfile _ _ (send_file_functor c) q = send_file_in_loop-Stays write c q sendfile
Step-Stays write sendfile _ _ (shutdown_functor c) q = shutdown_in_loop-Stays write c q
Step-Stays write sendfile _ _ (reads c d readv e) q = handle_read-Stays write c q d readv e
Step-Stays write sendfile _ _ (writes c d e) q = handle_write-Stays write c q d e
Step-Stays write sendfile _ _ (closes c) q = handle_close-Stays c
Step-Stays write sendfile _ _ (destroys c) q = connect_destroyed-Stays write c q

Steps-Stays :
    (write : Bytes → Transferred ℕ) (sendfile : ℕ → ℕ → Transferred ℕ) (c d : Connection)
    → Steps write sendfile c d
    → IsClosed c
    → Stays c d
Steps-Stays write sendfile _ _ (stop c) q = record { still = q; same = refl }
Steps-Stays write sendfile _ _ (more b c d before last) q =
    let r = Steps-Stays write sendfile b c before q in
    let s = Step-Stays write sendfile c d last r.still in
    record { still = s.still; same = s.same ∙ r.same }

-- Once `handleClose` has run, the connection stays disconnected and is not registered for writing, and
-- neither a byte nor a part of a file is put on its socket any more: not by the calls of any thread,
-- and not by the functors that were queued while it was up.
pub handle_close-Steps :
    (write : Bytes → Transferred ℕ) (sendfile : ℕ → ℕ → Transferred ℕ) (c d : Connection)
    → Steps write sendfile (handle_close c) d
    → (is_disconnected d.state ≡ true)
      × (d.channel_writing ≡ false)
      × (socket_events d.events ≡ socket_events c.events)
handle_close-Steps write sendfile c d steps =
    let start = handle_close-Stays c in
    let r = Steps-Stays write sendfile (handle_close c) d steps start.still in
    (r.still.gone, r.still.off, r.same ∙ start.same)
