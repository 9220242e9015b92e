-- ===== src/Tcp/Connection/Shutdown.antt =====
-- `shutdown` of net/TcpConnection.cc, with and without bytes that wait.
use my_file_server.Common.{
  ℕ, ◌≡◌, ◌≢◌, refl, sym, ap, subst, ◌∙◌, Bool, true, false, not, append-nil, [], ◌++◌, Bytes,
  length, ok, if◌then◌else◌,
}
use my_file_server.Buffer.{Transferred, done}
use my_file_server.Buffer.Content.{content}
use my_file_server.Tcp.Connection.{
  connected, disconnecting, is_connected, Connection, shut_down_write, emit, emit_if,
  shutdown_in_loop, shutdown,
}
use my_file_server.Tcp.Connection.Handlers.{handle_write}
use my_file_server.Tcp.Connection.Stream.{delivered, delivered-emit_if, stream, IsSound}
use my_file_server.Tcp.Connection.Writing.{Ends, handle_write-drains}

-- `shutdown` of a connection that is up.
shutdown_cases :
    (c : Connection) (waits : Bool)
    → c.state ≡ connected
    → c.channel_writing ≡ waits
    → shutdown true c ≡ emit_if (not waits) shut_down_write (record c { state = disconnecting })
unfolding shutdown shutdown_in_loop
shutdown_cases c waits up e =
    let later = record c { state = disconnecting } in
    ap (λ (b : Bool). if b then shutdown_in_loop later else c) (ap is_connected up)
    ∙ ap (λ (b : Bool). emit_if (not b) shut_down_write later) e

pub shutdown-stream :
    (c : Connection)
    → c.state ≡ connected
    → (stream (shutdown true c) ≡ stream c) × ((shutdown true c).state ≡ disconnecting)
shutdown-stream c up =
    let e = shutdown_cases c c.channel_writing up refl in
    (
      ap stream e
          ∙ ap (λ (xs : Bytes). xs ++ content c.output_buffer)
              (delivered-emit_if (not c.channel_writing) shut_down_write c refl),
      ap (λ (d : Connection). d.state) e,
    )

-- `shutdown` while bytes wait: the socket is closed for writing only when they are out, by the
-- `handleWrite` that takes the last of them.
pub shutdown-handle_write :
    (write : Bytes → Transferred ℕ) (c : Connection)
    → IsSound c
    → c.state ≡ connected
    → c.channel_writing ≡ true
    → content c.output_buffer ≢ []
    → write (content c.output_buffer) ≡ done (length (content c.output_buffer))
    → (d : Connection) × ((shutdown true c).events ≡ c.events)
      × (handle_write write (shutdown true c) ≡ ok d)
      × (delivered d.events ≡ stream c)
      × Ends shut_down_write d.events
shutdown-handle_write write c s up on some_left all =
    let later = record c { state = disconnecting } in
    let (d, e, sent, _, off, ends) =
      handle_write-drains write later (record { valid = s.valid; armed = s.armed }) on some_left
        all in
    let put_off : shutdown true c ≡ later = shutdown_cases c true up on in
    (
      d,
      ap (λ (x : Connection). x.events) put_off,
      ap (handle_write write) put_off ∙ e,
      sent,
      ends refl,
    )

-- `shutdown` with nothing to write: the socket is closed for writing at once.
shutdown-idle :
    (c : Connection)
    → IsSound c
    → c.state ≡ connected
    → c.channel_writing ≡ false
    → (delivered (shutdown true c).events ≡ stream c)
      × Ends shut_down_write (shutdown true c).events
      × ((shutdown true c).channel_writing ≡ false)
shutdown-idle c s up off =
    let closed = emit shut_down_write (record c { state = disconnecting }) in
    let at_once : closed ≡ shutdown true c = sym (shutdown_cases c false up off) in
    subst
      (λ d.
        (delivered d.events ≡ stream c)
        × Ends shut_down_write d.events
        × (d.channel_writing ≡ false))
      at_once
      (
        delivered-emit_if true shut_down_write c refl
            ∙ (sym (append-nil (delivered c.events))
                ∙ ap (◌++◌ (delivered c.events)) (sym (s.armed off))),
        (c.events, refl),
        off,
      )
