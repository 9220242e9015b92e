-- ===== src/Http/Server/Answers.antt =====
-- What the message callback of http/FileServer.cc does with a message that is no whole request.
use my_file_server.Common.{
  ℕ, ◌+◌, ◌≤◌, ◌≡◌, ◌≢◌, refl, sym, ap, ◌∙◌, arith, Bool, true, false, ◌++◌, Bytes, length,
  if◌then◌else◌, Result, ok, ◌>>=◌, max_size,
}
use my_file_server.Buffer.{Transferred}
use my_file_server.Buffer.Content.{IsValid, content}
use my_file_server.Buffer.Crlf.{HasCrlf}
use my_file_server.Http.Headers.{Headers}
use my_file_server.Http.Request.{Request}
use my_file_server.Http.Response.{Response}
use my_file_server.Http.Context.{expect_request_line, is_got_all}
use my_file_server.Http.Context.Segments.{parse_request_early}
use my_file_server.Http.Server.{bad_request, reject, on_message}
use my_file_server.Tcp.Connection.{
  Connection, connected, disconnected, disconnecting, is_connected, send, send_in_loop, shutdown,
}
use my_file_server.Tcp.Connection.Shutdown.{shutdown-stream}
use my_file_server.Tcp.Connection.Stream.{
  stream, IsSound, WritesAtMost, WritesFaultless, send_in_loop-stream,
}

up_not_disconnected : connected ≢ disconnected
up_not_disconnected e = cc

module _ (write : Bytes → Transferred ℕ) (sendfile : ℕ → ℕ → Transferred ℕ)
    (order : Headers → Headers) where
  -- The 400 goes out behind what was sent before, and the connection is shut down.
  reject-stream :
      (c : Connection)
      → WritesAtMost write
      → WritesFaultless write
      → IsSound c
      → c.state ≡ connected
      → c.output_buffer.writer_index + length bad_request ≤ max_size
      → (d : Connection) × (reject write sendfile order false c ≡ ok d)
        × (stream d ≡ stream c ++ bad_request)
        × (d.state ≡ disconnecting)
  unfolding reject send
  reject-stream c most no_fault s up limit =
      let (d, e, _, sent, same) =
        send_in_loop-stream write c bad_request most no_fault s (omega arith)
          (λ q. up_not_disconnected (sym up ∙ q)) limit in
      let run : send true write c bad_request ≡ ok d =
        ap (λ (b : Bool). if b then send_in_loop write c bad_request else ok c) (ap is_connected up)
        ∙ e in
      let (kept, closing) = shutdown-stream d (same ∙ up) in
      (
        shutdown true d,
        ap (λ (r : Result Connection). r >>= λ x. ok (shutdown true x)) run,
        kept ∙ sent,
        closing,
      )

  -- A message of a request whose first line is not complete: 400 is sent, and the connection shut
  -- down, although nothing is wrong with what has arrived. The request stays in the buffer.
  pub on_message_early {ℓ} :
      {State : Type ℓ} (set_response_body : State → Request → Response → Result (State × Response))
      (s : State) (req : Request) (c : Connection) (time : ℕ)
      → WritesAtMost write
      → WritesFaultless write
      → IsSound c
      → c.state ≡ connected
      → c.output_buffer.writer_index + length bad_request ≤ max_size
      → IsValid c.input_buffer
      → ((j : ℕ) → ¬ HasCrlf (content c.input_buffer) j)
      → (d : Connection) × (on_message write sendfile order set_response_body s
            (record { state = expect_request_line; request = req })
            c
            time
          ≡ ok (s, record { state = expect_request_line; request = req }, d))
        × (stream d ≡ stream c ++ bad_request)
        × (d.state ≡ disconnecting)
  unfolding on_message is_got_all
  on_message_early set_response_body s req c time most no_fault sound up limit v none_yet =
      let (d, e, sent, closing) = reject-stream c most no_fault sound up limit in
      (d, rw (parse_request_early req c.input_buffer time v none_yet, e) refl, sent, closing)
