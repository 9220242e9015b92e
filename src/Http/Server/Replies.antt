-- ===== src/Http/Server/Replies.antt =====
-- onMessage and onRequest of http/FileServer.cc on a whole request: from the bytes of the request to
-- those of the response.
use my_file_server.Common.{
  ℕ, ◌+◌, ◌≤◌, ◌<◌, ◌≡◌, ◌≢◌, refl, sym, ap, ◌∙◌, arith, inl, inr, false, Bool-cases, ◌++◌, Bytes,
  length, codes, equal, none, if◌then◌else◌, Result, ok, int_limit, max_size,
}
use my_file_server.Buffer.{init, initial_size, Transferred, get_buffer_all_as_string}
use my_file_server.Buffer.Content.{IsValid, content, init-IsValid, content-init, read_at-all}
use my_file_server.Http.Headers.{Headers}
use my_file_server.Http.Request.{Request, post, swap}
use my_file_server.Http.Response.{Response, new_response}
use my_file_server.Http.Response.Text.{response_text, append_to_buffer-content}
use my_file_server.Http.Context.{initial, is_got_all, reset}
use my_file_server.Http.Context.Printer.{Head, IsHead, head_text}
use my_file_server.Http.Context.Heads.{request_of}
use my_file_server.Http.Context.RoundTrip.{parse_request-head_text, finished}
use my_file_server.Http.Server.{
  wants_close, send_response, send_file_of, close_after, reject, on_request, on_message,
}
use my_file_server.Tcp.Connection.{
  ConnectionState, Connection, connected, disconnected, disconnecting, is_connected, send_buffer,
}
use my_file_server.Tcp.Connection.Input.{send_in_loop-input, shutdown-input}
use my_file_server.Tcp.Connection.Shutdown.{shutdown-stream}
use my_file_server.Tcp.Connection.Stream.{
  stream, IsSound, WritesAtMost, WritesFaultless, send_in_loop-stream,
}

up_not_disconnected : connected ≢ disconnected
up_not_disconnected e = cc

reset-finished : (h : Head) (time : ℕ) → reset (finished (request_of h time)) ≡ initial
unfolding reset swap
reset-finished h time = refl

abbrev pub state_after : Response → ConnectionState
state_after res = if res.close_connection then disconnecting else connected

module _ (write : Bytes → Transferred ℕ) (sendfile : ℕ → ℕ → Transferred ℕ)
    (order : Headers → Headers) (most : WritesAtMost write) (no_fault : WritesFaultless write) where
  -- The response goes out behind what was sent before.
  send_response-stream :
      (c : Connection) (res : Response)
      → IsSound c
      → c.state ≡ connected
      → length (response_text order res) < int_limit
      → c.output_buffer.writer_index + length (response_text order res) ≤ max_size
      → (d : Connection) × (send_response write sendfile order c res ≡ ok d)
        × (stream d ≡ stream c ++ response_text order res)
        × (d.state ≡ connected)
        × (d.input_buffer ≡ c.input_buffer)
  unfolding send_response send_buffer get_buffer_all_as_string init
  send_response-stream c res s up small limit =
      let text = response_text order res in
      let (buf, printed, v, whole) =
        append_to_buffer-content order res (init initial_size)
          (init-IsValid initial_size (omega arith)) small (omega arith) in
      let same : content buf ≡ text =
        whole ∙ ap (λ (xs : Bytes). xs ++ text) (content-init initial_size) in
      let (d, e, _, sent, state_same) =
        send_in_loop-stream write c text most no_fault s small
          (λ q. up_not_disconnected (sym up ∙ q)) limit in
      (
        d,
        rw (printed, ap is_connected up, read_at-all buf v, same, e) refl,
        sent,
        state_same ∙ up,
        send_in_loop-input write c d text e,
      )

  close_after-stream :
      (c : Connection) (res : Response)
      → c.state ≡ connected
      → (stream (close_after write sendfile order res c) ≡ stream c)
        × ((close_after write sendfile order res c).state ≡ state_after res)
        × ((close_after write sendfile order res c).input_buffer ≡ c.input_buffer)
  unfolding close_after
  close_after-stream c res up = elim (Bool-cases res.close_connection) [
    | inl closes ↦
        let (kept, closing) = shutdown-stream c up in rw closes (kept, closing, shutdown-input c)
    | inr stays ↦ rw stays (refl, up, refl)
  ]

  -- A message that is a whole request without a body, for another path than `/favicon.ico`, on a
  -- sound connection that is up, and is answered by a page and not by a file: in one call the
  -- response of `setResponseBody` to the request that the text stands for is put behind what was sent
  -- before, what follows the request stays in the input buffer, the context starts anew, and the
  -- connection is shut down exactly where the response says so. The response and the room in the
  -- buffer are bounded; `write` takes at most what it is given, and the peer has not gone.
  pub on_message-response_text {ℓ} :
      {State : Type ℓ} (set_response_body : State → Request → Response → Result (State × Response))
      (s t : State) (h : Head) (res : Response) (c : Connection) (time : ℕ) (rest : Bytes)
      → IsHead h
      → h.method ≢ post
      → equal h.path (codes "/favicon.ico") ≡ false
      → set_response_body s (request_of h time) (new_response (wants_close (request_of h time)))
        ≡ ok (t, res)
      → res.fd ≡ none
      → IsValid c.input_buffer
      → content c.input_buffer ≡ head_text h rest
      → IsSound c
      → c.state ≡ connected
      → length (response_text order res) < int_limit
      → c.output_buffer.writer_index + length (response_text order res) ≤ max_size
      → (d : Connection) × (on_message write sendfile order set_response_body s initial c time
          ≡ ok (t, initial, d))
        × (stream d ≡ stream c ++ response_text order res)
        × (d.state ≡ state_after res)
        × (content d.input_buffer ≡ rest)
  unfolding on_message is_got_all reject on_request send_file_of
  on_message-response_text set_response_body s t h res c time rest hv ne no_icon answered no_file v
        e sound up small limit =
      let (input, run, _, left) = parse_request-head_text h time c.input_buffer rest hv ne v e in
      let taken : Connection = record c { input_buffer = input } in
      let (d, f, sent, still_up, untouched) =
        send_response-stream taken res (record { valid = sound.valid; armed = sound.armed }) up
          small limit in
      let (kept, state, input_kept) = close_after-stream d res still_up in
      (
        close_after write sendfile order res d,
        rw (run, no_icon, answered, f, no_file, reset-finished h time) refl,
        kept ∙ sent,
        state,
        ap content (input_kept ∙ untouched) ∙ left,
      )
