-- ===== src/Http/Server.antt =====
-- The message callbacks of http/HttpServer.cc and http/FileServer.cc, on the connection whose input
-- buffer they are given. They run in the loop's thread. What fills the response is an argument.
pub mod Answers
pub mod Replies
mod Tests
use my_file_server.Common.{
  ℕ, Bool, true, false, ◌&&◌, ◌||◌, not, none, some, Bytes, codes, equal, cast_size, if◌then◌else◌,
  Result, ok, err, ◌>>=◌, uninitialised,
}
use my_file_server.Buffer.{init, initial_size, Transferred}
use my_file_server.Http.Headers.{Headers}
use my_file_server.Http.Favicon.{favicon}
use my_file_server.Http.Request.{Request, Version, http10, get_header}
use my_file_server.Http.Context.{Context, initial, is_got_all, reset, parse_request}
use my_file_server.Http.Response.{
  Response, new_response, ok_200, not_found_404, set_content_type, append_to_buffer,
}
use my_file_server.Tcp.Connection.{Connection, send, send_buffer, send_file, shutdown}

abbrev pub bad_request : Bytes
bad_request = codes "HTTP/1.1 400 Bad Request\r\n\r\n"

abbrev is_http10 : Version → Bool
is_http10 http10 = true
is_http10 _ = false

-- Whether the request asks for the connection to be closed.
unfoldable pub wants_close : Request → Bool
wants_close req =
    let connection = get_header req (codes "Connection") in
    equal connection (codes "close")
    || (is_http10 req.version && not (equal connection (codes "Keep-Alive")))

-- `defaultHttpCallback`
unfoldable pub default_http_callback : Request → Response → Response
default_http_callback req res = record res {
  status_code = not_found_404;
  status_message = codes "Not Found";
  close_connection = true;
}

-- The answer to `/favicon.ico`.
unfoldable pub icon : Response → Response
icon res =
    set_content_type (codes "image/png")
      (record res { status_code = ok_200; status_message = codes "OK"; body = favicon })

module _ (write : Bytes → Transferred ℕ) (sendfile : ℕ → ℕ → Transferred ℕ)
    (order : Headers → Headers) where
  -- The response is printed to a new buffer and sent.
  unfoldable pub send_response : Connection → Response → Result Connection
  send_response c res = do
    buf ← append_to_buffer order res (init initial_size)
    (d, _) ← send_buffer true write c buf
    ok d

  unfoldable pub send_file_of : Response → Connection → Result Connection
  send_file_of res c = elim res.fd [
    | none ↦ ok c
    | some fd ↦ elim res.send_len [
      | none ↦ err uninitialised
      | some len ↦ ok (send_file true sendfile c fd (cast_size len))
    ]
  ]

  unfoldable pub close_after : Response → Connection → Connection
  close_after res c = if res.close_connection then shutdown true c else c

  -- `FileServer::onRequest`; the argument is `setResponseBody` with the server's state.
  unfoldable pub on_request {ℓ} :
      {State : Type ℓ}
      → (State → Request → Response → Result (State × Response))
      → State
      → Connection
      → Request
      → Result (State × Connection)
  unfolding send_response send_file_of
  on_request set_response_body s c req = do
    let response = new_response (wants_close req)
    (t, res) ←
        if equal req.path (codes "/favicon.ico")
        then ok (s, icon response)
        else set_response_body s req response
    d ← send_response c res
    e ← send_file_of res d
    ok (t, close_after res e)

  -- A request that does not parse is answered with 400 and a shutdown.
  unfoldable pub reject : Bool → Connection → Result Connection
  reject true c = ok c
  reject false c = do d ← send true write c bad_request; ok (shutdown true d)

  -- `FileServer::onMessage`, with the context that the connection keeps.
  unfoldable pub on_message {ℓ} :
      {State : Type ℓ}
      → (State → Request → Response → Result (State × Response))
      → State
      → Context
      → Connection
      → ℕ
      → Result (State × Context × Connection)
  unfolding reject on_request
  on_message set_response_body s context c time = do
    (good, parsed, input) ← parse_request context c.input_buffer time
    d ← reject good (record c { input_buffer = input })
    if is_got_all parsed
        then (do (t, e) ← on_request set_response_body s d parsed.request; ok (t, reset parsed, e))
        else ok (s, parsed, d)

  -- `HttpServer::onRequest`; the argument is `httpCallback_`. It always closes the connection.
  unfoldable pub http_on_request :
      (Request → Response → Response) → Connection → Request → Result Connection
  unfolding send_response
  http_on_request http_callback c req = do
    let response = http_callback req (new_response true)
    d ← send_response c response
    ok (close_after response d)

  -- `HttpServer::onMessage`, with a new context for every message.
  unfoldable pub http_on_message :
      (Request → Response → Response) → Connection → ℕ → Result Connection
  unfolding reject http_on_request
  http_on_message http_callback c time = do
    (good, parsed, input) ← parse_request initial c.input_buffer time
    d ← reject good (record c { input_buffer = input })
    if is_got_all parsed then http_on_request http_callback d parsed.request else ok d
