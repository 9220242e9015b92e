-- ===== src/Http/Server/Tests.antt =====
-- The message callback of http/FileServer.cc at concrete inputs.
use my_file_server.Common.{
  ℕ, ◌≡◌, refl, ap, arith, true, false, zero, suc, [], ◌++◌, Bytes, length, length-take,
  length-drop, take, drop, codes, equal, find_byte, Result, ok,
}
use my_file_server.Buffer.{Transferred, done, failed}
use my_file_server.Buffer.Content.{content}
use my_file_server.Buffer.Crlf.{HasCrlf}
use my_file_server.Http.Headers.{Headers}
use my_file_server.Http.Request.{Request, empty_request, get, http11, method_string}
use my_file_server.Http.Context.{initial}
use my_file_server.Http.Context.Printer.{Head, IsHead}
use my_file_server.Http.Response.{Response, new_response, ok_200, status_text}
use my_file_server.Http.Server.{bad_request, on_message}
use my_file_server.Http.Server.Answers.{on_message_early}
use my_file_server.Http.Server.Replies.{on_message-response_text}
use my_file_server.Http.Response.Text.{response_text}
use my_file_server.Tcp.Connection.{Connection, connected, disconnecting}
use my_file_server.Tcp.Connection.Stream.{stream, IsSound, WritesAtMost, WritesFaultless}

abbrev received : Bytes → Connection
received text = record {
  state = connected;
  channel_reading = true;
  channel_writing = false;
  input_buffer = record {
    buffer = codes "01234567" ++ text;
    reader_index = 8;
    writer_index = length (codes "01234567" ++ text);
  };
  output_buffer = record { buffer = codes "01234567"; reader_index = 8; writer_index = 8 };
  send_fd = 0;
  send_len = 0;
  high_water_mark = 100;
  has_write_complete = false;
  has_high_water = false;
  events = [];
}

abbrev early : Connection
early = received (codes "GET")

early-IsSound : IsSound early
early-IsSound = record { valid = omega arith; armed = λ e. refl }

no_crlf : (j : ℕ) → ¬ HasCrlf (content early.input_buffer) j
no_crlf zero = λ e. cc
no_crlf (suc zero) = λ e. cc
no_crlf (suc (suc zero)) = λ e. cc
no_crlf (suc (suc (suc j))) = λ (e : take 2 (drop j []) ≡ codes "\r\n").
    omega
      (arith, ap (length {A = ℕ}) e, length-take {A = ℕ} 2 (drop j []), length-drop {A = ℕ} j [])

-- A `write` that takes at most two bytes.
abbrev two_at_most : Bytes → Transferred ℕ
two_at_most text = done (length (take 2 text))

two_at_most-WritesAtMost : WritesAtMost two_at_most
two_at_most-WritesAtMost text n e =
    let same : length (take {A = ℕ} 2 text) ≡ n = cc in omega (arith, same, length-take 2 text)

two_at_most-WritesFaultless : WritesFaultless two_at_most
two_at_most-WritesFaultless text errno e = cc

abbrev no_file_sent : ℕ → ℕ → Transferred ℕ
no_file_sent fd count = failed 11

abbrev as_it_is : Headers → Headers
as_it_is h = h

-- A handler that counts the requests.
abbrev counting : ℕ → Request → Response → Result (ℕ × Response)
counting n req res = ok (suc n, res)

on_message_early_example :
    (d : Connection) × (on_message two_at_most no_file_sent as_it_is counting 0 initial early 7
      ≡ ok (0, initial, d))
    × (stream d ≡ stream early ++ bad_request)
    × (d.state ≡ disconnecting)
on_message_early_example =
    on_message_early two_at_most no_file_sent as_it_is counting 0 empty_request early 7
      two_at_most-WritesAtMost two_at_most-WritesFaultless early-IsSound refl (omega arith)
      (omega arith) no_crlf

abbrev root_head : Head
root_head = record { method = get; path = codes "/"; query = []; version = http11; fields = [] }

root_head-IsHead : IsHead root_head
unfolding find_byte
root_head-IsHead = record {
  known_method = λ e. cc;
  known_version = λ e. cc;
  path_space = refl;
  path_question = refl;
  path_return = refl;
  query_space = refl;
  query_return = refl;
  query_mark = tt;
  fields_ok = tt;
}

abbrev whole : Connection
whole = received (codes "GET / HTTP/1.1\r\n\r\nGET")

whole-IsSound : IsSound whole
whole-IsSound = record { valid = omega arith; armed = λ e. refl }

-- A handler that counts the requests and answers each with a short page.
abbrev short_page : Response
short_page = record (new_response false) {
  status_code = ok_200;
  status_message = codes "OK";
  close_connection = true;
  body = codes "hi";
}

abbrev greeting : ℕ → Request → Response → Result (ℕ × Response)
greeting n req res = ok (suc n, short_page)

on_message-response_text_example :
    (d : Connection) × (on_message two_at_most no_file_sent as_it_is greeting 0 initial whole 7
      ≡ ok (1, initial, d))
    × (stream d ≡ stream whole ++ response_text as_it_is short_page)
    × (d.state ≡ disconnecting)
    × (content d.input_buffer ≡ codes "GET")
unfolding method_string status_text equal
on_message-response_text_example =
    on_message-response_text two_at_most no_file_sent as_it_is two_at_most-WritesAtMost
      two_at_most-WritesFaultless greeting 0 1 root_head short_page whole 7 (codes "GET")
      root_head-IsHead (λ e. cc) refl refl refl (omega arith) refl whole-IsSound refl (omega arith)
      (omega arith)
