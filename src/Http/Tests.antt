-- ===== src/Http/Tests.antt =====
-- http/HttpContext.cc, http/HttpRequest.h and http/HttpResponse.cc at concrete inputs.
use my_file_server.Common.{
  ℕ, ◌≡◌, refl, ap, ℕ, take, drop, length-take, length-drop, arith, true, false, [], ◌∷◌, ◌++◌,
  Bytes, length, codes, ok, err, no_fuel, find_byte, skip_spaces, zero, suc, sub_size, decimal,
}
use my_file_server.Buffer.{Buffer, find_crlf, search_crlf, read_at, readable_bytes}
use my_file_server.Buffer.Content.{IsValid, content}
use my_file_server.Buffer.Crlf.{HasCrlf}
use my_file_server.Http.Headers.{Headers}
use my_file_server.Http.Request.{
  Request, empty_request, get, post, http11, drop_last_spaces, method_string,
}
use my_file_server.Http.Context.{
  initial, expect_headers, got_all, parse_request, parse_loop, turn, headers_turn,
}
use my_file_server.Http.Context.Printer.{Head, IsHead}
use my_file_server.Http.Context.Heads.{request_of, reading}
use my_file_server.Http.Context.RoundTrip.{parse_request-head_text, finished}
use my_file_server.Http.Context.Segments.{parse_loop-got_all}
use my_file_server.Http.Context.Bodies.{Returns}
use my_file_server.Http.Context.Termination.{parse_request-Returns}
use my_file_server.Http.Response.{
  Response, new_response, not_found_404, append_to_buffer, status_text, code_number,
}
use my_file_server.Http.Response.Text.{response_text, append_to_buffer-content}

abbrev get_head : Head
get_head = record {
  method = get;
  path = codes "/a.txt";
  query = codes "?b";
  version = http11;
  fields = (codes "Host", codes "x") ∷ [];
}

abbrev filled : Bytes → Buffer
filled text = record {
  buffer = codes "01234567" ++ text;
  reader_index = 8;
  writer_index = length (codes "01234567" ++ text);
}

abbrev get_buffer : Buffer
get_buffer = filled (codes "GET /a.txt?b HTTP/1.1\r\nHost: x\r\n\r\nGET")

get_buffer-IsValid : IsValid get_buffer
get_buffer-IsValid = omega arith

get_head-IsHead : IsHead get_head
unfolding find_byte skip_spaces drop_last_spaces
get_head-IsHead = record {
  known_method = λ e. cc;
  known_version = λ e. cc;
  path_space = refl;
  path_question = refl;
  path_return = refl;
  query_space = refl;
  query_return = refl;
  query_mark = refl;
  fields_ok = (
    record { key_colon = refl; key_return = refl; value_return = refl; front = refl; back = refl },
    tt,
  );
}

parse_request-head_text_example :
    (c : Buffer) × (parse_request initial get_buffer 7
      ≡ ok (true, finished (request_of get_head 7), c))
    × IsValid c
    × (content c ≡ codes "GET")
unfolding method_string
parse_request-head_text_example =
    parse_request-head_text get_head 7 get_buffer (codes "GET") get_head-IsHead (λ e. cc)
      get_buffer-IsValid refl

abbrev post_head : Head
post_head = record {
  method = post;
  path = codes "/3";
  query = [];
  version = http11;
  fields = (codes "Content-Length", codes "4") ∷ [];
}

abbrev post_buffer : Buffer
post_buffer = filled (codes "POST /3 HTTP/1.1\r\nContent-Length: 4\r\n\r\nu=ab")

abbrev early_buffer : Buffer
early_buffer = filled (codes "GET")

early_buffer-IsValid : IsValid early_buffer
early_buffer-IsValid = omega arith

early_buffer_lem : (j : ℕ) → ¬ HasCrlf (content early_buffer) j
early_buffer_lem zero = λ e. cc
early_buffer_lem (suc zero) = λ e. cc
early_buffer_lem (suc (suc zero)) = λ e. cc
early_buffer_lem (suc (suc (suc j))) = λ (e : take 2 (drop j []) ≡ codes "\r\n").
    omega
      (arith, ap (length {A = ℕ}) e, length-take {A = ℕ} 2 (drop j []), length-drop {A = ℕ} j [])

abbrev late_buffer : Buffer
late_buffer = filled (codes "Host: x\r\n\r\n")

abbrev begun : Request
begun = record empty_request { method = get; path = codes "/"; version = http11 }

late_run :
    parse_request (record { state = expect_headers; request = begun }) early_buffer 7
    ≡ ok (false, record { state = expect_headers; request = begun }, early_buffer)
unfolding parse_request parse_loop turn headers_turn find_crlf search_crlf read_at readable_bytes
    sub_size
late_run = refl

parse_loop-got_all_example :
    parse_loop 100 7 (reading false got_all begun early_buffer) ≡ err no_fuel
parse_loop-got_all_example = parse_loop-got_all 100 7 begun early_buffer

parse_request-Returns_example : Returns (parse_request initial get_buffer 7)
parse_request-Returns_example =
    parse_request-Returns initial get_buffer 7 get_buffer-IsValid (λ e. cc)

abbrev two_headers : Headers
two_headers = (codes "Host", codes "x") ∷ (codes "Range", codes "bytes=0-") ∷ []

abbrev not_found : Response
not_found = record (new_response true) {
  status_code = not_found_404;
  status_message = codes "Not Found";
  headers = two_headers;
  body = codes "none";
}

append_to_buffer-content_example :
    (c : Buffer) × (append_to_buffer (λ h. h) not_found early_buffer ≡ ok c)
    × IsValid c
    × (content c ≡ content early_buffer ++ response_text (λ h. h) not_found)
unfolding status_text decimal code_number
append_to_buffer-content_example =
    append_to_buffer-content (λ h. h) not_found early_buffer early_buffer-IsValid (omega arith)
      (omega arith)
