-- ===== src/Http/Response.antt =====
-- http/HttpResponse.h and http/HttpResponse.cc. The order in which `unordered_map` is walked is not
-- fixed: it is an argument of `append_to_buffer`.
pub mod Text
use my_file_server.Common.{
  ℕ, ◌+◌, Bool, true, false, List, [], ◌∷◌, ◌++◌, Option, none, some, Bytes, codes, decimal, ℤ,
  Result, ok, ◌>>=◌, if◌then◌else◌,
}
use my_file_server.Buffer.{Buffer, append}
use my_file_server.Http.Headers.{Headers, insert}

pub data StatusCode : Type 0 where
  unknown_code ok_200 no_content_204 partitial_206 moved_permanently_301 : StatusCode
  bad_request_400 not_found_404 internal_error_500 : StatusCode

unfoldable pub code_number : StatusCode → ℕ
code_number unknown_code = 0
code_number ok_200 = 200
code_number no_content_204 = 204
code_number partitial_206 = 206
code_number moved_permanently_301 = 301
code_number bad_request_400 = 400
code_number not_found_404 = 404
code_number internal_error_500 = 500

pub record Response : Type 0 where
  pub headers : Headers
  pub status_code : StatusCode
  pub status_message : Bytes
  pub close_connection : Bool
  pub body : Bytes
  -- -1 is `none`
  pub fd : Option ℕ
  -- not initialised by the constructor: `none`
  pub send_len : Option ℤ

abbrev pub new_response : Bool → Response
new_response close = record {
  headers = [];
  status_code = unknown_code;
  status_message = [];
  close_connection = close;
  body = [];
  fd = none;
  send_len = none;
}

abbrev pub add_header : Bytes → Bytes → Response → Response
add_header key value r = record r { headers = insert key value r.headers }

abbrev pub set_content_type : Bytes → Response → Response
set_content_type content_type = add_header (codes "Content-Type") content_type

abbrev pub set_disposition : Bytes → Response → Response
set_disposition file =
    add_header (codes "Content-Disposition") (codes "attachment;filename=" ++ file)

abbrev pub need_send_file : Response → Bool
need_send_file r = elim r.fd [ none ↦ false | some fd ↦ true ]

-- `snprintf(buf, 32, "HTTP/1.1 %d ", code)`, which fits.
unfoldable pub status_text : StatusCode → Bytes
unfolding code_number decimal
status_text code = codes "HTTP/1.1 " ++ (decimal (code_number code) ++ codes " ")

-- A row of `output->append(…)`.
unfoldable pub append_each : Buffer → List Bytes → Result Buffer
append_each b [] = ok b
append_each b (t ∷ ts) = do c ← append b t; append_each c ts

-- The pieces that the loop over the headers appends.
unfoldable pub header_pieces : Headers → List Bytes
header_pieces [] = []
header_pieces ((key, value) ∷ hs) = key ∷ codes ": " ∷ value ∷ codes "\r\n" ∷ header_pieces hs

-- The branch on `closeConnection_`. For a connection that stays open it appends `buf`, which still
-- holds the start of the status line.
unfoldable pub connection_pieces : Response → List Bytes
unfolding status_text
connection_pieces r =
    if r.close_connection
    then codes "Connection: close\r\n" ∷ []
    else status_text r.status_code ∷ codes "Connection: Keep-Alive\r\n" ∷ []

unfoldable pub append_to_buffer : (Headers → Headers) → Response → Buffer → Result Buffer
append_to_buffer order r output = do
  a ← append_each output (status_text r.status_code ∷ r.status_message ∷ codes "\r\n" ∷ [])
  b ← append_each a (connection_pieces r)
  c ← append_each b (header_pieces (order r.headers))
  append_each c (codes "\r\n" ∷ r.body ∷ [])
