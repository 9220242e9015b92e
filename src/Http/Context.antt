-- ===== src/Http/Context.antt =====
-- http/HttpContext.h and http/HttpContext.cc: the request parser, a state machine over the
-- connection's buffer. The loops take fuel: each round takes a line of two
-- bytes or more out of the buffer, so its length bounds the rounds.
pub mod Lines
pub mod Printer
pub mod RequestLine
pub mod Heads
pub mod RoundTrip
pub mod Segments
pub mod Bodies
pub mod Termination
use my_file_server.Common.{
  ℕ, zero, suc, ◌+◌, ◌-◌, ◌≡◌, Bool, true, false, not, ◌&&◌, List, [], ◌∷◌, Option, none, some,
  Bytes, length, take, drop, ◌==◌, if◌then◌else◌, codes, equal, find_byte, get_elem?, Result, ok,
  err, ◌>>=◌, null_pointer, no_fuel,
}
use my_file_server.Buffer.{Buffer, readable_bytes, read_at, find_crlf, retrieve_until}
use my_file_server.Http.Request.{
  Method, post, Version, http10, http11, Request, empty_request, set_method, add_header,
  add_content, swap,
}

pub data ParseState : Type 0 where
  expect_request_line expect_headers expect_body got_all : ParseState

pub record Context : Type 0 where
  pub state : ParseState
  pub request : Request

abbrev pub initial : Context
initial = record { state = expect_request_line; request = empty_request }

unfoldable pub is_got_all : Context → Bool
is_got_all c = elim c.state [ got_all ↦ true | _ ↦ false ]

unfoldable pub reset : Context → Context
unfolding swap
reset c = record { state = expect_request_line; request = (swap c.request empty_request).0 }

-- The version, after the second space: `HTTP/1.` and one more byte.
unfoldable pub set_version : Request → Bytes → Request × Bool
set_version req text =
    if length text == 8 && equal (take 7 text) (codes "HTTP/1.")
    then (let last = drop 7 text in
        if equal last (codes "1")
        then (record req { version = http11 }, true)
        else if equal last (codes "0")
        then (record req { version = http10 }, true)
        else (req, false))
    else (req, false)

-- The path, and the query from the question mark on.
unfoldable pub set_target : Request → Bytes → Request
set_target req target =
    let question = find_byte b'?' target in
    if question == length target
    then record req { path = target }
    else record req { path = take question target; query = drop question target }

-- After the first space.
unfoldable pub process_target : Request → Bytes → Request × Bool
process_target req rest =
    let space = find_byte b' ' rest in
    if space == length rest
    then (req, false)
    else set_version (set_target req (take space rest)) (drop (space + 1) rest)

-- `processRequestLine`; the request is changed as far as the line was read.
unfoldable pub process_request_line : Request → Bytes → Request × Bool
process_request_line req line =
    let space = find_byte b' ' line in
    if space == length line
    then (req, false)
    else (let (named, known) = set_method req (take space line) in
        if known then process_target named (drop (space + 1) line) else (named, false))

-- The variables of the loop in `parseRequest`.
pub record Progress : Type 0 where
  pub context : Context
  pub buffer : Buffer
  pub good : Bool
  pub has_more : Bool

-- `crlf` is an offset from `peek()`.
unfoldable pub retrieve_line : Buffer → ℕ → Buffer
retrieve_line b crlf = retrieve_until b (b.reader_index + crlf + 2)

unfoldable pub request_line : ℕ → Progress → Option ℕ → Result Progress
request_line time p none = ok (record p { has_more = false })
request_line time p (some crlf) = do
  let b = p.buffer
  line ← read_at b.buffer b.reader_index crlf
  let (req, good) = process_request_line p.context.request line
  ok (
      if good
      then record {
        context = record { state = expect_headers; request = record req { receive_time = time } };
        buffer = retrieve_line b crlf;
        good = true;
        has_more = p.has_more;
      }
      else record {
        context = record { state = p.context.state; request = req };
        buffer = b;
        good = false;
        has_more = false;
      })

-- One header line: the request afterwards, and whether the line had a colon.
unfoldable pub header_line : Request → Bytes → Request × Bool
header_line req line =
    let colon = find_byte b':' line in
    if colon == length line then (req, false) else (add_header req line colon, true)

unfoldable pub headers_turn : Progress → Option ℕ → Result Progress
headers_turn p none = ok (record p { has_more = false })
headers_turn p (some crlf) = do
  let b = p.buffer
  line ← read_at b.buffer b.reader_index crlf
  let (req, is_header) = header_line p.context.request line
  ok (record p {
    context = record { state = if is_header then p.context.state else expect_body; request = req };
    buffer = retrieve_line b crlf;
  })

-- `NULL + 2 - peek()` and a search up to NULL are undefined.
unfoldable pub not_null : Option ℕ → Result ℕ
not_null none = err null_pointer
not_null (some crlf) = ok crlf

-- The do-while loop over the headers of the first part of a form.
unfoldable pub part_headers : ℕ → Request → Buffer → Result (Request × Buffer)
unfolding not_null
part_headers zero req b = err no_fuel
part_headers (suc fuel) req b = do
  found ← find_crlf b
  crlf ← not_null found
  line ← read_at b.buffer b.reader_index crlf
  let (next, is_header) = header_line req line
  elim is_header [
    | true ↦ part_headers fuel next (retrieve_line b crlf)
    | false ↦ ok (next, retrieve_line b crlf)
  ]

-- A form: the first line is its boundary, at `crlf`. Each `cout << *buf->peek()` reads a byte.
unfoldable pub form_at : ℕ → Request → Buffer → Option ℕ → Result (Request × Buffer)
unfolding not_null
form_at fuel req b found = do
  crlf ← not_null found
  let inner = retrieve_line b crlf
  _ ← read_at inner.buffer inner.reader_index 1
  (with_part, c) ← part_headers fuel req inner
  _ ← read_at c.buffer c.reader_index 1
  filled ← add_content with_part c.buffer c.reader_index
  ok (filled, c)

unfoldable pub form_body : ℕ → Request → Buffer → Result (Request × Buffer)
unfolding form_at
form_body fuel req b = do found ← find_crlf b; form_at fuel req b found

-- The body of a POST.
unfoldable pub post_body : ℕ → Request → Buffer → Result (Request × Buffer)
post_body fuel req b = do
  first ← read_at b.buffer b.reader_index 1
  if equal first (codes "-")
      then form_body fuel req b
      else (do filled ← add_content req b.buffer b.reader_index; ok (filled, b))

unfoldable pub body_of : Method → ℕ → Request → Buffer → Result (Request × Buffer)
body_of post fuel req b = post_body fuel req b
body_of _ fuel req b = ok (req, b)

unfoldable pub body_turn : ℕ → Progress → Result Progress
body_turn fuel p = do
  (req, b) ← body_of p.context.request.method fuel p.context.request p.buffer
  ok (record p {
    context = record { state = got_all; request = req };
    buffer = b;
    has_more = false;
  })

-- One round of the loop. In `got_all` it does nothing.
unfoldable pub turn : ParseState → ℕ → ℕ → Progress → Result Progress
turn expect_request_line fuel time p = do found ← find_crlf p.buffer; request_line time p found
turn expect_headers fuel time p = do found ← find_crlf p.buffer; headers_turn p found
turn expect_body fuel time p = body_turn fuel p
turn got_all fuel time p = ok p

unfoldable pub parse_loop : ℕ → ℕ → Progress → Result Progress
parse_loop zero time p = err no_fuel
parse_loop (suc fuel) time p = elim p.has_more [
  | true ↦ turn p.context.state fuel time p >>= λ q. parse_loop fuel time q
  | false ↦ ok p
]

abbrev pub parse_fuel : Buffer → ℕ
parse_fuel b = readable_bytes b + 4

abbrev pub starting : Context → Buffer → Progress
starting c b = record { context = c; buffer = b; good = false; has_more = true }

-- `parseRequest`: the result, and the context and buffer afterwards.
unfoldable pub parse_request : Context → Buffer → ℕ → Result (Bool × Context × Buffer)
parse_request c b time = do
  p ← parse_loop (parse_fuel b) time (starting c b)
  ok (p.good, p.context, p.buffer)
