-- ===== src/Http/Context/RoundTrip.antt =====
-- `HttpContext::parseRequest` (http/HttpContext.cc) on a whole request, printed as in Printer.
use my_file_server.Common.{ℕ, suc, ◌≡◌, ◌≢◌, refl, ◌∙◌, Bool, true, false, Bytes, codes, ok}
use my_file_server.Buffer.{Buffer}
use my_file_server.Buffer.Content.{IsValid, content}
use my_file_server.Http.Request.{Request, Method, post}
use my_file_server.Http.Context.Printer.{Head, IsHead, head_text}
use my_file_server.Http.Context.Heads.{reading, head_loop, parse_fuel-rounds, request_of}
use my_file_server.Http.Context.{
  expect_body, got_all, Context, initial, body_of, body_turn, turn, parse_loop, parse_request,
}

pub body_of-other :
    (m : Method) (fuel : ℕ) (req : Request) (b : Buffer)
    → m ≢ post
    → body_of m fuel req b ≡ ok (req, b)
unfolding body_of
body_of-other post fuel req b h = absurd (h refl)
body_of-other _ fuel req b h = refl

abbrev pub finished : Request → Context
finished req = record { state = got_all; request = req }

-- The last two rounds: the body, and the end of the loop.
pub body_rounds :
    (good : Bool) (fuel time : ℕ) (req done_req : Request) (b c : Buffer)
    → body_of req.method (suc fuel) req b ≡ ok (done_req, c)
    → parse_loop (suc (suc fuel)) time (reading good expect_body req b)
      ≡ ok (record { context = finished done_req; buffer = c; good = good; has_more = false })
unfolding parse_loop turn body_turn
body_rounds good fuel time req done_req b c e = rw e

-- A request without a body: the fields are those of its lines, and what follows stays in the buffer.
pub parse_request-head_text :
    (h : Head) (time : ℕ) (b : Buffer) (rest : Bytes)
    → IsHead h
    → h.method ≢ post
    → IsValid b
    → content b ≡ head_text h rest
    → (c : Buffer) × (parse_request initial b time ≡ ok (true, finished (request_of h time), c))
      × IsValid c
      × (content c ≡ rest)
unfolding parse_request
parse_request-head_text h time b rest hv ne v e =
    let (fuel, enough) = parse_fuel-rounds b h rest v e in
    let (c, run, w, left) = head_loop h (suc (suc fuel)) time b rest hv v e in
    let ends =
      body_rounds true fuel time (request_of h time) (request_of h time) c c
        (body_of-other h.method (suc fuel) (request_of h time) c ne) in
    (c, rw (enough, run ∙ ends), w, left)

abbrev pub content_length : Bytes
content_length = codes "Content-Length"
