-- ===== src/Http/Context/Heads.antt =====
-- The rounds of `HttpContext::parseRequest` (http/HttpContext.cc) over a well-formed head.
use my_file_server.Common.{
  ℕ, suc, ◌+◌, ◌-◌, ◌≤◌, ◌≡◌, refl, ap, arith, Bool, true, false, [], ◌∷◌, ◌++◌, Bytes, length,
  find_byte, Absent, Absent-append, cut_lem, skip_spaces, ◌>>=◌, length-append,
}
use my_file_server.Buffer.{Buffer, readable_bytes}
use my_file_server.Buffer.Content.{IsValid, content, length-content-readable}
use my_file_server.Buffer.Crlf.{crlf}
use my_file_server.Http.Headers.{Headers, insert}
use my_file_server.Http.Request.{
  Request, Version, unknown, invalid, empty_request, Method, method_string, add_header,
}
use my_file_server.Http.Context.Lines.{next_line}
use my_file_server.Http.Context.Printer.{
  Head, IsHead, IsField, AreFields, field_line, fields_text, first_line, head_text, version_text,
  insert_all,
}
use my_file_server.Http.Context.RequestLine.{process_request_line-first_line}
use my_file_server.Http.Context.{
  ParseState, expect_headers, expect_body, Progress, request_line, header_line, headers_turn, turn,
  parse_loop, retrieve_line, starting, initial, parse_fuel,
}

-- A field line adds its field.
header_line-field_line :
    (req : Request) (k v : Bytes)
    → IsField k v
    → header_line req (field_line k v) ≡ (record req { headers = insert k v req.headers }, true)
unfolding header_line add_header
header_line-field_line req k v f =
    let cut = cut_lem b':' k (32 ∷ v) f.key_colon in
    rw (cut.found, cut.front, cut.back, skip_one, f.front, f.back)
  where
    skip_one : skip_spaces (32 ∷ v) ≡ skip_spaces v
    skip_one = unfold skip_spaces in refl

field_line-Absent : (k v : Bytes) → IsField k v → Absent b'\r' (field_line k v)
unfolding find_byte
field_line-Absent k v f =
    Absent-append b'\r' k (b':' ∷ 32 ∷ v) f.key_return (ground (arith, f.value_return))

-- The empty line ends the headers.
header_line-nil : (req : Request) → header_line req [] ≡ (req, false)
unfolding header_line find_byte
header_line-nil req = refl

-- The loop's variables while it reads headers.
abbrev pub reading : Bool → ParseState → Request → Buffer → Progress
reading good state req b = record {
  context = record { state = state; request = req };
  buffer = b;
  good = good;
  has_more = true;
}

abbrev pub rounds : Headers → ℕ → ℕ
rounds [] fuel = suc fuel
rounds (f ∷ fs) fuel = suc (rounds fs fuel)

-- All header lines and the empty line: the loop comes to the body with the fields added.
pub headers_loop :
    (good : Bool) (fs : Headers) (fuel time : ℕ) (req : Request) (b : Buffer) (rest : Bytes)
    → AreFields fs
    → IsValid b
    → content b ≡ fields_text fs rest
    → (c : Buffer) × (parse_loop (rounds fs fuel) time (reading good expect_headers req b)
        ≡ parse_loop fuel time
            (reading good expect_body (record req { headers = insert_all fs req.headers }) c))
      × IsValid c
      × (content c ≡ rest)
unfolding parse_loop turn headers_turn
headers_loop good [] fuel time req b rest ok_fields v e =
    let line = next_line b [] rest v (unfold find_byte in refl) e in
    (
      retrieve_line b 0,
      rw (line.found, ◌>>=◌, line.read, header_line-nil req),
      line.valid,
      line.after,
    )
headers_loop good ((k, x) ∷ fs) fuel time req b rest (f, ok_fields) v e =
    let line = next_line b (field_line k x) (fields_text fs rest) v (field_line-Absent k x f) e in
    let (c, run, w, left) =
      headers_loop good fs fuel time (record req { headers = insert k x req.headers })
        (retrieve_line b (length (field_line k x))) rest ok_fields line.valid line.after in
    (c, rw (line.found, ◌>>=◌, line.read, header_line-field_line req k x f) run, w, left)

pub rounds_lem : (fs : Headers) (fuel : ℕ) → rounds fs fuel ≡ length fs + suc fuel
rounds_lem [] fuel = omega arith
rounds_lem (f ∷ fs) fuel = omega (arith, rounds_lem fs fuel)

pub length-fields_text : (fs : Headers) (rest : Bytes) → length fs ≤ length (fields_text fs rest)
length-fields_text [] rest = omega arith
length-fields_text ((k, v) ∷ fs) rest = omega (
  arith,
  length-append (field_line k v) (crlf ++ fields_text fs rest),
  length-fields_text fs rest,
)

-- The fuel of `parseRequest` covers every line of the head and two rounds more.
pub parse_fuel-rounds :
    (b : Buffer) (h : Head) (rest : Bytes)
    → IsValid b
    → content b ≡ head_text h rest
    → (fuel : ℕ) × (parse_fuel b ≡ suc (rounds h.fields (suc (suc fuel))))
parse_fuel-rounds b h rest v e = (
  readable_bytes b - length h.fields,
  omega (
    arith,
    rounds_lem h.fields (suc (suc (readable_bytes b - length h.fields))),
    length-content-readable b v,
    ap (length {A = ℕ}) e,
    length-append (first_line h) (crlf ++ fields_text h.fields rest),
    length-fields_text h.fields rest,
  ),
)

method_string-Absent : (m : Method) → Absent b'\r' (method_string m)
unfolding method_string find_byte
method_string-Absent invalid = refl
method_string-Absent _ = refl

version_text-Absent : (v : Version) → Absent b'\r' (version_text v)
unfolding find_byte
version_text-Absent unknown = refl
version_text-Absent _ = refl

space-Absent : (xs : Bytes) → Absent b'\r' xs → Absent b'\r' (32 ∷ xs)
unfolding find_byte
space-Absent xs h = ground (arith, h)

first_line-Absent : (h : Head) → IsHead h → Absent b'\r' (first_line h)
first_line-Absent h v =
    Absent-append b'\r' (method_string h.method) _ (method_string-Absent h.method) (
      space-Absent _ (
        Absent-append b'\r' (h.path ++ h.query) _
          (Absent-append b'\r' h.path h.query v.path_return v.query_return)
          (space-Absent _ (version_text-Absent h.version))))

-- What the head says.
abbrev pub request_of : Head → ℕ → Request
request_of h time = record {
  method = h.method;
  body = [];
  version = h.version;
  path = h.path;
  query = h.query;
  receive_time = time;
  headers = insert_all h.fields [];
}

-- From the start to the body: the request is that of the head, and the buffer holds what follows.
pub head_loop :
    (h : Head) (fuel time : ℕ) (b : Buffer) (rest : Bytes)
    → IsHead h
    → IsValid b
    → content b ≡ head_text h rest
    → (c : Buffer) × (parse_loop (suc (rounds h.fields fuel)) time (starting initial b)
        ≡ parse_loop fuel time (reading true expect_body (request_of h time) c))
      × IsValid c
      × (content c ≡ rest)
unfolding parse_loop turn request_line
head_loop h fuel time b rest hv v e =
    let line =
      next_line b (first_line h) (fields_text h.fields rest) v (first_line-Absent h hv) e in
    let named : Request = record {
      method = h.method;
      body = [];
      version = h.version;
      path = h.path;
      query = h.query;
      receive_time = time;
      headers = [];
    } in
    let (c, run, w, left) =
      headers_loop true h.fields fuel time named (retrieve_line b (length (first_line h))) rest
        hv.fields_ok line.valid line.after in
    (
      c,
      rw (line.found, ◌>>=◌, line.read, process_request_line-first_line empty_request h hv refl)
          run,
      w,
      left,
    )
