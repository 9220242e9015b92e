-- ===== src/Http/Context/RequestLine.antt =====
-- `HttpContext::processRequestLine` (http/HttpContext.cc) on the first line of a head.
use my_file_server.Common.{
  ◌≡◌, ◌≢◌, refl, true, [], ◌∷◌, ◌++◌, append-nil, Bytes, length, equal, find_byte,
  find_byte-append, take-length-append, drop-length-append, Absent, Absent-append, Absent-found,
  cut_lem,
}
use my_file_server.Http.Request.{
  Request, Method, invalid, Version, unknown, http10, http11, method_string, set_method,
}
use my_file_server.Http.Context.{set_version, set_target, process_target, process_request_line}
use my_file_server.Http.Context.Printer.{Head, IsHead, IsQuery, first_line, version_text}

method_string-Absent : (m : Method) → Absent 32 (method_string m)
unfolding method_string find_byte
method_string-Absent invalid = refl
method_string-Absent _ = refl

set_method-method_string :
    (req : Request) (m : Method)
    → m ≢ invalid
    → set_method req (method_string m) ≡ (record req { method = m }, true)
unfolding set_method method_string equal
set_method-method_string req invalid h = absurd (h refl)
set_method-method_string req _ h = refl

set_version-version_text :
    (req : Request) (v : Version)
    → v ≢ unknown
    → set_version req (version_text v) ≡ (record req { version = v }, true)
unfolding set_version equal
set_version-version_text req unknown h = absurd (h refl)
set_version-version_text req http10 h = refl
set_version-version_text req http11 h = refl

-- A request that has no query yet, as the parser starts with.
set_target-append :
    (req : Request) (path query : Bytes)
    → Absent b'?' path
    → IsQuery query
    → req.query ≡ []
    → set_target req (path ++ query) ≡ record req { path = path; query = query }
unfolding set_target
set_target-append req path [] h q e =
    rw (append-nil, Absent-found b'?' path h) (λ i. record req { path = path; query = e i })
set_target-append req path (c ∷ cs) h q e =
    rw (q, (cut_lem b'?' path cs h).found, find_is, take-length-append, drop-length-append)
  where
    find_is : find_byte b'?' (path ++ b'?' ∷ cs) ≡ length path
    find_is = find_byte-append b'?' path cs h

-- For a well-formed head and a request whose query is still empty, `processRequestLine` succeeds on
-- the head's first line and sets method, path, query and version to the head's.
pub process_request_line-first_line :
    (req : Request) (h : Head)
    → IsHead h
    → req.query ≡ []
    → process_request_line req (first_line h) ≡ (
      record req { method = h.method; path = h.path; query = h.query; version = h.version },
      true,
    )
unfolding process_request_line process_target
process_request_line-first_line req h v e =
    let outer =
      cut_lem 32 (method_string h.method) ((h.path ++ h.query) ++ 32 ∷ version_text h.version)
        (method_string-Absent h.method) in
    let inner =
      cut_lem 32 (h.path ++ h.query) (version_text h.version)
        (Absent-append 32 h.path h.query v.path_space v.query_space) in
    rw (
      outer.found,
      outer.front,
      outer.back,
      set_method-method_string req h.method v.known_method,
      inner.found,
      inner.front,
      inner.back,
      set_target-append (record req { method = h.method }) h.path h.query v.path_question
          v.query_mark e,
      set_version-version_text _ h.version v.known_version,
    )
