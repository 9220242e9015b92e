-- ===== src/Http/Request.antt =====
-- http/HttpRequest.h. A pair of pointers into the buffer is the bytes between them; headers_ is an
-- association list with one entry for a key.
use my_file_server.Common.{
  ℕ, ◌+◌, Bool, true, false, [], ◌∷◌, none, some, Bytes, take, drop, if◌then◌else◌, codes, equal,
  is_space, skip_spaces, ℤ, pos, negsuc, atoi, Result, ok, err, ◌>>=◌, length_error,
}
use my_file_server.Buffer.{read_at}
use my_file_server.Http.Headers.{Headers, lookup, insert}

pub data Method : Type 0 where
  invalid get post head put delete : Method

pub data Version : Type 0 where
  unknown http10 http11 : Version

pub record Request : Type 0 where
  pub method : Method
  -- m_string
  pub body : Bytes
  pub version : Version
  pub path : Bytes
  pub query : Bytes
  -- microseconds since the epoch
  pub receive_time : ℕ
  pub headers : Headers

abbrev pub empty_request : Request
empty_request = record {
  method = invalid;
  body = [];
  version = unknown;
  path = [];
  query = [];
  receive_time = 0;
  headers = [];
}

unfoldable pub method_of : Bytes → Method
method_of m =
    if equal m (codes "GET")
    then get
    else if equal m (codes "POST")
    then post
    else if equal m (codes "HEAD")
    then head
    else if equal m (codes "PUT")
    then put
    else if equal m (codes "DELETE")
    then delete
    else invalid

abbrev is_valid : Method → Bool
is_valid invalid = false
is_valid _ = true

-- `setMethod`: the request afterwards, and whether the method is a known one.
unfoldable pub set_method : Request → Bytes → Request × Bool
unfolding method_of
set_method req m = (record req { method = method_of m }, is_valid (method_of m))

unfoldable pub method_string : Method → Bytes
method_string get = codes "GET"
method_string post = codes "POST"
method_string head = codes "HEAD"
method_string put = codes "PUT"
method_string delete = codes "DELETE"
method_string invalid = codes "UNKNOWN"

-- A byte in front of a trimmed rest.
unfoldable pub trimmed : ℕ → Bytes → Bytes
unfolding is_space
trimmed d [] = if is_space d then [] else d ∷ []
trimmed d (e ∷ es) = d ∷ e ∷ es

-- The loop that drops spaces from the end of the value.
unfoldable pub drop_last_spaces : Bytes → Bytes
unfolding trimmed
drop_last_spaces [] = []
drop_last_spaces (c ∷ cs) = trimmed c (drop_last_spaces cs)

-- `addHeader(start, colon, end)`, where `line` is [start, end) and `colon` an offset in it.
unfoldable pub add_header : Request → Bytes → ℕ → Request
add_header req line colon = record req {
  headers =
      insert (take colon line) (drop_last_spaces (skip_spaces (drop (colon + 1) line))) req.headers;
}

unfoldable pub get_header : Request → Bytes → Bytes
get_header req field = elim (lookup field req.headers) [ none ↦ [] | some value ↦ value ]

-- `headers_[field]` for reading: a missing key gets an empty entry.
unfoldable pub index_header : Request → Bytes → Bytes × Request
index_header req field = elim (lookup field req.headers) [
  | none ↦ ([], record req { headers = insert field [] req.headers })
  | some value ↦ (value, req)
]

-- `assign(start, start + len)`, with `start` at `offset` of the storage.
unfoldable pub assign : Bytes → ℕ → ℤ → Result Bytes
assign storage offset (pos n) = read_at storage offset n
assign storage offset (negsuc n) = err length_error

-- `addcontent(start)`. It prints the three bytes from `start` on, so these are read too.
unfoldable pub add_content : Request → Bytes → ℕ → Result Request
add_content req storage offset = do
  let (l, indexed) = index_header req (codes "Content-Length")
  len ← atoi l
  _ ← read_at storage offset 3
  content ← assign storage offset len
  ok (record indexed { body = content })

-- `swap`: every field but m_string.
unfoldable pub swap : Request → Request → Request × Request
swap a b = (record b { body = a.body }, record a { body = b.body })
