-- ===== src/Http/Context/Printer.antt =====
-- The text of a request, written as RFC 7230 has it: what http/HttpContext.cc parses.
use my_file_server.Common.{◌≡◌, ◌≢◌, [], ◌∷◌, ◌++◌, Bytes, codes, Absent, skip_spaces}
use my_file_server.Buffer.Crlf.{crlf}
use my_file_server.Http.Headers.{Headers, insert}
use my_file_server.Http.Request.{
  Method, invalid, Version, unknown, http10, http11, method_string, drop_last_spaces,
}

pub record Head : Type 0 where
  pub method : Method
  pub path : Bytes
  pub query : Bytes
  pub version : Version
  pub fields : Headers

abbrev pub version_text : Version → Bytes
version_text http11 = codes "HTTP/1.1"
version_text http10 = codes "HTTP/1.0"
version_text unknown = []

abbrev pub field_line : Bytes → Bytes → Bytes
field_line k v = k ++ b':' ∷ 32 ∷ v

abbrev pub fields_text : Headers → Bytes → Bytes
fields_text [] rest = crlf ++ rest
fields_text ((k, v) ∷ fs) rest = field_line k v ++ (crlf ++ fields_text fs rest)

abbrev pub first_line : Head → Bytes
first_line h = method_string h.method ++ 32 ∷ ((h.path ++ h.query) ++ 32 ∷ version_text h.version)

-- The head of a request, with what follows it.
abbrev pub head_text : Head → Bytes → Bytes
head_text h rest = first_line h ++ (crlf ++ fields_text h.fields rest)

-- A header field that its line determines: no colon in the key, no spaces around the value.
pub record IsField (k v : Bytes) : Type 0 where
  pub key_colon : Absent b':' k
  pub key_return : Absent b'\r' k
  pub value_return : Absent b'\r' v
  pub front : skip_spaces v ≡ v
  pub back : drop_last_spaces v ≡ v

abbrev pub AreFields : Headers → Type 0
AreFields [] = Unit {0}
AreFields ((k, v) ∷ fs) = IsField k v × AreFields fs

-- The query is empty or starts with its question mark.
abbrev pub IsQuery : Bytes → Type 0
IsQuery [] = Unit {0}
IsQuery (c ∷ cs) = c ≡ b'?'

pub record IsHead (h : Head) : Type 0 where
  pub known_method : h.method ≢ invalid
  pub known_version : h.version ≢ unknown
  pub path_space : Absent 32 h.path
  pub path_question : Absent b'?' h.path
  pub path_return : Absent b'\r' h.path
  pub query_space : Absent 32 h.query
  pub query_return : Absent b'\r' h.query
  pub query_mark : IsQuery h.query
  pub fields_ok : AreFields h.fields

-- The headers that the lines leave, the later ones over the earlier.
abbrev pub insert_all : Headers → Headers → Headers
insert_all [] m = m
insert_all ((k, v) ∷ fs) m = insert_all fs (insert k v m)
