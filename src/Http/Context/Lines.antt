-- ===== src/Http/Context/Lines.antt =====
-- One line of the buffer, as the parser of http/HttpContext.cc takes it.
use my_file_server.Common.{
  ℕ, ◌+◌, ◌≤◌, ◌≡◌, ap, arith, Bytes, length, take, drop, length-drop, length-take, ok, ◌++◌, ◌∙◌,
  refl, some, Absent, take-length-append, drop-length-append, drop-drop,
}
use my_file_server.Buffer.{Buffer, read_at, find_crlf}
use my_file_server.Buffer.Content.{
  IsValid, content, length-content, length-content-readable, read_at-content,
  retrieve_until-IsValid, content-retrieve_until,
}
use my_file_server.Buffer.Crlf.{HasCrlf, crlf, find_crlf-line}
use my_file_server.Http.Context.{retrieve_line}

HasCrlf-le : (xs : Bytes) (k : ℕ) → HasCrlf xs k → k + 2 ≤ length xs
HasCrlf-le xs k e =
    let two = ap (length {A = ℕ}) e in
    omega (arith, two, length-take 2 (drop k xs), length-drop k xs)

pub record TakesLine (b : Buffer) (k : ℕ) : Type 0 where
  pub inside : k + 2 ≤ length (content b)
  pub line : read_at b.buffer b.reader_index k ≡ ok (take k (content b))
  pub valid : IsValid (retrieve_line b k)
  pub rest : content (retrieve_line b k) ≡ drop (k + 2) (content b)
  pub shorter : length (content (retrieve_line b k)) + (k + 2) ≡ length (content b)

-- Where a CRLF stands at k, the line in front of it can be read and is taken off with its CRLF.
pub takes_line : (b : Buffer) (k : ℕ) → IsValid b → HasCrlf (content b) k → TakesLine b k
unfolding retrieve_line
takes_line b k v e =
    let inside = HasCrlf-le (content b) k e in
    let rest =
      content-retrieve_until b (k + 2) (b.reader_index + k + 2) v (omega arith)
        (omega (arith, inside, length-content b v)) in
    record {
      inside = inside;
      line = read_at-content b k v (omega (arith, inside, length-content-readable b v));
      valid = retrieve_until-IsValid b (b.reader_index + k + 2) v;
      rest = rest;
      shorter = omega (arith, ap (length {A = ℕ}) rest, length-drop (k + 2) (content b), inside);
    }

-- A buffer that starts with the line `line`.
pub record NextLine (b : Buffer) (line rest : Bytes) : Type 0 where
  pub found : find_crlf b ≡ ok (some (length line))
  pub read : read_at b.buffer b.reader_index (length line) ≡ ok line
  pub valid : IsValid (retrieve_line b (length line))
  pub after : content (retrieve_line b (length line)) ≡ rest

pub next_line :
    (b : Buffer) (line rest : Bytes)
    → IsValid b
    → Absent b'\r' line
    → content b ≡ line ++ (crlf ++ rest)
    → NextLine b line rest
next_line b line rest v h e =
    let here : HasCrlf (content b) (length line) =
      rw e (ap (take 2) (drop-length-append line (crlf ++ rest))) in
    let t = takes_line b (length line) v here in
    record {
      found = find_crlf-line b line rest v h e;
      read = t.line ∙ ap ok (rw e (take-length-append line (crlf ++ rest)));
      valid = t.valid;
      after =
          t.rest
          ∙ ap (drop (length line + 2)) e
          ∙ drop-drop (length line) 2 (length line + 2) (line ++ (crlf ++ rest)) refl
          ∙ ap (drop 2) (drop-length-append line (crlf ++ rest));
    }
