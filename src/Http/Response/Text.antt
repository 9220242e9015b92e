-- ===== src/Http/Response/Text.antt =====
-- The text that an `HttpResponse` stands for, and `appendToBuffer` of http/HttpResponse.cc.
use my_file_server.Common.{
  ◌+◌, ◌≤◌, ◌<◌, ◌≡◌, refl, sym, ap, ◌∙◌, fun_ext, arith, List, [], ◌∷◌, ◌++◌, append_assoc,
  append-nil, Bytes, length, length-append, codes, Result, ok, inl, inr, Bool-cases, err, ◌>>=◌,
  if◌then◌else◌, int_limit, max_size,
}
use my_file_server.Buffer.{Buffer, append}
use my_file_server.Buffer.Content.{IsValid, content}
use my_file_server.Buffer.Space.{append-content}
use my_file_server.Http.Headers.{Headers}
use my_file_server.Http.Response.{
  Response, status_text, append_each, header_pieces, connection_pieces, append_to_buffer,
}

abbrev pub joined : List Bytes → Bytes
joined [] = []
joined (t ∷ ts) = t ++ joined ts

joined-append : (xs ys : List Bytes) → joined (xs ++ ys) ≡ joined xs ++ joined ys
joined-append [] ys = refl
joined-append (x ∷ xs) ys =
    ap (◌++◌ x) (joined-append xs ys) ∙ sym (append_assoc x (joined xs) (joined ys))

-- A row of appends puts the pieces behind the content, one after the other.
append_each-content :
    (b : Buffer) (ts : List Bytes)
    → IsValid b
    → length (joined ts) < int_limit
    → b.writer_index + length (joined ts) ≤ max_size
    → (c : Buffer) × (append_each b ts ≡ ok c)
      × IsValid c
      × (content c ≡ content b ++ joined ts)
      × (c.writer_index ≤ b.writer_index + length (joined ts))
unfolding append_each
append_each-content b [] v small limit = (b, refl, v, sym (append-nil (content b)), omega arith)
append_each-content b (t ∷ ts) v small limit =
    let both = length-append t (joined ts) in
    let (c, e, w, same, later) = append-content b t v (omega (arith, both)) (omega (arith, both)) in
    let (d, f, x, more, last) =
      append_each-content c ts w (omega (arith, both)) (omega (arith, both, later)) in
    (
      d,
      rw e f,
      x,
      more ∙ rw same (append_assoc (content b) t (joined ts)),
      omega (arith, both, later, last),
    )

append_each-append :
    (b : Buffer) (xs ys : List Bytes)
    → append_each b (xs ++ ys) ≡ (append_each b xs >>= λ c. append_each c ys)
unfolding append_each
append_each-append b [] ys = refl
append_each-append b (x ∷ xs) ys = go (append b x) (λ c. append_each-append c xs ys)
  where
    go :
        (r : Result Buffer)
        → ((c : Buffer) → append_each c (xs ++ ys) ≡ (append_each c xs >>= λ d. append_each d ys))
        → (r >>= λ c. append_each c (xs ++ ys))
          ≡ ((r >>= λ c. append_each c xs) >>= λ d. append_each d ys)
    go (ok c) ih = ih c
    go (err fault) ih = refl

-- A header line for each entry, in the order given.
abbrev pub header_text : Headers → Bytes
header_text [] = []
header_text ((key, value) ∷ hs) = key ++ (codes ": " ++ (value ++ (codes "\r\n" ++ header_text hs)))

abbrev pub connection_text : Response → Bytes
connection_text r =
    if r.close_connection
    then codes "Connection: close\r\n"
    else status_text r.status_code ++ codes "Connection: Keep-Alive\r\n"

-- The whole response.
abbrev pub response_text : (Headers → Headers) → Response → Bytes
response_text order r =
    status_text r.status_code
    ++ (r.status_message
        ++ (codes "\r\n"
            ++ (connection_text r ++ (header_text (order r.headers) ++ (codes "\r\n" ++ r.body)))))

joined-header_pieces : (hs : Headers) → joined (header_pieces hs) ≡ header_text hs
unfolding header_pieces
joined-header_pieces [] = refl
joined-header_pieces ((key, value) ∷ hs) = rw (joined-header_pieces hs) refl

joined-connection_pieces : (r : Response) → joined (connection_pieces r) ≡ connection_text r
unfolding connection_pieces
joined-connection_pieces r = elim (Bool-cases r.close_connection) [
  | inl close ↦ rw close refl
  | inr keep ↦ rw keep (simp append-nil)
]

bind_cong :
    (m : Result Buffer) {f g : Buffer → Result Buffer}
    → ((c : Buffer) → f c ≡ g c)
    → (m >>= f) ≡ (m >>= g)
bind_cong m h = ap (λ k. m >>= k) (fun_ext h)

all_pieces : (Headers → Headers) → Response → List Bytes
all_pieces order r =
    (status_text r.status_code ∷ r.status_message ∷ codes "\r\n" ∷ [])
    ++ (connection_pieces r ++ (header_pieces (order r.headers) ++ (codes "\r\n" ∷ r.body ∷ [])))

append_to_buffer-pieces :
    (order : Headers → Headers) (r : Response) (b : Buffer)
    → append_to_buffer order r b ≡ append_each b (all_pieces order r)
unfolding append_to_buffer all_pieces
append_to_buffer-pieces order r b = sym (
    append_each-append b (status_text r.status_code ∷ r.status_message ∷ codes "\r\n" ∷ []) _
    ∙ bind_cong (append_each b (status_text r.status_code ∷ r.status_message ∷ codes "\r\n" ∷ []))
        λ c.
          append_each-append c (connection_pieces r) _
          ∙ bind_cong (append_each c (connection_pieces r))
              λ d. append_each-append d (header_pieces (order r.headers)) _)

joined-all_pieces :
    (order : Headers → Headers) (r : Response) → joined (all_pieces order r) ≡ response_text order r
unfolding all_pieces
joined-all_pieces order r =
    simp (joined-append, joined-connection_pieces, joined-header_pieces, append-nil)

-- `appendToBuffer` puts the response behind what the buffer holds.
pub append_to_buffer-content :
    (order : Headers → Headers) (r : Response) (b : Buffer)
    → IsValid b
    → length (response_text order r) < int_limit
    → b.writer_index + length (response_text order r) ≤ max_size
    → (c : Buffer) × (append_to_buffer order r b ≡ ok c)
      × IsValid c
      × (content c ≡ content b ++ response_text order r)
append_to_buffer-content order r b v small limit =
    let same = joined-all_pieces order r in
    let (c, e, w, text, _) =
      append_each-content b (all_pieces order r) v (rw same small) (rw same limit) in
    (c, append_to_buffer-pieces order r b ∙ e, w, text ∙ ap (◌++◌ (content b)) same)
