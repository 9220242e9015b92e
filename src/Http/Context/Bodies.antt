-- ===== src/Http/Context/Bodies.antt =====
-- The fuel of the loop over the headers of a form, in `HttpContext::parseRequest` (http/HttpContext.cc).
use my_file_server.Common.{
  ℕ, zero, suc, ◌<◌, ◌≡◌, ◌≢◌, refl, inl, inr, arith, Bool-cases, Option, none, some, Bytes, length,
  take, ℤ, pos, negsuc, to_int, signed, atoi, skip_spaces, codes, equal, Result, ok, err, ◌>>=◌,
  no_fuel,
}
use my_file_server.Buffer.{Buffer, read_at, find_crlf}
use my_file_server.Buffer.Content.{IsValid, content}
use my_file_server.Buffer.Crlf.{find_crlf-FirstCrlf, FirstCrlf}
use my_file_server.Http.Request.{Request, Method, post, assign, index_header, add_content}
use my_file_server.Http.Context.Lines.{takes_line}
use my_file_server.Http.Context.{
  header_line, part_headers, form_at, form_body, post_body, body_of, retrieve_line,
}

abbrev pub Returns {ℓ} : {A : Type ℓ} → Result A → Type ℓ
Returns r = r ≢ err no_fuel

pub ok-Returns {ℓ} : {A : Type ℓ} (a : A) → Returns (ok a)
ok-Returns a e = cc

pub bind-Returns {ℓ κ} :
    {A : Type ℓ} {B : Type κ} (m : Result A) (f : A → Result B)
    → Returns m
    → ((a : A) → m ≡ ok a → Returns (f a))
    → Returns (m >>= f)
bind-Returns (ok a) f h k = k a refl
bind-Returns (err e) f h k = λ q. h cc

part_headers-Returns :
    (fuel : ℕ) (req : Request) (b : Buffer)
    → IsValid b
    → length (content b) < fuel
    → Returns (part_headers fuel req b)
unfolding part_headers
part_headers-Returns zero req b v h = absurd (omega arith)
part_headers-Returns (suc fuel) req b v h =
    let (o, e, first) = find_crlf-FirstCrlf b v in
    go o e first (λ next c w l. part_headers-Returns fuel next c w l)
  where
    go :
        (o : Option ℕ)
        → find_crlf b ≡ ok o
        → FirstCrlf (content b) o
        → ((next : Request) (c : Buffer)
            → IsValid c
            → length (content c) < fuel
            → Returns (part_headers fuel next c))
        → Returns (part_headers (suc fuel) req b)
    go none e first ih = rw (e, part_headers) (λ q. cc)
    go (some k) e first ih =
        let t = takes_line b k v first.0 in
        let line = take k (content b) in
        elim (Bool-cases (header_line req line).1) [
          | inl more ↦
              rw (e, part_headers, t.line, ◌>>=◌, more) (ih _ _ t.valid (omega (arith, t.shorter)))
          | inr last ↦ rw (e, part_headers, t.line, ◌>>=◌, last) (λ q. cc)
        ]

read_at-Returns : (storage : Bytes) (offset n : ℕ) → Returns (read_at storage offset n)
unfolding read_at
read_at-Returns storage offset n = ground arith

to_int-Returns : (z : ℤ) → Returns (to_int z)
unfolding to_int
to_int-Returns (pos n) = ground arith
to_int-Returns (negsuc n) = ground arith

assign-Returns : (storage : Bytes) (offset : ℕ) (len : ℤ) → Returns (assign storage offset len)
unfolding assign
assign-Returns storage offset (pos n) = read_at-Returns storage offset n
assign-Returns storage offset (negsuc n) = λ e. cc

add_content-Returns :
    (req : Request) (storage : Bytes) (offset : ℕ) → Returns (add_content req storage offset)
unfolding add_content atoi
add_content-Returns req storage offset =
    let text = skip_spaces (index_header req (codes "Content-Length")).0 in
    bind-Returns (to_int (signed text)) _ (to_int-Returns (signed text)) λ len _.
      bind-Returns (read_at storage offset 3) _ (read_at-Returns storage offset 3) λ printed _.
        bind-Returns (assign storage offset len) _ (assign-Returns storage offset len)
          λ content _. ok-Returns _

module _ (fuel : ℕ) (req : Request) (b : Buffer) (v : IsValid b)
    (h : length (content b) < fuel) where
  form-Returns : Returns (form_body fuel req b)
  unfolding form_body
  form-Returns = let (o, e, first) = find_crlf-FirstCrlf b v in rw e (go o first)
    where
      go : (o : Option ℕ) → FirstCrlf (content b) o → Returns (form_at fuel req b o)
      go none first = λ e. cc
      go (some k) first =
          let t = takes_line b k v first.0 in
          let c = retrieve_line b k in
          bind-Returns (read_at c.buffer c.reader_index 1) _
            (read_at-Returns c.buffer c.reader_index 1)
            λ printed _.
              bind-Returns (part_headers fuel req c) _
                (part_headers-Returns fuel req c t.valid (omega (arith, t.shorter)))
                λ parts _.
                  bind-Returns (read_at parts.1.buffer parts.1.reader_index 1) _
                    (read_at-Returns parts.1.buffer parts.1.reader_index 1)
                    λ second _.
                      bind-Returns (add_content parts.0 parts.1.buffer parts.1.reader_index) _
                        (add_content-Returns parts.0 parts.1.buffer parts.1.reader_index)
                        λ filled _. ok-Returns _

  post_body-Returns : Returns (post_body fuel req b)
  unfolding post_body
  post_body-Returns =
      bind-Returns (read_at b.buffer b.reader_index 1) _ (read_at-Returns b.buffer b.reader_index 1)
        λ first _. elim (Bool-cases (equal first (codes "-"))) [
          | inl form ↦ rw form form-Returns
          | inr plain ↦ rw plain (
              bind-Returns (add_content req b.buffer b.reader_index) _
                (add_content-Returns req b.buffer b.reader_index) λ filled _. ok-Returns _)
        ]

  pub body_of-Returns : (m : Method) → Returns (body_of m fuel req b)
  unfolding body_of
  body_of-Returns post = post_body-Returns
  body_of-Returns _ = λ e. cc
