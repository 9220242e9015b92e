-- ===== src/Http/Context/Termination.antt =====
-- The fuel of the loop in `HttpContext::parseRequest` (http/HttpContext.cc).
use my_file_server.Common.{
  ℕ, zero, suc, ◌+◌, ◌≤◌, ◌<◌, ◌≡◌, ◌≢◌, ◌⊎◌, refl, ap, inl, inr, arith, false, Bool-cases, Option,
  none, some, length, take, Result, ok, err, ◌>>=◌, no_fuel,
}
use my_file_server.Buffer.{Buffer}
use my_file_server.Buffer.Content.{IsValid, content, length-content-readable}
use my_file_server.Buffer.Crlf.{find_crlf-FirstCrlf, FirstCrlf}
use my_file_server.Http.Request.{Request}
use my_file_server.Http.Context.Lines.{takes_line}
use my_file_server.Http.Context.{
  ParseState, expect_request_line, expect_headers, expect_body, got_all, Context, Progress,
  process_request_line, request_line, header_line, headers_turn, body_of, body_turn, turn,
  parse_loop, parse_fuel, starting, parse_request,
}
use my_file_server.Http.Context.Bodies.{Returns, ok-Returns, bind-Returns, body_of-Returns}

-- What a round of the loop leaves, if it does not fault: the end, or a shorter buffer.
abbrev Advances : Progress → Result Progress → Type 0
Advances p (ok q) =
    (q.has_more ≡ false)
    ⊎ (IsValid q.buffer
        × (q.context.state ≢ got_all)
        × (length (content q.buffer) + 2 ≤ length (content p.buffer)))
Advances p (err fault) = fault ≢ no_fuel

module _ (p : Progress) (v : IsValid p.buffer) where
  request_line-Advances :
      (time : ℕ) (o : Option ℕ)
      → FirstCrlf (content p.buffer) o
      → Advances p (request_line time p o)
  unfolding request_line
  request_line-Advances time none first = inl refl
  request_line-Advances time (some k) first =
      let t = takes_line p.buffer k v first.0 in
      let line = take k (content p.buffer) in
      elim (Bool-cases (process_request_line p.context.request line).1) [
        | inl good ↦ rw (t.line, ◌>>=◌, good) (inr (t.valid, (λ e. cc), omega (arith, t.shorter)))
        | inr bad ↦ rw (t.line, ◌>>=◌, bad) (inl refl)
      ]

  headers_turn-Advances :
      (o : Option ℕ)
      → FirstCrlf (content p.buffer) o
      → p.context.state ≢ got_all
      → Advances p (headers_turn p o)
  unfolding headers_turn
  headers_turn-Advances none first ne = inl refl
  headers_turn-Advances (some k) first ne =
      let t = takes_line p.buffer k v first.0 in
      let line = take k (content p.buffer) in
      elim (Bool-cases (header_line p.context.request line).1) [
        | inl more ↦ rw (t.line, ◌>>=◌, more) (inr (t.valid, ne, omega (arith, t.shorter)))
        | inr last ↦ rw (t.line, ◌>>=◌, last) (inr (t.valid, (λ e. cc), omega (arith, t.shorter)))
      ]

  body_turn-Advances : (fuel : ℕ) → length (content p.buffer) < fuel → Advances p (body_turn fuel p)
  unfolding body_turn
  body_turn-Advances fuel h =
      go (body_of p.context.request.method fuel p.context.request p.buffer)
        (body_of-Returns fuel p.context.request p.buffer v h p.context.request.method)
    where
      go :
          (r : Result (Request × Buffer))
          → Returns r
          → Advances p (
              r >>= λ x. ok (record p {
                context = record { state = got_all; request = x.0 };
                buffer = x.1;
                has_more = false;
              }))
      go (ok x) h = inl refl
      go (err fault) h = λ e. h (ap err e)

  turn-Advances :
      (state : ParseState) (fuel time : ℕ)
      → p.context.state ≡ state
      → state ≢ got_all
      → length (content p.buffer) < fuel
      → Advances p (turn state fuel time p)
  unfolding turn
  turn-Advances expect_request_line fuel time e ne h =
      let (o, found, first) = find_crlf-FirstCrlf p.buffer v in
      rw found (request_line-Advances time o first)
  turn-Advances expect_headers fuel time e ne h =
      let (o, found, first) = find_crlf-FirstCrlf p.buffer v in
      rw found (headers_turn-Advances o first (rw e ne))
  turn-Advances expect_body fuel time e ne h = body_turn-Advances fuel h
  turn-Advances got_all fuel time e ne h = absurd (ne refl)

-- A round that ends the loop needs one more call.
ended :
    (fuel time : ℕ) (q : Progress)
    → q.has_more ≡ false
    → 0 < fuel
    → Returns (parse_loop fuel time q)
unfolding parse_loop
ended zero time q last h = absurd (omega arith)
ended (suc fuel) time q last h = rw (last, parse_loop) (λ e. cc)

parse_loop-Returns :
    (fuel time : ℕ) (p : Progress)
    → IsValid p.buffer
    → p.context.state ≢ got_all
    → length (content p.buffer) + 3 ≤ fuel
    → Returns (parse_loop fuel time p)
unfolding parse_loop
parse_loop-Returns zero time p v ne h = absurd (omega arith)
parse_loop-Returns (suc fuel) time p v ne h = elim (Bool-cases p.has_more) [
  | inl more ↦
      rw (more, parse_loop)
        (go (turn p.context.state fuel time p)
          (turn-Advances p v p.context.state fuel time refl ne (omega arith))
          (λ q w m l. parse_loop-Returns fuel time q w m l))
  | inr last ↦ rw (last, parse_loop) (λ e. cc)
]
  where
    go :
        (r : Result Progress)
        → Advances p r
        → ((q : Progress)
            → IsValid q.buffer
            → q.context.state ≢ got_all
            → length (content q.buffer) + 3 ≤ fuel
            → Returns (parse_loop fuel time q))
        → Returns (r >>= λ q. parse_loop fuel time q)
    go (ok q) (inl last) ih = ended fuel time q last (omega arith)
    go (ok q) (inr (w, m, l)) ih = ih q w m (omega arith)
    go (err fault) a ih = λ e. a cc

-- `parseRequest` always returns, or fails for another reason than fuel, unless it is called in the
-- state `got_all`.
pub parse_request-Returns :
    (c : Context) (b : Buffer) (time : ℕ)
    → IsValid b
    → c.state ≢ got_all
    → Returns (parse_request c b time)
unfolding parse_request
parse_request-Returns c b time v ne =
    bind-Returns (parse_loop (parse_fuel b) time (starting c b)) _
      (parse_loop-Returns (parse_fuel b) time (starting c b) v ne
        (omega (arith, length-content-readable b v)))
      λ p _. ok-Returns _
