-- ===== src/Http/Context/Segments.antt =====
-- `HttpContext::parseRequest` (http/HttpContext.cc) on requests that arrive in several pieces.
use my_file_server.Common.{
  ℕ, zero, suc, ◌≡◌, ◌≢◌, refl, arith, inl, inr, Bool, Bool-cases, false, Option, none, some,
  Result, ok, err, ◌>>=◌, no_fuel,
}
use my_file_server.Buffer.{Buffer, read_at, find_crlf, readable_bytes}
use my_file_server.Buffer.Content.{IsValid, content}
use my_file_server.Buffer.Crlf.{HasCrlf, FirstCrlf, find_crlf-FirstCrlf}
use my_file_server.Http.Headers.{Headers}
use my_file_server.Http.Request.{Request}
use my_file_server.Http.Context.Heads.{reading}
use my_file_server.Http.Context.{
  ParseState, expect_request_line, expect_headers, expect_body, got_all, Context, Progress,
  request_line, header_line, headers_turn, body_of, body_turn, turn, parse_loop, parse_fuel,
  starting, parse_request,
}

no_line : (b : Buffer) → IsValid b → ((j : ℕ) → ¬ HasCrlf (content b) j) → find_crlf b ≡ ok none
no_line b v h = go (find_crlf-FirstCrlf b v)
  where
    go : (o : Option ℕ) × (find_crlf b ≡ ok o) × FirstCrlf (content b) o → find_crlf b ≡ ok none
    go (none, e, first) = e
    go (some k, e, first) = absurd (h k first.0)

-- Before the end of the request line has arrived, `parseRequest` reports an error, and the context
-- and the buffer stay as they are.
pub parse_request_early :
    (req : Request) (b : Buffer) (time : ℕ)
    → IsValid b
    → ((j : ℕ) → ¬ HasCrlf (content b) j)
    → parse_request (record { state = expect_request_line; request = req }) b time
      ≡ ok (false, record { state = expect_request_line; request = req }, b)
unfolding parse_request parse_loop turn request_line
parse_request_early req b time v h = rw (four, no_line b v h)
  where
    four : parse_fuel b ≡ suc (suc (suc (suc (readable_bytes b))))
    four = omega arith

abbrev Holds {ℓ κ} : {A : Type ℓ} → (A → Type κ) → Result A → Type κ
Holds P (ok a) = P a
Holds P (err e) = Unit

bind-Holds {ℓ κ μ} :
    {A : Type ℓ} {B : Type κ} (P : B → Type μ) (m : Result A) (f : A → Result B)
    → ((a : A) → Holds P (f a))
    → Holds P (m >>= f)
bind-Holds P (ok a) f h = h a
bind-Holds P (err e) f h = tt

-- No success yet, and behind the request line.
abbrev Late : Progress → Type 0
Late p = (p.good ≡ false) × (p.context.state ≢ expect_request_line)

headers_turn-Late : (p : Progress) (o : Option ℕ) → Late p → Holds Late (headers_turn p o)
unfolding headers_turn
headers_turn-Late p none late = late
headers_turn-Late p (some k) late =
    bind-Holds Late (read_at p.buffer.buffer p.buffer.reader_index k) _ λ line.
      elim (Bool-cases (header_line p.context.request line).1) [
        | inl more ↦ rw more late
        | inr last ↦ rw last (late.0, λ e. cc)
      ]

turn-Late :
    (state : ParseState) (fuel time : ℕ) (p : Progress)
    → p.context.state ≡ state
    → Late p
    → Holds Late (turn state fuel time p)
unfolding turn body_turn
turn-Late expect_request_line fuel time p e late = absurd (late.1 e)
turn-Late expect_headers fuel time p e late =
    bind-Holds Late (find_crlf p.buffer) _ λ o. headers_turn-Late p o late
turn-Late expect_body fuel time p e late =
    bind-Holds Late (body_of p.context.request.method fuel p.context.request p.buffer) _
      λ x. (late.0, λ q. cc)
turn-Late got_all fuel time p e late = late

parse_loop-Late : (fuel time : ℕ) (p : Progress) → Late p → Holds Late (parse_loop fuel time p)
unfolding parse_loop
parse_loop-Late zero time p late = tt
parse_loop-Late (suc fuel) time p late = elim (Bool-cases p.has_more) [
  | inl more ↦
      rw (more, parse_loop)
        (go (turn p.context.state fuel time p) (turn-Late p.context.state fuel time p refl late)
          (λ q l. parse_loop-Late fuel time q l))
  | inr last ↦ rw (last, parse_loop) late
]
  where
    go :
        (r : Result Progress)
        → Holds Late r
        → ((q : Progress) → Late q → Holds Late (parse_loop fuel time q))
        → Holds Late (r >>= λ q. parse_loop fuel time q)
    go (ok q) l ih = ih q l
    go (err e) l ih = tt

-- Behind the request line no call of `parseRequest` reports success, whatever it reads.
parse_request_late :
    (c d : Context) (b e : Buffer) (time : ℕ) (good : Bool)
    → c.state ≢ expect_request_line
    → parse_request c b time ≡ ok (good, d, e)
    → good ≡ false
unfolding parse_request
parse_request_late c d b e time good ne run =
    go (parse_loop (parse_fuel b) time (starting c b))
      (parse_loop-Late (parse_fuel b) time (starting c b) (refl, ne)) run
  where
    go :
        (r : Result Progress)
        → Holds Late r
        → ◌>>=◌ {B = Bool × Context × Buffer} r (λ p. ok (p.good, p.context, p.buffer))
          ≡ ok (good, d, e)
        → good ≡ false
    go (ok p) late same = ground (arith, late.0)
    go (err fault) late same = cc

-- In the state `got_all` the loop does nothing and never ends.
pub parse_loop-got_all :
    (fuel time : ℕ) (req : Request) (b : Buffer)
    → parse_loop fuel time (reading false got_all req b) ≡ err no_fuel
unfolding parse_loop turn
parse_loop-got_all zero time req b = refl
parse_loop-got_all (suc fuel) time req b = parse_loop-got_all fuel time req b
