-- ===== src/Log/Logger/Holding.antt =====
-- logger/LogStream.cc: a buffer that holds a text, what is put behind it, and what lies behind that.
use my_file_server.Common.{
  ℕ, ◌+◌, ◌-◌, ◌≤◌, ◌<◌, ◌≡◌, ap, ◌∙◌, arith, true, ◌++◌, Bytes, length, length-append, length-take,
  drop, decimal, to_string, length-decimal, pos, ltb, lt→ltb, leb, le→leb, int_limit,
}
use my_file_server.Log.Stream.{FixedBuffer, avail, append, format_integer}
use my_file_server.Log.Stream.Rest.{drop_further, append-rest, format_integer-rest}
use my_file_server.Log.Stream.Text.{IsFixed, logged, append-logged, format_integer-logged}

-- A buffer that has taken up the text, in an array that was `bytes` before; it differs from that
-- behind the text in the next `spoilt` bytes at most.
pub record Holds (bytes : Bytes) (spoilt : ℕ) (b : FixedBuffer) (text : Bytes) : Type 0 where
  pub fixed : IsFixed b
  pub sized : length b.data_bytes ≡ length bytes
  pub has : logged b ≡ text
  pub rest : drop (length text + spoilt) b.data_bytes ≡ drop (length text + spoilt) bytes

module _ {bytes : Bytes} {spoilt : ℕ} {b : FixedBuffer} {text : Bytes}
    (h : Holds bytes spoilt b text) where
  pub Holds-cur : b.cur ≡ length text
  Holds-cur = omega (arith, h.fixed, ap length h.has, length-take b.cur b.data_bytes)

  Holds-avail : avail b ≡ length bytes - length text
  unfolding avail
  Holds-avail = omega (arith, h.sized, Holds-cur)

  -- A text that covers what was spoilt.
  pub append_covers :
      (new : Bytes)
      → spoilt ≤ length new
      → length (text ++ new) < length bytes
      → Holds bytes 0 (append b new) (text ++ new)
  append_covers new covers room =
      let (fixed, sized, has) = append-logged b new h.fixed in
      let both = length-append text new in
      let fits : ltb (length new) (avail b) ≡ true =
        lt→ltb _ _ (omega (arith, Holds-avail, room, both)) in
      record {
        fixed = fixed;
        sized = sized ∙ h.sized;
        has = has ∙ rw fits (ap (◌++ new) h.has);
        rest =
            drop_further (b.cur + length new) (length (text ++ new) + 0) _ _
              (omega (arith, both, Holds-cur)) (append-rest b new h.fixed fits)
            ∙ drop_further (length text + spoilt) (length (text ++ new) + 0) b.data_bytes bytes
                (omega (arith, both)) h.rest;
      }

  -- `formatInteger` spoils the byte behind the number.
  pub format_integer-Holds :
      (n : ℕ)
      → n < int_limit
      → spoilt ≡ 0
      → length text + 48 ≤ length bytes
      → Holds bytes 1 (format_integer b (pos n)) (text ++ decimal n)
  unfolding to_string
  format_integer-Holds n small whole room =
      let short = length-decimal n small in
      let (fixed, sized, has) = format_integer-logged b (pos n) h.fixed (omega (arith, short)) in
      let both = length-append text (decimal n) in
      let fits : leb 48 (avail b) ≡ true = le→leb _ _ (omega (arith, Holds-avail, room)) in
      record {
        fixed = fixed;
        sized = sized ∙ h.sized;
        has = has ∙ rw fits (ap (◌++ decimal n) h.has);
        rest =
            drop_further (b.cur + length (decimal n) + 1) (length (text ++ decimal n) + 1) _ _
              (omega (arith, both, Holds-cur)) (format_integer-rest b (pos n) h.fixed fits)
            ∙ drop_further (length text + spoilt) (length (text ++ decimal n) + 1) b.data_bytes
                bytes (omega (arith, both, whole)) h.rest;
      }

pub append-Holds :
    {bytes : Bytes} {b : FixedBuffer} {text : Bytes} (new : Bytes)
    → Holds bytes 0 b text
    → length (text ++ new) < length bytes
    → Holds bytes 0 (append b new) (text ++ new)
append-Holds new h room = append_covers h new (omega arith) room
