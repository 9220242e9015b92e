-- ===== src/Log/Stream/Rest.antt =====
-- What lies behind the text that a `FixedBuffer` of logger/FixedBuffer.h has taken up.
use my_file_server.Common.{
  ℕ, ◌+◌, ◌-◌, ◌≤◌, ◌≡◌, refl, sym, ap, ◌∙◌, arith, true, [], ◌∷◌, ◌++◌, append_assoc, Bytes,
  length, length-append, length-take, take, drop, drop-drop, drop-length-append, overwrite, ltb,
  leb, ℤ, to_string,
}
use my_file_server.Log.Stream.{
  FixedBuffer, avail, append, max_numeric_size, reversed, format_integer,
}
use my_file_server.Log.Stream.Text.{IsFixed, written_of, reversed-written_of}

-- Where two texts agree, they agree further on.
pub drop_further : (m k : ℕ) (xs ys : Bytes) → m ≤ k → drop m xs ≡ drop m ys → drop k xs ≡ drop k ys
drop_further m k xs ys h e =
    drop-drop m (k - m) k xs (omega arith)
    ∙ ap (drop (k - m)) e
    ∙ sym (drop-drop m (k - m) k ys (omega arith))

drop-overwrite :
    (xs : Bytes) (offset k : ℕ) (src : Bytes)
    → offset ≤ length xs
    → k ≡ offset + length src
    → drop k (overwrite xs offset src) ≡ drop k xs
drop-overwrite xs offset k src h e =
    let front = take offset xs ++ src in
    let size : k ≡ length front =
      omega (arith, e, length-append (take offset xs) src, length-take offset xs) in
    ap (drop k) (sym (append_assoc (take offset xs) src (drop (offset + length src) xs)))
    ∙ ap (λ (n : ℕ). drop n (front ++ drop (offset + length src) xs)) size
    ∙ drop-length-append front (drop (offset + length src) xs)
    ∙ ap (λ (n : ℕ). drop n xs) (sym e)

-- What is behind a text that was put in is what was there.
pub append-rest :
    (b : FixedBuffer) (text : Bytes)
    → IsFixed b
    → ltb (length text) (avail b) ≡ true
    → drop (b.cur + length text) (append b text).data_bytes
      ≡ drop (b.cur + length text) b.data_bytes
unfolding append
append-rest b text v fits =
    rw fits (drop-overwrite b.data_bytes b.cur (b.cur + length text) text v refl)

-- The same for a number, but for the 0 that `formatInteger` puts behind it.
pub format_integer-rest :
    (b : FixedBuffer) (num : ℤ)
    → IsFixed b
    → leb max_numeric_size (avail b) ≡ true
    → drop (b.cur + length (to_string num) + 1) (format_integer b num).data_bytes
      ≡ drop (b.cur + length (to_string num) + 1) b.data_bytes
unfolding format_integer
format_integer-rest b num v room =
    let text = reversed (written_of num) in
    let size = ap (length {A = ℕ}) (reversed-written_of num) in
    rw room (
      drop-overwrite b.data_bytes b.cur (b.cur + length (to_string num) + 1) (text ++ 0 ∷ []) v
        (omega (arith, size, length-append text (0 ∷ []))))
