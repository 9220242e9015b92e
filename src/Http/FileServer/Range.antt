-- ===== src/Http/FileServer/Range.antt =====
-- Range requests in `setResponseBody` of http/FileServer.cc.
pub mod Bounds
use my_file_server.Common.{
  ℕ, ◌+◌, ◌-◌, ◌≤◌, ◌<◌, ◌==◌, if◌then◌else◌, [], ◌∷◌, ◌++◌, some, Bytes, length, take, drop, codes,
  equal, find_byte, substr, stoi, to_string, decimal, ℤ, pos, ◌+ℤ◌, ◌-ℤ◌, cast_int, Result, ok,
  ◌>>=◌,
}
use my_file_server.Http.Response.{Response, partitial_206, add_header}

-- The two sides of the hyphen; without a hyphen both are the whole text, since npos + 1 is 0.
unfoldable pub range_sides : Bytes → Bytes × Bytes
range_sides value =
    let hyphen = find_byte b'-' value in
    (take hyphen value, if hyphen == length value then value else drop (hyphen + 1) value)

-- `beg_num` and `end_num`, for a file of `len` bytes.
unfoldable pub range_bounds : Bytes → Bytes → ℕ → Result (ℤ × ℤ)
range_bounds [] [] len = ok (pos 0, pos 0)
range_bounds [] (c ∷ cs) len = do suffix ← stoi (c ∷ cs); ok (pos len -ℤ suffix, pos len -ℤ pos 1)
range_bounds (c ∷ cs) [] len = do beg_num ← stoi (c ∷ cs); ok (beg_num, pos len -ℤ pos 1)
range_bounds (c ∷ cs) (d ∷ ds) len = do
  beg_num ← stoi (c ∷ cs)
  end_num ← stoi (d ∷ ds)
  ok (beg_num, end_num)

unfoldable pub range_of : Bytes → ℕ → Result (ℤ × ℤ)
range_of range len = do
  range_value ← substr range 6
  let (beg, end_part) = range_sides range_value
  range_bounds beg end_part len

-- The response from the bounds on; the file was positioned at `beg_num` before.
unfoldable pub partial_content : ℤ → ℤ → ℕ → Response → Response
partial_content beg_num end_num len res =
    let need_len = (end_num -ℤ beg_num) +ℤ pos 1 in
    let last = (beg_num +ℤ need_len) -ℤ pos 1 in
    add_header (codes "Content-Length") (to_string need_len) (
      add_header (codes "Content-Range")
        (codes "bytes "
          ++ (to_string beg_num ++ (codes "-" ++ (to_string last ++ (codes "/" ++ decimal len)))))
        (record res { send_len = some (cast_int need_len) }))
