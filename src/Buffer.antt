-- ===== src/Buffer.antt =====
-- net/Buffer.h and net/Buffer.cc: the byte buffer of a connection. A pointer into the storage is
-- the offset it has; `peek()` is the offset `reader_index`.
pub mod Content
pub mod Space
pub mod Transfer
pub mod Crlf
mod Tests
use my_file_server.Common.{
  ℕ, ◌+◌, ◌==◌, ltb, leb, if◌then◌else◌, ◌&&◌, [], ◌∷◌, ◌++◌, Option, none, some, Bytes, length,
  take, drop, overwrite, replicate, Result, ok, err, ◌>>=◌, out_of_bounds, length_error, add_size,
  sub_size, size_of_int, max_size,
}

abbrev pub cheap_prepend : ℕ
cheap_prepend = 8

abbrev pub initial_size : ℕ
initial_size = 1024

-- The stack space that `readFd` reads into when the buffer is short.
abbrev pub extra_size : ℕ
extra_size = 65536

pub record Buffer : Type 0 where
  pub buffer : Bytes
  pub reader_index : ℕ
  pub writer_index : ℕ

unfoldable pub init : ℕ → Buffer
init size = record {
  buffer = replicate (cheap_prepend + size) 0;
  reader_index = cheap_prepend;
  writer_index = cheap_prepend;
}

unfoldable pub readable_bytes : Buffer → ℕ
readable_bytes b = sub_size b.writer_index b.reader_index

unfoldable pub writable_bytes : Buffer → ℕ
writable_bytes b = sub_size (length b.buffer) b.writer_index

abbrev pub prependable_bytes : Buffer → ℕ
prependable_bytes b = b.reader_index

-- `std::copy(src, src + n, begin() + offset)`: bytes outside the vector may not be written.
unfoldable pub copy_into : Bytes → ℕ → Bytes → Result Bytes
copy_into buffer offset src =
    if leb (offset + length src) (length buffer)
    then ok (overwrite buffer offset src)
    else err out_of_bounds

-- `std::string(begin() + offset, n)`: nor read.
unfoldable pub read_at : Bytes → ℕ → ℕ → Result Bytes
read_at buffer offset n =
    if leb (offset + n) (length buffer) then ok (take n (drop offset buffer)) else err out_of_bounds

-- `vector::resize`: new bytes are 0.
unfoldable pub resize : Bytes → ℕ → Result Bytes
resize buffer n = if leb n max_size then ok (take n (buffer ++ replicate n 0)) else err length_error

unfoldable pub prepend : Buffer → Bytes → Result Buffer
prepend b src = do
  let offset = sub_size b.reader_index (length src)
  written ← copy_into b.buffer offset src
  ok (record b { buffer = written; reader_index = offset })

unfoldable pub retrieve_all : Buffer → Buffer
retrieve_all b = record b { reader_index = cheap_prepend; writer_index = cheap_prepend }

unfoldable pub retrieve : Buffer → ℕ → Buffer
unfolding retrieve_all
retrieve b len =
    if ltb len (readable_bytes b)
    then record b { reader_index = add_size b.reader_index len }
    else retrieve_all b

-- `retrieveUntil(end)`, with `end` as an offset into the storage.
unfoldable pub retrieve_until : Buffer → ℕ → Buffer
retrieve_until b end_at = retrieve b (sub_size end_at b.reader_index)

unfoldable pub get_buffer_all_as_string : Buffer → Result Bytes
get_buffer_all_as_string b = read_at b.buffer b.reader_index (readable_bytes b)

unfoldable pub retrieve_as_string : Buffer → ℕ → Result (Bytes × Buffer)
retrieve_as_string b len = do
  result ← read_at b.buffer b.reader_index len
  ok (result, retrieve b len)

unfoldable pub retrieve_all_as_string : Buffer → Result (Bytes × Buffer)
retrieve_all_as_string b = retrieve_as_string b (readable_bytes b)

-- `makeSpace(int len)`: the conversion to `int` and back is part of the call.
unfoldable pub make_space : Buffer → ℕ → Result Buffer
make_space b size =
    let len = size_of_int size in
    if ltb (add_size (writable_bytes b) (prependable_bytes b)) (add_size len cheap_prepend)
    then (do
      grown ← resize b.buffer (add_size b.writer_index len)
      ok (record b { buffer = grown }))
    else (do
      let readable = readable_bytes b
      content ← read_at b.buffer b.reader_index readable
      moved ← copy_into b.buffer cheap_prepend content
      ok (record {
        buffer = moved;
        reader_index = cheap_prepend;
        writer_index = add_size cheap_prepend readable;
      }))

unfoldable pub ensure_writable_bytes : Buffer → ℕ → Result Buffer
ensure_writable_bytes b len = if ltb (writable_bytes b) len then make_space b len else ok b

unfoldable pub append : Buffer → Bytes → Result Buffer
append b src = do
  c ← ensure_writable_bytes b (length src)
  written ← copy_into c.buffer c.writer_index src
  ok (record c { buffer = written; writer_index = add_size c.writer_index (length src) })

-- `std::search` for the two bytes of CRLF: the offset of the first match, or the length.
unfoldable pub search_crlf : Bytes → ℕ
search_crlf [] = 0
search_crlf (c ∷ []) = 1
search_crlf (c ∷ d ∷ cs) =
    let later = search_crlf (d ∷ cs) in if c == b'\r' && d == b'\n' then 0 else later + 1

-- `none` is NULL; a match is an offset from `peek()`.
unfoldable pub find_crlf : Buffer → Result (Option ℕ)
find_crlf b = do
  readable ← read_at b.buffer b.reader_index (readable_bytes b)
  let crlf = search_crlf readable
  ok (if crlf == length readable then none else some crlf)

-- What `readv` or `write` returns: -1 with `errno`, or what was transferred.
pub data Transferred (A : Type 0) : Type 0 where
  failed : ℕ → Transferred A
  done : A → Transferred A

-- The bytes that `readv` may fill, for the `iovcnt` that is passed.
unfoldable pub read_capacity : Buffer → ℕ
read_capacity b =
    let writable = writable_bytes b in
    if ltb writable extra_size then writable + extra_size else writable

-- `readv` fills the writable area first and `extrabuf` with the rest.
unfoldable pub fill : Buffer → Bytes → Result Buffer
fill b got =
    let writable = writable_bytes b in
    if leb (length got) writable
    then (do
      written ← copy_into b.buffer b.writer_index got
      ok (record b { buffer = written; writer_index = add_size b.writer_index (length got) }))
    else (do
      written ← copy_into b.buffer b.writer_index (take writable got)
      append
          (record {
            buffer = written;
            reader_index = b.reader_index;
            writer_index = length written;
          })
          (drop writable got))

-- The system's `readv` is the argument: what it delivers, given how much there is room for.
unfoldable pub read_fd : (ℕ → Transferred Bytes) → Buffer → Result (Buffer × Transferred Bytes)
read_fd readv b = elim (readv (read_capacity b)) [
  | failed errno ↦ ok (b, failed errno)
  | done got ↦ (do filled ← fill b got; ok (filled, done got))
]

-- The system's `write` is the argument: how many of the bytes handed over it took.
unfoldable pub write_fd : (Bytes → Transferred ℕ) → Buffer → Result (Transferred ℕ)
write_fd write b = do
  readable ← read_at b.buffer b.reader_index (readable_bytes b)
  ok (write readable)
