-- ===== src/Buffer/Tests.antt =====
-- net/Buffer.h and net/Buffer.cc at concrete inputs.
use my_file_server.Common.{
  ℕ, ◌≤◌, ◌≡◌, refl, arith, ◌++◌, some, Bytes, length-take, take, codes, ok, sub_size, add_size,
}
use my_file_server.Buffer.{
  Buffer, append, retrieve, find_crlf, write_fd, read_fd, Transferred, done, read_capacity,
  readable_bytes, read_at, search_crlf,
}
use my_file_server.Buffer.Content.{IsValid, content}
use my_file_server.Buffer.Space.{append-content}
use my_file_server.Buffer.Transfer.{FillsAtMost, received, read_fd-content, write_fd-content}

-- Four bytes were read already, two lines are left, and two bytes are free behind them.
abbrev half_read : Buffer
half_read = record {
  buffer = codes "01234567GET ab\r\ncd\r\n..";
  reader_index = 12;
  writer_index = 20;
}

half_read-IsValid : IsValid half_read
half_read-IsValid = omega arith

content_of_half_read : content half_read ≡ codes "ab\r\ncd\r\n"
content_of_half_read = refl

after_retrieve : content (retrieve half_read 4) ≡ codes "cd\r\n"
unfolding retrieve readable_bytes sub_size add_size
after_retrieve = refl

first_crlf_of_half_read : find_crlf half_read ≡ ok (some 2)
unfolding find_crlf read_at readable_bytes sub_size search_crlf
first_crlf_of_half_read = refl

append-content_example :
    (c : Buffer) × (append half_read (codes "efg") ≡ ok c)
    × IsValid c
    × (content c ≡ content half_read ++ codes "efg")
    × (c.writer_index ≤ 23)
append-content_example =
    append-content half_read (codes "efg") half_read-IsValid (omega arith) (omega arith)

-- A `readv` that delivers three bytes.
abbrev three_bytes : ℕ → Transferred Bytes
three_bytes n = done (take n (codes "efg"))

three_bytes-FillsAtMost : FillsAtMost three_bytes
three_bytes-FillsAtMost n = omega (arith, length-take n (codes "efg"))

read_fd-content_example :
    (c : Buffer) × (read_fd three_bytes half_read ≡ ok (c, three_bytes (read_capacity half_read)))
    × IsValid c
    × (content c ≡ content half_read ++ received (three_bytes (read_capacity half_read)))
read_fd-content_example =
    read_fd-content three_bytes half_read three_bytes-FillsAtMost half_read-IsValid (omega arith)

abbrev takes_two : Bytes → Transferred ℕ
takes_two offered = done 2

write_fd-content_example : write_fd takes_two half_read ≡ ok (takes_two (content half_read))
write_fd-content_example = write_fd-content takes_two half_read half_read-IsValid
