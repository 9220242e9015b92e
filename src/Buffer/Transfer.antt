-- ===== src/Buffer/Transfer.antt =====
-- `readFd` and `writeFd` of net/Buffer.cc.
use my_file_server.Common.{
  ℕ, ◌+◌, ◌≤◌, ◌<◌, ◌≡◌, refl, sym, ap, ◌∙◌, inl, inr, Bool-cases, leb, leb→le, leb-false, arith,
  [], ◌++◌, append_assoc, append-nil, Bytes, length, take, drop, take-append-drop, length-take,
  length-drop, length-overwrite, overwrite, ok, max_size, add_size_lem,
}
use my_file_server.Buffer.{
  Buffer, writable_bytes, extra_size, Transferred, failed, done, read_capacity, fill, read_fd,
  write_fd,
}
use my_file_server.Buffer.Content.{IsValid, content, writable_bytes_lem, read_at-all}
use my_file_server.Buffer.Space.{
  copy_into_lem, append-content, written, written-IsValid, content-written,
}

-- What `readv` delivered.
abbrev pub received : Transferred Bytes → Bytes
received (failed errno) = []
received (done got) = got

-- `readv` fills no more than the areas that it is given.
abbrev pub FillsAtMost : (ℕ → Transferred Bytes) → Type 0
FillsAtMost readv = (n : ℕ) → length (received (readv n)) ≤ n

-- Both areas were used.
spill :
    (b : Buffer) (got : Bytes)
    → IsValid b
    → writable_bytes b < length got
    → length got ≤ writable_bytes b + extra_size
    → length b.buffer + extra_size ≤ max_size
    → (c : Buffer) × (fill b got ≡ ok c) × IsValid c × (content c ≡ content b ++ got)
unfolding fill
spill b got v more cap limit =
    let w = writable_bytes b in
    let first = take w got in
    let full : length first ≡ w = omega (arith, length-take w got) in
    let fits : b.writer_index + length first ≡ length b.buffer =
      omega (arith, full, writable_bytes_lem b v) in
    let d = written b first in
    let dv = written-IsValid b first v (omega (arith, full)) in
    let end_is : length (overwrite b.buffer b.writer_index first) ≡ b.writer_index + length first =
      omega (arith, fits, length-overwrite b.buffer b.writer_index first) in
    let (c, e, cv, same, later) =
      append-content d (drop w got) dv (omega (arith, length-drop w got))
        (omega (arith, fits, length-drop w got)) in
    rw
      (
        leb-false (length got) w more,
        copy_into_lem b.buffer b.writer_index first (omega (arith, fits)),
        end_is,
      )
      (
        c,
        e,
        cv,
        same
            ∙ ap (λ (xs : Bytes). xs ++ drop w got)
                (content-written b first v (omega (arith, full)))
            ∙ append_assoc (content b) first (drop w got)
            ∙ ap (◌++◌ (content b)) (take-append-drop w got),
      )

fill-content :
    (b : Buffer) (got : Bytes)
    → IsValid b
    → length got ≤ read_capacity b
    → length b.buffer + extra_size ≤ max_size
    → (c : Buffer) × (fill b got ≡ ok c) × IsValid c × (content c ≡ content b ++ got)
unfolding fill read_capacity
fill-content b got v cap limit = elim (Bool-cases (leb (length got) (writable_bytes b))) [
  | inl enough ↦
      let room = leb→le _ _ enough in
      rw
        (
          enough,
          copy_into_lem b.buffer b.writer_index got (omega (arith, room, writable_bytes_lem b v)),
          add_size_lem b.writer_index (length got) (omega (arith, room, writable_bytes_lem b v)),
        )
        (written b got, refl, written-IsValid b got v room, content-written b got v room)
  | inr more ↦ spill b got v (ground arith) (ground arith) limit
]

-- Whatever `readv` delivers is behind the content afterwards; an error changes nothing.
pub read_fd-content :
    (readv : ℕ → Transferred Bytes) (b : Buffer)
    → FillsAtMost readv
    → IsValid b
    → length b.buffer + extra_size ≤ max_size
    → (c : Buffer) × (read_fd readv b ≡ ok (c, readv (read_capacity b)))
      × IsValid c
      × (content c ≡ content b ++ received (readv (read_capacity b)))
unfolding read_fd
read_fd-content readv b contract v limit = go (readv (read_capacity b)) refl
  where
    go :
        (r : Transferred Bytes)
        → readv (read_capacity b) ≡ r
        → (c : Buffer) × (read_fd readv b ≡ ok (c, r))
          × IsValid c
          × (content c ≡ content b ++ received r)
    go (failed errno) e = (b, rw (e, read_fd), v, sym (append-nil (content b)))
    go (done got) e =
        let (c, f, cv, same) = fill-content b got v (rw e at (contract (read_capacity b))) limit in
        (c, rw (e, read_fd, f), cv, same)

-- `writeFd` offers the whole content, and leaves it where it is.
pub write_fd-content :
    (write : Bytes → Transferred ℕ) (b : Buffer)
    → IsValid b
    → write_fd write b ≡ ok (write (content b))
unfolding write_fd
write_fd-content write b v = rw (read_at-all b v)
