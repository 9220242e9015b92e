-- ===== src/Tcp/Connection/File.antt =====
-- `sendFile` of net/TcpConnection.cc, and `handleWrite` after it.
use my_file_server.Common.{
  ℕ, ◌-◌, ◌≤◌, ◌<◌, ◌≡◌, ◌≢◌, refl, sym, ap, subst, ◌∙◌, arith, inl, inr, Bool, true, false, not,
  ◌&&◌, Bool-cases, List, [], ◌∷◌, ◌++◌, Bytes, length, take, ltb, lt→ltb, ltb-false, ◌==◌,
  if◌then◌else◌, sub_size_lem, size_mod, ok,
}
use my_file_server.Buffer.{Transferred, done, failed, readable_bytes, retrieve}
use my_file_server.Buffer.Content.{IsValid, content, length-content-readable}
use my_file_server.Tcp.Connection.{
  connected, is_connected, is_disconnected, is_disconnecting, Connection, Event, wrote, wrote_file,
  write_complete, shut_down_write, emit, emit_if, shutdown_in_loop, is_idle, file_taken,
  attempt_file, watch_file, send_file_in_loop, send_file,
}
use my_file_server.Tcp.Connection.Handlers.{written, note_written, handle_write}
use my_file_server.Tcp.Connection.Stream.{WritesAtMost, IsSound}
use my_file_server.Tcp.Connection.Writing.{handle_write_on, handle_write_off, handle_write-drains}
use my_file_server.Tcp.Connection.Closing.{ok-same}

is_idle-true : (c : Connection) → IsSound c → c.channel_writing ≡ false → is_idle c ≡ true
unfolding is_idle
is_idle-true c s off = ap (λ (b : Bool). not b && readable_bytes c.output_buffer == 0) off ∙ empty
  where
    empty : (readable_bytes c.output_buffer == 0) ≡ true
    empty =
        ground (
          arith,
          length-content-readable c.output_buffer s.valid,
          ap (length {A = ℕ}) (s.armed off),
        )

note_written-nothing :
    (c : Connection) (r : Transferred ℕ) → ((n : ℕ) → r ≡ done n → n ≤ 0) → note_written c [] r ≡ c
unfolding note_written
note_written-nothing c (failed errno) h = refl
note_written-nothing c (done n) h = rw (ltb-false 0 n (h n refl)) refl

-- With an empty output buffer `handleWrite` does nothing, and the channel stays registered.
handle_write-nil :
    (write : Bytes → Transferred ℕ) (c : Connection)
    → WritesAtMost write
    → IsValid c.output_buffer
    → content c.output_buffer ≡ []
    → handle_write write c ≡ ok c
handle_write-nil write c most v empty = elim (Bool-cases c.channel_writing) [
  | inl on ↦
      handle_write_on write c v on
      ∙ (ap (λ (xs : Bytes). ok (note_written c xs (write xs))) empty
          ∙ ap ok (note_written-nothing c (write []) (λ n e. most [] n e)))
  | inr off ↦ handle_write_off write c off
]

-- `sendFile` on a connection that is up.
send_file_run :
    (sendfile : ℕ → ℕ → Transferred ℕ) (c : Connection) (fd count : ℕ)
    → c.state ≡ connected
    → send_file true sendfile c fd count
      ≡ watch_file (attempt_file sendfile (record c { send_fd = fd; send_len = count }))
unfolding send_file send_file_in_loop
send_file_run sendfile c fd count up =
    let x = record c { send_fd = fd; send_len = count } in
    ap (λ (b : Bool). if b then send_file_in_loop sendfile x else c) (ap is_connected up)
    ∙ ap (λ (b : Bool). if b then x else watch_file (attempt_file sendfile x))
        (ap is_disconnected up)

rest_watched :
    (x : Connection) (n : ℕ)
    → n < x.send_len
    → x.send_len < size_mod
    → watch_file (file_taken x (done n)) ≡ record (emit (wrote_file x.send_fd n) x) {
      send_len = x.send_len - n;
      channel_writing = true;
    }
unfolding watch_file file_taken
rest_watched x n part small =
    rw
      (
        sub_size_lem x.send_len n (omega arith) small,
        not_zero,
        lt→ltb 0 (x.send_len - n) (omega arith),
      )
      refl
  where
    not_zero : (x.send_len - n == 0) ≡ false
    not_zero = ground arith

-- A `sendfile` that takes a part of the file: the connection is registered for writing with the
-- rest still to send, and no later `handleWrite` changes anything.
pub send_file-partial :
    (write : Bytes → Transferred ℕ) (sendfile : ℕ → ℕ → Transferred ℕ) (c : Connection)
    (fd count n : ℕ)
    → WritesAtMost write
    → IsSound c
    → c.state ≡ connected
    → c.channel_writing ≡ false
    → sendfile fd count ≡ done n
    → n < count
    → count < size_mod
    → (d : Connection) × (send_file true sendfile c fd count ≡ d)
      × (d.send_len ≡ count - n)
      × (d.channel_writing ≡ true)
      × (handle_write write d ≡ ok d)
unfolding attempt_file
send_file-partial write sendfile c fd count n most s up off e part small =
    let x = record c { send_fd = fd; send_len = count } in
    let d = record (emit (wrote_file fd n) c) {
      send_fd = fd;
      send_len = count - n;
      channel_writing = true;
    } in
    let run : send_file true sendfile c fd count ≡ d =
      send_file_run sendfile c fd count up
      ∙ (ap (λ (b : Bool). watch_file (if b then file_taken x (sendfile fd count) else (x, false)))
            (is_idle-true x (record { valid = s.valid; armed = s.armed }) off)
          ∙ (ap (λ (r : Transferred ℕ). watch_file (file_taken x r)) e
              ∙ rest_watched x n part small)) in
    (d, run, refl, refl, handle_write-nil write d most s.valid (s.armed off))

-- The calls of `sendfile` that took something.
abbrev pub files : List Event → List (ℕ × ℕ)
files [] = []
files (wrote_file fd n ∷ es) = (fd, n) ∷ files es
files (_ ∷ es) = files es

files-emit_if :
    (b : Bool) (e : Event) (c : Connection)
    → files (e ∷ []) ≡ []
    → files (emit_if b e c).events ≡ files c.events
files-emit_if false e c h = refl
files-emit_if true e c h = go c.events
  where
    go : (es : List Event) → files (es ++ e ∷ []) ≡ files es
    go [] = h
    go (wrote_file fd n ∷ es) = ap (◌∷◌ (fd, n)) (go es)
    go (_ ∷ es) = go es

-- Nothing of a file is touched.
record SameFile (c d : Connection) : Type 0 where
  len : d.send_len ≡ c.send_len
  sent : files d.events ≡ files c.events

written-SameFile : (c : Connection) (n : ℕ) → SameFile c (written c n)
unfolding written shutdown_in_loop
written-SameFile c n = elim (Bool-cases (readable_bytes (retrieve c.output_buffer n) == 0)) [
  | inl empty ↦ elim (Bool-cases (is_disconnecting c.state)) [
    | inl closing ↦
        rw (empty, closing, shutdown_in_loop)
          (record {
            len = refl;
            sent =
                files-emit_if true shut_down_write (emit_if c.has_write_complete write_complete c)
                  refl
                ∙ files-emit_if _ write_complete c refl;
          })
    | inr going_on ↦
        rw (empty, going_on) (record { len = refl; sent = files-emit_if _ write_complete c refl })
  ]
  | inr more ↦ rw more (record { len = refl; sent = refl })
]

note_written-SameFile :
    (c : Connection) (text : Bytes) (r : Transferred ℕ) → SameFile c (note_written c text r)
unfolding note_written
note_written-SameFile c text (failed errno) = record { len = refl; sent = refl }
note_written-SameFile c text (done n) = elim (Bool-cases (ltb 0 n)) [
  | inl some_taken ↦
      let s = written-SameFile (emit (wrote (take n text)) c) n in
      rw some_taken
        (record { len = s.len; sent = s.sent ∙ files-emit_if true (wrote (take n text)) c refl })
  | inr nothing ↦ rw nothing (record { len = refl; sent = refl })
]

-- A file that is sent while bytes wait is never sent: the `handleWrite` that empties the output
-- buffer ends the registration for writing with the whole file still to send.
pub send_file-waiting :
    (write : Bytes → Transferred ℕ) (sendfile : ℕ → ℕ → Transferred ℕ) (c : Connection)
    (fd count : ℕ)
    → IsSound c
    → c.state ≡ connected
    → c.channel_writing ≡ true
    → content c.output_buffer ≢ []
    → write (content c.output_buffer) ≡ done (length (content c.output_buffer))
    → 0 < count
    → (d : Connection) × (handle_write write (send_file true sendfile c fd count) ≡ ok d)
      × (d.send_len ≡ count)
      × (d.channel_writing ≡ false)
      × (files d.events ≡ files c.events)
unfolding attempt_file watch_file is_idle
send_file-waiting write sendfile c fd count s up on some_left all positive =
    let y = record c { send_fd = fd; send_len = count } in
    let x = record c { send_fd = fd; send_len = count; channel_writing = true } in
    let (d, e, _, _, off, _) =
      handle_write-drains write x (record { valid = s.valid; armed = λ (h : true ≡ false). cc })
        refl some_left all in
    let waits : send_file true sendfile c fd count ≡ x =
      send_file_run sendfile c fd count up
      ∙ (ap (λ (b : Bool). watch_file (if b then file_taken y (sendfile fd count) else (y, false)))
            (ap (λ (b : Bool). not b && readable_bytes c.output_buffer == 0) on)
          ∙ ap (λ (b : Bool). if b then x else y) (lt→ltb 0 count positive)) in
    let same : note_written x (content c.output_buffer) (write (content c.output_buffer)) ≡ d =
      ok-same (sym (handle_write_on write x s.valid refl) ∙ e) in
    let kept =
      subst (SameFile x) same
        (note_written-SameFile x (content c.output_buffer) (write (content c.output_buffer))) in
    (d, ap (handle_write write) waits ∙ e, kept.len, off, kept.sent)
