-- ===== src/Tcp/Connection/Writing.antt =====
-- `handleWrite` of net/TcpConnection.cc.
use my_file_server.Common.{
  ℕ, ◌≤◌, ◌<◌, ◌≡◌, ◌≢◌, refl, ap, ◌∙◌, arith, inl, inr, Bool, true, false, Bool-cases, List, [],
  ◌∷◌, ◌++◌, append_assoc, Bytes, length, length-nil, take, drop, take-append-drop, drop_all,
  take_all, lt→ltb, ltb, if◌then◌else◌, ◌==◌, ok,
}
use my_file_server.Buffer.{
  Transferred, done, failed, readable_bytes, retrieve, get_buffer_all_as_string,
}
use my_file_server.Buffer.Content.{
  IsValid, content, length-content-readable, read_at-all, content-retrieve, retrieve-IsValid,
}
use my_file_server.Buffer.Transfer.{write_fd-content}
use my_file_server.Tcp.Connection.{
  disconnecting, is_disconnecting, Connection, Event, wrote, write_complete, shut_down_write, emit,
  emit_if, shutdown_in_loop,
}
use my_file_server.Tcp.Connection.Handlers.{written, note_written, write_out, handle_write}
use my_file_server.Tcp.Connection.Stream.{
  delivered, delivered-wrote, delivered-emit_if, stream, IsSound,
}

-- What `written` does, whatever remains.
record Written (c : Connection) (n : ℕ) (d : Connection) : Type 0 where
  buffer : d.output_buffer ≡ retrieve c.output_buffer n
  silent : delivered d.events ≡ delivered c.events
  armed : d.channel_writing ≡ false → content d.output_buffer ≡ []

written-Written :
    (c : Connection) (n : ℕ)
    → IsValid c.output_buffer
    → c.channel_writing ≡ true
    → Written c n (written c n)
unfolding written shutdown_in_loop
written-Written c n v on = elim (Bool-cases (readable_bytes (retrieve c.output_buffer n) == 0)) [
  | inl empty ↦ elim (Bool-cases (is_disconnecting c.state)) [
    | inl closing ↦
        rw (empty, closing, shutdown_in_loop)
          (record {
            buffer = refl;
            silent =
                delivered-emit_if true shut_down_write
                  (emit_if c.has_write_complete write_complete c) refl
                ∙ delivered-emit_if _ write_complete c refl;
            armed = λ h. nothing_left empty;
          })
    | inr going_on ↦
        rw (empty, going_on)
          (record {
            buffer = refl;
            silent = delivered-emit_if _ write_complete c refl;
            armed = λ h. nothing_left empty;
          })
  ]
  | inr more ↦
      rw more
        (record { buffer = refl; silent = refl; armed = λ (h : c.channel_writing ≡ false). cc })
]
  where
    nothing_left :
        (readable_bytes (retrieve c.output_buffer n) == 0) ≡ true
        → content (retrieve c.output_buffer n) ≡ []
    nothing_left empty = length-nil (content (retrieve c.output_buffer n)) (
        ground (
          arith,
          length-content-readable (retrieve c.output_buffer n)
              (retrieve-IsValid c.output_buffer n v),
        ))

pub handle_write_on :
    (write : Bytes → Transferred ℕ) (c : Connection)
    → IsValid c.output_buffer
    → c.channel_writing ≡ true
    → handle_write write c
      ≡ ok (note_written c (content c.output_buffer) (write (content c.output_buffer)))
unfolding handle_write write_out get_buffer_all_as_string
handle_write_on write c v on =
    ap (λ (b : Bool). if b then write_out write c else ok c) on
    ∙ rw (read_at-all c.output_buffer v, write_fd-content write c.output_buffer v) refl

pub handle_write_off :
    (write : Bytes → Transferred ℕ) (c : Connection)
    → c.channel_writing ≡ false
    → handle_write write c ≡ ok c
unfolding handle_write
handle_write_off write c off = ap (λ (b : Bool). if b then write_out write c else ok c) off

note_written-stream :
    (c : Connection) (r : Transferred ℕ)
    → IsSound c
    → c.channel_writing ≡ true
    → IsSound (note_written c (content c.output_buffer) r)
      × (stream (note_written c (content c.output_buffer) r) ≡ stream c)
unfolding note_written
note_written-stream c (failed errno) s on = (s, refl)
note_written-stream c (done n) s on = elim (Bool-cases (ltb 0 n)) [
  | inl some_taken ↦
      let text = content c.output_buffer in
      let b = emit (wrote (take n text)) c in
      let w = written-Written b n s.valid on in
      rw some_taken (
        record {
          valid = rw w.buffer (retrieve-IsValid c.output_buffer n s.valid);
          armed = w.armed;
        },
        rw
            (
              w.silent,
              w.buffer,
              content-retrieve c.output_buffer n s.valid,
              delivered-wrote c.events (take n text),
            )
            (append_assoc (delivered c.events) (take n text) (drop n text)
              ∙ ap (◌++◌ (delivered c.events)) (take-append-drop n text)),
      )
  | inr nothing ↦ rw nothing (s, refl)
]

-- For a sound connection `handleWrite` returns, keeps it sound and leaves the stream as it is,
-- whatever `write` answers: bytes only move from the output buffer to the socket.
pub handle_write-stream :
    (write : Bytes → Transferred ℕ) (c : Connection)
    → IsSound c
    → (d : Connection) × (handle_write write c ≡ ok d) × IsSound d × (stream d ≡ stream c)
handle_write-stream write c s = elim (Bool-cases c.channel_writing) [
  | inl on ↦
      let (sound, same) = note_written-stream c (write (content c.output_buffer)) s on in
      (_, handle_write_on write c s.valid on, sound, same)
  | inr off ↦ (c, handle_write_off write c off, s, refl)
]

not_nil : (xs : Bytes) → xs ≢ [] → 0 < length xs
not_nil [] h = absurd (h refl)
not_nil (x ∷ xs) h = omega arith

abbrev pub Ends : Event → List Event → Type 0
Ends e es = (fs : List Event) × (es ≡ fs ++ e ∷ [])

written-all :
    (c : Connection) (n : ℕ)
    → IsValid c.output_buffer
    → length (content c.output_buffer) ≤ n
    → (content (written c n).output_buffer ≡ [])
      × ((written c n).channel_writing ≡ false)
      × (c.state ≡ disconnecting → Ends shut_down_write (written c n).events)
unfolding written shutdown_in_loop
written-all c n v all = rw empty (elim (Bool-cases (is_disconnecting c.state)) [
  | inl closing ↦ rw closing (nothing, refl, λ e. (_, refl))
  | inr going_on ↦ rw going_on (nothing, refl, λ e. absurd (going_on_not e going_on))
])
  where
    nothing : content (retrieve c.output_buffer n) ≡ []
    nothing = content-retrieve c.output_buffer n v ∙ drop_all n (content c.output_buffer) all

    empty : (readable_bytes (retrieve c.output_buffer n) == 0) ≡ true
    empty = ground (
      arith,
      length-content-readable (retrieve c.output_buffer n) (retrieve-IsValid c.output_buffer n v),
      ap (length {A = ℕ}) nothing,
    )

    going_on_not : c.state ≡ disconnecting → ¬ (is_disconnecting c.state ≡ false)
    going_on_not e h = cc

-- When `write` takes all that waits, everything sent so far is on the socket and the channel is no
-- longer registered for writing; a connection that is being shut down half-closes the socket then.
pub handle_write-drains :
    (write : Bytes → Transferred ℕ) (c : Connection)
    → IsSound c
    → c.channel_writing ≡ true
    → content c.output_buffer ≢ []
    → write (content c.output_buffer) ≡ done (length (content c.output_buffer))
    → (d : Connection) × (handle_write write c ≡ ok d)
      × (delivered d.events ≡ stream c)
      × (content d.output_buffer ≡ [])
      × (d.channel_writing ≡ false)
      × (c.state ≡ disconnecting → Ends shut_down_write d.events)
unfolding note_written
handle_write-drains write c s on some_left all =
    let text = content c.output_buffer in
    let n = length text in
    let d = written (emit (wrote (take n text)) c) n in
    let (nothing, off, closes) =
      written-all (emit (wrote (take n text)) c) n s.valid (omega arith) in
    let run : handle_write write c ≡ ok d =
      handle_write_on write c s.valid on
      ∙ rw (all, note_written, lt→ltb 0 n (not_nil text some_left)) refl in
    (
      d,
      run,
      (written-Written (emit (wrote (take n text)) c) n s.valid on).silent
          ∙ (delivered-wrote c.events (take n text)
              ∙ ap (◌++◌ (delivered c.events)) (take_all n text (omega arith))),
      nothing,
      off,
      closes,
    )
