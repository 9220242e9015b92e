-- ===== src/Tcp/Connection/Stream.antt =====
-- net/TcpConnection.cc as a byte stream: what was written, then what waits in the output buffer.
use my_file_server.Common.{
  ℕ, ◌+◌, ◌≤◌, ◌<◌, ◌≡◌, ◌≢◌, refl, sym, ap, ◌∙◌, arith, inl, inr, Bool, true, false, Bool-cases,
  List, [], ◌∷◌, ◌++◌, append_assoc, append-nil, Bytes, length, length-nil, length-drop, take, drop,
  drop_all, take_all, take-append-drop, le→leb, ltb, add_size, sub_size_lem, ok, int_limit,
  max_size,
}
use my_file_server.Buffer.{Transferred, done, failed, read_at, readable_bytes}
use my_file_server.Buffer.Content.{IsValid, content, length-content-readable}
use my_file_server.Buffer.Space.{append-content}
use my_file_server.Tcp.Connection.{
  disconnected, ConnectionState, is_disconnected, is_fault, Connection, Event, wrote,
  write_complete, high_water, emit, emit_if, is_fault, Attempt, write_directly, is_idle, attempt,
  waiting, queue_rest, send_in_loop,
}

-- The bytes that the events put on the socket.
abbrev pub delivered : List Event → Bytes
delivered [] = []
delivered (wrote text ∷ es) = text ++ delivered es
delivered (_ ∷ es) = delivered es

-- Everything that was handed over for sending, in order.
abbrev pub stream : Connection → Bytes
stream c = delivered c.events ++ content c.output_buffer

-- `write` takes no more than it is offered.
abbrev pub WritesAtMost : (Bytes → Transferred ℕ) → Type 0
WritesAtMost write = (text : Bytes) (n : ℕ) → write text ≡ done n → n ≤ length text

-- What waits is waited for: bytes in the output buffer have the channel registered for writing.
pub record IsSound (c : Connection) : Type 0 where
  pub valid : IsValid c.output_buffer
  pub armed : c.channel_writing ≡ false → content c.output_buffer ≡ []

delivered-append : (es fs : List Event) → delivered (es ++ fs) ≡ delivered es ++ delivered fs
delivered-append [] fs = refl
delivered-append (wrote text ∷ es) fs =
    ap (◌++◌ text) (delivered-append es fs) ∙ sym (append_assoc text (delivered es) (delivered fs))
delivered-append (_ ∷ es) fs = delivered-append es fs

pub delivered-wrote :
    (es : List Event) (text : Bytes) → delivered (es ++ wrote text ∷ []) ≡ delivered es ++ text
delivered-wrote es text =
    delivered-append es (wrote text ∷ []) ∙ ap (◌++◌ (delivered es)) (append-nil text)

-- Events other than `wrote` deliver nothing.
pub delivered-emit_if :
    (b : Bool) (e : Event) (c : Connection)
    → delivered (e ∷ []) ≡ []
    → delivered (emit_if b e c).events ≡ delivered c.events
delivered-emit_if true e c h =
    delivered-append c.events (e ∷ [])
    ∙ (ap (◌++◌ (delivered c.events)) h ∙ append-nil (delivered c.events))
delivered-emit_if false e c h = refl

pub is_idle-nil :
    (c : Connection) → IsValid c.output_buffer → is_idle c ≡ true → content c.output_buffer ≡ []
unfolding is_idle
is_idle-nil c v h =
    length-nil (content c.output_buffer) (ground (arith, length-content-readable c.output_buffer v))

-- The bytes from an offset on, as the pointer arithmetic reads them.
read_at-rest : (text : Bytes) (n k : ℕ) → n + k ≡ length text → read_at text n k ≡ ok (drop n text)
unfolding read_at
read_at-rest text n k h =
    rw (le→leb (n + k) (length text) (omega arith))
      (ap ok (take_all k (drop n text) (omega (arith, length-drop n text))))

-- What `write` did not take is queued behind what waits already.
queue_rest-stream :
    (text : Bytes) (a : Attempt)
    → IsSound a.connection
    → a.fault_error ≡ false
    → a.nwrote + a.remaining ≡ length text
    → length text < int_limit
    → a.connection.output_buffer.writer_index + length text ≤ max_size
    → (d : Connection) × (queue_rest text a ≡ ok d)
      × IsSound d
      × (stream d ≡ stream a.connection ++ drop a.nwrote text)
      × (d.state ≡ a.connection.state)
unfolding queue_rest
queue_rest-stream text a s fine split small limit = elim (Bool-cases (ltb 0 a.remaining)) [
  | inl some_left ↦
      let rest = drop a.nwrote text in
      let old_len = readable_bytes a.connection.output_buffer in
      let (output, e, v, same, _) =
        append-content a.connection.output_buffer rest s.valid
          (omega (arith, length-drop a.nwrote text)) (omega (arith, length-drop a.nwrote text)) in
      (
        waiting old_len (add_size old_len a.remaining) output a.connection,
        rw (fine, some_left, read_at-rest text a.nwrote a.remaining split, e) refl,
        record { valid = v; armed = λ (h : true ≡ false). cc },
        rw (delivered-emit_if _ (high_water _) a.connection refl, same)
            (sym (
              append_assoc (delivered a.connection.events) (content a.connection.output_buffer)
                rest)),
        refl,
      )
  | inr none_left ↦ (
    a.connection,
    rw (fine, none_left) refl,
    s,
    rw (drop_all a.nwrote text (ground (arith, none_left)))
        (sym (append-nil (stream a.connection))),
    refl,
  )
]

is_disconnected-false :
    (state : ConnectionState) → state ≢ disconnected → is_disconnected state ≡ false
is_disconnected-false disconnected h = absurd (h refl)
is_disconnected-false _ h = refl

-- The peer has not gone.
abbrev pub WritesFaultless : (Bytes → Transferred ℕ) → Type 0
WritesFaultless write =
    (text : Bytes) (errno : ℕ) → write text ≡ failed errno → is_fault errno ≡ false

-- What the direct write leaves: the taken bytes are in the stream, the others remain.
record Attempted (c : Connection) (text : Bytes) (a : Attempt) : Type 0 where
  sound : IsSound a.connection
  fine : a.fault_error ≡ false
  split : a.nwrote + a.remaining ≡ length text
  taken : stream a.connection ≡ stream c ++ take a.nwrote text
  same_state : a.connection.state ≡ c.state
  same_buffer : a.connection.output_buffer ≡ c.output_buffer

module _ (write : Bytes → Transferred ℕ) (c : Connection) (text : Bytes) (most : WritesAtMost write)
    (no_fault : WritesFaultless write) (s : IsSound c) (small : length text < int_limit) where
  write_directly-Attempted :
      content c.output_buffer ≡ [] → Attempted c text (write_directly write c text)
  unfolding write_directly
  write_directly-Attempted idle = go (write text) refl
    where
      go : (r : Transferred ℕ) → write text ≡ r → Attempted c text (write_directly write c text)
      go (done n) e =
          rw (e, write_directly)
            (record {
              sound = record { valid = s.valid; armed = λ h. s.armed h };
              fine = refl;
              split = omega (
                arith,
                most text n e,
                sub_size_lem (length text) n (most text n e) (omega arith),
              );
              taken =
                  rw
                    (
                      delivered-emit_if _ write_complete (emit (wrote (take n text)) c) refl,
                      delivered-wrote c.events (take n text),
                      idle,
                    )
                    (append-nil (delivered c.events ++ take n text)
                      ∙ ap (λ (xs : Bytes). xs ++ take n text)
                          (sym (append-nil (delivered c.events))));
              same_state = refl;
              same_buffer = refl;
            })
      go (failed errno) e =
          rw (e, write_directly)
            (record {
              sound = s;
              fine = no_fault text errno e;
              split = omega arith;
              taken = sym (append-nil (stream c));
              same_state = refl;
              same_buffer = refl;
            })

  attempt-Attempted : Attempted c text (attempt write c text)
  unfolding attempt
  attempt-Attempted = elim (Bool-cases (is_idle c)) [
    | inl idle ↦ rw idle (write_directly-Attempted (is_idle-nil c s.valid idle))
    | inr busy ↦ rw busy (record {
      sound = s;
      fine = refl;
      split = omega arith;
      taken = sym (append-nil (stream c));
      same_state = refl;
      same_buffer = refl;
    })
  ]

  -- `sendInLoop` loses, doubles and reorders nothing: the bytes are behind those of before, written
  -- or waiting with the channel registered for writing.
  pub send_in_loop-stream :
      c.state ≢ disconnected
      → c.output_buffer.writer_index + length text ≤ max_size
      → (d : Connection) × (send_in_loop write c text ≡ ok d)
        × IsSound d
        × (stream d ≡ stream c ++ text)
        × (d.state ≡ c.state)
  unfolding send_in_loop
  send_in_loop-stream alive limit =
      let a = attempt write c text in
      let t = attempt-Attempted in
      let (d, e, sound, queued_up, same) =
        queue_rest-stream text a t.sound t.fine t.split small (rw t.same_buffer limit) in
      (
        d,
        rw (is_disconnected-false c.state alive) e,
        sound,
        queued_up
            ∙ (ap (λ (xs : Bytes). xs ++ drop a.nwrote text) t.taken
                ∙ (append_assoc (stream c) (take a.nwrote text) (drop a.nwrote text)
                    ∙ ap (◌++◌ (stream c)) (take-append-drop a.nwrote text))),
        same ∙ t.same_state,
      )
