-- ===== src/Tcp/Connection/Input.antt =====
-- net/TcpConnection.cc: sending leaves the input buffer alone.
use my_file_server.Common.{
  ℕ, ◌≡◌, refl, sym, ap, ◌∙◌, inl, inr, true, Bool-cases, Bytes, ok, >>=-eq-ok, ltb, not, ◌&&◌,
}
use my_file_server.Buffer.{Transferred, done, failed, read_at, append}
use my_file_server.Tcp.Connection.{
  is_disconnected, is_connected, Connection, Attempt, write_directly, is_idle, attempt, queue_rest,
  send_in_loop, shutdown, shutdown_in_loop,
}
use my_file_server.Tcp.Connection.Closing.{ok-same}

write_directly-input :
    (write : Bytes → Transferred ℕ) (c : Connection) (text : Bytes)
    → (write_directly write c text).connection.input_buffer ≡ c.input_buffer
unfolding write_directly
write_directly-input write c text = go (write text) refl
  where
    go :
        (r : Transferred ℕ)
        → write text ≡ r
        → (write_directly write c text).connection.input_buffer ≡ c.input_buffer
    go (done n) e = rw (write_directly, e) refl
    go (failed errno) e = rw (write_directly, e) refl

attempt-input :
    (write : Bytes → Transferred ℕ) (c : Connection) (text : Bytes)
    → (attempt write c text).connection.input_buffer ≡ c.input_buffer
unfolding attempt
attempt-input write c text = elim (Bool-cases (is_idle c)) [
  | inl idle ↦ rw idle (write_directly-input write c text)
  | inr busy ↦ rw busy refl
]

queue_rest-input :
    (text : Bytes) (a : Attempt) (d : Connection)
    → queue_rest text a ≡ ok d
    → d.input_buffer ≡ a.connection.input_buffer
unfolding queue_rest
queue_rest-input text a d e = elim (Bool-cases (not a.fault_error && ltb 0 a.remaining)) [
  | inl some_left ↦
      let (rest, _, f) = >>=-eq-ok (read_at text a.nwrote a.remaining) _ (rw some_left at e) in
      let (output, _, g) = >>=-eq-ok (append a.connection.output_buffer rest) _ f in
      ap (λ (x : Connection). x.input_buffer) (sym (ok-same g))
  | inr none_left ↦ ap (λ (x : Connection). x.input_buffer) (sym (ok-same (rw none_left at e)))
]

-- For a connection that is not disconnected, and for one that is.
pub send_in_loop-input :
    (write : Bytes → Transferred ℕ) (c d : Connection) (text : Bytes)
    → send_in_loop write c text ≡ ok d
    → d.input_buffer ≡ c.input_buffer
unfolding send_in_loop
send_in_loop-input write c d text e = elim (Bool-cases (is_disconnected c.state)) [
  | inl gone ↦ ap (λ (x : Connection). x.input_buffer) (sym (ok-same (rw gone at e)))
  | inr up ↦
      queue_rest-input text (attempt write c text) d (rw up at e) ∙ attempt-input write c text
]

pub shutdown-input : (c : Connection) → (shutdown true c).input_buffer ≡ c.input_buffer
unfolding shutdown shutdown_in_loop
shutdown-input c = elim (Bool-cases (is_connected c.state)) [
  | inl up ↦ rw up refl
  | inr down ↦ rw down refl
]
