-- ===== src/Tcp/Server/Naming.antt =====
-- net/TcpServer.cc: the names that newConnection gives to connections.
use my_file_server.Common.{
  ℕ, length-decimal, ◌≤◌, ◌<◌, ◌≡◌, sym, ap, ◌∙◌, arith, ◌∷◌, ◌++◌, Bytes, length, length-append,
  take_all, drop, drop-length-append, decimal, digits_value, digits_value-decimal, int_limit,
}
use my_file_server.Tcp.Server.{id_text, connection_name}

id_text_whole :
    (ip_port : Bytes) (id : ℕ)
    → length ip_port ≤ 51
    → id < int_limit
    → id_text ip_port id ≡ b'-' ∷ ip_port ++ b'#' ∷ decimal id
unfolding id_text
id_text_whole ip_port id short small =
    take_all 63 (b'-' ∷ ip_port ++ b'#' ∷ decimal id)
      (omega (arith, length-append ip_port (b'#' ∷ decimal id), length-decimal id small))

append_cancel : (front xs ys : Bytes) → front ++ xs ≡ front ++ ys → xs ≡ ys
append_cancel front xs ys e =
    sym (drop-length-append front xs) ∙ ap (drop (length front)) e ∙ drop-length-append front ys

-- Two numbers of one server never give the same name, if its address is written in 51 bytes at most.
pub connection_name_injective :
    (name ip_port : Bytes) (i j : ℕ)
    → length ip_port ≤ 51
    → i < int_limit
    → j < int_limit
    → connection_name name ip_port i ≡ connection_name name ip_port j
    → i ≡ j
unfolding connection_name
connection_name_injective name ip_port i j short hi hj e =
    let texts =
      sym (id_text_whole ip_port i short hi)
      ∙ append_cancel name (id_text ip_port i) (id_text ip_port j) e
      ∙ id_text_whole ip_port j short hj in
    let digits =
      ap (drop 1) (append_cancel (b'-' ∷ ip_port) (b'#' ∷ decimal i) (b'#' ∷ decimal j) texts) in
    sym (digits_value-decimal i) ∙ ap (digits_value 0) digits ∙ digits_value-decimal j
