-- ===== src/Http/FileServer/Login.antt =====
-- Accounts in `setResponseBody` and `sql_pool` of http/FileServer.cc.
pub mod Accounts
use my_file_server.Common.{
  ℕ, ◌+◌, ◌==◌, ltb, leb, if◌then◌else◌, Bool, false, List, [], ◌∷◌, ◌++◌, Option, none, some,
  Bytes, length, take, drop, codes, equal, c_str, find_byte, Result, ok, err, ◌>>=◌, out_of_bounds,
}
use my_file_server.Http.Headers.{lookup, insert}
use my_file_server.Http.FileServer.Platform.{System, Server}
use my_file_server.Http.FileServer.Pages.{sign_in_page, name_taken_page}

-- `char name[100]` and `password[100]`.
unfoldable pub fits_array : Bytes → Result Bytes
fits_array text = if ltb (length text) 100 then ok (c_str text) else err out_of_bounds

-- "user=…&password=…": the loops read up to the '&' and up to the 0 behind the string.
unfoldable pub credentials : Bytes → Result (Bytes × Bytes)
unfolding fits_array
credentials m_string =
    let fields = drop 5 m_string in
    let size = find_byte b'&' fields in
    if size == length fields then err out_of_bounds else (do
      name ← fits_array (take size fields)
      if ltb (length m_string) (size + 15)
          then err out_of_bounds
          else (do password ← fits_array (c_str (drop (size + 15) m_string)); ok (name, password)))

-- `users.insert(…)` keeps the entry of a key that is there.
unfoldable pub insert_user : Bytes → Bytes → List (Bytes × Bytes) → List (Bytes × Bytes)
insert_user name password users = elim (lookup name users) [
  | none ↦ insert name password users
  | some old ↦ users
]

unfoldable pub sql_insert : Bytes → Bytes → Bytes
sql_insert name password =
    codes "INSERT INTO login(user, password) VALUES('"
    ++ (name ++ (codes "', '" ++ (password ++ codes "')")))

-- The branch of '3': the statement is built in 200 bytes, run, and the user added either way.
unfoldable pub sign_up :
    {F : Type 0} → System F → Server F → Bytes → Bytes → Result (Server F × Bytes)
unfolding sql_insert insert_user
sign_up sys s name password =
    let sql = sql_insert name password in
    if leb 200 (length sql)
    then err out_of_bounds
    else (let (ins, f) = sys.update s.files sql in
        ok (
          record { files = f; users = insert_user name password s.users },
          if ins then sign_in_page else name_taken_page,
        ))

-- The test of '2'.
unfoldable pub may_sign_in : List (Bytes × Bytes) → Bytes → Bytes → Bool
may_sign_in users name password = elim (lookup name users) [
  | none ↦ false
  | some known ↦ equal known password
]

-- The loop of `sql_pool`, over the rows of the result.
unfoldable pub load_users : List (Bytes × Bytes) → List (Bytes × Bytes) → List (Bytes × Bytes)
load_users [] users = users
load_users ((user, password) ∷ rows) users = load_users rows (insert user password users)
