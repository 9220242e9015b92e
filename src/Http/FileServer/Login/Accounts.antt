-- ===== src/Http/FileServer/Login/Accounts.antt =====
-- Signing up and signing in, in `setResponseBody` of http/FileServer.cc.
use my_file_server.Common.{
  ℕ, ◌+◌, ◌<◌, ◌≡◌, refl, sym, ap, ◌∙◌, arith, inl, inr, Bool, true, false, Bool-cases, List, ◌∷◌,
  ◌++◌, append_assoc, Option, none, some, Bytes, length, length-append, drop, codes, equal, c_str,
  Absent, cut_lem, find_byte-append, lt→ltb, ltb-false, leb-false, if◌then◌else◌,
  drop-length-append, ok,
}
use my_file_server.Http.Headers.{lookup, lookup-insert}
use my_file_server.Http.FileServer.Platform.{System, Server}
use my_file_server.Http.FileServer.Pages.{sign_in_page, name_taken_page}
use my_file_server.Http.FileServer.Login.{
  fits_array, credentials, insert_user, sql_insert, sign_up, may_sign_in,
}

-- What the browser sends for the two fields of the forms.
abbrev pub form : Bytes → Bytes → Bytes
form name password = codes "user=" ++ (name ++ b'&' ∷ (codes "password=" ++ password))

fits_array-short :
    (text : Bytes) → length text < 100 → c_str text ≡ text → fits_array text ≡ ok text
unfolding fits_array
fits_array-short text h e = rw (lt→ltb (length text) 100 h, e) refl

length-form :
    (name password : Bytes) → length (form name password) ≡ length name + 15 + length password
length-form name password = omega (arith, length-append name (codes "&password=" ++ password))

drop-form : (name password : Bytes) → drop (length name + 15) (form name password) ≡ password
drop-form name password =
    let front = codes "user=" ++ (name ++ codes "&password=") in
    let split : form name password ≡ front ++ password =
      ap (λ (xs : Bytes). codes "user=" ++ xs)
        (sym (append_assoc name (codes "&password=") password)) in
    let size : length name + 15 ≡ length front =
      omega (arith, length-append name (codes "&password=")) in
    ap (drop (length name + 15)) split
    ∙ (ap (λ (i : ℕ). drop i (front ++ password)) size ∙ drop-length-append front password)

-- The two fields are read back, if they fit their arrays and have no 0, and the name no '&'.
pub credentials-form :
    (name password : Bytes)
    → Absent b'&' name
    → length name < 100
    → length password < 100
    → c_str name ≡ name
    → c_str password ≡ password
    → credentials (form name password) ≡ ok (name, password)
unfolding credentials
credentials-form name password no_amp h k e f =
    let cut = cut_lem b'&' name (codes "password=" ++ password) no_amp in
    let size = find_byte-append b'&' name (codes "password=" ++ password) no_amp in
    rw
      (
        cut.found,
        cut.front,
        fits_array-short name h e,
        size,
        ltb-false (length (form name password)) (length name + 15)
            (omega (arith, length-form name password)),
        drop-form name password,
        f,
        fits_array-short password k f,
      )
      refl

both_ways : (b a : Bool) → a ≡ (if b then a else a)
both_ways true a = refl
both_ways false a = refl

-- Who may sign in after `insert_user`.
insert_user-may_sign_in :
    (name password asked text : Bytes) (users : List (Bytes × Bytes))
    → may_sign_in (insert_user name password users) asked text ≡ (
        if equal name asked
        then elim (lookup name users) [
          | none ↦ equal password text
          | some old ↦ may_sign_in users asked text
        ]
        else may_sign_in users asked text)
unfolding insert_user may_sign_in
insert_user-may_sign_in name password asked text users = go (lookup name users) refl
  where
    go :
        (o : Option Bytes)
        → lookup name users ≡ o
        → may_sign_in (insert_user name password users) asked text ≡ (
            if equal name asked
            then elim o [ none ↦ equal password text | some old ↦ may_sign_in users asked text ]
            else may_sign_in users asked text)
    go none e =
        rw (e, insert_user, may_sign_in, lookup-insert)
          (elim (Bool-cases (equal name asked)) [
            | inl same ↦ rw same refl
            | inr another ↦ rw another refl
          ])
    go (some old) e =
        rw (e, insert_user) (both_ways (equal name asked) (may_sign_in users asked text))

-- `sign_up` with a statement that fits: whatever the database answers, the new name may sign in with
-- the new password unless it was known before; a known name and every other name keep what they had.
pub sign_up-may_sign_in :
    {F : Type 0} (sys : System F) (s : Server F) (name password : Bytes)
    → length (sql_insert name password) < 200
    → (t : Server F) × (html : Bytes) × (sign_up sys s name password ≡ ok (t, html))
      × ((asked text : Bytes)
          → may_sign_in t.users asked text ≡ (
              if equal name asked
              then elim (lookup name s.users) [
                | none ↦ equal password text
                | some old ↦ may_sign_in s.users asked text
              ]
              else may_sign_in s.users asked text))
unfolding sign_up
sign_up-may_sign_in sys s name password h = (
  record {
    files = (sys.update s.files (sql_insert name password)).1;
    users = insert_user name password s.users;
  },
  if (sys.update s.files (sql_insert name password)).0 then sign_in_page else name_taken_page,
  rw (leb-false 200 (length (sql_insert name password)) h) refl,
  λ asked text. insert_user-may_sign_in name password asked text s.users,
)
