-- ===== src/Http/FileServer/Tests.antt =====
-- http/FileServer.cc at concrete inputs.
use my_file_server.Common.{
  ◌≡◌, refl, arith, false, [], ◌∷◌, ◌++◌, none, some, Bytes, codes, decimal, equal, c_str,
  find_byte, find_last_of, if◌then◌else◌, pos, ok,
}
use my_file_server.Http.Headers.{lookup}
use my_file_server.Http.FileServer.{suffix_of}
use my_file_server.Http.FileServer.Mime.{get_mime}
use my_file_server.Http.FileServer.Range.{range_of}
use my_file_server.Http.FileServer.Range.Bounds.{range_of-both}
use my_file_server.Http.FileServer.Platform.{System, Server}
use my_file_server.Http.FileServer.Login.{credentials, sql_insert, sign_up, may_sign_in}
use my_file_server.Http.FileServer.Login.Accounts.{form, credentials-form, sign_up-may_sign_in}

jpeg_type : get_mime (codes ".jpg") ≡ codes "image/jpeg"
unfolding get_mime lookup equal
jpeg_type = refl

suffix_of_archive : suffix_of (codes "/a.tar.gz") ≡ codes ".gz"
unfolding suffix_of find_last_of
suffix_of_archive = refl

range_of-both_example :
    range_of (codes "bytes=" ++ (decimal 10 ++ b'-' ∷ decimal 19)) 100 ≡ ok (pos 10, pos 19)
range_of-both_example = range_of-both 10 19 100 (omega arith) (omega arith)

credentials-form_example :
    credentials (form (codes "ann") (codes "pw1")) ≡ ok (codes "ann", codes "pw1")
unfolding find_byte c_str
credentials-form_example =
    credentials-form (codes "ann") (codes "pw1") refl (omega arith) (omega arith) refl refl

-- A system with no files, whose database refuses every statement and keeps it.
abbrev refusing : System Bytes
refusing = record {
  stat = λ f path. none;
  open_file = λ f path. (none, f);
  seek = λ f fd offset. f;
  list_dir = λ f path. none;
  template = λ f. [];
  remove_file = λ f path. (false, f);
  write_file = λ f path text. f;
  update = λ f sql. (false, sql);
}

abbrev one_user : Server Bytes
one_user = record { files = []; users = (codes "bob", codes "x") ∷ [] }

sign_up-may_sign_in_example :
    (t : Server Bytes) × (html : Bytes) × (sign_up refusing one_user (codes "ann") (codes "pw1")
      ≡ ok (t, html))
    × ((asked text : Bytes)
        → may_sign_in t.users asked text ≡ (
            if equal (codes "ann") asked
            then elim (lookup (codes "ann") one_user.users) [
              | none ↦ equal (codes "pw1") text
              | some old ↦ may_sign_in one_user.users asked text
            ]
            else may_sign_in one_user.users asked text))
unfolding sql_insert
sign_up-may_sign_in_example =
    sign_up-may_sign_in refusing one_user (codes "ann") (codes "pw1") (omega arith)
