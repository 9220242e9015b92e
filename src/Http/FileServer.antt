-- ===== src/Http/FileServer.antt =====
-- `setResponseBody` of http/FileServer.cc: what a request's path leads to. What goes to stdout and the
-- log is left out.
pub mod Mime
pub mod Pages
pub mod Range
pub mod Platform
pub mod Listing
pub mod Login
mod Tests
use my_file_server.Common.{
  ℕ, ◌+◌, ◌-◌, ◌==◌, ◌||◌, ◌&&◌, if◌then◌else◌, Bool, false, [], ◌∷◌, ◌++◌, Option, none, some,
  Bytes, length, take, drop, get_elem?, codes, equal, c_str, char_at, substr, find_text,
  find_last_of, before, decimal, pos, Result, ok, err, ◌>>=◌, uninitialised,
}
use my_file_server.Http.Request.{Request, get_header}
use my_file_server.Http.Headers.{lookup}
use my_file_server.Http.Response.{
  Response, ok_200, partitial_206, not_found_404, add_header, set_content_type, set_disposition,
}
use my_file_server.Http.FileServer.Mime.{get_mime}
use my_file_server.Http.FileServer.Pages.{
  welcome_page, sign_up_page, sign_in_page, wrong_login_page, uploaded_page, deleted_page,
  get_404_html,
}
use my_file_server.Http.FileServer.Range.{range_of, partial_content}
use my_file_server.Http.FileServer.Platform.{
  FileKind, directory, regular, other_kind, Stat, System, Server,
}
use my_file_server.Http.FileServer.Listing.{scan_dir, file_list_page, row_of_url, row_of_name}
use my_file_server.Http.FileServer.Login.{credentials, sign_up, may_sign_in}

abbrev html_type : Bytes
html_type = codes "text/html;charset=utf-8"

-- A page with status 200; the status message is not set.
unfoldable pub show_page : Bytes → Response → Response
show_page html res = record (set_content_type html_type (record res { status_code = ok_200 })) {
  body = html;
}

unfoldable pub show_404 : Bytes → Response → Response
show_404 msg res =
    record (set_content_type html_type (record res { status_code = not_found_404 })) {
      body = get_404_html msg;
    }

-- `path[0] == '.' ? path.substr(1) : path`
unfoldable pub shown_path : Bytes → Bytes
shown_path [] = []
shown_path (c ∷ cs) = if c == b'.' then cs else c ∷ cs

unfoldable pub suffix_of : Bytes → Bytes
suffix_of path = elim (find_last_of b'.' path) [ none ↦ [] | some i ↦ drop i path ]

-- The whole file, with status 200.
unfoldable pub whole_file : ℕ → Response → Response
whole_file len res =
    add_header (codes "Content-Length") (decimal len)
      (record res { status_code = ok_200; status_message = codes "OK"; send_len = some (pos len) })

module _ {F : Type 0} (sys : System F) (work_path : Bytes) where
  -- A directory: the root has the welcome page, the others their files.
  unfoldable pub show_directory : Server F → Bytes → Bytes → Response → Result (Server F × Response)
  unfolding show_page shown_path
  show_directory s path m_url res =
      if length (c_str m_url) == 1 then ok (s, show_page welcome_page res) else (do
        _ ← scan_dir sys s.files path
        html ← file_list_page sys s.files (row_of_url m_url) (shown_path path)
        ok (s, show_page html res))

  -- A regular file of `len` bytes, or a part of it.
  unfoldable pub show_file :
      Server F → Bytes → Request → ℕ → Response → Result (Server F × Response)
  unfolding suffix_of whole_file
  show_file s path req len res =
      let (fd, files) = sys.open_file s.files (c_str path) in
      let opened =
        add_header (codes "Accept-Ranges") (codes "bytes")
          (set_content_type (get_mime (suffix_of req.path)) (record res { fd = fd })) in
      let range = get_header req (codes "Range") in
      if equal range [] then ok (record s { files = files }, whole_file len opened) else (do
        (beg_num, end_num) ← range_of range len
        ok (
          record s { files = sys.seek files fd beg_num },
          partial_content beg_num end_num len (record opened {
            status_code = partitial_206;
            status_message = codes "Partial Content";
          }),
        ))

  -- '2' and '3': the forms to sign in and to sign up.
  unfoldable pub show_login : ℕ → Server F → Request → Response → Result (Server F × Response)
  unfolding show_page
  show_login choice s req res = do
    (name, password) ← credentials req.body
    if choice == b'3'
        then (do (t, html) ← sign_up sys s name password; ok (t, show_page html res))
        else if may_sign_in s.users name password
        then (do
          html ← file_list_page sys s.files row_of_name work_path
          ok (s, show_page html res))
        else ok (s, show_page wrong_login_page res)

  -- The path that "/download/…" or "/delete/…" stands for; `offset` is the length of that word and
  -- its slashes.
  unfoldable pub named_path : Bytes → ℕ → Bytes → Bytes → Result Bytes
  named_path word offset path m_url = do
    url ← substr m_url offset
    ok (before (find_text word path) path ++ url)

  -- The part of `download_path` behind its last slash; npos + 1 is 0.
  unfoldable pub file_name : Bytes → Bytes
  file_name path = elim (find_last_of b'/' path) [ none ↦ path | some i ↦ drop (i + 1) path ]

  -- Where `stat` fails, the size that is read was never set.
  unfoldable pub download :
      Server F → Bytes → Bytes → Request → Response → Result (Server F × Response)
  unfolding named_path file_name suffix_of whole_file
  download s path m_url req res = do
    download_path ← named_path (codes "download") 10 path m_url
    let (fd, files) = sys.open_file s.files (c_str download_path)
    elim (sys.stat s.files (c_str download_path)) [
      | none ↦ err uninitialised
      | some st ↦ ok (
        record s { files = files },
        whole_file st.size (
            set_disposition (file_name download_path) (
              add_header (codes "Accept-Ranges") (codes "bytes")
                (set_content_type (get_mime (suffix_of req.path)) (record res { fd = fd })))),
      )
    ]

  -- `headers[key]` of the copy.
  unfoldable pub header_or_empty : Request → Bytes → Bytes
  header_or_empty req key = elim (lookup key req.headers) [ none ↦ [] | some value ↦ value ]

  -- The name in "filename=…", without its quotes; npos + 10 is 9.
  unfoldable pub upload_name : Bytes → Result Bytes
  upload_name disposition = do
    quoted ←
        substr disposition
          (elim (find_text (codes "filename=") disposition) [ none ↦ 9 | some n ↦ n + 10 ])
    ok (take (length quoted - 1) quoted)

  unfoldable pub upload_dir : Bytes → Bytes → Bytes → Bytes
  upload_dir path m_url content_type =
      before (find_text m_url path) path
      ++ (if equal content_type (codes "image/jpeg") || equal content_type (codes "image/png")
          then codes "/img/"
          else codes "/text/")

  unfoldable pub upload :
      Server F → Bytes → Bytes → Request → Response → Result (Server F × Response)
  unfolding header_or_empty upload_name upload_dir show_page
  upload s path m_url req res = do
    let content = before (find_text (codes "-----------------") req.body) req.body
    f_name ← upload_name (header_or_empty req (codes "Content-Disposition"))
    let dir = upload_dir path m_url (header_or_empty req (codes "Content-Type"))
    let files = sys.write_file s.files (c_str (dir ++ f_name)) content
    _ ← scan_dir sys files dir
    ok (record s { files = files }, show_page uploaded_page res)

  -- The page says that the file was deleted, whether it was or not.
  unfoldable pub delete_file : Server F → Bytes → Bytes → Response → Result (Server F × Response)
  unfolding named_path show_page
  delete_file s path m_url res = do
    download_path ← named_path (codes "delete") 8 path m_url
    let (removed, files) = sys.remove_file s.files (c_str download_path)
    let dir : Bytes = elim (find_last_of b'/' download_path) [
      | none ↦ []
      | some i ↦ take (i + 1) download_path
    ]
    _ ← scan_dir sys files dir
    ok (record s { files = files }, show_page deleted_page res)

  -- Two letters of the path: the second is read only if the first fits.
  unfoldable pub follows : Bytes → ℕ → ℕ → ℕ → Result Bool
  follows m_url first a b =
      if first == a then (do second ← char_at m_url 2; ok (second == b)) else ok false

  -- A path that names no file.
  unfoldable pub no_file :
      Server F → Bytes → Bytes → Request → Response → Result (Server F × Response)
  unfolding follows download upload delete_file show_login show_404 show_page
  no_file s path m_url req res = do
    c ← char_at m_url 1
    is_download ← follows m_url c b'd' b'o'
    is_delete ← follows m_url c b'd' b'e'
    if c == b'0'
        then ok (s, show_page sign_up_page res)
        else if c == b'1'
        then ok (s, show_page sign_in_page res)
        else if c == b'2' || c == b'3'
        then show_login c s req res
        else if is_download
        then download s path m_url req res
        else if c == b'u'
        then upload s path m_url req res
        else if is_delete
        then delete_file s path m_url res
        else ok (s, show_404 (codes "File not found.") res)

  unfoldable pub set_response_body : Server F → Request → Response → Result (Server F × Response)
  unfolding show_directory show_file no_file show_404
  set_response_body s req res =
      let path = work_path ++ req.path in
      elim (sys.stat s.files (c_str path)) [
        | none ↦ no_file s path req.path req res
        | some st ↦ elim st.kind [
          | directory ↦ show_directory s path req.path res
          | regular ↦ show_file s path req st.size res
          | other_kind ↦ ok (s, show_404 (codes "This is not a regular file.") res)
        ]
      ]
