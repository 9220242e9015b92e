-- ===== src/Http/FileServer/Mime.antt =====
-- `MimeType` of http/FileServer.cc.
use my_file_server.Common.{[], ◌∷◌, none, some, Bytes, codes}
use my_file_server.Http.Headers.{Headers, lookup}

-- The map that `init` fills.
unfoldable pub mime : Headers
mime =
    (codes ".html", codes "text/html;charset=utf-8")
    ∷ (codes ".avi", codes "video/avi")
    ∷ (codes ".flv", codes "video/flv")
    ∷ (codes ".mp4", codes "video/mp4")
    ∷ (codes ".bmp", codes "image/bmp")
    ∷ (codes ".doc", codes "application/msword")
    ∷ (codes ".gif", codes "image/gif")
    ∷ (codes ".gz", codes "application/x-gzip")
    ∷ (codes ".htm", codes "text/html;charset=utf-8")
    ∷ (codes ".ico", codes "image/x-icon")
    ∷ (codes ".jpg", codes "image/jpeg")
    ∷ (codes ".png", codes "image/png")
    ∷ (codes ".txt", codes "text/plain;charset=utf-8")
    ∷ (codes ".mp3", codes "audio/mp3")
    ∷ (codes ".cc", codes "text/plain;charset=utf-8")
    ∷ (codes ".hpp", codes "text/plain;charset=utf-8")
    ∷ (codes ".h", codes "text/plain;charset=utf-8")
    ∷ (codes ".cpp", codes "text/plain;charset=utf-8")
    ∷ (codes ".c", codes "text/plain;charset=utf-8")
    ∷ (codes ".sh", codes "text/plain;charset=utf-8")
    ∷ (codes ".py", codes "text/plain;charset=utf-8")
    ∷ (codes ".md", codes "text/plain;charset=utf-8")
    ∷ (codes "default", codes "text/html;charset=utf-8")
    ∷ []

unfoldable pub get_mime : Bytes → Bytes
unfolding mime
get_mime suffix = elim (lookup suffix mime) [
  | none ↦ codes "text/html;charset=utf-8"
  | some content_type ↦ content_type
]
