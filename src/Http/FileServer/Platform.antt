-- ===== src/Http/FileServer/Platform.antt =====
-- What http/FileServer.cc calls of the operating system and of the database connection. A path is a
-- C string.
use my_file_server.Common.{ℕ, Bool, List, Bytes, Option, ℤ}

pub data FileKind : Type 0 where
  directory regular other_kind : FileKind

pub record Stat : Type 0 where
  pub kind : FileKind
  pub size : ℕ

-- `F` is the state of the file system and the database.
pub record System (F : Type 0) : Type 0 where
  -- `none` where `stat` fails
  pub stat : F → Bytes → Option Stat
  -- `none` is -1
  pub open_file : F → Bytes → Option ℕ × F
  pub seek : F → Option ℕ → ℤ → F
  -- the names that `readdir` gives; `none` where `opendir` fails
  pub list_dir : F → Bytes → Option (List Bytes)
  -- the lines of html/filelist.html
  pub template : F → List Bytes
  -- whether the file was removed
  pub remove_file : F → Bytes → Bool × F
  pub write_file : F → Bytes → Bytes → F
  -- `MysqlConn::update`: whether the statement was run
  pub update : F → Bytes → Bool × F

-- The state of the server.
pub record Server (F : Type 0) : Type 0 where
  pub files : F
  pub users : List (Bytes × Bytes)
