-- ===== src/Http/FileServer/Listing.antt =====
-- Directory listings of http/FileServer.cc.
use my_file_server.Common.{
  ℕ, ◌+◌, ◌-◌, ◌==◌, ltb, leb, not, ◌||◌, if◌then◌else◌, List, [], ◌∷◌, ◌++◌, none, some, Bytes,
  length, get_elem?, codes, equal, c_str, utf8, false, Bool, Result, ok, err, ◌>>=◌, out_of_bounds,
  null_pointer, no_fuel, uninitialised,
}
use my_file_server.Http.FileServer.Platform.{System}

unfoldable pub is_dot : Bytes → Bool
is_dot name = equal name (codes ".") || equal name (codes "..")

-- `char fullname[100]` takes the path, a slash and the name of an entry with its 0.
unfoldable pub names_fit : ℕ → List Bytes → Result (Unit {0})
unfolding is_dot
names_fit n [] = ok tt
names_fit n (name ∷ names) =
    let rest = names_fit n names in
    if is_dot name then rest else if leb (n + length name + 1) 100 then rest else err out_of_bounds

-- `scanDir`, as far as it can fail: its list is only printed. A path with a 0 in it leaves a part of
-- `fullname` unset.
unfoldable pub scan_dir : {F : Type 0} → System F → F → Bytes → Result (Unit {0})
unfolding names_fit
scan_dir sys f path =
    let n = length path in
    let slash : Bool = elim (get_elem? path (n - 1)) [ none ↦ false | some c ↦ c == b'/' ] in
    if not (length (c_str path) == n)
    then err uninitialised
    else if n == 0 || ltb (if slash then 99 else 98) n
    then err out_of_bounds
    else elim (sys.list_dir f path) [
      | none ↦ ok tt
      | some names ↦ names_fit (if slash then n else n + 1) names
    ]

unfoldable pub without_dots : List Bytes → List Bytes
unfolding is_dot
without_dots [] = []
without_dots (name ∷ names) =
    let rest = without_dots names in if is_dot name then rest else name ∷ rest

-- `getFileVec`: `readdir` of a directory that did not open is undefined.
unfoldable pub get_file_vec : {F : Type 0} → System F → F → Bytes → Result (List Bytes)
unfolding without_dots
get_file_vec sys f dir_name = elim (sys.list_dir f (c_str dir_name)) [
  | none ↦ err null_pointer
  | some names ↦ ok (without_dots names)
]

-- The lines of the template in front of the label, and those behind it. Without a label the loop
-- never ends.
unfoldable pub split_template : List Bytes → Result (Bytes × List Bytes)
split_template [] = err no_fuel
split_template (line ∷ lines) =
    let rest = split_template lines in
    if equal line (codes "<!--filelist_label-->")
    then ok ([], lines)
    else (do (front, back) ← rest; ok (line ++ b'\n' ∷ front, back))

unfoldable pub all_lines : List Bytes → Bytes
all_lines [] = []
all_lines (line ∷ lines) = line ++ b'\n' ∷ all_lines lines

-- A row of the table, with links that start with the directory's url.
unfoldable pub row_of_url : Bytes → Bytes → Bytes
row_of_url m_url filename =
    codes "            <tr><td class=\"col1\"><a href="
    ++ (m_url
        ++ (codes "/"
            ++ (filename
                ++ (codes ">"
                    ++ (filename
                        ++ (codes "</a></td> <td class=\"col2\"><a href=\"download"
                            ++ (m_url
                                ++ (codes "/"
                                    ++ (filename
                                        ++ (utf8
                                              "\">下载</a></td> <td class=\"col3\"><a href=\"delete"
                                            ++ (m_url
                                                ++ (codes "/"
                                                    ++ (filename
                                                        ++ utf8
                                                            "\" onclick=\"return confirmDelete();\">删除</a></td></tr>\n")))))))))))))

unfoldable pub row_of_name : Bytes → Bytes
row_of_name filename =
    codes "            <tr><td class=\"col1\"><a href="
    ++ (filename
        ++ (codes ">"
            ++ (filename
                ++ codes "</a></td> <td class=\"col2\"></td> <td class=\"col3\"></td></tr>\n")))

unfoldable pub rows : (Bytes → Bytes) → List Bytes → Bytes
rows row [] = []
rows row (name ∷ names) = row name ++ rows row names

-- `getFileListPage`, both overloads.
unfoldable pub file_list_page : {F : Type 0} → System F → F → (Bytes → Bytes) → Bytes → Result Bytes
unfolding get_file_vec split_template all_lines rows
file_list_page sys f row work_path = do
  names ← get_file_vec sys f work_path
  (front, back) ← split_template (sys.template f)
  ok (front ++ (rows row names ++ all_lines back))
