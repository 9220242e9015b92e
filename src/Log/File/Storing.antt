-- ===== src/Log/File/Storing.antt =====
-- logger/FileUtil.cc: what is appended reaches the open file whole.
use my_file_server.Common.{
  ℕ, zero, suc, ◌+◌, ◌≤◌, ◌<◌, ◌≡◌, refl, sym, ap, ◌∙◌, arith, [], ◌∷◌, ◌++◌, Bytes, length, take,
  drop, Result, ok, append_assoc, append-nil, length-drop, take-append-drop,
}
use my_file_server.Log.File.{File, Platform, Calls, append_loop, append_file}

-- fwrite(3) takes at most what it is given. That it takes at least a byte of what is not empty is
-- what the loop relies on.
pub record Takes (p : Platform) : Type 0 where
  pub at_least : (k n : ℕ) → 0 < n → 0 < p.fwrite k n
  pub at_most : (k n : ℕ) → p.fwrite k n ≤ n

unfoldable pub grown : File → Bytes → File
grown file text = record file { bytes = file.bytes ++ text }

same_end :
    (file : File) (c : Calls) (xs ys : Bytes) (v w : ℕ)
    → xs ≡ ys
    → v ≡ w
    → ◌≡◌ {A = Result (File × ℕ × Calls)}
        (ok (record file { bytes = xs }, v, c))
        (ok (record file { bytes = ys }, w, c))
same_end file c xs ys v w e h = cc

-- As much fuel as there are bytes is enough.
pub append_loop_lem :
    (p : Platform)
    → Takes p
    → (fuel : ℕ) (text : Bytes) (file : File) (written : ℕ) (c : Calls) → length text ≤ fuel
    → (c' : Calls) × (append_loop p fuel text file written c
        ≡ ok (grown file text, written + length text, c'))
      × (c'.times ≡ c.times)
unfolding append_loop grown
append_loop_lem p t fuel [] file written c h = (
  c,
  same_end file c file.bytes (file.bytes ++ []) written (written + 0) (sym (append-nil file.bytes))
      (omega arith),
  refl,
)
append_loop_lem p t zero (b ∷ bs) file written c h = absurd (omega arith)
append_loop_lem p t (suc fuel) (b ∷ bs) file written c h =
    let n : ℕ = p.fwrite c.fwrites (length (b ∷ bs)) in
    let (c', e, times) =
      append_loop_lem p t fuel (drop n (b ∷ bs)) (grown file (take n (b ∷ bs))) (written + n)
        (record c { fwrites = c.fwrites + 1 })
        (omega (arith, length-drop n (b ∷ bs), t.at_least c.fwrites (length (b ∷ bs)))) in
    (
      c',
      e
          ∙ same_end file c' ((file.bytes ++ take n (b ∷ bs)) ++ drop n (b ∷ bs))
              (file.bytes ++ b ∷ bs) ((written + n) + length (drop n (b ∷ bs)))
              (written + length (b ∷ bs))
              (append_assoc file.bytes (take n (b ∷ bs)) (drop n (b ∷ bs))
                ∙ ap (file.bytes ++◌) (take-append-drop n (b ∷ bs)))
              (omega (arith, length-drop n (b ∷ bs), t.at_most c.fwrites (length (b ∷ bs)))),
      times,
    )

-- The file after `FileUtil::append`.
unfoldable pub stored : File → Bytes → File
stored file text = record file {
  bytes = file.bytes ++ text;
  written_bytes = file.written_bytes + length text;
}

pub append_file_lem :
    (p : Platform)
    → Takes p
    → (text : Bytes) (file : File) (c : Calls)
    → (c' : Calls) × (append_file p text file c ≡ ok (stored file text, c')) × (c'.times ≡ c.times)
unfolding append_file grown stored
append_file_lem p t text file c =
    let (c', e, times) = append_loop_lem p t (length text) text file 0 c (omega arith) in
    (c', rw e (ground arith), times)
