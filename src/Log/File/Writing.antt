-- ===== src/Log/File/Writing.antt =====
-- logger/LogFile.cc: what is appended reaches the files whole and in order.
use my_file_server.Common.{
  ℕ, ◌+◌, ◌-◌, ◌≤◌, ◌<◌, ◌≡◌, refl, sym, ap, subst, ◌∙◌, arith, ◌⊎◌, inl, inr, Bool-cases, Bool,
  true, false, not, ◌==◌, lt→ltb, ltb, leb, if◌then◌else◌, List, [], ◌∷◌, ◌++◌, Option, none, some,
  Bytes, length, Result, ok, ◌>>=◌, append_assoc, append-nil, length-append,
}
use my_file_server.Log.File.{
  new_log_file, unrolled, File, new_file, Platform, Calls, flush_file, LogFile, period_of,
  closed_with, read_clock, roll_at, roll_file, flush, flush_open, append_open, check_at, check,
  append_written, append,
}
use my_file_server.Log.File.Storing.{Takes, stored, append_file_lem}

file_bytes : Option File → Bytes
file_bytes none = []
file_bytes (some file) = file.bytes

-- How large the open file is, as it counts itself.
pub file_size : Option File → ℕ
file_size none = 0
file_size (some file) = file.written_bytes

concat_bytes : List File → Bytes
concat_bytes [] = []
concat_bytes (file ∷ files) = file.bytes ++ concat_bytes files

-- All that the log's files hold, in the order in which they were opened.
pub contents : LogFile → Bytes
contents log = concat_bytes log.closed ++ file_bytes log.file

-- A file is open, and it knows its size.
pub record IsOpen (log : LogFile) : Type 0 where
  pub open_file : File
  pub opened : log.file ≡ some open_file
  pub counted : open_file.written_bytes ≡ length open_file.bytes

-- A step that leaves the log open and its contents as they were.
pub record Keeps (before after : LogFile) : Type 0 where
  pub still_open : IsOpen after
  pub same : contents after ≡ contents before
  pub no_larger : file_size after.file ≤ file_size before.file

concat_bytes-append :
    (files : List File) (file : File)
    → concat_bytes (files ++ file ∷ []) ≡ concat_bytes files ++ file.bytes
unfolding concat_bytes
concat_bytes-append [] file = append-nil file.bytes
concat_bytes-append (f ∷ fs) file =
    ap (f.bytes ++◌) (concat_bytes-append fs file)
    ∙ sym (append_assoc f.bytes (concat_bytes fs) file.bytes)

closed_with-bytes :
    (file : Option File) (closed : List File)
    → concat_bytes (closed_with file closed) ≡ concat_bytes closed ++ file_bytes file
unfolding closed_with file_bytes
closed_with-bytes none closed = sym (append-nil (concat_bytes closed))
closed_with-bytes (some file) closed = concat_bytes-append closed file

if-Keeps :
    (test : Bool) (log x y : LogFile)
    → Keeps log x
    → Keeps log y
    → Keeps log (if test then x else y)
if-Keeps true log x y hx hy = hx
if-Keeps false log x y hx hy = hy

roll_at-Keeps : (now : ℕ) (log : LogFile) → IsOpen log → Keeps log (roll_at now log)
unfolding roll_at contents file_bytes new_file file_size
roll_at-Keeps now log o =
    if-Keeps (ltb log.last_roll now) log _ log
      (record {
        still_open = record { open_file = new_file; opened = refl; counted = refl };
        same =
            append-nil (concat_bytes (closed_with log.file log.closed))
            ∙ closed_with-bytes log.file log.closed;
        no_larger = omega arith;
      })
      (record { still_open = o; same = refl; no_larger = omega arith })

-- A step of the log that succeeds and keeps it.
abbrev pub KeptBy : LogFile → Result LogFile → Type 0
KeptBy log r = (log' : LogFile) × (r ≡ ok log') × Keeps log log'

if-KeptBy :
    (test : Bool) (log : LogFile) (x y : Result LogFile)
    → KeptBy log x
    → KeptBy log y
    → KeptBy log (if test then x else y)
if-KeptBy true log x y hx hy = hx
if-KeptBy false log x y hx hy = hy

pub flush-KeptBy : (log : LogFile) → IsOpen log → KeptBy log (flush log)
unfolding flush flush_open flush_file contents file_bytes file_size
flush-KeptBy log o = (
  _,
  ap (flush_open log) o.opened,
  record {
    still_open = record { open_file = flush_file o.open_file; opened = refl; counted = o.counted };
    same = ap (λ (f : Option File). concat_bytes log.closed ++ file_bytes f) (sym o.opened);
    no_larger =
        subst (λ (f : Option File). o.open_file.written_bytes ≤ file_size f) (sym o.opened)
          (omega arith);
  },
)

-- A step that first changes other members than the files.
KeptBy-other :
    (log other : LogFile) (r : Result LogFile)
    → other.file ≡ log.file
    → other.closed ≡ log.closed
    → (IsOpen other → KeptBy other r)
    → IsOpen log
    → KeptBy log r
unfolding contents
KeptBy-other log other r ef ec step o =
    let (log', e, k) =
      step (record { open_file = o.open_file; opened = ef ∙ o.opened; counted = o.counted }) in
    (
      log',
      e,
      record {
        still_open = k.still_open;
        same = k.same ∙ (rw (ef, ec) refl);
        no_larger = subst (λ (f : Option File). file_size log'.file ≤ file_size f) ef k.no_larger;
      },
    )

roll_file-KeptBy : (p : Platform) (log : LogFile) → IsOpen log → KeptBy log (ok (roll_file p log))
unfolding roll_file read_clock
roll_file-KeptBy p log o =
    let (now, timed) = read_clock p log in
    KeptBy-other log timed (ok (roll_at now timed)) refl refl
      (λ o'. (roll_at now timed, refl, roll_at-Keeps now timed o')) o

check_at-KeptBy :
    (p : Platform) (now : ℕ) (log : LogFile) → IsOpen log → KeptBy log (check_at p now log)
unfolding check_at
check_at-KeptBy p now log o =
    if-KeptBy (not (period_of now == log.start_of_period)) log _ _ (roll_file-KeptBy p log o) (
      if-KeptBy (ltb log.flush_interval (now - log.last_flush)) log _ _
        (KeptBy-other log (record log { last_flush = now }) _ refl refl
          (flush-KeptBy (record log { last_flush = now })) o)
        (log, refl, record { still_open = o; same = refl; no_larger = omega arith }))

check-KeptBy : (p : Platform) (log : LogFile) → IsOpen log → KeptBy log (check p log)
unfolding check read_clock
check-KeptBy p log o =
    let (now, timed) = read_clock p (record log { count = 0 }) in
    if-KeptBy (leb log.check_every_n (log.count + 1)) log _ _
      (KeptBy-other log timed _ refl refl (check_at-KeptBy p now timed) o)
      (KeptBy-other log (record log { count = log.count + 1 }) _ refl refl
        (λ o'. (_, refl, record { still_open = o'; same = refl; no_larger = omega arith })) o)

append_written-KeptBy :
    (p : Platform) (log : LogFile) (file : File) (c : Calls)
    → file.written_bytes ≡ length file.bytes
    → KeptBy (record log { file = some file; calls = c }) (append_written p log (file, c))
unfolding append_written
append_written-KeptBy p log file c h =
    let kept : LogFile = record log { file = some file; calls = c } in
    let o : IsOpen kept = record { open_file = file; opened = refl; counted = h } in
    if-KeptBy (ltb log.roll_size file.written_bytes) kept _ _ (roll_file-KeptBy p kept o)
      (check-KeptBy p kept o)

-- A roll starts with an empty file, unless the clock has not moved on since the last one.
roll_file-size :
    (p : Platform) (log : LogFile)
    → (file_size (roll_file p log).file ≡ 0) ⊎ (p.time log.calls.times ≤ log.last_roll)
unfolding roll_file read_clock roll_at new_file file_size
roll_file-size p log = elim (Bool-cases (ltb log.last_roll (p.time log.calls.times))) [
  | inl later ↦ inl (rw later refl)
  | inr same ↦ inr (ground (arith, same))
]

append_written-size :
    (p : Platform) (log log' : LogFile) (file : File) (c : Calls)
    → c.times ≡ log.calls.times
    → append_written p log (file, c) ≡ ok log'
    → Keeps (record log { file = some file; calls = c }) log'
    → (file_size log'.file ≤ log.roll_size) ⊎ (p.time log.calls.times ≤ log.last_roll)
unfolding append_written file_size
append_written-size p log log' file c hc e k =
    elim (Bool-cases (ltb log.roll_size file.written_bytes)) [
      | inl over ↦
          let kept : LogFile = record log { file = some file; calls = c } in
          let rolled : ok (roll_file p kept) ≡ ok log' =
            sym (ap (λ (b : Bool). if b then ok (roll_file p kept) else check p kept) over) ∙ e in
          let same : roll_file p kept ≡ log' = cc in
          elim (roll_file-size p kept) [
            | inl empty ↦ inl (
                subst (λ (l : LogFile). file_size l.file ≤ log.roll_size) same
                  (omega (arith, empty)))
            | inr still ↦ inr (subst (λ (k : ℕ). p.time k ≤ log.last_roll) hc still)
          ]
      | inr fits ↦ inl (ground (arith, fits, k.no_larger))
    ]

-- With an `fwrite` that takes at least a byte and at most what it is given, `append` on an open log
-- returns and leaves it open; its files hold what they held and then the text; and the open file is
-- not larger than `rollSize_`, unless the clock has not moved on since the last roll.
pub append-contents :
    (p : Platform) (text : Bytes) (log : LogFile)
    → Takes p
    → IsOpen log
    → (log' : LogFile) × (append p text log ≡ ok log')
      × IsOpen log'
      × (contents log' ≡ contents log ++ text)
      × ((file_size log'.file ≤ log.roll_size) ⊎ (p.time log.calls.times ≤ log.last_roll))
unfolding append append_open contents file_bytes stored
append-contents p text log t o =
    let (c', e, times) = append_file_lem p t text o.open_file log.calls in
    let (log', e', k) =
      append_written-KeptBy p log (stored o.open_file text) c'
        (omega (arith, o.counted, length-append o.open_file.bytes text)) in
    (
      log',
      ap (append_open p text log) o.opened
          ∙ ap (λ (r : Result (File × Calls)). r >>= append_written p log) e
          ∙ e',
      k.still_open,
      k.same
          ∙ sym (append_assoc (concat_bytes log.closed) o.open_file.bytes text)
          ∙ ap (λ (f : Option File). (concat_bytes log.closed ++ file_bytes f) ++ text)
              (sym o.opened),
      append_written-size p log log' (stored o.open_file text) c' times e' k,
    )

-- A log that is built when the clock shows more than 0 is open and empty.
pub new_log_file-IsOpen :
    (p : Platform) (roll_size flush_interval check_every_n : ℕ)
    → 0 < p.time 0
    → IsOpen (new_log_file p roll_size flush_interval check_every_n)
      × (contents (new_log_file p roll_size flush_interval check_every_n) ≡ [])
unfolding new_log_file unrolled roll_file read_clock roll_at new_file closed_with contents
    concat_bytes file_bytes
new_log_file-IsOpen p roll_size flush_interval check_every_n h =
    rw (lt→ltb 0 (p.time 0) h)
      (record { open_file = new_file; opened = refl; counted = refl }, refl)
