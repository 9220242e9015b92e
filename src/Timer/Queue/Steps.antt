-- ===== src/Timer/Queue/Steps.antt =====
-- The parts of a round of timer/TimerQueue.cc: which timers are in the set after each.
use my_file_server.Common.{
  ℕ, suc, ◌+◌, ◌≡◌, refl, sym, ap, subst, ◌∙◌, if◌then◌else◌, arith, inl, inr, Bool, true, false,
  Bool-cases, List, [], ◌∷◌, ◌++◌, ◌==◌, ◌&&◌, ◌||◌,
}
use my_file_server.Timer.Queue.{
  Timer, Entry, TimerQueue, set_insert, insert, add_timer_in_loop, restart, reset_entry, reset,
  add_all, run_expired,
}
use my_file_server.Timer.Queue.Order.{AllEntries, entry_of, set_insert-AllEntries, arm_first_same}
use my_file_server.Timer.Queue.Contents.{
  has, entries_of, asked, restart_at, restarted, has-set_insert, has-append,
}

pub add_all-has :
    (w a : ℕ) (ts : List Timer) (q : TimerQueue)
    → has w a (add_all ts q).timers ≡ (has w a q.timers || has w a (entries_of ts))
unfolding add_all add_timer_in_loop insert
add_all-has w a [] q = ground arith
add_all-has w a (t ∷ ts) q =
    ground
      (arith, add_all-has w a ts (add_timer_in_loop t q), has-set_insert w a (entry_of t) q.timers)

pub run_expired-has :
    (w a : ℕ) (adds : Timer → List Timer) (es : List Entry) (q : TimerQueue)
    → has w a (run_expired adds es q).timers ≡ (has w a q.timers || has w a (asked adds es))
unfolding run_expired
run_expired-has w a adds [] q = ground arith
run_expired-has w a adds (e ∷ es) q = ground (
  arith,
  run_expired-has w a adds es (add_all (adds e.timer) q),
  add_all-has w a (adds e.timer) q,
  has-append w a (entries_of (adds e.timer)) (asked adds es),
)

pub reset_entry-has :
    (w a now : ℕ) (e : Entry) (q : TimerQueue)
    → has w a (reset_entry now e q).timers ≡ (
        (e.timer.repeat && (now + e.timer.interval == w && e.timer.address == a))
        || has w a q.timers)
unfolding reset_entry restart insert
reset_entry-has w a now e q = elim (Bool-cases e.timer.repeat) [
  | inl again ↦ rw (again, arm_first_same) (has-set_insert w a _ q.timers)
  | inr once ↦ rw (once, arm_first_same) refl
]

pub reset-has :
    (w a : ℕ) (clock : ℕ → ℕ) (i : ℕ) (es : List Entry) (q : TimerQueue)
    → has w a (reset clock i es q).timers ≡ (has w a q.timers || has w a (restarted clock i es))
unfolding reset
reset-has w a clock i [] q = ground arith
reset-has w a clock i (e ∷ es) q = elim (Bool-cases e.timer.repeat) [
  | inl again ↦ ground (
    arith,
    again,
    reset-has w a clock (suc i) es (reset_entry (clock i) e q),
    reset_entry-has w a (clock i) e q,
  )
  | inr once ↦ ground (
    arith,
    once,
    reset-has w a clock (suc i) es (reset_entry (clock i) e q),
    reset_entry-has w a (clock i) e q,
  )
]

pub reset_entry_again :
    (now : ℕ) (e : Entry) (q : TimerQueue)
    → e.timer.repeat ≡ true
    → (reset_entry now e q).timers ≡ set_insert (restart_at now e) q.timers
unfolding reset_entry restart insert
reset_entry_again now e q again =
    arm_first_same (
      if e.timer.repeat then record q { timers = (insert (restart now e.timer) q.timers).1 } else q)
    ∙ ap
        (λ (b : Bool).
          (if b
            then record q {
              timers =
                  set_insert
                    (entry_of (
                      if b
                      then record e.timer { expiration = now + e.timer.interval }
                      else record e.timer { expiration = 0 }))
                    q.timers;
            }
            else q).timers)
        again

pub reset_entry_once :
    (now : ℕ) (e : Entry) (q : TimerQueue)
    → e.timer.repeat ≡ false
    → (reset_entry now e q).timers ≡ q.timers
unfolding reset_entry
reset_entry_once now e q once = rw (once, arm_first_same) refl

pub restarted_again :
    (clock : ℕ → ℕ) (i : ℕ) (e : Entry) (es : List Entry)
    → e.timer.repeat ≡ true
    → restarted clock i (e ∷ es) ≡ restart_at (clock i) e ∷ restarted clock (suc i) es
restarted_again clock i e es again =
    ap
      (λ (b : Bool).
        if b
        then restart_at (clock i) e ∷ restarted clock (suc i) es
        else restarted clock (suc i) es)
      again

module _ (P : Entry → Type 0) where
  pub split-AllEntries :
      (xs ys : List Entry) → AllEntries P (xs ++ ys) → AllEntries P xs × AllEntries P ys
  split-AllEntries [] ys h = (tt, h)
  split-AllEntries (x ∷ xs) ys h =
      let (front, back) = split-AllEntries xs ys h.1 in ((h.0, front), back)

  pub add_all-AllEntries :
      (ts : List Timer) (q : TimerQueue)
      → AllEntries P q.timers
      → AllEntries P (entries_of ts)
      → AllEntries P (add_all ts q).timers
  unfolding add_all add_timer_in_loop insert
  add_all-AllEntries [] q h k = h
  add_all-AllEntries (t ∷ ts) q h k =
      add_all-AllEntries ts (add_timer_in_loop t q)
        (set_insert-AllEntries P (entry_of t) q.timers k.0 h) k.1

  pub run_expired-AllEntries :
      (adds : Timer → List Timer) (es : List Entry) (q : TimerQueue)
      → AllEntries P q.timers
      → AllEntries P (asked adds es)
      → AllEntries P (run_expired adds es q).timers
  unfolding run_expired
  run_expired-AllEntries adds [] q h k = h
  run_expired-AllEntries adds (e ∷ es) q h k =
      let (now, later) = split-AllEntries (entries_of (adds e.timer)) (asked adds es) k in
      run_expired-AllEntries adds es (add_all (adds e.timer) q)
        (add_all-AllEntries (adds e.timer) q h now) later

  pub reset-AllEntries :
      (clock : ℕ → ℕ) (i : ℕ) (es : List Entry) (q : TimerQueue)
      → AllEntries P q.timers
      → AllEntries P (restarted clock i es)
      → AllEntries P (reset clock i es q).timers
  unfolding reset
  reset-AllEntries clock i [] q h k = h
  reset-AllEntries clock i (e ∷ es) q h k =
      reset-AllEntries clock (suc i) es (reset_entry (clock i) e q) kept.0 kept.1
    where
      kept :
          AllEntries P (reset_entry (clock i) e q).timers
          × AllEntries P (restarted clock (suc i) es)
      kept = elim (Bool-cases e.timer.repeat) [
        | inl again ↦
            let both = subst (AllEntries P) (restarted_again clock i e es again) k in
            (
              subst (AllEntries P) (sym (reset_entry_again (clock i) e q again))
                  (set_insert-AllEntries P (restart_at (clock i) e) q.timers both.0 h),
              both.1,
            )
        | inr once ↦ (
          subst (AllEntries P) (sym (reset_entry_once (clock i) e q once)) h,
          subst (AllEntries P)
              (ap
                (λ (b : Bool).
                  if b
                  then restart_at (clock i) e ∷ restarted clock (suc i) es
                  else restarted clock (suc i) es)
                once)
              k,
        )
      ]
