-- ===== src/Timer/Queue.antt =====
-- timer/TimerQueue.cc and timer/Timer.cc. Times are microseconds since the epoch, below 2 ^ 63; an
-- interval is what `addTime` adds, the seconds times 1000000 cut to an integer. Each call of
-- `Timestamp::now()` is an argument. All calls are made in the loop's thread.
pub mod Order
pub mod Contents
pub mod Steps
pub mod Round
use my_file_server.Common.{
  ℕ, suc, ◌+◌, ◌==◌, ltb, ◌&&◌, ◌||◌, not, if◌then◌else◌, Bool, true, false, List, [], ◌∷◌, ◌++◌,
}

pub record Timer : Type 0 where
  -- where the object lies
  pub address : ℕ
  pub expiration : ℕ
  pub interval : ℕ
  pub repeat : Bool

-- An entry of the set: the time stamp and the timer that the pointer leads to.
pub record Entry : Type 0 where
  pub when : ℕ
  pub timer : Timer

-- UINTPTR_MAX
abbrev pub last_address : ℕ
last_address = 18446744073709551615

-- `<` of `std::pair<Timestamp, Timer*>`.
unfoldable pub earlier : ℕ → ℕ → ℕ → ℕ → Bool
earlier when address other_when other_address =
    ltb when other_when || (not (ltb other_when when) && ltb address other_address)

-- `set::insert`: an equal entry is kept.
unfoldable pub set_insert : Entry → List Entry → List Entry
unfolding earlier
set_insert e [] = e ∷ []
set_insert e (x ∷ xs) =
    let later = set_insert e xs in
    if earlier e.when e.timer.address x.when x.timer.address
    then e ∷ x ∷ xs
    else if earlier x.when x.timer.address e.when e.timer.address
    then x ∷ later
    else x ∷ xs

unfoldable pub is_earliest : ℕ → List Entry → Bool
is_earliest when [] = true
is_earliest when (x ∷ xs) = ltb when x.when

-- `TimerQueue::insert`: whether the earliest time changed, and the set.
unfoldable pub insert : Timer → List Entry → Bool × List Entry
unfolding is_earliest set_insert
insert timer timers = (
  is_earliest timer.expiration timers,
  set_insert (record { when = timer.expiration; timer = timer }) timers,
)

-- The queue, and the times that `timerfd_` was set to, the last one first.
pub record TimerQueue : Type 0 where
  pub timers : List Entry
  pub armed : List ℕ

unfoldable pub add_timer_in_loop : Timer → TimerQueue → TimerQueue
unfolding insert
add_timer_in_loop timer q =
    let (earliest_changed, timers) = insert timer q.timers in
    record {
      timers = timers;
      armed = if earliest_changed then timer.expiration ∷ q.armed else q.armed;
    }

-- The entries before `lower_bound(sentry)`, and those from it on.
unfoldable pub split_at : ℕ → List Entry → List Entry × List Entry
unfolding earlier
split_at now [] = ([], [])
split_at now (x ∷ xs) =
    let (expired, rest) = split_at now xs in
    if earlier x.when x.timer.address now last_address then (x ∷ expired, rest) else ([], x ∷ xs)

unfoldable pub get_expired : ℕ → TimerQueue → List Entry × TimerQueue
unfolding split_at
get_expired now q =
    let (expired, rest) = split_at now q.timers in (expired, record q { timers = rest })

-- `Timer::restart`
unfoldable pub restart : ℕ → Timer → Timer
restart now timer =
    if timer.repeat
    then record timer { expiration = now + timer.interval }
    else record timer { expiration = 0 }

-- `timerfd_` is set to the first time, if there is one.
unfoldable pub arm_first : TimerQueue → TimerQueue
arm_first q = elim q.timers [ [] ↦ q | x ∷ xs ↦ record q { armed = x.timer.expiration ∷ q.armed } ]

-- One round of the loop in `reset`.
unfoldable pub reset_entry : ℕ → Entry → TimerQueue → TimerQueue
unfolding insert restart arm_first
reset_entry now e q =
    arm_first (
      if e.timer.repeat then record q { timers = (insert (restart now e.timer) q.timers).1 } else q)

-- `reset`; `clock i` is the i-th time read.
unfoldable pub reset : (ℕ → ℕ) → ℕ → List Entry → TimerQueue → TimerQueue
unfolding reset_entry
reset clock i [] q = q
reset clock i (e ∷ es) q = reset clock (suc i) es (reset_entry (clock i) e q)

unfoldable pub add_all : List Timer → TimerQueue → TimerQueue
add_all [] q = q
add_all (t ∷ ts) q = add_all ts (add_timer_in_loop t q)

-- The callbacks of the expired timers, in their order; each may add timers.
unfoldable pub run_expired : (Timer → List Timer) → List Entry → TimerQueue → TimerQueue
run_expired adds [] q = q
run_expired adds (e ∷ es) q = run_expired adds es (add_all (adds e.timer) q)

unfoldable pub handle_read : (Timer → List Timer) → (ℕ → ℕ) → TimerQueue → TimerQueue
unfolding get_expired run_expired reset
handle_read adds clock q =
    let (expired, rest) = get_expired (clock 0) q in
    reset clock 1 expired (run_expired adds expired rest)
