-- ===== src/Timer/Tests.antt =====
-- timer/TimerQueue.cc at concrete inputs.
use my_file_server.Common.{
  ℕ, ◌+◌, ◌≤◌, ◌<◌, ◌≡◌, ◌≢◌, ◌&&◌, ◌||◌, ltb, refl, arith, true, false, List, [], ◌∷◌, ◌++◌,
}
use my_file_server.Timer.Queue.{Timer, Entry, TimerQueue, earlier, get_expired, handle_read}
use my_file_server.Timer.Queue.Order.{IsSorted, AllEntries, entry_of, get_expired-due}
use my_file_server.Timer.Queue.Contents.{has, asked, IsOneOf}
use my_file_server.Timer.Queue.Round.{handle_read-timers}

abbrev once : Timer
once = record { address = 300; expiration = 10; interval = 0; repeat = false }

abbrev again : Timer
again = record { address = 100; expiration = 20; interval = 15; repeat = true }

abbrev two_timers : List Entry
two_timers = entry_of once ∷ entry_of again ∷ []

two_timers-IsSorted : IsSorted two_timers
unfolding earlier
two_timers-IsSorted = ((refl, tt), (tt, tt))

abbrev queue : TimerQueue
queue = record { timers = two_timers; armed = [] }

abbrev sooner : Timer
sooner = record { address = 200; expiration = 5; interval = 0; repeat = false }

get_expired-due_example :
    AllEntries (λ x. x.when ≤ 10) (get_expired 10 queue).0
    × AllEntries (λ x. 10 < x.when) (get_expired 10 queue).1.timers
    × ((get_expired 10 queue).0 ++ (get_expired 10 queue).1.timers ≡ two_timers)
get_expired-due_example =
    get_expired-due 10 queue two_timers-IsSorted (omega arith, (omega arith, tt))

-- Every callback adds a timer.
abbrev adds_one : Timer → List Timer
adds_one t = sooner ∷ []

abbrev ticking : ℕ → ℕ
ticking i = 20 + i

-- Both timers are due; the one that repeats is restarted at the third time that is read.
abbrev after : TimerQueue
after = handle_read adds_one ticking queue

handle_read-timers_example :
    IsSorted after.timers
    × ((w a : ℕ)
        → has w a after.timers ≡ (
            (has w a two_timers && ltb 20 w)
            || has w a (asked adds_one two_timers)
            || has w a (entry_of (record again { expiration = 37 }) ∷ [])))
    × AllEntries
        (λ x. IsOneOf x (
          two_timers
          ++ (asked adds_one two_timers ++ (entry_of (record again { expiration = 37 }) ∷ []))))
        after.timers
    × ((x : Entry) (xs : List Entry)
        → two_timers ≢ []
        → after.timers ≡ x ∷ xs
        → (older : List ℕ) × (after.armed ≡ x.timer.expiration ∷ older))
handle_read-timers_example =
    handle_read-timers adds_one ticking queue two_timers-IsSorted (omega arith, (omega arith, tt))
