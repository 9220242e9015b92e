-- ===== src/Timer/Queue/Round.antt =====
-- One round of `handleRead` of timer/TimerQueue.cc: which timers are in the set afterwards.
use my_file_server.Common.{
  ℕ, suc, ◌≡◌, ◌≢◌, refl, sym, ap, subst, ◌∙◌, if◌then◌else◌, Bool, true, false, List, [], ◌∷◌,
  ◌++◌, ltb, ◌&&◌, ◌||◌,
}
use my_file_server.Timer.Queue.{
  Timer, Entry, TimerQueue, insert, get_expired, restart, arm_first, reset_entry, reset,
  run_expired, handle_read,
}
use my_file_server.Timer.Queue.Order.{
  AllEntries, IsSorted, HasAddress, get_expired-due, handle_read-IsSorted,
}
use my_file_server.Timer.Queue.Contents.{
  has, due, asked, restarted, IsOneOf, IsOneOf-append_left, IsOneOf-append_right,
  AllEntries-IsOneOf, split-has, split-due,
}
use my_file_server.Timer.Queue.Steps.{
  run_expired-has, reset-has, split-AllEntries, run_expired-AllEntries, reset-AllEntries,
}

-- Every timer of the set after a round is one of those before it, of those that were asked for, and of
-- the restarted ones.
round-IsOneOf :
    (adds : Timer → List Timer) (clock : ℕ → ℕ) (timers early : List Entry) (late : TimerQueue)
    → early ++ late.timers ≡ timers
    → AllEntries
        (λ x. IsOneOf x (timers ++ (asked adds early ++ restarted clock 1 early)))
        (reset clock 1 early (run_expired adds early late)).timers
round-IsOneOf adds clock timers early late whole =
    let others = asked adds early ++ restarted clock 1 early in
    let P : Entry → Type 0 = λ x. IsOneOf x (timers ++ others) in
    let old : AllEntries P timers =
      AllEntries-IsOneOf timers (timers ++ others) (λ x h. IsOneOf-append_left x timers others h) in
    let new : AllEntries P (asked adds early) =
      AllEntries-IsOneOf (asked adds early) (timers ++ others) λ x h.
        IsOneOf-append_right x timers others
          (IsOneOf-append_left x (asked adds early) (restarted clock 1 early) h) in
    let again : AllEntries P (restarted clock 1 early) =
      AllEntries-IsOneOf (restarted clock 1 early) (timers ++ others) λ x h.
        IsOneOf-append_right x timers others
          (IsOneOf-append_right x (asked adds early) (restarted clock 1 early) h) in
    let left = (split-AllEntries P early late.timers (subst (AllEntries P) (sym whole) old)).1 in
    reset-AllEntries P clock 1 early (run_expired adds early late)
      (run_expired-AllEntries P adds early late left new) again

arm_first-armed :
    (q : TimerQueue) (x : Entry) (xs : List Entry)
    → (arm_first q).timers ≡ x ∷ xs
    → (older : List ℕ) × ((arm_first q).armed ≡ x.timer.expiration ∷ older)
unfolding arm_first
arm_first-armed q x xs = go q.timers
  where
    go :
        (ts : List Entry)
        → (arm_first (record q { timers = ts })).timers ≡ x ∷ xs
        → (older : List ℕ) × ((arm_first (record q { timers = ts })).armed
            ≡ x.timer.expiration ∷ older)
    go [] e = absurd cc
    go (y ∷ ys) e =
        let same : y ≡ x = cc in (q.armed, ap (λ (z : Entry). z.timer.expiration ∷ q.armed) same)

reset_entry-armed :
    (now : ℕ) (e : Entry) (q : TimerQueue) (x : Entry) (xs : List Entry)
    → (reset_entry now e q).timers ≡ x ∷ xs
    → (older : List ℕ) × ((reset_entry now e q).armed ≡ x.timer.expiration ∷ older)
unfolding reset_entry
reset_entry-armed now e q x xs h =
    arm_first-armed
      (if e.timer.repeat
        then record q { timers = (insert (restart now e.timer) q.timers).1 }
        else q)
      x xs h

reset-armed :
    (clock : ℕ → ℕ) (i : ℕ) (es : List Entry) (q : TimerQueue) (x : Entry) (xs : List Entry)
    → es ≢ []
    → (reset clock i es q).timers ≡ x ∷ xs
    → (older : List ℕ) × ((reset clock i es q).armed ≡ x.timer.expiration ∷ older)
unfolding reset
reset-armed clock i [] q x xs some_due e = absurd (some_due refl)
reset-armed clock i (d ∷ []) q x xs some_due e = reset_entry-armed (clock i) d q x xs e
reset-armed clock i (d ∷ f ∷ fs) q x xs some_due e =
    reset-armed clock (suc i) (f ∷ fs) (reset_entry (clock i) d q) x xs (λ h. cc) e

or_assoc : (x y z : Bool) → ((x || y) || z) ≡ (x || y || z)
or_assoc true y z = refl
or_assoc false y z = refl

-- A round of the timer queue on a set in order, of timers that lie below UINTPTR_MAX: afterwards
-- the set is in order, and by their times and addresses it holds exactly the timers that were not
-- due at the first time that is read, those that the callbacks of the due ones ask for, and each
-- due timer that repeats, an interval behind the time that is read for it. Each timer in it is,
-- with all its fields, one of the set before, of those asked for or of the restarted ones. If a
-- timer was due, `timerfd_` is set last to the expiration of the set's first timer, if there is
-- one.
pub handle_read-timers :
    (adds : Timer → List Timer) (clock : ℕ → ℕ) (q : TimerQueue)
    → IsSorted q.timers
    → AllEntries HasAddress q.timers
    → IsSorted (handle_read adds clock q).timers
      × ((w a : ℕ)
          → has w a (handle_read adds clock q).timers ≡ (
              (has w a q.timers && ltb (clock 0) w)
              || has w a (asked adds (due (clock 0) q.timers))
              || has w a (restarted clock 1 (due (clock 0) q.timers))))
      × AllEntries
          (λ x. IsOneOf x (
            q.timers
            ++ (asked adds (due (clock 0) q.timers) ++ restarted clock 1 (due (clock 0) q.timers))))
          (handle_read adds clock q).timers
      × ((x : Entry) (xs : List Entry)
          → due (clock 0) q.timers ≢ []
          → (handle_read adds clock q).timers ≡ x ∷ xs
          → (older : List ℕ) × ((handle_read adds clock q).armed ≡ x.timer.expiration ∷ older))
unfolding handle_read
handle_read-timers adds clock q s a =
    let early = (get_expired (clock 0) q).0 in
    let late = (get_expired (clock 0) q).1 in
    let (are_due, are_late, whole) = get_expired-due (clock 0) q s a in
    let expired : due (clock 0) q.timers ≡ early =
      ap (due (clock 0)) (sym whole) ∙ split-due (clock 0) early late.timers are_due are_late in
    let kept : (w k : ℕ) → has w k late.timers ≡ (has w k q.timers && ltb (clock 0) w) = λ w k.
      split-has w k (clock 0) early late.timers are_due are_late
      ∙ ap (λ (xs : List Entry). has w k xs && ltb (clock 0) w) whole in
    (
      handle_read-IsSorted adds clock q s,
      λ w k. rw expired (
          reset-has w k clock 1 early (run_expired adds early late)
          ∙ ap (λ (b : Bool). b || has w k (restarted clock 1 early))
              (run_expired-has w k adds early late
                ∙ ap (λ (b : Bool). b || has w k (asked adds early)) (kept w k))
          ∙ or_assoc _ (has w k (asked adds early)) (has w k (restarted clock 1 early))),
      rw expired (round-IsOneOf adds clock q.timers early late whole),
      λ x xs some_due e.
          reset-armed clock 1 early (run_expired adds early late) x xs (λ h. some_due (expired ∙ h))
            e,
    )
