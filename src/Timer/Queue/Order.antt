-- ===== src/Timer/Queue/Order.antt =====
-- The order of the set of timers in timer/TimerQueue.cc.
use my_file_server.Common.{
  ℕ, suc, ◌≤◌, ◌<◌, ◌≡◌, refl, sym, ap, subst, if◌then◌else◌, arith, inl, inr, Bool, true, false,
  Bool-cases, List, [], ◌∷◌, ◌++◌,
}
use my_file_server.Timer.Queue.{
  Timer, Entry, TimerQueue, last_address, earlier, set_insert, is_earliest, insert,
  add_timer_in_loop, split_at, get_expired, restart, arm_first, reset_entry, reset, add_all,
  run_expired, handle_read,
}

abbrev pub Before : Entry → Entry → Type 0
Before x y = earlier x.when x.timer.address y.when y.timer.address ≡ true

abbrev pub AllEntries : (Entry → Type 0) → List Entry → Type 0
AllEntries P [] = Unit {0}
AllEntries P (x ∷ xs) = P x × AllEntries P xs

abbrev pub IsSorted : List Entry → Type 0
IsSorted [] = Unit {0}
IsSorted (x ∷ xs) = AllEntries (Before x) xs × IsSorted xs

AllEntries-map :
    (P Q : Entry → Type 0) (xs : List Entry)
    → ((x : Entry) → P x → Q x)
    → AllEntries P xs
    → AllEntries Q xs
AllEntries-map P Q [] f h = tt
AllEntries-map P Q (x ∷ xs) f h = (f x h.0, AllEntries-map P Q xs f h.1)

Before-trans : (x y z : Entry) → Before x y → Before y z → Before x z
unfolding earlier
Before-trans x y z h k = ground arith

pub set_insert-AllEntries :
    (P : Entry → Type 0) (e : Entry) (xs : List Entry)
    → P e
    → AllEntries P xs
    → AllEntries P (set_insert e xs)
unfolding set_insert
set_insert-AllEntries P e [] h hs = (h, tt)
set_insert-AllEntries P e (x ∷ xs) h hs =
    elim (Bool-cases (earlier e.when e.timer.address x.when x.timer.address)) [
      | inl first ↦ rw first (h, hs)
      | inr not_first ↦ elim (Bool-cases (earlier x.when x.timer.address e.when e.timer.address)) [
        | inl behind ↦ rw (not_first, behind) (hs.0, set_insert-AllEntries P e xs h hs.1)
        | inr same ↦ rw (not_first, same) hs
      ]
    ]

set_insert-IsSorted : (e : Entry) (xs : List Entry) → IsSorted xs → IsSorted (set_insert e xs)
unfolding set_insert
set_insert-IsSorted e [] s = (tt, tt)
set_insert-IsSorted e (x ∷ xs) s =
    elim (Bool-cases (earlier e.when e.timer.address x.when x.timer.address)) [
      | inl first ↦ rw first (
          (
            (
              first,
              AllEntries-map (Before x) (Before e) xs (λ y h. Before-trans e x y first h) s.0,
            ),
            s,
          ))
      | inr not_first ↦ elim (Bool-cases (earlier x.when x.timer.address e.when e.timer.address)) [
        | inl behind ↦
            rw (not_first, behind)
              (set_insert-AllEntries (Before x) e xs behind s.0, set_insert-IsSorted e xs s.1)
        | inr same ↦ rw (not_first, same) s
      ]
    ]

abbrev pub entry_of : Timer → Entry
entry_of t = record { when = t.expiration; timer = t }

-- `insert` keeps the set in order, and where it reports a new earliest time the timer is the first.
insert-IsSorted :
    (t : Timer) (xs : List Entry)
    → IsSorted xs
    → IsSorted (insert t xs).1
      × ((insert t xs).0 ≡ true → (rest : List Entry) × ((insert t xs).1 ≡ entry_of t ∷ rest))
unfolding insert is_earliest
insert-IsSorted t xs s = (set_insert-IsSorted (entry_of t) xs s, first xs)
  where
    first :
        (ys : List Entry)
        → is_earliest t.expiration ys ≡ true
        → (rest : List Entry) × (set_insert (entry_of t) ys ≡ entry_of t ∷ rest)
    first [] h = ([], unfold set_insert in refl)
    first (y ∷ ys) h =
        let before : earlier t.expiration t.address y.when y.timer.address ≡ true =
          unfold earlier in ground (arith, h) in
        (y ∷ ys, rw (set_insert, before) refl)

abbrev pub HasAddress : Entry → Type 0
HasAddress x = x.timer.address < last_address

due-le :
    (x : Entry) (now : ℕ) → earlier x.when x.timer.address now last_address ≡ true → x.when ≤ now
unfolding earlier
due-le x now h = ground arith

not_due-lt :
    (x : Entry) (now : ℕ)
    → HasAddress x
    → earlier x.when x.timer.address now last_address ≡ false
    → now < x.when
unfolding earlier
not_due-lt x now a h = ground arith

behind-lt : (x y : Entry) (now : ℕ) → now < x.when → Before x y → now < y.when
unfolding earlier
behind-lt x y now h k = ground arith

-- `getExpired` of a set in order takes out exactly the timers that are due, in their order: the
-- others are later, and the two make up the set.
pub get_expired-due :
    (now : ℕ) (q : TimerQueue)
    → IsSorted q.timers
    → AllEntries HasAddress q.timers
    → AllEntries (λ x. x.when ≤ now) (get_expired now q).0
      × AllEntries (λ x. now < x.when) (get_expired now q).1.timers
      × ((get_expired now q).0 ++ (get_expired now q).1.timers ≡ q.timers)
unfolding get_expired split_at
get_expired-due now q s a = split q.timers s a
  where
    split :
        (xs : List Entry)
        → IsSorted xs
        → AllEntries HasAddress xs
        → AllEntries (λ x. x.when ≤ now) (split_at now xs).0
          × AllEntries (λ x. now < x.when) (split_at now xs).1
          × ((split_at now xs).0 ++ (split_at now xs).1 ≡ xs)
    split [] s a = (tt, tt, refl)
    split (x ∷ xs) s a = elim (Bool-cases (earlier x.when x.timer.address now last_address)) [
      | inl due ↦
          let (early, late, whole) = split xs s.1 a.1 in
          rw due ((due-le x now due, early), late, ap (◌∷◌ x) whole)
      | inr not_due ↦ rw not_due (
        tt,
        (
          not_due-lt x now a.0 not_due,
          AllEntries-map (Before x) (λ y. now < y.when) xs
              (λ y h. behind-lt x y now (not_due-lt x now a.0 not_due) h) s.0,
        ),
        refl,
      )
    ]

add_all-IsSorted :
    (ts : List Timer) (q : TimerQueue) → IsSorted q.timers → IsSorted (add_all ts q).timers
unfolding add_all add_timer_in_loop
add_all-IsSorted [] q s = s
add_all-IsSorted (t ∷ ts) q s =
    add_all-IsSorted ts (add_timer_in_loop t q) (insert-IsSorted t q.timers s).0

run_expired-IsSorted :
    (adds : Timer → List Timer) (es : List Entry) (q : TimerQueue)
    → IsSorted q.timers
    → IsSorted (run_expired adds es q).timers
unfolding run_expired
run_expired-IsSorted adds [] q s = s
run_expired-IsSorted adds (e ∷ es) q s =
    run_expired-IsSorted adds es (add_all (adds e.timer) q) (add_all-IsSorted (adds e.timer) q s)

pub arm_first_same : (q : TimerQueue) → (arm_first q).timers ≡ q.timers
unfolding arm_first
arm_first_same q = go q.timers
  where
    go : (ts : List Entry) → (arm_first (record q { timers = ts })).timers ≡ ts
    go [] = refl
    go (x ∷ xs) = refl

armed_either :
    (b : Bool) (p q : TimerQueue)
    → IsSorted p.timers
    → IsSorted q.timers
    → IsSorted (arm_first (if b then p else q)).timers
armed_either true p q s t = subst IsSorted (sym (arm_first_same p)) s
armed_either false p q s t = subst IsSorted (sym (arm_first_same q)) t

reset_entry-IsSorted :
    (now : ℕ) (e : Entry) (q : TimerQueue)
    → IsSorted q.timers
    → IsSorted (reset_entry now e q).timers
unfolding reset_entry
reset_entry-IsSorted now e q s =
    armed_either e.timer.repeat (record q { timers = (insert (restart now e.timer) q.timers).1 }) q
      (insert-IsSorted (restart now e.timer) q.timers s).0 s

reset-IsSorted :
    (clock : ℕ → ℕ) (i : ℕ) (es : List Entry) (q : TimerQueue)
    → IsSorted q.timers
    → IsSorted (reset clock i es q).timers
unfolding reset
reset-IsSorted clock i [] q s = s
reset-IsSorted clock i (e ∷ es) q s =
    reset-IsSorted clock (suc i) es (reset_entry (clock i) e q)
      (reset_entry-IsSorted (clock i) e q s)

split_at-IsSorted : (now : ℕ) (xs : List Entry) → IsSorted xs → IsSorted (split_at now xs).1
unfolding split_at
split_at-IsSorted now [] s = tt
split_at-IsSorted now (x ∷ xs) s =
    elim (Bool-cases (earlier x.when x.timer.address now last_address)) [
      | inl due ↦ rw due (split_at-IsSorted now xs s.1)
      | inr not_due ↦ rw not_due s
    ]

-- A round of the timer queue keeps the set in order, whatever times are read, timers expire and
-- timers their callbacks add.
pub handle_read-IsSorted :
    (adds : Timer → List Timer) (clock : ℕ → ℕ) (q : TimerQueue)
    → IsSorted q.timers
    → IsSorted (handle_read adds clock q).timers
unfolding handle_read get_expired
handle_read-IsSorted adds clock q s =
    let expired = (get_expired (clock 0) q).0 in
    let rest = (get_expired (clock 0) q).1 in
    reset-IsSorted clock 1 expired (run_expired adds expired rest)
      (run_expired-IsSorted adds expired rest (split_at-IsSorted (clock 0) q.timers s))
