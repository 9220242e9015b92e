-- ===== src/Timer/Queue/Contents.antt =====
-- What a set of timers of timer/TimerQueue.cc holds.
use my_file_server.Common.{
  ℕ, suc, ◌+◌, ◌≤◌, ◌<◌, ◌≡◌, refl, ap, if◌then◌else◌, arith, inl, inr, Bool, true, false,
  Bool-cases, List, [], ◌∷◌, ◌++◌, ◌==◌, ltb, leb, ◌&&◌, ◌||◌, ◌⊎◌, append-nil,
}
use my_file_server.Timer.Queue.{Timer, Entry, earlier, set_insert}
use my_file_server.Timer.Queue.Order.{AllEntries, entry_of}

-- Whether the pair of a time and a timer's address is in the set.
abbrev pub has : ℕ → ℕ → List Entry → Bool
has when address [] = false
has when address (x ∷ xs) = (x.when == when && x.timer.address == address) || has when address xs

abbrev pub due : ℕ → List Entry → List Entry
due now [] = []
due now (x ∷ xs) = let rest = due now xs in if leb x.when now then x ∷ rest else rest

abbrev pub entries_of : List Timer → List Entry
entries_of [] = []
entries_of (t ∷ ts) = entry_of t ∷ entries_of ts

-- What the callbacks of the expired timers ask for.
abbrev pub asked : (Timer → List Timer) → List Entry → List Entry
asked adds [] = []
asked adds (e ∷ es) = entries_of (adds e.timer) ++ asked adds es

abbrev pub restart_at : ℕ → Entry → Entry
restart_at now e = entry_of (record e.timer { expiration = now + e.timer.interval })

-- The repeating ones among the expired timers, each an interval behind the time that is read for it.
abbrev pub restarted : (ℕ → ℕ) → ℕ → List Entry → List Entry
restarted clock i [] = []
restarted clock i (e ∷ es) =
    let rest = restarted clock (suc i) es in
    if e.timer.repeat then restart_at (clock i) e ∷ rest else rest

-- One of the entries, with the whole of its timer.
abbrev pub IsOneOf : Entry → List Entry → Type 0
IsOneOf x [] = ⊥
IsOneOf x (y ∷ ys) = (x ≡ y) ⊎ IsOneOf x ys

pub IsOneOf-append_left : (x : Entry) (xs ys : List Entry) → IsOneOf x xs → IsOneOf x (xs ++ ys)
IsOneOf-append_left x [] ys h = absurd h
IsOneOf-append_left x (y ∷ xs) ys (inl e) = inl e
IsOneOf-append_left x (y ∷ xs) ys (inr h) = inr (IsOneOf-append_left x xs ys h)

pub IsOneOf-append_right : (x : Entry) (xs ys : List Entry) → IsOneOf x ys → IsOneOf x (xs ++ ys)
IsOneOf-append_right x [] ys h = h
IsOneOf-append_right x (y ∷ xs) ys h = inr (IsOneOf-append_right x xs ys h)

pub AllEntries-IsOneOf :
    (xs zs : List Entry)
    → ((x : Entry) → IsOneOf x xs → IsOneOf x zs)
    → AllEntries (λ x. IsOneOf x zs) xs
AllEntries-IsOneOf [] zs f = tt
AllEntries-IsOneOf (x ∷ xs) zs f = (f x (inl refl), AllEntries-IsOneOf xs zs (λ y h. f y (inr h)))

pub has-set_insert :
    (w a : ℕ) (e : Entry) (xs : List Entry)
    → has w a (set_insert e xs) ≡ ((e.when == w && e.timer.address == a) || has w a xs)
unfolding set_insert earlier
has-set_insert w a e [] = refl
has-set_insert w a e (x ∷ xs) = ground (arith, has-set_insert w a e xs)

pub has-append : (w a : ℕ) (xs ys : List Entry) → has w a (xs ++ ys) ≡ (has w a xs || has w a ys)
has-append w a [] ys = refl
has-append w a (x ∷ xs) ys = ground (arith, has-append w a xs ys)

pub due-append : (now : ℕ) (xs ys : List Entry) → due now (xs ++ ys) ≡ due now xs ++ due now ys
due-append now [] ys = refl
due-append now (x ∷ xs) ys = elim (Bool-cases (leb x.when now)) [
  | inl early ↦ rw early (ap (◌∷◌ x) (due-append now xs ys))
  | inr late ↦ rw late (due-append now xs ys)
]

pub due-all : (now : ℕ) (xs : List Entry) → AllEntries (λ x. x.when ≤ now) xs → due now xs ≡ xs
due-all now [] h = refl
due-all now (x ∷ xs) h =
    let early : leb x.when now ≡ true = ground (arith, h.0) in
    rw early (ap (◌∷◌ x) (due-all now xs h.1))

pub due-none : (now : ℕ) (xs : List Entry) → AllEntries (λ x. now < x.when) xs → due now xs ≡ []
due-none now [] h = refl
due-none now (x ∷ xs) h =
    let late : leb x.when now ≡ false = ground (arith, h.0) in rw late (due-none now xs h.1)

pub has-due :
    (w a now : ℕ) (xs : List Entry)
    → AllEntries (λ x. x.when ≤ now) xs
    → (has w a xs && ltb now w) ≡ false
has-due w a now [] h = refl
has-due w a now (x ∷ xs) h = ground (arith, h.0, has-due w a now xs h.1)

pub has-late :
    (w a now : ℕ) (xs : List Entry)
    → AllEntries (λ x. now < x.when) xs
    → (has w a xs && ltb now w) ≡ has w a xs
has-late w a now [] h = refl
has-late w a now (x ∷ xs) h = ground (arith, h.0, has-late w a now xs h.1)

-- What is left by `getExpired` is what is not due.
pub split-has :
    (w a now : ℕ) (early late : List Entry)
    → AllEntries (λ x. x.when ≤ now) early
    → AllEntries (λ x. now < x.when) late
    → has w a late ≡ (has w a (early ++ late) && ltb now w)
split-has w a now early late h k =
    ground (arith, has-append w a early late, has-due w a now early h, has-late w a now late k)

pub split-due :
    (now : ℕ) (early late : List Entry)
    → AllEntries (λ x. x.when ≤ now) early
    → AllEntries (λ x. now < x.when) late
    → due now (early ++ late) ≡ early
split-due now early late h k =
    rw (due-append now early late, due-all now early h, due-none now late k) (append-nil early)
