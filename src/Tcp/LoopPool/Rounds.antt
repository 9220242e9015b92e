-- ===== src/Tcp/LoopPool/Rounds.antt =====
-- net/EventLoopThreadPool.cc: every loop has its turn.
use my_file_server.Common.{
  ℕ, zero, suc, ◌+◌, ◌<◌, ◌≡◌, refl, sym, ap, arith, List, [], ◌∷◌, ◌++◌, length, length-append,
  length-take, length-drop, take, drop, take-append-drop, get_elem?, append_assoc, some, ok, ◌∙◌,
  append-nil, Bool,
}
use Prim.Native.Nat.{min}
use my_file_server.Tcp.LoopPool.{
  LoopPool, following, next_of, get_next_loop, get_all_loops, calls, start, start_loops, new_pool,
  set_thread_num,
}

get_elem?-append :
    (xs : List ℕ) (y : ℕ) (ys : List ℕ) → get_elem? (xs ++ y ∷ ys) (length xs) ≡ some y
get_elem?-append [] y ys = refl
get_elem?-append (x ∷ xs) y ys = get_elem?-append xs y ys

following_inside : (i n : ℕ) → suc i < n → following i n ≡ suc i
unfolding following
following_inside i n h = ground arith

following_last : (i n : ℕ) → suc i ≡ n → following i n ≡ 0
unfolding following
following_last i n h = ground arith

next_of-get_elem? :
    (pool : LoopPool) (ls : List ℕ) (loop : ℕ)
    → get_elem? ls pool.next ≡ some loop
    → next_of pool ls ≡ ok (loop, record pool { next = following pool.next (length ls) })
unfolding next_of
next_of-get_elem? pool [] loop h = absurd cc
next_of-get_elem? pool (l ∷ ls) loop h = rw (h, next_of) refl

get_next_loop-append :
    (pool : LoopPool) (front : List ℕ) (l : ℕ) (ls : List ℕ)
    → pool.next ≡ length front
    → pool.loops ≡ front ++ l ∷ ls
    → get_next_loop pool ≡ ok (l, record pool { next = following pool.next (length pool.loops) })
unfolding get_next_loop
get_next_loop-append pool front l ls hn hl =
    next_of-get_elem? pool pool.loops l (rw (hl, hn) (get_elem?-append front l ls))

calls-suc :
    (n : ℕ) (pool after last : LoopPool) (l : ℕ) (ls : List ℕ)
    → get_next_loop pool ≡ ok (l, after)
    → calls n after ≡ ok (ls, last)
    → calls (suc n) pool ≡ ok (l ∷ ls, last)
unfolding calls
calls-suc n pool after last l ls h hs = rw (h, hs) refl

calls_more :
    (k n : ℕ) (pool after last : LoopPool) (l : ℕ) (ls : List ℕ)
    → k ≡ suc n
    → get_next_loop pool ≡ ok (l, after)
    → calls n after ≡ ok (ls, last)
    → calls k pool ≡ ok (l ∷ ls, last)
calls_more k n pool after last l ls e h hs =
    ap (λ (i : ℕ). calls i pool) e ∙ calls-suc n pool after last l ls h hs

calls-zero : (pool : LoopPool) → calls zero pool ≡ ok ([], pool)
unfolding calls
calls-zero pool = refl

-- The calls that hand out `mid` while loops are left behind it.
calls_within :
    (pool : LoopPool) (front mid : List ℕ) (r : ℕ) (rest : List ℕ)
    → pool.next ≡ length front
    → pool.loops ≡ front ++ (mid ++ r ∷ rest)
    → calls (length mid) pool ≡ ok (mid, record pool { next = length front + length mid })
calls_within pool front [] r rest hn hl =
    calls-zero pool ∙ ap (λ (i : ℕ). ok ([], record pool { next = i })) (omega (arith, hn))
calls_within pool front (m ∷ mid) r rest hn hl =
    let n : ℕ = following pool.next (length pool.loops) in
    let inside : n ≡ suc pool.next = following_inside pool.next (length pool.loops) (
      omega (
        arith,
        ap length hl,
        length-append front (m ∷ (mid ++ r ∷ rest)),
        length-append mid (r ∷ rest),
      )) in
    let moved : length (front ++ m ∷ []) ≡ length front + 1 = length-append front (m ∷ []) in
    calls-suc (length mid) pool (record pool { next = n })
      (record pool { next = length front + suc (length mid) }) m mid
      (get_next_loop-append pool front m (mid ++ r ∷ rest) hn hl)
      (calls_within (record pool { next = n }) (front ++ m ∷ []) mid r rest
          (omega (arith, inside, moved)) (hl ∙ sym (append_assoc front (m ∷ []) (mid ++ r ∷ rest)))
        ∙ ap (λ (i : ℕ). ok (mid, record pool { next = i })) (omega (arith, moved)))

-- The calls that hand out the loops from the next one on; the calls behind them begin at the first.
calls_from :
    (pool last : LoopPool) (front : List ℕ) (l : ℕ) (ls : List ℕ) (k : ℕ) (more : List ℕ)
    → pool.next ≡ length front
    → pool.loops ≡ front ++ l ∷ ls
    → calls k (record pool { next = 0 }) ≡ ok (more, last)
    → calls (suc (length ls) + k) pool ≡ ok (l ∷ ls ++ more, last)
calls_from pool last front l [] k more hn hl h =
    let n : ℕ = following pool.next (length pool.loops) in
    let wraps : n ≡ 0 =
      following_last pool.next (length pool.loops)
        (omega (arith, ap length hl, length-append front (l ∷ []))) in
    calls_more (1 + k) k pool (record pool { next = n }) last l more (omega arith)
      (get_next_loop-append pool front l [] hn hl)
      (ap (λ (i : ℕ). calls k (record pool { next = i })) wraps ∙ h)
calls_from pool last front l (m ∷ ls) k more hn hl h =
    let n : ℕ = following pool.next (length pool.loops) in
    let inside : n ≡ suc pool.next =
      following_inside pool.next (length pool.loops)
        (omega (arith, ap length hl, length-append front (l ∷ m ∷ ls))) in
    calls_more (suc (suc (length ls)) + k) (suc (length ls) + k) pool (record pool { next = n })
      last l (m ∷ ls ++ more) (omega arith) (get_next_loop-append pool front l (m ∷ ls) hn hl)
      (calls_from (record pool { next = n }) last (front ++ l ∷ []) m ls k more
        (omega (arith, inside, length-append front (l ∷ [])))
        (hl ∙ sym (append_assoc front (l ∷ []) (m ∷ ls))) h)

calls-round :
    (pool : LoopPool) (front : List ℕ) (l : ℕ) (ls : List ℕ)
    → pool.next ≡ length front
    → pool.loops ≡ front ++ l ∷ ls
    → calls (suc (length ls) + length front) pool ≡ ok (l ∷ ls ++ front, pool)
calls-round pool front l ls hn hl = calls_from pool pool front l ls (length front) front hn hl (
    calls_within (record pool { next = 0 }) [] front l ls refl hl
    ∙ ap (λ (i : ℕ). ok (front, record pool { next = i })) (omega (arith, hn)))

-- A pool without loops gives out its base loop.
calls_base : (pool : LoopPool) → pool.loops ≡ [] → calls 1 pool ≡ ok (pool.base_loop ∷ [], pool)
unfolding calls get_next_loop next_of
calls_base pool h = rw (h) refl

-- With an index below the number of loops, as many calls of getNextLoop as there are loops give out
-- every loop once, from the one of the index on and round, and leave the pool as it was.
calls-length :
    (pool : LoopPool)
    → pool.next < length pool.loops
    → calls (length pool.loops) pool
      ≡ ok (drop pool.next pool.loops ++ take pool.next pool.loops, pool)
calls-length pool h = by_rest (drop pool.next pool.loops) refl
  where
    front : List ℕ
    front = take pool.next pool.loops

    measured : length front ≡ min pool.next (length pool.loops)
    measured = length-take pool.next pool.loops

    whole : front ++ drop pool.next pool.loops ≡ pool.loops
    whole = take-append-drop pool.next pool.loops

    by_rest :
        (rest : List ℕ)
        → drop pool.next pool.loops ≡ rest
        → calls (length pool.loops) pool ≡ ok (drop pool.next pool.loops ++ front, pool)
    by_rest [] e = absurd (omega (arith, h, ap length e, length-drop pool.next pool.loops))
    by_rest (l ∷ ls) e =
        ap (λ (n : ℕ). calls n pool)
          (omega (arith, h, ap length e, length-drop pool.next pool.loops, measured))
        ∙ calls-round pool front l ls (omega (arith, h, measured)) (sym whole ∙ ap (front ++◌) e)
        ∙ ap (λ (xs : List ℕ). ok (xs ++ front, pool)) (sym e)

-- The pool of a server on `base` that was started with `n` threads.
pub running : (ℕ → ℕ) → Bool → (base n : ℕ) → LoopPool
running start_loop has_callback base n =
    (start start_loop has_callback (set_thread_num n (new_pool base))).1

-- From the start on, as many calls of getNextLoop as getAllLoops has loops give out exactly those
-- loops in their order, and leave the pool as it was; without threads that is the base loop.
pub calls-running :
    (start_loop : ℕ → ℕ) (has_callback : Bool) (base n : ℕ)
    → calls
        (length (get_all_loops (running start_loop has_callback base n)))
        (running start_loop has_callback base n)
      ≡ ok (
        get_all_loops (running start_loop has_callback base n),
        running start_loop has_callback base n,
      )
unfolding running get_all_loops start set_thread_num new_pool start_loops
calls-running start_loop has_callback base zero =
    calls_base (running start_loop has_callback base zero) refl
calls-running start_loop has_callback base (suc n) =
    calls-length (running start_loop has_callback base (suc n)) (omega arith)
    ∙ ap (λ (xs : List ℕ). ok (xs, running start_loop has_callback base (suc n)))
        (append-nil (start_loops start_loop (suc n) 0))
