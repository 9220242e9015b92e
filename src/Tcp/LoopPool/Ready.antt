-- ===== src/Tcp/LoopPool/Ready.antt =====
-- net/EventLoopThreadPool.cc: getNextLoop always finds a loop.
use my_file_server.Common.{
  ℕ, zero, suc, ◌<◌, ◌≡◌, refl, sym, ap, ◌∙◌, arith, ◌⊎◌, inl, inr, List, [], ◌∷◌, length,
  get_elem?, ok, some, Bool,
}
use my_file_server.Tcp.LoopPool.{
  LoopPool, get_next_loop, next_of, following, start, start_loops, new_pool, set_thread_num,
}

-- The index of a pool with loops is that of a loop.
abbrev pub IsReady : LoopPool → Type 0
IsReady pool = (pool.next < length pool.loops) ⊎ (pool.loops ≡ [])

get_elem?_inside : (xs : List ℕ) (i : ℕ) → i < length xs → (x : ℕ) × (get_elem? xs i ≡ some x)
get_elem?_inside [] i h = absurd (omega arith)
get_elem?_inside (x ∷ xs) zero h = (x, refl)
get_elem?_inside (x ∷ xs) (suc i) h = get_elem?_inside xs i (omega arith)

following_less : (i n : ℕ) → i < n → following i n < n
unfolding following
following_less i n h = ground arith

next_of-IsReady :
    (pool : LoopPool) (ls : List ℕ)
    → pool.loops ≡ ls
    → IsReady pool
    → (loop : ℕ) × (after : LoopPool) × (next_of pool ls ≡ ok (loop, after)) × IsReady after
unfolding next_of
next_of-IsReady pool [] e h = (pool.base_loop, pool, refl, h)
next_of-IsReady pool (l ∷ ls) e (inr none) = absurd (ground (arith, sym e ∙ none))
next_of-IsReady pool (l ∷ ls) e (inl h) =
    let inside : pool.next < length (l ∷ ls) = omega (arith, h, ap length e) in
    let (loop, found) = get_elem?_inside (l ∷ ls) pool.next inside in
    (
      loop,
      record pool { next = following pool.next (length (l ∷ ls)) },
      rw (found, next_of) refl,
      inl (omega (arith, following_less pool.next (length (l ∷ ls)) inside, ap length e)),
    )

pub get_next_loop-IsReady :
    (pool : LoopPool)
    → IsReady pool
    → (loop : ℕ) × (after : LoopPool) × (get_next_loop pool ≡ ok (loop, after)) × IsReady after
unfolding get_next_loop
get_next_loop-IsReady pool h = next_of-IsReady pool pool.loops refl h

pub started-IsReady :
    (start_loop : ℕ → ℕ) (has_callback : Bool) (base n : ℕ)
    → IsReady (start start_loop has_callback (set_thread_num n (new_pool base))).1
unfolding start set_thread_num new_pool start_loops
started-IsReady start_loop has_callback base zero = inr refl
started-IsReady start_loop has_callback base (suc n) = inl (omega arith)
