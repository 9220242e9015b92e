-- ===== src/Database/Pool/Counting.antt =====
-- mysql/ConnectionPool.cc: where the connections are, and how many there are.
use my_file_server.Common.{
  sym, inl, inr, Bool-cases, leb, ◌==◌, take, ℕ, zero, suc, ◌+◌, ◌≤◌, ◌≡◌, refl, ap, ◌∙◌, arith,
  ltb, List, [], ◌∷◌, ◌++◌, length, length-append, if◌then◌else◌, some,
}
use Prim.Native.Nat.{max}
use my_file_server.Database.Pool.{
  Connection, ConnectionPool, empty_pool, add_and_count, add_first, new_pool, produce, recycle_loop,
  recycle, alive_time, get_connection_at, get_connection, give_back,
}
use my_file_server.Database.Pool.System.{
  System, begun, Step, produces, recycles, lends, takes_back, Reach, here, later,
}

-- How many connections there are.
abbrev pub live : System → ℕ
live s = length s.pool.queue + length s.lent

-- How many connections of a list have that number.
unfoldable pub count : (number : ℕ) → List Connection → ℕ
count number [] = 0
count number (c ∷ cs) = (if c.number == number then 1 else 0) + count number cs

-- The numbers of the connections that were created are those below `created`.
abbrev pub below : (number created : ℕ) → ℕ
below number created = if ltb number created then 1 else 0

pub record IsCounted (least most : ℕ) (s : System) : Type 0 where
  -- each connection that was created is at one place, and no other is anywhere
  pub once :
      (number : ℕ)
      → count number s.pool.queue + count number s.lent + count number s.deleted
        ≡ below number s.created
  pub all_there : live s + length s.deleted ≡ s.created
  -- `currentSize_` counts each connection that was ever created once more than those there are
  pub overcounted : s.pool.current_size ≡ live s + s.created
  pub limited : s.created ≤ max least most
  pub limit : s.pool.max_size ≡ most

count-append :
    (number : ℕ) (cs ds : List Connection)
    → count number (cs ++ ds) ≡ count number cs + count number ds
unfolding count
count-append number [] ds = omega arith
count-append number (c ∷ cs) ds = omega (arith, count-append number cs ds)

-- The loop takes away from the front.
recycle_loop_lem :
    (now min_size max_idle_time : ℕ) (cs : List Connection)
    → take (recycle_loop now min_size max_idle_time cs).0 cs
        ++ (recycle_loop now min_size max_idle_time cs).1
      ≡ cs
unfolding recycle_loop
recycle_loop_lem now min_size max_idle_time [] = refl
recycle_loop_lem now min_size max_idle_time (c ∷ cs) =
    elim (Bool-cases (ltb min_size (length (c ∷ cs)))) [
      | inr few ↦ rw few refl
      | inl many ↦ elim (Bool-cases (leb max_idle_time (alive_time now c))) [
        | inl idle ↦ rw (many, idle) (ap (c ∷◌) (recycle_loop_lem now min_size max_idle_time cs))
        | inr fresh ↦ rw (many, fresh) refl
      ]
    ]

-- As many are taken away as are counted.
recycle_loop-length :
    (now min_size max_idle_time : ℕ) (cs : List Connection)
    → (recycle_loop now min_size max_idle_time cs).0
        + length (recycle_loop now min_size max_idle_time cs).1
      ≡ length cs
unfolding recycle_loop
recycle_loop-length now min_size max_idle_time [] = refl
recycle_loop-length now min_size max_idle_time (c ∷ cs) =
    ground (arith, recycle_loop-length now min_size max_idle_time cs)

get_connection_at_lem :
    (pool : ConnectionPool) (cs : List Connection)
    → pool.queue ≡ cs
    → (c : Connection) (left : ConnectionPool) → get_connection_at pool cs ≡ some (c, left)
    → (pool.queue ≡ c ∷ left.queue)
      × (left.current_size ≡ pool.current_size)
      × (left.max_size ≡ pool.max_size)
unfolding get_connection_at
get_connection_at_lem pool [] q c left e = absurd cc
get_connection_at_lem pool (d ∷ ds) q c left e =
    let first : d ≡ c = cc in
    let rest : record pool { queue = ds } ≡ left = cc in
    (
      q ∙ ap (◌∷ ds) first ∙ ap (λ (p : ConnectionPool). c ∷ p.queue) rest,
      ap (λ (p : ConnectionPool). p.current_size) (sym rest),
      ap (λ (p : ConnectionPool). p.max_size) (sym rest),
    )

-- Adding a connection counts two.
produce_lem :
    (number now : ℕ) (pool : ConnectionPool)
    → (length (produce number now pool).queue
        ≡ length pool.queue + (if ltb pool.current_size pool.max_size then 1 else 0))
      × ((produce number now pool).current_size
          ≡ pool.current_size + (if ltb pool.current_size pool.max_size then 2 else 0))
      × ((produce number now pool).max_size ≡ pool.max_size)
unfolding produce add_and_count
produce_lem number now pool =
    ground (arith, length-append pool.queue (record { number = number; idle_since = now } ∷ []))

produce-count :
    (n number now : ℕ) (pool : ConnectionPool)
    → count n (produce number now pool).queue
      ≡ count n pool.queue
        + (if ltb pool.current_size pool.max_size then (if number == n then 1 else 0) else 0)
unfolding produce add_and_count count
produce-count n number now pool =
    ground (arith, count-append n pool.queue (record { number = number; idle_since = now } ∷ []))

Step-IsCounted :
    (least most : ℕ) {s t : System} → Step s t → IsCounted least most s → IsCounted least most t
unfolding recycle give_back get_connection count
Step-IsCounted least most {s} (produces now e) i =
    let (longer, size, same_limit) = produce_lem s.created now s.pool in
    record {
      once = λ n. ground (arith, produce-count n s.created now s.pool, i.once n);
      all_there = ground (arith, longer, i.all_there);
      overcounted = ground (arith, longer, size, i.overcounted);
      limited = ground (arith, i.limited, i.overcounted, i.limit);
      limit = same_limit ∙ i.limit;
    }
Step-IsCounted least most {s} (recycles now) i =
    let queue = s.pool.queue in
    let (deleted, left) = recycle_loop now s.pool.min_size s.pool.max_idle_time queue in
    let same = recycle_loop_lem now s.pool.min_size s.pool.max_idle_time queue in
    let counted = recycle_loop-length now s.pool.min_size s.pool.max_idle_time queue in
    let gone : length (take deleted queue) ≡ deleted =
      omega (arith, counted, ap length same, length-append (take deleted queue) left) in
    record {
      once = λ n. omega (
        arith,
        i.once n,
        ap (count n) same,
        count-append n (take deleted queue) left,
        count-append n s.deleted (take deleted queue),
      );
      all_there =
          omega (arith, counted, gone, length-append s.deleted (take deleted queue), i.all_there);
      overcounted = omega (arith, counted, i.overcounted);
      limited = i.limited;
      limit = i.limit;
    }
Step-IsCounted least most {s} (lends c pool e) i =
    let (first, size, same_limit) = get_connection_at_lem s.pool s.pool.queue refl c pool e in
    record {
      once = λ n. omega (arith, ap (count n) first, i.once n);
      all_there = omega (arith, ap length first, i.all_there);
      overcounted = omega (arith, ap length first, size, i.overcounted);
      limited = i.limited;
      limit = same_limit ∙ i.limit;
    }
Step-IsCounted least most {s} (takes_back now c before behind e) i =
    let lent = ap length e in
    record {
      once = λ n. omega (
        arith,
        ap (count n) e,
        count-append n before (c ∷ behind),
        count-append n before behind,
        count-append n s.pool.queue (record c { idle_since = now } ∷ []),
        i.once n,
      );
      all_there = omega (
        arith,
        lent,
        length-append before (c ∷ behind),
        length-append before behind,
        length-append s.pool.queue (record c { idle_since = now } ∷ []),
        i.all_there,
      );
      overcounted = omega (
        arith,
        lent,
        length-append before (c ∷ behind),
        length-append before behind,
        length-append s.pool.queue (record c { idle_since = now } ∷ []),
        i.overcounted,
      );
      limited = i.limited;
      limit = i.limit;
    }

add_first_lem :
    (time : ℕ → ℕ) (n i : ℕ) (pool : ConnectionPool)
    → (length (add_first time n i pool).queue ≡ length pool.queue + n)
      × ((add_first time n i pool).current_size ≡ pool.current_size + (n + n))
      × ((add_first time n i pool).max_size ≡ pool.max_size)
unfolding add_first add_and_count
add_first_lem time zero i pool = (omega arith, omega arith, refl)
add_first_lem time (suc n) i pool =
    let (queue, size, same_limit) = add_first_lem time n (suc i) (add_and_count i (time i) pool) in
    (
      omega (
        arith,
        queue,
        length-append pool.queue (record { number = i; idle_since = time i } ∷ []),
      ),
      omega (arith, size),
      same_limit,
    )

add_first-count :
    (number : ℕ) (time : ℕ → ℕ) (n i : ℕ) (pool : ConnectionPool)
    → count number pool.queue ≡ below number i
    → count number (add_first time n i pool).queue ≡ below number (i + n)
unfolding add_first add_and_count count
add_first-count number time zero i pool h = h ∙ ap (below number) (omega arith)
add_first-count number time (suc n) i pool h =
    add_first-count number time n (suc i) (add_and_count i (time i) pool) (
      ground (
        arith,
        h,
        count-append number pool.queue (record { number = i; idle_since = time i } ∷ []),
      ))
    ∙ ap (below number) (omega arith)

-- In every state that the producer, the recycler and the borrowers reach in any interleaving: each
-- connection that was created waits, is lent or was deleted, at one of these places and once there;
-- `currentSize_` is not the number of those that wait or are lent but that of the created ones more;
-- and no more than the larger of the two sizes of the configuration are created in the whole life of
-- the pool.
pub Reach-IsCounted :
    (time : ℕ → ℕ) (least most idle : ℕ) {s : System}
    → Reach (begun time least most idle) s
    → IsCounted least most s
unfolding new_pool empty_pool count
Reach-IsCounted time least most idle here =
    let (queue, size, same_limit) = add_first_lem time least 0 (empty_pool least most idle) in
    record {
      once = λ n.
          ground
            (arith, add_first-count n time least 0 (empty_pool least most idle) (ground arith));
      all_there = omega (arith, queue);
      overcounted = omega (arith, queue, size);
      limited = omega arith;
      limit = same_limit;
    }
Reach-IsCounted time least most idle (later r st) =
    Step-IsCounted least most st (Reach-IsCounted time least most idle r)
