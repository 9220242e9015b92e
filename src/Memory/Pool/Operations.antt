-- ===== src/Memory/Pool/Operations.antt =====
-- memory/MemoryPool.cc: `malloc` of any size, `freeMemory`, `resetPool` and `destroyPool`. The pool's
-- own call of `malloc` for a LargeNode takes the part for small sizes. A pointer that is given back
-- is not null.
pub mod Allocating
pub mod Freeing
use my_file_server.Common.{
  ℕ, zero, suc, ◌+◌, ◌-◌, ◌%◌, ◌^◌, Bool, true, false, ◌&&◌, ◌==◌, ltb, leb, if◌then◌else◌, List,
  [], ◌∷◌, ◌++◌, Option, none, some, map, Result, ok, err, out_of_bounds,
}
use mathlib.Core.Option
use my_file_server.Memory.Pool.{
  page_size, sizeof_pool, sizeof_small_node, sizeof_large_node, SmallNode, LargeNode, Pool, Found,
  decrement, malloc_small,
}

-- The loop of `mallocLargeNode` over the large nodes, `count` of them seen: a node without memory is
-- used again. `size_` is an `unsigned int`.
pub filled : (addr size : ℕ) → LargeNode
filled addr size = record { address = some addr; size = size % 2 ^ 32 }

pub reuse : (count addr size : ℕ) → List LargeNode → Option (List LargeNode)
reuse count addr size [] = none
reuse count addr size (l ∷ ls) =
    let later = Option.map (l ∷◌) (reuse (suc count) addr size ls) in
    elim l.address [
      | none ↦ some (filled addr size ∷ ls)
      | some used ↦ if ltb 3 count then none else later
    ]

pub add_large_node : (addr size : ℕ) → Option ℕ × Pool → Option ℕ × Pool
add_large_node addr size (none, pool) = (none, pool)
add_large_node addr size (some node, pool) =
    (some addr, record pool { larges = filled addr size ∷ pool.larges })

-- `mallocLargeNode`, for the memory that posix_memalign delivers, and the block that it delivers if
-- the LargeNode needs one
pub malloc_large_node : Option ℕ → Option ℕ → Found → ℕ → Pool → Option ℕ × Pool
malloc_large_node none block found size pool = (none, pool)
malloc_large_node (some addr) block found size pool = elim (reuse 0 addr size pool.larges) [
  | some larges ↦ (some addr, record pool { larges = larges })
  | none ↦ add_large_node addr size (malloc_small block found sizeof_large_node pool)
]

-- `malloc`
pub malloc : Option ℕ → Option ℕ → Found → ℕ → Pool → Option ℕ × Pool
malloc memory block found size pool =
    if size == 0
    then (none, pool)
    else if ltb (page_size - sizeof_small_node) size
    then malloc_large_node memory block found size pool
    else malloc_small block found size pool

-- The loop of `freeMemory` over the large nodes: the nodes afterwards, if one has the address.
pub is_at : ℕ → Option ℕ → Bool
is_at p none = false
is_at p (some addr) = addr == p

unfoldable pub free_large : ℕ → List LargeNode → Option (List LargeNode)
free_large p [] = none
free_large p (l ∷ ls) =
    let later = Option.map (l ∷◌) (free_large p ls) in
    if is_at p l.address then some (record { address = none; size = 0 } ∷ ls) else later

-- A block that one allocation is given back to, and whether it is empty then; `start` is where its
-- memory starts.
pub give_back : (start : ℕ) → SmallNode → SmallNode × Bool
give_back start s =
    if decrement s.quote_count == 0
    then (record s { quote_count = decrement s.quote_count; last = start; failed = 0 }, true)
    else (record s { quote_count = decrement s.quote_count }, false)

-- The memory of the head starts behind the Pool.
pub start_of : (at : ℕ) (is_head : Bool) → SmallNode → ℕ
start_of at is_head s =
    if is_head then at + sizeof_pool + sizeof_small_node else s.block + sizeof_small_node

-- The loop over the blocks.
pub free_small : (at : ℕ) (is_head : Bool) → ℕ → List SmallNode → List SmallNode × Bool
free_small at is_head p [] = ([], false)
free_small at is_head p (s ∷ ss) =
    let (given, emptied) = give_back (start_of at is_head s) s in
    let (rest, rest_emptied) = free_small at false p ss in
    if leb s.block p && leb p s.end_of then (given ∷ ss, emptied) else (s ∷ rest, rest_emptied)

pub with_smalls : Pool → List SmallNode × Bool → Pool
with_smalls pool (ss, emptied) = record pool {
  smalls = ss;
  current = if emptied then 0 else pool.current;
}

pub free_memory : ℕ → Pool → Pool
free_memory p pool = elim (free_large p pool.larges) [
  | some larges ↦ record pool { larges = larges }
  | none ↦ with_smalls pool (free_small pool.address true p pool.smalls)
]

pub cleared : SmallNode → SmallNode
cleared s = record s { last = s.block + sizeof_small_node; quote_count = 0; failed = 0 }

pub reset_pool : Pool → Pool
reset_pool pool = record pool { larges = []; current = 0; smalls = map cleared pool.smalls }

-- The loop of `destroyPool` over the blocks behind the head: the blocks that it frees. It reads
-- `next_` of the block that it has just freed.
pub free_blocks : List SmallNode → Result (List ℕ)
free_blocks [] = ok []
free_blocks (s ∷ ss) = err out_of_bounds

pub behind_head : List SmallNode → List SmallNode
behind_head [] = []
behind_head (s ∷ ss) = ss

-- The loop over the large nodes: the memory that it frees.
unfoldable pub free_larges : List LargeNode → List ℕ
free_larges [] = []
free_larges (l ∷ ls) = elim l.address [ none ↦ free_larges ls | some addr ↦ addr ∷ free_larges ls ]

-- `destroyPool`: what was freed, in order.
pub destroy_pool : Pool → Result (List ℕ)
destroy_pool pool = elim (free_blocks (behind_head pool.smalls)) [
  | err f ↦ err f
  | ok freed ↦ ok (free_larges pool.larges ++ (freed ++ pool.address ∷ []))
]
