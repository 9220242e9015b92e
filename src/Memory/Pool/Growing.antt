-- ===== src/Memory/Pool/Growing.antt =====
-- memory/MemoryPool.cc: the part of `malloc` for small sizes, which may add a block.
use my_file_server.Common.{
  ℕ, ◌+◌, ◌%◌, ◌≤◌, ◌<◌, ◌≡◌, refl, arith, length-append, List, [], ◌∷◌, ◌++◌, Option, none, some,
}
use my_file_server.Memory.Pool.{
  SmallNode, Pool, Found, align, mark_from, new_node, malloc_small_node, take_walked, malloc_small,
  walk_from,
}
use my_file_server.Memory.Pool.Blocks.{
  Allocation, ApartFromAll, Outside-ApartFromAll, Placed-ApartFromAll,
}
use my_file_server.Memory.Pool.Placing.{Outcome, walk_from-Outcome}
use my_file_server.Memory.Pool.Extending.{
  IsPool, Added, IsFresh, Placed-Added, Outside-same, AllApart-same, HeadAt-same, HeadAt-append,
  mark_from-AllBlocks, mark_from-current, length-same, AllBlocks-append, AllApart-append,
  new_node-IsBlock, new_node-Outside,
}

-- A small allocation: where it is, the pool and the allocations afterwards. It is a multiple of 16,
-- none of the allocations before it is moved, and it overlaps none of them.
pub record IsAllocated (size : ℕ) (hss : List (List Allocation)) (r : Option ℕ × Pool)
    : Type 0 where
  pub addr : ℕ
  pub pool_after : Pool
  pub lists : List (List Allocation)
  pub returned : r ≡ (some addr, pool_after)
  pub kept : IsPool pool_after lists
  pub added : Added (addr, size) hss lists
  pub disjoint : ApartFromAll (addr, size) hss
  pub multiple : addr % 16 ≡ 0

malloc_small_node-IsAllocated :
    (block size : ℕ) (found : Found) (pool : Pool) (hss : List (List Allocation))
    → IsPool pool hss
    → IsFresh block pool.smalls
    → found.old_quote ≡ 0
    → 0 < size
    → size ≤ 4064
    → IsAllocated size hss (malloc_small_node (some block) found size pool)
unfolding malloc_small_node
malloc_small_node-IsAllocated block size found pool hss v f z p q =
    let (marked, same) = mark_from-AllBlocks pool.current 0 pool.current pool.smalls hss v.blocks in
    let ss : List SmallNode = (mark_from pool.current 0 pool.current pool.smalls).0 in
    let (fits, at) = new_node-IsBlock size block found f.multiple f.addressable z p q in
    let (all, added) =
      AllBlocks-append ss hss (new_node size block found) (align (block + 32), size) marked fits in
    record {
      addr = align (block + 32);
      pool_after = (malloc_small_node (some block) found size pool).1;
      lists = hss ++ ((align (block + 32), size) ∷ []) ∷ [];
      returned = refl;
      kept = record {
        blocks = all;
        apart =
            AllApart-append ss (new_node size block found)
              (AllApart-same pool.smalls ss same v.apart)
              (new_node-Outside size block found ss
                (Outside-same block (block + 4096) pool.smalls ss same f.unused));
        head =
            HeadAt-append pool.address ss (new_node size block found)
              (HeadAt-same pool.address pool.smalls ss same v.head);
        current = omega (
          arith,
          mark_from-current pool.current 0 pool.current pool.smalls (omega (arith, v.current)),
          length-same pool.smalls ss same,
          length-append ss (new_node size block found ∷ []),
        );
      };
      added = added;
      disjoint =
          Outside-ApartFromAll (align (block + 32), size) block (block + 4096) pool.smalls hss
            (omega (arith, at)) (omega (arith, at)) f.unused v.blocks;
      multiple = omega (arith, at, f.multiple);
    }

take_walked-IsAllocated :
    (block size : ℕ) (found : Found) (pool : Pool) (hss : List (List Allocation))
    (r : Option (ℕ × List SmallNode))
    → IsPool pool hss
    → IsFresh block pool.smalls
    → found.old_quote ≡ 0
    → 0 < size
    → size ≤ 4064
    → Outcome size pool.smalls hss r
    → IsAllocated size hss (take_walked (some block) found size pool r)
unfolding take_walked
take_walked-IsAllocated block size found pool hss none v f z p q o =
    malloc_small_node-IsAllocated block size found pool hss v f z p q
take_walked-IsAllocated block size found pool hss (some (addr, ss)) v f z p q o = record {
  addr = addr;
  pool_after = record pool { smalls = ss };
  lists = o.lists;
  returned = refl;
  kept = record {
    blocks = o.blocks;
    apart = AllApart-same pool.smalls ss o.same_blocks v.apart;
    head = HeadAt-same pool.address pool.smalls ss o.same_blocks v.head;
    current = omega (arith, v.current, length-same pool.smalls ss o.same_blocks);
  };
  added = Placed-Added o.placed;
  disjoint = Placed-ApartFromAll o.placed v.apart v.blocks;
  multiple = o.multiple;
}

-- `malloc` of a size that is not 0 and fits into a block, when posix_memalign has memory.
pub malloc_small-IsAllocated :
    (block size : ℕ) (found : Found) (pool : Pool) (hss : List (List Allocation))
    → IsPool pool hss
    → IsFresh block pool.smalls
    → found.old_quote ≡ 0
    → 0 < size
    → size ≤ 4064
    → IsAllocated size hss (malloc_small (some block) found size pool)
unfolding malloc_small
malloc_small-IsAllocated block size found pool hss v f z p q =
    take_walked-IsAllocated block size found pool hss (walk_from pool.current size pool.smalls) v f
      z p q (walk_from-Outcome pool.current size pool.smalls hss p v.blocks)
