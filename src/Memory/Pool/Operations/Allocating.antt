-- ===== src/Memory/Pool/Operations/Allocating.antt =====
-- memory/MemoryPool.cc: `createPool`, and `malloc` of a size that a block holds.
use my_file_server.Common.{
  ℕ, ◌+◌, ◌%◌, ◌≤◌, ◌<◌, ◌≡◌, refl, arith, true, false, List, [], ◌∷◌, ◌==◌, ltb-false, Option,
  some, ok, size_mod,
}
use my_file_server.Memory.Pool.{Pool, Found, created, create_pool}
use my_file_server.Memory.Pool.Blocks.{Allocation}
use my_file_server.Memory.Pool.Extending.{IsPool, IsFresh}
use my_file_server.Memory.Pool.Growing.{IsAllocated, malloc_small-IsAllocated}
use my_file_server.Memory.Pool.Operations.{malloc}

-- `createPool` on memory whose unset members are 0 gives a pool that is in order and holds nothing.
pub create_pool-IsPool :
    (at : ℕ) (found : Found)
    → at % 16 ≡ 0
    → at + 4096 < size_mod
    → found.next_is_null ≡ true
    → found.old_quote ≡ 0
    → (create_pool at found ≡ ok (created at found)) × IsPool (created at found) ([] ∷ [])
unfolding create_pool created
create_pool-IsPool at found h k null zero = (
  rw null refl,
  record {
    blocks = (
      record {
        room = omega arith;
        inside = omega arith;
        aligned = omega arith;
        page = omega arith;
        bounded = k;
        stacked = tt;
        counted = zero;
      },
      tt,
    );
    apart = (tt, tt);
    head = refl;
    current = omega arith;
  },
)

-- `malloc` of a size from 1 to 4064 bytes on a pool that is in order returns an address that is a
-- multiple of 16, leaves the pool in order and every allocation where it was, and what it gives out
-- overlaps none of them, when posix_memalign has memory whose member `quote_` happens to be 0.
pub malloc-IsAllocated :
    (memory : Option ℕ) (block size : ℕ) (found : Found) (pool : Pool)
    (hss : List (List Allocation))
    → IsPool pool hss
    → IsFresh block pool.smalls
    → found.old_quote ≡ 0
    → 0 < size
    → size ≤ 4064
    → IsAllocated size hss (malloc memory (some block) found size pool)
unfolding malloc
malloc-IsAllocated memory block size found pool hss v f z p q =
    let not_zero : (size == 0) ≡ false = ground arith in
    rw (not_zero, ltb-false 4064 size q)
      (malloc_small-IsAllocated block size found pool hss v f z p q)
