-- ===== src/Memory/Tests.antt =====
-- memory/MemoryPool.cc at concrete inputs.
use my_file_server.Common.{refl, arith, true, inr, [], ◌∷◌, none, some}
use my_file_server.Memory.Pool.{Pool, Found, created}
use my_file_server.Memory.Pool.Extending.{IsPool, IsFresh}
use my_file_server.Memory.Pool.Growing.{IsAllocated}
use my_file_server.Memory.Pool.Operations.{malloc, free_memory, free_large}
use my_file_server.Memory.Pool.Operations.Allocating.{create_pool-IsPool, malloc-IsAllocated}
use my_file_server.Memory.Pool.Operations.Freeing.{Dropped, first, from_block, free_memory-IsPool}

abbrev zeroed : Found
zeroed = record { old_quote = 0; old_failed = 0; next_is_null = true }

zeroed-IsPool : IsPool (created 65536 zeroed) ([] ∷ [])
zeroed-IsPool = (create_pool-IsPool 65536 zeroed refl (omega arith) refl refl).1

zeroed-IsFresh : IsFresh 131072 (created 65536 zeroed).smalls
unfolding created
zeroed-IsFresh = record {
  multiple = refl;
  addressable = omega arith;
  unused = (inr (omega arith), tt);
}

malloc-IsAllocated_example :
    IsAllocated 100 ([] ∷ []) (malloc none (some 131072) zeroed 100 (created 65536 zeroed))
malloc-IsAllocated_example =
    malloc-IsAllocated none 131072 100 zeroed (created 65536 zeroed) ([] ∷ []) zeroed-IsPool
      zeroed-IsFresh refl (omega arith) (omega arith)

-- Two allocations in the head, of which the older one is given back.
abbrev two_held : Pool
two_held = record {
  address = 65536;
  smalls =
      (record { block = 65560; end_of = 69632; last = 65720; quote_count = 2; failed = 0 }) ∷ [];
  current = 0;
  larges = [];
}

two_held-IsPool : IsPool two_held (((65712, 8) ∷ (65600, 100) ∷ []) ∷ [])
two_held-IsPool = record {
  blocks = (
    record {
      room = omega arith;
      inside = omega arith;
      aligned = refl;
      page = omega arith;
      bounded = omega arith;
      stacked = omega arith;
      counted = refl;
    },
    tt,
  );
  apart = (tt, tt);
  head = refl;
  current = omega arith;
}

free_memory-IsPool_example : IsPool (free_memory 65600 two_held) (((65712, 8) ∷ []) ∷ [])
unfolding free_large
free_memory-IsPool_example =
    free_memory-IsPool {a = (65600, 100)} two_held two_held-IsPool refl
      (from_block (Dropped.later first))
