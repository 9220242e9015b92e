-- ===== src/Memory/Pool.antt =====
-- memory/MemoryPool.h and memory/MemoryPool.cc. An address is a number; the list of the blocks that
-- starts at `head_` is a list, and `current_` a position in it. What posix_memalign delivers is an
-- argument, and so are the members of a new block that the code does not set. Addresses lie so far
-- below 2 ^ 64 that rounding up does not wrap.
pub mod Blocks
pub mod Placing
pub mod Extending
pub mod Growing
pub mod Operations
use my_file_server.Common.{
  ℕ, zero, suc, ◌+◌, ◌-◌, ◌*◌, ◌/◌, ◌%◌, ◌^◌, Bool, true, false, ◌&&◌, ◌==◌, ltb, leb,
  if◌then◌else◌, sub_size, List, [], ◌∷◌, ◌++◌, Option, none, some, map, Result, ok, err,
  out_of_bounds, uninitialised,
}
use mathlib.Core.Option

abbrev pub page_size : ℕ
page_size = 4096

abbrev pub sizeof_pool : ℕ
sizeof_pool = 24

abbrev pub sizeof_small_node : ℕ
sizeof_small_node = 32

abbrev pub sizeof_large_node : ℕ
sizeof_large_node = 24

pub record SmallNode : Type 0 where
  -- the address of the node
  pub block : ℕ
  pub end_of : ℕ
  pub last : ℕ
  pub quote_count : ℕ
  pub failed : ℕ

pub record LargeNode : Type 0 where
  pub address : Option ℕ
  pub size : ℕ

pub record Pool : Type 0 where
  pub address : ℕ
  pub smalls : List SmallNode
  pub current : ℕ
  pub larges : List LargeNode

-- What a new block holds where the code reads members that it has not set: `quote_`, `failed_`, and
-- whether `next_` is null.
pub record Found : Type 0 where
  pub old_quote : ℕ
  pub old_failed : ℕ
  pub next_is_null : Bool

-- `mp_align_ptr(p, MP_ALIGNMENT)`
pub align : ℕ → ℕ
align p = ((p + 15) / 16) * 16

-- `unsigned int`
pub increment : ℕ → ℕ
increment n = (n + 1) % 2 ^ 32

pub decrement : ℕ → ℕ
decrement n = (n + 2 ^ 32 - 1) % 2 ^ 32

-- `createPool`, for the address that posix_memalign delivers: the pool as it is set, which is a
-- list of blocks only if `next_` of the head happens to be null
unfoldable pub created : ℕ → Found → Pool
created at found = record {
  address = at;
  smalls =
      (record {
        block = at + sizeof_pool;
        end_of = at + page_size;
        last = at + sizeof_pool + sizeof_small_node;
        quote_count = found.old_quote;
        failed = 0;
      })
      ∷ [];
  current = 0;
  larges = [];
}

pub create_pool : ℕ → Found → Result Pool
create_pool at found = if found.next_is_null then ok (created at found) else err uninitialised

-- The loop of `malloc` over the blocks: the address, and the blocks as they are then. The difference
-- of the pointers is read as unsigned.
pub use_block : SmallNode → (end_at : ℕ) → SmallNode
use_block s end_at = record s { quote_count = increment s.quote_count; last = end_at }

pub walk : ℕ → List SmallNode → Option (ℕ × List SmallNode)
walk size [] = none
walk size (s ∷ ss) =
    let addr = align s.last in
    let later = Option.map (λ (r : ℕ × List SmallNode). (r.0, s ∷ r.1)) (walk size ss) in
    if leb size (sub_size s.end_of addr) then some (addr, use_block s (addr + size) ∷ ss) else later

-- The same from `current_` on.
pub walk_from : (current : ℕ) → ℕ → List SmallNode → Option (ℕ × List SmallNode)
walk_from zero size ss = walk size ss
walk_from (suc current) size [] = none
walk_from (suc current) size (s ∷ ss) =
    Option.map (λ (r : ℕ × List SmallNode). (r.0, s ∷ r.1)) (walk_from current size ss)

-- The loop of `mallocSmallNode` from position `i` on: the blocks, and the new `current_`.
pub mark : (i current : ℕ) → List SmallNode → List SmallNode × ℕ
mark i current [] = ([], current)
mark i current (s ∷ []) = (s ∷ [], current)
mark i current (s ∷ t ∷ ss) =
    let (rest, last) = mark (suc i) (if leb 5 s.failed then suc i else current) (t ∷ ss) in
    (record s { failed = increment s.failed } ∷ rest, last)

-- The loop from the block of `current_` on, which stands behind `skip` others.
pub mark_from : (skip i current : ℕ) → List SmallNode → List SmallNode × ℕ
mark_from zero i current ss = mark i current ss
mark_from (suc skip) i current [] = ([], current)
mark_from (suc skip) i current (s ∷ ss) =
    let (rest, last) = mark_from skip (suc i) current ss in (s ∷ rest, last)

pub new_node : (size block : ℕ) → Found → SmallNode
new_node size block found = record {
  block = block;
  end_of = block + page_size;
  last = align (block + sizeof_small_node) + size;
  quote_count = increment found.old_quote;
  failed = found.old_failed;
}

-- `mallocSmallNode`, for the block that posix_memalign delivers, if it does
pub malloc_small_node : Option ℕ → Found → ℕ → Pool → Option ℕ × Pool
malloc_small_node none found size pool = (none, pool)
malloc_small_node (some block) found size pool =
    let (marked, current) = mark_from pool.current 0 pool.current pool.smalls in
    (
      some (align (block + sizeof_small_node)),
      record pool { smalls = marked ++ new_node size block found ∷ []; current = current },
    )

pub take_walked : Option ℕ → Found → ℕ → Pool → Option (ℕ × List SmallNode) → Option ℕ × Pool
take_walked block found size pool (some (addr, ss)) = (some addr, record pool { smalls = ss })
take_walked block found size pool none = malloc_small_node block found size pool

-- The part of `malloc` for small sizes.
pub malloc_small : Option ℕ → Found → ℕ → Pool → Option ℕ × Pool
malloc_small block found size pool =
    take_walked block found size pool (walk_from pool.current size pool.smalls)
