-- ===== src/Memory/Pool/Operations/Freeing.antt =====
-- memory/MemoryPool.cc: `freeMemory` and `resetPool`.
use my_file_server.Common.{
  ℕ, suc, ◌+◌, ◌-◌, ◌%◌, ◌^◌, ◌≤◌, ◌<◌, ◌≡◌, refl, sym, ap, subst, ◌∙◌, arith, ◌⊎◌, inl, inr,
  Bool-cases, Bool, true, false, ◌&&◌, ◌==◌, leb, ==_iff, List, [], ◌∷◌, map, length, length-nil,
  none,
}
use my_file_server.Memory.Pool.{SmallNode, Pool, decrement}
use my_file_server.Memory.Pool.Blocks.{
  Allocation, IsBlock, AllBlocks, AllApart, Outside, Stacked, Stacked-mono, Stacked-length,
  SameBlocks, HeadAt,
}
use my_file_server.Memory.Pool.Extending.{IsPool, length-same, AllApart-same, HeadAt-same}
use my_file_server.Memory.Pool.Operations.{
  give_back, start_of, free_small, free_large, with_smalls, free_memory, cleared, reset_pool,
}

-- An allocation is taken out of a list, and out of the list of one block.
pub data Dropped (a : Allocation) : List Allocation → List Allocation → Type 0 where
  first : {hs : List Allocation} → Dropped a (a ∷ hs) hs
  later : {b : Allocation} {hs ks : List Allocation} → Dropped a hs ks → Dropped a (b ∷ hs) (b ∷ ks)

pub data Removed (a : Allocation) : List (List Allocation) → List (List Allocation) → Type 0 where
  from_block :
      {hs ks : List Allocation} {hss : List (List Allocation)}
      → Dropped a hs ks
      → Removed a (hs ∷ hss) (ks ∷ hss)
  from_later :
      {hs : List Allocation} {hss kss : List (List Allocation)}
      → Removed a hss kss
      → Removed a (hs ∷ hss) (hs ∷ kss)

Dropped-Stacked :
    {a : Allocation} {hs ks : List Allocation} (bottom top : ℕ)
    → Dropped a hs ks
    → Stacked bottom top hs
    → Stacked bottom top ks × (length hs ≡ suc (length ks)) × (bottom ≤ a.0) × (a.0 < top)
Dropped-Stacked {a} bottom top (first {hs}) s =
    (Stacked-mono bottom a.0 top hs (omega arith) s.4, refl, s.0, omega arith)
Dropped-Stacked bottom top (later {b} {hs} {ks} d) s =
    let (stacked, count, low, high) = Dropped-Stacked bottom b.0 d s.4 in
    ((s.0, s.1, s.2, s.3, stacked), ap suc count, low, omega (arith, s.2))

-- Giving an allocation back to its block.
give_back-IsBlock :
    {a : Allocation} {hs ks : List Allocation} (start : ℕ) (s : SmallNode)
    → start ≡ s.block + 32
    → Dropped a hs ks
    → IsBlock s hs
    → IsBlock (give_back start s).0 ks
unfolding give_back decrement
give_back-IsBlock {a} {hs} {ks} start s e d b =
    let (stacked, count, low, high) = Dropped-Stacked (s.block + 32) s.last d b.stacked in
    let few = Stacked-length (s.block + 32) s.last hs b.stacked b.room in
    let left : (s.quote_count + 2 ^ 32 - 1) % 2 ^ 32 ≡ length ks =
      omega (arith, b.counted, count, few, b.inside, b.page) in
    elim (Bool-cases ((s.quote_count + 2 ^ 32 - 1) % 2 ^ 32 == 0)) [
      | inl none_left ↦
          let empty : ks ≡ [] =
            length-nil ks
              (sym left ∙ (==_iff ((s.quote_count + 2 ^ 32 - 1) % 2 ^ 32) 0).0 none_left) in
          rw none_left (record {
            room = omega (arith, e);
            inside = omega (arith, e, b.room, b.inside);
            aligned = b.aligned;
            page = b.page;
            bounded = b.bounded;
            stacked = subst (Stacked (s.block + 32) start) (sym empty) tt;
            counted = left;
          })
      | inr some_left ↦ rw some_left (record {
        room = b.room;
        inside = b.inside;
        aligned = b.aligned;
        page = b.page;
        bounded = b.bounded;
        stacked = stacked;
        counted = left;
      })
    ]

give_back_same :
    (start : ℕ) (s : SmallNode)
    → (s.block ≡ (give_back start s).0.block) × (s.end_of ≡ (give_back start s).0.end_of)
unfolding give_back
give_back_same start s = ground arith

-- An allocation of another block is not where a block is.
Removed-Outside :
    {a : Allocation} {hss kss : List (List Allocation)} (low high : ℕ) (ss : List SmallNode)
    → Removed a hss kss
    → AllBlocks ss hss
    → Outside low high ss
    → (a.0 < low) ⊎ (high < a.0)
Removed-Outside low high [] (from_block d) b o = absurd b
Removed-Outside low high [] (from_later r) b o = absurd b
Removed-Outside low high (s ∷ ss) (from_block d) (b, bs) (inl o, os) =
    let (stacked, count, above, below) = Dropped-Stacked (s.block + 32) s.last d b.stacked in
    inr (omega arith)
Removed-Outside low high (s ∷ ss) (from_block d) (b, bs) (inr o, os) =
    let (stacked, count, above, below) = Dropped-Stacked (s.block + 32) s.last d b.stacked in
    inl (omega (arith, b.inside))
Removed-Outside low high (s ∷ ss) (from_later r) (b, bs) (o, os) =
    Removed-Outside low high ss r bs os

test_inside :
    (s : SmallNode) (p : ℕ) → s.block ≤ p → p ≤ s.end_of → (leb s.block p && leb p s.end_of) ≡ true
test_inside s p h k = ground arith

test_outside :
    (s : SmallNode) (p : ℕ)
    → (p < s.block) ⊎ (s.end_of < p)
    → (leb s.block p && leb p s.end_of) ≡ false
test_outside s p (inl h) = ground arith
test_outside s p (inr h) = ground arith

SameBlocks-refl : (ss : List SmallNode) → SameBlocks ss ss
SameBlocks-refl [] = tt
SameBlocks-refl (s ∷ ss) = (refl, refl, SameBlocks-refl ss)

-- Where each block's memory starts, the head's included.
abbrev Starts : (at : ℕ) (is_head : Bool) → List SmallNode → Type 0
Starts at true ss = HeadAt at ss
Starts at false ss = Unit

start_of_lem :
    (at : ℕ) (is_head : Bool) (s : SmallNode) (ss : List SmallNode)
    → Starts at is_head (s ∷ ss)
    → start_of at is_head s ≡ s.block + 32
unfolding start_of
start_of_lem at true s ss h = omega arith
start_of_lem at false s ss h = refl

free_small-AllBlocks :
    {a : Allocation} {hss kss : List (List Allocation)} (at : ℕ) (is_head : Bool)
    (ss : List SmallNode)
    → Starts at is_head ss
    → Removed a hss kss
    → AllApart ss
    → AllBlocks ss hss
    → AllBlocks (free_small at is_head a.0 ss).0 kss
      × SameBlocks ss (free_small at is_head a.0 ss).0
unfolding free_small
free_small-AllBlocks at is_head [] h (from_block d) p b = absurd b
free_small-AllBlocks at is_head [] h (from_later r) p b = absurd b
free_small-AllBlocks {a} at is_head (s ∷ ss) h (from_block d) p (b, bs) =
    let (stacked, count, above, below) = Dropped-Stacked (s.block + 32) s.last d b.stacked in
    let start : ℕ = start_of at is_head s in
    let given = give_back-IsBlock start s (start_of_lem at is_head s ss h) d b in
    let (same_block, same_end) = give_back_same start s in
    rw (test_inside s a.0 (omega arith) (omega (arith, b.inside)))
      ((given, bs), (same_block, same_end, SameBlocks-refl ss))
free_small-AllBlocks {a} at is_head (s ∷ ss) h (from_later r) (p, ps) (b, bs) =
    let (rest, same) = free_small-AllBlocks at false ss tt r ps bs in
    rw (test_outside s a.0 (Removed-Outside s.block s.end_of ss r bs p))
      ((b, rest), (refl, refl, same))

-- `freeMemory` of an allocation that a block holds, and that is no large one: its block holds the
-- others, every other block what it held; and the pool is in order.
pub free_memory-IsPool :
    {a : Allocation} {hss kss : List (List Allocation)} (pool : Pool)
    → IsPool pool hss
    → free_large a.0 pool.larges ≡ none
    → Removed a hss kss
    → IsPool (free_memory a.0 pool) kss
unfolding free_memory with_smalls
free_memory-IsPool {a} pool v e r =
    let (blocks, same) =
      free_small-AllBlocks pool.address true pool.smalls v.head r v.apart v.blocks in
    let ss : List SmallNode = (free_small pool.address true a.0 pool.smalls).0 in
    rw (e, free_memory)
      (record {
        blocks = blocks;
        apart = AllApart-same pool.smalls ss same v.apart;
        head = HeadAt-same pool.address pool.smalls ss same v.head;
        current = ground (arith, v.current, length-same pool.smalls ss same);
      })

pub no_allocations : List SmallNode → List (List Allocation)
no_allocations [] = []
no_allocations (s ∷ ss) = [] ∷ no_allocations ss

reset-AllBlocks :
    (ss : List SmallNode) (hss : List (List Allocation))
    → AllBlocks ss hss
    → AllBlocks (map cleared ss) (no_allocations ss) × SameBlocks ss (map cleared ss)
unfolding no_allocations cleared
reset-AllBlocks [] [] b = (tt, tt)
reset-AllBlocks [] (hs ∷ hss) b = absurd b
reset-AllBlocks (s ∷ ss) [] b = absurd b
reset-AllBlocks (s ∷ ss) (hs ∷ hss) (b, bs) =
    let (rest, same) = reset-AllBlocks ss hss bs in
    (
      (
        record {
          room = omega arith;
          inside = omega (arith, b.room, b.inside);
          aligned = b.aligned;
          page = b.page;
          bounded = b.bounded;
          stacked = tt;
          counted = refl;
        },
        rest,
      ),
      (refl, refl, same),
    )

-- `resetPool`: no block holds anything, and the pool is in order.
pub reset_pool-IsPool :
    (pool : Pool) (hss : List (List Allocation))
    → IsPool pool hss
    → IsPool (reset_pool pool) (no_allocations pool.smalls)
unfolding reset_pool
reset_pool-IsPool pool hss v =
    let (blocks, same) = reset-AllBlocks pool.smalls hss v.blocks in
    record {
      blocks = blocks;
      apart = AllApart-same pool.smalls (map cleared pool.smalls) same v.apart;
      head = HeadAt-same pool.address pool.smalls (map cleared pool.smalls) same v.head;
      current = omega (arith, v.current, length-same pool.smalls (map cleared pool.smalls) same);
    }
