-- ===== src/Memory/Pool/Extending.antt =====
-- memory/MemoryPool.cc: a pool that is in order, and a block that is added to it.
use my_file_server.Common.{
  ℕ, zero, suc, ◌+◌, ◌%◌, ◌≤◌, ◌<◌, ◌≡◌, refl, sym, ◌∙◌, arith, ◌⊎◌, inl, inr, ap, length, leb,
  if◌then◌else◌, size_mod, List, [], ◌∷◌, ◌++◌,
}
use my_file_server.Memory.Pool.{SmallNode, Pool, Found, align, increment, mark, mark_from, new_node}
use my_file_server.Memory.Pool.Blocks.{
  Allocation, IsBlock, AllBlocks, AllApart, Outside, SameBlocks, HeadAt, Placed, here, there,
}

-- `hss` are the allocations that each block holds.
pub record IsPool (pool : Pool) (hss : List (List Allocation)) : Type 0 where
  pub blocks : AllBlocks pool.smalls hss
  pub apart : AllApart pool.smalls
  pub head : HeadAt pool.address pool.smalls
  -- `current_` is one of the blocks
  pub current : pool.current < length pool.smalls

-- An allocation is added to a block, or to a new block behind the others.
pub data Added (a : Allocation) : List (List Allocation) → List (List Allocation) → Type 0 where
  to_block :
      {hs : List Allocation} {hss : List (List Allocation)} → Added a (hs ∷ hss) ((a ∷ hs) ∷ hss)
  to_later :
      {hs : List Allocation} {hss kss : List (List Allocation)}
      → Added a hss kss
      → Added a (hs ∷ hss) (hs ∷ kss)
  to_new : Added a [] ((a ∷ []) ∷ [])

-- What posix_memalign documents: a multiple of 16, and memory that is not in use.
pub record IsFresh (block : ℕ) (ss : List SmallNode) : Type 0 where
  pub multiple : block % 16 ≡ 0
  pub addressable : block + 4096 < size_mod
  pub unused : Outside block (block + 4096) ss

pub Placed-Added :
    {a : Allocation} {ss : List SmallNode} {hss kss : List (List Allocation)}
    → Placed a ss hss kss
    → Added a hss kss
Placed-Added (here h k p) = to_block
Placed-Added (there p) = to_later (Placed-Added p)

pub Outside-same :
    (low high : ℕ) (ss ts : List SmallNode)
    → SameBlocks ss ts
    → Outside low high ss
    → Outside low high ts
Outside-same low high [] [] e o = tt
Outside-same low high [] (t ∷ ts) e o = absurd e
Outside-same low high (s ∷ ss) [] e o = absurd e
Outside-same low high (s ∷ ss) (t ∷ ts) e (inl o, os) =
    (inl (omega arith), Outside-same low high ss ts e.2 os)
Outside-same low high (s ∷ ss) (t ∷ ts) e (inr o, os) =
    (inr (omega arith), Outside-same low high ss ts e.2 os)

pub AllApart-same : (ss ts : List SmallNode) → SameBlocks ss ts → AllApart ss → AllApart ts
AllApart-same [] [] e o = tt
AllApart-same [] (t ∷ ts) e o = absurd e
AllApart-same (s ∷ ss) [] e o = absurd e
AllApart-same (s ∷ ss) (t ∷ ts) e (o, os) =
    (rw (sym e.0, sym e.1) (Outside-same s.block s.end_of ss ts e.2 o), AllApart-same ss ts e.2 os)

pub HeadAt-same : (at : ℕ) (ss ts : List SmallNode) → SameBlocks ss ts → HeadAt at ss → HeadAt at ts
HeadAt-same at [] [] e h = h
HeadAt-same at [] (t ∷ ts) e h = absurd e
HeadAt-same at (s ∷ ss) [] e h = absurd e
HeadAt-same at (s ∷ ss) (t ∷ ts) e h = sym e.0 ∙ h

pub HeadAt-append :
    (at : ℕ) (ss : List SmallNode) (s : SmallNode) → HeadAt at ss → HeadAt at (ss ++ s ∷ [])
HeadAt-append at [] s h = absurd h
HeadAt-append at (t ∷ ss) s h = h

mark-AllBlocks :
    (i current : ℕ) (ss : List SmallNode) (hss : List (List Allocation))
    → AllBlocks ss hss
    → AllBlocks (mark i current ss).0 hss × SameBlocks ss (mark i current ss).0
unfolding mark
mark-AllBlocks i current [] hss b = (b, tt)
mark-AllBlocks i current (s ∷ ss) [] b = absurd b
mark-AllBlocks i current (s ∷ []) (hs ∷ hss) b = (b, (refl, refl, tt))
mark-AllBlocks i current (s ∷ t ∷ ss) (hs ∷ hss) (b, bs) =
    let (rest, same) =
      mark-AllBlocks (suc i) (if leb 5 s.failed then suc i else current) (t ∷ ss) hss bs in
    (
      (
        record {
          room = b.room;
          inside = b.inside;
          aligned = b.aligned;
          page = b.page;
          bounded = b.bounded;
          stacked = b.stacked;
          counted = b.counted;
        },
        rest,
      ),
      (refl, refl, same),
    )

pub length-same : (ss ts : List SmallNode) → SameBlocks ss ts → length ss ≡ length ts
length-same [] [] e = refl
length-same [] (t ∷ ts) e = absurd e
length-same (s ∷ ss) [] e = absurd e
length-same (s ∷ ss) (t ∷ ts) e = ap suc (length-same ss ts e.2)

mark-current :
    (i current : ℕ) (ss : List SmallNode)
    → current < i + length ss
    → (mark i current ss).1 < i + length ss
unfolding mark
mark-current i current [] h = h
mark-current i current (s ∷ []) h = h
mark-current i current (s ∷ t ∷ ss) h =
    let next : ℕ = if leb 5 s.failed then suc i else current in
    let inside : next < suc i + length (t ∷ ss) = ground (arith, h) in
    omega (arith, mark-current (suc i) next (t ∷ ss) inside)

-- The new `current_` is one of the blocks that were there.
pub mark_from-current :
    (skip i current : ℕ) (ss : List SmallNode)
    → current < i + length ss
    → (mark_from skip i current ss).1 < i + length ss
unfolding mark_from
mark_from-current zero i current ss h = mark-current i current ss h
mark_from-current (suc skip) i current [] h = h
mark_from-current (suc skip) i current (s ∷ ss) h =
    omega (arith, mark_from-current skip (suc i) current ss (omega (arith, h)))

pub mark_from-AllBlocks :
    (skip i current : ℕ) (ss : List SmallNode) (hss : List (List Allocation))
    → AllBlocks ss hss
    → AllBlocks (mark_from skip i current ss).0 hss × SameBlocks ss (mark_from skip i current ss).0
unfolding mark_from
mark_from-AllBlocks zero i current ss hss b = mark-AllBlocks i current ss hss b
mark_from-AllBlocks (suc skip) i current [] hss b = (b, tt)
mark_from-AllBlocks (suc skip) i current (s ∷ ss) [] b = absurd b
mark_from-AllBlocks (suc skip) i current (s ∷ ss) (hs ∷ hss) (b, bs) =
    let (rest, same) = mark_from-AllBlocks skip (suc i) current ss hss bs in
    ((b, rest), (refl, refl, same))

pub AllBlocks-append :
    (ss : List SmallNode) (hss : List (List Allocation)) (s : SmallNode) (a : Allocation)
    → AllBlocks ss hss
    → IsBlock s (a ∷ [])
    → AllBlocks (ss ++ s ∷ []) (hss ++ (a ∷ []) ∷ []) × Added a hss (hss ++ (a ∷ []) ∷ [])
AllBlocks-append [] [] s a b n = ((n, tt), to_new)
AllBlocks-append [] (hs ∷ hss) s a b n = absurd b
AllBlocks-append (t ∷ ss) [] s a b n = absurd b
AllBlocks-append (t ∷ ss) (hs ∷ hss) s a (b, bs) n =
    let (all, added) = AllBlocks-append ss hss s a bs n in ((b, all), to_later added)

pub AllApart-append :
    (ss : List SmallNode) (s : SmallNode)
    → AllApart ss
    → Outside s.block s.end_of ss
    → AllApart (ss ++ s ∷ [])
AllApart-append [] s p o = (tt, tt)
AllApart-append (t ∷ ss) s (p, ps) (o, os) =
    (outside t.block t.end_of ss p (swapped o), AllApart-append ss s ps os)
  where
    swapped :
        (s.end_of ≤ t.block) ⊎ (t.end_of ≤ s.block) → (t.end_of ≤ s.block) ⊎ (s.end_of ≤ t.block)
    swapped (inl h) = inr h
    swapped (inr h) = inl h

    outside :
        (low high : ℕ) (ss : List SmallNode)
        → Outside low high ss
        → (high ≤ s.block) ⊎ (s.end_of ≤ low)
        → Outside low high (ss ++ s ∷ [])
    outside low high [] o h = (h, tt)
    outside low high (t ∷ ss) (o, os) h = (o, outside low high ss os h)

pub new_node-IsBlock :
    (size block : ℕ) (found : Found)
    → block % 16 ≡ 0
    → block + 4096 < size_mod
    → found.old_quote ≡ 0
    → 0 < size
    → size ≤ 4064
    → IsBlock (new_node size block found) ((align (block + 32), size) ∷ [])
      × (align (block + 32) ≡ block + 32)
unfolding new_node align increment
new_node-IsBlock size block found h k z p q = (
  record {
    room = omega arith;
    inside = omega arith;
    aligned = omega arith;
    page = omega arith;
    bounded = k;
    stacked = (omega arith, p, omega arith, omega arith, tt);
    counted = omega arith;
  },
  omega arith,
)

pub new_node-Outside :
    (size block : ℕ) (found : Found) (ss : List SmallNode)
    → Outside block (block + 4096) ss
    → Outside (new_node size block found).block (new_node size block found).end_of ss
unfolding new_node
new_node-Outside size block found ss o = o
