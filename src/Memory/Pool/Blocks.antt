-- ===== src/Memory/Pool/Blocks.antt =====
-- memory/MemoryPool.cc: the allocations that the blocks hold, and that they do not overlap.
use my_file_server.Common.{
  ℕ, ◌+◌, ◌%◌, ◌≤◌, ◌<◌, ◌≡◌, arith, ◌⊎◌, inl, inr, size_mod, List, [], ◌∷◌, length,
}
use my_file_server.Memory.Pool.{SmallNode}

-- The address and the size of an allocation.
abbrev pub Allocation : Type 0
Allocation = ℕ × ℕ

abbrev pub Apart : Allocation → Allocation → Type 0
Apart a b = (a.0 + a.1 ≤ b.0) ⊎ (b.0 + b.1 ≤ a.0)

-- Allocations of at least a byte between `bottom` and `top`, the newest first, none over another,
-- each at a multiple of 16.
abbrev pub Stacked : (bottom top : ℕ) → List Allocation → Type 0
Stacked bottom top [] = Unit
Stacked bottom top (a ∷ hs) =
    (bottom ≤ a.0) × (0 < a.1) × (a.0 + a.1 ≤ top) × (a.0 % 16 ≡ 0) × Stacked bottom a.0 hs

-- A block with the allocations that it holds.
pub record IsBlock (s : SmallNode) (hs : List Allocation) : Type 0 where
  pub room : s.block + 32 ≤ s.last
  pub inside : s.last ≤ s.end_of
  pub aligned : s.end_of % 16 ≡ 0
  pub page : s.end_of ≤ s.block + 4096
  pub bounded : s.end_of < size_mod
  pub stacked : Stacked (s.block + 32) s.last hs
  pub counted : s.quote_count ≡ length hs

abbrev pub AllBlocks : List SmallNode → List (List Allocation) → Type 0
AllBlocks [] [] = Unit
AllBlocks (s ∷ ss) (hs ∷ hss) = IsBlock s hs × AllBlocks ss hss
AllBlocks _ _ = ⊥

-- No block reaches into the addresses from `low` to `high`.
abbrev pub Outside : (low high : ℕ) → List SmallNode → Type 0
Outside low high [] = Unit
Outside low high (s ∷ ss) = ((high ≤ s.block) ⊎ (s.end_of ≤ low)) × Outside low high ss

abbrev pub AllApart : List SmallNode → Type 0
AllApart [] = Unit
AllApart (s ∷ ss) = Outside s.block s.end_of ss × AllApart ss

-- The same blocks, whatever is in them.
abbrev pub SameBlocks : List SmallNode → List SmallNode → Type 0
SameBlocks [] [] = Unit
SameBlocks (s ∷ ss) (t ∷ ts) = (s.block ≡ t.block) × (s.end_of ≡ t.end_of) × SameBlocks ss ts
SameBlocks _ _ = ⊥

-- There is a head, and it stands behind the Pool.
abbrev pub HeadAt : ℕ → List SmallNode → Type 0
HeadAt at [] = ⊥
HeadAt at (s ∷ ss) = s.block ≡ at + 24

-- An allocation lies apart from those of a list, and of a list of lists.
abbrev pub ApartFrom : Allocation → List Allocation → Type 0
ApartFrom a [] = Unit
ApartFrom a (b ∷ bs) = Apart a b × ApartFrom a bs

abbrev pub ApartFromAll : Allocation → List (List Allocation) → Type 0
ApartFromAll a [] = Unit
ApartFromAll a (hs ∷ hss) = ApartFrom a hs × ApartFromAll a hss

-- `a` is added to the allocations of one block, inside of the block and behind all it holds.
pub data Placed (a : Allocation)
    : List SmallNode → List (List Allocation) → List (List Allocation) → Type 0 where
  here :
      {s : SmallNode} {ss : List SmallNode} {hs : List Allocation} {hss : List (List Allocation)}
      → s.block ≤ a.0
      → a.0 + a.1 ≤ s.end_of
      → ApartFrom a hs
      → Placed a (s ∷ ss) (hs ∷ hss) ((a ∷ hs) ∷ hss)
  there :
      {s : SmallNode} {ss : List SmallNode} {hs : List Allocation}
      {hss kss : List (List Allocation)}
      → Placed a ss hss kss
      → Placed a (s ∷ ss) (hs ∷ hss) (hs ∷ kss)

pub Stacked-mono :
    (bottom low high : ℕ) (hs : List Allocation)
    → low ≤ high
    → Stacked bottom low hs
    → Stacked bottom high hs
Stacked-mono bottom low high [] h s = tt
Stacked-mono bottom low high (a ∷ hs) h s = (s.0, s.1, omega arith, s.3, s.4)

-- What lies above the top is apart from all that is stacked.
pub Stacked-ApartFrom :
    (a : Allocation) (bottom top : ℕ) (hs : List Allocation)
    → Stacked bottom top hs
    → top ≤ a.0
    → ApartFrom a hs
Stacked-ApartFrom a bottom top [] s h = tt
Stacked-ApartFrom a bottom top (b ∷ bs) s h =
    (inr (omega arith), Stacked-ApartFrom a bottom b.0 bs s.4 (omega arith))

-- What lies outside of the block is apart, too.
pub Stacked-ApartFrom_outside :
    (a : Allocation) (bottom top : ℕ) (hs : List Allocation)
    → Stacked bottom top hs
    → (a.0 + a.1 ≤ bottom) ⊎ (top ≤ a.0)
    → ApartFrom a hs
Stacked-ApartFrom_outside a bottom top [] s h = tt
Stacked-ApartFrom_outside a bottom top (b ∷ bs) s (inl h) =
    (inl (omega arith), Stacked-ApartFrom_outside a bottom b.0 bs s.4 (inl h))
Stacked-ApartFrom_outside a bottom top (b ∷ bs) s (inr h) =
    (inr (omega arith), Stacked-ApartFrom a bottom b.0 bs s.4 (omega arith))

-- As many allocations as bytes at most.
pub Stacked-length :
    (bottom top : ℕ) (hs : List Allocation)
    → Stacked bottom top hs
    → bottom ≤ top
    → bottom + length hs ≤ top
Stacked-length bottom top [] s h = omega arith
Stacked-length bottom top (a ∷ hs) s h = omega (arith, Stacked-length bottom a.0 hs s.4 s.0)

pub Outside-ApartFromAll :
    (a : Allocation) (low high : ℕ) (ss : List SmallNode) (hss : List (List Allocation))
    → low ≤ a.0
    → a.0 + a.1 ≤ high
    → Outside low high ss
    → AllBlocks ss hss
    → ApartFromAll a hss
Outside-ApartFromAll a low high [] [] h k o b = tt
Outside-ApartFromAll a low high [] (hs ∷ hss) h k o b = absurd b
Outside-ApartFromAll a low high (s ∷ ss) [] h k o b = absurd b
Outside-ApartFromAll a low high (s ∷ ss) (hs ∷ hss) h k (inl o, os) (b, bs) = (
  Stacked-ApartFrom_outside a (s.block + 32) s.last hs b.stacked (inl (omega arith)),
  Outside-ApartFromAll a low high ss hss h k os bs,
)
Outside-ApartFromAll a low high (s ∷ ss) (hs ∷ hss) h k (inr o, os) (b, bs) = (
  Stacked-ApartFrom_outside a (s.block + 32) s.last hs b.stacked (inr (omega (arith, b.inside))),
  Outside-ApartFromAll a low high ss hss h k os bs,
)

-- Where blocks do not overlap, what is placed in one is outside of the others.
Placed-Outside :
    {a : Allocation} {ss : List SmallNode} {hss kss : List (List Allocation)} (low high : ℕ)
    → Placed a ss hss kss
    → Outside low high ss
    → (a.0 + a.1 ≤ low) ⊎ (high ≤ a.0)
Placed-Outside low high (here h k apart) (inl o, os) = inr (omega arith)
Placed-Outside low high (here h k apart) (inr o, os) = inl (omega arith)
Placed-Outside low high (there p) (o, os) = Placed-Outside low high p os

pub Placed-ApartFromAll :
    {a : Allocation} {ss : List SmallNode} {hss kss : List (List Allocation)}
    → Placed a ss hss kss
    → AllApart ss
    → AllBlocks ss hss
    → ApartFromAll a hss
Placed-ApartFromAll {a} (here {s} {ss} {hs} {hss} h k apart) (o, os) (b, bs) =
    (apart, Outside-ApartFromAll a s.block s.end_of ss hss h k o bs)
Placed-ApartFromAll {a} (there {s} {ss} {hs} p) (o, os) (b, bs) =
    (by_side (Placed-Outside s.block s.end_of p o), Placed-ApartFromAll p os bs)
  where
    by_side : (a.0 + a.1 ≤ s.block) ⊎ (s.end_of ≤ a.0) → ApartFrom a hs
    by_side (inl below) =
        Stacked-ApartFrom_outside a (s.block + 32) s.last hs b.stacked (inl (omega arith))
    by_side (inr above) =
        Stacked-ApartFrom_outside a (s.block + 32) s.last hs b.stacked
          (inr (omega (arith, b.inside)))
