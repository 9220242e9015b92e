-- ===== src/Memory/Pool/Placing.antt =====
-- memory/MemoryPool.cc: where `malloc` puts a small allocation.
use my_file_server.Common.{
  ℕ, zero, suc, ◌+◌, ◌-◌, ◌%◌, ◌≤◌, ◌<◌, ◌≡◌, refl, subst, arith, Bool, true, false, leb, leb→le,
  if◌then◌else◌, sub_size, sub_size_lem, List, [], ◌∷◌, Option, none, some,
}
use mathlib.Core.Option
use my_file_server.Memory.Pool.{SmallNode, align, increment, use_block, walk, walk_from}
use my_file_server.Memory.Pool.Blocks.{
  Allocation, IsBlock, AllBlocks, SameBlocks, ApartFrom, Placed, here, there, Stacked-mono,
  Stacked-ApartFrom, Stacked-length,
}

pub align_bounds : (n : ℕ) → (n ≤ align n) × (align n ≤ n + 15) × (align n % 16 ≡ 0)
unfolding align
align_bounds n = omega arith

-- Rounding up stays below an end that is a multiple of 16.
align-le : (n e : ℕ) → n ≤ e → e % 16 ≡ 0 → align n ≤ e
unfolding align
align-le n e h k = omega arith

-- An allocation that the test of `malloc` lets into a block.
use_block-IsBlock :
    (s : SmallNode) (hs : List Allocation) (size : ℕ)
    → IsBlock s hs
    → 0 < size
    → leb size (sub_size s.end_of (align s.last)) ≡ true
    → IsBlock (use_block s (align s.last + size)) ((align s.last, size) ∷ hs)
      × (s.block ≤ align s.last)
      × (align s.last + size ≤ s.end_of)
      × ApartFrom (align s.last, size) hs
unfolding use_block increment
use_block-IsBlock s hs size b h fits =
    let (above, near, even) = align_bounds s.last in
    let below : align s.last ≤ s.end_of = align-le s.last s.end_of b.inside b.aligned in
    let room : size ≤ s.end_of - align s.last =
      subst (size ≤◌) (sub_size_lem s.end_of (align s.last) below b.bounded)
        (leb→le size (sub_size s.end_of (align s.last)) fits) in
    let few = Stacked-length (s.block + 32) s.last hs b.stacked b.room in
    (
      record {
        room = omega (arith, b.room);
        inside = omega arith;
        aligned = b.aligned;
        page = b.page;
        bounded = b.bounded;
        stacked = (
          omega (arith, b.room),
          h,
          omega arith,
          even,
          Stacked-mono (s.block + 32) s.last (align s.last) hs above b.stacked,
        );
        counted = omega (arith, b.counted, few, b.inside, b.page);
      },
      omega (arith, b.room),
      omega arith,
      Stacked-ApartFrom (align s.last, size) (s.block + 32) s.last hs b.stacked above,
    )

pub SameBlocks-refl : (ss : List SmallNode) → SameBlocks ss ss
SameBlocks-refl [] = tt
SameBlocks-refl (s ∷ ss) = (refl, refl, SameBlocks-refl ss)

same_use :
    (s : SmallNode) (end_at : ℕ) (ss : List SmallNode)
    → SameBlocks (s ∷ ss) (use_block s end_at ∷ ss)
unfolding use_block
same_use s end_at ss = (refl, refl, SameBlocks-refl ss)

-- An allocation of a walk over blocks: where it is put, and the blocks afterwards.
pub record IsTaken (size addr : ℕ) (ss ts : List SmallNode) (hss : List (List Allocation))
    : Type 0 where
  pub lists : List (List Allocation)
  pub blocks : AllBlocks ts lists
  pub placed : Placed (addr, size) ss hss lists
  pub same_blocks : SameBlocks ss ts
  pub multiple : addr % 16 ≡ 0

-- What is known of a walk that may find no room.
abbrev pub Outcome :
    ℕ → List SmallNode → List (List Allocation) → Option (ℕ × List SmallNode) → Type 0
Outcome size ss hss none = Unit
Outcome size ss hss (some (addr, ts)) = IsTaken size addr ss ts hss

if-Outcome :
    (size : ℕ) (ss : List SmallNode) (hss : List (List Allocation)) (test : Bool)
    (x y : Option (ℕ × List SmallNode))
    → (test ≡ true → Outcome size ss hss x)
    → Outcome size ss hss y
    → Outcome size ss hss (if test then x else y)
if-Outcome size ss hss true x y hx hy = hx refl
if-Outcome size ss hss false x y hx hy = hy

-- A block that is passed over.
pass-Outcome :
    (size : ℕ) (s : SmallNode) (hs : List Allocation) (ss : List SmallNode)
    (hss : List (List Allocation)) (r : Option (ℕ × List SmallNode))
    → IsBlock s hs
    → Outcome size ss hss r
    → Outcome size (s ∷ ss) (hs ∷ hss) (Option.map (λ (r : ℕ × List SmallNode). (r.0, s ∷ r.1)) r)
pass-Outcome size s hs ss hss none b o = tt
pass-Outcome size s hs ss hss (some (addr, ts)) b o = record {
  lists = hs ∷ o.lists;
  blocks = (b, o.blocks);
  placed = there o.placed;
  same_blocks = (refl, refl, o.same_blocks);
  multiple = o.multiple;
}

walk-Outcome :
    (size : ℕ) (ss : List SmallNode) (hss : List (List Allocation))
    → 0 < size
    → AllBlocks ss hss
    → Outcome size ss hss (walk size ss)
unfolding walk
walk-Outcome size [] hss h b = tt
walk-Outcome size (s ∷ ss) [] h b = absurd b
walk-Outcome size (s ∷ ss) (hs ∷ hss) h (b, bs) =
    if-Outcome size (s ∷ ss) (hs ∷ hss) (leb size (sub_size s.end_of (align s.last))) _ _
      (λ fits.
        let (used, above, below, apart) = use_block-IsBlock s hs size b h fits in
        record {
          lists = ((align s.last, size) ∷ hs) ∷ hss;
          blocks = (used, bs);
          placed = here above below apart;
          same_blocks = same_use s (align s.last + size) ss;
          multiple = (align_bounds s.last).2;
        })
      (pass-Outcome size s hs ss hss (walk size ss) b (walk-Outcome size ss hss h bs))

pub walk_from-Outcome :
    (current size : ℕ) (ss : List SmallNode) (hss : List (List Allocation))
    → 0 < size
    → AllBlocks ss hss
    → Outcome size ss hss (walk_from current size ss)
unfolding walk_from
walk_from-Outcome zero size ss hss h b = walk-Outcome size ss hss h b
walk_from-Outcome (suc current) size [] hss h b = tt
walk_from-Outcome (suc current) size (s ∷ ss) [] h b = absurd b
walk_from-Outcome (suc current) size (s ∷ ss) (hs ∷ hss) h (b, bs) =
    pass-Outcome size s hs ss hss (walk_from current size ss) b
      (walk_from-Outcome current size ss hss h bs)
