-- ===== src/Arena/Regions.antt =====
-- The regions that src/arena.c hands out.
use cachefs.Prelude.{
  ℕ, ◌+◌, ◌-◌, ◌≤◌, ◌≡◌, map, ◌≢◌, ◌⊎◌, refl, sym, ap, inl, inr, Bool-cases, List, [], ◌∷◌, All,
  length, ltb, ◌==◌, ==_iff, if◌then◌else◌, arith,
}
use cachefs.Arena.{ArenaBlock, Arena, Region, add_block, cut, arena_malloc, mallocs}

-- What is used of the block with a number, and its room; 0 where there is none.
abbrev pub used_at : Arena → ℕ → ℕ
used_at [] i = 0
used_at (b ∷ bs) i = if length bs == i then b.used else used_at bs i

abbrev pub size_at : Arena → ℕ → ℕ
size_at [] i = 0
size_at (b ∷ bs) i = if length bs == i then b.size else size_at bs i

-- Two regions have no byte in common.
abbrev pub AreDisjoint : Region → Region → Type 0
AreDisjoint r s =
    (r.block ≢ s.block) ⊎ ((r.offset + r.amount ≤ s.offset) ⊎ (s.offset + s.amount ≤ r.offset))

abbrev pub AreAllDisjoint : List Region → Type 0
AreAllDisjoint [] = Unit
AreAllDisjoint (r ∷ rs) = All (AreDisjoint r) rs × AreAllDisjoint rs

-- A region lies in what is used of its block, which has the room.
abbrev pub IsUsed : Arena → Region → Type 0
IsUsed a r = (r.offset + r.amount ≤ used_at a r.block) × (used_at a r.block ≤ size_at a r.block)

abbrev pub HasRoom : Arena → Type 0
HasRoom a = (i : ℕ) → used_at a i ≤ size_at a i

used_at-new : (a : Arena) (i : ℕ) → length a ≤ i → used_at a i ≡ 0
used_at-new [] i h = refl
used_at-new (b ∷ bs) i h = ground (arith, used_at-new bs i)

-- One call: the new region begins where what was used of its block ended, and only that grows.
record IsNext (a : Arena) (amount : ℕ) (r : Region) (a' : Arena) : Type 0 where
  asked : r.amount ≡ amount
  begins : r.offset ≡ used_at a r.block
  ends : used_at a' r.block ≡ r.offset + amount
  grows : (i : ℕ) → used_at a i ≤ used_at a' i
  rooms : (i : ℕ) → used_at a' i ≤ size_at a' i

cut-IsNext :
    (b : ArenaBlock) (bs : Arena) (amount : ℕ)
    → HasRoom (b ∷ bs)
    → amount ≤ b.size - b.used
    → IsNext (b ∷ bs) amount (cut (b ∷ bs) amount).0 (cut (b ∷ bs) amount).1
unfolding cut
cut-IsNext b bs amount room fits = record {
  asked = refl;
  begins = ground arith;
  ends = ground arith;
  grows = λ i. ground arith;
  rooms = λ i. ground (arith, room i, room (length bs));
}

new-IsNext :
    (a : Arena) (amount : ℕ)
    → HasRoom a
    → IsNext a amount (cut (add_block a amount) amount).0 (cut (add_block a amount) amount).1
unfolding cut add_block
new-IsNext a amount room = record {
  asked = refl;
  begins = sym (used_at-new a (length a) (omega arith));
  ends = ground arith;
  grows = λ i. ground (arith, used_at-new a i);
  rooms = λ i. ground (arith, room i);
}

malloc-IsNext :
    (a : Arena) (amount : ℕ)
    → HasRoom a
    → IsNext a amount (arena_malloc a amount).0 (arena_malloc a amount).1
unfolding arena_malloc
malloc-IsNext [] amount room = new-IsNext [] amount room
malloc-IsNext (b ∷ bs) amount room = elim (Bool-cases (ltb (b.size - b.used) amount)) [
  | inl full ↦ rw full (new-IsNext (b ∷ bs) amount room)
  | inr fits ↦ rw fits (cut-IsNext b bs amount room (ground arith))
]

-- A region that was in use stays in use.
malloc-IsUsed :
    (a : Arena) (n : ℕ) (r s : Region) (a' : Arena) → IsNext a n s a' → IsUsed a r → IsUsed a' r
malloc-IsUsed a n r s a' next (fits, room) =
    (ground (arith, next.grows r.block), next.rooms r.block)

new-IsUsed : (a : Arena) (n : ℕ) (s : Region) (a' : Arena) → IsNext a n s a' → IsUsed a' s
new-IsUsed a n s a' next = (ground (arith, next.ends, next.asked), next.rooms s.block)

-- The next region is apart from those in use.
next-AreDisjoint :
    (a : Arena) (n : ℕ) (r s : Region) (a' : Arena) → IsNext a n s a' → IsUsed a r → AreDisjoint r s
next-AreDisjoint a n r s a' next (fits, room) = elim (Bool-cases (r.block == s.block)) [
  | inl same ↦
      inr (inl (omega (arith, fits, next.begins, ap (used_at a) ((==_iff r.block s.block).0 same))))
  | inr other ↦ inl (λ e. absurd (ground (arith, e, other)))
]

-- Whatever was in use before the calls stays so and is apart from every new region.
mallocs-kept :
    (a : Arena) (ns : List ℕ)
    → HasRoom a
    → (r : Region) → IsUsed a r
    → IsUsed (mallocs a ns).1 r × All (AreDisjoint r) (mallocs a ns).0
unfolding mallocs
mallocs-kept a [] room r used = (used, tt)
mallocs-kept a (n ∷ ns) room r used =
    let next = malloc-IsNext a n room in
    let (kept, apart) =
      mallocs-kept (arena_malloc a n).1 ns next.rooms r (malloc-IsUsed a n r _ _ next used) in
    (kept, (next-AreDisjoint a n r _ _ next used, apart))

-- In an arena no block of which has more used than its room: after any calls of `arena_malloc`
-- each region that was returned has the amount asked for and lies in the used part of its block,
-- which has the room for it, and no two of the regions have a byte in common.
pub mallocs-AreAllDisjoint :
    (a : Arena) (ns : List ℕ)
    → HasRoom a
    → (map (λ r. r.amount) (mallocs a ns).0 ≡ ns)
      × (All (IsUsed (mallocs a ns).1) (mallocs a ns).0 × AreAllDisjoint (mallocs a ns).0)
unfolding mallocs
mallocs-AreAllDisjoint a [] room = (refl, (tt, tt))
mallocs-AreAllDisjoint a (n ∷ ns) room =
    let next = malloc-IsNext a n room in
    let (kept, apart) =
      mallocs-kept (arena_malloc a n).1 ns next.rooms _ (new-IsUsed a n _ _ next) in
    let (asked, (used, disjoint)) = mallocs-AreAllDisjoint (arena_malloc a n).1 ns next.rooms in
    (cc (next.asked, asked), ((kept, used), (apart, disjoint)))
