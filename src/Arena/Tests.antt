-- ===== src/Arena/Tests.antt =====
-- src/arena.c at a concrete input.
use cachefs.Prelude.{ℕ, ◌≡◌, refl, List, [], ◌∷◌, map, All, arith}
use cachefs.Arena.{arena_init, mallocs, arena_malloc, cut, add_block}
use cachefs.Arena.Regions.{IsUsed, HasRoom, AreAllDisjoint, mallocs-AreAllDisjoint}

abbrev asked : List ℕ
asked = 100 ∷ 16300 ∷ 20000 ∷ 30 ∷ []

empty-HasRoom : HasRoom arena_init
empty-HasRoom i = omega arith

-- Each call takes a new block.
blocks_taken : map (λ r. r.block) (mallocs arena_init asked).0 ≡ 0 ∷ 1 ∷ 2 ∷ 3 ∷ []
unfolding mallocs arena_malloc cut add_block
blocks_taken = refl

mallocs-AreAllDisjoint_example :
    (map (λ r. r.amount) (mallocs arena_init asked).0 ≡ asked)
    × (All (IsUsed (mallocs arena_init asked).1) (mallocs arena_init asked).0
        × AreAllDisjoint (mallocs arena_init asked).0)
mallocs-AreAllDisjoint_example = mallocs-AreAllDisjoint arena_init asked empty-HasRoom
