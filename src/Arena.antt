-- ===== src/Arena.antt =====
-- src/arena.c: memory that is handed out in pieces of larger blocks and freed at once. A block is its
-- room and what is used of it; the current one stands first, and a block's number is how many stand
-- behind it. malloc gives the memory, and the length of a block does not wrap.
pub mod Regions
mod Tests
use cachefs.Prelude.{ℕ, suc, ◌+◌, ◌-◌, ◌*◌, Bool, List, [], ◌∷◌, length, ltb, ◌==◌, if◌then◌else◌}

pub record ArenaBlock : Type 0 where
  pub size : ℕ
  pub used : ℕ

abbrev pub Arena : Type 0
Arena = List ArenaBlock

-- What a pointer that is returned points to: a block's number, an offset and a length.
pub record Region : Type 0 where
  pub block : ℕ
  pub offset : ℕ
  pub amount : ℕ

-- A struct block has 24 bytes before its data.
abbrev pub min_block_room : ℕ
min_block_room = 16 * 1024 - 24

unfoldable pub add_block : Arena → ℕ → Arena
add_block a room_wanted =
    (record {
      size = if ltb room_wanted min_block_room then min_block_room else room_wanted;
      used = 0;
    })
    ∷ a

abbrev pub arena_init : Arena
arena_init = []

-- A piece of the current block.
unfoldable pub cut : Arena → ℕ → Region × Arena
cut [] amount = (record { block = 0; offset = 0; amount = amount }, [])
cut (b ∷ bs) amount = (
  record { block = length bs; offset = b.used; amount = amount },
  record b { used = b.used + amount } ∷ bs,
)

unfoldable pub arena_malloc : Arena → ℕ → Region × Arena
arena_malloc [] amount = cut (add_block [] amount) amount
arena_malloc (b ∷ bs) amount =
    if ltb (b.size - b.used) amount
    then cut (add_block (b ∷ bs) amount) amount
    else cut (b ∷ bs) amount

abbrev pub arena_free : Arena → Arena
arena_free a = []

-- Several calls, with the regions in order.
unfoldable pub mallocs : Arena → List ℕ → List Region × Arena
mallocs a [] = ([], a)
mallocs a (n ∷ ns) =
    let (r, a') = arena_malloc a n in let (rs, a'') = mallocs a' ns in (r ∷ rs, a'')
