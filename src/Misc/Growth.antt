-- ===== src/Misc/Growth.antt =====
-- What `append_to_memory_block` of src/misc.c leaves in the block.
use mathlib.Core.Path.{subst}
use cachefs.Prelude.{
  ℕ, zero, suc, ◌+◌, ◌-◌, ◌*◌, ◌%◌, ◌/◌, ◌^◌, ◌<◌, ◌≤◌, ◌≡◌, refl, ap, ◌∙◌, inl, inr, false, Option,
  some, List, [], ◌∷◌, ◌++◌, map, length, take, drop, ◌==◌, ltb, leb, add64, add64-eq-add,
  length-append, arith, Bool-cases,
}
use cachefs.Misc.Memory.{
  MemoryBlock, unwritten, returns, grown, realloc, grow_memory_block, with_capacity, write_cells,
  append_to_memory_block,
}

double_lem : (size c fuel : ℕ) → size ≤ c * 2 ^ suc fuel → size ≤ c * 2 * 2 ^ fuel
double_lem size c fuel h = grind arith

-- The doubled capacity reaches a size of at most 2 ^ 63, in as many rounds as there is fuel.
grown_lem :
    (fuel c size : ℕ)
    → size ≤ 2 ^ 63
    → 0 < c
    → size ≤ c * 2 ^ fuel
    → (n : ℕ) × (grown (suc fuel) c size ≡ returns n) × (c ≤ n) × (size ≤ n)
unfolding grown
grown_lem zero c size small pos enough = (c, ground arith, omega arith, ground arith)
grown_lem (suc fuel) c size small pos enough = elim (Bool-cases (ltb c size)) [
  | inr reached ↦ (c, rw (reached, grown) refl, omega arith, ground arith)
  | inl below ↦
      let room : size ≤ c * 2 * 2 ^ fuel = double_lem size c fuel enough in
      let (n, e, ge, fits) = grown_lem fuel (c * 2) size small (omega arith) room in
      let positive : (c == 0) ≡ false = ground arith in
      let halves : ltb ((2 ^ 64 - 1) / 2) c ≡ false = ground arith in
      (n, rw (below, positive, halves, grown) e, omega arith, fits)
]

grown_enough :
    (c size : ℕ) → size ≤ 2 ^ 63 → (n : ℕ) × (grown 66 c size ≡ returns n) × (c ≤ n) × (size ≤ n)
unfolding grown
grown_enough zero size small = elim (Bool-cases (ltb 0 size)) [
  | inr reached ↦ (0, rw (reached, grown) refl, omega arith, ground arith)
  | inl below ↦
      let (n, e, ge, fits) = grown_lem 64 8 size small (omega arith) (omega arith) in
      (n, rw (below, grown) e, omega arith, fits)
]
grown_enough (suc c) size small = grown_lem 65 (suc c) size small (omega arith) (omega arith)

module _ {A : Type 0} where
  length-take : (n : ℕ) (xs : List A) → n ≤ length xs → length (take n xs) ≡ n
  length-take zero xs h = refl
  length-take (suc n) [] h = absurd (omega arith)
  length-take (suc n) (x ∷ xs) h = omega (arith, length-take n xs)

  length-drop : (n : ℕ) (xs : List A) → length (drop n xs) ≡ length xs - n
  length-drop zero xs = omega arith
  length-drop (suc n) [] = omega arith
  length-drop (suc n) (x ∷ xs) = omega (arith, length-drop n xs)

  take-length : (xs ys : List A) → take (length xs) (xs ++ ys) ≡ xs
  take-length [] ys = refl
  take-length (x ∷ xs) ys = ap (λ l. x ∷ l) (take-length xs ys)

  drop-length : (xs ys : List A) → drop (length xs) (xs ++ ys) ≡ ys
  drop-length [] ys = refl
  drop-length (x ∷ xs) ys = drop-length xs ys

  take-append : (n : ℕ) (xs ys : List A) → n ≤ length xs → take n (xs ++ ys) ≡ take n xs
  take-append zero xs ys h = refl
  take-append (suc n) [] ys h = absurd (omega arith)
  take-append (suc n) (x ∷ xs) ys h = ap (λ l. x ∷ l) (take-append n xs ys (omega arith))

length-unwritten : (n : ℕ) → length (unwritten n) ≡ n
unfolding unwritten
length-unwritten zero = refl
length-unwritten (suc n) = omega (arith, length-unwritten n)

length-map_some : (bs : List ℕ) → length (map some bs) ≡ length bs
length-map_some [] = refl
length-map_some (b ∷ bs) = omega (arith, length-map_some bs)

-- As many cells as the capacity says, of which `size` are in use.
pub record IsBlock (a : MemoryBlock) : Type 0 where
  pub allocated : length a.cells ≡ a.capacity
  pub within : a.size ≤ a.capacity

-- A block that has grown: the cells that there were stay.
record Grows (a b : MemoryBlock) (amount : ℕ) : Type 0 where
  block : IsBlock b
  sized : b.size ≡ a.size + amount
  kept : take a.size b.cells ≡ take a.size a.cells

grow_lem :
    (a : MemoryBlock) (amount : ℕ)
    → IsBlock a
    → a.size + amount ≤ 2 ^ 63
    → (b : MemoryBlock) × (grow_memory_block a amount ≡ returns b) × Grows a b amount
unfolding grow_memory_block with_capacity realloc
grow_lem a amount h small =
    let sum : add64 a.size amount ≡ a.size + amount = add64-eq-add a.size amount (omega arith) in
    elim (Bool-cases (leb a.capacity (a.size + amount))) [
      | inr room ↦ (
        record a { size = a.size + amount },
        rw (grow_memory_block, sum, room) refl,
        record {
          block = record { allocated = h.allocated; within = ground arith };
          sized = refl;
          kept = refl;
        },
      )
      | inl full ↦
          let (n, e, ge, fits) = grown_enough a.capacity (a.size + amount) small in
          (
            record { cells = realloc a.cells n; size = a.size + amount; capacity = n },
            rw (grow_memory_block, sum, full, e) refl,
            record {
              block = record {
                allocated = omega (
                  arith,
                  length-append a.cells (unwritten (n - length a.cells)),
                  length-unwritten (n - length a.cells),
                  h.allocated,
                );
                within = fits;
              };
              sized = refl;
              kept =
                  take-append a.size a.cells (unwritten (n - length a.cells))
                    (omega (arith, h.allocated, h.within));
            },
          )
    ]

module _ (dest : ℕ) (src : List ℕ) (cells : List (Option ℕ))
    (room : dest + length src ≤ length cells) where
  length-write_cells : length (write_cells dest src cells) ≡ length cells
  unfolding write_cells
  length-write_cells = omega (
    arith,
    length-append (take dest cells) (map some src ++ drop (dest + length src) cells),
    length-append (map some src) (drop (dest + length src) cells),
    length-map_some src,
    length-take dest cells (omega arith),
    length-drop (dest + length src) cells,
  )

  take-write_cells : take dest (write_cells dest src cells) ≡ take dest cells
  unfolding write_cells
  take-write_cells =
      let first = length-take dest cells (omega arith) in
      subst (λ n. take n (write_cells dest src cells) ≡ take dest cells) first
        (take-length (take dest cells) (map some src ++ drop (dest + length src) cells))

  written : take (length src) (drop dest (write_cells dest src cells)) ≡ map some src
  unfolding write_cells
  written =
      let first = length-take dest cells (omega arith) in
      let rest = map some src ++ drop (dest + length src) cells in
      let dropped : drop dest (write_cells dest src cells) ≡ rest =
        subst (λ n. drop n (write_cells dest src cells) ≡ rest) first
          (drop-length (take dest cells) rest) in
      ap (take (length src)) dropped
      ∙ subst (λ n. take n rest ≡ map some src) (length-map_some src)
          (take-length (map some src) (drop (dest + length src) cells))

-- For a block of as many cells as its capacity says, at least as many as its size, and with a size
-- that stays below 2 ^ 31: `append_to_memory_block` does not abort, its loop ends, and it returns the
-- old size. The new block is such a block too, larger by the bytes that were given; they stand at the
-- returned offset, and what stood before it stays.
pub append_lem :
    (a : MemoryBlock) (src : List ℕ)
    → IsBlock a
    → a.size + length src < 2 ^ 31
    → (b : MemoryBlock) × (append_to_memory_block a src ≡ returns (a.size, b))
      × IsBlock b
      × (b.size ≡ a.size + length src)
      × (take (length src) (drop a.size b.cells) ≡ map some src)
      × (take a.size b.cells ≡ take a.size a.cells)
unfolding append_to_memory_block
append_lem a src h small =
    let (b, e, grows) = grow_lem a (length src) h (omega arith) in
    let room : a.size + length src ≤ length b.cells =
      omega (arith, grows.block.allocated, grows.block.within, grows.sized) in
    let offset : a.size % 2 ^ 32 ≡ a.size = omega arith in
    (
      record b { cells = write_cells a.size src b.cells },
      rw (append_to_memory_block, e, offset) refl,
      record {
        allocated = length-write_cells a.size src b.cells room ∙ grows.block.allocated;
        within = grows.block.within;
      },
      grows.sized,
      written a.size src b.cells room,
      take-write_cells a.size src b.cells room ∙ grows.kept,
    )
