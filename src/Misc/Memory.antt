-- ===== src/Misc/Memory.antt =====
-- The memory block and the growing arrays of src/misc.c. A byte that nothing was written to is `none`;
-- sizes are size_t.
use cachefs.Prelude.{
  ℕ, zero, suc, ◌+◌, ◌-◌, ◌*◌, ◌%◌, ◌/◌, ◌^◌, Option, none, some, List, [], ◌∷◌, ◌++◌, map, length,
  take, drop, ◌==◌, ltb, leb, if◌then◌else◌, add64,
}

-- The cells that `ptr` points to, as many as `capacity` says.
pub record MemoryBlock : Type 0 where
  pub cells : List (Option ℕ)
  pub size : ℕ
  pub capacity : ℕ

unfoldable pub unwritten : ℕ → List (Option ℕ)
unwritten zero = []
unwritten (suc n) = none ∷ unwritten n

unfoldable pub init_memory_block : ℕ → MemoryBlock
init_memory_block initial_capacity = record {
  cells = unwritten initial_capacity;
  size = 0;
  capacity = initial_capacity;
}

-- abort, or what is returned.
pub data Outcome (A : Type 0) : Type 0 where
  aborts unfinished : Outcome A
  returns : A → Outcome A

-- The loop that doubles the capacity until it is not below the size, with fuel.
unfoldable pub grown : ℕ → ℕ → ℕ → Outcome ℕ
grown zero new_cap size = unfinished
grown (suc fuel) new_cap size =
    let eight = grown fuel 8 size in
    let twice = grown fuel (new_cap * 2) size in
    if ltb new_cap size
    then if new_cap == 0 then eight else if ltb ((2 ^ 64 - 1) / 2) new_cap then aborts else twice
    else returns new_cap

-- realloc to at least as many cells.
unfoldable pub realloc : List (Option ℕ) → ℕ → List (Option ℕ)
realloc cells new_cap = cells ++ unwritten (new_cap - length cells)

-- The block of a new size, with the capacity that the loop ends with.
unfoldable pub with_capacity : MemoryBlock → ℕ → Outcome ℕ → Outcome MemoryBlock
with_capacity a size aborts = aborts
with_capacity a size unfinished = unfinished
with_capacity a size (returns new_cap) =
    returns (record { cells = realloc a.cells new_cap; size = size; capacity = new_cap })

-- After 0 and 8, 62 doublings are more than a size_t holds.
unfoldable pub grow_memory_block : MemoryBlock → ℕ → Outcome MemoryBlock
grow_memory_block a amount =
    let size = add64 a.size amount in
    if leb a.capacity size
    then with_capacity a size (grown 66 a.capacity size)
    else returns (record a { size = size })

-- memcpy
unfoldable pub write_cells : ℕ → List ℕ → List (Option ℕ) → List (Option ℕ)
write_cells dest src cells = take dest cells ++ (map some src ++ drop (dest + length src) cells)

-- The offset is returned as the 32 bits of an `int`.
unfoldable pub append_to_memory_block : MemoryBlock → List ℕ → Outcome (ℕ × MemoryBlock)
append_to_memory_block a src = elim (grow_memory_block a (length src)) [
  | aborts ↦ aborts
  | unfinished ↦ unfinished
  | returns b ↦ returns (a.size % 2 ^ 32, record b { cells = write_cells a.size src b.cells })
]

abbrev pub free_memory_block : MemoryBlock → MemoryBlock
free_memory_block a = init_memory_block 0

-- The capacity that `grow_array_impl` stores, as an `int` that does not overflow.
unfoldable pub grow_array_impl : ℕ → ℕ
grow_array_impl capacity = if capacity == 0 then 8 else capacity * 2
