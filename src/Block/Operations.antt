-- ===== src/Block/Operations.antt =====
-- The public functions of src/cache_block.c. A NULL pointer is `none`; the output buffer of
-- `cache_block_read` is taken to be there.
use cachefs.Prelude.{
  ℕ, zero, suc, ◌+◌, ◌-◌, ◌*◌, ◌/◌, ◌%◌, ◌^◌, Bool, true, false, ◌&&◌, Option, none, some, List, [],
  ◌∷◌, ◌++◌, length, ltb, ◌==◌, if◌then◌else◌, Str, bytes, has_prefix, add64, sub64,
}
use cachefs.Posix.{Status, ok, failed}
use cachefs.Block.{
  BlockFs, BlockCtx, default_block_size, hash_path, hex, snprintf_path, get_block_path,
  calculate_cache_size, evict_lru_blocks,
}

-- The directory of a path's block files.
abbrev pub hash_dir : BlockCtx → Str → Str
hash_dir c path = snprintf_path (
    c.blocks_dir
    ++ bytes "/"
    ++ hex 2 (hash_path path / 256)
    ++ bytes "/"
    ++ hex 2 (hash_path path))

-- Up to the last '/', which is dropped; nothing if there is none.
unfoldable pub before_last_slash : Str → Option Str
before_last_slash [] = none
before_last_slash (c ∷ cs) = elim (before_last_slash cs) [
  | none ↦ if c == b'/' then some [] else none
  | some front ↦ some (c ∷ front)
]

module _ {W : Type 0} (fs : BlockFs W) where
  -- The mkdir of each prefix that ends before a '/', and of the whole.
  unfoldable pub mkdir_each : W → Str → Str → W
  mkdir_each w front [] = fs.mkdir w front
  mkdir_each w front (c ∷ rest) =
      mkdir_each (if c == b'/' then fs.mkdir w front else w) (front ++ c ∷ []) rest

  -- The leading slashes are passed over.
  unfoldable pub mkdir_all : W → Str → Str → W
  mkdir_all w front [] = fs.mkdir w front
  mkdir_all w front (c ∷ rest) =
      let skipped = mkdir_all w (front ++ c ∷ []) rest in
      if c == b'/' then skipped else mkdir_each w (front ++ c ∷ []) rest

  unfoldable pub create_block_dir : W → Str → Option W
  unfolding before_last_slash mkdir_all mkdir_each
  create_block_dir w block_path = elim (before_last_slash block_path) [
    | none ↦ none
    | some dir_path ↦ some (mkdir_all w [] dir_path)
  ]

  unfoldable pub cache_block_init : Option Str → ℕ → ℕ → W → Option BlockCtx × W
  cache_block_init none block_size max_cache_size w = (none, w)
  cache_block_init (some cache_root) block_size max_cache_size w =
      let blocks_dir = snprintf_path (cache_root ++ bytes "/blocks") in
      let made = fs.mkdir w blocks_dir in
      (
        some (record {
          blocks_dir = blocks_dir;
          block_size = if ltb 0 block_size then block_size else default_block_size;
          max_cache_size = max_cache_size;
          current_cache_size = calculate_cache_size fs made blocks_dir;
        }),
        made,
      )

  unfoldable pub cache_block_exists : Option BlockCtx → Option Str → ℕ → W → Bool
  cache_block_exists none path block_idx w = false
  cache_block_exists (some c) none block_idx w = false
  cache_block_exists (some c) (some path) block_idx w =
      elim (fs.stat w (get_block_path c path block_idx)) [ none ↦ false | some st ↦ true ]

  -- The bytes read, or nothing for -1.
  unfoldable pub cache_block_read : Option BlockCtx → Option Str → ℕ → ℕ → ℕ → W → Option (List ℕ)
  cache_block_read none path block_idx size offset w = none
  cache_block_read (some c) none block_idx size offset w = none
  cache_block_read (some c) (some path) block_idx size offset w =
      let block_path = get_block_path c path block_idx in
      if fs.can_open w block_path then fs.pread w block_path size offset else none

  -- The size is counted, and the oldest blocks go if the cache is now too large.
  unfoldable pub account_write : BlockCtx → W → ℕ → BlockCtx × W
  account_write c w written =
      let c' = record c { current_cache_size = add64 c.current_cache_size written } in
      if ltb 0 c'.max_cache_size && ltb c'.max_cache_size c'.current_cache_size
      then (let (status, c'', w') =
            evict_lru_blocks fs c' w (c'.max_cache_size * 9 % 2 ^ 64 / 10) in
          (c'', w'))
      else (c', w)

  -- From the open of the block file on.
  unfoldable pub write_file : BlockCtx → W → Str → List ℕ → Status × BlockCtx × W
  unfolding account_write
  write_file c w block_path buf = elim (fs.open_truncated w block_path) [
    | none ↦ (failed, c, w)
    | some opened ↦
        let (written, w') = fs.write opened block_path buf in
        elim written [
          | none ↦ (failed, c, w')
          | some n ↦
              if n == length buf
              then (let (c', w'') = account_write c w' n in (ok, c', w''))
              else (failed, c, w')
        ]
  ]

  unfoldable pub cache_block_write :
      Option BlockCtx → Option Str → ℕ → Option (List ℕ) → W → Status × Option BlockCtx × W
  unfolding write_file
  cache_block_write none path block_idx buf w = (failed, none, w)
  cache_block_write (some c) none block_idx buf w = (failed, some c, w)
  cache_block_write (some c) (some path) block_idx none w = (failed, some c, w)
  cache_block_write (some c) (some path) block_idx (some buf) w =
      let block_path = get_block_path c path block_idx in
      elim (create_block_dir w block_path) [
        | none ↦ (failed, some c, w)
        | some made ↦
            let (status, c', w') = write_file c made block_path buf in (status, some c', w')
      ]

  -- A block file that is there is unlinked, and its size is taken off if that succeeds.
  unfoldable pub drop_block : BlockCtx → W → Str → BlockCtx × W
  drop_block c w p = elim (fs.stat w p) [
    | none ↦ (c, w)
    | some st ↦ elim (fs.unlink w p) [
      | none ↦ (c, w)
      | some w' ↦ (record c { current_cache_size = sub64 c.current_cache_size st.size }, w')
    ]
  ]

  -- The loop over `rounds` blocks from `i` on.
  unfoldable pub drop_blocks : BlockCtx → W → Str → ℕ → ℕ → BlockCtx × W
  unfolding drop_block
  drop_blocks c w path i zero = (c, w)
  drop_blocks c w path i (suc rounds) =
      let (c', w') = drop_block c w (get_block_path c path i) in
      drop_blocks c' w' path (suc i) rounds

  unfoldable pub cache_block_invalidate_range :
      Option BlockCtx → Option Str → ℕ → ℕ → W → Status × Option BlockCtx × W
  cache_block_invalidate_range none path offset size w = (failed, none, w)
  cache_block_invalidate_range (some c) none offset size w = (failed, some c, w)
  cache_block_invalidate_range (some c) (some path) offset size w =
      let start_block = offset / c.block_size in
      let end_block = add64 offset size / c.block_size in
      let (c', w') = drop_blocks c w path start_block (end_block + 1 - start_block) in
      (ok, some c', w')

  -- The loop over the names of the hash directory.
  unfoldable pub drop_matching : BlockCtx → W → Str → Str → List Str → BlockCtx × W
  unfolding drop_block
  drop_matching c w dir_path block_prefix [] = (c, w)
  drop_matching c w dir_path block_prefix (n ∷ ns) =
      let (c', w') =
        if has_prefix block_prefix n
        then drop_block c w (snprintf_path (dir_path ++ bytes "/" ++ n))
        else (c, w) in
      drop_matching c' w' dir_path block_prefix ns

  unfoldable pub cache_block_invalidate_file :
      Option BlockCtx → Option Str → W → Status × Option BlockCtx × W
  cache_block_invalidate_file none path w = (failed, none, w)
  cache_block_invalidate_file (some c) none w = (failed, some c, w)
  cache_block_invalidate_file (some c) (some path) w =
      let dir_path = hash_dir c path in
      elim (fs.readdir w dir_path) [
        | none ↦ (ok, some c, w)
        | some names ↦
            let (c', w') =
              drop_matching c w dir_path (hex 16 (hash_path path) ++ bytes "-") names in
            (ok, some c', w')
      ]

-- The two numbers that are written through the pointers.
cache_block_get_stats : Option BlockCtx → Option (ℕ × ℕ)
cache_block_get_stats none = none
cache_block_get_stats (some c) = some (c.current_cache_size, c.max_cache_size)
