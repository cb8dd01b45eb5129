-- ===== src/Block.antt =====
-- src/cache_block.h and src/cache_block.c: the cache of file blocks, one file for each block under
-- `blocks_dir`. `BlockFs` is what the code calls of the system; every call takes the system's state
-- and gives it back. Children prove the properties.
mod Names
pub mod Operations
pub mod Contract
pub mod ReadWrite
pub mod Collision
pub mod Drop
pub mod Evict
pub mod Oldest
pub mod Account
pub mod Sample
mod Tests
unfoldable pub use Names.*
use cachefs.Prelude.{
  ℕ, suc, ◌+◌, ◌-◌, ◌*◌, ◌/◌, ◌≡◌, Bool, true, false, not, ◌&&◌, Option, none, some, List, [], ◌∷◌,
  ◌++◌, map, length, ltb, ◌==◌, if◌then◌else◌, Str, bytes, str_eq, take, add64, sub64,
}
pub use cachefs.Posix.{Sign, negative, zero, positive}
use cachefs.Posix.{Status, ok, failed}

-- The fields of `struct stat` that the block cache reads.
pub record FileInfo : Type 0 where
  pub size : ℕ
  pub atime : ℕ

pub record BlockInfo : Type 0 where
  pub path : Str
  pub atime : ℕ
  pub size : ℕ

pub record BlockFs (W : Type 0) : Type 0 where
  -- mkdir: its result is not looked at
  pub mkdir : W → Str → W
  pub stat : W → Str → Option FileInfo
  pub unlink : W → Str → Option W
  -- open with O_WRONLY | O_CREAT | O_TRUNC
  pub open_truncated : W → Str → Option W
  -- write to a file so opened: the number of bytes, `none` for -1
  pub write : W → Str → List ℕ → Option ℕ × W
  -- open with O_RDONLY
  pub can_open : W → Str → Bool
  pub pread : W → Str → ℕ → ℕ → Option (List ℕ)
  -- opendir, and the names that readdir gives until it returns NULL
  pub readdir : W → Str → Option (List Str)
  pub qsort : (BlockInfo → BlockInfo → Sign) → List BlockInfo → List BlockInfo

-- `struct cache_block_ctx`, without its debug flag.
pub record BlockCtx : Type 0 where
  pub blocks_dir : Str
  pub block_size : ℕ
  pub max_cache_size : ℕ
  pub current_cache_size : ℕ

abbrev pub default_block_size : ℕ
default_block_size = 262144

unfoldable pub get_block_path : BlockCtx → Str → ℕ → Str
get_block_path c path block_idx =
    let hash = hash_path path in
    snprintf_path (
      c.blocks_dir
      ++ bytes "/"
      ++ hex 2 (hash / 256)
      ++ bytes "/"
      ++ hex 2 hash
      ++ bytes "/"
      ++ hex 16 hash
      ++ bytes "-"
      ++ decimal block_idx)

-- Oldest first.
unfoldable pub compare_block_atime : BlockInfo → BlockInfo → Sign
compare_block_atime ba bb =
    if ltb ba.atime bb.atime then negative else if ltb bb.atime ba.atime then positive else zero

is_hidden : Str → Bool
is_hidden [] = false
is_hidden (c ∷ cs) = c == b'.'

-- The paths that one readdir loop goes on with.
visible : Str → List Str → List Str
visible dir [] = []
visible dir (n ∷ ns) =
    let rest = visible dir ns in
    if is_hidden n then rest else snprintf_path (dir ++ bytes "/" ++ n) ∷ rest

abbrev concat_map {ℓ κ} : {A : Type ℓ} {B : Type κ} → (A → List B) → List A → List B
concat_map f [] = []
concat_map f (x ∷ xs) = f x ++ concat_map f xs

module _ {W : Type 0} (fs : BlockFs W) where
  -- One opendir and its readdir loop; a directory that cannot be opened is passed over.
  children : W → Str → List Str
  unfolding visible is_hidden
  children w dir = elim (fs.readdir w dir) [ none ↦ [] | some names ↦ visible dir names ]

  -- The paths that the three nested loops reach from `blocks_dir`.
  pub block_files : W → Str → List Str
  unfolding children
  block_files w blocks_dir =
      concat_map (λ l1. concat_map (λ l2. children w l2) (children w l1)) (children w blocks_dir)

  sum_sizes : W → ℕ → List Str → ℕ
  sum_sizes w total [] = total
  sum_sizes w total (p ∷ ps) =
      sum_sizes w (elim (fs.stat w p) [ none ↦ total | some st ↦ add64 total st.size ]) ps

  unfoldable pub calculate_cache_size : W → Str → ℕ
  unfolding block_files sum_sizes
  calculate_cache_size w blocks_dir = sum_sizes w 0 (block_files w blocks_dir)

  -- The array that `evict_lru_blocks` fills.
  unfoldable pub collect : W → List Str → List BlockInfo
  collect w [] = []
  collect w (p ∷ ps) =
      let rest = collect w ps in
      elim (fs.stat w p) [
        | none ↦ rest
        | some st ↦ record { path = p; atime = st.atime; size = st.size } ∷ rest
      ]

  -- The loop that unlinks from the oldest block on, with `evicted_size`.
  unfoldable pub evict_loop : W → ℕ → ℕ → ℕ → List BlockInfo → W × ℕ
  evict_loop w current target evicted [] = (w, evicted)
  evict_loop w current target evicted (b ∷ bs) = elim (ltb target (sub64 current evicted)) [
    | false ↦ (w, evicted)
    | true ↦ elim (fs.unlink w b.path) [
      | none ↦ evict_loop w current target evicted bs
      | some w' ↦ evict_loop w' current target (add64 evicted b.size) bs
    ]
  ]

  -- The array as `evict_lru_blocks` goes through it.
  unfoldable pub oldest_first : W → Str → List BlockInfo
  unfolding collect block_files compare_block_atime
  oldest_first w blocks_dir = fs.qsort compare_block_atime (collect w (block_files w blocks_dir))

  unfoldable pub evict_lru_blocks : BlockCtx → W → ℕ → Status × BlockCtx × W
  unfolding oldest_first evict_loop
  evict_lru_blocks c w target_size =
      if ltb target_size c.current_cache_size
      then elim (fs.readdir w c.blocks_dir) [
        | none ↦ (failed, c, w)
        | some _ ↦
            let (w', evicted) =
              evict_loop w c.current_cache_size target_size 0 (oldest_first w c.blocks_dir) in
            (ok, record c { current_cache_size = sub64 c.current_cache_size evicted }, w')
      ]
      else (ok, c, w)
