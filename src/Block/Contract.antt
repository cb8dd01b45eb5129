-- ===== src/Block/Contract.antt =====
-- What src/cache_block.c relies on of the system: `content` is the bytes of the file at a path. Paths
-- in the block directory are names of distinct files, and the files can be read by their owner.
-- The laws are used at the paths of block files only; for a system where a directory has a size too,
-- `stat` and `content` are their restrictions to regular files.
use mathlib.Core.Option
use mathlib.Core.List.{Perm, Pairwise}
use cachefs.Prelude.{
  ℕ, ◌≡◌, ◌≢◌, true, false, Option, none, some, List, [], length, Str, take, drop,
}
use cachefs.Block.{FileInfo, BlockInfo, Sign, BlockFs, compare_block_atime}

pub record BlockFsLaws {W : Type 0} (fs : BlockFs W) (content : W → Str → Option (List ℕ))
    : Type 0 where
  pub content-mkdir : (w : W) (d p : Str) → content (fs.mkdir w d) p ≡ content w p
  pub size-stat :
      (w : W) (p : Str)
      → Option.map (λ (i : FileInfo). i.size) (fs.stat w p) ≡ Option.map length (content w p)
  pub content-unlink_self : (w w' : W) (p : Str) → fs.unlink w p ≡ some w' → content w' p ≡ none
  pub content-unlink_ne :
      (w w' : W) (p q : Str) → fs.unlink w p ≡ some w' → p ≢ q → content w' q ≡ content w q
  pub content-open_self :
      (w w' : W) (p : Str) → fs.open_truncated w p ≡ some w' → content w' p ≡ some []
  pub content-open_ne :
      (w w' : W) (p q : Str) → fs.open_truncated w p ≡ some w' → p ≢ q → content w' q ≡ content w q
  pub content-write_self :
      (w w' : W) (p : Str) (b : List ℕ) (n : ℕ)
      → fs.write w p b ≡ (some n, w')
      → content w p ≡ some []
      → content w' p ≡ some (take n b)
  pub content-write_ne :
      (w : W) (p q : Str) (b : List ℕ) → p ≢ q → content (fs.write w p b).1 q ≡ content w q
  pub can_open-some : (w : W) (p : Str) (b : List ℕ) → content w p ≡ some b → fs.can_open w p ≡ true
  pub can_open-none : (w : W) (p : Str) → content w p ≡ none → fs.can_open w p ≡ false
  pub pread-content :
      (w : W) (p : Str) (b : List ℕ) (n o : ℕ)
      → content w p ≡ some b
      → fs.pread w p n o ≡ some (take n (drop o b))

-- `qsort` sorts by the comparison of access times, and keeps the blocks.
pub record QsortLaws {W : Type 0} (fs : BlockFs W) : Type 0 where
  pub qsort-perm : (bs : List BlockInfo) → Perm (fs.qsort compare_block_atime bs) bs
  pub qsort-sorted :
      (bs : List BlockInfo)
      → Pairwise (λ a b. compare_block_atime a b ≢ Sign.positive) (fs.qsort compare_block_atime bs)

-- The directories are writable: a file that is there can be unlinked.
pub record IsUnlinkable {W : Type 0} (fs : BlockFs W) (content : W → Str → Option (List ℕ))
    : Type 0 where
  pub unlinks : (w : W) (p : Str) → content w p ≢ none → fs.unlink w p ≢ none
