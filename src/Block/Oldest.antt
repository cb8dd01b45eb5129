-- ===== src/Block/Oldest.antt =====
-- Which blocks `evict_lru_blocks` of src/cache_block.c removes, and when it stops.
use mathlib.Core.List.{
  mem-append_left, Mem, Pairwise, mem-cons_self, mem-cons_of_mem, rel_of_Pairwise-cons,
  Pairwise-append,
}
use mathlib.Core.List.Pairwise
use mathlib.Core.List.Perm
use native.Mathlib.Bridge.{le_prop}
use cachefs.Prelude.{
  ℕ, ◌+◌, ◌-◌, ◌≤◌, ◌<◌, ◌^◌, ◌≡◌, ◌≢◌, refl, sym, ◌∙◌, ap, ◌⊎◌, inl, inr, Option, none, some, List,
  [], ◌∷◌, ◌++◌, All, arith, ltb, Str, add64, sub64, add64-eq-add, sub64-eq-sub, Bool-cases,
  Option-cases,
}
use cachefs.Posix.{ok}
use cachefs.Block.{
  BlockInfo, Sign, BlockFs, BlockCtx, compare_block_atime, collect, block_files, oldest_first,
  evict_loop, evict_lru_blocks,
}
use cachefs.Block.Contract.{BlockFsLaws, QsortLaws, IsUnlinkable}
use cachefs.Block.Evict.{total_size, collect-present}

not_positive : (a b : BlockInfo) → compare_block_atime a b ≢ Sign.positive → a.atime ≤ b.atime
unfolding compare_block_atime
not_positive a b h = ground arith

-- Before each of the blocks the size that is left is above the target.
abbrev pub AreNeeded : ℕ → ℕ → List BlockInfo → Type 0
AreNeeded target size [] = Unit
AreNeeded target size (b ∷ bs) = (target < size) × AreNeeded target (size - b.size) bs

module _ {W : Type 0} (content : W → Str → Option (List ℕ)) where
  -- From a world with a counted size to another, the blocks before a point of a list are removed and
  -- those after it are not; a block is removed only while the size that is left is above the target.
  pub record IsEvicted (w w' : W) (size size' target : ℕ) (blocks gone spared : List BlockInfo)
      : Type 0 where
    pub split : blocks ≡ gone ++ spared
    pub removed : All (λ b. content w' b.path ≡ none) gone
    pub untouched :
        (q : Str) → ((b : BlockInfo) → Mem b gone → b.path ≢ q) → content w' q ≡ content w q
    pub counted : size' ≡ size - total_size gone
    pub needed : AreNeeded target size gone
    pub stops : (spared ≡ []) ⊎ (size' ≤ target)

  module _ (fs : BlockFs W) (laws : BlockFsLaws fs content)
      (unlinkable : IsUnlinkable fs content) where
    IsEvicted-cons :
        (w w1 w' : W) (size size1 size' target : ℕ) (b : BlockInfo)
        (bs gone spared : List BlockInfo)
        → fs.unlink w b.path ≡ some w1
        → ((a : BlockInfo) → Mem a bs → b.path ≢ a.path)
        → target < size
        → size1 ≡ size - b.size
        → IsEvicted w1 w' size1 size' target bs gone spared
        → IsEvicted w w' size size' target (b ∷ bs) (b ∷ gone) spared
    IsEvicted-cons w w1 w' size size1 size' target b bs gone spared unlinked distinct above less e =
        record {
          split = ap (λ t. b ∷ t) e.split;
          removed = (
            e.untouched b.path
                  (λ a m same. distinct a (rw e.split (mem-append_left spared m)) (sym same))
                ∙ laws.content-unlink_self w w1 b.path unlinked,
            e.removed,
          );
          untouched = λ q others.
              e.untouched q (λ a m. others a (mem-cons_of_mem b m))
              ∙ laws.content-unlink_ne w w1 b.path q unlinked (others b mem-cons_self);
          counted = omega (arith, e.counted, less);
          needed = (above, rw less at e.needed);
          stops = e.stops;
        }

    IsEvicted-none :
        (w : W) (current target evicted : ℕ) (bs : List BlockInfo)
        → evicted ≤ current
        → current < 2 ^ 64
        → (bs ≡ []) ⊎ (sub64 current evicted ≤ target)
        → IsEvicted w w (current - evicted) (sub64 current evicted) target bs [] bs
    IsEvicted-none w current target evicted bs le fits stops = record {
      split = refl;
      removed = tt;
      untouched = λ q others. refl;
      counted = omega (arith, sub64-eq-sub current evicted le fits);
      needed = tt;
      stops = stops;
    }

    -- The loop over blocks that are there, at distinct paths, with sizes that are counted.
    evict_loop-IsEvicted :
        (w : W) (current target evicted : ℕ) (bs : List BlockInfo)
        → ((b : BlockInfo) → Mem b bs → content w b.path ≢ none)
        → Pairwise (λ (a b : BlockInfo). a.path ≢ b.path) bs
        → evicted + total_size bs ≤ current
        → current < 2 ^ 64
        → (gone : List BlockInfo) × (spared : List BlockInfo) × IsEvicted w
            (evict_loop fs w current target evicted bs).0
            (current - evicted)
            (sub64 current (evict_loop fs w current target evicted bs).1)
            target
            bs
            gone
            spared
    unfolding evict_loop
    evict_loop-IsEvicted w current target evicted [] present distinct counts fits =
        ([], [], IsEvicted-none w current target evicted [] (omega arith) fits (inl refl))
    evict_loop-IsEvicted w current target evicted (b ∷ bs) present distinct counts fits =
        elim (Bool-cases (ltb target (sub64 current evicted))) [
          | inr done ↦
              rw (done, evict_loop)
                (
                  [],
                  b ∷ bs,
                  IsEvicted-none w current target evicted (b ∷ bs) (omega arith) fits
                      (inr (ground arith)),
                )
          | inl more ↦ elim (Option-cases (fs.unlink w b.path)) [
            | inl e ↦ absurd (unlinkable.unlinks w b.path (present b mem-cons_self) e)
            | inr (w1, e) ↦
                let apart : (a : BlockInfo) → Mem a bs → b.path ≢ a.path =
                  λ a m. rel_of_Pairwise-cons distinct m in
                let sum = add64-eq-add evicted b.size (omega arith) in
                let (gone, spared, later) =
                  evict_loop-IsEvicted w1 current target (add64 evicted b.size) bs
                    (λ a m absent.
                      present a (mem-cons_of_mem b m)
                        (sym (laws.content-unlink_ne w w1 b.path a.path e (apart a m)) ∙ absent))
                    (Pairwise.of_cons distinct) (omega (arith, sum)) fits in
                rw (more, e, evict_loop)
                  (
                    b ∷ gone,
                    spared,
                    IsEvicted-cons w w1 _ (current - evicted) _ _ target b bs gone spared e apart
                        (ground (arith, sub64-eq-sub current evicted (omega arith) fits))
                        (omega (arith, sum)) later,
                  )
          ]
        ]

    -- Where files in the block directory can be unlinked and `qsort` sorts the blocks and keeps them:
    -- if the sizes of the block files, which have distinct paths, come to at most the counted size,
    -- which is above the target, and the directory can be opened, then the blocks in the order of
    -- their access times split in two parts. `evict_lru_blocks` returns 0 and removes each file of
    -- the first part and no other; no block of the first part was read later than one of the second;
    -- before each removal the size that was left was above the target; the counted size is less by
    -- the sizes of the first part; and it is at most the target, unless the second part is empty.
    pub evict-oldest :
        (sorts : QsortLaws fs) (c : BlockCtx) (w : W) (target : ℕ)
        → fs.readdir w c.blocks_dir ≢ none
        → Pairwise (λ (a b : BlockInfo). a.path ≢ b.path) (oldest_first fs w c.blocks_dir)
        → total_size (oldest_first fs w c.blocks_dir) ≤ c.current_cache_size
        → target < c.current_cache_size
        → c.current_cache_size < 2 ^ 64
        → (gone : List BlockInfo) × (spared : List BlockInfo) × ((evict_lru_blocks fs c w target).0
            ≡ ok)
          × IsEvicted w
              (evict_lru_blocks fs c w target).2
              c.current_cache_size
              (evict_lru_blocks fs c w target).1.current_cache_size
              target
              (oldest_first fs w c.blocks_dir)
              gone
              spared
          × ((a : BlockInfo) → Mem a gone → (b : BlockInfo) → Mem b spared → a.atime ≤ b.atime)
    unfolding evict_lru_blocks
    evict-oldest sorts c w target opens distinct counts above fits =
        let bs = oldest_first fs w c.blocks_dir in
        let (gone, spared, e) =
          evict_loop-IsEvicted w c.current_cache_size target 0 bs
            (unfold oldest_first in
              λ b m. collect-present fs content laws w (block_files fs w c.blocks_dir) b (
                (Perm.mem_iff (sorts.qsort-perm (collect fs w (block_files fs w c.blocks_dir)))).0
                  m))
            distinct (omega arith) fits in
        let sorted : Pairwise (λ (a b : BlockInfo). a.atime ≤ b.atime) (gone ++ spared) =
          rw (← e.split) (
            unfold oldest_first in
            Pairwise.imp not_positive
              (sorts.qsort-sorted (collect fs w (block_files fs w c.blocks_dir)))) in
        let runs : evict_lru_blocks fs c w target ≡ (
          ok,
          record c {
            current_cache_size =
                sub64 c.current_cache_size (evict_loop fs w c.current_cache_size target 0 bs).1;
          },
          (evict_loop fs w c.current_cache_size target 0 bs).0,
        ) =
          ground arith in
        let none_yet : c.current_cache_size - 0 ≡ c.current_cache_size = omega arith in
        rw runs
          (gone, spared, refl, rw none_yet at e, ((Pairwise-append (λ a b. le_prop)).0 sorted).2)
