-- ===== src/Block/Evict.antt =====
-- `evict_lru_blocks` of src/cache_block.c: the oldest blocks go first, and the size comes down to the
-- target.
use mathlib.Core.List.{
  Mem, Pairwise, not-mem-nil, eq-or-mem_of_mem-cons, mem-cons_self, mem-cons_of_mem,
  rel_of_Pairwise-cons,
}
use mathlib.Core.List.Pairwise
use mathlib.Core.List.Perm
use mathlib.Core.Logic.Or
use mathlib.Core.HLevel.{⊥_prop}
use cachefs.Prelude.{
  ℕ, ◌+◌, ◌-◌, ◌≤◌, ◌<◌, ◌^◌, ◌≡◌, ◌≢◌, sym, ◌∙◌, inl, inr, Option, none, List, [], ◌∷◌, arith, ltb,
  Str, add64, sub64, add64-eq-add, sub64-eq-sub, Bool-cases, Option-cases,
}
use cachefs.Posix.{ok}
use cachefs.Block.{
  BlockInfo, BlockFs, BlockCtx, collect, block_files, oldest_first, evict_loop, evict_lru_blocks,
}
use cachefs.Block.Contract.{BlockFsLaws, QsortLaws, IsUnlinkable}

abbrev pub total_size : List BlockInfo → ℕ
total_size [] = 0
total_size (b ∷ bs) = b.size + total_size bs

module _ {W : Type 0} (fs : BlockFs W) (content : W → Str → Option (List ℕ))
    (laws : BlockFsLaws fs content) where
  pub collect-present :
      (w : W) (ps : List Str) (b : BlockInfo) → Mem b (collect fs w ps) → content w b.path ≢ none
  unfolding collect
  collect-present w [] b m = absurd (not-mem-nil m)
  collect-present w (p ∷ ps) b m = elim (Option-cases (fs.stat w p)) [
    | inl e ↦ collect-present w ps b (rw (e, collect) at m)
    | inr (st, e) ↦ λ absent.
        Or.elim ⊥_prop (eq-or-mem_of_mem-cons (rw (e, collect) at m))
          (λ here. ground (arith, laws.size-stat w p))
          (λ there. collect-present w ps b there absent)
  ]

  module _ (unlinkable : IsUnlinkable fs content) where
    -- The loop over blocks that are there, at distinct paths, whose sizes are what is still counted.
    evict_loop-target :
        (w : W) (current target evicted : ℕ) (bs : List BlockInfo)
        → ((b : BlockInfo) → Mem b bs → content w b.path ≢ none)
        → Pairwise (λ (a b : BlockInfo). a.path ≢ b.path) bs
        → evicted + total_size bs ≡ current
        → current < 2 ^ 64
        → ((evict_loop fs w current target evicted bs).1 ≤ current)
          × (current - (evict_loop fs w current target evicted bs).1 ≤ target)
    unfolding evict_loop
    evict_loop-target w current target evicted [] present distinct counts fits = omega arith
    evict_loop-target w current target evicted (b ∷ bs) present distinct counts fits =
        elim (Bool-cases (ltb target (sub64 current evicted))) [
          | inr done ↦ rw (done, evict_loop) (ground (arith, sub64-eq-sub current evicted))
          | inl more ↦ elim (Option-cases (fs.unlink w b.path)) [
            | inl e ↦ absurd (unlinkable.unlinks w b.path (present b mem-cons_self) e)
            | inr (w1, e) ↦
                rw (more, e, evict_loop)
                  (evict_loop-target w1 current target (add64 evicted b.size) bs
                    (λ a m gone. present a (mem-cons_of_mem b m) (
                      sym (
                        laws.content-unlink_ne w w1 b.path a.path e
                          (rel_of_Pairwise-cons distinct m))
                      ∙ gone))
                    (Pairwise.of_cons distinct)
                    (omega (arith, add64-eq-add evicted b.size (omega arith))) fits)
          ]
        ]

    -- Where files in the block directory can be unlinked and `qsort` keeps the blocks: if the counted
    -- size is the sum of the sizes of the block files, which have distinct paths, and the directory
    -- can be opened, then `evict_lru_blocks` returns 0 and the counted size is at most the target
    -- afterwards.
    pub evict-le-target :
        (sorts : QsortLaws fs) (c : BlockCtx) (w : W) (target : ℕ)
        → fs.readdir w c.blocks_dir ≢ none
        → Pairwise (λ (a b : BlockInfo). a.path ≢ b.path) (oldest_first fs w c.blocks_dir)
        → total_size (oldest_first fs w c.blocks_dir) ≡ c.current_cache_size
        → c.current_cache_size < 2 ^ 64
        → ((evict_lru_blocks fs c w target).0 ≡ ok)
          × ((evict_lru_blocks fs c w target).1.current_cache_size ≤ target)
    unfolding evict_lru_blocks
    evict-le-target sorts c w target opens distinct counts fits =
        let bs = oldest_first fs w c.blocks_dir in
        let down =
          evict_loop-target w c.current_cache_size target 0 bs
            (unfold oldest_first in
              λ b m. collect-present w (block_files fs w c.blocks_dir) b (
                (Perm.mem_iff (sorts.qsort-perm (collect fs w (block_files fs w c.blocks_dir)))).0
                  m))
            distinct (omega arith) fits in
        ground (
          arith,
          sub64-eq-sub c.current_cache_size (evict_loop fs w c.current_cache_size target 0 bs).1
              down.0 fits,
        )
