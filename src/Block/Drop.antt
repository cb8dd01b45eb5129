-- ===== src/Block/Drop.antt =====
-- The invalidations of src/cache_block.c: what `drop_block` and the loop over a range remove.
use native.Mathlib.Nat.{le-div_iff_mul-le, div-mul-le_self, le_trans}
use cachefs.Prelude.{
  ℕ, zero, suc, ◌+◌, ◌-◌, ◌/◌, ◌≤◌, ◌<◌, ◌^◌, ◌≡◌, ◌≢◌, refl, ◌∙◌, ap, false, inl, inr, Option,
  none, some, List, arith, Str, str_eq_iff, add64, add64-eq-add, Bool-cases, Option-cases, ◌==◌,
  ==_iff,
}
use cachefs.Posix.{ok}
use cachefs.Block.{BlockFs, BlockCtx, get_block_path}
use cachefs.Block.Operations.{
  drop_block, drop_blocks, cache_block_exists, cache_block_invalidate_range,
}
use cachefs.Block.Contract.{BlockFsLaws, IsUnlinkable}

div_mono : (x y k : ℕ) → 0 < k → x ≤ y → x / k ≤ y / k
div_mono x y k pos h = (le-div_iff_mul-le pos).1 (le_trans (div-mul-le_self x k) h)

module _ {W : Type 0} (fs : BlockFs W) (content : W → Str → Option (List ℕ))
    (laws : BlockFsLaws fs content) where
  pub stat_absent : (w : W) (p : Str) → content w p ≡ none → fs.stat w p ≡ none
  stat_absent w p h = ground (arith, laws.size-stat w p)

  pub absent_stat : (w : W) (p : Str) → fs.stat w p ≡ none → content w p ≡ none
  absent_stat w p h = ground (arith, laws.size-stat w p)

  pub exists_absent :
      (c : BlockCtx) (w : W) (path : Str) (i : ℕ)
      → content w (get_block_path c path i) ≡ none
      → cache_block_exists fs (some c) (some path) i w ≡ false
  unfolding cache_block_exists
  exists_absent c w path i h = rw (stat_absent w (get_block_path c path i) h, cache_block_exists)

  pub drop_block-paths :
      (c : BlockCtx) (w : W) (p path : Str) (i : ℕ)
      → get_block_path (drop_block fs c w p).0 path i ≡ get_block_path c path i
  unfolding drop_block get_block_path
  drop_block-paths c w p path i = ground arith

  pub content-drop_block_ne :
      (c : BlockCtx) (w : W) (p q : Str) → p ≢ q → content (drop_block fs c w p).1 q ≡ content w q
  unfolding drop_block
  content-drop_block_ne c w p q ne = elim (Option-cases (fs.unlink w p)) [
    | inl e ↦ ground arith
    | inr (w', e) ↦ ground (arith, laws.content-unlink_ne w w' p q)
  ]

  pub content-drop_block-none :
      (c : BlockCtx) (w : W) (p q : Str)
      → content w q ≡ none
      → content (drop_block fs c w p).1 q ≡ none
  unfolding drop_block
  content-drop_block-none c w p q h = elim (Option-cases (fs.unlink w p)) [
    | inl e ↦ ground arith
    | inr (w', e) ↦
        ground
          (arith, str_eq_iff p q, laws.content-unlink_ne w w' p q, laws.content-unlink_self w w' p)
  ]

  pub content-drop_block_self :
      (c : BlockCtx) (w : W) (p : Str)
      → fs.unlink w p ≢ none
      → content (drop_block fs c w p).1 p ≡ none
  unfolding drop_block
  content-drop_block_self c w p h = elim (Option-cases (fs.unlink w p)) [
    | inl e ↦ absurd (h e)
    | inr (w', e) ↦ ground (arith, laws.content-unlink_self w w' p, absent_stat w p)
  ]

  drop_blocks-paths :
      (c : BlockCtx) (w : W) (path : Str) (i rounds : ℕ) (other : Str) (j : ℕ)
      → get_block_path (drop_blocks fs c w path i rounds).0 other j ≡ get_block_path c other j
  unfolding drop_blocks
  drop_blocks-paths c w path i zero other j = refl
  drop_blocks-paths c w path i (suc rounds) other j =
      let p = get_block_path c path i in
      drop_blocks-paths (drop_block fs c w p).0 (drop_block fs c w p).1 path (suc i) rounds other j
      ∙ drop_block-paths c w p other j

  pub content-drop_blocks-none :
      (c : BlockCtx) (w : W) (path q : Str) (i rounds : ℕ)
      → content w q ≡ none
      → content (drop_blocks fs c w path i rounds).1 q ≡ none
  unfolding drop_blocks
  content-drop_blocks-none c w path q i zero h = h
  content-drop_blocks-none c w path q i (suc rounds) h =
      let p = get_block_path c path i in
      content-drop_blocks-none (drop_block fs c w p).0 (drop_block fs c w p).1 path q (suc i) rounds
        (content-drop_block-none c w p q h)

  -- A file that is none of the blocks of the range stays as it is.
  pub content-drop_blocks_ne :
      (c : BlockCtx) (w : W) (path q : Str) (i rounds : ℕ)
      → ((j : ℕ) → i ≤ j → j < i + rounds → get_block_path c path j ≢ q)
      → content (drop_blocks fs c w path i rounds).1 q ≡ content w q
  unfolding drop_blocks
  content-drop_blocks_ne c w path q i zero h = refl
  content-drop_blocks_ne c w path q i (suc rounds) h =
      let p = get_block_path c path i in
      content-drop_blocks_ne (drop_block fs c w p).0 (drop_block fs c w p).1 path q (suc i) rounds
        (λ j lo hi. rw (drop_block-paths c w p path j) (h j (omega arith) (omega arith)))
      ∙ content-drop_block_ne c w p q (h i (omega arith) (omega arith))

  module _ (unlinkable : IsUnlinkable fs content) where
    pub content-drop_block_gone :
        (c : BlockCtx) (w : W) (p : Str) → content (drop_block fs c w p).1 p ≡ none
    content-drop_block_gone c w p = elim (Option-cases (content w p)) [
      | inl e ↦ content-drop_block-none c w p p e
      | inr (b, e) ↦ content-drop_block_self c w p (unlinkable.unlinks w p (λ absent. ground arith))
    ]

    pub content-drop_blocks_gone :
        (c : BlockCtx) (w : W) (path : Str) (i rounds j : ℕ)
        → i ≤ j
        → j < i + rounds
        → content (drop_blocks fs c w path i rounds).1 (get_block_path c path j) ≡ none
    unfolding drop_blocks
    content-drop_blocks_gone c w path i zero j lo hi = absurd (omega arith)
    content-drop_blocks_gone c w path i (suc rounds) j lo hi =
        let p = get_block_path c path i in
        let c1 = (drop_block fs c w p).0 in
        let w1 = (drop_block fs c w p).1 in
        elim (Bool-cases (i == j)) [
          | inl e ↦
              content-drop_blocks-none c1 w1 path (get_block_path c path j) (suc i) rounds
                (rw (← (==_iff i j).0 e) (content-drop_block_gone c w p))
          | inr e ↦
              rw (← drop_block-paths c w p path j)
                (content-drop_blocks_gone c1 w1 path (suc i) rounds j (ground arith) (omega arith))
        ]

    -- Where files in the block directory can be unlinked, the block size is not 0 and the end of the
    -- written range fits in 64 bits: after `cache_block_invalidate_range` no block is left that holds
    -- a byte of the range, the call returns 0, and every file that is no block of the file from the
    -- first to the last touched index is as it was.
    pub invalidate_range_lem :
        (c : BlockCtx) (w : W) (path : Str) (offset size x : ℕ)
        → 0 < c.block_size
        → offset + size < 2 ^ 64
        → offset ≤ x
        → x < offset + size
        → (c' : BlockCtx) × (w' : W) × (cache_block_invalidate_range fs
              (some c)
              (some path)
              offset
              size
              w
            ≡ (ok, some c', w'))
          × (cache_block_exists fs (some c') (some path) (x / c.block_size) w' ≡ false)
          × ((q : Str)
              → ((j : ℕ)
                  → offset / c.block_size ≤ j
                  → j ≤ (offset + size) / c.block_size
                  → get_block_path c path j ≢ q)
              → content w' q ≡ content w q)
    unfolding cache_block_invalidate_range
    invalidate_range_lem c w path offset size x pos fits lo hi =
        let first = offset / c.block_size in
        let rounds = add64 offset size / c.block_size + 1 - first in
        let last : add64 offset size / c.block_size ≡ (offset + size) / c.block_size =
          ap (λ t. t / c.block_size) (add64-eq-add offset size fits) in
        let lower = div_mono offset x c.block_size pos lo in
        let upper = div_mono x (offset + size) c.block_size pos (omega arith) in
        let p = get_block_path c path (x / c.block_size) in
        let c' = (drop_blocks fs c w path first rounds).0 in
        let w' = (drop_blocks fs c w path first rounds).1 in
        let gone : content w' p ≡ none =
          content-drop_blocks_gone c w path first rounds (x / c.block_size) lower (omega arith) in
        (
          c',
          w',
          refl,
          exists_absent c' w' path (x / c.block_size) (
              ap (content w') (drop_blocks-paths c w path first rounds path (x / c.block_size))
              ∙ gone),
          λ q others.
              content-drop_blocks_ne c w path q first rounds
                (λ j from below. others j from (omega arith)),
        )
