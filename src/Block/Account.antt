-- ===== src/Block/Account.antt =====
-- `current_cache_size` of src/cache_block.c against the bytes of the block files: kept by both
-- invalidations, and counted twice where a block is written again.
use mathlib.Core.List.{
  Mem, Mem-prop, Pairwise, not-mem-nil, eq-or-mem_of_mem-cons, rel_of_Pairwise-cons, mem-cons_self,
  mem-cons_of_mem,
}
use mathlib.Core.List.Pairwise
use mathlib.Core.Logic.Or
use cachefs.Prelude.{
  ℕ, zero, suc, ◌+◌, ◌-◌, ◌<◌, ◌/◌, ◌^◌, ◌≡◌, ◌≢◌, refl, sym, ◌∙◌, ap, inl, inr, Option, none, some,
  List, [], ◌∷◌, ◌++◌, arith, length, Str, bytes, str_eq, str_eq_iff, str_eq_sound, has_prefix,
  add64, add64-eq-add, sub64-eq-sub, Bool-cases, Option-cases,
}
use cachefs.Posix.{ok}
use cachefs.Block.{BlockFs, BlockCtx, get_block_path, snprintf_path, hash_path, hex}
use cachefs.Block.Operations.{
  hash_dir, drop_block, drop_blocks, drop_matching, cache_block_write, cache_block_invalidate_range,
  cache_block_invalidate_file,
}
use cachefs.Block.Contract.{BlockFsLaws}
use cachefs.Block.ReadWrite.{HasRoom, write_lem}
use cachefs.Block.Drop.{drop_block-paths}

abbrev pub size_of : Option (List ℕ) → ℕ
size_of none = 0
size_of (some b) = length b

module _ {W : Type 0} (content : W → Str → Option (List ℕ)) where
  -- The bytes of the files at the given paths.
  abbrev pub total_bytes : W → List Str → ℕ
  total_bytes w [] = 0
  total_bytes w (p ∷ ps) = size_of (content w p) + total_bytes w ps

  total_bytes-eq :
      (w w' : W) (ps : List Str)
      → ((q : Str) → Mem q ps → content w' q ≡ content w q)
      → total_bytes w' ps ≡ total_bytes w ps
  total_bytes-eq w w' [] same = refl
  total_bytes-eq w w' (p ∷ ps) same = omega (
    arith,
    ap size_of (same p mem-cons_self),
    total_bytes-eq w w' ps (λ q m. same q (mem-cons_of_mem p m)),
  )

  -- One file goes: the total falls by its bytes.
  total_bytes-drop :
      (w w' : W) (p : Str) (ps : List Str)
      → Pairwise ◌≢◌ ps
      → (content w p ≢ none → Mem p ps)
      → ((q : Str) → p ≢ q → content w' q ≡ content w q)
      → content w' p ≡ none
      → total_bytes w ps ≡ size_of (content w p) + total_bytes w' ps
  total_bytes-drop w w' p [] distinct listed others gone = elim (Option-cases (content w p)) [
    | inl e ↦ ground arith
    | inr (b, e) ↦ absurd (not-mem-nil (listed (λ absent. ground arith)))
  ]
  total_bytes-drop w w' p (q ∷ qs) distinct listed others gone = elim (Bool-cases (str_eq p q)) [
    | inl e ↦
        let here : p ≡ q = str_eq_sound p q e in
        let rest =
          total_bytes-eq w w' qs
            (λ r m. others r (λ same. rel_of_Pairwise-cons distinct m (sym here ∙ same))) in
        omega (
          arith,
          rest,
          ap size_of gone,
          ap (λ t. size_of (content w t)) here,
          ap (λ t. size_of (content w' t)) here,
        )
    | inr e ↦
        let ne : p ≢ q = λ same. ground (arith, str_eq_iff p q) in
        omega (
          arith,
          ap size_of (others q ne),
          total_bytes-drop w w' p qs (Pairwise.of_cons distinct)
              (λ there.
                Or.elim Mem-prop (eq-or-mem_of_mem-cons (listed there)) (λ same. absurd (ne same))
                  (λ m. m))
              others gone,
        )
  ]

  -- The counted size is the number of bytes in the block files, which `ps` lists.
  pub record IsAccounted (Owned : Str → Type 0) (ps : List Str) (c : BlockCtx) (w : W)
      : Type 0 where
    pub counts : c.current_cache_size ≡ total_bytes w ps
    pub fits : c.current_cache_size < 2 ^ 64
    pub listed : (q : Str) → Owned q → content w q ≢ none → Mem q ps

module _ {W : Type 0} (fs : BlockFs W) (content : W → Str → Option (List ℕ))
    (laws : BlockFsLaws fs content) where
  module _ (Owned : Str → Type 0) (ps : List Str) (distinct : Pairwise ◌≢◌ ps) where
    drop_block-IsAccounted :
        (c : BlockCtx) (w : W) (p : Str)
        → Owned p
        → IsAccounted content Owned ps c w
        → IsAccounted content Owned ps (drop_block fs c w p).0 (drop_block fs c w p).1
    unfolding drop_block
    drop_block-IsAccounted c w p owned h = elim (Option-cases (fs.stat w p)) [
      | inl e ↦ rw (e, drop_block) h
      | inr (st, e) ↦ elim (Option-cases (fs.unlink w p)) [
        | inl f ↦ rw (e, f, drop_block) h
        | inr (w', f) ↦
            let size : st.size ≡ size_of (content w p) = ground (arith, laws.size-stat w p) in
            let falls =
              total_bytes-drop content w w' p ps distinct (h.listed p owned)
                (λ q ne. laws.content-unlink_ne w w' p q f ne)
                (laws.content-unlink_self w w' p f) in
            let sub =
              sub64-eq-sub c.current_cache_size st.size (omega (arith, h.counts, falls, size))
                h.fits in
            rw (e, f, drop_block)
              (record {
                counts = omega (arith, h.counts, falls, size, sub);
                fits = omega (arith, sub, h.fits);
                listed = λ q own there. elim (Bool-cases (str_eq p q)) [
                  | inl same ↦
                      absurd
                        (there (rw (← str_eq_sound p q same) (laws.content-unlink_self w w' p f)))
                  | inr other ↦ h.listed q own (λ absent. there (
                      laws.content-unlink_ne w w' p q f (λ s. ground (arith, str_eq_iff p q))
                      ∙ absent))
                ];
              })
      ]
    ]

    drop_blocks-IsAccounted :
        (c : BlockCtx) (w : W) (path : Str) (i rounds : ℕ)
        → ((j : ℕ) → Owned (get_block_path c path j))
        → IsAccounted content Owned ps c w
        → IsAccounted content Owned ps
            (drop_blocks fs c w path i rounds).0
            (drop_blocks fs c w path i rounds).1
    unfolding drop_blocks
    drop_blocks-IsAccounted c w path i zero own h = h
    drop_blocks-IsAccounted c w path i (suc rounds) own h =
        let p = get_block_path c path i in
        drop_blocks-IsAccounted (drop_block fs c w p).0 (drop_block fs c w p).1 path (suc i) rounds
          (λ j. rw (drop_block-paths fs content laws c w p path j) (own j))
          (drop_block-IsAccounted c w p (own i) h)

    drop_matching-IsAccounted :
        (c : BlockCtx) (w : W) (dir prefix : Str) (names : List Str)
        → ((n : Str) → Owned (snprintf_path (dir ++ bytes "/" ++ n)))
        → IsAccounted content Owned ps c w
        → IsAccounted content Owned ps
            (drop_matching fs c w dir prefix names).0
            (drop_matching fs c w dir prefix names).1
    unfolding drop_matching
    drop_matching-IsAccounted c w dir prefix [] own h = h
    drop_matching-IsAccounted c w dir prefix (n ∷ ns) own h =
        elim (Bool-cases (has_prefix prefix n)) [
          | inl e ↦
              rw (e, drop_matching)
                (drop_matching-IsAccounted
                  (drop_block fs c w (snprintf_path (dir ++ bytes "/" ++ n))).0
                  (drop_block fs c w (snprintf_path (dir ++ bytes "/" ++ n))).1 dir prefix ns own
                  (drop_block-IsAccounted c w (snprintf_path (dir ++ bytes "/" ++ n)) (own n) h))
          | inr e ↦ rw (e, drop_matching) (drop_matching-IsAccounted c w dir prefix ns own h)
        ]

    -- If the counted size is the number of bytes in the block files, which the list names without
    -- repetition, then it still is after `cache_block_invalidate_range` of a file whose blocks are
    -- such files.
    pub invalidate_range-IsAccounted :
        (c c' : BlockCtx) (w w' : W) (path : Str) (offset size : ℕ)
        → ((j : ℕ) → Owned (get_block_path c path j))
        → IsAccounted content Owned ps c w
        → cache_block_invalidate_range fs (some c) (some path) offset size w ≡ (ok, some c', w')
        → IsAccounted content Owned ps c' w'
    unfolding cache_block_invalidate_range
    invalidate_range-IsAccounted c c' w w' path offset size own h runs =
        let first = offset / c.block_size in
        let rounds = add64 offset size / c.block_size + 1 - first in
        let same : c' ≡ (drop_blocks fs c w path first rounds).0 = ground arith in
        let same' : w' ≡ (drop_blocks fs c w path first rounds).1 = ground arith in
        rw (same, same') (drop_blocks-IsAccounted c w path first rounds own h)

    -- If the counted size is the number of bytes in the block files, which the list names without
    -- repetition, then it still is after `cache_block_invalidate_file` of a file in whose hash
    -- directory every name is such a file.
    pub invalidate_file-IsAccounted :
        (c c' : BlockCtx) (w w' : W) (path : Str)
        → ((n : Str) → Owned (snprintf_path (hash_dir c path ++ bytes "/" ++ n)))
        → IsAccounted content Owned ps c w
        → cache_block_invalidate_file fs (some c) (some path) w ≡ (ok, some c', w')
        → IsAccounted content Owned ps c' w'
    unfolding cache_block_invalidate_file
    invalidate_file-IsAccounted c c' w w' path own h runs =
        elim (Option-cases (fs.readdir w (hash_dir c path))) [
          | inl e ↦
              let same : c' ≡ c = ground arith in
              let same' : w' ≡ w = ground arith in rw (same, same') h
          | inr (names, e) ↦
              let prefix = hex 16 (hash_path path) ++ bytes "-" in
              let r = drop_matching fs c w (hash_dir c path) prefix names in
              let same : c' ≡ r.0 = ground arith in
              let same' : w' ≡ r.1 = ground arith in
              rw (same, same') (drop_matching-IsAccounted c w (hash_dir c path) prefix names own h)
        ]

  -- Where nothing has to be evicted and the sum fits: a `cache_block_write` that returns 0 counts
  -- the bytes of the block that was there before once more than there are: the counted size is then
  -- the bytes in the block files plus the size of the old block, 0 for a new one.
  pub write_counts_old_block :
      (c c' : BlockCtx) (w w' : W) (path : Str) (i : ℕ) (b : List ℕ) (rest : List Str)
      → Pairwise ◌≢◌ (get_block_path c path i ∷ rest)
      → c.current_cache_size ≡ total_bytes content w (get_block_path c path i ∷ rest)
      → c.current_cache_size + length b < 2 ^ 64
      → HasRoom c (length b)
      → cache_block_write fs (some c) (some path) i (some b) w ≡ (ok, some c', w')
      → c'.current_cache_size
        ≡ total_bytes content w' (get_block_path c path i ∷ rest)
          + size_of (content w (get_block_path c path i))
  write_counts_old_block c c' w w' path i b rest distinct counts fits room runs =
      let p = get_block_path c path i in
      let (after, holds, others) = write_lem fs content laws c c' w w' path i b room runs in
      let kept =
        total_bytes-eq content w w' rest (λ q m. others q (rel_of_Pairwise-cons distinct m)) in
      omega (
        arith,
        ap (λ (d : BlockCtx). d.current_cache_size) after,
        add64-eq-add c.current_cache_size (length b) fits,
        ap size_of holds,
        kept,
        counts,
      )
