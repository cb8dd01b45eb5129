-- ===== src/Block/ReadWrite.antt =====
-- `cache_block_write` and `cache_block_read` of src/cache_block.c: what is written is read back.
use cachefs.Prelude.{
  ℕ, ◌≤◌, ◌≡◌, ◌≢◌, refl, sym, ◌∙◌, ap, ◌⊎◌, inl, inr, Option, some, List, [], ◌∷◌, ◌++◌, length,
  take, drop, arith, ◌==◌, ==_iff, Str, add64, Bool-cases, Option-cases,
}
use cachefs.Posix.{ok}
use cachefs.Block.{BlockFs, BlockCtx, get_block_path}
use cachefs.Block.Operations.{
  before_last_slash, create_block_dir, mkdir_all, mkdir_each, account_write, write_file,
  cache_block_write, cache_block_read,
}
use cachefs.Block.Contract.{BlockFsLaws}

pub take-length {ℓ} : {A : Type ℓ} (xs : List A) → take (length xs) xs ≡ xs
take-length [] = refl
take-length (x ∷ xs) = ap (λ t. x ∷ t) (take-length xs)

-- A write of `size` bytes does not take the cache over its limit, so that nothing is evicted.
abbrev pub HasRoom : BlockCtx → ℕ → Type 0
HasRoom c size = (c.max_cache_size ≡ 0) ⊎ (add64 c.current_cache_size size ≤ c.max_cache_size)

module _ {W : Type 0} (fs : BlockFs W) (content : W → Str → Option (List ℕ))
    (laws : BlockFsLaws fs content) where
  content-mkdir_each :
      (w : W) (front rest q : Str) → content (mkdir_each fs w front rest) q ≡ content w q
  unfolding mkdir_each
  content-mkdir_each w front [] q = laws.content-mkdir w front q
  content-mkdir_each w front (c ∷ rest) q = elim (Bool-cases (c == b'/')) [
    | inl e ↦
        rw (e, mkdir_each)
          (content-mkdir_each (fs.mkdir w front) (front ++ c ∷ []) rest q
            ∙ laws.content-mkdir w front q)
    | inr e ↦ rw (e, mkdir_each) (content-mkdir_each w (front ++ c ∷ []) rest q)
  ]

  content-mkdir_all :
      (w : W) (front rest q : Str) → content (mkdir_all fs w front rest) q ≡ content w q
  unfolding mkdir_all
  content-mkdir_all w front [] q = laws.content-mkdir w front q
  content-mkdir_all w front (c ∷ rest) q = elim (Bool-cases (c == b'/')) [
    | inl e ↦ rw (e, mkdir_all) (content-mkdir_all w (front ++ c ∷ []) rest q)
    | inr e ↦ rw (e, mkdir_all) (content-mkdir_each w (front ++ c ∷ []) rest q)
  ]

  abbrev counted : BlockCtx → ℕ → BlockCtx
  counted c size = record c { current_cache_size = add64 c.current_cache_size size }

  account_write-HasRoom :
      (c : BlockCtx) (w : W) (n : ℕ) → HasRoom c n → account_write fs c w n ≡ (counted c n, w)
  unfolding account_write
  account_write-HasRoom c w n room = ground arith

  -- What a successful `write_file` did: the file was opened, and all of it was written.
  write_file_steps :
      (c c' : BlockCtx) (w w' : W) (p : Str) (b : List ℕ)
      → HasRoom c (length b)
      → write_file fs c w p b ≡ (ok, c', w')
      → (opened : W) × (fs.open_truncated w p ≡ some opened)
        × (fs.write opened p b ≡ (some (length b), w'))
        × (c' ≡ counted c (length b))
  unfolding write_file
  write_file_steps c c' w w' p b room h = elim (Option-cases (fs.open_truncated w p)) [
    | inl e ↦ absurd (ground arith)
    | inr (opened, e) ↦ elim (Option-cases (fs.write opened p b).0) [
      | inl f ↦ absurd (ground arith)
      | inr (n, f) ↦ elim (Bool-cases (n == length b)) [
        | inl g ↦
            let w1 = (fs.write opened p b).1 in
            let all : n ≡ length b = (==_iff n (length b)).0 g in
            let counts = account_write-HasRoom c w1 (length b) room in
            let final : w' ≡ w1 = ground (arith, counts) in
            (
              opened,
              e,
              (λ i. (f i, w1)) ∙ (λ i. (some (all i), sym final i)),
              ground (arith, counts),
            )
        | inr g ↦ absurd (ground arith)
      ]
    ]
  ]

  content-create_block_dir :
      (w made : W) (p q : Str) → create_block_dir fs w p ≡ some made → content made q ≡ content w q
  unfolding create_block_dir
  content-create_block_dir w made p q h = elim (Option-cases (before_last_slash p)) [
    | inl e ↦ absurd (ground arith)
    | inr (d, e) ↦ ground (arith, content-mkdir_all w [] d q)
  ]

  -- A successful `cache_block_write` with room: the file holds the bytes, they are counted, and
  -- every other file is as it was.
  pub write_lem :
      (c c' : BlockCtx) (w w' : W) (path : Str) (i : ℕ) (b : List ℕ)
      → HasRoom c (length b)
      → cache_block_write fs (some c) (some path) i (some b) w ≡ (ok, some c', w')
      → (c' ≡ counted c (length b))
        × (content w' (get_block_path c path i) ≡ some b)
        × ((q : Str) → get_block_path c path i ≢ q → content w' q ≡ content w q)
  unfolding cache_block_write create_block_dir
  write_lem c c' w w' path i b room h = elim (Option-cases (create_block_dir fs w p)) [
    | inl e ↦ absurd (ground arith)
    | inr (made, e) ↦
        let (opened, opens, writes, counts) =
          write_file_steps c c' made w' p b room (ground arith) in
        (
          counts,
          laws.content-write_self opened w' p b (length b) writes
                (laws.content-open_self made opened p opens)
              ∙ ap some (take-length b),
          λ q ne.
              ap (λ (t : Option ℕ × W). content t.1 q) (sym writes)
              ∙ laws.content-write_ne opened p q b ne
              ∙ laws.content-open_ne made opened p q opens ne
              ∙ content-create_block_dir w made p q e,
        )
  ]
    where
      p : Str
      p = get_block_path c path i

  -- Where nothing has to be evicted: after a `cache_block_write` that returns 0, `cache_block_read`
  -- of the same block returns the written bytes from the offset on, at most as many as asked for.
  pub read-write :
      (c c' : BlockCtx) (w w' : W) (path : Str) (i : ℕ) (b : List ℕ) (size offset : ℕ)
      → HasRoom c (length b)
      → cache_block_write fs (some c) (some path) i (some b) w ≡ (ok, some c', w')
      → cache_block_read fs (some c') (some path) i size offset w'
        ≡ some (take size (drop offset b))
  unfolding cache_block_read
  read-write c c' w w' path i b size offset room h =
      let (counts, holds, _) = write_lem c c' w w' path i b room h in
      let same : get_block_path c' path i ≡ get_block_path c path i =
        unfold get_block_path in ground (arith, counts) in
      rw (same, laws.can_open-some w' _ b holds) (laws.pread-content w' _ b size offset holds)
