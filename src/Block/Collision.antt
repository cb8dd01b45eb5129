-- ===== src/Block/Collision.antt =====
-- `hash_path` of src/cache_block.c gives many pairs of paths one hash, and a block file is named by
-- the hash alone.
use cachefs.Prelude.{
  ℕ, ◌+◌, ◌*◌, ◌<◌, ◌%◌, ◌^◌, ◌≡◌, refl, Option, some, List, [], ◌∷◌, ◌++◌, length, take, drop,
  arith, Str,
}
use cachefs.Posix.{ok}
use cachefs.Block.{BlockFs, BlockCtx, char_value, hash_from, hash_path, get_block_path}
use cachefs.Block.Operations.{cache_block_write, cache_block_read}
use cachefs.Block.Contract.{BlockFsLaws}
use cachefs.Block.ReadWrite.{HasRoom, read-write}

hash_from-append : (h : ℕ) (xs ys : Str) → hash_from h (xs ++ ys) ≡ hash_from (hash_from h xs) ys
unfolding hash_from
hash_from-append h [] ys = refl
hash_from-append h (x ∷ xs) ys = hash_from-append ((h * 32 + h + char_value x) % 2 ^ 64) xs ys

char_value_ascii : (c : ℕ) → c < 128 → char_value c ≡ c
unfolding char_value
char_value_ascii c h = ground arith

two_chars :
    (h a b : ℕ)
    → ((h * 32 + h + a) % 2 ^ 64 * 32 + (h * 32 + h + a) % 2 ^ 64 + (b + 33)) % 2 ^ 64
      ≡ ((h * 32 + h + (a + 1)) % 2 ^ 64 * 32 + (h * 32 + h + (a + 1)) % 2 ^ 64 + b) % 2 ^ 64
two_chars h a b = omega arith

hash_from_collision :
    (h a b : ℕ) (rest : Str)
    → a + 1 < 128
    → b + 33 < 128
    → hash_from h (a ∷ (b + 33) ∷ rest) ≡ hash_from h ((a + 1) ∷ b ∷ rest)
unfolding hash_from
hash_from_collision h a b rest ha hb = rw (
  char_value_ascii a (omega arith),
  char_value_ascii (b + 33) hb,
  char_value_ascii (a + 1) ha,
  char_value_ascii b (omega arith),
  two_chars h a b,
)

module _ (front rest : Str) (a b : ℕ) (ha : a + 1 < 128) (hb : b + 33 < 128) where
  -- Two paths that differ in one place, where one has the ASCII characters a and b + 33 and the
  -- other a + 1 and b, have the same block file for every block index.
  pub block_path_collision :
      (c : BlockCtx) (i : ℕ)
      → get_block_path c (front ++ a ∷ (b + 33) ∷ rest) i
        ≡ get_block_path c (front ++ (a + 1) ∷ b ∷ rest) i
  unfolding get_block_path hash_path
  block_path_collision c i = rw (
    hash_from-append 5381 front (a ∷ (b + 33) ∷ rest),
    hash_from-append 5381 front ((a + 1) ∷ b ∷ rest),
    hash_from_collision (hash_from 5381 front) a b rest ha hb,
  )

  module _ {W : Type 0} (fs : BlockFs W) (content : W → Str → Option (List ℕ))
      (laws : BlockFsLaws fs content) where
    -- Where nothing has to be evicted: after a `cache_block_write` for one of two such paths that
    -- returns 0, `cache_block_read` for the other path returns the bytes written for the first.
    pub read_of_other_file :
        (c c' : BlockCtx) (w w' : W) (i : ℕ) (stored : List ℕ) (size offset : ℕ)
        → HasRoom c (length stored)
        → cache_block_write fs (some c) (some (front ++ a ∷ (b + 33) ∷ rest)) i (some stored) w
          ≡ (ok, some c', w')
        → cache_block_read fs (some c') (some (front ++ (a + 1) ∷ b ∷ rest)) i size offset w'
          ≡ some (take size (drop offset stored))
    unfolding cache_block_read
    read_of_other_file c c' w w' i stored size offset room h = rw (← block_path_collision c' i) (
        read-write fs content laws c c' w w' (front ++ a ∷ (b + 33) ∷ rest) i stored size offset
          room h)
