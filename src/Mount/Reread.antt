-- ===== src/Mount/Reread.antt =====
-- What a second `bindfs_read` of src/cachefs.c returns: what the first one left in the block cache.
use cachefs.Prelude.{
  ℕ, ◌/◌, ◌%◌, ◌≡◌, refl, ap, ◌∙◌, true, false, Option, some, List, ◌∷◌, length, take, drop, arith,
  Str, Option-cases, inl, inr,
}
use cachefs.Prelude.Bits.{bit_and}
use cachefs.Posix.{ok}
use cachefs.Meta.{Sqlite, MetaCtx}
use cachefs.Block.{BlockFs, BlockCtx, get_block_path}
use cachefs.Block.Contract.{BlockFsLaws}
use cachefs.Block.Operations.{cache_block_exists, cache_block_write}
use cachefs.Block.ReadWrite.{HasRoom, write_lem, read-write}
use cachefs.Mount.{done, Settings, FuseFileInfo, Os}
use cachefs.Mount.Files.{o_direct, read_cached, read_backend, lacks_buffer, read_ready, bindfs_read}
use cachefs.Mount.Cached.{started, lazy_init-ready}

module _ {W : Type 0} (fs : BlockFs W) (content : W → Str → Option (List ℕ))
    (disk : BlockFsLaws fs content) where
  exists_present :
      (c : BlockCtx) (w : W) (path : Str) (i : ℕ) (b : List ℕ)
      → content w (get_block_path c path i) ≡ some b
      → cache_block_exists fs (some c) (some path) i w ≡ true
  unfolding cache_block_exists
  exists_present c w path i b h = elim (Option-cases (fs.stat w (get_block_path c path i))) [
    | inl e ↦ absurd (ground (arith, disk.size-stat w (get_block_path c path i)))
    | inr (st, e) ↦ rw (cache_block_exists, e) refl
  ]

  exists-write :
      (c c' : BlockCtx) (w w' : W) (path : Str) (i : ℕ) (b : List ℕ)
      → HasRoom c (length b)
      → cache_block_write fs (some c) (some path) i (some b) w ≡ (ok, some c', w')
      → cache_block_exists fs (some c') (some path) i w' ≡ true
  exists-write c c' w w' path i b room h =
      let (counts, holds, _) = write_lem fs content disk c c' w w' path i b room h in
      let same : get_block_path c' path i ≡ get_block_path c path i =
        unfold get_block_path in ground (arith, counts) in
      exists_present c' w' path i b (ap (content w') same ∙ holds)

module _ {W Db : Type 0} (os : Os W) (fs : BlockFs W) (sql : Sqlite Db) (s : Settings)
    (content : W → Str → Option (List ℕ)) (disk : BlockFsLaws fs content) where
  -- Without direct I/O, where the block of the offset is not cached, the backend gives some bytes,
  -- and they are stored without an eviction: the first `bindfs_read` returns the bytes, and a second
  -- one of the same range returns them without as many bytes as the offset is past the start of its
  -- block.
  pub read_again :
      (m : MetaCtx Db) (c c' : BlockCtx) (w w' : W) (hits misses : ℕ) (path : Str)
      (size offset a : ℕ) (bs : List ℕ) (fi : FuseFileInfo)
      → bit_and fi.flags o_direct ≡ 0
      → cache_block_exists fs (some c) (some path) (offset / s.cache_block_size) w ≡ false
      → os.read_at w fi.fh size offset ≡ done (a ∷ bs)
      → HasRoom c (length (a ∷ bs))
      → cache_block_write fs (some c) (some path) (offset / s.cache_block_size) (some (a ∷ bs)) w
        ≡ (ok, some c', w')
      → (bindfs_read os fs sql s (started m (some c) w hits misses) path size offset fi
          ≡ (done (a ∷ bs), started m (some c') w' hits misses))
        × (bindfs_read os fs sql s (started m (some c') w' hits misses) path size offset fi ≡ (
          done (take size (drop (offset % s.cache_block_size) (a ∷ bs))),
          started m (some c') w' hits misses,
        ))
  unfolding bindfs_read read_ready read_cached read_backend lacks_buffer
  read_again m c c' w w' hits misses path size offset a bs fi plain absent reads room stored = (
    ap (λ st. read_ready os fs sql s st path size offset fi)
          (lazy_init-ready os fs sql s (started m (some c) w hits misses) refl)
        ∙ rw (read_ready, lacks_buffer, plain, read_cached, absent, read_backend, reads, stored)
            refl,
    ap (λ st. read_ready os fs sql s st path size offset fi)
          (lazy_init-ready os fs sql s (started m (some c') w' hits misses) refl)
        ∙ rw
            (
              read_ready,
              lacks_buffer,
              plain,
              read_cached,
              exists-write fs content disk c c' w w' path (offset / s.cache_block_size) (a ∷ bs)
                  room stored,
              read-write fs content disk c c' w w' path (offset / s.cache_block_size) (a ∷ bs) size
                  (offset % s.cache_block_size) room stored,
            )
            refl,
  )
