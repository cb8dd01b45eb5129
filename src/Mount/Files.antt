-- ===== src/Mount/Files.antt =====
-- `bindfs_open`, `bindfs_read` and `bindfs_write` of src/cachefs.c, and src/cache_coherency.c. The
-- data of a read are the value that is returned; the rate limiters only wait, and are left out.
use cachefs.Prelude.Bits.{bit_and, not32}
use cachefs.Prelude.{
  ℕ, ◌-◌, ◌/◌, ◌%◌, add64, Bool, true, false, not, ◌&&◌, Option, none, some, List, [], ◌∷◌, length,
  ◌==◌, ltb, if◌then◌else◌, Str,
}
use cachefs.Posix.{Status, ok, failed, Stat, Errno}
use cachefs.Meta.{MetaEntry, Sqlite, MetaCtx, cache_meta_lookup, cache_meta_invalidate}
use cachefs.Block.{BlockFs}
use cachefs.Block.Operations.{
  cache_block_exists, cache_block_read, cache_block_write, cache_block_invalidate_range,
  cache_block_invalidate_file,
}
use cachefs.Mount.{Result, error, done, Settings, FuseFileInfo, Os, State}
use cachefs.Mount.Paths.{process_path}
use cachefs.Mount.Attr.{lazy_init}

-- A NULL pointer is `none`.
unfoldable pub cache_coherency_validate_meta : Option MetaEntry → Option Stat → Bool
cache_coherency_validate_meta none backend_stat = false
cache_coherency_validate_meta (some e) none = false
cache_coherency_validate_meta (some e) (some st) = e.mtime == st.mtime && e.size == st.size

cache_coherency_validate_dir : ℕ → Option Stat → Bool
cache_coherency_validate_dir cached_mtime none = false
cache_coherency_validate_dir cached_mtime (some st) = cached_mtime == st.mtime

-- O_DIRECT
abbrev pub o_direct : ℕ
o_direct = 0o40000

module _ {W Db : Type 0} (os : Os W) (fs : BlockFs W) (sql : Sqlite Db) (s : Settings) where
  -- Metadata and blocks of a path whose entry is not what the backend says are dropped.
  unfoldable pub drop_stale : State W Db → Str → Option MetaEntry → Stat → State W Db
  drop_stale st path none backend_stat = st
  drop_stale st path (some cached) backend_stat =
      if cache_coherency_validate_meta (some cached) (some backend_stat)
      then st
      else (let (_, block, w) =
            cache_block_invalidate_file fs st.cache_block_ctx (some path) st.world in
          record st {
            cache_meta_ctx = (cache_meta_invalidate sql st.cache_meta_ctx (some path)).1;
            cache_block_ctx = block;
            world = w;
          })

  unfoldable pub entry_of : Option (MetaCtx Db) → Str → ℕ → Option MetaEntry
  entry_of meta path now = elim (cache_meta_lookup sql meta (some path) now) [
    | none ↦ none
    | some (e, valid) ↦ some e
  ]

  unfoldable pub cache_coherency_check_and_invalidate :
      State W Db → Option Str → Option Stat → ℕ → Status × State W Db
  cache_coherency_check_and_invalidate st none backend_stat now = (failed, st)
  cache_coherency_check_and_invalidate st (some path) none now = (failed, st)
  cache_coherency_check_and_invalidate st (some path) (some backend_stat) now =
      elim st.cache_meta_ctx [
        | none ↦ (failed, st)
        | some c ↦ (ok, drop_stale st path (entry_of (some c) path now) backend_stat)
      ]

  -- The size as a multiple of the alignment, in size_t.
  unfoldable pub round_up_buffer_size_for_direct_io : ℕ → ℕ
  round_up_buffer_size_for_direct_io size =
      let rem = size % s.odirect_alignment in
      if rem == 0 then size else add64 (size - rem) s.odirect_alignment

  -- The flags that are passed on to `open`.
  unfoldable pub open_flags : ℕ → ℕ
  open_flags flags = if s.forward_odirect then flags else bit_and flags (not32 o_direct)

  -- The revalidation.
  unfoldable pub revalidate : State W Db → Str → ℕ → ℕ → State W Db
  revalidate st real_path fd now = elim (os.fstat st.world fd) [
    | error e ↦ st
    | done backend_st ↦
        drop_stale st real_path (entry_of st.cache_meta_ctx real_path now) backend_st
  ]

  unfoldable pub bindfs_open :
      State W Db → Str → FuseFileInfo → ℕ → Result FuseFileInfo × State W Db
  bindfs_open st path fi now = elim (process_path os s st.world path true) [
    | error e ↦ (error e, st)
    | done real_path ↦ elim (os.open_file st.world real_path (open_flags fi.flags)) [
      | error e ↦ (error e, st)
      | done (fd, w) ↦
          (done (record fi { fh = fd }), revalidate (record st { world = w }) real_path fd now)
    ]
  ]

  -- The bytes of the block cache, where it has the block.
  unfoldable pub read_cached : State W Db → Str → ℕ → ℕ → Option (List ℕ)
  read_cached st path size offset =
      let block_idx = offset / s.cache_block_size in
      let block_offset = offset % s.cache_block_size in
      if cache_block_exists fs st.cache_block_ctx (some path) block_idx st.world
      then cache_block_read fs st.cache_block_ctx (some path) block_idx size block_offset st.world
      else none

  -- The bytes of the backend, which are put in the block cache if there are any.
  unfoldable pub read_backend :
      State W Db → Str → ℕ → ℕ → FuseFileInfo → Result (List ℕ) × State W Db
  read_backend st path size offset fi = elim (os.read_at st.world fi.fh size offset) [
    | error e ↦ (error e, st)
    | done [] ↦ (done [], st)
    | done (b ∷ bs) ↦
        let (_, block, w) =
          cache_block_write fs st.cache_block_ctx (some path) (offset / s.cache_block_size)
            (some (b ∷ bs)) st.world in
        (done (b ∷ bs), record st { cache_block_ctx = block; world = w })
  ]

  -- Whether a buffer for direct I/O is needed and there is none.
  unfoldable pub lacks_buffer : State W Db → ℕ → FuseFileInfo → Bool
  lacks_buffer st size fi =
      not (bit_and fi.flags o_direct == 0)
      && s.forward_odirect
      && not (os.can_map st.world (round_up_buffer_size_for_direct_io size))

  -- What follows the start of the cache.
  unfoldable pub read_ready : State W Db → Str → ℕ → ℕ → FuseFileInfo → Result (List ℕ) × State W Db
  read_ready st path size offset fi =
      if lacks_buffer st size fi
      then (error Errno.enomem, st)
      else elim (read_cached st path size offset) [
        | some bytes_read ↦ (done bytes_read, st)
        | none ↦ read_backend st path size offset fi
      ]

  unfoldable pub bindfs_read :
      State W Db → Str → ℕ → ℕ → FuseFileInfo → Result (List ℕ) × State W Db
  bindfs_read st path size offset fi = read_ready (lazy_init os fs sql s st) path size offset fi

  -- The blocks of the range and the metadata are dropped.
  unfoldable pub drop_written : State W Db → Str → ℕ → ℕ → State W Db
  drop_written st path offset size =
      let (_, block, w) =
        cache_block_invalidate_range fs st.cache_block_ctx (some path) offset size st.world in
      record st {
        cache_meta_ctx = (cache_meta_invalidate sql st.cache_meta_ctx (some path)).1;
        cache_block_ctx = block;
        world = w;
      }

  unfoldable pub bindfs_write : State W Db → Str → List ℕ → ℕ → FuseFileInfo → Result ℕ × State W Db
  bindfs_write st path buf offset fi =
      if lacks_buffer st (length buf) fi
      then (error Errno.enomem, st)
      else elim (os.write_at st.world fi.fh buf offset) [
        | error e ↦ (error e, st)
        | done (n, w) ↦
            let written = record st { world = w } in
            (done n, if ltb 0 n then drop_written written path offset (length buf) else written)
      ]
