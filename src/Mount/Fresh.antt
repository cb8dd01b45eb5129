-- ===== src/Mount/Fresh.antt =====
-- What `bindfs_open`, `cache_coherency_check_and_invalidate` and `bindfs_write` leave in the caches:
-- nothing that the backend contradicts.
use cachefs.Prelude.{
  ℕ, suc, ◌+◌, ◌/◌, ◌^◌, ◌≤◌, ◌<◌, ◌≡◌, ◌≢◌, refl, ◌∙◌, inl, inr, Bool, true, false, Option, none,
  some, List, length, arith, ltb, Str, str_eq_refl, Option-cases, Bool-cases,
}
use cachefs.Prelude.Bits.{bit_and}
use cachefs.Posix.{ok, Stat}
use cachefs.Meta.{MetaEntry, Sqlite, MetaCtx, cache_meta_lookup, cache_meta_invalidate}
use cachefs.Meta.Contract.{SqliteLaws}
use cachefs.Meta.Entries.{lookup-invalidate}
use cachefs.Block.{BlockFs, BlockCtx}
use cachefs.Block.Contract.{BlockFsLaws, IsUnlinkable}
use cachefs.Block.Operations.{cache_block_exists}
use cachefs.Block.Drop.{invalidate_range_lem}
use cachefs.Mount.{done, Settings, FuseFileInfo, Os, State}
use cachefs.Mount.Paths.{process_path}
use cachefs.Mount.Files.{
  cache_coherency_validate_meta, drop_stale, entry_of, cache_coherency_check_and_invalidate,
  open_flags, revalidate, bindfs_open, o_direct, lacks_buffer, drop_written, bindfs_write,
}
use cachefs.Mount.Cached.{started}

-- An entry for the path has the size and the time of modification of the file.
abbrev pub IsFresh : {Db : Type 0} → Sqlite Db → Option (MetaCtx Db) → Str → Stat → Type 0
IsFresh sql meta path st =
    (e : MetaEntry) (valid : Bool) (later : ℕ)
    → cache_meta_lookup sql meta (some path) later ≡ some (e, valid)
    → (e.mtime ≡ st.mtime) × (e.size ≡ st.size)

positive : (n : ℕ) → ltb 0 (suc n) ≡ true
positive n = ground arith

module _ {W Db : Type 0} (os : Os W) (fs : BlockFs W) (sql : Sqlite Db) (s : Settings)
    (saved : Db → Option Db) (laws : SqliteLaws sql saved) where
  drop_stale-IsFresh :
      (c : MetaCtx Db) (block : Option BlockCtx) (w : W) (hits misses : ℕ) (path : Str) (st : Stat)
      (now : ℕ)
      → sql.delete_meta c.db path ≢ none
      → IsFresh sql
          (drop_stale os fs sql s
            (started c block w hits misses)
            path
            (entry_of os fs sql s (some c) path now)
            st).cache_meta_ctx
          path
          st
  unfolding drop_stale entry_of cache_meta_lookup cache_coherency_validate_meta
  drop_stale-IsFresh c block w hits misses path st now deletes e valid later found =
      elim (Option-cases (sql.select_meta c.db path)) [
        | inl absent ↦ absurd (ground arith)
        | inr (cached, present) ↦
            elim (Bool-cases (cache_coherency_validate_meta (some cached) (some st))) [
              | inl same ↦ ground arith
              | inr stale ↦ absurd (
                  ground (
                    arith,
                    lookup-invalidate sql saved laws c path path later deletes,
                    str_eq_refl path,
                  ))
            ]
      ]

  -- Where the entry can be deleted: after `cache_coherency_check_and_invalidate` with a metadata
  -- cache, which returns 0, every entry that is found for the path has the backend's size and time of
  -- modification.
  pub check_and_invalidate-IsFresh :
      (c : MetaCtx Db) (block : Option BlockCtx) (w : W) (hits misses : ℕ) (path : Str)
      (backend_stat : Stat) (now : ℕ)
      → sql.delete_meta c.db path ≢ none
      → ((cache_coherency_check_and_invalidate os fs sql s
            (started c block w hits misses)
            (some path)
            (some backend_stat)
            now).0
          ≡ ok)
        × IsFresh sql
            (cache_coherency_check_and_invalidate os fs sql s
              (started c block w hits misses)
              (some path)
              (some backend_stat)
              now).1.cache_meta_ctx
            path
            backend_stat
  unfolding cache_coherency_check_and_invalidate
  check_and_invalidate-IsFresh c block w hits misses path backend_stat now deletes =
      (refl, drop_stale-IsFresh c block w hits misses path backend_stat now deletes)

  -- Where the file can be opened and its attributes read, and the entry can be deleted:
  -- `bindfs_open` gives the new descriptor, and after it every entry that is found for the
  -- processed path has the size and the time of modification of the open file.
  pub open-IsFresh :
      (c : MetaCtx Db) (block : Option BlockCtx) (w w' : W) (hits misses : ℕ) (path real_path : Str)
      (fi : FuseFileInfo) (fd : ℕ) (backend_st : Stat) (now : ℕ)
      → process_path os s w path true ≡ done real_path
      → os.open_file w real_path (open_flags os fs sql s fi.flags) ≡ done (fd, w')
      → os.fstat w' fd ≡ done backend_st
      → sql.delete_meta c.db real_path ≢ none
      → ((bindfs_open os fs sql s (started c block w hits misses) path fi now).0
          ≡ done (record fi { fh = fd }))
        × IsFresh sql
            (bindfs_open os fs sql s (started c block w hits misses) path fi now).1.cache_meta_ctx
            real_path
            backend_st
  unfolding bindfs_open revalidate
  open-IsFresh c block w w' hits misses path real_path fi fd backend_st now proc opens stat
        deletes =
      let run : bindfs_open os fs sql s (started c block w hits misses) path fi now ≡ (
        done (record fi { fh = fd }),
        drop_stale os fs sql s (started c block w' hits misses) real_path
            (entry_of os fs sql s (some c) real_path now) backend_st,
      ) =
        rw (bindfs_open, proc, opens, revalidate, stat) refl in
      rw run (refl, drop_stale-IsFresh c block w' hits misses real_path backend_st now deletes)

  -- Without direct I/O, where the entry and the block files can be deleted, the block size is not 0
  -- and the end of the range fits in 64 bits: a `bindfs_write` of which the system writes at least one
  -- byte returns their number, and after it the metadata cache has no entry for the path, and the
  -- block cache no block that holds a byte of the range.
  pub write-drops :
      (content : W → Str → Option (List ℕ)) (disk : BlockFsLaws fs content)
      (can : IsUnlinkable fs content) (c : MetaCtx Db) (b : BlockCtx) (w w' : W) (hits misses : ℕ)
      (path : Str) (buf : List ℕ) (offset n x later : ℕ) (fi : FuseFileInfo)
      → bit_and fi.flags o_direct ≡ 0
      → os.write_at w fi.fh buf offset ≡ done (suc n, w')
      → sql.delete_meta c.db path ≢ none
      → 0 < b.block_size
      → offset + length buf < 2 ^ 64
      → offset ≤ x
      → x < offset + length buf
      → (st : State W Db) × (bindfs_write os fs sql s
            (started c (some b) w hits misses)
            path
            buf
            offset
            fi
          ≡ (done (suc n), st))
        × (cache_meta_lookup sql st.cache_meta_ctx (some path) later ≡ none)
        × (cache_block_exists fs st.cache_block_ctx (some path) (x / b.block_size) st.world ≡ false)
  unfolding bindfs_write lacks_buffer drop_written
  write-drops content disk can c b w w' hits misses path buf offset n x later fi plain writes
        deletes pos fits lo hi =
      let (b', w'', dropped, gone, _) =
        invalidate_range_lem fs content disk can b w' path offset (length buf) x pos fits lo hi in
      (
        record (started c (some b') w'' hits misses) {
          cache_meta_ctx = (cache_meta_invalidate sql (some c) (some path)).1;
        },
        rw (bindfs_write, lacks_buffer, plain, writes, drop_written, dropped, positive n) refl,
        lookup-invalidate sql saved laws c path path later deletes ∙ rw (str_eq_refl path) refl,
        gone,
      )
