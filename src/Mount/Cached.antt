-- ===== src/Mount/Cached.antt =====
-- What a second `bindfs_getattr` and a second `bindfs_read` of src/cachefs.c return: what the first
-- one left in the caches.
use cachefs.Prelude.{
  ℕ, suc, ◌+◌, ◌<◌, ◌≡◌, ◌≢◌, refl, ap, inl, inr, ◌∙◌, true, Option, none, some, arith, Str,
  str_eq_refl, str_eq_ne, Option-cases,
}
use cachefs.Posix.{ok, Stat, Errno}
use cachefs.Meta.{
  Sqlite, MetaCtx, cache_meta_lookup, cache_meta_store, cache_meta_store_negative, stored_entry,
}
use cachefs.Meta.Contract.{SqliteLaws}
use cachefs.Meta.Entries.{lookup-store, lookup-store_negative}
use cachefs.Block.{BlockFs, BlockCtx}
use cachefs.Mount.{error, done, Settings, FuseContext, Os, State}
use cachefs.Mount.Paths.{process_path}
use cachefs.Mount.Attr.{
  getattr_common, cached_stat, ensure_cache_initialized, lazy_init, show_path, remember_missing,
  getattr_miss, getattr_cached, getattr_ready, bindfs_getattr,
}

-- A mount whose cache is started, with a metadata cache.
abbrev pub started : {W Db : Type 0} → MetaCtx Db → Option BlockCtx → W → ℕ → ℕ → State W Db
started c block w hits misses = record {
  cache_meta_ctx = some c;
  cache_block_ctx = block;
  cache_initialized = true;
  world = w;
  getattr_hits = hits;
  getattr_misses = misses;
}

-- The attributes without what the cache does not keep: those fields are 0.
abbrev pub kept_attributes : Stat → Stat
kept_attributes st = record st {
  nlink = 0;
  dev = 0;
  rdev = 0;
  blksize = 0;
  blocks = 0;
  atime = 0;
  atime_nsec = 0;
  mtime_nsec = 0;
  ctime_nsec = 0;
}

module _ {W Db : Type 0} (os : Os W) (fs : BlockFs W) (sql : Sqlite Db) (s : Settings) where
  pub lazy_init-ready :
      (st : State W Db) → st.cache_initialized ≡ true → lazy_init os fs sql s st ≡ st
  unfolding lazy_init ensure_cache_initialized
  lazy_init-ready st h = elim (Option-cases s.cache_root) [
    | inl e ↦ rw (e, lazy_init) refl
    | inr (root, e) ↦ rw (e, h, lazy_init) refl
  ]

  getattr_miss-found :
      (fc : FuseContext) (c c' : MetaCtx Db) (block : Option BlockCtx) (w : W) (hits misses : ℕ)
      (path real_path : Str) (stbuf : Stat) (now : ℕ)
      → cache_meta_lookup sql (some c) (some path) now ≡ none
      → process_path os s w path true ≡ done real_path
      → os.lstat w real_path ≡ done stbuf
      → cache_meta_store sql (some c) (some path) (some stbuf) now ≡ (ok, some c')
      → bindfs_getattr os fs sql s fc (started c block w hits misses) path now
        ≡ (getattr_common os s fc w real_path stbuf, started c' block w hits (suc misses))
  unfolding bindfs_getattr getattr_ready getattr_miss
  getattr_miss-found fc c c' block w hits misses path real_path stbuf now miss proc stat store =
      ap (λ st. getattr_ready os fs sql s fc st path now)
        (lazy_init-ready (started c block w hits misses) refl)
      ∙ rw (getattr_ready, miss, getattr_miss, proc, stat, store) refl

  getattr_miss-absent :
      (fc : FuseContext) (c : MetaCtx Db) (block : Option BlockCtx) (w : W) (hits misses : ℕ)
      (path real_path : Str) (now : ℕ)
      → cache_meta_lookup sql (some c) (some path) now ≡ none
      → process_path os s w path true ≡ done real_path
      → os.lstat w real_path ≡ error Errno.enoent
      → bindfs_getattr os fs sql s fc (started c block w hits misses) path now ≡ (
        error Errno.enoent,
        record (started c block w hits (suc misses)) {
          cache_meta_ctx = (cache_meta_store_negative sql (some c) (some real_path) now).1;
        },
      )
  unfolding bindfs_getattr getattr_ready getattr_miss remember_missing
  getattr_miss-absent fc c block w hits misses path real_path now miss proc stat =
      ap (λ st. getattr_ready os fs sql s fc st path now)
        (lazy_init-ready (started c block w hits misses) refl)
      ∙ rw (getattr_ready, miss, getattr_miss, proc, stat, remember_missing) refl

  getattr_hit :
      (fc : FuseContext) (c : MetaCtx Db) (block : Option BlockCtx) (w : W) (hits misses : ℕ)
      (path real_path : Str) (st : Stat) (stored ttl now : ℕ)
      → cache_meta_lookup sql (some c) (some path) now ≡ some (stored_entry stored ttl st, true)
      → process_path os s w path true ≡ done real_path
      → bindfs_getattr os fs sql s fc (started c block w hits misses) path now ≡ (
        getattr_common os s fc w real_path (kept_attributes st),
        started c block w (suc hits) misses,
      )
  unfolding bindfs_getattr getattr_ready getattr_cached show_path stored_entry cached_stat
  getattr_hit fc c block w hits misses path real_path st stored ttl now hit proc =
      ap (λ st. getattr_ready os fs sql s fc st path now)
        (lazy_init-ready (started c block w hits misses) refl)
      ∙ rw (getattr_ready, hit, getattr_cached, show_path, proc) refl

module _ {W Db : Type 0} (os : Os W) (fs : BlockFs W) (sql : Sqlite Db) (s : Settings)
    (saved : Db → Option Db) (laws : SqliteLaws sql saved) where
  -- Where the cache has no entry for the path, lstat finds it, and its entry is stored: the first
  -- `bindfs_getattr` shows the attributes that lstat gives, as a miss, and a second one before the
  -- TTL has passed is a hit. It shows what `getattr_common` makes of the same mode, size, owner,
  -- group, inode and times of modification and change in seconds, but of a link count, device
  -- numbers, block size, block count, access time and nanoseconds that are 0. Neither changes the block cache or the system.
  pub getattr_again :
      (fc : FuseContext) (c c' : MetaCtx Db) (block : Option BlockCtx) (w : W) (hits misses : ℕ)
      (path real_path : Str) (stbuf : Stat) (now later : ℕ)
      → cache_meta_lookup sql (some c) (some path) now ≡ none
      → process_path os s w path true ≡ done real_path
      → os.lstat w real_path ≡ done stbuf
      → cache_meta_store sql (some c) (some path) (some stbuf) now ≡ (ok, some c')
      → later < now + c.meta_ttl
      → (bindfs_getattr os fs sql s fc (started c block w hits misses) path now
          ≡ (getattr_common os s fc w real_path stbuf, started c' block w hits (suc misses)))
        × (bindfs_getattr os fs sql s fc (started c' block w hits (suc misses)) path later ≡ (
          getattr_common os s fc w real_path (kept_attributes stbuf),
          started c' block w (suc hits) (suc misses),
        ))
  unfolding cached_stat stored_entry
  getattr_again fc c c' block w hits misses path real_path stbuf now later miss proc stat store
        before =
      let hit : cache_meta_lookup sql (some c') (some path) later
          ≡ some (stored_entry now c.meta_ttl stbuf, true) =
        ground (
          arith,
          lookup-store sql saved laws c c' path path stbuf now later store,
          str_eq_refl path,
        ) in
      (
        getattr_miss-found os fs sql s fc c c' block w hits misses path real_path stbuf now miss
            proc stat store,
        getattr_hit os fs sql s fc c' block w hits (suc misses) path real_path stbuf now c.meta_ttl
            later hit proc,
      )

  -- Where lstat finds no file, the processed path differs from the path, as it does for every path
  -- that starts with '/', and the cache has no entry for the path: although the first
  -- `bindfs_getattr` stores a negative entry, a second one is a miss again.
  pub missing_again :
      (fc : FuseContext) (c c' : MetaCtx Db) (block : Option BlockCtx) (w : W) (hits misses : ℕ)
      (path real_path : Str) (now later : ℕ)
      → cache_meta_lookup sql (some c) (some path) now ≡ none
      → cache_meta_lookup sql (some c) (some path) later ≡ none
      → process_path os s w path true ≡ done real_path
      → real_path ≢ path
      → os.lstat w real_path ≡ error Errno.enoent
      → cache_meta_store_negative sql (some c) (some real_path) now ≡ (ok, some c')
      → (bindfs_getattr os fs sql s fc (started c block w hits misses) path now
          ≡ (error Errno.enoent, started c' block w hits (suc misses)))
        × ((bindfs_getattr os fs sql s fc
              (started c' block w hits (suc misses))
              path
              later).1.getattr_misses
            ≡ suc (suc misses))
  missing_again fc c c' block w hits misses path real_path now later miss miss' proc ne stat store =
      let none_yet : cache_meta_lookup sql (some c') (some path) later ≡ none =
        lookup-store_negative sql saved laws c c' real_path path now later store
        ∙ rw (str_eq_ne real_path path ne) miss' in
      (
        getattr_miss-absent os fs sql s fc c block w hits misses path real_path now miss proc stat
            ∙ ap
                (λ m. (
                  error Errno.enoent,
                  record (started c block w hits (suc misses)) { cache_meta_ctx = m.1 },
                ))
                store,
        ap (λ t. t.1.getattr_misses)
            (getattr_miss-absent os fs sql s fc c' block w hits (suc misses) path real_path later
              none_yet proc stat),
      )
