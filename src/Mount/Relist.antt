-- ===== src/Mount/Relist.antt =====
-- What a second `bindfs_readdir` of src/cachefs.c lists: what the first one left in the cache.
use cachefs.Prelude.{
  ℕ, suc, ◌+◌, ◌<◌, ◌≡◌, ◌⊎◌, refl, ap, sym, ◌∙◌, inl, inr, Bool, true, false, Option, none, some,
  List, [], ◌∷◌, map, arith, Str,
}
use cachefs.Posix.{ok, Stat, Errno}
use cachefs.Meta.{DirEntry, Sqlite, MetaCtx, DirHit, cache_dir_lookup, cache_dir_store}
use cachefs.Meta.Contract.{SqliteLaws}
use cachefs.Meta.Listing.{first_type, last_type}
use cachefs.Meta.Transaction.{IsUnlocked, dir_lookup-dir_store}
use cachefs.Block.{BlockCtx}
use cachefs.Mount.{done, Settings, FuseContext, Os}
use cachefs.Mount.Paths.{process_path}
use cachefs.Mount.Cached.{started}
use cachefs.Mount.Chmod.{Result-cases}
use cachefs.Mount.Readdir.{
  Dirent, DirOs, Fill, filled, refused, ReaddirStats, cached_entry, fill_cached, entry_stat,
  fill_entries, store_listing, uses_cache, finish_listing, readdir_miss, is_current, cached_listing,
  bindfs_readdir,
}

Fill-cases :
    {B : Type 0} (r : Fill B) → ((e : Option Errno) × (r ≡ refused e)) ⊎ ((b : B) × (r ≡ filled b))
Fill-cases (refused e) = inl (e, refl)
Fill-cases (filled b) = inr (b, refl)

module _ {W B : Type 0} (os : Os W) (s : Settings) (filler : B → Str → Option Stat → Fill B) where
  -- A listing that was read to its end has an entry for each of the directory.
  fill_entries-all :
      (fc : FuseContext) (w : W) (dir : Str) (plus : Bool) (end : Option Errno) (buf buf' : B)
      (des : List Dirent) (es : List DirEntry)
      → fill_entries filler os s fc w dir plus end buf des ≡ (done tt, buf', es)
      → es ≡ map cached_entry des
  unfolding fill_entries
  fill_entries-all fc w dir plus none buf buf' [] es h = ground arith
  fill_entries-all fc w dir plus (some e) buf buf' [] es h = absurd (ground arith)
  fill_entries-all fc w dir plus end buf buf' (de ∷ des) es h =
      elim (Result-cases (entry_stat filler os s fc w dir plus de)) [
        | inl (e, bad) ↦ absurd (ground arith)
        | inr (st, good) ↦ elim (Fill-cases (filler buf de.name st)) [
          | inl (e, bad) ↦ absurd (ground arith)
          | inr (b, next) ↦
              let rest = fill_entries filler os s fc w dir plus end b des in
              let all = fill_entries-all fc w dir plus end b rest.1 des rest.2 in ground arith
        ]
      ]

module _ {W Db B : Type 0} (os : Os W) (dirs : DirOs W) (sql : Sqlite Db) (s : Settings)
    (filler : B → Str → Option Stat → Fill B) (saved : Db → Option Db) (laws : SqliteLaws sql saved)
    (unlocked : IsUnlocked sql) where
  readdir_stores :
      (fc : FuseContext) (c c' : MetaCtx Db) (block : Option BlockCtx) (w : W) (hits misses : ℕ)
      (stats : ReaddirStats) (path real_path : Str) (dir_st : Stat) (des : List Dirent)
      (buf buf' : B) (e : DirEntry) (es : List DirEntry) (now : ℕ)
      → process_path os s w path true ≡ done real_path
      → cache_dir_lookup sql (some c) (some real_path) now ≡ none
      → dirs.entries w real_path ≡ done (des, none)
      → dirs.stat w real_path ≡ done dir_st
      → fill_entries filler os s fc w real_path false none buf des ≡ (done tt, buf', e ∷ es)
      → cache_dir_store sql (some c) (some real_path) (some (e ∷ es)) dir_st.mtime now
        ≡ (ok, some c')
      → bindfs_readdir os dirs sql s filler fc
          (started c block w hits misses)
          stats
          path
          false
          buf
          now
        ≡ (
          done tt,
          buf',
          started c' block w hits misses,
          record stats { misses = suc stats.misses },
        )
  unfolding bindfs_readdir readdir_miss cached_listing uses_cache store_listing finish_listing
  readdir_stores fc c c' block w hits misses stats path real_path dir_st des buf buf' e es now proc
        miss lists stat fills stores =
      rw
        (
          bindfs_readdir, proc, cached_listing, uses_cache, miss, readdir_miss, lists, uses_cache,
          fills, stat, finish_listing, store_listing, stores,
        )
        refl

  readdir_hits :
      (fc : FuseContext) (c : MetaCtx Db) (block : Option BlockCtx) (w : W) (hits misses : ℕ)
      (stats : ReaddirStats) (path real_path : Str) (dir_st : Stat) (hit : DirHit) (buf : B)
      (now : ℕ)
      → process_path os s w path true ≡ done real_path
      → cache_dir_lookup sql (some c) (some real_path) now ≡ some hit
      → dirs.stat w real_path ≡ done dir_st
      → hit.dir_mtime ≡ dir_st.mtime
      → hit.valid ≡ true
      → bindfs_readdir os dirs sql s filler fc
          (started c block w hits misses)
          stats
          path
          false
          buf
          now
        ≡ (
          (fill_cached filler buf hit.entries).0,
          (fill_cached filler buf hit.entries).1,
          started c block w hits misses,
          record stats { hits = suc stats.hits },
        )
  unfolding bindfs_readdir cached_listing uses_cache is_current
  readdir_hits fc c block w hits misses stats path real_path dir_st hit buf now proc found stat same
        valid =
      let current : is_current os dirs sql s filler w real_path hit ≡ true =
        rw (is_current, stat) (ground (arith, same, valid)) in
      rw (bindfs_readdir, proc, cached_listing, uses_cache, found, current) refl

  -- Where DELETE and COMMIT are done: a `bindfs_readdir` that misses, whose directory is read to its end
  -- and has an entry at least, and whose listing is stored, passes on an entry for each of the
  -- directory and counts a miss. A second one of the same path, before the time of the first plus the
  -- directory TTL and while the directory has the same mtime, in whatever world that may be, passes on
  -- the stored entries instead, changes nothing and counts a hit. Those entries give, for each name,
  -- the type of the last entry of the directory that has it, and have no other name.
  pub readdir_again :
      (fc : FuseContext) (c c' : MetaCtx Db) (block : Option BlockCtx) (w w' : W) (hits misses : ℕ)
      (stats : ReaddirStats) (path real_path : Str) (dir_st dir_st' : Stat) (des : List Dirent)
      (buf buf' buf2 : B) (e : DirEntry) (es : List DirEntry) (now later : ℕ)
      → process_path os s w path true ≡ done real_path
      → cache_dir_lookup sql (some c) (some real_path) now ≡ none
      → dirs.entries w real_path ≡ done (des, none)
      → dirs.stat w real_path ≡ done dir_st
      → fill_entries filler os s fc w real_path false none buf des ≡ (done tt, buf', e ∷ es)
      → cache_dir_store sql (some c) (some real_path) (some (e ∷ es)) dir_st.mtime now
        ≡ (ok, some c')
      → process_path os s w' path true ≡ done real_path
      → dirs.stat w' real_path ≡ done dir_st'
      → dir_st'.mtime ≡ dir_st.mtime
      → later < now + c.dir_ttl
      → (bindfs_readdir os dirs sql s filler fc
            (started c block w hits misses)
            stats
            path
            false
            buf
            now
          ≡ (
            done tt,
            buf',
            started c' block w hits misses,
            record stats { misses = suc stats.misses },
          ))
        × (found : List DirEntry) × ((n : Str)
            → first_type n found ≡ last_type n (map cached_entry des))
        × (bindfs_readdir os dirs sql s filler fc
              (started c' block w' hits misses)
              stats
              path
              false
              buf2
              later
            ≡ (
              (fill_cached filler buf2 found).0,
              (fill_cached filler buf2 found).1,
              started c' block w' hits misses,
              record stats { hits = suc stats.hits },
            ))
  readdir_again fc c c' block w w' hits misses stats path real_path dir_st dir_st' des buf buf' buf2
        e es now later proc miss lists stat fills stores proc' stat' same before =
      let lookup =
        dir_lookup-dir_store sql saved laws unlocked c c' real_path e es dir_st.mtime now later
          stores in
      let all =
        fill_entries-all os s filler fc w real_path false none buf buf' des (e ∷ es) fills in
      let valid : lookup.found.valid ≡ true = ground (arith, lookup.validity, before) in
      (
        readdir_stores fc c c' block w hits misses stats path real_path dir_st des buf buf' e es now
            proc miss lists stat fills stores,
        lookup.found.entries,
        λ n. lookup.types n ∙ ap (last_type n) all,
        readdir_hits fc c' block w' hits misses stats path real_path dir_st' lookup.found buf2 later
            proc' lookup.is_hit stat' (lookup.mtime_stored ∙ sym same) valid,
      )
