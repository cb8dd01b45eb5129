-- ===== src/Mount/Readdir.antt =====
-- `bindfs_readdir` of src/cachefs.c. The two readdir counters of `cache_stats` are a record of their
-- own; `now` is the time of the call.
use cachefs.Prelude.{
  ℕ, suc, Bool, true, false, not, ◌&&◌, ◌||◌, Option, none, some, List, [], ◌∷◌, ◌++◌, ◌==◌,
  if◌then◌else◌, Str, bytes,
}
use cachefs.Posix.{Stat, Errno}
use cachefs.Meta.{EntryType, DirEntry, Sqlite, MetaCtx, DirHit, cache_dir_lookup, cache_dir_store}
use cachefs.Mount.{Result, error, done, Settings, FuseContext, Os, State}
use cachefs.Mount.Paths.{process_path}
use cachefs.Mount.Attr.{getattr_common}

-- The `d_type` values that are told apart.
pub data DirentType : Type 0 where
  dt_dir dt_lnk dt_other : DirentType

pub record Dirent : Type 0 where
  pub name : Str
  pub type : DirentType

-- opendir and the entries up to the NULL of readdir, with the errno of that NULL; and stat.
pub record DirOs (W : Type 0) : Type 0 where
  pub entries : W → Str → Result (List Dirent × Option Errno)
  pub stat : W → Str → Result Stat

-- `fuse_fill_dir_t` on a buffer: `refused` is a result that is not 0, with an errno that may be 0.
pub data Fill (B : Type 0) : Type 0 where
  filled : B → Fill B
  refused : Option Errno → Fill B

pub record ReaddirStats : Type 0 where
  pub hits : ℕ
  pub misses : ℕ

-- errno != 0 ? -errno : -EIO
unfoldable pub or_eio : Option Errno → Errno
or_eio none = Errno.eio
or_eio (some e) = e

unfoldable pub cached_entry : Dirent → DirEntry
cached_entry de = record {
  name = de.name;
  type = elim de.type [ dt_dir ↦ EntryType.dir | _ ↦ EntryType.file ];
}

abbrev is_link : DirentType → Bool
is_link dt_lnk = true
is_link t = false

module _ {B : Type 0} (filler : B → Str → Option Stat → Fill B) where
  -- The loop over cached entries.
  unfoldable pub fill_cached : B → List DirEntry → Result Unit × B
  fill_cached buf [] = (done tt, buf)
  fill_cached buf (e ∷ es) = elim (filler buf e.name none) [
    | refused errno ↦ (error (or_eio errno), buf)
    | filled buf' ↦ fill_cached buf' es
  ]

  module _ {W : Type 0} (os : Os W) (s : Settings) where
    -- The attributes of an entry of the directory `dir`, where they are looked at.
    unfoldable pub entry_stat : FuseContext → W → Str → Bool → Dirent → Result (Option Stat)
    entry_stat fc w dir readdirplus de =
        let path_buf = dir ++ bytes "/" ++ de.name in
        let follow = s.resolve_symlinks && is_link de.type in
        if follow || readdirplus
        then (let target : Str =
              elim (if follow then os.realpath w path_buf else error Errno.enoent) [
                | error e ↦ path_buf
                | done r ↦ r
              ] in
            elim (os.lstat w target) [
              | error e ↦ error e
              | done st ↦
                  if readdirplus
                  then elim (getattr_common os s fc w path_buf st) [
                    | error e ↦ error e
                    | done shown ↦ done (some shown)
                  ]
                  else done none
            ])
        else done none

    -- The loop over the directory, with the entries that were passed on.
    unfoldable pub fill_entries :
        FuseContext
        → W
        → Str
        → Bool
        → Option Errno
        → B
        → List Dirent
        → Result Unit × B × List DirEntry
    fill_entries fc w dir readdirplus end buf [] = elim end [
      | none ↦ (done tt, buf, [])
      | some e ↦ (error e, buf, [])
    ]
    fill_entries fc w dir readdirplus end buf (de ∷ des) =
        elim (entry_stat fc w dir readdirplus de) [
          | error e ↦ (error e, buf, [])
          | done st ↦ elim (filler buf de.name st) [
            | refused errno ↦ (error (or_eio errno), buf, [])
            | filled buf' ↦
                let (res, buf'', rest) = fill_entries fc w dir readdirplus end buf' des in
                (res, buf'', cached_entry de ∷ rest)
          ]
        ]

module _ {W Db B : Type 0} (os : Os W) (dirs : DirOs W) (sql : Sqlite Db) (s : Settings)
    (filler : B → Str → Option Stat → Fill B) where
  -- What goes into the cache: a listing that was read to its end and is not empty.
  unfoldable pub store_listing :
      Option (MetaCtx Db) → Str → ℕ → Result Unit → List DirEntry → ℕ → Option (MetaCtx Db)
  store_listing meta path mtime (error e) entries now = meta
  store_listing meta path mtime (done tt) [] now = meta
  store_listing meta path mtime (done tt) (e ∷ es) now =
      (cache_dir_store sql meta (some path) (some (e ∷ es)) mtime now).1

  -- Whether the cache takes part.
  unfoldable pub uses_cache : State W Db → Bool → Bool
  uses_cache st readdirplus = elim st.cache_meta_ctx [ none ↦ false | some c ↦ not readdirplus ]

  -- What follows the loop, with the attributes of a directory whose listing can be stored.
  unfoldable pub finish_listing :
      State W Db
      → ReaddirStats
      → Str
      → ℕ
      → Result Stat
      → Result Unit × B × List DirEntry
      → Result Unit × B × State W Db × ReaddirStats
  finish_listing st stats real_path now (error e) (res, buf, entries) = (res, buf, st, stats)
  finish_listing st stats real_path now (done dir_st) (res, buf, entries) = (
    res,
    buf,
    record st {
      cache_meta_ctx = store_listing st.cache_meta_ctx real_path dir_st.mtime res entries now;
    },
    stats,
  )

  -- From the cache miss on, with the directory that `process_path` gave; asked again for the same
  -- path it gives the same.
  unfoldable pub readdir_miss :
      FuseContext
      → State W Db
      → ReaddirStats
      → Str
      → Bool
      → B
      → ℕ
      → Result Unit × B × State W Db × ReaddirStats
  readdir_miss fc st stats real_path readdirplus buf now =
      let can_cache = uses_cache st readdirplus in
      let stats' = if can_cache then record stats { misses = suc stats.misses } else stats in
      elim (dirs.entries st.world real_path) [
        | error e ↦ (error e, buf, st, stats')
        | done (des, end) ↦
            finish_listing st stats' real_path now
              (if can_cache then dirs.stat st.world real_path else error Errno.enoent)
              (fill_entries filler os s fc st.world real_path readdirplus end buf des)
      ]

  -- A listing answers if it is valid and its directory was not modified.
  unfoldable pub is_current : W → Str → DirHit → Bool
  is_current w real_path hit = elim (dirs.stat w real_path) [
    | error e ↦ false
    | done dir_st ↦ dir_st.mtime == hit.dir_mtime && hit.valid
  ]

  unfoldable pub cached_listing : State W Db → Str → Bool → ℕ → Option DirHit
  cached_listing st real_path readdirplus now =
      if uses_cache st readdirplus
      then cache_dir_lookup sql st.cache_meta_ctx (some real_path) now
      else none

  unfoldable pub bindfs_readdir :
      FuseContext
      → State W Db
      → ReaddirStats
      → Str
      → Bool
      → B
      → ℕ
      → Result Unit × B × State W Db × ReaddirStats
  bindfs_readdir fc st stats path readdirplus buf now =
      elim (process_path os s st.world path true) [
        | error e ↦ (error e, buf, st, stats)
        | done real_path ↦ elim (cached_listing st real_path readdirplus now) [
          | none ↦ readdir_miss fc st stats real_path readdirplus buf now
          | some hit ↦
              if is_current st.world real_path hit
              then (let (res, buf') = fill_cached filler buf hit.entries in
                  (res, buf', st, record stats { hits = suc stats.hits }))
              else readdir_miss fc st stats real_path readdirplus buf now
        ]
      ]
