-- ===== src/Mount/Attr.antt =====
-- `getattr_common`, `ensure_cache_initialized` and `bindfs_getattr` of src/cachefs.c. `now` is the
-- time of the call.
use cachefs.Prelude.Bits.{bit_and, bit_xor, not32}
use cachefs.Prelude.{
  ℕ, suc, Bool, true, false, not, ◌&&◌, ◌||◌, none, some, List, [], ◌∷◌, ◌==◌, if◌then◌else◌, Str,
}
use cachefs.Posix.{Stat, Errno, is_blk}
use cachefs.Meta.{
  EntryType, MetaEntry, Sqlite, cache_meta_init, cache_meta_lookup, cache_meta_store,
  cache_meta_store_negative,
}
use cachefs.Block.{BlockFs}
use cachefs.Block.Operations.{cache_block_init}
use cachefs.Permchain.{permchain_apply}
use cachefs.Usermap.{no_id, usermap_get_uid_or_default, usermap_get_gid_or_default}
use cachefs.Mount.{Result, error, done, Settings, FuseContext, Os, State}
use cachefs.Mount.Ids.{apply_uid_offset, apply_gid_offset}
use cachefs.Mount.Paths.{process_path}

any {ℓ} : {A : Type ℓ} → (A → Bool) → List A → Bool
any f [] = false
any f (x ∷ xs) = f x || any f xs

is_empty {ℓ} : {A : Type ℓ} → List A → Bool
is_empty [] = true
is_empty (x ∷ xs) = false

module _ {W : Type 0} (os : Os W) (s : Settings) where
  unfoldable pub is_mirroring_enabled : Bool
  unfolding is_empty
  is_mirroring_enabled = not (is_empty s.mirrored_users && is_empty s.mirrored_members)

  is_mirrored_user : ℕ → Bool
  unfolding any
  is_mirrored_user uid =
      any (λ u. u == uid) s.mirrored_users
      || any (λ g. os.user_belongs_to_group uid g) s.mirrored_members

  -- The times, and the owner by map, offset and option.
  unfoldable pub show_owner : Stat → Result Stat
  show_owner st =
      let shown =
        if s.ctime_from_mtime
        then record st { ctime = st.mtime; ctime_nsec = st.mtime_nsec }
        else st in
      elim (apply_uid_offset s (usermap_get_uid_or_default s.usermap shown.uid shown.uid)) [
        | none ↦ error Errno.eio
        | some uid ↦
            elim (apply_gid_offset s (usermap_get_gid_or_default s.usermap shown.gid shown.gid)) [
              | none ↦ error Errno.eio
              | some gid ↦ done (record shown {
                uid = if s.new_uid == no_id then uid else s.new_uid;
                gid = if s.new_gid == no_id then gid else s.new_gid;
              })
            ]
      ]

  -- Block devices as regular files.
  unfoldable pub show_device : W → Str → Stat → Result Stat
  show_device w procpath st =
      if s.block_devices_as_files && is_blk st.mode
      then elim (os.device_size w procpath) [
        | error e ↦ error e
        | done none ↦ error Errno.eoverflow
        | done (some size) ↦ done (record st { mode = bit_xor st.mode 0o160000; size = size })
      ]
      else done st

  -- The permission bits.
  unfoldable pub show_mode : W → Str → Stat → Stat
  show_mode w procpath st =
      if bit_and st.mode 0o120000 == 0o120000
      then st
      else (let mode = permchain_apply s.permchain st.mode in
          if s.realistic_permissions
          then (let r = if os.readable w procpath then mode else bit_and mode (not32 0o444) in
              let rw' = if os.writable w procpath then r else bit_and r (not32 0o222) in
              let rwx = if os.executable w procpath then rw' else bit_and rw' (not32 0o111) in
              record st { mode = rwx })
          else record st { mode = mode })

  -- What follows the mirroring.
  unfoldable pub show_file : W → Str → Stat → Result Stat
  unfolding show_device show_mode
  show_file w procpath st =
      let linked = if s.hide_hard_links then record st { nlink = 1 } else st in
      elim (show_device w procpath linked) [
        | error e ↦ error e
        | done file ↦ done (show_mode w procpath file)
      ]

  -- The mirrored owner, or no access at all.
  unfoldable pub show_mirrored : FuseContext → W → Str → Stat → Result Stat
  unfolding show_file is_mirroring_enabled is_mirrored_user
  show_mirrored fc w procpath st =
      if is_mirroring_enabled && is_mirrored_user fc.uid
      then show_file w procpath (record st { uid = fc.uid })
      else if s.mirrored_users_only && not (fc.uid == 0)
      then done (record st { mode = bit_and st.mode (not32 0o777) })
      else show_file w procpath st

  unfoldable pub getattr_common : FuseContext → W → Str → Stat → Result Stat
  unfolding show_owner show_mirrored
  getattr_common fc w procpath st = elim (show_owner st) [
    | error e ↦ error e
    | done owned ↦ show_mirrored fc w procpath owned
  ]

-- The stat buffer that is built from an entry: what is not cached is 0.
unfoldable pub cached_stat : MetaEntry → Stat
cached_stat e = record {
  mode = e.mode;
  nlink = 0;
  size = e.size;
  mtime = e.mtime;
  ctime = e.ctime;
  uid = e.uid;
  gid = e.gid;
  ino = e.ino;
  dev = 0;
  rdev = 0;
  blksize = 0;
  blocks = 0;
  atime = 0;
  atime_nsec = 0;
  mtime_nsec = 0;
  ctime_nsec = 0;
}

module _ {W Db : Type 0} (os : Os W) (fs : BlockFs W) (sql : Sqlite Db) (s : Settings) where
  unfoldable pub ensure_cache_initialized : State W Db → State W Db
  ensure_cache_initialized st = if st.cache_initialized then st else elim s.cache_root [
    | none ↦ record st { cache_initialized = true }
    | some root ↦
        let (meta, made) =
          cache_meta_init sql fs.mkdir (some root) s.cache_meta_ttl s.cache_dir_ttl st.world in
        let (block, w) = cache_block_init fs (some root) s.cache_block_size s.cache_max_size made in
        record st {
          cache_meta_ctx = meta;
          cache_block_ctx = block;
          cache_initialized = true;
          world = w;
        }
  ]

  -- The guard of the handlers that start the cache.
  unfoldable pub lazy_init : State W Db → State W Db
  lazy_init st = elim s.cache_root [ none ↦ st | some root ↦ ensure_cache_initialized st ]

  -- A path that is processed, and its attributes as they are shown.
  unfoldable pub show_path : FuseContext → W → Str → Stat → Result Stat
  show_path fc w path stbuf = elim (process_path os s w path true) [
    | error e ↦ error e
    | done real_path ↦ getattr_common os s fc w real_path stbuf
  ]

  -- Only a missing file is remembered, by the processed path.
  unfoldable pub remember_missing : State W Db → Str → Errno → ℕ → State W Db
  remember_missing st real_path Errno.enoent now = record st {
    cache_meta_ctx = (cache_meta_store_negative sql st.cache_meta_ctx (some real_path) now).1;
  }
  remember_missing st real_path err now = st

  -- From the cache miss on.
  unfoldable pub getattr_miss : FuseContext → State W Db → Str → ℕ → Result Stat × State W Db
  getattr_miss fc st path now =
      let st' = record st { getattr_misses = suc st.getattr_misses } in
      elim (process_path os s st'.world path true) [
        | error e ↦ (error e, st')
        | done real_path ↦ elim (os.lstat st'.world real_path) [
          | error err ↦ (error err, remember_missing st' real_path err now)
          | done stbuf ↦ (
            getattr_common os s fc st'.world real_path stbuf,
            record st' {
              cache_meta_ctx =
                  (cache_meta_store sql st'.cache_meta_ctx (some path) (some stbuf) now).1;
            },
          )
        ]
      ]

  -- A valid entry answers.
  unfoldable pub getattr_cached :
      FuseContext → State W Db → Str → ℕ → MetaEntry → EntryType → Result Stat × State W Db
  getattr_cached fc st path now e EntryType.neg = (error Errno.enoent, st)
  getattr_cached fc st path now e EntryType.file =
      (show_path fc st.world path (cached_stat e), record st { getattr_hits = suc st.getattr_hits })
  getattr_cached fc st path now e EntryType.dir =
      (show_path fc st.world path (cached_stat e), record st { getattr_hits = suc st.getattr_hits })

  unfoldable pub getattr_ready : FuseContext → State W Db → Str → ℕ → Result Stat × State W Db
  getattr_ready fc st path now = elim (cache_meta_lookup sql st.cache_meta_ctx (some path) now) [
    | none ↦ getattr_miss fc st path now
    | some (e, false) ↦ getattr_miss fc st path now
    | some (e, true) ↦ getattr_cached fc st path now e e.type
  ]

  unfoldable pub bindfs_getattr : FuseContext → State W Db → Str → ℕ → Result Stat × State W Db
  bindfs_getattr fc st path now = getattr_ready fc (lazy_init st) path now
