-- ===== src/Mount/RootListing.antt =====
-- What `bindfs_mkdir` of src/cachefs.c leaves of the listings when the directory is made right below
-- the mount.
use cachefs.Prelude.{ℕ, ◌≡◌, refl, ap, true, ltb, Option, none, some, Str}
use mathlib.Core.Option
use cachefs.Prelude.Bits.{bit_and, bit_or}
use cachefs.Meta.{MetaEntry, Sqlite, MetaCtx, dir_hit, cache_meta_lookup, cache_dir_lookup}
use cachefs.Meta.Contract.{SqliteLaws}
use cachefs.Block.{BlockFs, BlockCtx}
use cachefs.Permchain.{permchain_apply}
use cachefs.Mount.{done, Settings, FuseContext, Os, State}
use cachefs.Mount.Paths.{process_path, invalidate_parent, split_last}
use cachefs.Mount.Policy.{chown_new_file}
use cachefs.Mount.Entries.{forget_new, finish_new, bindfs_mkdir}
use cachefs.Mount.Cached.{started}
use cachefs.Mount.Forget.{invalidated}

module _ {W Db : Type 0} (os : Os W) (fs : BlockFs W) (sql : Sqlite Db) (s : Settings)
    (saved : Db → Option Db) (laws : SqliteLaws sql saved) where
  forget_new-root :
      (c : MetaCtx Db) (block : Option BlockCtx) (w : W) (hits misses : ℕ) (real_path : Str)
      (db : Db)
      → split_last real_path ≡ none
      → sql.delete_meta c.db real_path ≡ some db
      → forget_new os fs sql s (started c block w hits misses) real_path
        ≡ started (record c { db = db }) block w hits misses
  unfolding forget_new invalidate_parent
  forget_new-root c block w hits misses real_path db split meta =
      let kept : invalidate_parent sql c real_path ≡ some c = rw (invalidate_parent, split) refl in
      rw (forget_new, kept, invalidated os fs sql s saved laws c real_path db meta) refl

  -- Where the system makes the directory and the DELETE statement is done, for a processed path
  -- without a '/', as that of a directory right below the mount: `bindfs_mkdir` drops the entry of
  -- the processed path, but a lookup of any listing, that of the parent too, finds what it found
  -- before.
  pub mkdir-keeps_listings :
      (fc : FuseContext) (c : MetaCtx Db) (block : Option BlockCtx) (w w' : W)
      (hits misses mode : ℕ) (path real_path : Str) (db : Db) (later : ℕ)
      → process_path os s w path true ≡ done real_path
      → os.make_dir w real_path
          (bit_and (permchain_apply s.create_permchain (bit_or mode 0o40000)) 0o777)
        ≡ done w'
      → split_last real_path ≡ none
      → sql.delete_meta c.db real_path ≡ some db
      → (st : State W Db) × (bindfs_mkdir os fs sql s fc (started c block w hits misses) path mode
          ≡ ((chown_new_file os s real_path fc os.chown w').0, st))
        × (cache_meta_lookup sql st.cache_meta_ctx (some real_path) later ≡ none)
        × ((dir : Str)
            → cache_dir_lookup sql st.cache_meta_ctx (some dir) later
              ≡ cache_dir_lookup sql (some c) (some dir) later)
  unfolding bindfs_mkdir finish_new cache_meta_lookup cache_dir_lookup dir_hit
  mkdir-keeps_listings fc c block w w' hits misses mode path real_path db later proc made split
        meta =
      let w'' = (chown_new_file os s real_path fc os.chown w').1 in
      (
        started (record c { db = db }) block w'' hits misses,
        rw
            (
              bindfs_mkdir,
              proc,
              made,
              finish_new,
              forget_new-root c block w'' hits misses real_path db split meta,
            )
            refl,
        ap (Option.map (λ (e : MetaEntry). (e, ltb later e.valid_until)))
            (laws.meta-delete_meta_self c.db db real_path meta),
        λ dir. ap (dir_hit later) (laws.dir-delete_meta c.db db real_path dir meta),
      )
