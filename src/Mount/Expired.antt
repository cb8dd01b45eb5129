-- ===== src/Mount/Expired.antt =====
-- `bindfs_getattr` of src/cachefs.c once a TTL has passed.
use cachefs.Prelude.{
  ℕ, suc, ◌+◌, ◌≤◌, ◌≡◌, ◌≢◌, refl, ap, ◌∙◌, inl, inr, Bool, true, false, Option, none, some,
  Option-cases, Str,
}
use cachefs.Posix.{Status, Stat}
use cachefs.Meta.{MetaEntry, Sqlite, MetaCtx, cache_meta_lookup, cache_meta_store}
use cachefs.Meta.Contract.{SqliteLaws}
use cachefs.Meta.Reach.{Clocked, Reach, IsTimelyAt, lookup_expires}
use cachefs.Block.{BlockFs, BlockCtx}
use cachefs.Mount.{done, Settings, FuseContext, Os}
use cachefs.Mount.Paths.{process_path}
use cachefs.Mount.Attr.{getattr_common, getattr_miss, getattr_ready, bindfs_getattr}
use cachefs.Mount.Cached.{started, lazy_init-ready}

module _ {W Db : Type 0} (os : Os W) (fs : BlockFs W) (sql : Sqlite Db) (s : Settings) where
  getattr_stale :
      (fc : FuseContext) (c : MetaCtx Db) (block : Option BlockCtx) (w : W) (hits misses : ℕ)
      (path : Str) (now : ℕ)
      → ((e : MetaEntry) (valid : Bool)
          → cache_meta_lookup sql (some c) (some path) now ≡ some (e, valid)
          → valid ≡ false)
      → getattr_ready os fs sql s fc (started c block w hits misses) path now
        ≡ getattr_miss os fs sql s fc (started c block w hits misses) path now
  unfolding getattr_ready
  getattr_stale fc c block w hits misses path now stale =
      elim (Option-cases (cache_meta_lookup sql (some c) (some path) now)) [
        | inl absent ↦ rw (getattr_ready, absent) refl
        | inr ((e, valid), present) ↦ rw (getattr_ready, present, stale e valid present) refl
      ]

module _ {W Db : Type 0} (os : Os W) (fs : BlockFs W) (sql : Sqlite Db) (s : Settings)
    (saved : Db → Option Db) (laws : SqliteLaws sql saved)
    (deletes : (db : Db) (p : Str) → sql.delete_meta db p ≢ none) where
  -- Where DELETE statements are done and no entry outlives its TTL at the start: whatever stores,
  -- negative stores, invalidations and pauses there were, and whatever was changed in the backend, a
  -- `bindfs_getattr` that comes one TTL after the last of them or later is a miss that shows the
  -- attributes that lstat gives now, and stores them.
  pub getattr_catches_up :
      (a b : Clocked Db) (fc : FuseContext) (c' : MetaCtx Db) (status : Status)
      (block : Option BlockCtx) (w : W) (hits misses : ℕ) (path real_path : Str) (stbuf : Stat)
      (later : ℕ)
      → IsTimelyAt sql a
      → Reach sql a b
      → b.now + b.ctx.meta_ttl ≤ later
      → process_path os s w path true ≡ done real_path
      → os.lstat w real_path ≡ done stbuf
      → cache_meta_store sql (some b.ctx) (some path) (some stbuf) later ≡ (status, some c')
      → bindfs_getattr os fs sql s fc (started b.ctx block w hits misses) path later
        ≡ (getattr_common os s fc w real_path stbuf, started c' block w hits (suc misses))
  unfolding bindfs_getattr getattr_miss
  getattr_catches_up a b fc c' status block w hits misses path real_path stbuf later start r past
        proc stat store =
      ap (λ st. getattr_ready os fs sql s fc st path later)
        (lazy_init-ready os fs sql s (started b.ctx block w hits misses) refl)
      ∙ getattr_stale os fs sql s fc b.ctx block w hits misses path later
          (λ e valid. lookup_expires sql saved laws deletes a b path later e valid start r past)
      ∙ rw (getattr_miss, proc, stat, store) refl
