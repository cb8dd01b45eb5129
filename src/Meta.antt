-- ===== src/Meta.antt =====
-- src/cache_meta.h and src/cache_meta.c: the metadata cache over SQLite. `Sqlite` is what the code
-- uses of the library, one field for each prepared statement; `none` is a step that did not reach
-- SQLITE_DONE, and a statement that fails changes nothing. Children prove the laws.
pub mod Contract
pub mod Entries
pub mod Listing
pub mod Transaction
pub mod Refine
pub mod Reach
pub mod Sample
mod Tests
use mathlib.Core.Option
use cachefs.Prelude.{
  ℕ, ◌+◌, Bool, Option, none, some, List, [], ◌∷◌, map, ltb, Str, bytes, take, ◌++◌, ◌>>=◌,
}
use cachefs.Posix.{Status, ok, failed, Stat}

pub data EntryType : Type 0 where
  file dir neg : EntryType

pub record MetaEntry : Type 0 where
  pub type : EntryType
  pub size : ℕ
  pub mtime : ℕ
  pub ctime : ℕ
  pub mode : ℕ
  pub uid : ℕ
  pub gid : ℕ
  pub ino : ℕ
  pub cached_at : ℕ
  pub valid_until : ℕ

pub record DirEntry : Type 0 where
  pub name : Str
  pub type : EntryType

-- A row of `dir_entries` without its directory.
pub record DirRow : Type 0 where
  pub entry_name : Str
  pub entry_type : EntryType
  pub dir_mtime : ℕ
  pub cached_at : ℕ
  pub valid_until : ℕ

pub record Sqlite (Db : Type 0) : Type 0 where
  pub open_db : Str → Option Db
  pub create_metadata : Db → Option Db
  pub create_dir_entries : Db → Option Db
  pub select_meta : Db → Str → Option MetaEntry
  pub insert_meta : Db → Str → MetaEntry → Option Db
  pub delete_meta : Db → Str → Option Db
  pub select_dir : Db → Str → List DirRow
  pub insert_dir : Db → Str → DirRow → Option Db
  pub delete_dir : Db → Str → Option Db
  pub begin : Db → Option Db
  pub commit : Db → Option Db
  pub rollback : Db → Option Db

-- `struct cache_meta_ctx`, without its statements and its debug flag.
pub record MetaCtx (Db : Type 0) : Type 0 where
  pub db : Db
  pub cache_root : Str
  pub meta_ttl : ℕ
  pub dir_ttl : ℕ

-- What `cache_dir_lookup` writes through its pointers.
pub record DirHit : Type 0 where
  pub entries : List DirEntry
  pub dir_mtime : ℕ
  pub valid : Bool

-- The row that `cache_meta_store` binds: its type is always CACHE_ENTRY_FILE.
unfoldable pub stored_entry : ℕ → ℕ → Stat → MetaEntry
stored_entry now ttl st = record {
  type = EntryType.file;
  size = st.size;
  mtime = st.mtime;
  ctime = st.ctime;
  mode = st.mode;
  uid = st.uid;
  gid = st.gid;
  ino = st.ino;
  cached_at = now;
  valid_until = now + ttl;
}

unfoldable pub negative_entry : ℕ → ℕ → MetaEntry
negative_entry now ttl = record {
  type = EntryType.neg;
  size = 0;
  mtime = 0;
  ctime = 0;
  mode = 0;
  uid = 0;
  gid = 0;
  ino = 0;
  cached_at = now;
  valid_until = now + ttl;
}

abbrev pub dir_row : ℕ → ℕ → ℕ → DirEntry → DirRow
dir_row now ttl dir_mtime e = record {
  entry_name = e.name;
  entry_type = e.type;
  dir_mtime = dir_mtime;
  cached_at = now;
  valid_until = now + ttl;
}

abbrev pub dir_entry : DirRow → DirEntry
dir_entry r = record { name = r.entry_name; type = r.entry_type }

-- The rows that the second loop of `cache_dir_lookup` reads; the first row gives the times.
unfoldable pub dir_hit : ℕ → List DirRow → Option DirHit
dir_hit now [] = none
dir_hit now (r ∷ rs) = some (record {
  entries = map dir_entry (r ∷ rs);
  dir_mtime = r.dir_mtime;
  valid = ltb now r.valid_until;
})

module _ {Db : Type 0} (sql : Sqlite Db) where
  -- The database file of a cache root, with its two tables.
  open_tables : Str → ℕ → ℕ → Option (MetaCtx Db)
  open_tables cache_root meta_ttl dir_ttl = do
    opened ← sql.open_db (take 4095 (cache_root ++ bytes "/metadata.db"))
    with_meta ← sql.create_metadata opened
    ready ← sql.create_dir_entries with_meta
    some (record { db = ready; cache_root = cache_root; meta_ttl = meta_ttl; dir_ttl = dir_ttl })

  -- The directory is made first, and the result of `mkdir` is not looked at.
  pub cache_meta_init :
      {W : Type 0} → (W → Str → W) → Option Str → ℕ → ℕ → W → Option (MetaCtx Db) × W
  unfolding open_tables
  cache_meta_init mkdir none meta_ttl dir_ttl w = (none, w)
  cache_meta_init mkdir (some cache_root) meta_ttl dir_ttl w =
      (open_tables cache_root meta_ttl dir_ttl, mkdir w cache_root)

  -- The entry and `*valid`, or nothing for -1. A NULL pointer is `none`.
  unfoldable pub cache_meta_lookup :
      Option (MetaCtx Db) → Option Str → ℕ → Option (MetaEntry × Bool)
  cache_meta_lookup none path now = none
  cache_meta_lookup (some c) none now = none
  cache_meta_lookup (some c) (some path) now =
      Option.map (λ e. (e, ltb now e.valid_until)) (sql.select_meta c.db path)

  pub insert_entry : MetaCtx Db → Str → MetaEntry → Status × Option (MetaCtx Db)
  insert_entry c path e = elim (sql.insert_meta c.db path e) [
    | none ↦ (failed, some c)
    | some db ↦ (ok, some (record c { db = db }))
  ]

  unfoldable pub cache_meta_store :
      Option (MetaCtx Db) → Option Str → Option Stat → ℕ → Status × Option (MetaCtx Db)
  unfolding insert_entry
  cache_meta_store none path stbuf now = (failed, none)
  cache_meta_store (some c) none stbuf now = (failed, some c)
  cache_meta_store (some c) (some path) none now = (failed, some c)
  cache_meta_store (some c) (some path) (some stbuf) now =
      insert_entry c path (stored_entry now c.meta_ttl stbuf)

  unfoldable pub cache_meta_store_negative :
      Option (MetaCtx Db) → Option Str → ℕ → Status × Option (MetaCtx Db)
  unfolding insert_entry
  cache_meta_store_negative none path now = (failed, none)
  cache_meta_store_negative (some c) none now = (failed, some c)
  cache_meta_store_negative (some c) (some path) now =
      insert_entry c path (negative_entry now c.meta_ttl)

  -- The result of the step is not looked at.
  unfoldable pub cache_meta_invalidate :
      Option (MetaCtx Db) → Option Str → Status × Option (MetaCtx Db)
  cache_meta_invalidate none path = (failed, none)
  cache_meta_invalidate (some c) none = (failed, some c)
  cache_meta_invalidate (some c) (some path) =
      (ok, some (record c { db = Option.get_or (sql.delete_meta c.db path) c.db }))

  unfoldable pub cache_dir_lookup : Option (MetaCtx Db) → Option Str → ℕ → Option DirHit
  cache_dir_lookup none path now = none
  cache_dir_lookup (some c) none now = none
  cache_dir_lookup (some c) (some path) now = dir_hit now (sql.select_dir c.db path)

  -- The loop of inserts: the database it leaves, and whether every step was done.
  unfoldable pub insert_rows : Db → Str → List DirRow → Status × Db
  insert_rows db path [] = (ok, db)
  insert_rows db path (r ∷ rs) = elim (sql.insert_dir db path r) [
    | none ↦ (failed, db)
    | some db' ↦ insert_rows db' path rs
  ]

  -- What follows the loop: COMMIT, or ROLLBACK after a failed insert.
  unfoldable pub end_transaction : Status × Db → Status × Db
  end_transaction (ok, db) = (ok, Option.get_or (sql.commit db) db)
  end_transaction (failed, db) = (failed, Option.get_or (sql.rollback db) db)

  -- The statements from BEGIN TRANSACTION on.
  unfoldable pub store_rows : Db → Str → List DirRow → Status × Db
  unfolding insert_rows end_transaction
  store_rows db path rows =
      let opened = Option.get_or (sql.begin db) db in
      let cleared = Option.get_or (sql.delete_dir opened path) opened in
      end_transaction (insert_rows cleared path rows)

  unfoldable pub cache_dir_store :
      Option (MetaCtx Db)
      → Option Str
      → Option (List DirEntry)
      → ℕ
      → ℕ
      → Status × Option (MetaCtx Db)
  cache_dir_store none path entries dir_mtime now = (failed, none)
  cache_dir_store (some c) none entries dir_mtime now = (failed, some c)
  cache_dir_store (some c) (some path) none dir_mtime now = (failed, some c)
  cache_dir_store (some c) (some path) (some entries) dir_mtime now =
      let (status, db) = store_rows c.db path (map (dir_row now c.dir_ttl dir_mtime) entries) in
      (status, some (record c { db = db }))

  unfoldable pub cache_dir_invalidate :
      Option (MetaCtx Db) → Option Str → Status × Option (MetaCtx Db)
  cache_dir_invalidate none path = (failed, none)
  cache_dir_invalidate (some c) none = (failed, some c)
  cache_dir_invalidate (some c) (some path) =
      (ok, some (record c { db = Option.get_or (sql.delete_dir c.db path) c.db }))
