-- ===== src/Meta/Tests.antt =====
-- src/cache_meta.c at concrete inputs, over the database in memory.
mod History
use cachefs.Prelude.{
  true, false, ◌≡◌, refl, none, some, List, [], ◌∷◌, arith, bytes, str_eq, ltb, if◌then◌else◌,
}
use cachefs.Posix.{Stat}
use cachefs.Meta.{
  EntryType, DirEntry, Sqlite, MetaCtx, stored_entry, negative_entry, dir_hit, cache_meta_init,
  cache_meta_lookup, cache_meta_store, cache_meta_store_negative, cache_meta_invalidate,
  insert_rows, end_transaction, store_rows, cache_dir_lookup, cache_dir_store,
}
use cachefs.Meta.Contract.{SqliteLaws, upsert}
use cachefs.Meta.Sample.{MemoryDb, empty_db, memory_saved, memory_sqlite, memory-laws}
use cachefs.Meta.Entries.{lookup-store, lookup-invalidate}
use cachefs.Meta.Transaction.{IsUnlocked, Lists, dir_lookup-dir_store, dir_store_failed}

abbrev st : Stat
st = record {
  mode = 33188;
  nlink = 1;
  size = 12;
  mtime = 700;
  ctime = 701;
  uid = 1000;
  gid = 100;
  ino = 42;
  dev = 2049;
  rdev = 0;
  blksize = 4096;
  blocks = 8;
  atime = 650;
  atime_nsec = 11;
  mtime_nsec = 12;
  ctime_nsec = 13;
}

abbrev ctx : MetaCtx MemoryDb
ctx = record { db = empty_db; cache_root = bytes "/c"; meta_ttl = 5; dir_ttl = 10 }

init_runs :
    cache_meta_init memory_sqlite (λ w d. d) (some (bytes "/c")) 5 10 [] ≡ (some ctx, bytes "/c")
unfolding cache_meta_init
init_runs = refl

-- The context after a `cache_meta_store` of `/a` at time 100.
abbrev stored : MetaCtx MemoryDb
stored = record ctx {
  db = record {
    tables = record {
      metas = λ q. if str_eq (bytes "/a") q then some (stored_entry 100 5 st) else none;
      dirs = λ d. [];
    };
    backup = none;
  };
}

-- The entry is found and valid at time 104, and found and expired at time 105.
expiry :
    (cache_meta_lookup memory_sqlite (some stored) (some (bytes "/a")) 104
      ≡ some (stored_entry 100 5 st, true))
    × (cache_meta_lookup memory_sqlite (some stored) (some (bytes "/a")) 105
        ≡ some (stored_entry 100 5 st, false))
unfolding cache_meta_lookup str_eq stored_entry
expiry = (refl, refl)

memory-IsUnlocked : IsUnlocked memory_sqlite
memory-IsUnlocked = record { deletes = λ db d. ground arith; commits = λ db. ground arith }

abbrev listing : List DirEntry
listing =
    (record { name = bytes "b"; type = EntryType.file })
    ∷ (record { name = bytes "a"; type = EntryType.dir })
    ∷ []

-- The context after a `cache_dir_store` of the listing.
abbrev listed : MetaCtx MemoryDb
unfolding cache_dir_store store_rows insert_rows end_transaction
listed = record ctx {
  db =
      (store_rows memory_sqlite empty_db (bytes "d") (
        (record {
          entry_name = bytes "b";
          entry_type = EntryType.file;
          dir_mtime = 7;
          cached_at = 100;
          valid_until = 110;
        })
        ∷ (record {
          entry_name = bytes "a";
          entry_type = EntryType.dir;
          dir_mtime = 7;
          cached_at = 100;
          valid_until = 110;
        })
        ∷ [])).1;
}

dir_lookup-dir_store_example :
    Lists (cache_dir_lookup memory_sqlite (some listed) (some (bytes "d")) 105) listing 7 110 105
unfolding cache_dir_store store_rows insert_rows end_transaction listed
dir_lookup-dir_store_example =
    dir_lookup-dir_store memory_sqlite memory_saved memory-laws memory-IsUnlocked ctx listed
      (bytes "d") (record { name = bytes "b"; type = EntryType.file })
      ((record { name = bytes "a"; type = EntryType.dir }) ∷ []) 7 100 105 refl

-- `ORDER BY entry_name`: the names come back sorted.
sorted :
    cache_dir_lookup memory_sqlite (some listed) (some (bytes "d")) 105
    ≡ some (record {
      entries =
          (record { name = bytes "a"; type = EntryType.dir })
          ∷ (record { name = bytes "b"; type = EntryType.file })
          ∷ [];
      dir_mtime = 7;
      valid = true;
    })
unfolding cache_dir_lookup dir_hit store_rows insert_rows end_transaction upsert listed str_eq
sorted = refl

-- A database on which every INSERT into `dir_entries` fails.
abbrev full_disk : Sqlite MemoryDb
full_disk = record memory_sqlite { insert_dir = λ db d r. none }

full_disk-laws : SqliteLaws full_disk memory_saved
full_disk-laws = record {
  meta-insert_meta_self = memory-laws.meta-insert_meta_self;
  meta-insert_meta_ne = memory-laws.meta-insert_meta_ne;
  dir-insert_meta = memory-laws.dir-insert_meta;
  meta-delete_meta_self = memory-laws.meta-delete_meta_self;
  meta-delete_meta_ne = memory-laws.meta-delete_meta_ne;
  dir-delete_meta = memory-laws.dir-delete_meta;
  dir-insert_dir_self = λ db db' d r h. ground arith;
  dir-insert_dir_ne = λ db db' d d' r h ne. ground arith;
  dir-delete_dir_self = memory-laws.dir-delete_dir_self;
  dir-delete_dir_ne = memory-laws.dir-delete_dir_ne;
  meta-delete_dir = memory-laws.meta-delete_dir;
  dir-commit = memory-laws.dir-commit;
  saved-begin = memory-laws.saved-begin;
  saved-delete_dir = memory-laws.saved-delete_dir;
  saved-insert_dir = λ db db' d r h. ground arith;
  rollback-saved = memory-laws.rollback-saved;
}

dir_store_failed_example : ctx ≡ ctx
unfolding cache_dir_store store_rows insert_rows end_transaction
dir_store_failed_example =
    dir_store_failed full_disk memory_saved full_disk-laws
      (record { deletes = λ db d. ground arith; commits = λ db. ground arith }) ctx ctx (bytes "d")
      listing 7 100 (ground arith) refl
