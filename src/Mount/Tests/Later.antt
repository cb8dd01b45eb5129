-- ===== src/Mount/Tests/Later.antt =====
-- Second calls of the handlers of src/cachefs.c at concrete inputs, over the system in memory.
use cachefs.Prelude.{
  true, ◌↔◌, ◌++◌, Option, ◌≡◌, ◌≢◌, refl, false, none, some, List, [], ◌∷◌, arith, bytes, Str,
  str_eq, map, if◌then◌else◌, ◌++◌,
}
use cachefs.Posix.{ok, Stat}
use cachefs.Meta.{
  EntryType, DirEntry, MetaCtx, cache_meta_store, stored_entry, cache_dir_lookup, cache_dir_store,
  dir_hit, insert_rows, store_rows, end_transaction,
}
use cachefs.Meta.Listing.{first_type, last_type}
use cachefs.Meta.Sample.{MemoryDb, memory_saved, memory_sqlite, memory-laws}
use cachefs.Meta.Transaction.{IsUnlocked}
use cachefs.Meta.Reach.{Clocked, here, IsTimelyAt}
use cachefs.Block.Sample.{Disk, disk_fs}
use cachefs.Mount.{done}
use cachefs.Mount.Paths.{process_path, skip_slashes, or_dot}
use cachefs.Mount.Attr.{getattr_common, bindfs_getattr}
use cachefs.Mount.Sample.{disk, meta, meta_x, memory_os, options, x_stat, fc}
use cachefs.Mount.Cached.{started}
use cachefs.Mount.Expired.{getattr_catches_up}
use cachefs.Mount.Readdir.{
  Dirent, DirOs, dt_dir, dt_other, Fill, filled, ReaddirStats, cached_entry, fill_cached,
  entry_stat, fill_entries, bindfs_readdir,
}
use cachefs.Mount.Relist.{readdir_again}
use cachefs.Mount.Paths.{path_starts_with, strip_end}
use cachefs.Mount.Prefix.{IsRest, path_starts_with_iff}

memory_deletes : (db : MemoryDb) (p : Str) → memory_sqlite.delete_meta db p ≢ none
memory_deletes db p = ground arith

abbrev begins : Clocked MemoryDb
begins = record { now = 100; ctx = meta_x }

begins-IsTimely : IsTimelyAt memory_sqlite begins
unfolding stored_entry
begins-IsTimely p e h = ground arith

-- The context with an entry of `/x` that was stored again, at time 105.
abbrev meta_x_later : MetaCtx MemoryDb
meta_x_later = record meta {
  db = record {
    tables = record {
      metas = λ p.
          if str_eq (bytes "/x") p
          then some (stored_entry 105 5 x_stat)
          else if str_eq (bytes "/x") p
          then some (stored_entry 100 5 x_stat)
          else none;
      dirs = λ d. [];
    };
    backup = none;
  };
}

getattr_catches_up_example :
    bindfs_getattr memory_os disk_fs memory_sqlite options fc
      (started meta_x none disk 0 0)
      (bytes "/x")
      105
    ≡ (
      getattr_common memory_os options fc disk (bytes "x") x_stat,
      started meta_x_later none disk 0 1,
    )
unfolding process_path skip_slashes or_dot str_eq cache_meta_store
getattr_catches_up_example =
    getattr_catches_up memory_os disk_fs memory_sqlite options memory_saved memory-laws
      memory_deletes begins begins fc meta_x_later ok none disk 0 0 (bytes "/x") (bytes "x") x_stat
      105 begins-IsTimely here (omega arith) refl refl refl

-- A directory with a file and a directory, and a buffer that takes every name.
abbrev des : List Dirent
des =
    (record { name = bytes "b"; type = dt_other })
    ∷ (record { name = bytes "a"; type = dt_dir })
    ∷ []

abbrev root_dir : DirOs Disk
root_dir = record { entries = λ d p. done (des, none); stat = λ d p. done x_stat }

abbrev filler : List Str → Str → Option Stat → Fill (List Str)
filler buf name st = filled (buf ++ name ∷ [])

abbrev counters : ReaddirStats
counters = record { hits = 0; misses = 0 }

memory-IsUnlocked : IsUnlocked memory_sqlite
memory-IsUnlocked = record { deletes = λ db d. ground arith; commits = λ db. ground arith }

-- The context after the listing was stored at time 100.
abbrev listed : MetaCtx MemoryDb
unfolding cache_dir_store store_rows insert_rows end_transaction cached_entry
listed = record meta {
  db =
      (store_rows memory_sqlite meta.db (bytes ".") (
        (record {
          entry_name = bytes "b";
          entry_type = EntryType.file;
          dir_mtime = 700;
          cached_at = 100;
          valid_until = 110;
        })
        ∷ (record {
          entry_name = bytes "a";
          entry_type = EntryType.dir;
          dir_mtime = 700;
          cached_at = 100;
          valid_until = 110;
        })
        ∷ [])).1;
}

readdir_again_example :
    (bindfs_readdir memory_os root_dir memory_sqlite options filler fc
        (started meta none disk 0 0)
        counters
        (bytes "/")
        false
        []
        100
      ≡ (
        done tt,
        bytes "b" ∷ bytes "a" ∷ [],
        started listed none disk 0 0,
        record { hits = 0; misses = 1 },
      ))
    × (found : List DirEntry) × ((n : Str)
        → first_type n found ≡ last_type n (map cached_entry des))
    × (bindfs_readdir memory_os root_dir memory_sqlite options filler fc
          (started listed none disk 0 0)
          counters
          (bytes "/")
          false
          []
          105
        ≡ (
          (fill_cached filler [] found).0,
          (fill_cached filler [] found).1,
          started listed none disk 0 0,
          record { hits = 1; misses = 0 },
        ))
unfolding process_path skip_slashes or_dot cache_dir_lookup cache_dir_store store_rows insert_rows
    end_transaction listed fill_entries entry_stat cached_entry dir_hit
readdir_again_example =
    readdir_again memory_os root_dir memory_sqlite options filler memory_saved memory-laws
      memory-IsUnlocked fc meta listed none disk disk 0 0 counters (bytes "/") (bytes ".") x_stat
      x_stat des [] (bytes "b" ∷ bytes "a" ∷ []) []
      (record { name = bytes "b"; type = EntryType.file })
      ((record { name = bytes "a"; type = EntryType.dir }) ∷ []) 100 105 refl refl refl refl refl
      refl refl refl refl (omega arith)

path_starts_with_iff_example :
    (path_starts_with (bytes "/mnt/a") (bytes "/mnt/") ≡ true)
    ↔ ((r : Str) × (bytes "/mnt/a" ≡ strip_end (bytes "/mnt/") ++ r) × IsRest r)
path_starts_with_iff_example = path_starts_with_iff (bytes "/mnt/a") (bytes "/mnt/") (omega arith)
