-- ===== src/Mount/Tests/Names.antt =====
-- Deletion and mkdir of src/cachefs.c at concrete inputs, over the system in memory.
use cachefs.Prelude.{List, ◌∷◌, ◌≡◌, refl, true, none, some, [], bytes, str_eq, Str, if◌then◌else◌}
use cachefs.Meta.{EntryType, MetaEntry, MetaCtx, DirRow, dir_row, cache_meta_lookup, stored_entry}
use cachefs.Meta.Sample.{MemoryDb, memory_saved, memory_sqlite, memory-laws}
use cachefs.Block.Sample.{Disk, disk_fs}
use cachefs.Mount.{done, State}
use cachefs.Mount.Paths.{process_path, skip_slashes, or_dot}
use cachefs.Mount.Sample.{disk, meta_x, memory_os, options, x_stat, fc}
use cachefs.Mount.Cached.{started}
use cachefs.Meta.{cache_dir_lookup}
use cachefs.Mount.Paths.{split_last}
use cachefs.Mount.Policy.{chown_new_file}
use cachefs.Mount.Entries.{Deletion, plan_deletion, delete_file, bindfs_mkdir}
use cachefs.Mount.Entries.{bindfs_rename}
use cachefs.Mount.Renamed.{IsForgotten, rename-IsForgotten}
use cachefs.Mount.RootListing.{mkdir-keeps_listings}
use cachefs.Mount.Forget.{IsRelative, process_path-IsRelative, delete_file-forgets, mkdir-forgets}

process_path-IsRelative_example : IsRelative (bytes "x")
unfolding process_path skip_slashes or_dot
process_path-IsRelative_example =
    process_path-IsRelative memory_os options disk (bytes "//x") (bytes "x") true refl refl

-- The directory `d` with the file `d/x`.
abbrev in_d : Str
in_d = bytes "d/x"

-- A cache that has an entry for every path and a listing of every directory.
abbrev entry : MetaEntry
entry = stored_entry 100 5 x_stat

abbrev rows : List DirRow
rows = dir_row 100 10 700 (record { name = bytes "x"; type = EntryType.file }) ∷ []

abbrev full : MetaCtx MemoryDb
full = record meta_x {
  db = record { tables = record { metas = λ p. some entry; dirs = λ d. rows }; backup = none };
}

abbrev db_without : MemoryDb
db_without = record {
  tables = record { metas = λ p. if str_eq in_d p then none else some entry; dirs = λ d. rows };
  backup = none;
}

abbrev db_after : MemoryDb
db_after = record db_without {
  tables = record {
    metas = db_without.tables.metas;
    dirs = λ d. if str_eq (bytes "d") d then [] else rows;
  };
}

abbrev plain : Deletion Disk
plain = record { main_delete_func = memory_os.unlink_file; also_try_delete = none; world = disk }

delete_file-forgets_example :
    (st : State Disk MemoryDb) × (delete_file memory_os disk_fs memory_sqlite options
        (started full none disk 0 0)
        (bytes "/d/x")
        memory_os.unlink_file
      ≡ (done tt, st))
    × (cache_meta_lookup memory_sqlite st.cache_meta_ctx (some in_d) 101 ≡ none)
    × (cache_dir_lookup memory_sqlite st.cache_meta_ctx (some (bytes "d")) 101 ≡ none)
unfolding process_path skip_slashes or_dot split_last plan_deletion
delete_file-forgets_example =
    delete_file-forgets memory_os disk_fs memory_sqlite options memory_saved memory-laws full none
      disk disk 0 0 (bytes "/d/x") in_d [] (bytes "x") b'd' memory_os.unlink_file plain db_without
      db_after 101 refl refl refl refl refl refl refl

-- The listing goes first.
abbrev db_unlisted : MemoryDb
db_unlisted = record {
  tables = record {
    metas = full.db.tables.metas;
    dirs = λ d. if str_eq (bytes "d") d then [] else rows;
  };
  backup = none;
}

mkdir-forgets_example :
    (st : State Disk MemoryDb) × (bindfs_mkdir memory_os disk_fs memory_sqlite options fc
        (started full none disk 0 0)
        (bytes "/d/x")
        0o755
      ≡ ((chown_new_file memory_os options in_d fc memory_os.chown disk).0, st))
    × (cache_meta_lookup memory_sqlite st.cache_meta_ctx (some in_d) 101 ≡ none)
    × (cache_dir_lookup memory_sqlite st.cache_meta_ctx (some (bytes "d")) 101 ≡ none)
unfolding process_path skip_slashes or_dot split_last
mkdir-forgets_example =
    mkdir-forgets memory_os disk_fs memory_sqlite options memory_saved memory-laws fc full none disk
      disk 0 0 0o755 (bytes "/d/x") in_d [] (bytes "x") b'd' db_unlisted db_after 101 refl refl refl
      refl refl

-- The databases after each of the four statements of a rename of `d/x` to `e/x`.
abbrev db_1 : MemoryDb
db_1 = db_without

abbrev db_2 : MemoryDb
db_2 = record db_1 {
  tables = record {
    metas = λ p. if str_eq (bytes "e/x") p then none else db_1.tables.metas p;
    dirs = db_1.tables.dirs;
  };
}

abbrev db_3 : MemoryDb
db_3 = record db_2 {
  tables = record {
    metas = db_2.tables.metas;
    dirs = λ d. if str_eq (bytes "d") d then [] else rows;
  };
}

abbrev db_4 : MemoryDb
db_4 = record db_3 {
  tables = record {
    metas = db_3.tables.metas;
    dirs = λ d. if str_eq (bytes "e") d then [] else db_3.tables.dirs d;
  };
}

rename-IsForgotten_example :
    IsForgotten memory_sqlite
      (bindfs_rename memory_os disk_fs memory_sqlite options
        (started full none disk 0 0)
        (bytes "/d/x")
        (bytes "/e/x")
        0).1.cache_meta_ctx
      in_d
      (bytes "e/x")
      (bytes "d")
      (bytes "e")
      101
unfolding process_path skip_slashes or_dot split_last
rename-IsForgotten_example =
    rename-IsForgotten memory_os disk_fs memory_sqlite options memory_saved memory-laws full
      (bytes "/d/x") (bytes "/e/x") in_d (bytes "e/x") (bytes "x") (bytes "x") [] [] b'd' b'e' db_1
      db_2 db_3 db_4 refl refl refl refl refl refl none disk 0 0 0 101 refl refl refl

abbrev db_no_x : MemoryDb
db_no_x = record {
  tables = record {
    metas = λ p. if str_eq (bytes "x") p then none else some entry;
    dirs = λ d. rows;
  };
  backup = none;
}

mkdir-keeps_listings_example :
    (st : State Disk MemoryDb) × (bindfs_mkdir memory_os disk_fs memory_sqlite options fc
        (started full none disk 0 0)
        (bytes "/x")
        0o755
      ≡ ((chown_new_file memory_os options (bytes "x") fc memory_os.chown disk).0, st))
    × (cache_meta_lookup memory_sqlite st.cache_meta_ctx (some (bytes "x")) 101 ≡ none)
    × ((dir : Str)
        → cache_dir_lookup memory_sqlite st.cache_meta_ctx (some dir) 101
          ≡ cache_dir_lookup memory_sqlite (some full) (some dir) 101)
unfolding process_path skip_slashes or_dot split_last
mkdir-keeps_listings_example =
    mkdir-keeps_listings memory_os disk_fs memory_sqlite options memory_saved memory-laws fc full
      none disk disk 0 0 0o755 (bytes "/x") (bytes "x") db_no_x 101 refl refl refl refl
