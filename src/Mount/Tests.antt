-- ===== src/Mount/Tests.antt =====
-- The handlers of src/cachefs.c at concrete inputs, over the system in memory.
mod Names
mod Owners
mod Later
use cachefs.Prelude.{
  ℕ, ◌/◌, ◌%◌, ◌^◌, ◌≤◌, ◌≡◌, ◌≢◌, refl, inl, true, false, none, some, List, [], ◌∷◌, length, arith,
  bytes, str_eq, Str, if◌then◌else◌, ap, add64,
}
use cachefs.Posix.{ok, Stat, Errno, is_reg}
use cachefs.Meta.{
  MetaCtx, cache_meta_lookup, cache_meta_store, cache_meta_store_negative, stored_entry,
  negative_entry,
}
use cachefs.Meta.Sample.{MemoryDb, empty_db, memory_saved, memory_sqlite, memory-laws}
use cachefs.Block.{BlockCtx, get_block_path, hash_path, hex, decimal}
use cachefs.Block.Operations.{cache_block_write, cache_block_exists, write_file, create_block_dir}
use cachefs.Block.Sample.{Disk, disk_fs, disk_content, disk-laws, disk-IsUnlinkable}
use cachefs.Mount.{error, done, State}
use cachefs.Mount.Ids.{
  id_max, bounded_add, apply_uid_offset, apply_gid_offset, unapply_uid_offset, unapply_gid_offset,
}
use cachefs.Mount.Paths.{process_path, skip_slashes, or_dot}
use cachefs.Mount.Attr.{getattr_common, bindfs_getattr}
use cachefs.Mount.Files.{
  bindfs_open, bindfs_read, bindfs_write, cache_coherency_check_and_invalidate,
}
use cachefs.Mount.Policy.{bindfs_chmod, chmod_by, mode_diff, old_mode}
use cachefs.Mount.Sample.{disk, meta, meta_x, memory_os, options, x_stat, fc, fi}
use cachefs.Mount.Offset.{unapply-apply}
use cachefs.Mount.Cached.{kept_attributes, started, getattr_again, missing_again}
use cachefs.Mount.Reread.{read_again}
use cachefs.Mount.Fresh.{IsFresh, check_and_invalidate-IsFresh, open-IsFresh, write-drops}
use cachefs.Mount.Chmod.{chmod_deny-keeps}
use cachefs.Meta.{cache_dir_lookup}
use cachefs.Mount.Paths.{split_last}
use cachefs.Mount.Policy.{chown_new_file}
use cachefs.Mount.Entries.{Deletion, plan_deletion, delete_file, bindfs_mkdir}
use cachefs.Mount.Forget.{IsRelative, process_path-IsRelative, delete_file-forgets, mkdir-forgets}

unapply-apply_example :
    (101000 ≤ id_max)
    × (100 ≤ id_max)
    × (unapply_uid_offset options 101000 ≡ some 1000)
    × (unapply_gid_offset options 100 ≡ some 100)
unfolding apply_uid_offset apply_gid_offset bounded_add
unapply-apply_example =
    unapply-apply options 1000 100 101000 100 (omega arith) (omega arith) refl refl

getattr_again_example :
    (bindfs_getattr memory_os disk_fs memory_sqlite options fc
        (started meta none disk 0 0)
        (bytes "/x")
        100
      ≡ (getattr_common memory_os options fc disk (bytes "x") x_stat, started meta_x none disk 0 1))
    × (bindfs_getattr memory_os disk_fs memory_sqlite options fc
          (started meta_x none disk 0 1)
          (bytes "/x")
          104
        ≡ (
          getattr_common memory_os options fc disk (bytes "x") (kept_attributes x_stat),
          started meta_x none disk 1 1,
        ))
unfolding cache_meta_lookup cache_meta_store process_path skip_slashes or_dot str_eq
getattr_again_example =
    getattr_again memory_os disk_fs memory_sqlite options memory_saved memory-laws fc meta meta_x
      none disk 0 0 (bytes "/x") (bytes "x") x_stat 100 104 refl refl refl refl (omega arith)

-- The context with a negative entry of `y`.
abbrev meta_y : MetaCtx MemoryDb
meta_y = record meta {
  db = record {
    tables = record {
      metas = λ p. if str_eq (bytes "y") p then some (negative_entry 100 5) else none;
      dirs = λ d. [];
    };
    backup = none;
  };
}

slash_differs : bytes "y" ≢ bytes "/y"
slash_differs e = absurd (ground (arith, ap length e))

missing_again_example :
    (bindfs_getattr memory_os disk_fs memory_sqlite options fc
        (started meta none disk 0 0)
        (bytes "/y")
        100
      ≡ (error Errno.enoent, started meta_y none disk 0 1))
    × ((bindfs_getattr memory_os disk_fs memory_sqlite options fc
          (started meta_y none disk 0 1)
          (bytes "/y")
          101).1.getattr_misses
        ≡ 2)
unfolding cache_meta_lookup cache_meta_store_negative process_path skip_slashes or_dot str_eq
missing_again_example =
    missing_again memory_os disk_fs memory_sqlite options memory_saved memory-laws fc meta meta_y
      none disk 0 0 (bytes "/y") (bytes "y") 100 101 refl refl refl slash_differs refl refl

-- The first four bytes at 2 are stored as the block 0 of `/x`.
abbrev ctx : BlockCtx
ctx = record { blocks_dir = bytes "/c"; block_size = 4; max_cache_size = 0; current_cache_size = 0 }

abbrev holding : List ℕ → Disk → Disk
holding b d = record d {
  file = λ q. if str_eq (get_block_path ctx (bytes "/x") 0) q then some b else d.file q;
}

abbrev disk_x : Disk
disk_x = holding (3 ∷ 4 ∷ 5 ∷ 6 ∷ []) (holding [] disk)

abbrev ctx_x : BlockCtx
ctx_x = record ctx { current_cache_size = 4 }

block_stored :
    cache_block_write disk_fs
      (some ctx)
      (some (bytes "/x"))
      (2 / 4)
      (some (3 ∷ 4 ∷ 5 ∷ 6 ∷ []))
      disk
    ≡ (ok, some ctx_x, disk_x)
unfolding cache_block_write write_file create_block_dir get_block_path hash_path hex decimal add64
block_stored = refl

no_block : cache_block_exists disk_fs (some ctx) (some (bytes "/x")) (2 / 4) disk ≡ false
unfolding cache_block_exists
no_block = refl

-- The second read of four bytes at 2 gives the last two of them.
read_again_example :
    (bindfs_read memory_os disk_fs memory_sqlite options
        (started meta (some ctx) disk 0 0)
        (bytes "/x")
        4
        2
        fi
      ≡ (done (3 ∷ 4 ∷ 5 ∷ 6 ∷ []), started meta (some ctx_x) disk_x 0 0))
    × (bindfs_read memory_os disk_fs memory_sqlite options
          (started meta (some ctx_x) disk_x 0 0)
          (bytes "/x")
          4
          2
          fi
        ≡ (done (5 ∷ 6 ∷ []), started meta (some ctx_x) disk_x 0 0))
read_again_example =
    read_again memory_os disk_fs memory_sqlite options disk_content disk-laws meta ctx ctx_x disk
      disk_x 0 0 (bytes "/x") 4 2 3 (4 ∷ 5 ∷ 6 ∷ []) fi refl no_block refl (inl refl) block_stored

write-drops_example :
    (st : State Disk MemoryDb) × (bindfs_write memory_os disk_fs memory_sqlite options
        (started meta_x (some ctx_x) disk_x 0 0)
        (bytes "/x")
        (9 ∷ 9 ∷ [])
        1
        fi
      ≡ (done 2, st))
    × (cache_meta_lookup memory_sqlite st.cache_meta_ctx (some (bytes "/x")) 101 ≡ none)
    × (cache_block_exists disk_fs st.cache_block_ctx (some (bytes "/x")) (2 / 4) st.world ≡ false)
write-drops_example =
    write-drops memory_os disk_fs memory_sqlite options memory_saved memory-laws disk_content
      disk-laws disk-IsUnlinkable meta_x ctx_x disk_x disk_x 0 0 (bytes "/x") (9 ∷ 9 ∷ []) 1 1 2 101
      fi refl refl deletes (omega arith) (omega arith) (omega arith) (omega arith)
  where
    deletes : memory_sqlite.delete_meta meta_x.db (bytes "/x") ≢ none
    deletes e = absurd (ground arith)

-- A file that was changed on the backend after its entry was stored.
abbrev newer : Stat
newer = record x_stat { mtime = 800 }

check_and_invalidate-IsFresh_example :
    ((cache_coherency_check_and_invalidate memory_os disk_fs memory_sqlite options
        (started meta_x none disk 0 0)
        (some (bytes "/x"))
        (some newer)
        101).0
      ≡ ok)
    × IsFresh memory_sqlite
        (cache_coherency_check_and_invalidate memory_os disk_fs memory_sqlite options
          (started meta_x none disk 0 0)
          (some (bytes "/x"))
          (some newer)
          101).1.cache_meta_ctx
        (bytes "/x")
        newer
check_and_invalidate-IsFresh_example =
    check_and_invalidate-IsFresh memory_os disk_fs memory_sqlite options memory_saved memory-laws
      meta_x none disk 0 0 (bytes "/x") newer 101 deletes
  where
    deletes : memory_sqlite.delete_meta meta_x.db (bytes "/x") ≢ none
    deletes e = absurd (ground arith)

open-IsFresh_example :
    ((bindfs_open memory_os disk_fs memory_sqlite options
        (started meta_x none disk 0 0)
        (bytes "/x")
        fi
        101).0
      ≡ done (record fi { fh = 3 }))
    × IsFresh memory_sqlite
        (bindfs_open memory_os disk_fs memory_sqlite options
          (started meta_x none disk 0 0)
          (bytes "/x")
          fi
          101).1.cache_meta_ctx
        (bytes "x")
        x_stat
unfolding process_path skip_slashes or_dot
open-IsFresh_example =
    open-IsFresh memory_os disk_fs memory_sqlite options memory_saved memory-laws meta_x none disk
      disk 0 0 (bytes "/x") (bytes "x") fi 3 x_stat 101 refl refl refl deletes
  where
    deletes : memory_sqlite.delete_meta meta_x.db (bytes "x") ≢ none
    deletes e = absurd (ground arith)

-- 0744 instead of 0644: only an execute bit changes.
chmod_runs : bindfs_chmod memory_os options disk (bytes "/x") 0o744 ≡ done disk
unfolding bindfs_chmod process_path skip_slashes or_dot old_mode chmod_by mode_diff str_eq
chmod_runs = refl

chmod_deny-keeps_example :
    (options.chmod_allow_x ≡ true)
    × ((real_path : Str) × (st : Stat) × (process_path memory_os options disk (bytes "/x") true
          ≡ done real_path)
        × (memory_os.lstat disk real_path ≡ done st)
        × (is_reg st.mode ≡ true)
        × (memory_os.chmod disk real_path 0o744 ≡ done disk)
        × ((k : ℕ) → 0o7666 / 2 ^ k % 2 ≡ 1 → st.mode / 2 ^ k % 2 ≡ 0o744 / 2 ^ k % 2))
chmod_deny-keeps_example =
    chmod_deny-keeps memory_os options disk disk (bytes "/x") 0o744 refl chmod_runs
