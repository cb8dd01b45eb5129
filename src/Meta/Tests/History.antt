-- ===== src/Meta/Tests/History.antt =====
-- Histories of the metadata cache of src/cache_meta.c at concrete inputs, over the database in memory.
use mathlib.Core.Option
use cachefs.Prelude.{
  ℕ, false, ◌≡◌, ◌≢◌, refl, none, some, List, [], ◌∷◌, map, arith, bytes, Str, str_eq, ltb,
  if◌then◌else◌,
}
use cachefs.Posix.{ok, Stat}
use cachefs.Meta.{MetaCtx, stored_entry, cache_meta_lookup, cache_meta_store}
use cachefs.Meta.Sample.{MemoryDb, empty_db, memory_saved, memory_sqlite, memory-laws}
use cachefs.Meta.Refine.{
  MetaOp, store, invalidate, store_negative, Trace, Runs, call, spec_run, view, lookup-Runs,
}
use cachefs.Meta.Reach.{Clocked, Reach, here, next, calls, passes, IsTimelyAt, lookup_expires}

abbrev st : Stat
st = record {
  mode = 33188;
  nlink = 1;
  size = 12;
  mtime = 700;
  ctime = 701;
  uid = 1000;
  gid = 100;
  ino = 42;
  dev = 2049;
  rdev = 0;
  blksize = 4096;
  blocks = 8;
  atime = 650;
  atime_nsec = 11;
  mtime_nsec = 12;
  ctime_nsec = 13;
}

abbrev ctx : MetaCtx MemoryDb
ctx = record { db = empty_db; cache_root = bytes "/c"; meta_ttl = 5; dir_ttl = 10 }

memory_deletes : (db : MemoryDb) (p : Str) → memory_sqlite.delete_meta db p ≢ none
memory_deletes db p = ground arith

abbrev ops : List (ℕ × MetaOp)
ops =
    (100, store (bytes "/a") st)
    ∷ (101, store_negative (bytes "/b"))
    ∷ (102, invalidate (bytes "/a"))
    ∷ []

lookup-Runs_example :
    (t : Trace) × (c' : MetaCtx MemoryDb) × Runs memory_sqlite ctx t c'
    × (map call t ≡ ops)
    × ((p : Str) (later : ℕ)
        → cache_meta_lookup memory_sqlite (some c') (some p) later
          ≡ Option.map
              (λ e. (e, ltb later e.valid_until))
              (spec_run 5 t (view memory_sqlite ctx) p))
lookup-Runs_example = lookup-Runs memory_sqlite memory_saved memory-laws memory_deletes ops ctx

-- The context after a `cache_meta_store` of `/a` at time 100.
abbrev stored : MetaCtx MemoryDb
stored = record ctx {
  db = record {
    tables = record {
      metas = λ q. if str_eq (bytes "/a") q then some (stored_entry 100 5 st) else none;
      dirs = λ d. [];
    };
    backup = none;
  };
}

abbrev started : Clocked MemoryDb
started = record { now = 100; ctx = ctx }

abbrev after_store : Clocked MemoryDb
after_store = record { now = 100; ctx = stored }

abbrev after_pause : Clocked MemoryDb
after_pause = record { now = 102; ctx = stored }

started-IsTimely : IsTimelyAt memory_sqlite started
started-IsTimely p e h = absurd (ground arith)

store_then_pause : Reach memory_sqlite started after_pause
unfolding cache_meta_store
store_then_pause =
    next {b = after_store} (next here (calls (store (bytes "/a") st) ok refl refl))
      (passes 2 refl refl)

lookup_expires_example : ltb 107 105 ≡ false
unfolding cache_meta_lookup stored_entry str_eq
lookup_expires_example =
    lookup_expires memory_sqlite memory_saved memory-laws memory_deletes started after_pause
      (bytes "/a") 107 (stored_entry 100 5 st) (ltb 107 105) started-IsTimely store_then_pause
      (omega arith) refl
