-- ===== src/Meta/Sample.antt =====
-- A database in memory that behaves as src/cache_meta.c relies on: the tables are functions of their
-- keys, and BEGIN keeps a copy for ROLLBACK.
use cachefs.Prelude.{
  Option, none, some, List, [], arith, Str, str_eq, str_eq_iff, str_eq_refl, if◌then◌else◌,
}
use cachefs.Meta.{MetaEntry, DirRow, Sqlite}
use cachefs.Meta.Contract.{SqliteLaws, upsert}

pub record Tables : Type 0 where
  pub metas : Str → Option MetaEntry
  pub dirs : Str → List DirRow

pub record MemoryDb : Type 0 where
  pub tables : Tables
  pub backup : Option Tables

abbrev write {ℓ} : {A : Type ℓ} → (Str → A) → Str → A → Str → A
write f k v j = if str_eq k j then v else f j

abbrev restore : Option Tables → Option MemoryDb
restore none = none
restore (some t) = some (record { tables = t; backup = none })

abbrev pub memory_saved : MemoryDb → Option MemoryDb
memory_saved db = restore db.backup

abbrev set_metas : MemoryDb → (Str → Option MetaEntry) → MemoryDb
set_metas db f = record db { tables = record { metas = f; dirs = db.tables.dirs } }

abbrev set_dirs : MemoryDb → (Str → List DirRow) → MemoryDb
set_dirs db f = record db { tables = record { metas = db.tables.metas; dirs = f } }

abbrev begin_with : MemoryDb → Option Tables → Option MemoryDb
begin_with db none = some (record db { backup = some db.tables })
begin_with db (some t) = none

abbrev pub empty_db : MemoryDb
empty_db = record { tables = record { metas = λ p. none; dirs = λ d. [] }; backup = none }

abbrev pub memory_sqlite : Sqlite MemoryDb
memory_sqlite = record {
  open_db = λ path. some empty_db;
  create_metadata = λ db. some db;
  create_dir_entries = λ db. some db;
  select_meta = λ db p. db.tables.metas p;
  insert_meta = λ db p e. some (set_metas db (write db.tables.metas p (some e)));
  delete_meta = λ db p. some (set_metas db (write db.tables.metas p none));
  select_dir = λ db d. db.tables.dirs d;
  insert_dir = λ db d r. some (set_dirs db (write db.tables.dirs d (upsert r (db.tables.dirs d))));
  delete_dir = λ db d. some (set_dirs db (write db.tables.dirs d []));
  begin = λ db. begin_with db db.backup;
  commit = λ db. some (record db { backup = none });
  rollback = λ db. restore db.backup;
}

pub memory-laws : SqliteLaws memory_sqlite memory_saved
memory-laws = record {
  meta-insert_meta_self = λ db db' p e h. ground (arith, str_eq_refl p);
  meta-insert_meta_ne = λ db db' p q e h ne. ground (arith, str_eq_iff p q);
  dir-insert_meta = λ db db' p d e h. ground arith;
  meta-delete_meta_self = λ db db' p h. ground (arith, str_eq_refl p);
  meta-delete_meta_ne = λ db db' p q h ne. ground (arith, str_eq_iff p q);
  dir-delete_meta = λ db db' p d h. ground arith;
  dir-insert_dir_self = λ db db' d r h. ground (arith, str_eq_refl d);
  dir-insert_dir_ne = λ db db' d d' r h ne. ground (arith, str_eq_iff d d');
  dir-delete_dir_self = λ db db' d h. ground (arith, str_eq_refl d);
  dir-delete_dir_ne = λ db db' d d' h ne. ground (arith, str_eq_iff d d');
  meta-delete_dir = λ db db' d p h. ground arith;
  dir-commit = λ db db' d h. ground arith;
  saved-begin = λ db db' h. ground arith;
  saved-delete_dir = λ db db' d h. ground arith;
  saved-insert_dir = λ db db' d r h. ground arith;
  rollback-saved = λ db db' h. ground arith;
}
