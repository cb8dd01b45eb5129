-- ===== src/Meta/Contract.antt =====
-- What src/cache_meta.c relies on of SQLite: the documented effect of its six statements on the two
-- tables, whose primary keys are `path` and `(dir_path, entry_name)`, and of ROLLBACK.
use cachefs.Prelude.{
  ◌≡◌, ◌≢◌, Option, none, some, List, [], ◌∷◌, Str, str_eq, str_lt, if◌then◌else◌,
}
use cachefs.Meta.{MetaEntry, DirRow, Sqlite}

-- INSERT OR REPLACE, as `ORDER BY entry_name` shows it.
unfoldable pub upsert : DirRow → List DirRow → List DirRow
upsert r [] = r ∷ []
upsert r (s ∷ ss) =
    if str_eq r.entry_name s.entry_name
    then r ∷ ss
    else if str_lt r.entry_name s.entry_name
    then r ∷ s ∷ ss
    else s ∷ upsert r ss

-- `saved db` is the database as it was at BEGIN, inside a transaction.
pub record SqliteLaws {Db : Type 0} (sql : Sqlite Db) (saved : Db → Option Db) : Type 0 where
  pub meta-insert_meta_self :
      (db db' : Db) (p : Str) (e : MetaEntry)
      → sql.insert_meta db p e ≡ some db'
      → sql.select_meta db' p ≡ some e
  pub meta-insert_meta_ne :
      (db db' : Db) (p q : Str) (e : MetaEntry)
      → sql.insert_meta db p e ≡ some db'
      → p ≢ q
      → sql.select_meta db' q ≡ sql.select_meta db q
  pub dir-insert_meta :
      (db db' : Db) (p d : Str) (e : MetaEntry)
      → sql.insert_meta db p e ≡ some db'
      → sql.select_dir db' d ≡ sql.select_dir db d
  pub meta-delete_meta_self :
      (db db' : Db) (p : Str) → sql.delete_meta db p ≡ some db' → sql.select_meta db' p ≡ none
  pub meta-delete_meta_ne :
      (db db' : Db) (p q : Str)
      → sql.delete_meta db p ≡ some db'
      → p ≢ q
      → sql.select_meta db' q ≡ sql.select_meta db q
  pub dir-delete_meta :
      (db db' : Db) (p d : Str)
      → sql.delete_meta db p ≡ some db'
      → sql.select_dir db' d ≡ sql.select_dir db d
  pub dir-insert_dir_self :
      (db db' : Db) (d : Str) (r : DirRow)
      → sql.insert_dir db d r ≡ some db'
      → sql.select_dir db' d ≡ upsert r (sql.select_dir db d)
  pub dir-insert_dir_ne :
      (db db' : Db) (d d' : Str) (r : DirRow)
      → sql.insert_dir db d r ≡ some db'
      → d ≢ d'
      → sql.select_dir db' d' ≡ sql.select_dir db d'
  pub dir-delete_dir_self :
      (db db' : Db) (d : Str) → sql.delete_dir db d ≡ some db' → sql.select_dir db' d ≡ []
  pub dir-delete_dir_ne :
      (db db' : Db) (d d' : Str)
      → sql.delete_dir db d ≡ some db'
      → d ≢ d'
      → sql.select_dir db' d' ≡ sql.select_dir db d'
  pub meta-delete_dir :
      (db db' : Db) (d p : Str)
      → sql.delete_dir db d ≡ some db'
      → sql.select_meta db' p ≡ sql.select_meta db p
  pub dir-commit :
      (db db' : Db) (d : Str)
      → sql.commit db ≡ some db'
      → sql.select_dir db' d ≡ sql.select_dir db d
  pub saved-begin : (db db' : Db) → sql.begin db ≡ some db' → saved db' ≡ some db
  pub saved-delete_dir :
      (db db' : Db) (d : Str) → sql.delete_dir db d ≡ some db' → saved db' ≡ saved db
  pub saved-insert_dir :
      (db db' : Db) (d : Str) (r : DirRow) → sql.insert_dir db d r ≡ some db' → saved db' ≡ saved db
  pub rollback-saved : (db db' : Db) → saved db ≡ some db' → sql.rollback db ≡ some db'
