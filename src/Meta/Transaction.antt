-- ===== src/Meta/Transaction.antt =====
-- `cache_dir_store` and `cache_dir_lookup` of src/cache_meta.c: a stored listing is read back, and a
-- failed transaction leaves the cache as it was.
use mathlib.Core.Option.{get_or}
use cachefs.Prelude.{
  ℕ, ◌+◌, ◌≡◌, ◌≢◌, refl, ◌∙◌, ap, Option, none, some, List, [], ◌∷◌, map, arith, ltb, Str,
}
use cachefs.Posix.{Status, ok, failed}
use cachefs.Meta.{
  EntryType, DirEntry, DirRow, Sqlite, MetaCtx, DirHit, dir_row, dir_entry, insert_rows,
  end_transaction, store_rows, cache_dir_lookup, cache_dir_store,
}
use cachefs.Meta.Contract.{SqliteLaws}
use cachefs.Meta.Listing.{
  first_type, last_type, either_type, upserts, first_type-upserts, Stamped-upserts,
  upserts_cons-ne-nil, dir_hit-Stamped, dir-insert_rows, saved-insert_rows,
}

-- DELETE and COMMIT find the database unlocked.
pub record IsUnlocked {Db : Type 0} (sql : Sqlite Db) : Type 0 where
  pub deletes : (db : Db) (d : Str) → sql.delete_dir db d ≢ none
  pub commits : (db : Db) → sql.commit db ≢ none

get_or_done {ℓ} : {A : Type ℓ} (o : Option A) (d : A) → o ≢ none → o ≡ some (get_or o d)
get_or_done none d h = absurd (h refl)
get_or_done (some a) d h = refl

either_type-none : (t : Option EntryType) → either_type t none ≡ t
either_type-none none = refl
either_type-none (some t) = refl

-- What `cache_dir_lookup` returns for a directory whose listing is `new`.
pub record Lists (hit : Option DirHit) (new : List DirEntry) (mtime until later : ℕ) : Type 0 where
  pub found : DirHit
  pub is_hit : hit ≡ some found
  pub mtime_stored : found.dir_mtime ≡ mtime
  pub validity : found.valid ≡ ltb later until
  pub types : (n : Str) → first_type n found.entries ≡ last_type n new

module _ {Db : Type 0} (sql : Sqlite Db) (saved : Db → Option Db) (laws : SqliteLaws sql saved)
    (unlocked : IsUnlocked sql) where
  committed :
      (r : Status × Db) (db : Db)
      → end_transaction sql r ≡ (ok, db)
      → (x : Db) × (r ≡ (ok, x)) × (sql.commit x ≡ some db)
  unfolding end_transaction
  committed (ok, x) db h = (
    x,
    refl,
    get_or_done (sql.commit x) x (unlocked.commits x) ∙ ap some (ap (λ (t : Status × Db). t.1) h),
  )
  committed (failed, x) db h = absurd (ground arith)

  dir-store_rows :
      (db db' : Db) (p : Str) (rows : List DirRow)
      → store_rows sql db p rows ≡ (ok, db')
      → sql.select_dir db' p ≡ upserts rows []
  unfolding store_rows
  dir-store_rows db db' p rows h =
      let opened = get_or (sql.begin db) db in
      let cleared = get_or (sql.delete_dir opened p) opened in
      let (x, inserted, done) = committed (insert_rows sql cleared p rows) db' h in
      let deleted : sql.delete_dir opened p ≡ some cleared =
        get_or_done (sql.delete_dir opened p) opened (unlocked.deletes opened p) in
      laws.dir-commit x db' p done
      ∙ dir-insert_rows sql saved laws cleared x p rows inserted
      ∙ ap (upserts rows) (laws.dir-delete_dir_self opened cleared p deleted)

  -- Where DELETE and COMMIT are done: after a `cache_dir_store` of a listing with at least
  -- one entry that returns 0, `cache_dir_lookup` of the directory is a hit that carries the
  -- directory's mtime, is valid while the time is before the store's time plus the TTL, and gives
  -- for each name the type of the last stored entry with that name, and for no other name one.
  pub dir_lookup-dir_store :
      (c c' : MetaCtx Db) (p : Str) (e : DirEntry) (es : List DirEntry) (mtime now later : ℕ)
      → cache_dir_store sql (some c) (some p) (some (e ∷ es)) mtime now ≡ (ok, some c')
      → Lists (cache_dir_lookup sql (some c') (some p) later) (e ∷ es) mtime (now + c.dir_ttl) later
  unfolding cache_dir_store cache_dir_lookup
  dir_lookup-dir_store c c' p e es mtime now later h =
      let new = map (dir_row now c.dir_ttl mtime) (e ∷ es) in
      let rows : sql.select_dir c'.db p ≡ upserts new [] =
        dir-store_rows c.db c'.db p new (ground arith) in
      record {
        found = record {
          entries = map dir_entry (upserts new []);
          dir_mtime = mtime;
          valid = ltb later (now + c.dir_ttl);
        };
        is_hit = rw rows (
            dir_hit-Stamped mtime (now + c.dir_ttl) later (upserts new [])
              (upserts_cons-ne-nil (dir_row now c.dir_ttl mtime e)
                (map (dir_row now c.dir_ttl mtime) es) [])
              (Stamped-upserts now c.dir_ttl mtime (e ∷ es) [] tt));
        mtime_stored = refl;
        validity = refl;
        types = λ n.
            first_type-upserts n now c.dir_ttl mtime (e ∷ es) []
            ∙ either_type-none (last_type n (e ∷ es));
      }

  failed_rolls_back :
      (r : Status × Db) (db db' : Db)
      → saved r.1 ≡ some db
      → end_transaction sql r ≡ (failed, db')
      → db' ≡ db
  unfolding end_transaction
  failed_rolls_back (ok, x) db db' s h = absurd (ground arith)
  failed_rolls_back (failed, x) db db' s h = ground (arith, laws.rollback-saved x db)

  -- Where BEGIN and DELETE are done: a `cache_dir_store` that returns -1 leaves the whole cache
  -- context as it was.
  pub dir_store_failed :
      (c c' : MetaCtx Db) (p : Str) (entries : List DirEntry) (mtime now : ℕ)
      → sql.begin c.db ≢ none
      → cache_dir_store sql (some c) (some p) (some entries) mtime now ≡ (failed, some c')
      → c' ≡ c
  unfolding cache_dir_store store_rows
  dir_store_failed c c' p entries mtime now began h =
      let rows = map (dir_row now c.dir_ttl mtime) entries in
      let opened = get_or (sql.begin c.db) c.db in
      let cleared = get_or (sql.delete_dir opened p) opened in
      let kept : saved (insert_rows sql cleared p rows).1 ≡ some c.db =
        saved-insert_rows sql saved laws cleared p rows
        ∙ laws.saved-delete_dir opened cleared p
            (get_or_done (sql.delete_dir opened p) opened (unlocked.deletes opened p))
        ∙ laws.saved-begin c.db opened (get_or_done (sql.begin c.db) c.db began) in
      ground (arith, failed_rolls_back (insert_rows sql cleared p rows) c.db c'.db kept)
