-- ===== src/Meta/Entries.antt =====
-- What `cache_meta_lookup` of src/cache_meta.c returns after a store, a negative store and an
-- invalidation.
use cachefs.Prelude.{
  ℕ, ◌+◌, ◌≡◌, ◌≢◌, Option, none, some, arith, ltb, Str, str_eq, str_eq_iff, Option-cases, inl, inr,
  if◌then◌else◌,
}
use cachefs.Posix.{ok, Stat}
use cachefs.Meta.{
  MetaEntry, Sqlite, MetaCtx, stored_entry, negative_entry, cache_meta_lookup, insert_entry,
  cache_meta_store, cache_meta_store_negative, cache_meta_invalidate,
}
use cachefs.Meta.Contract.{SqliteLaws}

module _ {Db : Type 0} (sql : Sqlite Db) (saved : Db → Option Db)
    (laws : SqliteLaws sql saved) where
  lookup-insert_entry :
      (c c' : MetaCtx Db) (p q : Str) (e : MetaEntry) (later : ℕ)
      → insert_entry sql c p e ≡ (ok, some c')
      → cache_meta_lookup sql (some c') (some q) later ≡ (
          if str_eq p q
          then some (e, ltb later e.valid_until)
          else cache_meta_lookup sql (some c) (some q) later)
  unfolding insert_entry cache_meta_lookup
  lookup-insert_entry c c' p q e later h = ground (
    arith,
    str_eq_iff p q,
    laws.meta-insert_meta_self c.db c'.db p e,
    laws.meta-insert_meta_ne c.db c'.db p q e,
  )

  -- After a `cache_meta_store` that returns 0, a lookup of the same path at any time finds the
  -- metadata of the stat buffer, valid while the time is before the store's time plus the TTL, and
  -- a lookup of any other path finds what it found before.
  pub lookup-store :
      (c c' : MetaCtx Db) (p q : Str) (st : Stat) (now later : ℕ)
      → cache_meta_store sql (some c) (some p) (some st) now ≡ (ok, some c')
      → cache_meta_lookup sql (some c') (some q) later ≡ (
          if str_eq p q
          then some (stored_entry now c.meta_ttl st, ltb later (now + c.meta_ttl))
          else cache_meta_lookup sql (some c) (some q) later)
  unfolding cache_meta_store stored_entry
  lookup-store c c' p q st now later h = lookup-insert_entry c c' p q _ later h

  -- After a `cache_meta_store_negative` that returns 0, a lookup of the same path finds a negative
  -- entry, valid while the time is before the store's time plus the TTL, and a lookup of any other
  -- path finds what it found before.
  pub lookup-store_negative :
      (c c' : MetaCtx Db) (p q : Str) (now later : ℕ)
      → cache_meta_store_negative sql (some c) (some p) now ≡ (ok, some c')
      → cache_meta_lookup sql (some c') (some q) later ≡ (
          if str_eq p q
          then some (negative_entry now c.meta_ttl, ltb later (now + c.meta_ttl))
          else cache_meta_lookup sql (some c) (some q) later)
  unfolding cache_meta_store_negative negative_entry
  lookup-store_negative c c' p q now later h = lookup-insert_entry c c' p q _ later h

  -- Where the DELETE statement is done, a lookup after `cache_meta_invalidate` misses the path and
  -- finds for any other path what it found before.
  pub lookup-invalidate :
      (c : MetaCtx Db) (p q : Str) (later : ℕ)
      → sql.delete_meta c.db p ≢ none
      → cache_meta_lookup sql (cache_meta_invalidate sql (some c) (some p)).1 (some q) later
        ≡ (if str_eq p q then none else cache_meta_lookup sql (some c) (some q) later)
  unfolding cache_meta_invalidate cache_meta_lookup
  lookup-invalidate c p q later done = elim (Option-cases (sql.delete_meta c.db p)) [
    | inl e ↦ absurd (done e)
    | inr (db, e) ↦ ground (
      arith,
      str_eq_iff p q,
      laws.meta-delete_meta_self c.db db p,
      laws.meta-delete_meta_ne c.db db p q,
    )
  ]
