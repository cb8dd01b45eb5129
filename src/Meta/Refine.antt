-- ===== src/Meta/Refine.antt =====
-- The metadata table of src/cache_meta.c as a map from paths to entries: what a sequence of stores,
-- negative stores and invalidations makes of it.
use mathlib.Core.Option
use mathlib.Core.Path.{fun_ext}
use cachefs.Prelude.{
  ℕ, ◌≡◌, ◌≢◌, refl, ap, ◌∙◌, Option, none, some, List, [], ◌∷◌, map, arith, ltb, Str, str_eq,
  str_eq_iff, Option-cases, inl, inr, if◌then◌else◌,
}
use cachefs.Posix.{Status, ok, failed, Stat}
use cachefs.Meta.{
  MetaEntry, Sqlite, MetaCtx, stored_entry, negative_entry, cache_meta_lookup, insert_entry,
  cache_meta_store, cache_meta_store_negative, cache_meta_invalidate,
}
use cachefs.Meta.Contract.{SqliteLaws}

pub data MetaOp : Type 0 where
  store : Str → Stat → MetaOp
  store_negative invalidate : Str → MetaOp

-- The specification: a map, changed at one path by an operation that succeeds.
abbrev pub MetaMap : Type 0
MetaMap = Str → Option MetaEntry

abbrev pub set_at : Str → Option MetaEntry → MetaMap → MetaMap
set_at p v m q = if str_eq p q then v else m q

abbrev pub spec_op : ℕ → ℕ → MetaOp → Status → MetaMap → MetaMap
spec_op now ttl op failed m = m
spec_op now ttl (store p st) ok m = set_at p (some (stored_entry now ttl st)) m
spec_op now ttl (store_negative p) ok m = set_at p (some (negative_entry now ttl)) m
spec_op now ttl (invalidate p) ok m = set_at p none m

-- What is run at which time, and the status that it returns.
abbrev pub Trace : Type 0
Trace = List (ℕ × MetaOp × Status)

abbrev pub call : ℕ × MetaOp × Status → ℕ × MetaOp
call (now, op, status) = (now, op)

abbrev pub spec_run : ℕ → Trace → MetaMap → MetaMap
spec_run ttl [] m = m
spec_run ttl ((now, op, status) ∷ t) m = spec_run ttl t (spec_op now ttl op status m)

abbrev pub view : {Db : Type 0} → Sqlite Db → MetaCtx Db → MetaMap
view sql c p = sql.select_meta c.db p

module _ {Db : Type 0} (sql : Sqlite Db) where
  abbrev pub run_op : ℕ → MetaOp → MetaCtx Db → Status × Option (MetaCtx Db)
  run_op now (store p st) c = cache_meta_store sql (some c) (some p) (some st) now
  run_op now (store_negative p) c = cache_meta_store_negative sql (some c) (some p) now
  run_op now (invalidate p) c = cache_meta_invalidate sql (some c) (some p)

  -- The calls of a trace, in order, with these results, lead from one context to another.
  pub data Runs : MetaCtx Db → Trace → MetaCtx Db → Type 0 where
    stop : {c : MetaCtx Db} → Runs c [] c
    step :
        {c c' c'' : MetaCtx Db} {now : ℕ} {op : MetaOp} {status : Status} {t : Trace}
        → run_op now op c ≡ (status, some c')
        → Runs c' t c''
        → Runs c ((now, op, status) ∷ t) c''

module _ {Db : Type 0} (sql : Sqlite Db) (saved : Db → Option Db) (laws : SqliteLaws sql saved)
    (deletes : (db : Db) (p : Str) → sql.delete_meta db p ≢ none) where
  view-insert :
      (c c' : MetaCtx Db) (status : Status) (p q : Str) (e : MetaEntry)
      → insert_entry sql c p e ≡ (status, some c')
      → (c'.meta_ttl ≡ c.meta_ttl)
        × (view sql c' q
            ≡ elim status [ ok ↦ set_at p (some e) (view sql c) q | failed ↦ view sql c q ])
  unfolding insert_entry
  view-insert c c' status p q e h = elim (Option-cases (sql.insert_meta c.db p e)) [
    | inl no_room ↦ ground arith
    | inr (db, done) ↦ ground (
      arith,
      str_eq_iff p q,
      laws.meta-insert_meta_self c.db db p e,
      laws.meta-insert_meta_ne c.db db p q e,
    )
  ]

  pub view-run_op :
      (c c' : MetaCtx Db) (now : ℕ) (op : MetaOp) (status : Status) (q : Str)
      → run_op sql now op c ≡ (status, some c')
      → (c'.meta_ttl ≡ c.meta_ttl)
        × (view sql c' q ≡ spec_op now c.meta_ttl op status (view sql c) q)
  unfolding cache_meta_store cache_meta_store_negative cache_meta_invalidate
  view-run_op c c' now (store p st) ok q h =
      view-insert c c' ok p q (stored_entry now c.meta_ttl st) h
  view-run_op c c' now (store p st) failed q h =
      view-insert c c' failed p q (stored_entry now c.meta_ttl st) h
  view-run_op c c' now (store_negative p) ok q h =
      view-insert c c' ok p q (negative_entry now c.meta_ttl) h
  view-run_op c c' now (store_negative p) failed q h =
      view-insert c c' failed p q (negative_entry now c.meta_ttl) h
  view-run_op c c' now (invalidate p) status q h = elim (Option-cases (sql.delete_meta c.db p)) [
    | inl e ↦ absurd (deletes c.db p e)
    | inr (db, e) ↦ invalidated status db e h
  ]
    where
      invalidated :
          (r : Status) (db : Db)
          → sql.delete_meta c.db p ≡ some db
          → cache_meta_invalidate sql (some c) (some p) ≡ (r, some c')
          → (c'.meta_ttl ≡ c.meta_ttl)
            × (view sql c' q ≡ spec_op now c.meta_ttl (invalidate p) r (view sql c) q)
      invalidated failed db e k = absurd (ground arith)
      invalidated ok db e k = ground (
        arith,
        str_eq_iff p q,
        laws.meta-delete_meta_self c.db db p,
        laws.meta-delete_meta_ne c.db db p q,
      )

  view-Runs :
      (c c' : MetaCtx Db) (t : Trace)
      → Runs sql c t c'
      → (c'.meta_ttl ≡ c.meta_ttl)
        × ((q : Str) → view sql c' q ≡ spec_run c.meta_ttl t (view sql c) q)
  view-Runs c c' _ stop = (refl, λ q. refl)
  view-Runs c c' _ (step {c' = d} {now = now} {op = op} {status = status} {t = t} h rest) =
      let (same, after) = view-Runs d c' t rest in
      (
        same ∙ (view-run_op c d now op status [] h).0,
        λ q.
            after q
            ∙ ap (λ ttl. spec_run ttl t (view sql d) q) (view-run_op c d now op status [] h).0
            ∙ ap (λ f. spec_run c.meta_ttl t f q)
                (fun_ext (λ p. (view-run_op c d now op status p h).1)),
      )

  run_op_returns :
      (c : MetaCtx Db) (now : ℕ) (op : MetaOp)
      → (status : Status) × (c' : MetaCtx Db) × (run_op sql now op c ≡ (status, some c'))
  unfolding cache_meta_store cache_meta_store_negative cache_meta_invalidate insert_entry
  run_op_returns c now (store p st) =
      elim (Option-cases (sql.insert_meta c.db p (stored_entry now c.meta_ttl st))) [
        | inl e ↦ (failed, c, ground arith)
        | inr (db, e) ↦ (ok, record c { db = db }, ground arith)
      ]
  run_op_returns c now (store_negative p) =
      elim (Option-cases (sql.insert_meta c.db p (negative_entry now c.meta_ttl))) [
        | inl e ↦ (failed, c, ground arith)
        | inr (db, e) ↦ (ok, record c { db = db }, ground arith)
      ]
  run_op_returns c now (invalidate p) = (ok, _, refl)

  Runs-total :
      (ops : List (ℕ × MetaOp)) (c : MetaCtx Db)
      → (t : Trace) × (c' : MetaCtx Db) × Runs sql c t c' × (map call t ≡ ops)
  Runs-total [] c = ([], c, stop, refl)
  Runs-total ((now, op) ∷ ops) c =
      let (status, d, h) = run_op_returns c now op in
      let (t, c', rest, same) = Runs-total ops d in
      ((now, op, status) ∷ t, c', step h rest, ap (λ l. (now, op) ∷ l) same)

  -- Where DELETE statements are done, for every sequence of stores, negative stores and
  -- invalidations, with the time of each: all of them return, and afterwards `cache_meta_lookup` of
  -- any path at any time finds what the map from paths to entries holds for it after the same
  -- sequence, where an operation that succeeded changes the map at its path and one that failed
  -- changes nothing, and finds it valid while the time is before the entry's end.
  pub lookup-Runs :
      (ops : List (ℕ × MetaOp)) (c : MetaCtx Db)
      → (t : Trace) × (c' : MetaCtx Db) × Runs sql c t c'
        × (map call t ≡ ops)
        × ((p : Str) (later : ℕ)
            → cache_meta_lookup sql (some c') (some p) later
              ≡ Option.map
                  (λ e. (e, ltb later e.valid_until))
                  (spec_run c.meta_ttl t (view sql c) p))
  unfolding cache_meta_lookup
  lookup-Runs ops c =
      let (t, c', runs, same) = Runs-total ops c in
      (
        t,
        c',
        runs,
        same,
        λ p later.
            ap (Option.map (λ e. (e, ltb later e.valid_until))) ((view-Runs c c' t runs).1 p),
      )
