-- ===== src/Meta/Reach.antt =====
-- The metadata cache of src/cache_meta.c in time: a clock that only runs forward, and calls at any
-- time.
use cachefs.Prelude.{
  ℕ, ◌+◌, ◌≤◌, ◌≡◌, ◌≢◌, ap, sym, ◌∙◌, Option, none, some, arith, Str, Bool, false, Option-cases,
  inl, inr,
}
use cachefs.Posix.{Status, ok, failed}
use cachefs.Meta.{MetaEntry, Sqlite, MetaCtx, stored_entry, negative_entry, cache_meta_lookup}
use cachefs.Meta.Contract.{SqliteLaws}
use cachefs.Meta.Refine.{
  MetaOp, store, store_negative, invalidate, MetaMap, spec_op, view, run_op, view-run_op,
}

pub record Clocked (Db : Type 0) : Type 0 where
  pub now : ℕ
  pub ctx : MetaCtx Db

-- A call that returns, or time that passes.
pub data Step {Db : Type 0} (sql : Sqlite Db) (a b : Clocked Db) : Type 0 where
  calls :
      (op : MetaOp) (status : Status)
      → b.now ≡ a.now
      → run_op sql a.now op a.ctx ≡ (status, some b.ctx)
      → Step sql a b
  passes : (d : ℕ) → b.now ≡ a.now + d → b.ctx ≡ a.ctx → Step sql a b

pub data Reach {Db : Type 0} (sql : Sqlite Db) (a : Clocked Db) : Clocked Db → Type 0 where
  here : Reach sql a a
  next : {b c : Clocked Db} → Reach sql a b → Step sql b c → Reach sql a c

-- No entry outlives its TTL.
abbrev pub IsTimely : ℕ → ℕ → MetaMap → Type 0
IsTimely now ttl m = (p : Str) (e : MetaEntry) → m p ≡ some e → e.valid_until ≤ now + ttl

abbrev pub IsTimelyAt : {Db : Type 0} → Sqlite Db → Clocked Db → Type 0
IsTimelyAt sql a = IsTimely a.now a.ctx.meta_ttl (view sql a.ctx)

spec_op-IsTimely :
    (now ttl : ℕ) (op : MetaOp) (status : Status) (m : MetaMap)
    → IsTimely now ttl m
    → IsTimely now ttl (spec_op now ttl op status m)
unfolding stored_entry negative_entry
spec_op-IsTimely now ttl op failed m h p e found = h p e found
spec_op-IsTimely now ttl (store q st) ok m h p e found = ground (arith, h p e)
spec_op-IsTimely now ttl (store_negative q) ok m h p e found = ground (arith, h p e)
spec_op-IsTimely now ttl (invalidate q) ok m h p e found = ground (arith, h p e)

module _ {Db : Type 0} (sql : Sqlite Db) (saved : Db → Option Db) (laws : SqliteLaws sql saved)
    (deletes : (db : Db) (p : Str) → sql.delete_meta db p ≢ none) where
  Step-IsTimely : (a b : Clocked Db) → Step sql a b → IsTimelyAt sql a → IsTimelyAt sql b
  Step-IsTimely a b (calls op status same h) timely p e found =
      let after = view-run_op sql saved laws deletes a.ctx b.ctx a.now op status p h in
      let bound =
        spec_op-IsTimely a.now a.ctx.meta_ttl op status (view sql a.ctx) timely p e
          (sym after.1 ∙ found) in
      omega (arith, bound, after.0)
  Step-IsTimely a b (passes d later same) timely p e found =
      let bound = timely p e (ap (λ c. view sql c p) (sym same) ∙ found) in
      omega (arith, bound, ap (λ (c : MetaCtx Db). c.meta_ttl) same)

  Reach-IsTimely : (a b : Clocked Db) → Reach sql a b → IsTimelyAt sql a → IsTimelyAt sql b
  Reach-IsTimely a _ here h = h
  Reach-IsTimely a _ (next {b = b} {c = c} r st) h = Step-IsTimely b c st (Reach-IsTimely a b r h)

  -- Where DELETE statements are done, and no entry of the database outlives its TTL at the start, as in
  -- an empty one: after any sequence of stores, negative stores, invalidations and pauses, an entry
  -- that `cache_meta_lookup` finds from one TTL after the last of them on is not valid.
  pub lookup_expires :
      (a b : Clocked Db) (p : Str) (later : ℕ) (e : MetaEntry) (valid : Bool)
      → IsTimelyAt sql a
      → Reach sql a b
      → b.now + b.ctx.meta_ttl ≤ later
      → cache_meta_lookup sql (some b.ctx) (some p) later ≡ some (e, valid)
      → valid ≡ false
  unfolding cache_meta_lookup
  lookup_expires a b p later e valid start r past found =
      elim (Option-cases (sql.select_meta b.ctx.db p)) [
        | inl absent ↦ absurd (ground arith)
        | inr (x, present) ↦ let bound = Reach-IsTimely a b r start p x present in ground arith
      ]
