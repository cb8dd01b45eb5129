-- ===== src/Mount/Forget.antt =====
-- What `delete_file` and `bindfs_mkdir` of src/cachefs.c leave in the metadata cache, and the paths
-- that they work on.
use cachefs.Prelude.{
  ℕ, ◌≡◌, ◌≢◌, refl, ap, ◌∙◌, inl, inr, Bool, true, false, ◌==◌, Option, none, some, [], ◌∷◌, arith,
  ltb, Str, Bool-cases,
}
use mathlib.Core.Option
use cachefs.Prelude.Bits.{bit_and, bit_or}
use cachefs.Posix.{ok}
use cachefs.Meta.{
  MetaEntry, Sqlite, MetaCtx, dir_hit, cache_meta_lookup, cache_meta_invalidate, cache_dir_lookup,
  cache_dir_invalidate,
}
use cachefs.Meta.Contract.{SqliteLaws}
use cachefs.Block.{BlockFs, BlockCtx}
use cachefs.Permchain.{permchain_apply}
use cachefs.Mount.{Result, done, Settings, FuseContext, Os, State}
use cachefs.Mount.Paths.{process_path, skip_slashes, or_dot, invalidate_parent, split_last}
use cachefs.Mount.Policy.{chown_new_file}
use cachefs.Mount.Entries.{
  Deletion, plan_deletion, forget_deleted, try_delete, delete_file, forget_new, finish_new,
  bindfs_mkdir,
}
use cachefs.Mount.Cached.{started}
use cachefs.Mount.Chmod.{Result-cases}

-- Not empty, and not absolute.
abbrev pub IsRelative : Str → Type 0
IsRelative [] = ⊥
IsRelative (c ∷ cs) = c ≢ b'/'

IsRelative-or_dot : (path : Str) → IsRelative (or_dot (skip_slashes path))
unfolding or_dot skip_slashes
IsRelative-or_dot [] = omega arith
IsRelative-or_dot (c ∷ cs) = elim (Bool-cases (c == b'/')) [
  | inl slash ↦ rw slash (IsRelative-or_dot cs)
  | inr other ↦ rw other (λ e. absurd (ground arith))
]

-- Unless symlinks are resolved, the path that `process_path` makes of any path is not empty and does
-- not start with '/'.
pub process_path-IsRelative :
    {W : Type 0} (os : Os W) (s : Settings) (w : W) (path real_path : Str) (resolve : Bool)
    → s.resolve_symlinks ≡ false
    → process_path os s w path resolve ≡ done real_path
    → IsRelative real_path
unfolding process_path
process_path-IsRelative os s w path real_path resolve off h =
    let shape : real_path ≡ or_dot (skip_slashes path) = ground arith in
    rw shape (IsRelative-or_dot path)

module _ {W Db : Type 0} (os : Os W) (fs : BlockFs W) (sql : Sqlite Db) (s : Settings)
    (saved : Db → Option Db) (laws : SqliteLaws sql saved) where
  meta-try_delete :
      (target : W → Str → Result W) (st : State W Db) (also : Option Str)
      → (try_delete os fs sql s target st also).cache_meta_ctx ≡ st.cache_meta_ctx
  unfolding try_delete
  meta-try_delete target st none = refl
  meta-try_delete target st (some p) = elim (Result-cases (target st.world p)) [
    | inl (e, bad) ↦ rw (try_delete, bad) refl
    | inr (w, good) ↦ rw (try_delete, good) refl
  ]

  pub invalidated :
      (c : MetaCtx Db) (p : Str) (db : Db)
      → sql.delete_meta c.db p ≡ some db
      → cache_meta_invalidate sql (some c) (some p) ≡ (ok, some (record c { db = db }))
  unfolding cache_meta_invalidate
  invalidated c p db h = ap (λ o. (ok, some (record c { db = Option.get_or o c.db }))) h

  pub parent_invalidated :
      (c : MetaCtx Db) (p parent name : Str) (d : ℕ) (db : Db)
      → split_last p ≡ some (d ∷ parent, name)
      → sql.delete_dir c.db (d ∷ parent) ≡ some db
      → invalidate_parent sql c p ≡ some (record c { db = db })
  unfolding invalidate_parent cache_dir_invalidate
  parent_invalidated c p parent name d db split h =
      rw (invalidate_parent, split) (ap (λ o. some (record c { db = Option.get_or o c.db })) h)

  meta-forget_deleted :
      (c : MetaCtx Db) (block : Option BlockCtx) (w : W) (hits misses : ℕ)
      (real_path parent name : Str) (d : ℕ) (db db' : Db)
      → split_last real_path ≡ some (d ∷ parent, name)
      → sql.delete_meta c.db real_path ≡ some db
      → sql.delete_dir db (d ∷ parent) ≡ some db'
      → (forget_deleted os fs sql s (started c block w hits misses) real_path).cache_meta_ctx
        ≡ some (record c { db = db' })
  unfolding forget_deleted
  meta-forget_deleted c block w hits misses real_path parent name d db db' split meta dir =
      rw
        (
          forget_deleted,
          invalidated c real_path db meta,
          parent_invalidated (record c { db = db }) real_path parent name d db' split dir,
        )
        refl

  forgotten :
      (c : MetaCtx Db) (real_path dir : Str) (db db' : Db) (later : ℕ)
      → sql.delete_meta c.db real_path ≡ some db
      → sql.delete_dir db dir ≡ some db'
      → (cache_meta_lookup sql (some (record c { db = db' })) (some real_path) later ≡ none)
        × (cache_dir_lookup sql (some (record c { db = db' })) (some dir) later ≡ none)
  unfolding cache_meta_lookup cache_dir_lookup dir_hit
  forgotten c real_path dir db db' later meta gone = (
    ap (Option.map (λ (e : MetaEntry). (e, ltb later e.valid_until))) (
        laws.meta-delete_dir db db' dir real_path gone
        ∙ laws.meta-delete_meta_self c.db db real_path meta),
    ap (dir_hit later) (laws.dir-delete_dir_self db db' dir gone),
  )

  -- Where the processed path has a '/' after its first character, so that it is not right below the
  -- mount, the policies allow the deletion, the system does it and the two DELETE statements are
  -- done: `delete_file` returns 0, and after it the metadata cache has no entry for the processed
  -- path and no listing of what stands before its last '/'.
  pub delete_file-forgets :
      (c : MetaCtx Db) (block : Option BlockCtx) (w w' : W) (hits misses : ℕ)
      (path real_path parent name : Str) (d : ℕ) (target : W → Str → Result W) (plan : Deletion W)
      (db db' : Db) (later : ℕ)
      → s.delete_deny ≡ false
      → process_path os s w path false ≡ done real_path
      → plan_deletion os fs sql s target w real_path ≡ done plan
      → plan.main_delete_func plan.world real_path ≡ done w'
      → split_last real_path ≡ some (d ∷ parent, name)
      → sql.delete_meta c.db real_path ≡ some db
      → sql.delete_dir db (d ∷ parent) ≡ some db'
      → (st : State W Db) × (delete_file os fs sql s (started c block w hits misses) path target
          ≡ (done tt, st))
        × (cache_meta_lookup sql st.cache_meta_ctx (some real_path) later ≡ none)
        × (cache_dir_lookup sql st.cache_meta_ctx (some (d ∷ parent)) later ≡ none)
  unfolding delete_file
  delete_file-forgets c block w w' hits misses path real_path parent name d target plan db db' later
        allowed proc planned deleted split meta dir =
      let st =
        try_delete os fs sql s target
          (forget_deleted os fs sql s (started c block w' hits misses) real_path)
          plan.also_try_delete in
      let left : st.cache_meta_ctx ≡ some (record c { db = db' }) =
        meta-try_delete target
          (forget_deleted os fs sql s (started c block w' hits misses) real_path)
          plan.also_try_delete
        ∙ meta-forget_deleted c block w' hits misses real_path parent name d db db' split meta
            dir in
      let (no_entry, no_listing) = forgotten c real_path (d ∷ parent) db db' later meta dir in
      (
        st,
        rw (delete_file, proc, planned, deleted, allowed) refl,
        ap (λ m. cache_meta_lookup sql m (some real_path) later) left ∙ no_entry,
        ap (λ m. cache_dir_lookup sql m (some (d ∷ parent)) later) left ∙ no_listing,
      )

  meta-forget_new :
      (c : MetaCtx Db) (block : Option BlockCtx) (w : W) (hits misses : ℕ)
      (real_path parent name : Str) (d : ℕ) (db db' : Db)
      → split_last real_path ≡ some (d ∷ parent, name)
      → sql.delete_dir c.db (d ∷ parent) ≡ some db
      → sql.delete_meta db real_path ≡ some db'
      → forget_new os fs sql s (started c block w hits misses) real_path
        ≡ started (record c { db = db' }) block w hits misses
  unfolding forget_new
  meta-forget_new c block w hits misses real_path parent name d db db' split dir meta =
      rw
        (
          forget_new,
          parent_invalidated c real_path parent name d db split dir,
          invalidated (record c { db = db }) real_path db' meta,
        )
        refl

  -- Where the processed path has a '/' after its first character, so that it is not right below the
  -- mount, the system makes the directory, with the permission bits that the chain of --create-with-perms
  -- gives, and the two DELETE statements are done: `bindfs_mkdir` returns what the change of the owner
  -- returns, and after it the metadata cache has no entry for the processed path, not even a negative
  -- one, and no listing of what stands before its last '/'.
  pub mkdir-forgets :
      (fc : FuseContext) (c : MetaCtx Db) (block : Option BlockCtx) (w w' : W)
      (hits misses mode : ℕ) (path real_path parent name : Str) (d : ℕ) (db db' : Db) (later : ℕ)
      → process_path os s w path true ≡ done real_path
      → os.make_dir w real_path
          (bit_and (permchain_apply s.create_permchain (bit_or mode 0o40000)) 0o777)
        ≡ done w'
      → split_last real_path ≡ some (d ∷ parent, name)
      → sql.delete_dir c.db (d ∷ parent) ≡ some db
      → sql.delete_meta db real_path ≡ some db'
      → (st : State W Db) × (bindfs_mkdir os fs sql s fc (started c block w hits misses) path mode
          ≡ ((chown_new_file os s real_path fc os.chown w').0, st))
        × (cache_meta_lookup sql st.cache_meta_ctx (some real_path) later ≡ none)
        × (cache_dir_lookup sql st.cache_meta_ctx (some (d ∷ parent)) later ≡ none)
  unfolding bindfs_mkdir finish_new cache_meta_lookup cache_dir_lookup dir_hit
  mkdir-forgets fc c block w w' hits misses mode path real_path parent name d db db' later proc made
        split dir meta =
      let w'' = (chown_new_file os s real_path fc os.chown w').1 in
      (
        started (record c { db = db' }) block w'' hits misses,
        rw
            (
              bindfs_mkdir,
              proc,
              made,
              finish_new,
              meta-forget_new c block w'' hits misses real_path parent name d db db' split dir meta,
            )
            refl,
        ap (Option.map (λ (e : MetaEntry). (e, ltb later e.valid_until)))
            (laws.meta-delete_meta_self db db' real_path meta),
        ap (dir_hit later) (
            laws.dir-delete_meta db db' real_path (d ∷ parent) meta
            ∙ laws.dir-delete_dir_self c.db db (d ∷ parent) dir),
      )
