-- ===== src/Mount/Entries.antt =====
-- `delete_file`, `bindfs_mkdir`, `bindfs_symlink` and `bindfs_rename` of src/cachefs.c.
use cachefs.Prelude.Bits.{bit_and, bit_or}
use cachefs.Prelude.{ℕ, true, false, Option, none, some, if◌then◌else◌, Str, ◌>>=◌}
use cachefs.Posix.{Errno, is_lnk}
use cachefs.Meta.{Sqlite, cache_meta_invalidate}
use cachefs.Block.{BlockFs}
use cachefs.Block.Operations.{cache_block_invalidate_file}
use cachefs.Permchain.{permchain_apply}
use cachefs.Mount.{
  Result, error, done, Settings, FuseContext, Os, State, ResolvedSymlinkDeletion, deny,
  symlink_only, symlink_first, target_first,
}
use cachefs.Mount.Paths.{process_path, invalidate_parent}
use cachefs.Mount.Policy.{chown_new_file}

-- What the policy for symlinks decides: the function that deletes the path, a target that is tried
-- afterwards, and the world, from which a target may have been unlinked.
pub record Deletion (W : Type 0) : Type 0 where
  pub main_delete_func : W → Str → Result W
  pub also_try_delete : Option Str
  pub world : W

module _ {W Db : Type 0} (os : Os W) (fs : BlockFs W) (sql : Sqlite Db) (s : Settings) where
  unfoldable pub plan_symlink :
      ResolvedSymlinkDeletion → (W → Str → Result W) → W → Str → Result (Deletion W)
  plan_symlink deny target_delete_func w real_path = error Errno.eperm
  plan_symlink symlink_only target_delete_func w real_path =
      done (record { main_delete_func = os.unlink_file; also_try_delete = none; world = w })
  plan_symlink symlink_first target_delete_func w real_path = elim (os.realpath w real_path) [
    | error Errno.enoent ↦
        done (record { main_delete_func = os.unlink_file; also_try_delete = none; world = w })
    | error e ↦ error e
    | done target ↦
        done
          (record { main_delete_func = os.unlink_file; also_try_delete = some target; world = w })
  ]
  plan_symlink target_first target_delete_func w real_path = elim (os.realpath w real_path) [
    | error Errno.enoent ↦
        done (record { main_delete_func = target_delete_func; also_try_delete = none; world = w })
    | error e ↦ error e
    | done target ↦ elim (os.unlink_file w target) [
      | error e ↦ error e
      | done w' ↦
          done
            (record { main_delete_func = target_delete_func; also_try_delete = none; world = w' })
    ]
  ]

  unfoldable pub plan_deletion : (W → Str → Result W) → W → Str → Result (Deletion W)
  plan_deletion target_delete_func w real_path =
      let plain : Deletion W = record {
        main_delete_func = target_delete_func;
        also_try_delete = none;
        world = w;
      } in
      if s.resolve_symlinks
      then elim (os.lstat w real_path) [
        | error e ↦ error e
        | done st ↦
            if is_lnk st.mode
            then plan_symlink s.resolved_symlink_deletion_policy target_delete_func w real_path
            else done plain
      ]
      else done plain

  -- The blocks are dropped only where there is a metadata cache.
  unfoldable pub forget_deleted : State W Db → Str → State W Db
  forget_deleted st real_path = elim st.cache_meta_ctx [
    | none ↦ st
    | some c ↦ elim (cache_meta_invalidate sql (some c) (some real_path)).1 [
      | none ↦ st
      | some c' ↦
          let (_, block, w) =
            cache_block_invalidate_file fs st.cache_block_ctx (some real_path) st.world in
          record st {
            cache_meta_ctx = invalidate_parent sql c' real_path;
            cache_block_ctx = block;
            world = w;
          }
    ]
  ]

  -- The target that is tried afterwards.
  unfoldable pub try_delete : (W → Str → Result W) → State W Db → Option Str → State W Db
  try_delete target_delete_func st none = st
  try_delete target_delete_func st (some target) = elim (target_delete_func st.world target) [
    | error e ↦ st
    | done w ↦ record st { world = w }
  ]

  unfoldable pub delete_file : State W Db → Str → (W → Str → Result W) → Result Unit × State W Db
  delete_file st path target_delete_func =
      if s.delete_deny
      then (error Errno.eperm, st)
      else elim (process_path os s st.world path false) [
        | error e ↦ (error e, st)
        | done real_path ↦ elim (plan_deletion target_delete_func st.world real_path) [
          | error e ↦ (error e, st)
          | done plan ↦ elim (plan.main_delete_func plan.world real_path) [
            | error e ↦ (error e, record st { world = plan.world })
            | done w ↦ (
              done tt,
              try_delete target_delete_func (forget_deleted (record st { world = w }) real_path)
                  plan.also_try_delete,
            )
          ]
        ]
      ]

  bindfs_unlink : State W Db → Str → Result Unit × State W Db
  bindfs_unlink st path = delete_file st path os.unlink_file

  bindfs_rmdir : State W Db → Str → Result Unit × State W Db
  bindfs_rmdir st path = delete_file st path os.rmdir

  -- The listing of the parent and the entry of a new name are dropped.
  unfoldable pub forget_new : State W Db → Str → State W Db
  forget_new st real_path = elim st.cache_meta_ctx [
    | none ↦ st
    | some c ↦ record st {
      cache_meta_ctx =
          (cache_meta_invalidate sql (invalidate_parent sql c real_path) (some real_path)).1;
    }
  ]

  -- What follows the call that makes the name.
  unfoldable pub finish_new :
      FuseContext → (W → Str → ℕ → ℕ → Result W) → State W Db → Str → Result Unit × State W Db
  finish_new fc chown_func st real_path =
      let (res, w) = chown_new_file os s real_path fc chown_func st.world in
      (res, forget_new (record st { world = w }) real_path)

  unfoldable pub bindfs_mkdir : FuseContext → State W Db → Str → ℕ → Result Unit × State W Db
  bindfs_mkdir fc st path mode = elim (process_path os s st.world path true) [
    | error e ↦ (error e, st)
    | done real_path ↦
        let shown = permchain_apply s.create_permchain (bit_or mode 0o40000) in
        elim (os.make_dir st.world real_path (bit_and shown 0o777)) [
          | error e ↦ (error e, st)
          | done w ↦ finish_new fc os.chown (record st { world = w }) real_path
        ]
  ]

  unfoldable pub bindfs_symlink : FuseContext → State W Db → Str → Str → Result Unit × State W Db
  bindfs_symlink fc st from to =
      if s.resolve_symlinks
      then (error Errno.eperm, st)
      else elim (process_path os s st.world to false) [
        | error e ↦ (error e, st)
        | done real_to ↦ elim (os.symlink st.world from real_to) [
          | error e ↦ (error e, st)
          | done w ↦ finish_new fc os.lchown (record st { world = w }) real_to
        ]
      ]

  -- Both paths, and the listings of both parents.
  unfoldable pub forget_renamed : State W Db → Str → Str → State W Db
  forget_renamed st real_from real_to = elim st.cache_meta_ctx [
    | none ↦ st
    | some c ↦
        let from_gone = (cache_meta_invalidate sql (some c) (some real_from)).1 in
        let both_gone = (cache_meta_invalidate sql from_gone (some real_to)).1 in
        let (_, block, w) =
          cache_block_invalidate_file fs st.cache_block_ctx (some real_from) st.world in
        record st {
          cache_meta_ctx = both_gone >>= (λ c'.
              invalidate_parent sql c' real_from >>= (λ d. invalidate_parent sql d real_to));
          cache_block_ctx = block;
          world = w;
        }
  ]

  -- The caches are invalidated whether the system renamed the file or not.
  unfoldable pub bindfs_rename : State W Db → Str → Str → ℕ → Result Unit × State W Db
  bindfs_rename st from to flags =
      if s.rename_deny
      then (error Errno.eperm, st)
      else elim (process_path os s st.world from false) [
        | error e ↦ (error e, st)
        | done real_from ↦ elim (process_path os s st.world to true) [
          | error e ↦ (error e, st)
          | done real_to ↦ elim (os.rename st.world real_from real_to flags) [
            | error e ↦ (error e, forget_renamed st real_from real_to)
            | done w ↦ (done tt, forget_renamed (record st { world = w }) real_from real_to)
          ]
        ]
      ]
