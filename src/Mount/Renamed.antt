-- ===== src/Mount/Renamed.antt =====
-- What `bindfs_rename` of src/cachefs.c leaves in the metadata cache.
use cachefs.Prelude.{
  ℕ, ◌≡◌, refl, ap, sym, ◌∙◌, inl, inr, Bool, true, false, Option, none, some, [], ◌∷◌, arith, ltb,
  Str, str_eq, str_eq_sound, str_eq_iff, Bool-cases,
}
use mathlib.Core.Option
use cachefs.Meta.{MetaEntry, Sqlite, MetaCtx, dir_hit, cache_meta_lookup, cache_dir_lookup}
use cachefs.Meta.Contract.{SqliteLaws}
use cachefs.Block.{BlockFs, BlockCtx}
use cachefs.Mount.{done, Settings, Os}
use cachefs.Mount.Paths.{process_path, split_last}
use cachefs.Mount.Entries.{forget_renamed, bindfs_rename}
use cachefs.Mount.Cached.{started}
use cachefs.Mount.Chmod.{Result-cases}
use cachefs.Mount.Forget.{invalidated, parent_invalidated}

-- No entry of the two paths and no listing of the two directories.
pub record IsForgotten {Db : Type 0} (sql : Sqlite Db) (meta : Option (MetaCtx Db))
    (from to from_dir to_dir : Str) (later : ℕ) : Type 0 where
  pub no_from : cache_meta_lookup sql meta (some from) later ≡ none
  pub no_to : cache_meta_lookup sql meta (some to) later ≡ none
  pub no_from_dir : cache_dir_lookup sql meta (some from_dir) later ≡ none
  pub no_to_dir : cache_dir_lookup sql meta (some to_dir) later ≡ none

module _ {W Db : Type 0} (os : Os W) (fs : BlockFs W) (sql : Sqlite Db) (s : Settings)
    (saved : Db → Option Db) (laws : SqliteLaws sql saved) where
  -- The four statements, one after the other.
  four_deletes-IsForgotten :
      (c : MetaCtx Db) (from to from_dir to_dir : Str) (d1 d2 d3 d4 : Db) (later : ℕ)
      → sql.delete_meta c.db from ≡ some d1
      → sql.delete_meta d1 to ≡ some d2
      → sql.delete_dir d2 from_dir ≡ some d3
      → sql.delete_dir d3 to_dir ≡ some d4
      → IsForgotten sql (some (record c { db = d4 })) from to from_dir to_dir later
  unfolding cache_meta_lookup cache_dir_lookup dir_hit
  four_deletes-IsForgotten c from to from_dir to_dir d1 d2 d3 d4 later h1 h2 h3 h4 =
      let meta : (p : Str) → sql.select_meta d4 p ≡ sql.select_meta d2 p =
        λ p. laws.meta-delete_dir d3 d4 to_dir p h4 ∙ laws.meta-delete_dir d2 d3 from_dir p h3 in
      let gone_to = laws.meta-delete_meta_self d1 d2 to h2 in
      let gone_from : sql.select_meta d2 from ≡ none = elim (Bool-cases (str_eq to from)) [
        | inl same ↦ ap (sql.select_meta d2) (sym (str_eq_sound to from same)) ∙ gone_to
        | inr differ ↦
            laws.meta-delete_meta_ne d1 d2 to from h2
              (λ e. absurd (ground (arith, (str_eq_iff to from).1 e)))
            ∙ laws.meta-delete_meta_self c.db d1 from h1
      ] in
      let gone_to_dir = laws.dir-delete_dir_self d3 d4 to_dir h4 in
      let gone_from_dir : sql.select_dir d4 from_dir ≡ [] =
        elim (Bool-cases (str_eq to_dir from_dir)) [
          | inl same ↦
              ap (sql.select_dir d4) (sym (str_eq_sound to_dir from_dir same)) ∙ gone_to_dir
          | inr differ ↦
              laws.dir-delete_dir_ne d3 d4 to_dir from_dir h4
                (λ e. absurd (ground (arith, (str_eq_iff to_dir from_dir).1 e)))
              ∙ laws.dir-delete_dir_self d2 d3 from_dir h3
        ] in
      let hit : Option MetaEntry → Option (MetaEntry × Bool) =
        Option.map (λ e. (e, ltb later e.valid_until)) in
      record {
        no_from = ap hit (meta from ∙ gone_from);
        no_to = ap hit (meta to ∙ gone_to);
        no_from_dir = ap (dir_hit later) gone_from_dir;
        no_to_dir = ap (dir_hit later) gone_to_dir;
      }

  module _ (c : MetaCtx Db) (from_path to_path from to from_name to_name from_rest to_rest : Str)
      (a b : ℕ) (d1 d2 d3 d4 : Db) (h1 : sql.delete_meta c.db from ≡ some d1)
      (h2 : sql.delete_meta d1 to ≡ some d2) (h3 : sql.delete_dir d2 (a ∷ from_rest) ≡ some d3)
      (h4 : sql.delete_dir d3 (b ∷ to_rest) ≡ some d4)
      (split_from : split_last from ≡ some (a ∷ from_rest, from_name))
      (split_to : split_last to ≡ some (b ∷ to_rest, to_name)) where
    meta-forget_renamed :
        (block : Option BlockCtx) (w : W) (hits misses : ℕ)
        → (forget_renamed os fs sql s (started c block w hits misses) from to).cache_meta_ctx
          ≡ some (record c { db = d4 })
    unfolding forget_renamed
    meta-forget_renamed block w hits misses =
        rw
          (
            forget_renamed,
            invalidated os fs sql s saved laws c from d1 h1,
            invalidated os fs sql s saved laws (record c { db = d1 }) to d2 h2,
            parent_invalidated os fs sql s saved laws (record c { db = d2 }) from from_rest
                from_name a d3 split_from h3,
            parent_invalidated os fs sql s saved laws (record c { db = d3 }) to to_rest to_name b d4
                split_to h4,
          )
          refl

    -- Where both processed paths have a '/' after their first character, so that neither is right
    -- below the mount, renaming is allowed and the four DELETE statements are done: whether the
    -- system renames the file or not, after `bindfs_rename` the metadata cache has no entry for
    -- either processed path and no listing of what stands before the last '/' of either.
    pub rename-IsForgotten :
        (block : Option BlockCtx) (w : W) (hits misses flags later : ℕ)
        → s.rename_deny ≡ false
        → process_path os s w from_path false ≡ done from
        → process_path os s w to_path true ≡ done to
        → IsForgotten sql
            (bindfs_rename os fs sql s
              (started c block w hits misses)
              from_path
              to_path
              flags).1.cache_meta_ctx
            from
            to
            (a ∷ from_rest)
            (b ∷ to_rest)
            later
    unfolding bindfs_rename forget_renamed
    rename-IsForgotten block w hits misses flags later allowed proc_from proc_to =
        let forgotten =
          four_deletes-IsForgotten c from to (a ∷ from_rest) (b ∷ to_rest) d1 d2 d3 d4 later h1 h2
            h3 h4 in
        elim (Result-cases (os.rename w from to flags)) [
          | inl (e, bad) ↦
              rw
                (
                  bindfs_rename,
                  proc_from,
                  proc_to,
                  bad,
                  allowed,
                  meta-forget_renamed block w hits misses,
                )
                forgotten
          | inr (w', good) ↦
              rw
                (
                  bindfs_rename,
                  proc_from,
                  proc_to,
                  good,
                  allowed,
                  meta-forget_renamed block w' hits misses,
                )
                forgotten
        ]
