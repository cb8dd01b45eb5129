-- ===== src/Userinfo/Belongs.antt =====
-- `user_belongs_to_group` of src/userinfo.c against the databases.
use mathlib.Core.Path.{subst}
use cachefs.Prelude.{
  ℕ, ◌≡◌, ◌↔◌, ◌⊎◌, inl, inr, refl, sym, ap, ◌∙◌, arith, true, false, ◌||◌, ==_iff, Option-cases,
  Bool-cases,
}
use cachefs.Userinfo.{
  Stdlib, UserDb, Passwd, Group, UidEntry, GidEntry, UserCache, uid_entry, rebuild_uid_cache,
  member_uids, gid_entries, rebuild_gid_cache, rebuild_cache, uid_cache_lookup, gid_cache_lookup,
  is_main_group, is_member, current_cache, user_belongs_to_group, uid_cache_uid_sortcmp,
  gid_cache_gid_sortcmp,
}
use cachefs.Userinfo.Order.{In, StdlibLaws, IsSmall}
use cachefs.Userinfo.Cache.{search_by_id, found_by_id}
use cachefs.Userinfo.Members.{
  IsConsistent, has_uid_iff, by_name, In-by_name, by_name-In, by_name-IsSmall, In-member_uids,
  member_uids-In, group_entry, In-gid_entries, gid_entries-In, gid_entries-IsSmall,
}

-- The group is the user's main group, or has the user's name among its members.
abbrev pub Belongs : UserDb → ℕ → ℕ → Type 0
Belongs db uid gid =
    ((pw : Passwd) × In pw db.passwd × (pw.pw_uid ≡ uid) × (pw.pw_gid ≡ gid))
    ⊎ ((gr : Group) × (pw : Passwd) × In gr db.group
        × (gr.gr_gid ≡ gid)
        × In pw db.passwd
        × (pw.pw_uid ≡ uid)
        × In pw.pw_name gr.gr_mem)

module _ (std : Stdlib) (laws : StdlibLaws std) (db : UserDb) (good : IsConsistent db) where
  -- The cache after it was built.
  abbrev built : UserCache
  built = record {
    uid_cache = std.qsort uid_cache_uid_sortcmp (by_name std db);
    gid_cache = std.qsort gid_cache_gid_sortcmp (gid_entries std (by_name std db) db.group);
    cache_rebuild_requested = false;
  }

  rebuilds : (c : UserCache) → c.cache_rebuild_requested ≡ true → current_cache std db c ≡ built
  unfolding current_cache rebuild_cache rebuild_gid_cache rebuild_uid_cache
  rebuilds c h =
      rw
        (
          h, current_cache, rebuild_cache, rebuild_gid_cache, rebuild_uid_cache, good.passwd_ends,
          good.group_ends,
        )
        refl

  main_group_iff :
      (uid gid : ℕ)
      → IsSmall uid
      → (is_main_group std (uid_cache_lookup std built uid) gid ≡ true)
        ↔ ((pw : Passwd) × In pw db.passwd × (pw.pw_uid ≡ uid) × (pw.pw_gid ≡ gid))
  unfolding is_main_group uid_cache_lookup
  main_group_iff uid gid small = (
    λ h. elim (Option-cases (uid_cache_lookup std built uid)) [
      | inl miss ↦ absurd (ground arith)
      | inr (e, hit) ↦
          let (m, key) =
            found_by_id std laws (λ x. x.uid) uid (by_name std db) small
              (by_name-IsSmall std laws db good) e hit in
          let (pw, k, same) = In-by_name std laws db good e m in
          (
            pw,
            k,
            ap (λ (x : UidEntry). x.uid) (sym same) ∙ key,
            ground (arith, ==_iff e.main_gid gid),
          )
    ],
    λ (pw, k, user, main).
        let (e, hit) =
          search_by_id std laws (λ x. x.uid) uid (by_name std db) small
            (by_name-IsSmall std laws db good) (uid_entry pw) (by_name-In std laws db good pw k)
            user in
        let (m, key) =
          found_by_id std laws (λ x. x.uid) uid (by_name std db) small
            (by_name-IsSmall std laws db good) e hit in
        let (q, kq, same) = In-by_name std laws db good e m in
        let one = good.one_uid pw q k kq (user ∙ sym key ∙ ap (λ (x : UidEntry). x.uid) same) in
        ground (arith, hit, main, same, ap (λ (x : Passwd). x.pw_gid) one, ==_iff e.main_gid gid),
  )

  member_iff :
      (uid gid : ℕ)
      → IsSmall gid
      → (is_member std (gid_cache_lookup std built gid) uid ≡ true) ↔ (
          (gr : Group) × (pw : Passwd) × In gr db.group
          × (gr.gr_gid ≡ gid)
          × In pw db.passwd
          × (pw.pw_uid ≡ uid)
          × In pw.pw_name gr.gr_mem)
  unfolding is_member gid_cache_lookup
  member_iff uid gid small = (
    λ h. elim (Option-cases (gid_cache_lookup std built gid)) [
      | inl miss ↦ absurd (ground arith)
      | inr (g, hit) ↦
          let (m, key) =
            found_by_id std laws (λ x. x.gid) gid (gid_entries std (by_name std db) db.group) small
              (gid_entries-IsSmall std laws db good) g hit in
          let (gr, k, same) = In-gid_entries std laws db good db.group g m in
          let listed : In uid g.uids = (has_uid_iff std laws g.uids uid).0 (ground arith) in
          let (pw, kp, user, name) =
            In-member_uids std laws db good gr.gr_mem uid
              (subst (λ x. In uid x.uids) same listed) in
          (gr, pw, k, ap (λ (x : GidEntry). x.gid) (sym same) ∙ key, kp, user, name)
    ],
    λ (gr, pw, k, group, kp, user, name).
        let (g, hit) =
          search_by_id std laws (λ x. x.gid) gid (gid_entries std (by_name std db) db.group) small
            (gid_entries-IsSmall std laws db good) (group_entry std db gr)
            (gid_entries-In std laws db good db.group gr k) group in
        let (m, key) =
          found_by_id std laws (λ x. x.gid) gid (gid_entries std (by_name std db) db.group) small
            (gid_entries-IsSmall std laws db good) g hit in
        let (q, kq, same) = In-gid_entries std laws db good db.group g m in
        let one = good.one_gid gr q k kq (group ∙ sym key ∙ ap (λ (x : GidEntry). x.gid) same) in
        let listed : In pw.pw_uid (member_uids std (by_name std db) q.gr_mem) =
          subst (λ x. In pw.pw_uid (member_uids std (by_name std db) x.gr_mem)) one
            (member_uids-In std laws db good gr.gr_mem pw kp name) in
        let there : In uid g.uids =
          subst (λ x. In uid x.uids) (sym same)
            (subst (λ u. In u (member_uids std (by_name std db) q.gr_mem)) user listed) in
        rw hit ((has_uid_iff std laws g.uids uid).1 there),
  )

  built-Belongs :
      (uid gid : ℕ)
      → IsSmall uid
      → IsSmall gid
      → ((is_main_group std (uid_cache_lookup std built uid) gid
            || is_member std (gid_cache_lookup std built gid) uid)
          ≡ true)
        ↔ Belongs db uid gid
  built-Belongs uid gid su sg =
      let main = main_group_iff uid gid su in
      let member = member_iff uid gid sg in
      (
        λ h. elim (Bool-cases (is_main_group std (uid_cache_lookup std built uid) gid)) [
          | inl e ↦ inl (main.0 e)
          | inr e ↦ inr (member.0 (ground arith))
        ],
        λ b. elim b [
          | inl x ↦ let e = main.1 x in ground arith
          | inr x ↦ let e = member.1 x in ground arith
        ],
      )

  -- Where the databases are read to their end, a user's number and name and a group's number occur
  -- once in them, and all numbers are below 2 ^ 31: a `user_belongs_to_group` for which a rebuild was
  -- requested is true exactly when the group is the user's main group or names the user as a
  -- member. The cache that it leaves answers every later call so, for any user and group and
  -- whatever the databases have become, and no call changes it.
  pub user_belongs_to_group_iff :
      (c : UserCache) (uid gid : ℕ)
      → c.cache_rebuild_requested ≡ true
      → IsSmall uid
      → IsSmall gid
      → (((user_belongs_to_group std db c uid gid).0 ≡ true) ↔ Belongs db uid gid)
        × ((later : UserDb) (u g : ℕ)
            → IsSmall u
            → IsSmall g
            → (((user_belongs_to_group std later (user_belongs_to_group std db c uid gid).1 u g).0
                  ≡ true)
                ↔ Belongs db u g)
              × ((user_belongs_to_group std later (user_belongs_to_group std db c uid gid).1 u g).1
                  ≡ (user_belongs_to_group std db c uid gid).1))
  unfolding user_belongs_to_group current_cache
  user_belongs_to_group_iff c uid gid requested su sg =
      rw (rebuilds c requested)
        (built-Belongs uid gid su sg, λ later u g smu smg. (built-Belongs u g smu smg, refl))
