-- ===== src/Userinfo/Members.antt =====
-- What the arrays of the cache of src/userinfo.c hold of the databases.
use mathlib.Core.Path.{subst}
use cachefs.Prelude.{
  ℕ, ◌≡◌, ◌↔◌, inl, inr, refl, sym, ap, ◌∙◌, none, some, List, [], ◌∷◌, arith, Str, true, ◌==◌,
  ==_iff, Option-cases, Bool-cases,
}
use cachefs.Userinfo.{
  Stdlib, UserDb, Passwd, Group, UidEntry, GidEntry, uid_entry, uid_entries, ends_well, member_uids,
  gid_entries, has_uid, uid_cache_name_sortcmp, uid_cache_name_searchcmp,
}
use cachefs.Userinfo.Order.{In, StdlibLaws, IsSmall}
use cachefs.Userinfo.Cache.{search_by_text, found_by_text}

-- A database that is read to its end, in which a user's number and name and a group's number occur
-- once, with numbers below 2 ^ 31.
pub record IsConsistent (db : UserDb) : Type 0 where
  pub passwd_ends : ends_well db.passwd_end ≡ true
  pub group_ends : ends_well db.group_end ≡ true
  pub small_uid : (pw : Passwd) → In pw db.passwd → IsSmall pw.pw_uid
  pub small_gid : (gr : Group) → In gr db.group → IsSmall gr.gr_gid
  pub one_uid : (p q : Passwd) → In p db.passwd → In q db.passwd → p.pw_uid ≡ q.pw_uid → p ≡ q
  pub one_name : (p q : Passwd) → In p db.passwd → In q db.passwd → p.pw_name ≡ q.pw_name → p ≡ q
  pub one_gid : (g h : Group) → In g db.group → In h db.group → g.gr_gid ≡ h.gr_gid → g ≡ h

pub In-uid_entries :
    (pws : List Passwd) (e : UidEntry)
    → In e (uid_entries pws)
    → (pw : Passwd) × In pw pws × (e ≡ uid_entry pw)
unfolding uid_entries
In-uid_entries [] e m = elim m [ ]
In-uid_entries (pw ∷ pws) e (inl same) = (pw, inl refl, same)
In-uid_entries (pw ∷ pws) e (inr m) = let (q, k, same) = In-uid_entries pws e m in (q, inr k, same)

pub uid_entries-In :
    (pws : List Passwd) (pw : Passwd) → In pw pws → In (uid_entry pw) (uid_entries pws)
unfolding uid_entries
uid_entries-In [] pw m = elim m [ ]
uid_entries-In (q ∷ pws) pw (inl same) = inl (ap uid_entry same)
uid_entries-In (q ∷ pws) pw (inr m) = inr (uid_entries-In pws pw m)

module _ (std : Stdlib) (db : UserDb) where
  -- The users as they are when the groups are read.
  abbrev pub by_name : List UidEntry
  by_name = std.qsort uid_cache_name_sortcmp (uid_entries db.passwd)

  abbrev pub group_entry : Group → GidEntry
  group_entry gr = record { gid = gr.gr_gid; uids = member_uids std by_name gr.gr_mem }

module _ (std : Stdlib) (laws : StdlibLaws std) where
  pub has_uid_iff : (us : List ℕ) (uid : ℕ) → (has_uid std us uid ≡ true) ↔ In uid us
  unfolding has_uid
  has_uid_iff [] uid = (λ h. absurd (ground arith), λ m. elim m [ ])
  has_uid_iff (u ∷ us) uid = (
    λ h. elim (Bool-cases (u == uid)) [
      | inl e ↦ inl (sym ((==_iff u uid).0 e))
      | inr e ↦ inr ((has_uid_iff us uid).0 (ground arith))
    ],
    λ m. elim m [
      | inl e ↦ ground (arith, ==_iff u uid)
      | inr k ↦ let there = (has_uid_iff us uid).1 k in ground arith
    ],
  )

  module _ (db : UserDb) (good : IsConsistent db) where
    pub In-by_name :
        (e : UidEntry)
        → In e (by_name std db)
        → (pw : Passwd) × In pw db.passwd × (e ≡ uid_entry pw)
    In-by_name e m =
        In-uid_entries db.passwd e
          ((laws.In-qsort uid_cache_name_sortcmp (uid_entries db.passwd) e).0 m)

    pub by_name-In : (pw : Passwd) → In pw db.passwd → In (uid_entry pw) (by_name std db)
    by_name-In pw m =
        (laws.In-qsort uid_cache_name_sortcmp (uid_entries db.passwd) (uid_entry pw)).1
          (uid_entries-In db.passwd pw m)

    pub by_name-IsSmall : (e : UidEntry) → In e (by_name std db) → IsSmall e.uid
    by_name-IsSmall e m =
        let (pw, k, same) = In-by_name e m in
        subst (λ x. IsSmall x.uid) (sym same) (good.small_uid pw k)

    member_uids-unknown :
        (n : Str) (names : List Str)
        → std.bsearch (uid_cache_name_searchcmp n) (by_name std db) ≡ none
        → member_uids std (by_name std db) (n ∷ names) ≡ member_uids std (by_name std db) names
    unfolding member_uids
    member_uids-unknown n names e = rw (e, member_uids) refl

    member_uids-known :
        (n : Str) (names : List Str) (e : UidEntry)
        → std.bsearch (uid_cache_name_searchcmp n) (by_name std db) ≡ some e
        → member_uids std (by_name std db) (n ∷ names)
          ≡ e.uid ∷ member_uids std (by_name std db) names
    unfolding member_uids
    member_uids-known n names entry e = rw (e, member_uids) refl

    -- The user that a name finds.
    named :
        (n : Str) (e : UidEntry)
        → std.bsearch (uid_cache_name_searchcmp n) (by_name std db) ≡ some e
        → (pw : Passwd) × In pw db.passwd × (e ≡ uid_entry pw) × (pw.pw_name ≡ n)
    named n e hit =
        let (m, name) = found_by_text std laws (λ x. x.username) n (uid_entries db.passwd) e hit in
        let (pw, k, same) = In-uid_entries db.passwd e m in
        (pw, k, same, ap (λ (x : UidEntry). x.username) (sym same) ∙ name)

    -- The ids of the members of a group.
    pub In-member_uids :
        (names : List Str) (u : ℕ)
        → In u (member_uids std (by_name std db) names)
        → (pw : Passwd) × In pw db.passwd × (pw.pw_uid ≡ u) × In pw.pw_name names
    unfolding member_uids
    In-member_uids [] u m = elim m [ ]
    In-member_uids (n ∷ names) u m =
        let later = In-member_uids names u in
        elim (Option-cases (std.bsearch (uid_cache_name_searchcmp n) (by_name std db))) [
          | inl e ↦
              let (pw, k, same, in_names) =
                later (subst (In u) (member_uids-unknown n names e) m) in
              (pw, k, same, inr in_names)
          | inr (entry, e) ↦ elim (subst (In u) (member_uids-known n names entry e) m) [
            | inl same ↦
                let (pw, k, is, name) = named n entry e in
                (pw, k, ap (λ (x : UidEntry). x.uid) (sym is) ∙ sym same, inl name)
            | inr rest ↦ let (pw, k, same, in_names) = later rest in (pw, k, same, inr in_names)
          ]
        ]

    pub member_uids-In :
        (names : List Str) (pw : Passwd)
        → In pw db.passwd
        → In pw.pw_name names
        → In pw.pw_uid (member_uids std (by_name std db) names)
    member_uids-In [] pw k m = elim m [ ]
    member_uids-In (n ∷ names) pw k m =
        let later = member_uids-In names pw k in
        elim (Option-cases (std.bsearch (uid_cache_name_searchcmp n) (by_name std db))) [
          | inl e ↦ subst (In pw.pw_uid) (sym (member_uids-unknown n names e)) (elim m [
            | inl name ↦
                let hit =
                  search_by_text std laws (λ x. x.username) n (uid_entries db.passwd) (uid_entry pw)
                    (uid_entries-In db.passwd pw k) name in
                absurd (ground (arith, e, hit.1))
            | inr rest ↦ later rest
          ])
          | inr (entry, e) ↦
              subst (In pw.pw_uid) (sym (member_uids-known n names entry e)) (elim m [
                | inl name ↦
                    let (q, kq, is, found) = named n entry e in
                    let same = good.one_name pw q k kq (name ∙ sym found) in
                    inl (ap (λ (x : Passwd). x.pw_uid) same ∙ ap (λ (x : UidEntry). x.uid) (sym is))
                | inr rest ↦ inr (later rest)
              ])
        ]

    pub In-gid_entries :
        (grs : List Group) (g : GidEntry)
        → In g (gid_entries std (by_name std db) grs)
        → (gr : Group) × In gr grs × (g ≡ group_entry std db gr)
    unfolding gid_entries
    In-gid_entries [] g m = elim m [ ]
    In-gid_entries (gr ∷ grs) g (inl same) = (gr, inl refl, same)
    In-gid_entries (gr ∷ grs) g (inr m) =
        let (q, k, same) = In-gid_entries grs g m in (q, inr k, same)

    pub gid_entries-In :
        (grs : List Group) (gr : Group)
        → In gr grs
        → In (group_entry std db gr) (gid_entries std (by_name std db) grs)
    unfolding gid_entries
    gid_entries-In [] gr m = elim m [ ]
    gid_entries-In (q ∷ grs) gr (inl same) = inl (ap (group_entry std db) same)
    gid_entries-In (q ∷ grs) gr (inr m) = inr (gid_entries-In grs gr m)

    pub gid_entries-IsSmall :
        (g : GidEntry) → In g (gid_entries std (by_name std db) db.group) → IsSmall g.gid
    gid_entries-IsSmall g m =
        let (gr, k, same) = In-gid_entries db.group g m in
        subst (λ x. IsSmall x.gid) (sym same) (good.small_gid gr k)
