-- ===== src/Usermap/Inverse.antt =====
-- After `parse_user_map` of src/cachefs.c succeeds, each map undoes the other.
use cachefs.Prelude.{
  ℕ, zero, suc, ◌≡◌, ◌≢◌, refl, ◌⊎◌, true, inl, inr, Option, none, some, [], ◌∷◌, arith, length,
  ◌==◌, Str, Bool-cases, Option-cases,
}
use cachefs.Usermap.{
  UsermapStatus, usermap_ok, duplicate_key, IdTable, no_id, table_add, usermap_add_uid,
  usermap_add_gid,
}
use cachefs.Usermap.Lookup.{IsTable, IsInverse, table_add_lem, table_add-IsInverse}
use cachefs.Usermap.Slice.{
  IsSlice, NoMinusOne, NoMinusOne-IsSlice, IsSlice-tail, split_slash-IsSlice,
  split_slash_at-IsSlice, strdup_until-IsSlice,
}
use cachefs.Usermap.Spec.{
  Maps, past_delimiter, strdup_until, split_slash, split_slash_at, add_user_pair, add_group_pair,
  both_ids, add_ids, add_element, parse_elements, parse_user_map,
}

-- Two tables that map nothing to -1, of which each undoes the other.
pub record AreInverse (t r : IdTable) : Type 0 where
  pub forth_table : IsTable t
  pub back_table : IsTable r
  pub undoes : IsInverse t.entries r.entries

pub record IsMapPair (maps : Maps) : Type 0 where
  pub users : AreInverse maps.0.users maps.1.users
  pub groups : AreInverse maps.0.groups maps.1.groups

table_pair :
    (t r : IdTable) (from to : ℕ)
    → from ≢ no_id
    → to ≢ no_id
    → (table_add t from to).0 ≡ usermap_ok
    → (table_add r to from).0 ≡ usermap_ok
    → AreInverse t r
    → AreInverse (table_add t from to).1 (table_add r to from).1
table_pair t r from to nf nt et er h = record {
  forth_table = (table_add_lem t from to 0 0 h.forth_table nt).0;
  back_table = (table_add_lem r to from 0 0 h.back_table nf).0;
  undoes = table_add-IsInverse t r from to h.forth_table h.back_table nf nt et er h.undoes;
}

UsermapStatus-cases : (s : UsermapStatus) → (s ≡ usermap_ok) ⊎ (s ≡ duplicate_key)
UsermapStatus-cases usermap_ok = inl refl
UsermapStatus-cases duplicate_key = inr refl

pub add_user_pair-IsMapPair :
    (from to : ℕ) (maps maps' : Maps)
    → from ≢ no_id
    → to ≢ no_id
    → IsMapPair maps
    → add_user_pair from to maps ≡ (true, maps')
    → IsMapPair maps'
unfolding add_user_pair usermap_add_uid
add_user_pair-IsMapPair from to (map, back) maps' nf nt h e =
    elim (UsermapStatus-cases (table_add map.users from to).0) [
      | inr bad ↦ absurd (ground arith)
      | inl good ↦ elim (UsermapStatus-cases (table_add back.users to from).0) [
        | inr bad ↦ absurd (ground arith)
        | inl fine ↦
            let shape : maps' ≡ (
              record map { users = (table_add map.users from to).1 },
              record back { users = (table_add back.users to from).1 },
            ) =
              ground arith in
            rw shape (record {
              users = table_pair map.users back.users from to nf nt good fine h.users;
              groups = h.groups;
            })
      ]
    ]

pub add_group_pair-IsMapPair :
    (from to : ℕ) (maps maps' : Maps)
    → from ≢ no_id
    → to ≢ no_id
    → IsMapPair maps
    → add_group_pair from to maps ≡ (true, maps')
    → IsMapPair maps'
unfolding add_group_pair usermap_add_gid
add_group_pair-IsMapPair from to (map, back) maps' nf nt h e =
    elim (UsermapStatus-cases (table_add map.groups from to).0) [
      | inr bad ↦ absurd (ground arith)
      | inl good ↦ elim (UsermapStatus-cases (table_add back.groups to from).0) [
        | inr bad ↦ absurd (ground arith)
        | inl fine ↦
            let shape : maps' ≡ (
              record map { groups = (table_add map.groups from to).1 },
              record back { groups = (table_add back.groups to from).1 },
            ) =
              ground arith in
            rw shape (record {
              users = h.users;
              groups = table_pair map.groups back.groups from to nf nt good fine h.groups;
            })
      ]
    ]

both_ids-ne :
    (lookup : Str → Option ℕ) (text : Str) (names : Option (Str × Str)) (from to : ℕ)
    → NoMinusOne lookup text
    → ((q r : Str) → names ≡ some (q, r) → IsSlice q text × IsSlice r text)
    → both_ids lookup names ≡ some (from, to)
    → (from ≢ no_id) × (to ≢ no_id)
unfolding both_ids
both_ids-ne lookup text none from to h slices e = absurd (ground arith)
both_ids-ne lookup text (some (q, r)) from to h slices e =
    let (front, back) = slices q r refl in ground (arith, h q front, h r back)

module _ (user_uid group_gid : Str → Option ℕ) where
  add_users :
      (text : Str) (maps maps' : Maps)
      → NoMinusOne user_uid text
      → IsMapPair maps
      → add_ids add_user_pair (both_ids user_uid (split_slash text)) maps ≡ (true, maps')
      → IsMapPair maps'
  unfolding add_ids
  add_users text maps maps' uids h e = elim (Option-cases (both_ids user_uid (split_slash text))) [
    | inl bad ↦ absurd (ground arith)
    | inr ((from, to), good) ↦
        let ids =
          both_ids-ne user_uid text (split_slash text) from to uids (split_slash-IsSlice text)
            good in
        add_user_pair-IsMapPair from to maps maps' ids.0 ids.1 h (ground arith)
  ]

  add_groups :
      (text : Str) (maps maps' : Maps)
      → NoMinusOne group_gid text
      → IsMapPair maps
      → add_ids add_group_pair (both_ids group_gid (split_slash_at text)) maps ≡ (true, maps')
      → IsMapPair maps'
  unfolding add_ids
  add_groups text maps maps' gids h e =
      elim (Option-cases (both_ids group_gid (split_slash_at text))) [
        | inl bad ↦ absurd (ground arith)
        | inr ((from, to), good) ↦
            let ids =
              both_ids-ne group_gid text (split_slash_at text) from to gids
                (split_slash_at-IsSlice text) good in
            add_group_pair-IsMapPair from to maps maps' ids.0 ids.1 h (ground arith)
      ]

  add_element-IsMapPair :
      (text : Str) (maps maps' : Maps)
      → NoMinusOne user_uid text
      → NoMinusOne group_gid text
      → IsMapPair maps
      → add_element user_uid group_gid text maps ≡ (true, maps')
      → IsMapPair maps'
  unfolding add_element
  add_element-IsMapPair [] maps maps' uids gids h e = add_users [] maps maps' uids h e
  add_element-IsMapPair (c ∷ cs) maps maps' uids gids h e = elim (Bool-cases (c == b'@')) [
    | inl group ↦
        add_groups cs maps maps' (NoMinusOne-IsSlice group_gid cs (c ∷ cs) (IsSlice-tail c cs) gids)
          h (ground arith)
    | inr user ↦ add_users (c ∷ cs) maps maps' uids h (ground arith)
  ]

  parse_elements-IsMapPair :
      (fuel : ℕ) (text : Str) (maps maps' : Maps)
      → NoMinusOne user_uid text
      → NoMinusOne group_gid text
      → IsMapPair maps
      → parse_elements user_uid group_gid fuel text maps ≡ some (true, maps')
      → IsMapPair maps'
  unfolding parse_elements
  parse_elements-IsMapPair zero text maps maps' uids gids h e = absurd (ground arith)
  parse_elements-IsMapPair (suc fuel) [] maps maps' uids gids h e =
      let same : maps' ≡ maps = ground arith in rw same h
  parse_elements-IsMapPair (suc fuel) (c ∷ cs) maps maps' uids gids h e =
      let (front, rest) = strdup_until (c ∷ cs) in
      let step = add_element user_uid group_gid front maps in
      let (first, later) = strdup_until-IsSlice (c ∷ cs) in
      elim (Bool-cases step.0) [
        | inr bad ↦ absurd (ground arith)
        | inl good ↦
            parse_elements-IsMapPair fuel (past_delimiter rest) step.1 maps'
              (NoMinusOne-IsSlice user_uid (past_delimiter rest) (c ∷ cs) later uids)
              (NoMinusOne-IsSlice group_gid (past_delimiter rest) (c ∷ cs) later gids)
              (add_element-IsMapPair front maps step.1
                (NoMinusOne-IsSlice user_uid front (c ∷ cs) first uids)
                (NoMinusOne-IsSlice group_gid front (c ∷ cs) first gids) h (λ i. (good i, step.1)))
              (ground arith)
      ]

  -- Where no part of the text stands for the user or the group -1: if the map and the reverse map
  -- undo one another before `parse_user_map`, and it succeeds, they undo one another after it, for
  -- users and groups.
  pub parse_user_map-IsMapPair :
      (spec : Str) (maps maps' : Maps)
      → NoMinusOne user_uid spec
      → NoMinusOne group_gid spec
      → IsMapPair maps
      → parse_user_map user_uid group_gid spec maps ≡ (true, maps')
      → IsMapPair maps'
  unfolding parse_user_map
  parse_user_map-IsMapPair spec maps maps' uids gids h e =
      elim (Option-cases (parse_elements user_uid group_gid (suc (length spec)) spec maps)) [
        | inl out ↦ absurd (ground arith)
        | inr (result, found) ↦
            parse_elements-IsMapPair (suc (length spec)) spec maps maps' uids gids h (ground arith)
      ]
