-- ===== src/Usermap/Tests.antt =====
-- src/usermap.c and `parse_user_map` of src/cachefs.c at concrete inputs.
use cachefs.Prelude.{
  ℕ, ◌≡◌, ◌≢◌, refl, true, Option, none, some, [], ◌∷◌, arith, Str, bytes, str_eq, if◌then◌else◌,
  sym,
}
use cachefs.Usermap.{
  usermap_ok, duplicate_key, no_id, usermap_create, find_or_default, table_add, usermap_add_uid,
  usermap_get_uid_or_default,
}
use cachefs.Usermap.Lookup.{IsTable, get_uid-add_uid}
use cachefs.Usermap.Spec.{
  Maps, strdup_until, split_slash, add_user_pair, both_ids, add_ids, add_element, parse_elements,
  parse_user_map,
}
use cachefs.Usermap.Fuel.{parse_elements-fuel}
use cachefs.Usermap.Slice.{NoMinusOne}
use cachefs.Usermap.Inverse.{AreInverse, IsMapPair, parse_user_map-IsMapPair}

empty-IsTable : IsTable usermap_create.users
empty-IsTable = record { targets = tt; within = omega arith }

get_uid-add_uid_example :
    IsTable (usermap_add_uid usermap_create 1000 2000).1.users
    × ((usermap_add_uid usermap_create 1000 2000).0 ≡ usermap_ok
        → usermap_get_uid_or_default (usermap_add_uid usermap_create 1000 2000).1 1000 7 ≡ 2000)
    × ((usermap_add_uid usermap_create 1000 2000).0 ≡ duplicate_key
        → ((usermap_add_uid usermap_create 1000 2000).1.users.entries ≡ [])
          × (usermap_get_uid_or_default usermap_create 1000 no_id ≢ no_id))
get_uid-add_uid_example = get_uid-add_uid usermap_create 1000 2000 1000 7 empty-IsTable ne
  where
    ne : 2000 ≢ no_id
    ne e = absurd (omega arith)

-- Two users, `a` and `b`, and no groups.
abbrev uid_of : Str → Option ℕ
uid_of n =
    if str_eq n (bytes "a") then some 1000 else if str_eq n (bytes "b") then some 2000 else none

abbrev gid_of : Str → Option ℕ
gid_of n = none

abbrev mapped : Maps
mapped = (
  record usermap_create { users = record { entries = (1000, 2000) ∷ []; capacity = 8 } },
  record usermap_create { users = record { entries = (2000, 1000) ∷ []; capacity = 8 } },
)

abbrev no_maps : Maps
no_maps = (usermap_create, usermap_create)

parse_runs : parse_user_map uid_of gid_of (bytes "a/b") no_maps ≡ (true, mapped)
unfolding parse_user_map parse_elements strdup_until split_slash add_element both_ids add_ids
    add_user_pair usermap_add_uid table_add find_or_default str_eq
parse_runs = refl

uids : NoMinusOne uid_of (bytes "a/b")
uids n part e = absurd (ground arith)

gids : NoMinusOne gid_of (bytes "a/b")
gids n part e = absurd (ground arith)

empty-AreInverse : AreInverse usermap_create.users usermap_create.users
unfolding find_or_default
empty-AreInverse = record {
  forth_table = empty-IsTable;
  back_table = empty-IsTable;
  undoes = λ u v nu nv. (λ e. absurd (nv (sym e)), λ e. absurd (nu (sym e)));
}

parse_user_map-IsMapPair_example : IsMapPair mapped
parse_user_map-IsMapPair_example =
    parse_user_map-IsMapPair uid_of gid_of (bytes "a/b") no_maps mapped uids gids
      (record { users = empty-AreInverse; groups = empty-AreInverse }) parse_runs

parse_elements-fuel_example :
    parse_elements uid_of gid_of 10 (bytes "a/b:b/a") no_maps
    ≡ some (parse_user_map uid_of gid_of (bytes "a/b:b/a") no_maps)
parse_elements-fuel_example =
    parse_elements-fuel uid_of gid_of 10 (bytes "a/b:b/a") no_maps (omega arith)
