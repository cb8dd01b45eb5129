-- ===== src/Userinfo/Tests.antt =====
-- src/userinfo.c at concrete inputs.
use cachefs.Prelude.{
  ℕ, ◌≡◌, ◌↔◌, ◌^◌, ◌-◌, ltb, if◌then◌else◌, refl, none, some, [], ◌∷◌, arith, Str, true, bytes,
  str_eq,
}
use cachefs.Posix.Strtol.{strtol}
use cachefs.Userinfo.{
  UserDb, Passwd, Group, UserCache, NameLookup, erange, absent, found, numeric_id, user_uid,
  group_gid, with_buffer, id_of_long, user_belongs_to_group,
}
use cachefs.Userinfo.Order.{IsSmall}
use cachefs.Userinfo.Members.{IsConsistent}
use cachefs.Userinfo.Belongs.{Belongs, user_belongs_to_group_iff}
use cachefs.Userinfo.Sample.{plain_stdlib, plain_stdlib-laws}

numbers :
    (numeric_id (bytes " +1000") ≡ some 1000)
    × (numeric_id (bytes "-1") ≡ some (2 ^ 32 - 1))
    × (numeric_id (bytes "") ≡ some 0)
    × (numeric_id (bytes "alice") ≡ none)
    × (numeric_id (bytes "10x") ≡ none)
unfolding numeric_id id_of_long strtol
numbers = (refl, refl, refl, refl, refl)

abbrev alice : Passwd
alice = record { pw_name = bytes "alice"; pw_uid = 1000; pw_gid = 100 }

abbrev bob : Passwd
bob = record { pw_name = bytes "bob"; pw_uid = 1001; pw_gid = 101 }

abbrev wheel : Group
wheel = record { gr_gid = 10; gr_mem = bytes "bob" ∷ bytes "carol" ∷ [] }

abbrev db : UserDb
db = record { passwd = bob ∷ alice ∷ []; passwd_end = none; group = wheel ∷ []; group_end = none }

-- An entry of which a long buffer is needed.
slow : Str → ℕ → NameLookup
slow name n =
    if ltb n 4000 then erange else if str_eq name (bytes "alice") then found 1000 else absent

grows : (user_uid slow (bytes "alice") ≡ some 1000) × (group_gid slow (bytes "zed") ≡ none)
unfolding slow user_uid group_gid numeric_id strtol with_buffer str_eq
grows = (refl, refl)

db-IsConsistent : IsConsistent db
db-IsConsistent = record {
  passwd_ends = refl;
  group_ends = refl;
  small_uid = λ pw m. ground arith;
  small_gid = λ gr m. ground arith;
  one_uid = λ p q m k e. ground arith;
  one_name = λ p q m k e. ground arith;
  one_gid = λ g h m k e. ground arith;
}

abbrev fresh : UserCache
fresh = record { uid_cache = []; gid_cache = []; cache_rebuild_requested = true }

user_belongs_to_group_iff_example :
    (((user_belongs_to_group plain_stdlib db fresh 1001 10).0 ≡ true) ↔ Belongs db 1001 10)
    × ((later : UserDb) (u g : ℕ)
        → IsSmall u
        → IsSmall g
        → (((user_belongs_to_group plain_stdlib later
                (user_belongs_to_group plain_stdlib db fresh 1001 10).1
                u
                g).0
              ≡ true)
            ↔ Belongs db u g)
          × ((user_belongs_to_group plain_stdlib later
                (user_belongs_to_group plain_stdlib db fresh 1001 10).1
                u
                g).1
              ≡ (user_belongs_to_group plain_stdlib db fresh 1001 10).1))
user_belongs_to_group_iff_example =
    user_belongs_to_group_iff plain_stdlib plain_stdlib-laws db db-IsConsistent fresh 1001 10 refl
      (omega arith) (omega arith)
