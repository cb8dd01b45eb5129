-- ===== src/Usermap.antt =====
-- src/usermap.h and src/usermap.c: the table of mapped users and groups. Each pair of arrays
-- `*_from`, `*_to` of `*_size` entries is a list of pairs; the users' and the groups' functions are
-- the same code on the two tables. -1 is `no_id`, as a 32-bit id.
pub mod Lookup
pub mod Spec
pub mod Slice
pub mod Inverse
pub mod Fuel
mod Tests
use cachefs.Prelude.{ℕ, ◌+◌, ◌-◌, ◌*◌, ◌^◌, Bool, List, [], ◌∷◌, ◌++◌, length, ◌==◌, if◌then◌else◌}

pub data UsermapStatus : Type 0 where
  usermap_ok duplicate_key : UsermapStatus

pub record IdTable : Type 0 where
  pub entries : List (ℕ × ℕ)
  pub capacity : ℕ

pub record UserMap : Type 0 where
  pub users : IdTable
  pub groups : IdTable

abbrev pub no_id : ℕ
no_id = 2 ^ 32 - 1

abbrev empty_table : IdTable
empty_table = record { entries = []; capacity = 0 }

abbrev pub usermap_create : UserMap
usermap_create = record { users = empty_table; groups = empty_table }

-- The first entry whose `from` is the id.
unfoldable pub find_or_default : List (ℕ × ℕ) → ℕ → ℕ → ℕ
find_or_default [] u deflt = deflt
find_or_default ((from, to) ∷ es) u deflt = if from == u then to else find_or_default es u deflt

-- The arrays are doubled when they are full, before the test for a duplicate.
pub grow : IdTable → IdTable
grow t =
    if length t.entries == t.capacity
    then record t { capacity = if t.capacity == 0 then 8 else t.capacity * 2 }
    else t

unfoldable pub table_add : IdTable → ℕ → ℕ → UsermapStatus × IdTable
unfolding grow
table_add t from to =
    if from == to
    then (usermap_ok, t)
    else if find_or_default t.entries from no_id == no_id
    then (usermap_ok, record (grow t) { entries = t.entries ++ (from, to) ∷ [] })
    else (duplicate_key, grow t)

unfoldable pub usermap_add_uid : UserMap → ℕ → ℕ → UsermapStatus × UserMap
usermap_add_uid map from to =
    let (status, users) = table_add map.users from to in (status, record map { users = users })

unfoldable pub usermap_add_gid : UserMap → ℕ → ℕ → UsermapStatus × UserMap
usermap_add_gid map from to =
    let (status, groups) = table_add map.groups from to in (status, record map { groups = groups })

abbrev pub usermap_get_uid_or_default : UserMap → ℕ → ℕ → ℕ
usermap_get_uid_or_default map u deflt = find_or_default map.users.entries u deflt

abbrev pub usermap_get_gid_or_default : UserMap → ℕ → ℕ → ℕ
usermap_get_gid_or_default map g deflt = find_or_default map.groups.entries g deflt
