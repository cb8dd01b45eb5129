-- ===== src/Userinfo.antt =====
-- src/userinfo.c: names and numbers of users and groups, and the cache that tells whether a user
-- belongs to a group. An offset into the memory block of the cache is the text or the array that stands
-- there. `qsort` and `bsearch` of the C library and the two databases are parameters. The lock makes
-- one call of the rest; children prove the properties.
pub mod Order
pub mod Names
pub mod Cache
pub mod Members
pub mod Belongs
pub mod Sample
mod Tests
use cachefs.Prelude.{
  ℕ, zero, suc, ◌+◌, ◌-◌, ◌*◌, ◌%◌, ◌^◌, Bool, true, false, not, ◌&&◌, ◌||◌, Option, none, some,
  List, [], ◌∷◌, ◌==◌, leb, ltb, if◌then◌else◌, Str,
}
use cachefs.Posix.Strtol.{strtol}
use cachefs.Posix.{Sign, negative, zero as same, positive, Errno}

-- A `long` that is out of range is LONG_MAX or LONG_MIN; the assignment keeps 32 bits.
unfoldable pub id_of_long : Bool → ℕ → ℕ
id_of_long false n = (if ltb n (2 ^ 63) then n else 2 ^ 63 - 1) % 2 ^ 32
id_of_long true n = (2 ^ 32 - (if ltb n (2 ^ 63) then n else 2 ^ 63) % 2 ^ 32) % 2 ^ 32

-- The id, if the conversion takes the whole text.
unfoldable pub numeric_id : Str → Option ℕ
numeric_id text =
    let (minus, n, rest) = strtol text in
    elim rest [ [] ↦ some (id_of_long minus n) | c ∷ cs ↦ none ]

-- What getpwnam_r and getgrnam_r give with a buffer of some length: ERANGE, an entry's id, or no
-- entry.
pub data NameLookup : Type 0 where
  erange absent : NameLookup
  found : ℕ → NameLookup

abbrev pub looked_up : NameLookup → Option ℕ
looked_up erange = none
looked_up absent = none
looked_up (found id) = some id

-- The loop that doubles the buffer.
unfoldable pub with_buffer : ℕ → (ℕ → NameLookup) → ℕ → Option ℕ
with_buffer zero call buflen = none
with_buffer (suc fuel) call buflen = elim (call buflen) [
  | erange ↦ with_buffer fuel call (buflen * 2)
  | absent ↦ none
  | found id ↦ some id
]

-- From 1024 bytes, 54 lengths fit in a size_t.
unfoldable pub user_uid : (Str → ℕ → NameLookup) → Str → Option ℕ
user_uid getpwnam_r username = elim (numeric_id username) [
  | some uid ↦ some uid
  | none ↦ with_buffer 54 (getpwnam_r username) 1024
]

unfoldable pub group_gid : (Str → ℕ → NameLookup) → Str → Option ℕ
group_gid getgrnam_r groupname = elim (numeric_id groupname) [
  | some gid ↦ some gid
  | none ↦ with_buffer 54 (getgrnam_r groupname) 1024
]

-- What is read of `struct passwd` and `struct group`.
pub record Passwd : Type 0 where
  pub pw_name : Str
  pub pw_uid : ℕ
  pub pw_gid : ℕ

pub record Group : Type 0 where
  pub gr_gid : ℕ
  pub gr_mem : List Str

-- The entries that getpwent and getgrent give, each with the errno of the NULL after the last.
pub record UserDb : Type 0 where
  pub passwd : List Passwd
  pub passwd_end : Option Errno
  pub group : List Group
  pub group_end : Option Errno

pub record UidEntry : Type 0 where
  pub uid : ℕ
  pub main_gid : ℕ
  pub username : Str

pub record GidEntry : Type 0 where
  pub gid : ℕ
  pub uids : List ℕ

pub record UserCache : Type 0 where
  pub uid_cache : List UidEntry
  pub gid_cache : List GidEntry
  pub cache_rebuild_requested : Bool

-- qsort, and bsearch with the key put into the comparison.
pub record Stdlib : Type 1 where
  pub qsort : {A : Type 0} → (A → A → Sign) → List A → List A
  pub bsearch : {A : Type 0} → (A → Sign) → List A → Option A

-- The sign of the `int` that the difference of two `long`s is cut to.
unfoldable pub id_cmp : ℕ → ℕ → Sign
id_cmp a b =
    let difference = (a + 2 ^ 32 - b) % 2 ^ 32 in
    if difference == 0 then same else if ltb difference (2 ^ 31) then positive else negative

-- strcmp
unfoldable pub strcmp : Str → Str → Sign
strcmp [] [] = same
strcmp [] (y ∷ ys) = negative
strcmp (x ∷ xs) [] = positive
strcmp (x ∷ xs) (y ∷ ys) =
    let rest = strcmp xs ys in if ltb x y then negative else if ltb y x then positive else rest

abbrev pub uid_cache_name_sortcmp : UidEntry → UidEntry → Sign
uid_cache_name_sortcmp a b = strcmp a.username b.username

abbrev pub uid_cache_name_searchcmp : Str → UidEntry → Sign
uid_cache_name_searchcmp key entry = strcmp key entry.username

abbrev pub uid_cache_uid_sortcmp : UidEntry → UidEntry → Sign
uid_cache_uid_sortcmp a b = id_cmp a.uid b.uid

abbrev pub uid_cache_uid_searchcmp : ℕ → UidEntry → Sign
uid_cache_uid_searchcmp key entry = id_cmp key entry.uid

abbrev pub gid_cache_gid_sortcmp : GidEntry → GidEntry → Sign
gid_cache_gid_sortcmp a b = id_cmp a.gid b.gid

abbrev pub gid_cache_gid_searchcmp : ℕ → GidEntry → Sign
gid_cache_gid_searchcmp key entry = id_cmp key entry.gid

abbrev pub uid_entry : Passwd → UidEntry
uid_entry pw = record { uid = pw.pw_uid; main_gid = pw.pw_gid; username = pw.pw_name }

unfoldable pub uid_entries : List Passwd → List UidEntry
uid_entries [] = []
uid_entries (pw ∷ pws) = uid_entry pw ∷ uid_entries pws

-- The end of the database is reached with no error or with ENOENT.
abbrev pub ends_well : Option Errno → Bool
ends_well none = true
ends_well (some Errno.enoent) = true
ends_well (some e) = false

-- The new cache and the result; an error leaves the cache empty.
unfoldable pub rebuild_uid_cache : UserDb → List UidEntry × Bool
rebuild_uid_cache db =
    if ends_well db.passwd_end then (uid_entries db.passwd, true) else ([], false)

module _ (std : Stdlib) where
  -- The ids of the members that are known.
  unfoldable pub member_uids : List UidEntry → List Str → List ℕ
  member_uids uid_cache [] = []
  member_uids uid_cache (name ∷ names) =
      let rest = member_uids uid_cache names in
      elim (std.bsearch (uid_cache_name_searchcmp name) uid_cache) [
        | none ↦ rest
        | some uid_ent ↦ uid_ent.uid ∷ rest
      ]

  unfoldable pub gid_entries : List UidEntry → List Group → List GidEntry
  gid_entries uid_cache [] = []
  gid_entries uid_cache (gr ∷ grs) =
      (record { gid = gr.gr_gid; uids = member_uids uid_cache gr.gr_mem })
      ∷ gid_entries uid_cache grs

  -- The array of users, sorted by name, the new cache and the result.
  unfoldable pub rebuild_gid_cache : UserDb → List UidEntry → List UidEntry × List GidEntry × Bool
  rebuild_gid_cache db uid_cache =
      let by_name = std.qsort uid_cache_name_sortcmp uid_cache in
      if ends_well db.group_end
      then (by_name, gid_entries by_name db.group, true)
      else (by_name, [], false)

  -- The results of the two are not looked at.
  unfoldable pub rebuild_cache : UserDb → UserCache → UserCache
  rebuild_cache db c =
      let (by_name, gids, done) = rebuild_gid_cache db (rebuild_uid_cache db).0 in
      record c {
        uid_cache = std.qsort uid_cache_uid_sortcmp by_name;
        gid_cache = std.qsort gid_cache_gid_sortcmp gids;
      }

  unfoldable pub uid_cache_lookup : UserCache → ℕ → Option UidEntry
  uid_cache_lookup c key = std.bsearch (uid_cache_uid_searchcmp key) c.uid_cache

  unfoldable pub gid_cache_lookup : UserCache → ℕ → Option GidEntry
  gid_cache_lookup c key = std.bsearch (gid_cache_gid_searchcmp key) c.gid_cache

  -- The loop over the ids of a group.
  unfoldable pub has_uid : List ℕ → ℕ → Bool
  has_uid [] uid = false
  has_uid (u ∷ us) uid = u == uid || has_uid us uid

  unfoldable pub is_main_group : Option UidEntry → ℕ → Bool
  is_main_group none gid = false
  is_main_group (some uent) gid = uent.main_gid == gid

  unfoldable pub is_member : Option GidEntry → ℕ → Bool
  is_member none uid = false
  is_member (some gent) uid = has_uid gent.uids uid

  -- The cache, rebuilt if that was asked for.
  unfoldable pub current_cache : UserDb → UserCache → UserCache
  current_cache db c =
      if c.cache_rebuild_requested
      then rebuild_cache db (record c { cache_rebuild_requested = false })
      else c

  unfoldable pub user_belongs_to_group : UserDb → UserCache → ℕ → ℕ → Bool × UserCache
  user_belongs_to_group db c uid gid =
      let c' = current_cache db c in
      (is_main_group (uid_cache_lookup c' uid) gid || is_member (gid_cache_lookup c' gid) uid, c')

unfoldable pub invalidate_user_cache : UserCache → UserCache
invalidate_user_cache c = record c { cache_rebuild_requested = true }
