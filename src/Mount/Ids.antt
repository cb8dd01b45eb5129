-- ===== src/Mount/Ids.antt =====
-- The offsets of user and group ids in src/cachefs.c. `uid_t` and `gid_t` are 32 bits, and an id is
-- never negative as an `int64_t`; an offset is not INT64_MIN.
use cachefs.Prelude.{ℕ, ◌+◌, ◌-◌, ◌^◌, suc, zero, ◌&&◌, Option, none, some, ltb, leb, if◌then◌else◌}
use cachefs.Mount.{ℤ, pos, negsuc, Settings}

-- UID_T_MAX and GID_T_MAX
abbrev pub id_max : ℕ
id_max = 2 ^ 31 - 1

unfoldable pub bounded_add : ℕ → ℤ → ℕ → Option ℕ
bounded_add a (pos b) max = if ltb (a + b) (2 ^ 63) && leb (a + b) max then some (a + b) else none
bounded_add a (negsuc b) max =
    if leb (suc b) a && leb (a - suc b) max then some (a - suc b) else none

unfoldable pub negate : ℤ → ℤ
negate (pos zero) = pos zero
negate (pos (suc n)) = negsuc n
negate (negsuc n) = pos (suc n)

module _ (s : Settings) where
  unfoldable pub apply_uid_offset : ℕ → Option ℕ
  apply_uid_offset uid = bounded_add uid s.uid_offset id_max

  unfoldable pub apply_gid_offset : ℕ → Option ℕ
  apply_gid_offset gid = bounded_add gid s.gid_offset id_max

  unfoldable pub unapply_uid_offset : ℕ → Option ℕ
  unapply_uid_offset uid = bounded_add uid (negate s.uid_offset) id_max

  unfoldable pub unapply_gid_offset : ℕ → Option ℕ
  unapply_gid_offset gid = bounded_add gid (negate s.gid_offset) id_max
