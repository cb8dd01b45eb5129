-- ===== src/Mount/Offset.antt =====
-- `apply_uid_offset` of src/cachefs.c and `unapply_uid_offset`.
use cachefs.Prelude.{ℕ, zero, suc, ◌≤◌, ◌<◌, ◌^◌, ◌≡◌, some, arith}
use cachefs.Mount.{ℤ, pos, negsuc, Settings}
use cachefs.Mount.Ids.{
  id_max, bounded_add, negate, apply_uid_offset, unapply_uid_offset, apply_gid_offset,
  unapply_gid_offset,
}

bounded_add-negate :
    (a r : ℕ) (b : ℤ) (m : ℕ)
    → m < 2 ^ 63
    → a ≤ m
    → bounded_add a b m ≡ some r
    → bounded_add r (negate b) m ≡ some a
unfolding bounded_add negate
bounded_add-negate a r (pos zero) m wide fits h = ground arith
bounded_add-negate a r (pos (suc b)) m wide fits h = ground arith
bounded_add-negate a r (negsuc b) m wide fits h = ground arith

bounded_add_le : (a r : ℕ) (b : ℤ) (m : ℕ) → bounded_add a b m ≡ some r → r ≤ m
unfolding bounded_add
bounded_add_le a r (pos b) m h = ground arith
bounded_add_le a r (negsuc b) m h = ground arith

-- For a user and a group of at most UID_T_MAX whose offsets can be applied, what is shown is at
-- most UID_T_MAX, and taking the offsets off again gives the user and the group back.
pub unapply-apply :
    (s : Settings) (uid gid u g : ℕ)
    → uid ≤ id_max
    → gid ≤ id_max
    → apply_uid_offset s uid ≡ some u
    → apply_gid_offset s gid ≡ some g
    → (u ≤ id_max)
      × (g ≤ id_max)
      × (unapply_uid_offset s u ≡ some uid)
      × (unapply_gid_offset s g ≡ some gid)
unfolding apply_uid_offset apply_gid_offset unapply_uid_offset unapply_gid_offset
unapply-apply s uid gid u g hu hg eu eg = (
  bounded_add_le uid u s.uid_offset id_max eu,
  bounded_add_le gid g s.gid_offset id_max eg,
  bounded_add-negate uid u s.uid_offset id_max (omega arith) hu eu,
  bounded_add-negate gid g s.gid_offset id_max (omega arith) hg eg,
)
