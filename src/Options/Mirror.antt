-- ===== src/Options/Mirror.antt =====
-- `count_chars` and `count_substrs` of src/misc.c and `parse_mirrored_users` of src/cachefs.c: the
-- users and groups of --mirror and --mirror-only.
use cachefs.Prelude.{
  ℕ, zero, suc, ◌+◌, ◌-◌, Bool, ◌||◌, Option, none, some, List, [], ◌∷◌, ◌++◌, ◌==◌, ltb,
  if◌then◌else◌, Str, bytes, length, has_prefix,
}
use cachefs.Usermap.Spec.{strdup_until, past_delimiter}

unfoldable pub count_chars : Str → ℕ → ℕ
count_chars [] ch = 0
count_chars (c ∷ cs) ch = let rest = count_chars cs ch in if c == ch then suc rest else rest

-- The loop ends when no more than `sublen` characters are left.
unfoldable pub count_substrs : Str → Str → ℕ
count_substrs [] sub = 0
count_substrs (c ∷ cs) sub =
    let rest = count_substrs cs sub in
    if ltb (length sub) (length (c ∷ cs))
    then if has_prefix sub (c ∷ cs) then suc rest else rest
    else 0

-- The numbers of groups and of users that the arrays are allocated for.
unfoldable pub num_mirrored_members : Str → ℕ
num_mirrored_members mirror =
    (if has_prefix (bytes "@") mirror then 1 else 0)
    + count_substrs mirror (bytes ",@")
    + count_substrs mirror (bytes ":@")

unfoldable pub num_mirrored_users : Str → ℕ
num_mirrored_users mirror =
    count_chars mirror b',' + count_chars mirror b':' + 1 - num_mirrored_members mirror

-- What is read so far. A write past the end of an array is outside of the model: it is `overrun`.
pub record Mirrored : Type 0 where
  pub users : List ℕ
  pub members : List ℕ

pub data MirrorResult : Type 0 where
  invalid overrun asserts unfinished : MirrorResult
  mirrors : Mirrored → MirrorResult

-- The rounds of the loop: whether the next one is made.
unfoldable pub has_more : ℕ → ℕ → Mirrored → Bool
has_more num_users num_members m =
    ltb (length m.users) num_users || ltb (length m.members) num_members

-- One name is added, in the place after the others of its kind.
unfoldable pub add_mirrored :
    (Str → Option ℕ) → (Str → Option ℕ) → ℕ → ℕ → Mirrored → Str → MirrorResult
add_mirrored user_uid group_gid num_users num_members m [] = elim (user_uid []) [
  | none ↦ invalid
  | some uid ↦
      if ltb (length m.users) num_users
      then mirrors (record m { users = m.users ++ uid ∷ [] })
      else overrun
]
add_mirrored user_uid group_gid num_users num_members m (c ∷ cs) =
    if c == b'@'
    then elim (group_gid cs) [
      | none ↦ invalid
      | some gid ↦
          if ltb (length m.members) num_members
          then mirrors (record m { members = m.members ++ gid ∷ [] })
          else overrun
    ]
    else elim (user_uid (c ∷ cs)) [
      | none ↦ invalid
      | some uid ↦
          if ltb (length m.users) num_users
          then mirrors (record m { users = m.users ++ uid ∷ [] })
          else overrun
    ]

module _ (user_uid group_gid : Str → Option ℕ) (num_users num_members : ℕ) where
  -- What follows a name: at the end of the text the counters are asserted to match.
  unfoldable pub after_name : Str → (Mirrored → MirrorResult) → MirrorResult → MirrorResult
  after_name [] more (mirrors m) = if has_more num_users num_members m then asserts else mirrors m
  after_name (c ∷ cs) more (mirrors m) = more m
  after_name rest more other = other

  -- The loop, with fuel.
  unfoldable pub mirror_loop : ℕ → Mirrored → Str → MirrorResult
  mirror_loop zero m p = unfinished
  mirror_loop (suc fuel) m p =
      let (front, rest) = strdup_until p in
      let next =
        after_name rest (λ m'. mirror_loop fuel m' (past_delimiter rest))
          (add_mirrored user_uid group_gid num_users num_members m front) in
      if has_more num_users num_members m then next else mirrors m

-- Each round adds one name.
unfoldable pub parse_mirrored_users : (Str → Option ℕ) → (Str → Option ℕ) → Str → MirrorResult
parse_mirrored_users user_uid group_gid mirror =
    let num_users = num_mirrored_users mirror in
    let num_members = num_mirrored_members mirror in
    mirror_loop user_uid group_gid num_users num_members (suc (num_users + num_members))
      (record { users = []; members = [] }) mirror
