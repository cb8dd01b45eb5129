-- ===== src/Usermap/Spec.antt =====
-- `parse_user_map` of src/cachefs.c, with `strdup_until` of src/misc.c: the --map option, a list of
-- user1/user2 and @group1/@group2. What a name stands for is looked up in src/userinfo.c, which is a
-- parameter here; `true` is the 1 that is returned on success.
use mathlib.Core.Option
use cachefs.Prelude.{
  ℕ, zero, suc, Bool, true, false, ◌&&◌, ◌||◌, Option, none, some, [], ◌∷◌, length, ◌==◌,
  if◌then◌else◌, Str,
}
use cachefs.Usermap.{usermap_ok, duplicate_key, UserMap, usermap_add_uid, usermap_add_gid}

-- `strdup_until` with ",:", and the text from the delimiter on.
unfoldable pub strdup_until : Str → Str × Str
strdup_until [] = ([], [])
strdup_until (c ∷ cs) =
    let (front, rest) = strdup_until cs in
    if c == b',' || c == b':' then ([], c ∷ cs) else (c ∷ front, rest)

-- Up to the first '/', and what follows it.
unfoldable pub split_slash : Str → Option (Str × Str)
split_slash [] = none
split_slash (c ∷ cs) =
    let later = split_slash cs in
    if c == b'/'
    then some ([], cs)
    else elim later [ none ↦ none | some (front, rest) ↦ some (c ∷ front, rest) ]

-- Up to the first "/@", and what follows it.
unfoldable pub split_slash_at : Str → Option (Str × Str)
split_slash_at [] = none
split_slash_at (c ∷ []) = none
split_slash_at (c ∷ d ∷ cs) =
    let later = split_slash_at (d ∷ cs) in
    if c == b'/' && d == b'@'
    then some ([], cs)
    else elim later [ none ↦ none | some (front, rest) ↦ some (c ∷ front, rest) ]

-- The past of the delimiter at which `strdup_until` stopped.
abbrev pub past_delimiter : Str → Str
past_delimiter [] = []
past_delimiter (c ∷ cs) = cs

abbrev pub Maps : Type 0
Maps = UserMap × UserMap

-- The pair goes into the map, and turned round into the reverse map.
unfoldable pub add_user_pair : ℕ → ℕ → Maps → Bool × Maps
add_user_pair from to (map, reverse_map) =
    let (status, map') = usermap_add_uid map from to in
    elim status [
      | duplicate_key ↦ (false, (map', reverse_map))
      | usermap_ok ↦
          let (status', reverse_map') = usermap_add_uid reverse_map to from in
          elim status' [
            | duplicate_key ↦ (false, (map', reverse_map'))
            | usermap_ok ↦ (true, (map', reverse_map'))
          ]
    ]

unfoldable pub add_group_pair : ℕ → ℕ → Maps → Bool × Maps
add_group_pair from to (map, reverse_map) =
    let (status, map') = usermap_add_gid map from to in
    elim status [
      | duplicate_key ↦ (false, (map', reverse_map))
      | usermap_ok ↦
          let (status', reverse_map') = usermap_add_gid reverse_map to from in
          elim status' [
            | duplicate_key ↦ (false, (map', reverse_map'))
            | usermap_ok ↦ (true, (map', reverse_map'))
          ]
    ]

-- Two names that are looked up one after the other.
unfoldable pub both_ids : (Str → Option ℕ) → Option (Str × Str) → Option (ℕ × ℕ)
both_ids lookup none = none
both_ids lookup (some (q, r)) = elim (lookup q) [
  | none ↦ none
  | some from ↦ elim (lookup r) [ none ↦ none | some to ↦ some (from, to) ]
]

-- What is done with the two ids, if there are two.
unfoldable pub add_ids : (ℕ → ℕ → Maps → Bool × Maps) → Option (ℕ × ℕ) → Maps → Bool × Maps
add_ids add none maps = (false, maps)
add_ids add (some (from, to)) maps = add from to maps

module _ (user_uid group_gid : Str → Option ℕ) where
  -- One element of the list.
  unfoldable pub add_element : Str → Maps → Bool × Maps
  add_element [] maps = add_ids add_user_pair (both_ids user_uid (split_slash [])) maps
  add_element (c ∷ cs) maps =
      if c == b'@'
      then add_ids add_group_pair (both_ids group_gid (split_slash_at cs)) maps
      else add_ids add_user_pair (both_ids user_uid (split_slash (c ∷ cs))) maps

  -- The loop, with fuel; it ends at the end of the text. Without fuel it is `none`.
  unfoldable pub parse_elements : ℕ → Str → Maps → Option (Bool × Maps)
  parse_elements zero text maps = none
  parse_elements (suc fuel) [] maps = some (true, maps)
  parse_elements (suc fuel) (c ∷ cs) maps =
      let (front, rest) = strdup_until (c ∷ cs) in
      let (added, maps') = add_element front maps in
      elim added [
        | false ↦ some (false, maps')
        | true ↦ parse_elements fuel (past_delimiter rest) maps'
      ]

  -- Each round takes at least one character.
  unfoldable pub parse_user_map : Str → Maps → Bool × Maps
  parse_user_map spec maps =
      Option.get_or (parse_elements (suc (length spec)) spec maps) (false, maps)
