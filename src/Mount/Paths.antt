-- ===== src/Mount/Paths.antt =====
-- `process_path` of src/cachefs.c with `path_starts_with` of src/misc.c, and the invalidation of the
-- parent directory that the handlers share. PATH_MAX is not a limit here.
use cachefs.Prelude.{
  ℕ, ◌+◌, ◌-◌, Bool, false, ◌&&◌, Option, none, some, [], ◌∷◌, length, drop, ◌==◌, if◌then◌else◌,
  Str, bytes, has_prefix, sub64,
}
use cachefs.Posix.{Errno}
use cachefs.Meta.{Sqlite, MetaCtx, cache_dir_invalidate}
use cachefs.Mount.{Result, error, done, Settings, Os}

-- Without the slashes at the end.
unfoldable pub strip_end : Str → Str
strip_end [] = []
strip_end (c ∷ cs) =
    let rest = strip_end cs in
    elim rest [ [] ↦ if c == b'/' then [] else c ∷ [] | d ∷ ds ↦ c ∷ d ∷ ds ]

-- Up to the last '/' and what follows it, where there is a '/'.
unfoldable pub split_last : Str → Option (Str × Str)
split_last [] = none
split_last (c ∷ cs) =
    let later = split_last cs in
    elim later [
      | some (front, rest) ↦ some (c ∷ front, rest)
      | none ↦ if c == b'/' then some ([], cs) else none
    ]

-- The place of the first '/'.
unfoldable pub find_slash : Str → Option ℕ
find_slash [] = none
find_slash (c ∷ cs) =
    let later = find_slash cs in
    if c == b'/' then some 0 else elim later [ none ↦ none | some n ↦ some (n + 1) ]

unfoldable pub last_part_len : Str → ℕ
last_part_len p = elim (split_last p) [ none ↦ length p | some (front, rest) ↦ length rest ]

unfoldable pub path_starts_with : Str → Str → Bool
path_starts_with path prefix_text =
    let start = strip_end prefix_text in
    if has_prefix start path
    then (let part_start = length start - last_part_len start in
        last_part_len start == elim (find_slash (drop part_start path)) [
          | none ↦ sub64 (length (strip_end path)) part_start
          | some n ↦ n
        ])
    else false

unfoldable pub skip_slashes : Str → Str
skip_slashes [] = []
skip_slashes (c ∷ cs) = let rest = skip_slashes cs in if c == b'/' then rest else c ∷ cs

-- "." for the mount's root.
unfoldable pub or_dot : Str → Str
or_dot [] = bytes "."
or_dot (c ∷ cs) = c ∷ cs

module _ {W : Type 0} (os : Os W) (s : Settings) where
  -- What follows `realpath`.
  unfoldable pub resolved : Str → Result Str → Result Str
  resolved path (error Errno.enoent) = done path
  resolved path (error e) = error e
  resolved path (done result) =
      if path_starts_with result s.mntdest then error Errno.eperm else done result

  unfoldable pub process_path : W → Str → Bool → Result Str
  process_path w path resolve_symlinks =
      let relative = or_dot (skip_slashes path) in
      if resolve_symlinks && s.resolve_symlinks
      then resolved relative (os.realpath w relative)
      else done relative

-- The directory before the last slash is dropped from the cache of listings, unless that slash is
-- the first character.
unfoldable pub invalidate_parent :
    {Db : Type 0} → Sqlite Db → MetaCtx Db → Str → Option (MetaCtx Db)
invalidate_parent sql c real_path = elim (split_last real_path) [
  | none ↦ some c
  | some ([], rest) ↦ some c
  | some (d ∷ ds, rest) ↦ (cache_dir_invalidate sql (some c) (some (d ∷ ds))).1
]
