-- ===== src/Options/Configure.antt =====
-- The parts of `main` of src/cachefs.c one after the other, between the start and fuse_main.
use cachefs.Prelude.{
  ℕ, ◌+◌, ◌*◌, ◌%◌, ◌^◌, true, not, ◌&&◌, Option, none, some, List, [], ◌∷◌, ◌++◌, ◌==◌,
  if◌then◌else◌, Str, bytes,
}
use cachefs.Usermap.Spec.{add_user_pair, add_group_pair, parse_user_map}
use cachefs.Block.{hex, snprintf_path}
use cachefs.Mount.{Settings}
use cachefs.Options.{
  Doubles, Config, OptionKey, Processed, exits, refused, taken, left, default_config,
}
use cachefs.Options.Process.{process_option}
use cachefs.Options.Mirror.{parse_mirrored_users}
use cachefs.Options.MapFile.{parse_map_file}
use cachefs.Options.Start.{
  OptionData, MainOs, Exit, exits_with, goes_on, ◌>>=◌, or_text, given, as_root, with_id,
  check_rate, with_maps, with_maps_reversed, parse_offset, parse_alignment, parse_deletion_policy,
  add_rules_to, with_mirrors,
}

module _ (d : Doubles) (os : MainOs) (user_uid group_gid : Str → Option ℕ) (od : OptionData) where
  -- --force-user and --force-group, or their old names.
  unfoldable pub parse_owner : Settings → Exit
  parse_owner s = do
    s1 ←
        given (or_text od.user od.deprecated_user)
          (λ name t. with_id (user_uid name) (λ id. record t { new_uid = id })) s
    given (or_text od.group od.deprecated_group)
        (λ name t. with_id (group_gid name) (λ id. record t { new_gid = id })) s1

  unfoldable pub parse_rates : Settings → Exit
  parse_rates s = do s1 ← given od.read_rate (check_rate d) s; given od.write_rate (check_rate d) s1

  -- The four files, then --map. The reverse of a file has the maps the other way round.
  unfoldable pub parse_maps : Settings → Exit
  parse_maps s = do
    s1 ←
        given od.map_passwd
          (λ file. as_root os.uid (λ t.
            with_maps
              (parse_map_file user_uid add_user_pair (os.read_lines file)
                (t.usermap, t.usermap_reverse))
              t))
          s
    s2 ←
        given od.map_passwd_rev
          (λ file. as_root os.uid (λ t.
            with_maps_reversed
              (parse_map_file user_uid add_user_pair (os.read_lines file)
                (t.usermap_reverse, t.usermap))
              t))
          s1
    s3 ←
        given od.map_group
          (λ file. as_root os.uid (λ t.
            with_maps
              (parse_map_file group_gid add_group_pair (os.read_lines file)
                (t.usermap, t.usermap_reverse))
              t))
          s2
    s4 ←
        given od.map_group_rev
          (λ file. as_root os.uid (λ t.
            with_maps_reversed
              (parse_map_file group_gid add_group_pair (os.read_lines file)
                (t.usermap_reverse, t.usermap))
              t))
          s3
    given od.map
        (λ spec. as_root os.uid (λ t.
          with_maps (parse_user_map user_uid group_gid spec (t.usermap, t.usermap_reverse)) t))
        s4

  -- An offset goes with the files, but not with --map.
  abbrev pub without_map : (Settings → Exit) → Settings → Exit
  without_map f s = elim od.map [ none ↦ f s | some spec ↦ exits_with 1 ]

  unfoldable pub parse_offsets : Settings → Exit
  parse_offsets s = do
    s1 ←
        given od.uid_offset
          (λ text. as_root os.uid (
            without_map (λ t. elim (parse_offset text) [
              | none ↦ exits_with 1
              | some n ↦ goes_on (record t { uid_offset = n })
            ])))
          s
    given od.gid_offset
        (λ text. as_root os.uid (
          without_map (λ t. elim (parse_offset text) [
            | none ↦ exits_with 1
            | some n ↦ goes_on (record t { gid_offset = n })
          ])))
        s1

  unfoldable pub parse_odirect : Settings → Exit
  parse_odirect s =
      given od.forward_odirect
        (λ text t. elim (parse_alignment text) [
          | none ↦ exits_with 1
          | some n ↦
              if n == 0
              then exits_with 1
              else goes_on (record t { forward_odirect = true; odirect_alignment = n })
        ])
        s

  unfoldable pub parse_create_for : Settings → Exit
  parse_create_for s = do
    s1 ←
        given od.create_for_user
          (λ name.
            as_root os.uid (λ t. with_id (user_uid name) (λ id. record t { create_for_uid = id })))
          s
    given od.create_for_group
        (λ name.
          as_root os.uid (λ t. with_id (group_gid name) (λ id. record t { create_for_gid = id })))
        s1

  -- --mirror-only stands for --mirror too, and the two exclude one another.
  unfoldable pub parse_mirror : Settings → Exit
  parse_mirror s = elim od.mirror_only [
    | none ↦
        given od.mirror (λ names t. with_mirrors t (parse_mirrored_users user_uid group_gid names))
          s
    | some names ↦ elim od.mirror [
      | some other ↦ exits_with 1
      | none ↦
          with_mirrors (record s { mirrored_users_only = true })
            (parse_mirrored_users user_uid group_gid names)
    ]
  ]

  unfoldable pub parse_permissions : Settings → Exit
  parse_permissions s = do
    s1 ←
        given od.perms (λ text t. add_rules_to t.permchain (λ pc. record t { permchain = pc }) text)
          s
    s2 ←
        given od.create_with_perms
          (λ text t.
            add_rules_to t.create_permchain (λ pc. record t { create_permchain = pc }) text)
          s1
    given od.chmod_filter
        (λ text t. add_rules_to t.chmod_permchain (λ pc. record t { chmod_permchain = pc }) text) s2

  unfoldable pub parse_deletion : Settings → Exit
  parse_deletion s =
      given od.resolved_symlink_deletion
        (λ text t. elim (parse_deletion_policy text) [
          | none ↦ exits_with 1
          | some policy ↦ goes_on (record t { resolved_symlink_deletion_policy = policy })
        ])
        s

  -- The hash of the source's path, byte by byte.
  unfoldable pub source_hash : ℕ → Str → ℕ
  source_hash hash [] = hash
  source_hash hash (c ∷ cs) = source_hash ((hash * 32 + hash + c) % 2 ^ 64) cs

  -- The cache directory, if none was given.
  unfoldable pub choose_cache_root : Str → Settings → Settings
  choose_cache_root mntsrc s = elim s.cache_root [
    | some root ↦ s
    | none ↦ elim os.home [
      | none ↦ s
      | some home ↦ elim (os.realpath mntsrc) [
        | none ↦ s
        | some abs_src ↦ record s {
          cache_root = some (
              snprintf_path
                (home ++ (bytes "/.cache/cachefs/" ++ hex 8 (source_hash 5381 abs_src % 2 ^ 32))));
        }
      ]
    ]
  ]

  -- The end: the source is opened, and locks are forwarded with several threads only.
  unfoldable pub prepare_mount : Str → Settings → Exit
  prepare_mount mntsrc s =
      if os.can_open mntsrc
      then (if s.enable_lock_forwarding && not od.multithreaded
          then exits_with 1
          else goes_on (choose_cache_root mntsrc s))
      else exits_with 1

  unfoldable pub configure : Str → Settings → Exit
  configure mntsrc s = do
    s1 ← parse_owner s
    s2 ← parse_rates s1
    s3 ← parse_maps s2
    s4 ← parse_offsets s3
    s5 ← parse_odirect s4
    s6 ← parse_create_for s5
    s7 ← parse_mirror s6
    s8 ← parse_permissions s7
    s9 ← parse_deletion s8
    prepare_mount mntsrc s9

  -- The calls of `process_option`, up to the first that is refused.
  unfoldable pub process_options : List (OptionKey × Str) → Config → Processed
  process_options [] c = left c
  process_options ((key, arg) ∷ more) c = elim (process_option d os.realpath os.uid c key arg) [
    | exits n ↦ exits n
    | refused ↦ refused
    | taken c' ↦ process_options more c'
    | left c' ↦ process_options more c'
  ]

  -- From the parsed options on: a source and a mount point are there.
  unfoldable pub start : Config → Exit
  start c = elim c.mntsrc [
    | none ↦ exits_with 1
    | some src ↦ elim c.mntdest [
      | none ↦ exits_with 1
      | some dest ↦ configure src (record c.settings { mntdest = dest })
    ]
  ]

  unfoldable pub with_options : Processed → Exit
  with_options (exits n) = exits_with n
  with_options refused = exits_with 1
  with_options (taken c) = start c
  with_options (left c) = start c

  unfoldable pub main : List (OptionKey × Str) → Exit
  main options = with_options (process_options options (default_config os.uid))
