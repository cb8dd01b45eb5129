-- ===== src/Options/Tests.antt =====
-- The options of src/cachefs.c at concrete inputs.
use cachefs.Prelude.{
  All, sym, ℕ, ◌≡◌, refl, true, false, Option, none, some, List, [], ◌∷◌, arith, Str, bytes, str_eq,
  if◌then◌else◌, has_prefix,
}
use cachefs.Posix.Strtol.{strtol}
use cachefs.Posix.Strtok.{strtok}
use cachefs.Mount.{Settings}
use cachefs.Usermap.{usermap_create, find_or_default, usermap_add_uid, table_add}
use cachefs.Usermap.Lookup.{IsTable}
use cachefs.Usermap.Inverse.{AreInverse, IsMapPair}
use cachefs.Usermap.Slice.{NoMinusOne}
use cachefs.Usermap.Spec.{strdup_until, add_user_pair}
use cachefs.Options.Pairs.{parse_maps-IsMapPair}
use cachefs.Options.{Doubles, OptionKey, default_settings}
use cachefs.Options.Mirror.{
  mirrors, overrun, count_chars, count_substrs, num_mirrored_users, num_mirrored_members, has_more,
  add_mirrored, after_name, mirror_loop, parse_mirrored_users,
}
use cachefs.Options.MapFile.{
  pair, chomp, add_line, parse_lines, parse_map_file, parse_line, third_column,
}
use cachefs.Options.Start.{OptionData, MainOs, parse_offset, ◌>>=◌, given, as_root, with_id}
use cachefs.Options.Configure.{
  main, process_options, with_options, start, configure, parse_owner, parse_rates, parse_maps,
  parse_offsets, parse_odirect, parse_create_for, parse_mirror, parse_permissions, parse_deletion,
  choose_cache_root, prepare_mount,
}
use cachefs.Options.Process.{process_option, process_nonoption}
use cachefs.Options.Plain.{IsPlain}
use cachefs.Options.Root.{main-IsPlain}

-- Two users and a group.
abbrev uid_of : Str → Option ℕ
uid_of n =
    if str_eq n (bytes "a") then some 1000 else if str_eq n (bytes "b") then some 2000 else some 0

abbrev gid_of : Str → Option ℕ
gid_of n = if str_eq n (bytes "g") then some 100 else some 0

mirror_runs :
    parse_mirrored_users uid_of gid_of (bytes "a,@g:b")
    ≡ mirrors (record { users = 1000 ∷ 2000 ∷ []; members = 100 ∷ [] })
unfolding parse_mirrored_users num_mirrored_users num_mirrored_members count_chars count_substrs
    has_prefix mirror_loop has_more add_mirrored after_name strdup_until str_eq
mirror_runs = refl

-- The last ",@" is not counted: a group is written past the end of the array.
mirror_overruns : parse_mirrored_users uid_of gid_of (bytes "a,@") ≡ overrun
unfolding parse_mirrored_users num_mirrored_users num_mirrored_members count_chars count_substrs
    has_prefix mirror_loop has_more add_mirrored after_name strdup_until str_eq
mirror_overruns = refl

-- An empty second column is no column: the fourth one is taken for the id.
columns :
    (parse_line uid_of (bytes "a:x:1:b:") ≡ pair 0 1000)
    × (parse_line uid_of (bytes "a::1:b:") ≡ pair 2000 1000)
unfolding parse_line third_column strtok str_eq
columns = (refl, refl)

offsets : parse_offset (bytes "12x") ≡ none
unfolding parse_offset strtol
offsets = refl

-- No text is a number.
abbrev no_doubles : Doubles
no_doubles = record {
  Double = ℕ;
  strtod = λ text. (0, text);
  times = λ x n. x;
  is_positive = λ x. false;
  is_negative = λ x. false;
  to_size = λ x. x;
}

abbrev user_os : MainOs
user_os = record {
  uid = 1000;
  realpath = λ p. some p;
  read_lines = λ p. none;
  can_open = λ p. true;
  home = none;
}

abbrev od : OptionData
od = record {
  user = some (bytes "b");
  deprecated_user = none;
  group = none;
  deprecated_group = none;
  perms = none;
  mirror = none;
  mirror_only = none;
  map = none;
  map_passwd = none;
  map_group = none;
  map_passwd_rev = none;
  map_group_rev = none;
  read_rate = none;
  write_rate = none;
  create_for_user = none;
  create_for_group = none;
  create_with_perms = none;
  chmod_filter = none;
  resolved_symlink_deletion = none;
  multithreaded = false;
  forward_odirect = none;
  uid_offset = none;
  gid_offset = none;
}

-- cachefs --force-user=b --chmod-deny src mnt
abbrev command : List (OptionKey × Str)
command =
    (OptionKey.delete_deny_key, bytes "--delete-deny")
    ∷ (OptionKey.nonoption, bytes "src")
    ∷ (OptionKey.nonoption, bytes "mnt")
    ∷ []

abbrev forced : Settings
unfolding default_settings
forced = record (default_settings 1000) {
  new_uid = 2000;
  delete_deny = true;
  mntdest = bytes "mnt";
}

main-IsPlain_example : IsPlain forced
unfolding main process_options with_options start configure parse_owner parse_rates parse_maps
    parse_offsets parse_odirect parse_create_for parse_mirror parse_permissions parse_deletion
    choose_cache_root prepare_mount process_option process_nonoption ◌>>=◌ given with_id
    default_settings has_prefix str_eq
main-IsPlain_example =
    main-IsPlain no_doubles user_os uid_of gid_of od (λ e. absurd (ground arith)) command forced
      refl

-- --map-passwd with a file that has the user `b` under the number of `a`.
abbrev root_os : MainOs
root_os = record user_os { uid = 0; read_lines = λ p. some (bytes "a:x:b:0:" ∷ []) }

abbrev restored : OptionData
restored = record od { map_passwd = some (bytes "passwd") }

abbrev with_map : Settings
unfolding default_settings
with_map = record (default_settings 0) {
  usermap = record usermap_create { users = record { entries = (2000, 1000) ∷ []; capacity = 8 } };
  usermap_reverse = record usermap_create {
    users = record { entries = (1000, 2000) ∷ []; capacity = 8 };
  };
}

clean_users : (lines : List Str) → All (NoMinusOne uid_of) lines
clean_users [] = tt
clean_users (line ∷ lines) = ((λ n part e. absurd (ground arith)), clean_users lines)

clean_groups : (lines : List Str) → All (NoMinusOne gid_of) lines
clean_groups [] = tt
clean_groups (line ∷ lines) = ((λ n part e. absurd (ground arith)), clean_groups lines)

empty-IsTable : IsTable usermap_create.users
empty-IsTable = record { targets = tt; within = omega arith }

empty-AreInverse : AreInverse usermap_create.users usermap_create.users
unfolding find_or_default
empty-AreInverse = record {
  forth_table = empty-IsTable;
  back_table = empty-IsTable;
  undoes = λ u v nu nv. (λ e. absurd (nv (sym e)), λ e. absurd (nu (sym e)));
}

parse_maps-IsMapPair_example : IsMapPair (with_map.usermap, with_map.usermap_reverse)
unfolding parse_maps ◌>>=◌ given as_root default_settings str_eq parse_map_file parse_lines chomp
    parse_line third_column strtok add_line add_user_pair usermap_add_uid table_add find_or_default
parse_maps-IsMapPair_example =
    parse_maps-IsMapPair no_doubles root_os uid_of gid_of restored
      (λ file lines e. clean_users lines) (λ file lines e. clean_groups lines)
      (λ spec e. absurd (ground arith)) (default_settings 0) with_map
      (record { users = empty-AreInverse; groups = empty-AreInverse }) refl
