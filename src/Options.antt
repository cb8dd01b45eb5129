-- ===== src/Options.antt =====
-- The options of src/cachefs.c: the settings that `main` starts with, and `process_option`. libfuse
-- takes the command line apart: it calls `process_option` for the keys and the arguments, and puts the
-- texts of the other options into `OptionData`. The functions of src/userinfo.c that look up names, the
-- numbers of type `double` and the system are parameters.
pub mod Process
pub mod Mirror
pub mod MapFile
pub mod Start
pub mod Configure
pub mod Leads
pub mod Plain
pub mod Root
pub mod Lines
pub mod Pairs
mod Tests
use cachefs.Prelude.{
  ℕ, ◌+◌, ◌-◌, ◌*◌, ◌%◌, ◌^◌, Bool, true, false, not, ◌&&◌, ◌||◌, Option, none, some, List, [], ◌∷◌,
  ◌==◌, ltb, if◌then◌else◌, Str, bytes, has_prefix,
}
use cachefs.Posix.Strtol.{strtol}
use cachefs.Permchain.{create_rule, permchain_create}
use cachefs.Usermap.{no_id, usermap_create}
use cachefs.Block.{default_block_size}
use cachefs.Mount.{
  ℤ, pos, negsuc, Settings, create_as_user, create_as_mounter, chown_normal, chown_ignore,
  chown_deny, chgrp_normal, chgrp_ignore, chgrp_deny, chmod_normal, chmod_ignore, chmod_deny,
  symlink_only, xattr_unimplemented, xattr_read_only, xattr_read_write,
}

pub data OptionKey : Type 0 where
  nonoption unknown help version fuse_version_key : OptionKey
  create_as_user_key create_as_mounter_key : OptionKey
  chown_normal_key chown_ignore_key chown_deny_key : OptionKey
  chgrp_normal_key chgrp_ignore_key chgrp_deny_key : OptionKey
  chmod_normal_key chmod_ignore_key chmod_deny_key chmod_allow_x_key : OptionKey
  xattr_none_key xattr_read_only_key xattr_read_write_key : OptionKey
  delete_deny_key rename_deny_key realistic_permissions_key ctime_from_mtime_key : OptionKey
  enable_lock_forwarding_key disable_lock_forwarding_key enable_ioctl_key : OptionKey
  hide_hard_links_key resolve_symlinks_key block_devices_as_files_key : OptionKey
  direct_io_key no_direct_io_key : OptionKey
  cache_root_key cache_meta_ttl_key cache_dir_ttl_key cache_block_size_key cache_max_size_key
        cache_debug_key :
      OptionKey

-- A `double`, what strtod makes of a text with the text at `endptr`, and what the code does with it.
pub record Doubles : Type 1 where
  pub Double : Type 0
  pub strtod : Str → Double × Str
  pub times : Double → ℕ → Double
  pub is_positive : Double → Bool
  pub is_negative : Double → Bool
  pub to_size : Double → ℕ

-- The settings, with the source and the mount point while they may be missing, and the debug flag.
pub record Config : Type 0 where
  pub settings : Settings
  pub mntsrc : Option Str
  pub mntdest : Option Str
  pub cache_debug : Bool

-- exit with a status, an error (-1), the argument taken (0), or left for libfuse (1).
pub data Processed : Type 0 where
  exits : ℕ → Processed
  refused : Processed
  taken left : Config → Processed

-- atoi, as a number of seconds: the `int` that the low 32 bits are, where one that is negative is 0,
-- since both end at once.
unfoldable pub seconds_of : Str → ℕ
seconds_of text =
    let (minus, n, rest) = strtol text in
    let long =
      if minus
      then 2 ^ 64 - (if ltb n (2 ^ 63) then n else 2 ^ 63)
      else if ltb n (2 ^ 63)
      then n
      else 2 ^ 63 - 1 in
    let int = long % 2 ^ 32 in if ltb int (2 ^ 31) then int else 0

-- atol, as a size_t.
unfoldable pub size_of_long : Str → ℕ
size_of_long text =
    let (minus, n, rest) = strtol text in
    if minus
    then (2 ^ 64 - (if ltb n (2 ^ 63) then n else 2 ^ 63)) % 2 ^ 64
    else if ltb n (2 ^ 63)
    then n
    else 2 ^ 63 - 1

-- strchr(arg, '=') + 1; libfuse gives such an argument only with a '='.
unfoldable pub after_equals : Str → Str
after_equals [] = []
after_equals (c ∷ cs) = let rest = after_equals cs in if c == b'=' then cs else rest

-- The factor of a suffix, by its first character.
unfoldable pub multiplier : Str → ℕ
multiplier [] = 1
multiplier (c ∷ cs) =
    if c == b'K' || c == b'k'
    then 1024
    else if c == b'M' || c == b'm'
    then 1024 * 1024
    else if c == b'G' || c == b'g'
    then 1024 * 1024 * 1024
    else if c == b'T' || c == b't'
    then 1024 * 1024 * 1024 * 1024
    else 1

unfoldable pub parse_size : Doubles → Str → ℕ
parse_size d str =
    let (value, rest) = d.strtod str in
    if d.is_negative value then 0 else d.to_size (d.times value (multiplier rest))

-- The settings before the options, for a process with the user id `uid`.
unfoldable pub default_settings : ℕ → Settings
default_settings uid = record {
  permchain = permchain_create;
  new_uid = no_id;
  new_gid = no_id;
  create_for_uid = no_id;
  create_for_gid = no_id;
  mntdest = [];
  usermap = usermap_create;
  usermap_reverse = usermap_create;
  create_policy = if uid == 0 then create_as_user else create_as_mounter;
  create_permchain = permchain_create;
  chown_policy = chown_normal;
  chgrp_policy = chgrp_normal;
  chmod_policy = chmod_normal;
  chmod_allow_x = false;
  chmod_permchain = permchain_create;
  xattr_policy = xattr_read_write;
  delete_deny = false;
  rename_deny = false;
  mirrored_users_only = false;
  mirrored_users = [];
  mirrored_members = [];
  hide_hard_links = false;
  resolve_symlinks = false;
  block_devices_as_files = false;
  resolved_symlink_deletion_policy = symlink_only;
  realistic_permissions = false;
  ctime_from_mtime = false;
  enable_lock_forwarding = false;
  enable_ioctl = false;
  forward_odirect = false;
  odirect_alignment = 0;
  direct_io = false;
  uid_offset = pos 0;
  gid_offset = pos 0;
  cache_root = none;
  cache_meta_ttl = 5;
  cache_dir_ttl = 10;
  cache_block_size = default_block_size;
  cache_max_size = 0;
}

abbrev pub default_config : ℕ → Config
default_config uid = record {
  settings = default_settings uid;
  mntsrc = none;
  mntdest = none;
  cache_debug = false;
}
