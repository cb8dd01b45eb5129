-- ===== src/Options/Process.antt =====
-- `process_option` of src/cachefs.c.
use cachefs.Prelude.{
  ℕ, true, false, Option, none, some, ◌==◌, if◌then◌else◌, Str, bytes, has_prefix,
}
use cachefs.Mount.{
  Settings, create_as_user, create_as_mounter, chown_normal, chown_ignore, chown_deny, chgrp_normal,
  chgrp_ignore, chgrp_deny, chmod_normal, chmod_ignore, chmod_deny, xattr_unimplemented,
  xattr_read_only, xattr_read_write,
}
use cachefs.Options.{
  Doubles, Config, Processed, exits, refused, taken, left, seconds_of, size_of_long, after_equals,
  parse_size, OptionKey, nonoption, unknown, help, version, fuse_version_key, create_as_user_key,
  create_as_mounter_key, chown_normal_key, chown_ignore_key, chown_deny_key, chgrp_normal_key,
  chgrp_ignore_key, chgrp_deny_key, chmod_normal_key, chmod_ignore_key, chmod_deny_key,
  chmod_allow_x_key, xattr_none_key, xattr_read_only_key, xattr_read_write_key, delete_deny_key,
  rename_deny_key, realistic_permissions_key, ctime_from_mtime_key, enable_lock_forwarding_key,
  disable_lock_forwarding_key, enable_ioctl_key, hide_hard_links_key, resolve_symlinks_key,
  block_devices_as_files_key, direct_io_key, no_direct_io_key, cache_root_key, cache_meta_ttl_key,
  cache_dir_ttl_key, cache_block_size_key, cache_max_size_key, cache_debug_key,
}

abbrev with_settings : Config → Settings → Processed
with_settings c s = taken (record c { settings = s })

-- The first argument is the source, the second the mount point; realpath may fail.
unfoldable pub process_nonoption :
    (Str → Option Str) → Config → Option Str → Option Str → Str → Processed
process_nonoption realpath c none dest arg =
    if has_prefix (bytes "/proc/") arg
    then taken (record c { mntsrc = some arg })
    else elim (realpath arg) [ none ↦ refused | some src ↦ taken (record c { mntsrc = some src }) ]
process_nonoption realpath c (some src) none arg = elim (realpath arg) [
  | none ↦ refused
  | some dest ↦ left (record c { mntdest = some dest })
]
process_nonoption realpath c (some src) (some dest) arg = refused

module _ (d : Doubles) (realpath : Str → Option Str) (uid : ℕ) where
  unfoldable pub process_option : Config → OptionKey → Str → Processed
  process_option c nonoption arg = process_nonoption realpath c c.mntsrc c.mntdest arg
  process_option c unknown arg = left c
  process_option c help arg = exits 0
  process_option c version arg = exits 0
  process_option c fuse_version_key arg = exits 0
  process_option c create_as_user_key arg =
      if uid == 0
      then with_settings c (record c.settings { create_policy = create_as_user })
      else refused
  process_option c create_as_mounter_key arg =
      with_settings c (record c.settings { create_policy = create_as_mounter })
  process_option c chown_normal_key arg =
      with_settings c (record c.settings { chown_policy = chown_normal })
  process_option c chown_ignore_key arg =
      with_settings c (record c.settings { chown_policy = chown_ignore })
  process_option c chown_deny_key arg =
      with_settings c (record c.settings { chown_policy = chown_deny })
  process_option c chgrp_normal_key arg =
      with_settings c (record c.settings { chgrp_policy = chgrp_normal })
  process_option c chgrp_ignore_key arg =
      with_settings c (record c.settings { chgrp_policy = chgrp_ignore })
  process_option c chgrp_deny_key arg =
      with_settings c (record c.settings { chgrp_policy = chgrp_deny })
  process_option c chmod_normal_key arg =
      with_settings c (record c.settings { chmod_policy = chmod_normal })
  process_option c chmod_ignore_key arg =
      with_settings c (record c.settings { chmod_policy = chmod_ignore })
  process_option c chmod_deny_key arg =
      with_settings c (record c.settings { chmod_policy = chmod_deny })
  process_option c chmod_allow_x_key arg =
      with_settings c (record c.settings { chmod_allow_x = true })
  process_option c xattr_none_key arg =
      with_settings c (record c.settings { xattr_policy = xattr_unimplemented })
  process_option c xattr_read_only_key arg =
      with_settings c (record c.settings { xattr_policy = xattr_read_only })
  process_option c xattr_read_write_key arg =
      with_settings c (record c.settings { xattr_policy = xattr_read_write })
  process_option c delete_deny_key arg = with_settings c (record c.settings { delete_deny = true })
  process_option c rename_deny_key arg = with_settings c (record c.settings { rename_deny = true })
  process_option c realistic_permissions_key arg =
      with_settings c (record c.settings { realistic_permissions = true })
  process_option c ctime_from_mtime_key arg =
      with_settings c (record c.settings { ctime_from_mtime = true })
  process_option c enable_lock_forwarding_key arg =
      with_settings c (record c.settings { enable_lock_forwarding = true })
  process_option c disable_lock_forwarding_key arg =
      with_settings c (record c.settings { enable_lock_forwarding = false })
  process_option c enable_ioctl_key arg =
      with_settings c (record c.settings { enable_ioctl = true })
  process_option c hide_hard_links_key arg =
      with_settings c (record c.settings { hide_hard_links = true })
  process_option c resolve_symlinks_key arg =
      with_settings c (record c.settings { resolve_symlinks = true })
  process_option c block_devices_as_files_key arg =
      with_settings c (record c.settings { block_devices_as_files = true })
  process_option c direct_io_key arg = with_settings c (record c.settings { direct_io = true })
  process_option c no_direct_io_key arg = with_settings c (record c.settings { direct_io = false })
  process_option c cache_root_key arg =
      with_settings c (record c.settings { cache_root = some (after_equals arg) })
  process_option c cache_meta_ttl_key arg =
      with_settings c (record c.settings { cache_meta_ttl = seconds_of (after_equals arg) })
  process_option c cache_dir_ttl_key arg =
      with_settings c (record c.settings { cache_dir_ttl = seconds_of (after_equals arg) })
  process_option c cache_block_size_key arg =
      with_settings c (record c.settings { cache_block_size = size_of_long (after_equals arg) })
  process_option c cache_max_size_key arg =
      with_settings c (record c.settings { cache_max_size = parse_size d (after_equals arg) })
  process_option c cache_debug_key arg = taken (record c { cache_debug = true })
