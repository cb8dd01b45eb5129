-- ===== src/Mount/Sample.antt =====
-- A system in memory below the mount: one regular file `x` of eight bytes, and the block files of
-- the file system in memory of Block/Sample.
use cachefs.Prelude.{
  ℕ, true, false, none, some, List, [], ◌∷◌, bytes, str_eq, take, drop, length, if◌then◌else◌,
}
use cachefs.Posix.{Stat, Errno}
use cachefs.Usermap.{no_id, usermap_create}
use cachefs.Permchain.{create_rule}
use cachefs.Block.Sample.{Disk}
use cachefs.Meta.{MetaCtx, stored_entry}
use cachefs.Meta.Sample.{MemoryDb, empty_db}
use cachefs.Mount.{
  error, done, pos, Settings, FuseContext, FuseFileInfo, Os, create_as_mounter, chown_normal,
  xattr_read_write, chgrp_normal, chmod_deny, deny,
}

abbrev pub x_stat : Stat
x_stat = record {
  mode = 0o100644;
  nlink = 2;
  size = 8;
  mtime = 700;
  ctime = 701;
  uid = 1000;
  gid = 100;
  ino = 42;
  dev = 2049;
  rdev = 0;
  blksize = 4096;
  blocks = 8;
  atime = 650;
  atime_nsec = 11;
  mtime_nsec = 12;
  ctime_nsec = 13;
}

abbrev pub x_data : List ℕ
x_data = 1 ∷ 2 ∷ 3 ∷ 4 ∷ 5 ∷ 6 ∷ 7 ∷ 8 ∷ []

abbrev pub fc : FuseContext
fc = record { uid = 1000; gid = 100 }

abbrev pub fi : FuseFileInfo
fi = record { flags = 2; fh = 0 }

-- No call changes the block files; a file that is opened gets the descriptor 3.
abbrev pub memory_os : Os Disk
memory_os = record {
  lstat = λ d p. if str_eq p (bytes "x") then done x_stat else error Errno.enoent;
  fstat = λ d fd. done x_stat;
  realpath = λ d p. done p;
  open_file = λ d p flags. done (3, d);
  read_at = λ d fd size offset. done (take size (drop offset x_data));
  write_at = λ d fd buf offset. done (length buf, d);
  unlink_file = λ d p. done d;
  rmdir = λ d p. done d;
  make_dir = λ d p mode. done d;
  symlink = λ d from to. done d;
  rename = λ d from to flags. done d;
  link = λ d from to. done d;
  mkfifo = λ d p mode. done d;
  mknod = λ d p mode rdev. done d;
  create_file = λ d p flags mode. done (3, d);
  chmod = λ d p mode. done d;
  chown = λ d p owner group. done d;
  lchown = λ d p owner group. done d;
  readable = λ d p. true;
  writable = λ d p. true;
  executable = λ d p. true;
  device_size = λ d p. done (some 0);
  can_map = λ d size. true;
  user_belongs_to_group = λ uid gid. false;
}

-- --uid-offset=100000, --chmod-deny and --chmod-allow-x, with blocks of 4 bytes.
abbrev pub options : Settings
options = record {
  permchain = create_rule ∷ [];
  new_uid = no_id;
  new_gid = no_id;
  create_for_uid = no_id;
  create_for_gid = no_id;
  mntdest = bytes "/mnt";
  usermap = usermap_create;
  usermap_reverse = usermap_create;
  create_policy = create_as_mounter;
  create_permchain = create_rule ∷ [];
  chown_policy = chown_normal;
  chgrp_policy = chgrp_normal;
  chmod_policy = chmod_deny;
  chmod_allow_x = true;
  chmod_permchain = create_rule ∷ [];
  xattr_policy = xattr_read_write;
  delete_deny = false;
  rename_deny = false;
  mirrored_users_only = false;
  mirrored_users = [];
  mirrored_members = [];
  hide_hard_links = false;
  resolve_symlinks = false;
  block_devices_as_files = false;
  resolved_symlink_deletion_policy = deny;
  realistic_permissions = false;
  ctime_from_mtime = false;
  enable_lock_forwarding = false;
  enable_ioctl = false;
  forward_odirect = false;
  odirect_alignment = 0;
  direct_io = false;
  uid_offset = pos 100000;
  gid_offset = pos 0;
  cache_root = some (bytes "/c");
  cache_meta_ttl = 5;
  cache_dir_ttl = 10;
  cache_block_size = 4;
  cache_max_size = 0;
}

abbrev pub disk : Disk
disk = record { file = λ p. none; names = λ d. none; atime = λ p. 0 }

abbrev pub meta : MetaCtx MemoryDb
meta = record { db = empty_db; cache_root = bytes "/c"; meta_ttl = 5; dir_ttl = 10 }

-- The context with an entry of `/x` that was stored at time 100.
abbrev pub meta_x : MetaCtx MemoryDb
meta_x = record meta {
  db = record {
    tables = record {
      metas = λ p. if str_eq (bytes "/x") p then some (stored_entry 100 5 x_stat) else none;
      dirs = λ d. [];
    };
    backup = none;
  };
}
