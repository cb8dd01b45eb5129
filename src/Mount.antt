-- ===== src/Mount.antt =====
-- src/cachefs.c: the file system's handlers. `Os` is what they call of the system, next to the block
-- cache's calls on the same world; a call that fails gives its errno and leaves the world as it was.
-- Children model the handlers and prove the properties.
pub mod Ids
pub mod Paths
pub mod Prefix
pub mod Attr
pub mod Files
pub mod Policy
pub mod Entries
pub mod Create
pub mod Forward
pub mod Readdir
pub mod Relist
pub mod Offset
pub mod Fresh
pub mod Cached
pub mod Reread
pub mod Expired
pub mod Chmod
pub mod Forget
pub mod RootListing
pub mod Owner
pub mod Renamed
pub mod Sample
mod Tests
use cachefs.Prelude.{ℕ, Bool, Option, List, Str}
use cachefs.Posix.{Stat, Errno}
use cachefs.Meta.{MetaCtx}
use cachefs.Block.{BlockCtx}
use cachefs.Permchain.{Rule}
use cachefs.Usermap.{UserMap}

-- What a handler returns: a value that is not negative, or minus an errno.
pub data Result (A : Type 0) : Type 0 where
  error : Errno → Result A
  done : A → Result A

-- `int64_t` offsets: `pos n` is n, `negsuc n` is -(n + 1).
pub data ℤ : Type 0 where
  pos negsuc : ℕ → ℤ

pub data CreatePolicy : Type 0 where
  create_as_user create_as_mounter : CreatePolicy

pub data ChownPolicy : Type 0 where
  chown_normal chown_ignore chown_deny : ChownPolicy

pub data ChgrpPolicy : Type 0 where
  chgrp_normal chgrp_ignore chgrp_deny : ChgrpPolicy

pub data ChmodPolicy : Type 0 where
  chmod_normal chmod_ignore chmod_deny : ChmodPolicy

pub data ResolvedSymlinkDeletion : Type 0 where
  deny symlink_only symlink_first target_first : ResolvedSymlinkDeletion

pub data XattrPolicy : Type 0 where
  xattr_unimplemented xattr_read_only xattr_read_write : XattrPolicy

-- `struct Settings`, the fields that the modelled handlers read.
pub record Settings : Type 0 where
  pub permchain : List Rule
  pub new_uid : ℕ
  pub new_gid : ℕ
  pub create_for_uid : ℕ
  pub create_for_gid : ℕ
  pub mntdest : Str
  pub usermap : UserMap
  pub usermap_reverse : UserMap
  pub create_policy : CreatePolicy
  pub create_permchain : List Rule
  pub chown_policy : ChownPolicy
  pub chgrp_policy : ChgrpPolicy
  pub chmod_policy : ChmodPolicy
  pub chmod_allow_x : Bool
  pub chmod_permchain : List Rule
  pub xattr_policy : XattrPolicy
  pub delete_deny : Bool
  pub rename_deny : Bool
  pub mirrored_users_only : Bool
  pub mirrored_users : List ℕ
  pub mirrored_members : List ℕ
  pub hide_hard_links : Bool
  pub resolve_symlinks : Bool
  pub block_devices_as_files : Bool
  pub resolved_symlink_deletion_policy : ResolvedSymlinkDeletion
  pub realistic_permissions : Bool
  pub ctime_from_mtime : Bool
  pub enable_lock_forwarding : Bool
  pub enable_ioctl : Bool
  pub forward_odirect : Bool
  pub odirect_alignment : ℕ
  pub direct_io : Bool
  pub uid_offset : ℤ
  pub gid_offset : ℤ
  pub cache_root : Option Str
  pub cache_meta_ttl : ℕ
  pub cache_dir_ttl : ℕ
  pub cache_block_size : ℕ
  pub cache_max_size : ℕ

-- `struct fuse_context`
pub record FuseContext : Type 0 where
  pub uid : ℕ
  pub gid : ℕ

-- `struct fuse_file_info`: the flags of `open` and the file descriptor.
pub record FuseFileInfo : Type 0 where
  pub flags : ℕ
  pub fh : ℕ

pub record Os (W : Type 0) : Type 0 where
  pub lstat : W → Str → Result Stat
  pub fstat : W → ℕ → Result Stat
  pub realpath : W → Str → Result Str
  pub open_file : W → Str → ℕ → Result (ℕ × W)
  pub read_at : W → ℕ → ℕ → ℕ → Result (List ℕ)
  pub write_at : W → ℕ → List ℕ → ℕ → Result (ℕ × W)
  pub unlink_file : W → Str → Result W
  pub rmdir : W → Str → Result W
  pub make_dir : W → Str → ℕ → Result W
  pub symlink : W → Str → Str → Result W
  -- rename, or renameat2 if there are flags
  pub rename : W → Str → Str → ℕ → Result W
  pub link : W → Str → Str → Result W
  pub mkfifo : W → Str → ℕ → Result W
  pub mknod : W → Str → ℕ → ℕ → Result W
  -- open with a mode for a new file
  pub create_file : W → Str → ℕ → ℕ → Result (ℕ × W)
  pub chmod : W → Str → ℕ → Result W
  pub chown : W → Str → ℕ → ℕ → Result W
  pub lchown : W → Str → ℕ → ℕ → Result W
  -- access with R_OK, W_OK and X_OK
  pub readable : W → Str → Bool
  pub writable : W → Str → Bool
  pub executable : W → Str → Bool
  -- open with O_RDONLY, BLKGETSIZE64 and close, as an off_t: `none` is a negative one
  pub device_size : W → Str → Result (Option ℕ)
  -- mmap of an anonymous buffer of the size
  pub can_map : W → ℕ → Bool
  -- `user_belongs_to_group` of src/userinfo.c
  pub user_belongs_to_group : ℕ → ℕ → Bool

-- The two contexts, the flag, the system, and the counters of getattr.
pub record State (W Db : Type 0) : Type 0 where
  pub cache_meta_ctx : Option (MetaCtx Db)
  pub cache_block_ctx : Option BlockCtx
  pub cache_initialized : Bool
  pub world : W
  pub getattr_hits : ℕ
  pub getattr_misses : ℕ
