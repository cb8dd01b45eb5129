-- ===== src/Mount/Forward.antt =====
-- The handlers of src/cachefs.c that forward one call on a path or on a descriptor, on Linux. They do
-- not touch the caches, so that they take the world and give it back.
use cachefs.Prelude.{ℕ, ◌-◌, Bool, true, false, List, if◌then◌else◌, Str}
use cachefs.Posix.{Stat, Errno}
use cachefs.Mount.{
  Result, error, done, Settings, FuseContext, FuseFileInfo, Os, XattrPolicy, xattr_unimplemented,
  xattr_read_only, xattr_read_write,
}
use cachefs.Mount.Paths.{process_path}
use cachefs.Mount.Attr.{getattr_common}

-- What these handlers call of the system, next to `Os`. A `Lock` is a struct flock, a `Vfs` a struct
-- statvfs; an ioctl reads and writes an area that is a list of bytes.
pub record FdOs (W Lock Vfs : Type 0) : Type 0 where
  pub truncate : W → Str → ℕ → Result W
  pub ftruncate : W → ℕ → ℕ → Result W
  -- utimensat with AT_SYMLINK_NOFOLLOW: access and modification times in nanoseconds
  pub utimensat : W → Str → ℕ × ℕ → Result W
  pub readlink : W → Str → ℕ → Result Str
  pub fcntl : W → ℕ → ℕ → Lock → Result (Lock × W)
  pub flock : W → ℕ → ℕ → Result W
  pub ioctl : W → ℕ → ℕ → List ℕ → Result (ℕ × List ℕ × W)
  pub statvfs : W → Str → Result Vfs
  pub close : W → ℕ → W
  pub fsync : W → ℕ → Result W
  pub fdatasync : W → ℕ → Result W
  pub lsetxattr : W → Str → Str → List ℕ → ℕ → Result W
  -- the size of the value and what is written to a buffer of the given size
  pub lgetxattr : W → Str → Str → ℕ → Result (ℕ × List ℕ)
  pub llistxattr : W → Str → ℕ → Result (ℕ × List ℕ)
  pub lremovexattr : W → Str → Str → Result W

-- EACCES
abbrev pub eacces : Errno
eacces = Errno.other 13

module _ {W Lock Vfs : Type 0} (os : Os W) (fd : FdOs W Lock Vfs) (s : Settings) where
  -- What is done with a processed path.
  abbrev on_path : {A : Type 0} → W → Str → (Str → Result A) → Result A
  on_path w path call = elim (process_path os s w path true) [
    | error e ↦ error e
    | done real_path ↦ call real_path
  ]

  unfoldable pub bindfs_truncate : W → Str → ℕ → Result W
  bindfs_truncate w path size = on_path w path (λ p. fd.truncate w p size)

  bindfs_ftruncate : W → ℕ → FuseFileInfo → Result W
  bindfs_ftruncate w size fi = fd.ftruncate w fi.fh size

  bindfs_utimens : W → Str → ℕ × ℕ → Result W
  bindfs_utimens w path ts = on_path w path (λ p. fd.utimensat w p ts)

  bindfs_fgetattr : FuseContext → W → Str → FuseFileInfo → Result Stat
  bindfs_fgetattr fc w path fi = on_path w path (λ p. elim (os.fstat w fi.fh) [
    | error e ↦ error e
    | done stbuf ↦ getattr_common os s fc w p stbuf
  ])

  -- The text that is written to the buffer, which keeps room for the final NUL.
  bindfs_readlink : W → Str → ℕ → Result Str
  bindfs_readlink w path size = on_path w path (λ p. fd.readlink w p (size - 1))

  bindfs_lock : W → FuseFileInfo → ℕ → Lock → Result (Lock × W)
  bindfs_lock w fi cmd lock = fd.fcntl w fi.fh cmd lock

  bindfs_flock : W → FuseFileInfo → ℕ → Result W
  bindfs_flock w fi op = fd.flock w fi.fh op

  bindfs_ioctl : W → ℕ → FuseFileInfo → List ℕ → Result (ℕ × List ℕ × W)
  bindfs_ioctl w cmd fi area = fd.ioctl w fi.fh cmd area

  bindfs_statfs : W → Str → Result Vfs
  bindfs_statfs w path = on_path w path (λ p. fd.statvfs w p)

  bindfs_release : W → FuseFileInfo → W
  bindfs_release w fi = fd.close w fi.fh

  bindfs_fsync : W → Bool → FuseFileInfo → Result W
  bindfs_fsync w isdatasync fi = if isdatasync then fd.fdatasync w fi.fh else fd.fsync w fi.fh

  -- Whether extended attributes may be changed.
  abbrev may_write : XattrPolicy → Bool
  may_write xattr_unimplemented = true
  may_write xattr_read_only = false
  may_write xattr_read_write = true

  unfoldable pub bindfs_setxattr : W → Str → Str → List ℕ → ℕ → Result W
  bindfs_setxattr w path name value flags =
      if may_write s.xattr_policy
      then on_path w path (λ p. fd.lsetxattr w p name value flags)
      else error eacces

  bindfs_getxattr : W → Str → Str → ℕ → Result (ℕ × List ℕ)
  bindfs_getxattr w path name size = on_path w path (λ p. fd.lgetxattr w p name size)

  bindfs_listxattr : W → Str → ℕ → Result (ℕ × List ℕ)
  bindfs_listxattr w path size = on_path w path (λ p. fd.llistxattr w p size)

  unfoldable pub bindfs_removexattr : W → Str → Str → Result W
  bindfs_removexattr w path name =
      if may_write s.xattr_policy
      then on_path w path (λ p. fd.lremovexattr w p name)
      else error eacces
