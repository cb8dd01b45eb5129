-- ===== src/Posix.antt =====
-- What the C code sees of the system: return codes, `struct stat`, and the tests of <sys/stat.h>.
pub mod Strtol
pub mod Strtok
use cachefs.Prelude.{ℕ, ◌/◌, ◌%◌, Bool, ◌==◌}

-- The 0 and -1 that the cache functions return.
pub data Status : Type 0 where
  ok failed : Status

-- The sign of what a comparison of `qsort` and `bsearch` returns.
pub data Sign : Type 0 where
  negative zero positive : Sign

-- The fields of `struct stat` that the program reads or writes, or that `lstat` fills and a cleared
-- buffer loses. A time is in seconds, with its nanoseconds apart.
pub record Stat : Type 0 where
  pub mode : ℕ
  pub nlink : ℕ
  pub size : ℕ
  pub mtime : ℕ
  pub ctime : ℕ
  pub uid : ℕ
  pub gid : ℕ
  pub ino : ℕ
  pub dev : ℕ
  pub rdev : ℕ
  pub blksize : ℕ
  pub blocks : ℕ
  pub atime : ℕ
  pub atime_nsec : ℕ
  pub mtime_nsec : ℕ
  pub ctime_nsec : ℕ

-- The values of `errno` that the program tests or returns.
pub data Errno : Type 0 where
  eperm enoent eio einval eoverflow enomem : Errno
  other : ℕ → Errno

-- (mode & S_IFMT) == S_IFDIR and its like: S_IFMT is 0170000.
abbrev pub file_type : ℕ → ℕ
file_type mode = mode / 4096 % 16

abbrev pub is_dir : ℕ → Bool
is_dir mode = file_type mode == 4

abbrev pub is_blk : ℕ → Bool
is_blk mode = file_type mode == 6

abbrev pub is_reg : ℕ → Bool
is_reg mode = file_type mode == 8

abbrev pub is_lnk : ℕ → Bool
is_lnk mode = file_type mode == 10
