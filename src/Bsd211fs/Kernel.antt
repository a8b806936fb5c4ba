-- ===== src/Bsd211fs/Kernel.antt =====
-- The kernel of 2.11BSD as src/bsd211fs.c calls it: its routines are parameters over an unknown memory
-- `Core`. The user structure is that of V6fs.Kernel; `gid` is `u_groups[0]`.
use retro_fuse.Prelude.{ℕ, Bool, Option, List}
use retro_fuse.Prelude.Int.{ℤ}
use retro_fuse.V6fs.Kernel.{FilePath, M, ◌>>◌, clear_error, last_error}

-- The fields of an inode that the code reads or writes; flags as truth values.
pub record Inode : Type 0 where
  pub mode : ℕ
  pub uid : ℕ
  pub gid : ℕ
  pub rdev : ℕ
  pub accessed : Bool
  pub updated : Bool
  pub changed : Bool

-- The fields of `struct bsd211_stat` that are read.
pub record FsStat : Type 0 where
  pub dev : ℕ
  pub ino : ℕ
  pub mode : ℕ
  pub nlink : ℕ
  pub uid : ℕ
  pub gid : ℕ
  pub rdev : ℕ
  pub size : ℕ
  pub blksize : ℕ
  pub blocks : ℕ
  pub atime : ℕ
  pub mtime : ℕ
  pub ctime : ℕ

-- An open file: whether it is a file of the filesystem, its size and its offset.
pub record OpenFile : Type 0 where
  pub is_inode : Bool
  pub size : ℤ
  pub offset : ℤ

pub data Lookup : Type 0 where
  find create : Lookup

-- `access` is asked for IWRITE and answers 0 or 1. `no_atime` is the flag MNT_NOATIME of the filesystem.
pub record Kernel : Type 1 where
  pub Core : Type 0
  pub refreshclock : M Core (Unit {0})
  pub namei : Lookup → (follow : Bool) → FilePath → M Core (Option ℕ)
  pub iget : (inumber : ℕ) → M Core (Option ℕ)
  pub iput : ℕ → M Core (Unit {0})
  pub maknode : (mode : ℕ) → M Core (Option ℕ)
  pub ino_stat : ℕ → M Core (ℤ × FsStat)
  pub iupdat : ℕ → (atime mtime : ℕ) → M Core (Unit {0})
  pub access : ℕ → M Core ℕ
  pub suser : M Core Bool
  pub groupmember : ℕ → M Core Bool
  pub open_file : FilePath → (mode crtmode : ℕ) → M Core ℕ
  pub close : (fd : ℕ) → M Core (Unit {0})
  pub link : (target linkname : FilePath) → M Core (Unit {0})
  pub unlink : FilePath → M Core (Unit {0})
  pub rename : (from to : FilePath) → M Core (Unit {0})
  pub chmod : FilePath → (mode : ℕ) → M Core (Unit {0})
  pub truncate : FilePath → (length : ℕ) → M Core (Unit {0})
  pub ftruncate : (fd length : ℕ) → M Core (Unit {0})
  pub stat1 : FilePath → M Core FsStat
  pub saccess : FilePath → (mode : ℕ) → M Core (Unit {0})
  pub readlink : FilePath → (count : ℕ) → M Core (List ℕ)
  pub symlink : (target linkname : FilePath) → M Core (Unit {0})
  pub mkdir : FilePath → (mode : ℕ) → M Core (Unit {0})
  pub rmdir : FilePath → M Core (Unit {0})
  pub fsync : (fd : ℕ) → M Core (Unit {0})
  pub read : (fd count : ℕ) → M Core (List ℕ)
  pub write : (fd : ℕ) → List ℕ → M Core ℕ
  pub getf : (fd : ℕ) → M Core (Option OpenFile)
  pub set_offset : (fd : ℕ) → ℤ → M Core (Unit {0})
  pub inode : Core → ℕ → Inode
  pub set_inode : ℕ → Inode → Core → Core
  pub clock : Core → ℕ
  pub no_atime : Core → Bool

module _ (K : Kernel) where
  unfoldable pub read_inode : ℕ → M K.Core Inode
  read_inode ip s = (K.inode s.core ip, s)

  unfoldable pub write_inode : ℕ → Inode → M K.Core (Unit {0})
  write_inode ip i s = (tt, record s { core = K.set_inode ip i s.core })

  unfoldable pub read_clock : M K.Core ℕ
  read_clock s = (K.clock s.core, s)

  -- How most calls begin, and a call of one routine of the kernel.
  unfoldable pub begin : M K.Core (Unit {0})
  unfolding clear_error ◌>>◌
  begin = clear_error >> K.refreshclock

  unfoldable pub call : M K.Core (Unit {0}) → M K.Core ℤ
  unfolding begin
  call routine = do begin; routine; last_error
