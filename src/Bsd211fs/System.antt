-- ===== src/Bsd211fs/System.antt =====
-- Making, mounting, syncing and ending a filesystem of 2.11BSD: `bsd211fs_mkfs`, `bsd211fs_initrootdir`,
-- `bsd211fs_init`, `bsd211fs_sync`, `bsd211fs_shutdown` and `bsd211fs_statfs` of src/bsd211fs.c, with
-- `bsd211_zerocore` of src/bsd211adapt.c. `bsd211fs_initialized` is passed explicitly, and where it is
-- set is in `Mounted`.
pub mod NewDirs
pub mod Root
pub mod Tests
use retro_fuse.Prelude.{
  ℕ, zero, suc, ◌+◌, ◌-◌, ◌*◌, ◌/◌, ◌%◌, ◌^◌, Bool, true, false, not, Option, none, some, List, [],
  ◌∷◌, ◌++◌, ◌==◌, if◌then◌else◌, replicate, drop,
}
use retro_fuse.Prelude.Int.{ℤ, pos, neg, eqb_ℤ}
use retro_fuse.Errno.{ebusy, einval, eio}
use retro_fuse.V6fs.Kernel.{Sys, M, ◌>>=◌, ◌>>◌, pure, clear_error, get_error, last_error}
use retro_fuse.V6fs.System.{word}
use retro_fuse.V7fs.System.{long}
use retro_fuse.Bsd211fs.Kernel.{Kernel, read_clock}
use retro_fuse.Bsd211fs.Groups.{nogroup}
use retro_fuse.Bsd211fs.Listing.Blocks.{
  root_number, lost_found_number, root_block, lost_found_block,
}
use retro_fuse.Bsd211fs.Sizes.{Params, mkfs_params, bsd211fs_initfreelist}

-- The fields of the superblock in memory that the code reads or sets; the pair of flags is MNT_RDONLY and
-- MNT_WASCLEAN.
pub record Super : Type 0 where
  pub fs_isize : ℕ
  pub fs_fsize : ℕ
  pub fs_step : ℕ
  pub fs_cyl : ℕ
  pub fs_time : ℕ
  pub fs_fmod : Bool
  pub fs_ronly : Bool
  pub fs_ilock : Bool
  pub fs_flock : Bool
  pub fs_tfree : ℕ
  pub fs_tinode : ℕ
  pub fs_lasti : ℕ
  pub fs_nbehind : ℕ
  pub fs_flags : Bool × Bool

-- More of the kernel: clearing its memory and setting up its tables, the superblock of the mount, the
-- root and the current directory, groups and limits, and blocks. `bread` answers the error of the buffer
-- and its bytes; `balloc` a free block; `ufs_sync` an error number.
pub record Boot (K : Kernel) : Type 0 where
  pub clear_core : K.Core → K.Core
  pub ihinit : M K.Core (Unit {0})
  pub bhinit : M K.Core (Unit {0})
  pub binit : M K.Core (Unit {0})
  pub nchinit : M K.Core (Unit {0})
  pub get_super : K.Core → Super
  pub set_super : Super → K.Core → K.Core
  pub disk_super : List ℕ → Super
  pub iunlock : ℕ → M K.Core (Unit {0})
  pub set_rootdir : ℕ → M K.Core (Unit {0})
  pub set_cdir : ℕ → M K.Core (Unit {0})
  pub set_groups : List ℕ → M K.Core (Unit {0})
  pub unlimit : M K.Core (Unit {0})
  pub free : ℕ → M K.Core (Unit {0})
  pub balloc : M K.Core (Option ℕ)
  pub bread : (blkno : ℕ) → M K.Core (ℕ × List ℕ)
  pub bwrite : (blkno : ℕ) → List ℕ → M K.Core (Unit {0})
  pub ufs_sync : M K.Core ℕ
  pub dsk_flush : M K.Core ℤ

-- INOPB
abbrev pub inopb : ℕ
inopb = 16

-- `struct bsd211_dinode`: mode, links, ids, size, the first of seven addresses, five reserved words and the
-- flags, and three times.
abbrev pub disk_inode : (mode nlink size addr time : ℕ) → List ℕ
disk_inode mode nlink size addr time =
    word mode
    ++ word nlink
    ++ word 0
    ++ word 0
    ++ long size
    ++ long addr
    ++ replicate 36 0
    ++ long time
    ++ long time
    ++ long time

-- The reserved inode, the root directory and lost+found.
abbrev pub first_inodes : (rootblk lfblk time lftime : ℕ) → List ℕ
first_inodes rootblk lfblk time lftime =
    disk_inode 0x8000 0 0 0 0
    ++ disk_inode 0x41FF 3 512 rootblk time
    ++ disk_inode 0x41FF 2 1024 lfblk lftime

-- What is gone on with where there is no error, and else -u_error.
unfoldable pub unless_error : {C : Type 0} → M C ℤ → M C ℤ
unless_error next = do e ← get_error; if not (e == 0) then last_error else next

module _ (K : Kernel) (B : Boot K) where
  unfoldable pub bsd211_zerocore : M K.Core (Unit {0})
  bsd211_zerocore s = (
    tt,
    record {
      error = 0;
      uid = 0;
      gid = 0;
      ruid = 0;
      rgid = 0;
      time = (0, 0);
      core = B.clear_core s.core;
    },
  )

  unfoldable pub read_super : M K.Core Super
  read_super s = (B.get_super s.core, s)

  unfoldable pub write_super : Super → M K.Core (Unit {0})
  write_super fs s = (tt, record s { core = B.set_super fs s.core })

  -- How the kernel's memory is set up.
  unfoldable pub init_tables : M K.Core (Unit {0})
  unfolding bsd211_zerocore
  init_tables = do bsd211_zerocore; B.ihinit; B.bhinit; B.binit; B.nchinit

  -- A new block for a directory, filled and written; what is gone on with gets its number.
  unfoldable pub fill_block : (block : List ℕ) → (next : ℕ → M K.Core ℤ) → Option ℕ → M K.Core ℤ
  unfolding unless_error
  fill_block block next none = last_error
  fill_block block next (some blkno) = do B.bwrite blkno block; unless_error (next blkno)

  unfoldable pub new_block : (block : List ℕ) → (next : ℕ → M K.Core ℤ) → M K.Core ℤ
  unfolding fill_block
  new_block block next = do o ← B.balloc; fill_block block next o

  -- The first three inodes in the first block of the table.
  unfoldable pub put_inodes : (inodes bytes : List ℕ) → M K.Core ℤ
  unfolding unless_error read_super write_super
  put_inodes inodes bytes = do
    fs ← read_super
    write_super (record fs { fs_tinode = (fs.fs_tinode + 65536 - 3) % 65536 })
    B.bwrite 2 (inodes ++ drop 192 bytes)
    unless_error (pure (pos 0))

  unfoldable pub write_inodes : (inodes : List ℕ) → M K.Core ℤ
  unfolding put_inodes
  write_inodes inodes = do (failed, bytes) ← B.bread 2; unless_error (put_inodes inodes bytes)

  unfoldable pub bsd211fs_initrootdir : M K.Core ℤ
  unfolding new_block write_inodes
  bsd211fs_initrootdir = do
    clear_error
    lftime ← read_clock K
    new_block lost_found_block (λ lfblk. (do
      time ← read_clock K
      new_block root_block (λ rootblk. write_inodes (first_inodes rootblk lfblk time lftime))))

  -- The blocks of the inode table from `iblk` on, and then the rest.
  unfoldable pub clear_table : (left iblk : ℕ) → (rest : M K.Core ℤ) → M K.Core ℤ
  unfolding unless_error read_super write_super
  clear_table zero iblk rest = rest
  clear_table (suc k) iblk rest = do
    B.bwrite iblk (replicate 1024 0)
    unless_error (do
      fs ← read_super
      write_super (record fs { fs_tinode = (fs.fs_tinode + inopb) % 65536 })
      clear_table k (iblk + 1) rest)

  pub free_all : List ℕ → M K.Core (Unit {0})
  free_all [] = pure tt
  free_all (b ∷ bs) = do B.free b; free_all bs

  unfoldable pub bsd211fs_sync : M K.Core ℤ
  unfolding read_super write_super
  bsd211fs_sync = do
    fs ← read_super
    if not fs.fs_fmod then pure (pos 0) else (do
      K.refreshclock
      time ← read_clock K
      fs ← read_super
      write_super (record fs { fs_time = time })
      res ← B.ufs_sync
      flushed ← B.dsk_flush
      pure (if not (res == 0) then neg res else flushed))

  -- Behind the inode table: the free list, the root directory, and the label `exit`.
  unfoldable pub fill_disk : (blocks : List ℕ) → M K.Core ℤ
  unfolding free_all bsd211fs_initrootdir bsd211fs_sync bsd211_zerocore
  fill_disk blocks = do
    free_all blocks
    res ← bsd211fs_initrootdir
    res ← if not (eqb_ℤ res (pos 0)) then pure res else bsd211fs_sync
    bsd211_zerocore
    pure res

  unfoldable pub make_filesystem : (fssize : ℕ) → Params → (blocks : List ℕ) → M K.Core ℤ
  unfolding init_tables clear_table fill_disk
  make_filesystem fssize p blocks = do
    init_tables
    K.refreshclock
    clear_error
    time ← read_clock K
    write_super (record {
      fs_isize = p.isize + 2;
      fs_fsize = fssize;
      fs_step = p.fm;
      fs_cyl = p.fn;
      fs_time = time;
      fs_fmod = true;
      fs_ronly = false;
      fs_ilock = false;
      fs_flock = false;
      fs_tfree = 0;
      fs_tinode = 0;
      fs_lasti = 0;
      fs_nbehind = 0;
      fs_flags = (false, false);
    })
    clear_table p.isize 2 (fill_disk blocks)

  unfoldable pub with_blocks : (fssize : ℕ) → Params → Option (List ℕ) → M K.Core (Option ℤ)
  unfolding make_filesystem
  with_blocks fssize p none = pure none
  with_blocks fssize p (some blocks) = do res ← make_filesystem fssize p blocks; pure (some res)

  -- `none` is an initial free list that never ends.
  unfoldable pub bsd211fs_mkfs :
      (initialized : Bool) → (fssize iratio n m : ℕ) → M K.Core (Option ℤ)
  unfolding with_blocks bsd211fs_initfreelist
  bsd211fs_mkfs true fssize iratio n m = pure (some (neg ebusy))
  bsd211fs_mkfs false fssize iratio n m = elim (mkfs_params fssize iratio n m) [
    | none ↦ pure (some (neg einval))
    | some p ↦ with_blocks fssize p (bsd211fs_initfreelist fssize (p.isize + 2) p.fn p.fm)
  ]

  -- An inode of the root, set as a directory and unlocked, or -EIO.
  unfoldable pub root_dir : (set_dir : ℕ → M K.Core (Unit {0})) → (next : M K.Core ℤ) → M K.Core ℤ
  root_dir set_dir next = do
    o ← K.iget root_number
    elim o [ none ↦ pure (neg eio) | some ip ↦ (do set_dir ip; B.iunlock ip; next) ]

  unfoldable pub set_dirs : M K.Core ℤ
  unfolding root_dir
  set_dirs =
      root_dir B.set_rootdir
        (root_dir B.set_cdir (do B.set_groups (replicate 16 nogroup); B.unlimit; pure (pos 0)))

  -- The superblock of the mount; the flags have just been set, so MNT_CLEAN is not among them.
  unfoldable pub mounted_super : (readonly : Bool) → Super → Super
  mounted_super readonly fs = record fs {
    fs_ronly = readonly;
    fs_fmod = if not readonly then true else fs.fs_fmod;
    fs_ilock = false;
    fs_flock = false;
    fs_nbehind = 0;
    fs_lasti = 1;
    fs_flags = (readonly, false);
  }

  unfoldable pub mount_root : (readonly : Bool) → Super → M K.Core ℤ
  unfolding set_dirs mounted_super write_super
  mount_root readonly disk = do
    let fs = mounted_super readonly disk
    write_super fs
    res ← if fs.fs_fmod then B.ufs_sync else pure 0
    if not (res == 0) then pure (neg res) else set_dirs

  unfoldable pub bsd211fs_init : (initialized readonly : Bool) → M K.Core ℤ
  unfolding init_tables mount_root
  bsd211fs_init true readonly = pure (neg ebusy)
  bsd211fs_init false readonly = do
    init_tables
    (failed, bytes) ← B.bread 1
    if not (failed == 0) then pure (neg failed) else mount_root readonly (B.disk_super bytes)

  -- The result is the error number itself.
  unfoldable pub bsd211fs_shutdown : (initialized : Bool) → M K.Core ℤ
  unfolding bsd211_zerocore
  bsd211fs_shutdown false = pure (pos 0)
  bsd211fs_shutdown true = do res ← B.ufs_sync; bsd211_zerocore; pure (pos res)

-- The fields of `struct statvfs` that are set and not constant.
pub record StatVfs : Type 0 where
  pub f_blocks : ℕ
  pub f_bfree : ℕ
  pub f_bavail : ℕ
  pub f_files : ℕ
  pub f_ffree : ℕ
  pub f_favail : ℕ

unfoldable pub bsd211fs_statfs : Super → StatVfs
bsd211fs_statfs fs = record {
  f_blocks = fs.fs_fsize;
  f_bfree = fs.fs_tfree;
  f_bavail = fs.fs_tfree;
  f_files = (fs.fs_isize - 2) * inopb;
  f_ffree = fs.fs_tinode;
  f_favail = fs.fs_tinode;
}
